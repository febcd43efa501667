-- ===== src/Codex/Scan.antt =====
-- timeout/activity_source_codex_app_server_api.go: the scan of the codex app-servers, with the cached
-- connections.
pub mod Laws
pub mod Fresh
use che_machine_exec.Common.{
  ℕ, ◌*◌, ◌+◌, Text, codes, text_eq, is_empty, Bool, true, false, not, ◌&&◌, Option, none, some,
  List, [], ◌∷◌, ◌++◌, Result, ok, err, if◌then◌else◌,
}
use che_machine_exec.Common.Int.{ℤ, pos, negsuc, leb_ℤ, ltb_ℤ, ◌-ℤ◌}
use che_machine_exec.Common.Paths.{join_path}
use che_machine_exec.Watcher.Config.{Folding}
use che_machine_exec.Watcher.Durations.{default_activity_window}
use che_machine_exec.Tty.Scan.{Entry}
use che_machine_exec.Codex.Discovery.{
  Candidate, ProcFiles, find_codex_app_server_processes, resolve_codex_base_dir,
}
use che_machine_exec.Codex.Client.{
  Client, CallError, rpc_error, Thread, Decoders, thread_loaded_list, thread_read, dial,
}

-- What a scan reads: /proc, the sockets (`none` if a connection cannot be opened), the decoder, and the
-- time.
pub record World : Type 0 where
  pub folding : Folding
  pub files : ProcFiles
  pub connect : Text → Option Client
  pub decoders : Decoders
  pub now : ℤ

-- `conns`.
abbrev pub Conns : Type 0
Conns = List (Text × Client)

unfoldable pub find_conn : Text → Conns → Option Client
unfolding text_eq
find_conn pid [] = none
find_conn pid (e ∷ conns) = if text_eq e.0 pid then some e.1 else find_conn pid conns

-- `dropConnection`.
unfoldable pub drop_connection : Text → Conns → Conns
unfolding text_eq
drop_connection pid [] = []
drop_connection pid (e ∷ conns) =
    let rest = drop_connection pid conns in if text_eq e.0 pid then rest else e ∷ rest

-- A connection under its PID, also after its client has changed.
abbrev pub put_conn : Text → Client → Conns → Conns
put_conn pid c conns = (pid, c) ∷ drop_connection pid conns

unfoldable pub is_live : List Candidate → Text → Bool
unfolding text_eq
is_live [] pid = false
is_live (c ∷ candidates) pid = if text_eq c.pid pid then true else is_live candidates pid

unfoldable pub prune_stale_connections : List Candidate → Conns → Conns
unfolding is_live
prune_stale_connections candidates [] = []
prune_stale_connections candidates (e ∷ conns) =
    let rest = prune_stale_connections candidates conns in
    if is_live candidates e.0 then e ∷ rest else rest

unfoldable pub get_or_dial_client : World → Text → Text → Conns → Option Client
unfolding find_conn dial
get_or_dial_client w pid socket_path conns = elim (find_conn pid conns) [
  | some c ↦ some c
  | none ↦ dial (w.connect socket_path)
]

-- The threads that were read, the client, and whether the connection is to be dropped.
pub record Reading : Type 0 where
  pub threads : List Thread
  pub client : Client
  pub is_dead : Bool

abbrev pub is_rpc_error : CallError → Bool
is_rpc_error (rpc_error m c t) = true
is_rpc_error _ = false

abbrev pub with_thread : Thread → Reading → Reading
with_thread t r = record r { threads = t ∷ r.threads }

-- The loop over the loaded threads.
unfoldable pub read_threads : Decoders → List Text → Client → Reading
unfolding thread_read
read_threads d [] c = record { threads = []; client = c; is_dead = false }
read_threads d (id ∷ ids) c =
    let (r, after) = thread_read d id c in
    elim r [
      | ok t ↦ with_thread t (read_threads d ids after)
      | err e ↦ elim (is_rpc_error e) [
        | true ↦ read_threads d ids after
        | false ↦ record { threads = []; client = after; is_dead = true }
      ]
    ]

-- The loop that looks for the freshest thread, with the best one before.
unfoldable pub freshest_from : Thread → List Thread → Thread
freshest_from best [] = best
freshest_from best (t ∷ ts) =
    freshest_from (if ltb_ℤ best.updated_at t.updated_at then t else best) ts

abbrev pub seconds_to_time : ℤ → ℤ
seconds_to_time (pos n) = pos (n * 1000000000)
seconds_to_time (negsuc n) = negsuc (n * 1000000000 + 999999999)

abbrev pub or_default_window : ℤ → ℤ
or_default_window window = if leb_ℤ window (pos 0) then default_activity_window else window

unfoldable pub is_fresh : ℤ → ℤ → Thread → Bool
is_fresh now window t =
    let age = now -ℤ seconds_to_time t.updated_at in
    leb_ℤ (pos 0) age && ltb_ℤ age (or_default_window window)

unfoldable pub has_fresh_thread : ℤ → ℤ → List Thread → Bool
unfolding freshest_from is_fresh
has_fresh_thread now window [] = false
has_fresh_thread now window (t ∷ ts) = is_fresh now window (freshest_from t ts)

-- `scanCandidate` on a connection: the answer, and the connections after it.
unfoldable pub scan_client : World → ℤ → Text → Client → Conns → Bool × Conns
unfolding thread_loaded_list read_threads has_fresh_thread drop_connection
scan_client w window pid c conns =
    let (r, listed) = thread_loaded_list w.decoders c in
    elim r [
      | err e ↦ (false, drop_connection pid conns)
      | ok ids ↦
          let reading = read_threads w.decoders ids listed in
          (
            has_fresh_thread w.now window reading.threads,
            if reading.is_dead
                then drop_connection pid conns
                else put_conn pid reading.client conns,
          )
    ]

unfoldable pub scan_socket : World → ℤ → Text → Text → Conns → Bool × Conns
unfolding get_or_dial_client scan_client
scan_socket w window pid socket_path conns = elim (get_or_dial_client w pid socket_path conns) [
  | none ↦ (false, conns)
  | some c ↦ scan_client w window pid c conns
]

abbrev pub default_codex_app_server_socket_path : Text → Text
default_codex_app_server_socket_path base_dir =
    join_path base_dir (codes "app-server-control/app-server-control.sock")

-- The socket: the one of the command line, or the default one below the base directory of the process.
unfoldable pub socket_of : World → Candidate → Option Text
unfolding is_empty resolve_codex_base_dir
socket_of w cand =
    if not (is_empty cand.socket_path)
    then some cand.socket_path
    else if is_empty (resolve_codex_base_dir w.files cand.pid)
    then none
    else some (default_codex_app_server_socket_path (resolve_codex_base_dir w.files cand.pid))

unfoldable pub label_of : Candidate → Text → Text
label_of cand socket =
    codes "codex-app-server (pid " ++ (cand.pid ++ (codes ", socket " ++ (socket ++ codes ")")))

unfoldable pub scan_candidate : World → ℤ → Candidate → Conns → Option Text × Conns
unfolding socket_of scan_socket label_of
scan_candidate w window cand conns = elim (socket_of w cand) [
  | none ↦ (none, conns)
  | some socket ↦
      let (active, after) = scan_socket w window cand.pid socket conns in
      (if active then some (label_of cand socket) else none, after)
]

-- The loop over the candidates; the first active one ends it.
unfoldable pub scan_candidates : World → ℤ → List Candidate → Conns → Option Text × Conns
unfolding scan_candidate
scan_candidates w window [] conns = (none, conns)
scan_candidates w window (cand ∷ cands) conns =
    let (found, after) = scan_candidate w window cand conns in
    elim found [ some label ↦ (some label, after) | none ↦ scan_candidates w window cands after ]

-- `Scan`: a label, if it found activity, and the connections after it.
unfoldable pub scan : World → Text → ℤ → Option (List Entry) → Conns → Option Text × Conns
unfolding find_codex_app_server_processes prune_stale_connections scan_candidates
scan w my_pid window entries conns =
    let cands = find_codex_app_server_processes w.folding w.files my_pid entries in
    scan_candidates w window cands (prune_stale_connections cands conns)
