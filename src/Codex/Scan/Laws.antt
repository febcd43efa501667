-- ===== src/Codex/Scan/Laws.antt =====
-- What a scan reports, and which connections it keeps.
use che_machine_exec.Common.{
  ◌≡◌, refl, inl, inr, Text, text_eq, text_eq_refl, Bool, true, false, Option, List, [], ◌∷◌,
  Result, ok, err, if◌then◌else◌, Bool-cases, Option-cases, All,
}
use che_machine_exec.Common.Int.{ℤ}
use che_machine_exec.Tty.Scan.{Entry}
use che_machine_exec.Codex.Discovery.{Candidate, find_codex_app_server_processes}
use che_machine_exec.Codex.Client.{Client, CallError, thread_loaded_list}
use che_machine_exec.Codex.Scan.{
  World, Conns, drop_connection, put_conn, is_live, prune_stale_connections, get_or_dial_client,
  read_threads, has_fresh_thread, scan_client, scan_socket, socket_of, scan_candidate,
  scan_candidates, scan,
}

-- Every connection belongs to a candidate.
abbrev pub AreLive : List Candidate → Conns → Type 0
AreLive cands conns = All (λ (e : Text × Client). is_live cands e.0 ≡ true) conns

drop_connection-AreLive :
    (cands : List Candidate) (pid : Text) (conns : Conns)
    → AreLive cands conns
    → AreLive cands (drop_connection pid conns)
unfolding drop_connection
drop_connection-AreLive cands pid [] h = tt
drop_connection-AreLive cands pid (e ∷ conns) h = elim (Bool-cases (text_eq e.0 pid)) [
  | inl k ↦ rw (k, All) (drop_connection-AreLive cands pid conns h.1)
  | inr k ↦ rw (k, All) (h.0, drop_connection-AreLive cands pid conns h.1)
]

prune_stale_connections-AreLive :
    (cands : List Candidate) (conns : Conns) → AreLive cands (prune_stale_connections cands conns)
unfolding prune_stale_connections
prune_stale_connections-AreLive cands [] = tt
prune_stale_connections-AreLive cands (e ∷ conns) = elim (Bool-cases (is_live cands e.0)) [
  | inl k ↦ rw (k, All) (k, prune_stale_connections-AreLive cands conns)
  | inr k ↦ rw (k, All) (prune_stale_connections-AreLive cands conns)
]

scan_client-AreLive :
    (w : World) (window : ℤ) (cands : List Candidate) (pid : Text) (c : Client) (conns : Conns)
    → is_live cands pid ≡ true
    → AreLive cands conns
    → AreLive cands (scan_client w window pid c conns).1
unfolding scan_client
scan_client-AreLive w window cands pid c conns live h = of_list (thread_loaded_list w.decoders c).0
  where
    dropped : AreLive cands (drop_connection pid conns)
    dropped = drop_connection-AreLive cands pid conns h

    of_reading :
        (b : Bool) (after : Client)
        → AreLive cands (if b then drop_connection pid conns else put_conn pid after conns)
    of_reading true after = dropped
    of_reading false after = (live, dropped)

    of_list :
        (r : Result CallError (List Text))
        → AreLive cands (
            let answer : Bool × Conns = elim r [
              | err e ↦ (false, drop_connection pid conns)
              | ok ids ↦
                  let reading = read_threads w.decoders ids (thread_loaded_list w.decoders c).1 in
                  (
                    has_fresh_thread w.now window reading.threads,
                    if reading.is_dead
                        then drop_connection pid conns
                        else put_conn pid reading.client conns,
                  )
            ] in
            answer.1)
    of_list (err e) = dropped
    of_list (ok ids) =
        let reading = read_threads w.decoders ids (thread_loaded_list w.decoders c).1 in
        of_reading reading.is_dead reading.client

scan_candidate-AreLive :
    (w : World) (window : ℤ) (cands : List Candidate) (cand : Candidate) (conns : Conns)
    → is_live cands cand.pid ≡ true
    → AreLive cands conns
    → AreLive cands (scan_candidate w window cand conns).1
unfolding scan_candidate scan_socket
scan_candidate-AreLive w window cands cand conns live h = elim (Option-cases (socket_of w cand)) [
  | inl e ↦ rw (e, scan_candidate) h
  | inr (socket, e) ↦ elim (Option-cases (get_or_dial_client w cand.pid socket conns)) [
    | inl d ↦ rw (e, scan_candidate, d, scan_socket) h
    | inr (c, d) ↦
        rw (e, scan_candidate, d, scan_socket)
          (scan_client-AreLive w window cands cand.pid c conns live h)
  ]
]

-- Each of the candidates is live.
AllLive : List Candidate → List Candidate → Type 0
AllLive cands some_of = All (λ (c : Candidate). is_live cands c.pid ≡ true) some_of

scan_candidates-AreLive :
    (w : World) (window : ℤ) (cands some_of : List Candidate) (conns : Conns)
    → AllLive cands some_of
    → AreLive cands conns
    → AreLive cands (scan_candidates w window some_of conns).1
unfolding scan_candidates AllLive
scan_candidates-AreLive w window cands [] conns live h = h
scan_candidates-AreLive w window cands (cand ∷ some_of) conns live h =
    let one = scan_candidate-AreLive w window cands cand conns live.0 h in
    elim (Option-cases (scan_candidate w window cand conns).0) [
      | inr (label, e) ↦ rw (e, scan_candidates) one
      | inl e ↦
          rw (e, scan_candidates)
            (scan_candidates-AreLive w window cands some_of (scan_candidate w window cand conns).1
              live.1 one)
    ]

is_live-weaken :
    (c : Candidate) (cands some_of : List Candidate)
    → AllLive cands some_of
    → AllLive (c ∷ cands) some_of
unfolding AllLive is_live
is_live-weaken c cands [] h = tt
is_live-weaken c cands (d ∷ some_of) h = (
  elim (Bool-cases (text_eq c.pid d.pid)) [ inl e ↦ rw e refl | inr e ↦ rw e h.0 ],
  is_live-weaken c cands some_of h.1,
)

all_live : (cands : List Candidate) → AllLive cands cands
unfolding AllLive is_live
all_live [] = tt
all_live (c ∷ cands) = (rw (text_eq_refl c.pid) refl, is_live-weaken c cands cands (all_live cands))

-- After a scan every cached connection belongs to a process that the scan has found, whatever was
-- cached before and whichever calls failed.
pub scan-AreLive :
    (w : World) (my_pid : Text) (window : ℤ) (entries : Option (List Entry)) (conns : Conns)
    → AreLive
        (find_codex_app_server_processes w.folding w.files my_pid entries)
        (scan w my_pid window entries conns).1
unfolding scan
scan-AreLive w my_pid window entries conns =
    let cands = find_codex_app_server_processes w.folding w.files my_pid entries in
    scan_candidates-AreLive w window cands cands (prune_stale_connections cands conns)
      (all_live cands) (prune_stale_connections-AreLive cands conns)
