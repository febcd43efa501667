-- ===== src/Codex/Scan/Fresh.antt =====
-- When a scan of the codex app-servers reports activity.
use che_machine_exec.Common.{
  ◌≡◌, ◌↔◌, refl, sym, subst, ◌∙◌, ap, ◌++◌, text_eq, text_eq_iff, ◌⊎◌, inl, inr, Text, Bool, true,
  false, Option, none, some, List, [], ◌∷◌, ok, err, if◌then◌else◌, arith, Bool-cases, Option-cases,
  Result-cases, All, In,
}
use che_machine_exec.Common.Int.{ℤ, pos, negsuc, ◌≤ℤ◌, ltb_ℤ}
use che_machine_exec.Tty.Scan.{Entry}
use che_machine_exec.Codex.Discovery.{Candidate, find_codex_app_server_processes}
use che_machine_exec.Codex.Client.{Client, CallError, Thread, thread_loaded_list, dial}
use che_machine_exec.Codex.Scan.{
  World, Conns, find_conn, get_or_dial_client, read_threads, freshest_from, is_fresh,
  has_fresh_thread, scan_client, scan_socket, socket_of, label_of, scan_candidate, scan_candidates,
  prune_stale_connections, scan,
}

-- A thread that no other one of the list was updated after.
abbrev pub IsFreshest : Thread → List Thread → Type 0
IsFreshest t ts = In t ts × All (λ (s : Thread). s.updated_at ≤ℤ t.updated_at) ts

All-le :
    (a b : ℤ) (ts : List Thread)
    → a ≤ℤ b
    → All (λ (s : Thread). s.updated_at ≤ℤ a) ts
    → All (λ (s : Thread). s.updated_at ≤ℤ b) ts
All-le a b [] le h = tt
All-le a b (t ∷ ts) le h = (let k = h.0 in omega arith, All-le a b ts le h.1)

freshest_from-IsFreshest :
    (best : Thread) (ts : List Thread) → IsFreshest (freshest_from best ts) (best ∷ ts)
unfolding freshest_from
freshest_from-IsFreshest best [] = (inl refl, (omega arith, tt))
freshest_from-IsFreshest best (t ∷ ts) = elim (Bool-cases (ltb_ℤ best.updated_at t.updated_at)) [
  | inl e ↦
      let same : freshest_from best (t ∷ ts) ≡ freshest_from t ts = rw e refl in
      let (at, all) = freshest_from-IsFreshest t ts in
      subst (λ f. IsFreshest f (best ∷ t ∷ ts)) (sym same)
        (inr at, (let k = all.0 in ground arith, all))
  | inr e ↦
      let same : freshest_from best (t ∷ ts) ≡ freshest_from best ts = rw e refl in
      let (at, all) = freshest_from-IsFreshest best ts in
      subst (λ f. IsFreshest f (best ∷ t ∷ ts)) (sym same)
        (
          elim at [ inl here ↦ inl here | inr later ↦ inr (inr later) ],
          (all.0, (let k = all.0 in ground arith, all.1)),
        )
]

antisym : (a b : ℤ) → a ≤ℤ b → b ≤ℤ a → a ≡ b
antisym (pos a) (pos b) le ge = ap pos (omega arith)
antisym (pos a) (negsuc b) le ge = absurd (omega arith)
antisym (negsuc a) (pos b) le ge = absurd (omega arith)
antisym (negsuc a) (negsuc b) le ge = ap negsuc (omega arith)

All-In : (P : Thread → Type 0) (ts : List Thread) (t : Thread) → All P ts → In t ts → P t
All-In P (s ∷ ts) t h (inl e) = subst P (sym e) h.0
All-In P (s ∷ ts) t h (inr at) = All-In P ts t h.1 at
All-In P [] t h at = absurd at

-- The threads that were read show activity exactly when the last update of them all is fresh: not in
-- the future, and less than the activity window ago.
pub has_fresh_thread_iff :
    (now window : ℤ) (ts : List Thread)
    → (has_fresh_thread now window ts ≡ true)
      ↔ ((t : Thread) × IsFreshest t ts × (is_fresh now window t ≡ true))
unfolding has_fresh_thread
has_fresh_thread_iff now window [] = (λ h. absurd (cc h), λ (t, at, f). absurd at.0)
has_fresh_thread_iff now window (t ∷ ts) = (
  λ h. (freshest_from t ts, freshest_from-IsFreshest t ts, h),
  λ (s, at, f). same_fresh s at f (freshest_from-IsFreshest t ts),
)
  where
    same_fresh :
        (s : Thread)
        → IsFreshest s (t ∷ ts)
        → is_fresh now window s ≡ true
        → IsFreshest (freshest_from t ts) (t ∷ ts)
        → is_fresh now window (freshest_from t ts) ≡ true
    same_fresh s at f best =
        let le =
          All-In (λ u. u.updated_at ≤ℤ s.updated_at) (t ∷ ts) (freshest_from t ts) at.1 best.0 in
        let ge =
          All-In (λ u. u.updated_at ≤ℤ (freshest_from t ts).updated_at) (t ∷ ts) s best.1 at.0 in
        unfold is_fresh in rw (antisym (freshest_from t ts).updated_at s.updated_at le ge) f

-- The client of a process: the one that the connections have under its PID, or a new one to the socket.
abbrev pub IsClientOf : World → Text → Text → Conns → Client → Type 0
IsClientOf w pid socket conns c =
    In (pid, c) conns
    ⊎ ((find_conn pid conns ≡ none)
        × ((raw : Client) × (w.connect socket ≡ some raw) × (dial (some raw) ≡ some c)))

find_conn-In :
    (pid : Text) (conns : Conns) (c : Client) → find_conn pid conns ≡ some c → In (pid, c) conns
unfolding find_conn
find_conn-In pid [] c h = absurd (cc h)
find_conn-In pid ((key, d) ∷ conns) c h = elim (Bool-cases (text_eq key pid)) [
  | inl e ↦
      let found : some d ≡ some c = rw (e, find_conn) at h in
      let same : d ≡ c = cc found in
      let is_key : key ≡ pid = (text_eq_iff key pid).0 e in
      inl (sym (ap (λ k. (k, d)) is_key ∙ ap (λ x. (pid, x)) same))
  | inr e ↦ inr (find_conn-In pid conns c (rw (e, find_conn) at h))
]

dial-some :
    (o : Option Client) (c : Client)
    → dial o ≡ some c
    → (raw : Client) × (o ≡ some raw) × (dial (some raw) ≡ some c)
unfolding dial
dial-some none c h = absurd (cc h)
dial-some (some raw) c h = (raw, refl, h)

get_or_dial_client-IsClientOf :
    (w : World) (pid socket : Text) (conns : Conns) (c : Client)
    → get_or_dial_client w pid socket conns ≡ some c
    → IsClientOf w pid socket conns c
unfolding get_or_dial_client
get_or_dial_client-IsClientOf w pid socket conns c h = elim (Option-cases (find_conn pid conns)) [
  | inl e ↦ inr (e, dial-some (w.connect socket) c (rw (e, get_or_dial_client) at h))
  | inr (d, e) ↦
      let found : some d ≡ some c = rw (e, get_or_dial_client) at h in
      inl (find_conn-In pid conns c (e ∙ found))
]

-- A connection of the candidate itself lists its threads, and the freshest of those that are read is fresh.
abbrev pub IsActive : World → ℤ → Candidate → Conns → Text → Type 0
IsActive w window cand conns label =
    (socket : Text) × (c : Client) × (ids : List Text) × (t : Thread) × (socket_of w cand
      ≡ some socket)
    × IsClientOf w cand.pid socket conns c
    × (label ≡ label_of cand socket)
    × ((thread_loaded_list w.decoders c).0 ≡ ok ids)
    × IsFreshest t (read_threads w.decoders ids (thread_loaded_list w.decoders c).1).threads
    × (is_fresh w.now window t ≡ true)

scan_client-fresh :
    (w : World) (window : ℤ) (pid : Text) (c : Client) (conns : Conns)
    → (scan_client w window pid c conns).0 ≡ true
    → (ids : List Text) × (t : Thread) × ((thread_loaded_list w.decoders c).0 ≡ ok ids)
      × IsFreshest t (read_threads w.decoders ids (thread_loaded_list w.decoders c).1).threads
      × (is_fresh w.now window t ≡ true)
unfolding scan_client
scan_client-fresh w window pid c conns h =
    of_list (Result-cases (thread_loaded_list w.decoders c).0)
  where
    of_list :
        ((e : CallError) × ((thread_loaded_list w.decoders c).0 ≡ err e))
          ⊎ ((ids : List Text) × ((thread_loaded_list w.decoders c).0 ≡ ok ids))
        → (ids : List Text) × (t : Thread) × ((thread_loaded_list w.decoders c).0 ≡ ok ids)
          × IsFreshest t (read_threads w.decoders ids (thread_loaded_list w.decoders c).1).threads
          × (is_fresh w.now window t ≡ true)
    of_list (inl (e, k)) = absurd (cc (rw (k, scan_client) at h))
    of_list (inr (ids, k)) =
        let threads = (read_threads w.decoders ids (thread_loaded_list w.decoders c).1).threads in
        let (t, at, f) = (has_fresh_thread_iff w.now window threads).0 (rw (k, scan_client) at h) in
        (ids, t, k, at, f)

if_some : (b : Bool) (a l : Text) → (if b then some a else none) ≡ some l → (a ≡ l) × (b ≡ true)
if_some true a l h = (cc h, refl)
if_some false a l h = absurd (cc h)

scan_candidate-IsActive :
    (w : World) (window : ℤ) (cand : Candidate) (conns : Conns) (label : Text)
    → (scan_candidate w window cand conns).0 ≡ some label
    → IsActive w window cand conns label
unfolding scan_candidate scan_socket
scan_candidate-IsActive w window cand conns label h = elim (Option-cases (socket_of w cand)) [
  | inl e ↦ absurd (cc (rw (e, scan_candidate) at h))
  | inr (socket, e) ↦ elim (Option-cases (get_or_dial_client w cand.pid socket conns)) [
    | inl d ↦ absurd (cc (rw (e, scan_candidate, d, scan_socket) at h))
    | inr (c, d) ↦
        let (same, on) =
          if_some (scan_client w window cand.pid c conns).0 (label_of cand socket) label
            (rw (e, scan_candidate, d, scan_socket) at h) in
        let (ids, t, listed, at, f) = scan_client-fresh w window cand.pid c conns on in
        (
          socket,
          c,
          ids,
          t,
          e,
          get_or_dial_client-IsClientOf w cand.pid socket conns c d,
          sym same,
          listed,
          at,
          f,
        )
  ]
]

-- The candidate is one of the list, those before it were scanned without a find, and it is active with
-- the connections that this has left.
abbrev pub IsFoundIn : World → ℤ → List Candidate → Conns → Text → Type 0
IsFoundIn w window cands conns label =
    (before : List Candidate) × (cand : Candidate) × (behind : List Candidate) × (held : Conns)
    × (cands ≡ before ++ cand ∷ behind)
    × (scan_candidates w window before conns ≡ (none, held))
    × IsActive w window cand held label

scan_candidates-IsFoundIn :
    (w : World) (window : ℤ) (cands : List Candidate) (conns : Conns) (label : Text)
    → (scan_candidates w window cands conns).0 ≡ some label
    → IsFoundIn w window cands conns label
unfolding scan_candidates
scan_candidates-IsFoundIn w window [] conns label h = absurd (cc h)
scan_candidates-IsFoundIn w window (cand ∷ cands) conns label h =
    elim (Option-cases (scan_candidate w window cand conns).0) [
      | inr (l, e) ↦
          let same : l ≡ label = cc (rw (e, scan_candidates) at h) in
          (
            [],
            cand,
            cands,
            conns,
            refl,
            refl,
            scan_candidate-IsActive w window cand conns label (e ∙ ap some same),
          )
      | inl e ↦
          let (before, c, behind, held, split, none_found, active) =
            scan_candidates-IsFoundIn w window cands (scan_candidate w window cand conns).1 label
              (rw (e, scan_candidates) at h) in
          (
            cand ∷ before,
            c,
            behind,
            held,
            ap (λ l. cand ∷ l) split,
            rw (e, scan_candidates) none_found,
            active,
          )
    ]

-- A scan that reports a label has found a process of a codex app-server for it, behind others that showed
-- no activity. A connection of that process, either the one that was kept under its PID at this time
-- or a new one to its own socket, lists its threads, and the freshest of the threads that could be read was
-- updated less than the activity window ago, and not in the future.
pub scan-IsActive :
    (w : World) (my_pid : Text) (window : ℤ) (entries : Option (List Entry)) (conns : Conns)
    (label : Text)
    → (scan w my_pid window entries conns).0 ≡ some label
    → let cands = find_codex_app_server_processes w.folding w.files my_pid entries in
      IsFoundIn w window cands (prune_stale_connections cands conns) label
unfolding scan
scan-IsActive w my_pid window entries conns label h =
    let cands = find_codex_app_server_processes w.folding w.files my_pid entries in
    scan_candidates-IsFoundIn w window cands (prune_stale_connections cands conns) label h
