-- ===== src/Lifecycle/Reach.antt =====
-- Execs in reachable states: what a check finds, and which ends were reported.
use che_machine_exec.Common.{
  ℕ, ◌≤◌, ◌≡◌, refl, sym, ap, ◌∙◌, ◌⊎◌, inl, inr, none, some, err, In, Option-cases, List, [], ◌∷◌,
  ◌++◌, Bool, true, false, subst,
}
use che_machine_exec.Exec.Resolver.{MachineExec}
use che_machine_exec.Exec.Manager.{Execs, get_by_id, check, resize, exec_not_found}
use che_machine_exec.Api.Rpc.{exec_failed, json_rpc_resize_exec}
use che_machine_exec.Terminal.Pty.{ExecEvent}
use che_machine_exec.Lifecycle.{
  System, Watcher, init, with_outcome, remove_ended, Step, creates, resizes, takes_size, finds,
  restores, passes, starts, ends, watches, receives, removes, publishes, Steps, start, onward,
  IsReachable,
}
use che_machine_exec.Lifecycle.Members.{AreDistinct}
use che_machine_exec.Lifecycle.Invariant.{
  IsSoundAll, event_id, watcher_ids, ended_ids, published, unpublished, event_ids,
}
use che_machine_exec.Lifecycle.Sound.{init_sound, steps_sound}

check_missing :
    (id : ℕ) (st : Execs)
    → get_by_id id st.exec_map ≡ none
    → (check id st ≡ err (exec_not_found id))
      × ((cols rows : ℕ)
          → json_rpc_resize_exec id cols rows st ≡ err (exec_failed (exec_not_found id)))
unfolding check json_rpc_resize_exec resize
check_missing id st h = (rw (h, check) refl, λ cols rows. rw (h, json_rpc_resize_exec, resize) refl)

reachable_sound : (s : System) → IsReachable s → IsSoundAll s
reachable_sound s steps = steps_sound init s steps init_sound

-- The exec is in the map and has a health watcher, or its request is about to start one; its end was
-- not reported.
abbrev pub IsLive : System → ℕ → Type 0
IsLive s id =
    ((e : MachineExec) × (get_by_id id s.execs.exec_map ≡ some e))
    × ((w : Watcher) × In (id, w) s.watchers)
    × (¬ In id (event_ids s))

-- No operation finds the exec, and the event of its end is about to be published.
abbrev pub IsRemoved : System → ℕ → Type 0
IsRemoved s id =
    In id (unpublished s.ended)
    × (¬ In id (event_ids s))
    × (check id s.execs ≡ err (exec_not_found id))
    × ((cols rows : ℕ)
        → json_rpc_resize_exec id cols rows s.execs ≡ err (exec_failed (exec_not_found id)))

-- The end of the exec was reported, and no operation finds it.
abbrev pub IsGone : System → ℕ → Type 0
IsGone s id =
    In id (event_ids s)
    × (check id s.execs ≡ err (exec_not_found id))
    × ((cols rows : ℕ)
        → json_rpc_resize_exec id cols rows s.execs ≡ err (exec_failed (exec_not_found id)))

published-ended :
    (id : ℕ) (es : List (ExecEvent × Bool)) → In id (published es) → In id (ended_ids es)
published-ended id [] h = h
published-ended id ((e, true) ∷ es) (inl h) = inl h
published-ended id ((e, true) ∷ es) (inr h) = inr (published-ended id es h)
published-ended id ((e, false) ∷ es) h = inr (published-ended id es h)

published-AreDistinct :
    (es : List (ExecEvent × Bool)) → AreDistinct (ended_ids es) → AreDistinct (published es)
published-AreDistinct [] h = tt
published-AreDistinct ((e, true) ∷ es) h =
    ((λ k. h.0 (published-ended (event_id e) es k)), published-AreDistinct es h.1)
published-AreDistinct ((e, false) ∷ es) h = published-AreDistinct es h.1

-- The event of an exec that ended was published, or it was not.
ended-cases :
    (id : ℕ) (es : List (ExecEvent × Bool))
    → AreDistinct (ended_ids es)
    → In id (ended_ids es)
    → In id (published es) ⊎ (In id (unpublished es) × ¬ In id (published es))
ended-cases id [] d h = absurd h
ended-cases id ((e, true) ∷ es) d (inl h) = inl (inl h)
ended-cases id ((e, true) ∷ es) d (inr h) = elim (ended-cases id es d.1 h) [
  | inl k ↦ inl (inr k)
  | inr k ↦ inr (
    k.0,
    λ l. elim l [ inl same ↦ d.0 (subst (λ n. In n (ended_ids es)) same h) | inr m ↦ k.1 m ],
  )
]
ended-cases id ((e, false) ∷ es) d (inl h) =
    inr (inl h, λ k. d.0 (published-ended (event_id e) es (subst (λ n. In n (published es)) h k)))
ended-cases id ((e, false) ∷ es) d (inr h) = elim (ended-cases id es d.1 h) [
  | inl k ↦ inl k
  | inr k ↦ inr (inr k.0, k.1)
]

ended_missing :
    (s : System) (id : ℕ)
    → IsSoundAll s
    → In id (ended_ids s.ended)
    → get_by_id id s.execs.exec_map ≡ none
ended_missing s id h k = elim (Option-cases (get_by_id id s.execs.exec_map)) [
  | inl e ↦ e
  | inr (e, l) ↦ absurd (
      h.are_apart id
        (h.are_watched id (λ m. let bad : some e ≡ none = sym l ∙ m in absurd (cc bad))) k)
]

reported-IsGone : (s : System) (id : ℕ) → IsSoundAll s → In id (event_ids s) → IsGone s id
reported-IsGone s id h k =
    let (checked, resized') =
      check_missing id s.execs (ended_missing s id h (published-ended id s.ended k)) in
    (k, checked, resized')

ended-IsGone :
    (s : System) (id : ℕ) → IsSoundAll s → In id (ended_ids s.ended) → IsRemoved s id ⊎ IsGone s id
ended-IsGone s id h k = elim (ended-cases id s.ended h.one_event k) [
  | inl l ↦ inr (reported-IsGone s id h l)
  | inr l ↦
      let (checked, resized') = check_missing id s.execs (ended_missing s id h k) in
      inl (l.0, l.1, checked, resized')
]

watcher-In :
    (id : ℕ) (ws : List (ℕ × Watcher)) → In id (watcher_ids ws) → (w : Watcher) × In (id, w) ws
watcher-In id [] h = absurd h
watcher-In id ((x, w) ∷ ws) (inl h) = (w, inl (ap (λ n. (n, w)) h))
watcher-In id ((x, w) ∷ ws) (inr h) = let (v, k) = watcher-In id ws h in (v, inr k)

watched-IsLive : (s : System) (id : ℕ) → IsSoundAll s → In id (watcher_ids s.watchers) → IsLive s id
watched-IsLive s id h k = elim (Option-cases (get_by_id id s.execs.exec_map)) [
  | inl e ↦ absurd (h.are_found id k e)
  | inr (e, l) ↦
      ((e, l), watcher-In id s.watchers k, λ m. h.are_apart id k (published-ended id s.ended m))
]

-- In every reachable state no two published events report the end of the same exec, and every ID that was
-- given, from 1 to the counter, is in one of three conditions: its exec is in the map, with a health
-- watcher or a request that is about to start one, and nothing was reported; or a check and a resize fail
-- because it is not found, and its event is about to be published; or they fail alike, and its event was
-- published.
pub reachable_execs :
    (s : System)
    → IsReachable s
    → AreDistinct (event_ids s)
      × ((id : ℕ)
          → 1 ≤ id
          → id ≤ s.execs.prev_exec_id
          → IsLive s id ⊎ (IsRemoved s id ⊎ IsGone s id))
reachable_execs s steps =
    let h = reachable_sound s steps in
    (
      published-AreDistinct s.ended h.one_event,
      λ id low high. elim (h.are_kept id low high) [
        | inl k ↦ inl (watched-IsLive s id h k)
        | inr k ↦ inr (ended-IsGone s id h k)
      ],
    )

published_more :
    (id : ℕ) (event : ExecEvent) (before behind : List (ExecEvent × Bool))
    → In id (published (before ++ (event, false) ∷ behind))
    → In id (published (before ++ (event, true) ∷ behind))
published_more id event [] behind h = inr h
published_more id event ((e, true) ∷ before) behind (inl h) = inl h
published_more id event ((e, true) ∷ before) behind (inr h) =
    inr (published_more id event before behind h)
published_more id event ((e, false) ∷ before) behind h = published_more id event before behind h

step_events : (s t : System) (id : ℕ) → Step s t → In id (event_ids s) → In id (event_ids t)
unfolding with_outcome remove_ended
step_events s _ id (creates auth api attribute e lt) h = h
step_events s _ id (resizes i cols rows k) h = h
step_events s _ id (takes_size i k found) h = h
step_events s _ id (finds i k) h = h
step_events s _ id (restores i before behind k b) h = h
step_events s _ id (passes i before behind k b) h = h
step_events s _ id (starts i before behind k) h = h
step_events s _ id (ends i before behind failure t k) h = h
step_events s _ id (watches i before behind k) h = h
step_events s _ id (receives i end' before behind sooner later k l) h = h
step_events s _ id (removes i end' before behind k) h = h
step_events s _ id (publishes event before behind k) h =
    published_more id event before behind (subst (λ es. In id (published es)) k h)

steps_events : (s t : System) (id : ℕ) → Steps s t → In id (event_ids s) → In id (event_ids t)
steps_events s _ id start h = h
steps_events s _ id (onward {t = m} {u = t} steps step) h =
    step_events m t id step (steps_events s m id steps h)

-- Once the end of an exec was reported, its ID is never given again: in every later state a check and a
-- resize fail because it is not found, whatever steps came between.
pub reported_stays :
    (s t : System) (id : ℕ) → IsReachable s → In id (event_ids s) → Steps s t → IsGone t id
reported_stays s t id reach k steps =
    reported-IsGone t id (steps_sound s t steps (reachable_sound s reach))
      (steps_events s t id steps k)
