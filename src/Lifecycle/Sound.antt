-- ===== src/Lifecycle/Sound.antt =====
-- The invariant holds in every reachable state, by induction on the steps.
use che_machine_exec.Common.{
  ℕ, ◌+◌, ◌<◌, ◌≡◌, refl, sym, subst, ap, ◌∙◌, ◌⊎◌, inl, inr, Text, Bool, Option, true, false, none,
  some, List, [], ◌∷◌, ◌++◌, ok, arith, Option-cases,
}
use che_machine_exec.Exec.Resolver.{MachineExec}
use che_machine_exec.Exec.Manager.{Execs, Api, get_by_id, put, remove, resize, send_size, to_uint16}
use che_machine_exec.Api.Rpc.{Outcome, minus_one, json_rpc_resize_exec, json_rpc_create_exec}
use che_machine_exec.Api.Rpc.Laws.{json_rpc_create_exec_cases}
use che_machine_exec.Terminal.Pty.{Ended, ExecEvent, exited, broken, clean_up_on_exit_or_error}
use che_machine_exec.Lifecycle.{
  System, Watcher, registered, waiting, received, init, watched, with_outcome, take_size,
  remove_ended, Step, creates, resizes, takes_size, finds, restores, passes, starts, ends, watches,
  receives, removes, publishes, Steps, start, onward,
}
use che_machine_exec.Lifecycle.Invariant.{
  IsSound, IsSoundAll, IsSound-put, IsSound-created, IsSound-removed, event_id, watcher_ids,
  ended_ids,
}

channel-cases :
    (xs : List (ℕ × ℕ)) → (xs ≡ []) ⊎ ((x : ℕ × ℕ) × (ys : List (ℕ × ℕ)) × (xs ≡ x ∷ ys))
channel-cases [] = inl refl
channel-cases (x ∷ xs) = inr (x, xs, refl)

sized : ℕ → ℕ → ℕ → MachineExec → Execs → Execs
sized id cols rows e st = record st {
  exec_map = put id (record e { size_chan = (to_uint16 cols, to_uint16 rows) ∷ [] }) st.exec_map;
}

-- A send that goes through has found the channel empty.
sends :
    (id cols rows : ℕ) (e : MachineExec) (st after : Execs)
    → send_size id cols rows e st ≡ some after
    → sized id cols rows e st ≡ after
unfolding send_size sized
sends id cols rows e st after h = elim (channel-cases e.size_chan) [
  | inl k ↦
      let same : some (sized id cols rows e st) ≡ some after = rw (k, send_size) at h in cc same
  | inr (x, xs, k) ↦ let bad : none ≡ some after = rw (k, send_size) at h in absurd (cc bad)
]

-- A resize that goes through has found an exec, whose size channel was empty.
resized :
    (id cols rows : ℕ) (st after : Execs)
    → json_rpc_resize_exec id cols rows st ≡ ok (some after)
    → (e : MachineExec) × (get_by_id id st.exec_map ≡ some e) × (sized id cols rows e st ≡ after)
unfolding json_rpc_resize_exec resize
resized id cols rows st after h = elim (Option-cases (get_by_id id st.exec_map)) [
  | inl k ↦ absurd (cc (rw (k, json_rpc_resize_exec, resize) at h))
  | inr (e, k) ↦
      let sent : ok (send_size id cols rows e st) ≡ ok (some after) =
        rw (k, json_rpc_resize_exec, resize) at h in
      (e, k, sends id cols rows e st after (cc sent))
]

watched_sound :
    (o : Outcome) (s : System)
    → IsSoundAll s
    → IsSound o.execs (watcher_ids (watched o.replies s.watchers)) (ended_ids s.ended)
    → IsSoundAll (with_outcome o s)
unfolding with_outcome
watched_sound o s h k = k

created_sound :
    (auth : Bool) (api : Text → Api) (attribute : Option Text) (e : MachineExec) (s : System)
    → IsSoundAll s
    → s.execs.prev_exec_id + 1 < minus_one
    → IsSoundAll (with_outcome (json_rpc_create_exec auth api attribute e s.execs) s)
unfolding with_outcome watched
created_sound auth api attribute e s h lt =
    let o = json_rpc_create_exec auth api attribute e s.execs in
    elim (json_rpc_create_exec_cases auth api attribute e s.execs h.is_well_formed
      (omega (arith, lt))).1 [
        | inl (same, (x, k)) ↦
            subst (λ r. IsSound o.execs (watcher_ids (watched r s.watchers)) (ended_ids s.ended))
              (sym k)
              (subst (λ m. IsSound m (watcher_ids s.watchers) (ended_ids s.ended)) (sym same) h)
        | inr (free, token, (made, created, inl k)) ↦
            subst (λ r. IsSound o.execs (watcher_ids (watched r s.watchers)) (ended_ids s.ended))
              (sym k)
              (IsSound-created made s.execs o.execs (watcher_ids s.watchers) (ended_ids s.ended) h
                created)
        | inr (free, token, (made, created, inr (last, (x, k)))) ↦
            absurd (let next = created.4 in omega arith)
      ]

watcher_ids-append :
    (xs ys : List (ℕ × Watcher)) → watcher_ids (xs ++ ys) ≡ watcher_ids xs ++ watcher_ids ys
watcher_ids-append [] ys = refl
watcher_ids-append (x ∷ xs) ys = ap (λ r. x.0 ∷ r) (watcher_ids-append xs ys)

ended_ids-append :
    (xs ys : List (ExecEvent × Bool)) → ended_ids (xs ++ ys) ≡ ended_ids xs ++ ended_ids ys
ended_ids-append [] ys = refl
ended_ids-append (x ∷ xs) ys = ap (λ r. event_id x.0 ∷ r) (ended_ids-append xs ys)

-- A watcher that goes on keeps its place.
watcher_ids_same :
    (ws before behind : List (ℕ × Watcher)) (id : ℕ) (was next : Watcher)
    → ws ≡ before ++ (id, was) ∷ behind
    → watcher_ids ws ≡ watcher_ids (before ++ (id, next) ∷ behind)
watcher_ids_same ws before behind id was next k =
    ap watcher_ids k
    ∙ watcher_ids-append before ((id, was) ∷ behind)
    ∙ sym (watcher_ids-append before ((id, next) ∷ behind))

ended_ids_same :
    (es before behind : List (ExecEvent × Bool)) (event : ExecEvent)
    → es ≡ before ++ (event, false) ∷ behind
    → ended_ids es ≡ ended_ids (before ++ (event, true) ∷ behind)
ended_ids_same es before behind event k =
    ap ended_ids k
    ∙ ended_ids-append before ((event, false) ∷ behind)
    ∙ sym (ended_ids-append before ((event, true) ∷ behind))

removed_ids :
    (id : ℕ) (end' : Ended) (before behind : List (ℕ × Watcher)) (s : System)
    → s.watchers ≡ before ++ (id, received end') ∷ behind
    → IsSoundAll s
    → IsSound (remove id s.execs) (watcher_ids (before ++ behind)) (id ∷ ended_ids s.ended)
removed_ids id end' before behind s k h =
    subst (λ w. IsSound (remove id s.execs) w (id ∷ ended_ids s.ended))
      (sym (watcher_ids-append before behind))
      (IsSound-removed id s.execs (watcher_ids before) (watcher_ids behind) (ended_ids s.ended) (
        subst (λ w. IsSound s.execs w (ended_ids s.ended))
          (ap watcher_ids k ∙ watcher_ids-append before ((id, received end') ∷ behind)) h))

removed_sound :
    (id : ℕ) (end' : Ended) (before behind : List (ℕ × Watcher)) (s : System)
    → s.watchers ≡ before ++ (id, received end') ∷ behind
    → IsSoundAll s
    → IsSoundAll (remove_ended id end' (before ++ behind) s)
unfolding remove_ended clean_up_on_exit_or_error
removed_sound id exited before behind s k h = removed_ids id exited before behind s k h
removed_sound id (broken stack) before behind s k h =
    removed_ids id (broken stack) before behind s k h

step_sound : (s t : System) → Step s t → IsSoundAll s → IsSoundAll t
unfolding take_size sized
step_sound s _ (creates auth api attribute e lt) h = created_sound auth api attribute e s h lt
step_sound s _ (resizes id cols rows {after = after} k) h =
    let (e, found, same) = resized id cols rows s.execs after k in
    subst (λ m. IsSound m (watcher_ids s.watchers) (ended_ids s.ended)) same
      (IsSound-put id e _ s.execs (watcher_ids s.watchers) (ended_ids s.ended) h found refl)
step_sound s _ (takes_size id {e = e} k found) h =
    IsSound-put id e _ s.execs (watcher_ids s.watchers) (ended_ids s.ended) h found refl
step_sound s _ (finds id k) h = h
step_sound s _ (restores id before behind k b) h = h
step_sound s _ (passes id before behind k b) h = h
step_sound s _ (starts id before behind k) h = h
step_sound s _ (ends id before behind failure t k) h = h
step_sound s _ (watches id before behind k) h =
    subst (λ w. IsSound s.execs w (ended_ids s.ended))
      (watcher_ids_same s.watchers before behind id registered waiting k) h
step_sound s _ (receives id end' before behind sooner later k l) h =
    subst (λ w. IsSound s.execs w (ended_ids s.ended))
      (watcher_ids_same s.watchers before behind id waiting (received end') k) h
step_sound s _ (removes id end' before behind k) h = removed_sound id end' before behind s k h
step_sound s _ (publishes event before behind k) h =
    subst (IsSound s.execs (watcher_ids s.watchers)) (ended_ids_same s.ended before behind event k)
      h

pub init_sound : IsSoundAll init
unfolding get_by_id
init_sound = record {
  is_well_formed = tt;
  are_watched = λ id k. k refl;
  are_found = λ id k l. k;
  one_watcher = tt;
  one_event = tt;
  are_apart = λ id k l. k;
  are_issued = λ id k. elim k [ inl l ↦ absurd l | inr l ↦ absurd l ];
  are_kept = λ id low high. absurd (omega arith);
}

pub steps_sound : (s t : System) → Steps s t → IsSoundAll s → IsSoundAll t
steps_sound s _ start h = h
steps_sound s _ (onward {t = m} {u = t} steps step) h =
    step_sound m t step (steps_sound s m steps h)
