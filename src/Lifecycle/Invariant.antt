-- ===== src/Lifecycle/Invariant.antt =====
-- The invariant on the execs, and that what a step does to them keeps it.
use che_machine_exec.Common.{
  ℕ, ◌≤◌, ◌≡◌, ◌≢◌, refl, sym, subst, ap, ◌∙◌, ◌⊎◌, inl, inr, none, some, Bool, true, false, List,
  [], ◌∷◌, ◌++◌, In, arith, Bool-cases, ==_iff, ◌==◌, ◌↔◌,
}
use che_machine_exec.Exec.Resolver.{MachineExec}
use che_machine_exec.Exec.Manager.{Execs, get_by_id, put, delete, remove}
use che_machine_exec.Terminal.Pty.{ExecEvent, exec_exit, exec_error}
use che_machine_exec.Exec.Manager.Ids.{
  HasIds, HasIds-delete, IsCreated, IsWellFormed, get_by_id-delete_same, get_by_id-delete_other,
  remove-check,
}
use che_machine_exec.Lifecycle.{System, Watcher}
use che_machine_exec.Lifecycle.Members.{AreDistinct, In-around, around-In, AreDistinct-around}

abbrev pub event_id : ExecEvent → ℕ
event_id (exec_exit id) = id
event_id (exec_error id stack) = id

abbrev pub watcher_ids : List (ℕ × Watcher) → List ℕ
watcher_ids [] = []
watcher_ids ((id, w) ∷ ws) = id ∷ watcher_ids ws

abbrev pub ended_ids : List (ExecEvent × Bool) → List ℕ
ended_ids [] = []
ended_ids ((event, b) ∷ es) = event_id event ∷ ended_ids es

abbrev pub published : List (ExecEvent × Bool) → List ℕ
published [] = []
published ((event, true) ∷ es) = event_id event ∷ published es
published ((event, false) ∷ es) = published es

abbrev pub unpublished : List (ExecEvent × Bool) → List ℕ
unpublished [] = []
unpublished ((event, true) ∷ es) = unpublished es
unpublished ((event, false) ∷ es) = event_id event ∷ unpublished es

-- The IDs in the events that were published.
abbrev pub event_ids : System → List ℕ
event_ids s = published s.ended

-- The lists share no member.
abbrev pub AreApart : List ℕ → List ℕ → Type 0
AreApart xs ys = (id : ℕ) → In id xs → In id ys → ⊥

-- The invariant on the map, the IDs of the execs that have a watcher, and the IDs of those that ended.
pub record IsSound (st : Execs) (watchers gone : List ℕ) : Type 0 where
  pub is_well_formed : IsWellFormed st
  pub are_watched : (id : ℕ) → ¬ (get_by_id id st.exec_map ≡ none) → In id watchers
  pub are_found : (id : ℕ) → In id watchers → ¬ (get_by_id id st.exec_map ≡ none)
  pub one_watcher : AreDistinct watchers
  pub one_event : AreDistinct gone
  pub are_apart : AreApart watchers gone
  pub are_issued : (id : ℕ) → In id watchers ⊎ In id gone → id ≤ st.prev_exec_id
  pub are_kept : (id : ℕ) → 1 ≤ id → id ≤ st.prev_exec_id → In id watchers ⊎ In id gone

found-id :
    (prev id : ℕ) (m : List (ℕ × MachineExec)) (e : MachineExec)
    → HasIds prev m
    → get_by_id id m ≡ some e
    → (e.id ≡ id) × (id ≤ prev)
unfolding get_by_id
found-id prev id [] e h k = absurd (cc k)
found-id prev id ((key, f) ∷ m) e h k = elim (Bool-cases (key == id)) [
  | inl t ↦
      let same : some f ≡ some e = rw (t, get_by_id) at k in
      let is_key : key ≡ id = (==_iff key id).0 t in
      let f_e : f ≡ e = cc same in
      (ap MachineExec.id (sym f_e) ∙ h.0.0 ∙ is_key, subst (λ n. n ≤ prev) is_key h.0.1)
  | inr t ↦ found-id prev id m e h.1 (rw (t, get_by_id) at k)
]

-- An exec that is written in the place of another is found as that was.
put_found :
    (id x : ℕ) (m : List (ℕ × MachineExec)) (old e : MachineExec)
    → get_by_id id m ≡ some old
    → (get_by_id x (put id e m) ≡ none) ↔ (get_by_id x m ≡ none)
unfolding get_by_id
put_found id x m old e h = elim (Bool-cases (id == x)) [
  | inl t ↦
      let same : id ≡ x = (==_iff id x).0 t in
      (
        (λ k. let bad : some e ≡ none = rw (t, get_by_id) at k in absurd (cc bad)),
        (λ k.
            let bad : get_by_id id m ≡ none = subst (λ n. get_by_id n m ≡ none) (sym same) k in
            absurd (cc (sym h ∙ bad))),
      )
  | inr t ↦
      let ne : x ≢ id = λ e'. absurd (ground arith) in
      let kept : get_by_id x (put id e m) ≡ get_by_id x m =
        rw t (get_by_id-delete_other id x m ne) in
      ((λ k. sym kept ∙ k), (λ k. kept ∙ k))
]

abbrev pub IsSoundAll : System → Type 0
IsSoundAll s = IsSound s.execs (watcher_ids s.watchers) (ended_ids s.ended)

pub IsSound-put :
    (id : ℕ) (old e : MachineExec) (st : Execs) (watchers gone : List ℕ)
    → IsSound st watchers gone
    → get_by_id id st.exec_map ≡ some old
    → e.id ≡ old.id
    → IsSound (record st { exec_map = put id e st.exec_map }) watchers gone
IsSound-put id old e st watchers gone h found same =
    let (own, le) = found-id st.prev_exec_id id st.exec_map old h.is_well_formed found in
    record {
      one_watcher = h.one_watcher;
      one_event = h.one_event;
      are_apart = h.are_apart;
      are_issued = h.are_issued;
      are_kept = h.are_kept;
      is_well_formed = (
        (same ∙ own, le),
        HasIds-delete st.prev_exec_id st.prev_exec_id id st.exec_map (omega arith) h.is_well_formed,
      );
      are_watched = λ x k. h.are_watched x (λ l. k ((put_found id x st.exec_map old e found).1 l));
      are_found = λ x k l. h.are_found x k ((put_found id x st.exec_map old e found).0 l);
    }

-- A new exec, which has a watcher.
pub IsSound-created :
    (e : MachineExec) (st after : Execs) (watchers gone : List ℕ)
    → IsSound st watchers gone
    → IsCreated st e after
    → IsSound after (e.id ∷ watchers) gone
IsSound-created e st after watchers gone h (fresh, found, others, wf, next, counter) = record {
  is_well_formed = wf;
  are_watched = λ id k. elim (Bool-cases (id == e.id)) [
    | inl t ↦ inl ((==_iff id e.id).0 t)
    | inr t ↦
        let ne : id ≢ e.id = λ l. absurd (ground arith) in
        inr (h.are_watched id (λ l. k (others id ne ∙ l)))
  ];
  are_found = λ id k. elim k [
    | inl same ↦ λ l.
        let bad : some e ≡ none =
          sym found ∙ subst (λ n. get_by_id n after.exec_map ≡ none) same l in
        absurd (cc bad)
    | inr old ↦ elim (Bool-cases (id == e.id)) [
      | inl t ↦ absurd (
          h.are_found id old
            (subst (λ n. get_by_id n st.exec_map ≡ none) (sym ((==_iff id e.id).0 t)) fresh))
      | inr t ↦
          let ne : id ≢ e.id = λ l. absurd (ground arith) in
          λ l. h.are_found id old (sym (others id ne) ∙ l)
    ]
  ];
  one_watcher = ((λ k. h.are_found e.id k fresh), h.one_watcher);
  one_event = h.one_event;
  are_apart = λ id k l. elim k [
    | inl same ↦ let le = h.are_issued id (inr l) in absurd (omega arith)
    | inr old ↦ h.are_apart id old l
  ];
  are_issued = λ id k. elim k [
    | inl (inl same) ↦ omega arith
    | inl (inr old) ↦ let le = h.are_issued id (inl old) in omega arith
    | inr l ↦ let le = h.are_issued id (inr l) in omega arith
  ];
  are_kept = λ id low high. elim (Bool-cases (id == e.id)) [
    | inl t ↦ inl (inl ((==_iff id e.id).0 t))
    | inr t ↦ elim (h.are_kept id low (ground arith)) [ inl k ↦ inl (inr k) | inr k ↦ inr k ]
  ];
}

-- An exec that is removed.
pub IsSound-removed :
    (id : ℕ) (st : Execs) (before behind gone : List ℕ)
    → IsSound st (before ++ id ∷ behind) gone
    → IsSound (remove id st) (before ++ behind) (id ∷ gone)
unfolding remove
IsSound-removed id st before behind gone h =
    let (rest, out) = AreDistinct-around id before behind h.one_watcher in
    let was : In id (before ++ id ∷ behind) = around-In id id before behind (inl refl) in
    record {
      is_well_formed = (remove-check id st).2 h.is_well_formed;
      are_watched = λ x k. elim (Bool-cases (x == id)) [
        | inl t ↦ absurd (
            k (
              subst (λ n. get_by_id n (delete id st.exec_map) ≡ none) (sym ((==_iff x id).0 t))
                (get_by_id-delete_same id st.exec_map)))
        | inr t ↦
            let ne : x ≢ id = λ l. absurd (ground arith) in
            elim (In-around x id before behind
              (h.are_watched x (λ l. k (get_by_id-delete_other id x st.exec_map ne ∙ l)))) [
                | inl same ↦ absurd (ne same)
                | inr l ↦ l
              ]
      ];
      are_found = λ x k l. elim (Bool-cases (x == id)) [
        | inl t ↦ out (subst (λ n. In n (before ++ behind)) ((==_iff x id).0 t) k)
        | inr t ↦
            let ne : x ≢ id = λ m. absurd (ground arith) in
            h.are_found x (around-In x id before behind (inr k))
              (sym (get_by_id-delete_other id x st.exec_map ne) ∙ l)
      ];
      one_watcher = rest;
      one_event = ((λ k. h.are_apart id was k), h.one_event);
      are_apart = λ x k l. elim l [
        | inl same ↦ out (subst (λ n. In n (before ++ behind)) same k)
        | inr m ↦ h.are_apart x (around-In x id before behind (inr k)) m
      ];
      are_issued = λ x k. elim k [
        | inl l ↦ h.are_issued x (inl (around-In x id before behind (inr l)))
        | inr (inl same) ↦ h.are_issued x (inl (around-In x id before behind (inl same)))
        | inr (inr l) ↦ h.are_issued x (inr l)
      ];
      are_kept = λ x low high. elim (h.are_kept x low high) [
        | inl k ↦ elim (In-around x id before behind k) [
          | inl same ↦ inr (inl same)
          | inr l ↦ inl l
        ]
        | inr k ↦ inr (inr k)
      ];
    }
