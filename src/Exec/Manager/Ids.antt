-- ===== src/Exec/Manager/Ids.antt =====
-- The IDs of execs and the map: new IDs are fresh, and the operations agree with the map.
use che_machine_exec.Common.{
  Result-cases, ℕ, ◌+◌, ◌^◌, ◌≤◌, ◌<◌, ◌≡◌, ◌≢◌, refl, subst, ◌∙◌, inl, inr, Text, Bool, true,
  false, none, some, List, [], ◌∷◌, Result, ok, err, if◌then◌else◌, ◌==◌, arith, Bool-cases, All,
  is_empty,
}
use che_machine_exec.Filter.{ContainerInfo, FilterError, get_container_list, find_container_info}
use che_machine_exec.Exec.Resolver.{MachineExec, resolve_cmd}
use che_machine_exec.Exec.Manager.{
  Execs, Api, ExecError, get_by_id, delete, next_id, register, with_executor, with_cmd, do_create,
  create_first, create_in_list, create_in, create, remove, check, exec_not_found, no_k8s_api,
}

-- Each exec stands under its own ID, and no ID is beyond the counter.
abbrev pub HasIds : ℕ → List (ℕ × MachineExec) → Type 0
HasIds prev m = All (λ (e : ℕ × MachineExec). (e.1.id ≡ e.0) × (e.0 ≤ prev)) m

abbrev pub IsWellFormed : Execs → Type 0
IsWellFormed st = HasIds st.prev_exec_id st.exec_map

pub get_by_id-delete_same :
    (id : ℕ) (m : List (ℕ × MachineExec)) → get_by_id id (delete id m) ≡ none
unfolding get_by_id delete
get_by_id-delete_same id [] = refl
get_by_id-delete_same id (e ∷ m) = elim (Bool-cases (e.0 == id)) [
  | inl h ↦ rw h (get_by_id-delete_same id m)
  | inr h ↦ rw (h, get_by_id, h) (get_by_id-delete_same id m)
]

pub get_by_id-delete_other :
    (id other : ℕ) (m : List (ℕ × MachineExec))
    → other ≢ id
    → get_by_id other (delete id m) ≡ get_by_id other m
unfolding get_by_id delete
get_by_id-delete_other id other [] h = refl
get_by_id-delete_other id other (e ∷ m) h = elim (Bool-cases (e.0 == id)) [
  | inl k ↦ elim (Bool-cases (e.0 == other)) [
    | inl l ↦ absurd (ground arith)
    | inr l ↦ rw (k, l) (get_by_id-delete_other id other m h)
  ]
  | inr k ↦ elim (Bool-cases (e.0 == other)) [
    | inl l ↦ rw (k, get_by_id, l) refl
    | inr l ↦ rw (k, get_by_id, l) (get_by_id-delete_other id other m h)
  ]
]

pub HasIds-delete :
    (prev next id : ℕ) (m : List (ℕ × MachineExec))
    → prev ≤ next
    → HasIds prev m
    → HasIds next (delete id m)
unfolding delete
HasIds-delete prev next id [] le h = tt
HasIds-delete prev next id (e ∷ m) le h = elim (Bool-cases (e.0 == id)) [
  | inl k ↦ rw (k, All) (HasIds-delete prev next id m le h.1)
  | inr k ↦ rw (k, All) ((h.0.0, omega (arith, h.0.1)), HasIds-delete prev next id m le h.1)
]

fresh_id :
    (prev id : ℕ) (m : List (ℕ × MachineExec)) → prev < id → HasIds prev m → get_by_id id m ≡ none
unfolding get_by_id
fresh_id prev id [] lt h = refl
fresh_id prev id (e ∷ m) lt h = elim (Bool-cases (e.0 == id)) [
  | inl k ↦ absurd (let le = h.0.1 in ground arith)
  | inr k ↦ rw k (fresh_id prev id m lt h.1)
]

-- What a successful creation does: the new exec has an ID that no exec had, the next one of the counter;
-- it is found under it, every other ID finds what it found before, and the state is well-formed again.
abbrev pub IsCreated : Execs → MachineExec → Execs → Type 0
IsCreated st e after =
    (get_by_id e.id st.exec_map ≡ none)
    × (get_by_id e.id after.exec_map ≡ some e)
    × ((other : ℕ) → other ≢ e.id → get_by_id other after.exec_map ≡ get_by_id other st.exec_map)
    × IsWellFormed after
    × (e.id ≡ st.prev_exec_id + 1)
    × (after.prev_exec_id ≡ e.id)

pub if_same : {A : Type 0} (n : ℕ) (a b : A) → (if n == n then a else b) ≡ a
if_same n a b = ground arith

pub if_other : {A : Type 0} (n k : ℕ) (a b : A) → k ≢ n → (if n == k then a else b) ≡ b
if_other n k a b h = ground arith

next_id_lem : (prev : ℕ) → prev + 1 < 2 ^ 64 → next_id prev ≡ prev + 1
next_id_lem prev h = omega arith

register-IsCreated :
    (e : MachineExec) (cmd : List Text) (st : Execs)
    → IsWellFormed st
    → st.prev_exec_id + 1 < 2 ^ 64
    → IsCreated st (register e cmd st).0 (register e cmd st).1
unfolding register get_by_id
register-IsCreated e cmd st wf lt =
    let n = next_id_lem st.prev_exec_id lt in
    let id = next_id st.prev_exec_id in
    (
      fresh_id st.prev_exec_id id st.exec_map (omega (arith, n)) wf,
      if_same id _ _,
      (λ other ne. if_other id other _ _ ne ∙ get_by_id-delete_other id other st.exec_map ne),
      ((refl, omega arith), HasIds-delete st.prev_exec_id id id st.exec_map (omega (arith, n)) wf),
      n,
      refl,
    )

-- A creation that succeeded, by any path.
abbrev IsCreatedBy : Execs → Result ExecError (MachineExec × Execs) → Type 0
IsCreatedBy st (err x) = Unit
IsCreatedBy st (ok r) = IsCreated st r.0 r.1

do_create-IsCreatedBy :
    (api : Api) (e : MachineExec) (info : ContainerInfo) (st : Execs)
    → IsWellFormed st
    → st.prev_exec_id + 1 < 2 ^ 64
    → IsCreatedBy st (do_create api e info st)
unfolding do_create
do_create-IsCreatedBy api e info st wf lt = of_cmd (resolve_cmd api.shells e info)
  where
    of_executor :
        (cmd : List Text) (x : Result Text Unit) → IsCreatedBy st (with_executor e cmd x st)
    of_executor cmd (err x) = tt
    of_executor cmd (ok u) = register-IsCreated e cmd st wf lt

    of_cmd : (x : Result Text (List Text)) → IsCreatedBy st (with_cmd api e info x st)
    of_cmd (err x) = tt
    of_cmd (ok cmd) = of_executor cmd (api.new_executor info cmd)

create_first-IsCreatedBy :
    (api : Api) (e : MachineExec) (all infos : List ContainerInfo) (st : Execs)
    → IsWellFormed st
    → st.prev_exec_id + 1 < 2 ^ 64
    → IsCreatedBy st (create_first api e all infos st)
unfolding create_first
create_first-IsCreatedBy api e all [] st wf lt = tt
create_first-IsCreatedBy api e all (info ∷ infos) st wf lt =
    elim (Result-cases (do_create api e info st)) [
      | inl (x, h) ↦
          rw (h, IsCreatedBy, create_first) (create_first-IsCreatedBy api e all infos st wf lt)
      | inr (r, h) ↦
          rw (h, IsCreatedBy, create_first)
            (subst (IsCreatedBy st) h (do_create-IsCreatedBy api e info st wf lt))
    ]

create-IsCreatedBy :
    (api : Api) (e : MachineExec) (st : Execs)
    → IsWellFormed st
    → st.prev_exec_id + 1 < 2 ^ 64
    → IsCreatedBy st (create api e st)
unfolding create
create-IsCreatedBy api e st wf lt = of_api api.k8s_api
  where
    of_list :
        (x : Result FilterError (List ContainerInfo)) → IsCreatedBy st (create_in_list api e x st)
    of_list (err x) = tt
    of_list (ok []) = tt
    of_list (ok (info ∷ infos)) =
        create_first-IsCreatedBy api e (info ∷ infos) (info ∷ infos) st wf lt

    of_info : (x : Result FilterError ContainerInfo) → IsCreatedBy st (create_in api e x st)
    of_info (err x) = tt
    of_info (ok info) = do_create-IsCreatedBy api e info st wf lt

    of_name :
        (b : Bool)
        → IsCreatedBy st (
            if b
            then create_in_list api e (get_container_list api.selector api.pods) st
            else create_in api e (find_container_info api.selector api.pods e.machine_name) st)
    of_name true = of_list (get_container_list api.selector api.pods)
    of_name false = of_info (find_container_info api.selector api.pods e.machine_name)

    of_api :
        (x : Result Text Unit)
        → IsCreatedBy st (elim x [
          | err y ↦ err (no_k8s_api y)
          | ok u ↦
              if is_empty e.machine_name
              then create_in_list api e (get_container_list api.selector api.pods) st
              else create_in api e (find_container_info api.selector api.pods e.machine_name) st
        ])
    of_api (err x) = tt
    of_api (ok u) = of_name (is_empty e.machine_name)

-- In a well-formed state whose counter has not reached its last value, a successful `Create` returns an
-- exec under the next ID, which was not in use and finds that exec and no other; all other IDs find
-- what they found before, and the state stays well-formed.
pub create-IsCreated :
    (api : Api) (e made : MachineExec) (st after : Execs)
    → IsWellFormed st
    → st.prev_exec_id + 1 < 2 ^ 64
    → create api e st ≡ ok (made, after)
    → IsCreated st made after
create-IsCreated api e made st after wf lt h =
    subst (IsCreatedBy st) h (create-IsCreatedBy api e st wf lt)

-- After `Remove` the ID is not found, every other ID is checked as before, and a well-formed state
-- stays well-formed.
pub remove-check :
    (id : ℕ) (st : Execs)
    → (check id (remove id st) ≡ err (exec_not_found id))
      × ((other : ℕ) → other ≢ id → check other (remove id st) ≡ check other st)
      × (IsWellFormed st → IsWellFormed (remove id st))
unfolding remove check
remove-check id st = (
  rw (get_by_id-delete_same id st.exec_map, check) refl,
  λ other ne. rw (get_by_id-delete_other id other st.exec_map ne, check) refl,
  HasIds-delete st.prev_exec_id st.prev_exec_id id st.exec_map (omega arith),
)
