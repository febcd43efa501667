-- ===== src/Exec/Manager/Table/Create.antt =====
-- `Create` on tables, and all operations of the manager together.
use che_machine_exec.Common.{
  ℕ, ◌≡◌, refl, ◌∙◌, ◌⊎◌, inl, inr, Text, is_empty, List, [], ◌∷◌, Result, ok, err, Bool-cases,
  Result-cases,
}
use che_machine_exec.Filter.{ContainerInfo, FilterError, get_container_list, find_container_info}
use che_machine_exec.Exec.Resolver.{MachineExec, resolve_cmd}
use che_machine_exec.Exec.Manager.{
  Execs, Api, ExecError, resolve_failed, no_executor, no_k8s_api, next_id, register, with_executor,
  with_cmd, do_create, create_first, create_in_list, create_in, create, remove, check, resize,
}
use che_machine_exec.Exec.Manager.Table.{
  view, remove_from, checked_id, resized, new_exec, add_to, viewed, view-remove, view-register,
  check-view, viewed-resize,
}

-- What is done in every state alike: a failure with the same error, or a new exec for the same command.
abbrev pub IsPlanned : MachineExec → (Execs → Result ExecError (MachineExec × Execs)) → Type 0
IsPlanned e f =
    ((x : ExecError) × ((st : Execs) → f st ≡ err x))
    ⊎ ((cmd : List Text) × ((st : Execs) → f st ≡ ok (register e cmd st)))

do_create-IsPlanned :
    (api : Api) (e : MachineExec) (info : ContainerInfo) → IsPlanned e (do_create api e info)
unfolding do_create with_cmd with_executor
do_create-IsPlanned api e info = elim (Result-cases (resolve_cmd api.shells e info)) [
  | inl (x, k) ↦ inl (resolve_failed x, λ st. rw (k, do_create, with_cmd) refl)
  | inr (cmd, k) ↦ elim (Result-cases (api.new_executor info cmd)) [
    | inl (x, l) ↦ inl (no_executor x, λ st. rw (k, do_create, with_cmd, l, with_executor) refl)
    | inr (u, l) ↦ inr (cmd, λ st. rw (k, do_create, with_cmd, l, with_executor) refl)
  ]
]

create_first-IsPlanned :
    (api : Api) (e : MachineExec) (all infos : List ContainerInfo)
    → IsPlanned e (create_first api e all infos)
unfolding create_first
create_first-IsPlanned api e all [] = inl (_, λ st. refl)
create_first-IsPlanned api e all (info ∷ infos) = elim (do_create-IsPlanned api e info) [
  | inr (cmd, h) ↦ inr (cmd, λ st. rw (h st, create_first) refl)
  | inl (x, h) ↦
      let same : (st : Execs)
          → create_first api e all (info ∷ infos) st ≡ create_first api e all infos st =
        λ st. rw (h st, create_first) refl in
      elim (create_first-IsPlanned api e all infos) [
        | inl (y, k) ↦ inl (y, λ st. same st ∙ k st)
        | inr (cmd, k) ↦ inr (cmd, λ st. same st ∙ k st)
      ]
]

create_in_list-IsPlanned :
    (api : Api) (e : MachineExec) (found : Result FilterError (List ContainerInfo))
    → IsPlanned e (create_in_list api e found)
unfolding create_in_list
create_in_list-IsPlanned api e (err x) = inl (_, λ st. refl)
create_in_list-IsPlanned api e (ok []) = inl (_, λ st. refl)
create_in_list-IsPlanned api e (ok (info ∷ infos)) =
    create_first-IsPlanned api e (info ∷ infos) (info ∷ infos)

create_in-IsPlanned :
    (api : Api) (e : MachineExec) (found : Result FilterError ContainerInfo)
    → IsPlanned e (create_in api e found)
unfolding create_in
create_in-IsPlanned api e (err x) = inl (_, λ st. refl)
create_in-IsPlanned api e (ok info) = do_create-IsPlanned api e info

create-IsPlanned : (api : Api) (e : MachineExec) → IsPlanned e (create api e)
unfolding create
create-IsPlanned api e = elim (Result-cases api.k8s_api) [
  | inl (x, k) ↦ inl (no_k8s_api x, λ st. rw (k, create) refl)
  | inr (u, k) ↦ elim (Bool-cases (is_empty e.machine_name)) [
    | inl n ↦ elim (create_in_list-IsPlanned api e (get_container_list api.selector api.pods)) [
      | inl (x, h) ↦ inl (x, λ st. rw (k, n, create) (h st))
      | inr (cmd, h) ↦ inr (cmd, λ st. rw (k, n, create) (h st))
    ]
    | inr n ↦
        elim (create_in-IsPlanned api e
          (find_container_info api.selector api.pods e.machine_name)) [
            | inl (x, h) ↦ inl (x, λ st. rw (k, n, create) (h st))
            | inr (cmd, h) ↦ inr (cmd, λ st. rw (k, n, create) (h st))
          ]
  ]
]

-- Creation on tables: it fails alike in every state, or adds an exec for one command alike.
abbrev pub CreatesOn : Api → MachineExec → Type 0
CreatesOn api e =
    ((x : ExecError) × ((st : Execs) → create api e st ≡ err x))
    ⊎ ((cmd : List Text) × ((st : Execs)
          → (made : MachineExec) × (after : Execs) × (create api e st ≡ ok (made, after))
            × (made ≡ new_exec e cmd (next_id (view st).counter))
            × (view after ≡ add_to e cmd (view st))))

create-CreatesOn : (api : Api) (e : MachineExec) → CreatesOn api e
unfolding register
create-CreatesOn api e = elim (create-IsPlanned api e) [
  | inl failure ↦ inl failure
  | inr (cmd, h) ↦ inr (
    cmd,
    λ st. ((register e cmd st).0, (register e cmd st).1, h st, refl, view-register e cmd st),
  )
]

-- The manager implements a table from IDs to execs with a counter, whatever the order and the history of
-- its map: `Remove`, `Check`, `Resize` and `Create` do what the operations on the table do, with the same
-- results, and whether and with which command `Create` makes an exec does not depend on the state.
pub manager_table :
    (api : Api) (e : MachineExec)
    → ((id : ℕ) (st : Execs) → view (remove id st) ≡ remove_from id (view st))
      × ((id : ℕ) (st : Execs) → check id st ≡ checked_id id ((view st).find id))
      × ((id cols rows : ℕ) (st : Execs)
          → viewed (resize id cols rows st) ≡ resized id cols rows ((view st).find id) (view st))
      × CreatesOn api e
manager_table api e = (view-remove, check-view, viewed-resize, create-CreatesOn api e)
