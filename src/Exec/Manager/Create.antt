-- ===== src/Exec/Manager/Create.antt =====
-- Which container an exec is created in when the request names none.
use che_machine_exec.Common.{
  Result-cases, ◌≡◌, refl, sym, subst, ◌∙◌, ap, inl, inr, ◌⊎◌, is_empty, true, List, [], ◌∷◌, ◌++◌,
  Result, ok, err,
}
use che_machine_exec.Filter.{ContainerInfo, get_container_list}
use che_machine_exec.Exec.Resolver.{MachineExec}
use che_machine_exec.Exec.Manager.{
  Execs, Api, ExecError, all_failed, do_create, create_first, create_in_list, create,
}

-- Creation fails in each of the containers.
abbrev pub AllFail : Api → MachineExec → Execs → List ContainerInfo → Type 0
AllFail api e st [] = Unit
AllFail api e st (info ∷ infos) =
    ((x : ExecError) × (do_create api e info st ≡ err x)) × AllFail api e st infos

-- The result is that of the first container in which creation does not fail, or an error that names
-- all containers.
abbrev pub IsFirst :
    Api
    → MachineExec
    → Execs
    → List ContainerInfo
    → List ContainerInfo
    → Result ExecError (MachineExec × Execs)
    → Type 0
IsFirst api e st all infos r =
    ((before : List ContainerInfo) × (info : ContainerInfo) × (later : List ContainerInfo) × (infos
        ≡ before ++ (info ∷ later))
      × AllFail api e st before
      × (r ≡ do_create api e info st)
      × ((s : MachineExec × Execs) × (r ≡ ok s)))
    ⊎ (AllFail api e st infos × (r ≡ err (all_failed all)))

create_first-IsFirst :
    (api : Api) (e : MachineExec) (st : Execs) (all infos : List ContainerInfo)
    → IsFirst api e st all infos (create_first api e all infos st)
unfolding create_first
create_first-IsFirst api e st all [] = inr (tt, refl)
create_first-IsFirst api e st all (info ∷ infos) = elim (Result-cases (do_create api e info st)) [
  | inr (r, h) ↦
      let same : create_first api e all (info ∷ infos) st ≡ ok r = rw (h, create_first) refl in
      inl ([], info, infos, refl, tt, same ∙ sym h, (r, same))
  | inl (x, h) ↦
      let same : create_first api e all (info ∷ infos) st ≡ create_first api e all infos st =
        rw (h, create_first) refl in
      elim (create_first-IsFirst api e st all infos) [
        | inl (before, i, later, split, fail, k, good) ↦ inl (
          info ∷ before,
          i,
          later,
          ap (λ l. info ∷ l) split,
          ((x, h), fail),
          same ∙ k,
          (good.0, same ∙ good.1),
        )
        | inr (fail, k) ↦ inr (((x, h), fail), same ∙ k)
      ]
]

-- When the API is reachable, the request names no machine and the workspace has containers, `Create`
-- tries them in the order of the list: it succeeds in the first one where `doCreate` does, all before
-- it having failed, or it fails in all of them with an error that lists them.
pub create-IsFirst :
    (api : Api) (e : MachineExec) (st : Execs) (info : ContainerInfo) (infos : List ContainerInfo)
    → api.k8s_api ≡ ok tt
    → is_empty e.machine_name ≡ true
    → get_container_list api.selector api.pods ≡ ok (info ∷ infos)
    → IsFirst api e st (info ∷ infos) (info ∷ infos) (create api e st)
unfolding create create_in_list
create-IsFirst api e st info infos a n l =
    let same : create api e st ≡ create_first api e (info ∷ infos) (info ∷ infos) st =
      simp (a, n, l, create, create_in_list) in
    subst (IsFirst api e st (info ∷ infos) (info ∷ infos)) (sym same)
      (create_first-IsFirst api e st (info ∷ infos) (info ∷ infos))
