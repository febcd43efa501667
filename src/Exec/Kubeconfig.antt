-- ===== src/Exec/Kubeconfig.antt =====
-- `CreateKubeConfig` of the exec manager, in exec/kubernetes_exec_manager.go.
use che_machine_exec.Common.{
  ◌≡◌, refl, sym, ap, ◌∙◌, inl, inr, Text, codes, is_empty, Option, none, some, List, [], ◌∷◌, ◌++◌,
  Result, ok, err, Result-cases, if◌then◌else◌,
}
use che_machine_exec.Kube.{
  KubeError, Host, Container, create_kube_config_text, write_script, create_kube_config,
}
use che_machine_exec.Kube.Laws.{IsDirectory, create_kube_config-ok}
use che_machine_exec.Exec.Manager.{Api}

pub data ManagerError : Type 0 where
  no_k8s_api : Text → ManagerError
  kube_failed : KubeError → ManagerError

-- The scripts that were run, and the error.
pub record Outcome : Type 0 where
  pub scripts : List Text
  pub failure : Option ManagerError

abbrev pub outcome_of : List Text → Result KubeError Text → Outcome
outcome_of scripts (err e) = record { scripts = scripts; failure = some (kube_failed e) }
outcome_of scripts (ok out) = record { scripts = scripts; failure = none }

unfoldable pub or_current : Text → Text → Text
unfolding is_empty
or_current current namespace = if is_empty namespace then current else namespace

unfoldable pub manager_create_kube_config :
    Api → Text → Host → Container → Text → Text → Text → Outcome
unfolding or_current create_kube_config
manager_create_kube_config api current h sh token namespace username = elim api.k8s_api [
  | err x ↦ record { scripts = []; failure = some (no_k8s_api x) }
  | ok u ↦
      let made = create_kube_config h sh token (or_current current namespace) username in
      outcome_of made.scripts made.result
]

failure-none :
    (scripts : List Text) (r : Result KubeError Text)
    → (outcome_of scripts r).failure ≡ none
    → (out : Text) × (r ≡ ok out)
failure-none scripts (err e) h = absurd (cc h)
failure-none scripts (ok out) h = (out, refl)

outcome_of-scripts :
    (scripts : List Text) (r : Result KubeError Text) → (outcome_of scripts r).scripts ≡ scripts
outcome_of-scripts scripts (err e) = refl
outcome_of-scripts scripts (ok out) = refl

module _ (api : Api) (current : Text) (h : Host) (sh : Container)
    (token namespace username : Text) where
  refused :
      (x : Text)
      → api.k8s_api ≡ err x
      → manager_create_kube_config api current h sh token namespace username
        ≡ record { scripts = []; failure = some (no_k8s_api x) }
  unfolding manager_create_kube_config
  refused x k = rw (k, manager_create_kube_config) refl

  passed :
      (u : Unit)
      → api.k8s_api ≡ ok u
      → let made = create_kube_config h sh token (or_current current namespace) username in
        manager_create_kube_config api current h sh token namespace username
        ≡ outcome_of made.scripts made.result
  unfolding manager_create_kube_config
  passed u k = rw (k, manager_create_kube_config) refl

-- When the manager's call succeeds, the scripts that were run are those that find the directory, make it
-- and write the configuration for the given namespace, or for the current one if none is given.
pub manager_create_kube_config_ok :
    (api : Api) (current : Text) (h : Host) (sh : Container) (token namespace username : Text)
    → (manager_create_kube_config api current h sh token namespace username).failure ≡ none
    → (config : Text) × (dir : Text) × (scripts : List Text) × (create_kube_config_text h token
          (or_current current namespace)
          username
        ≡ ok config)
      × IsDirectory sh dir scripts
      × ((manager_create_kube_config api current h sh token namespace username).scripts
          ≡ scripts ++ (codes "mkdir -p " ++ dir) ∷ write_script config dir ∷ [])
unfolding write_script
manager_create_kube_config_ok api current h sh token namespace username e =
    let made = create_kube_config h sh token (or_current current namespace) username in
    elim (Result-cases api.k8s_api) [
      | inl (x, k) ↦ absurd (
          cc (ap Outcome.failure (sym (refused api current h sh token namespace username x k)) ∙ e))
      | inr (u, k) ↦
          let (out, success) =
            failure-none made.scripts made.result (
              ap Outcome.failure (sym (passed api current h sh token namespace username u k))
              ∙ e) in
          let (config, dir, scripts, text, found, log) =
            create_kube_config-ok h sh token (or_current current namespace) username out success in
          (
            config,
            dir,
            scripts,
            text,
            found,
            ap Outcome.scripts (passed api current h sh token namespace username u k)
                ∙ outcome_of-scripts made.scripts made.result
                ∙ log,
          )
    ]
