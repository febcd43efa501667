-- ===== src/Filter.antt =====
-- filter/kubernetes_filter.go: the search for containers in the running pods of the workspace.
-- The Kubernetes API is a parameter: `list_pods` is the reply to the list request that
-- `getWorkspacePods` sends (namespace, `cfg.PodSelector`, `status.phase=Running`).
pub mod Laws
mod Tests
use che_machine_exec.Common.{
  Text, codes, text_eq, is_empty, Bool, true, false, ◌&&◌, List, [], ◌∷◌, ◌++◌, Option, none, some,
  Result, ok, err, ◌>>=◌, if◌then◌else◌,
}

-- The fields of `v1.EnvVar`, `v1.Container` and `v1.Pod` that the program reads.
pub record EnvVar : Type 0 where
  pub name : Text
  pub value : Text

pub record Container : Type 0 where
  pub name : Text
  pub env : List EnvVar

pub record Pod : Type 0 where
  pub name : Text
  pub containers : List Container

-- `model.ContainerInfo`.
pub record ContainerInfo : Type 0 where
  pub pod_name : Text
  pub container_name : Text

pub data FilterError : Type 0 where
  api_error : Text → FilterError
  no_pods : Text → FilterError
  no_container : Text → FilterError
  not_found : Text → FilterError

abbrev pub machine_name_env_var : Text
machine_name_env_var = codes "CHE_MACHINE_NAME"

-- `if len(wsPods.Items) == 0`.
non_empty_pods : Text → List Pod → Result FilterError (List Pod)
non_empty_pods selector [] = err (no_pods selector)
non_empty_pods selector (p ∷ ps) = ok (p ∷ ps)

-- The API's own error is passed on.
unfoldable pub get_workspace_pods : Text → Result Text (List Pod) → Result FilterError (List Pod)
unfolding non_empty_pods
get_workspace_pods selector (err e) = err (api_error e)
get_workspace_pods selector (ok pods) = non_empty_pods selector pods

unfoldable pub infos_of : Text → List Container → List ContainerInfo
infos_of pod_name [] = []
infos_of pod_name (c ∷ cs) =
    record { pod_name = pod_name; container_name = c.name } ∷ infos_of pod_name cs

unfoldable pub all_infos : List Pod → List ContainerInfo
unfolding infos_of
all_infos [] = []
all_infos (p ∷ ps) = infos_of p.name p.containers ++ all_infos ps

unfoldable pub get_container_list :
    Text → Result Text (List Pod) → Result FilterError (List ContainerInfo)
unfolding get_workspace_pods all_infos
get_container_list selector reply = do pods ← get_workspace_pods selector reply; ok (all_infos pods)

-- The inner loop of `GetContainer`.
unfoldable pub container_in : Text → Text → List Container → Option ContainerInfo
container_in name pod_name [] = none
container_in name pod_name (c ∷ cs) =
    if text_eq c.name name
    then some (record { pod_name = pod_name; container_name = c.name })
    else container_in name pod_name cs

-- The outer loop of `GetContainer`.
unfoldable pub container_in_pods : Text → List Pod → Result FilterError ContainerInfo
unfolding container_in
container_in_pods name [] = err (no_container name)
container_in_pods name (p ∷ ps) = elim (container_in name p.name p.containers) [
  | some info ↦ ok info
  | none ↦ container_in_pods name ps
]

unfoldable pub get_container :
    Text → Result Text (List Pod) → Text → Result FilterError ContainerInfo
unfolding get_workspace_pods container_in_pods
get_container selector reply name = do
  pods ← get_workspace_pods selector reply
  container_in_pods name pods

-- The loop over the environment in `findContainerName`.
unfoldable pub has_machine_env : Text → List EnvVar → Bool
has_machine_env machine_name [] = false
has_machine_env machine_name (e ∷ es) =
    if text_eq e.name machine_name_env_var && text_eq e.value machine_name
    then true
    else has_machine_env machine_name es

unfoldable pub find_container_name : List Container → Text → Text
unfolding has_machine_env
find_container_name [] machine_name = []
find_container_name (c ∷ cs) machine_name =
    if has_machine_env machine_name c.env
    then c.name
    else if text_eq c.name machine_name
    then c.name
    else find_container_name cs machine_name

unfoldable pub find_in_pods : Text → List Pod → Result FilterError ContainerInfo
unfolding find_container_name is_empty
find_in_pods machine_name [] = err (not_found machine_name)
find_in_pods machine_name (p ∷ ps) =
    if is_empty (find_container_name p.containers machine_name)
    then find_in_pods machine_name ps
    else ok (record {
      pod_name = p.name;
      container_name = find_container_name p.containers machine_name;
    })

unfoldable pub find_container_info :
    Text → Result Text (List Pod) → Text → Result FilterError ContainerInfo
unfolding get_workspace_pods find_in_pods
find_container_info selector reply machine_name = do
  pods ← get_workspace_pods selector reply
  find_in_pods machine_name pods
