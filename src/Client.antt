-- ===== src/Client.antt =====
-- Clients of the cluster: client/kubernetes_client_provider.go, the look-up of a user in auth/user.go,
-- and the namespace and the exec manager that the process keeps (exec/namespace_provider.go,
-- exec/exec-manager-provider.go). The configuration in a pod and the constructor of a client are
-- parameters, and so is what a client is.
pub mod Laws
pub mod Token
mod Tests
use che_machine_exec.Common.{
  Text, codes, is_empty, Bool, true, false, Option, none, some, [], ◌++◌, Result, ok, err,
  if◌then◌else◌,
}

-- The fields of `rest.Config` that the program writes.
pub record RestConfig : Type 0 where
  pub bearer_token : Text
  pub bearer_token_file : Text
  pub group_version : Text
  pub api_path : Text

-- `rest.InClusterConfig` and `NewForConfig`, as they answer at one time.
pub record Cluster (C : Type 0) : Type 0 where
  pub in_cluster_config : Result Text RestConfig
  pub new_for_config : RestConfig → Result Text C

-- `K8sAPI`.
pub record K8sApi (C : Type 0) : Type 0 where
  pub config : RestConfig
  pub client : C

-- `kubernetes.NewForConfig` and `NewK8sAPI`.
unfoldable pub make_api : {C : Type 0} → Cluster C → RestConfig → Result Text (K8sApi C)
make_api cluster config = elim (cluster.new_for_config config) [
  | err e ↦ err e
  | ok client ↦ ok (record { config = config; client = client })
]

-- `K8sAPIProvider`: the API with the service account, when it was made.
abbrev pub Provider : Type 0 → Type 0
Provider C = Option (K8sApi C)

abbrev pub keep : {C : Type 0} → Result Text (K8sApi C) → Result Text (K8sApi C) × Provider C
keep (err e) = (err e, none)
keep (ok api) = (ok api, some api)

unfoldable pub get_k8s_api_with_sa :
    {C : Type 0} → Cluster C → Provider C → Result Text (K8sApi C) × Provider C
unfolding make_api
get_k8s_api_with_sa cluster (some api) = (ok api, some api)
get_k8s_api_with_sa cluster none = elim cluster.in_cluster_config [
  | err e ↦ (err e, none)
  | ok config ↦ keep (make_api cluster config)
]

unfoldable pub with_token : Text → RestConfig → RestConfig
with_token token config = record config { bearer_token = token; bearer_token_file = [] }

unfoldable pub get_k8s_api_with_bearer_token :
    {C : Type 0} → Cluster C → Text → Result Text (K8sApi C)
unfolding make_api with_token is_empty
get_k8s_api_with_bearer_token cluster token =
    if is_empty token
    then err (codes "Failed to create k8sAPI. Token must not be empty")
    else elim cluster.in_cluster_config [
      | err e ↦ err e
      | ok config ↦ make_api cluster (with_token token config)
    ]

-- `GetK8sAPI`, by the flag of the authentication and the token of the exec.
unfoldable pub get_k8s_api :
    {C : Type 0} → Bool → Cluster C → Text → Provider C → Result Text (K8sApi C) × Provider C
unfolding get_k8s_api_with_bearer_token get_k8s_api_with_sa
get_k8s_api true cluster token provider = (get_k8s_api_with_bearer_token cluster token, provider)
get_k8s_api false cluster token provider = get_k8s_api_with_sa cluster provider

-- `newDynamicForUsersWithToken`.
unfoldable pub new_dynamic_for_users_with_token :
    {C : Type 0} → Cluster C → Text → Result Text (K8sApi C)
unfolding make_api with_token
new_dynamic_for_users_with_token cluster token = elim cluster.in_cluster_config [
  | err e ↦ err e
  | ok config ↦ make_api cluster (record (with_token token config) {
    group_version = codes "user.openshift.io/v1";
    api_path = codes "apis";
  })
]

-- `getCurrentUserID`: `get_uid` gets the user `~` through a client.
unfoldable pub get_current_user_id :
    {C : Type 0} → Cluster C → (C → Result Text Text) → Text → Result Text Text
unfolding new_dynamic_for_users_with_token
get_current_user_id cluster get_uid token = elim (new_dynamic_for_users_with_token cluster token) [
  | err e ↦ err e
  | ok api ↦ elim (get_uid api.client) [
    | err e ↦ err (codes "Failed to retrieve the current user info. Cause: " ++ e)
    | ok uid ↦ ok uid
  ]
]

-- `GetNamespace` with the namespace that is kept: `none` ends the process, since the file with the
-- namespace cannot be read.
unfoldable pub get_namespace : Option Text → Text → Option Text
unfolding is_empty
get_namespace file namespace = if is_empty namespace then file else some namespace

-- What `os.Stat` tells of the directory of the service account: whether it is one.
unfoldable pub is_valid_kubernetes_infra : Option Bool → Bool
is_valid_kubernetes_infra none = false
is_valid_kubernetes_infra (some is_dir) = is_dir

-- `KubernetesExecManager`.
pub record ExecManager (C : Type 0) : Type 0 where
  pub namespace : Text
  pub provider : Provider C

-- `CreateExecManager`; `none` is its panic, or the end of the process.
unfoldable pub create_exec_manager :
    {C : Type 0} → Option Bool → Option Text → Text → Option (ExecManager C)
unfolding is_valid_kubernetes_infra get_namespace
create_exec_manager stat file namespace =
    if is_valid_kubernetes_infra stat
    then elim (get_namespace file namespace) [
      | none ↦ none
      | some ns ↦ some (record { namespace = ns; provider = none })
    ]
    else none

-- `GetExecManager`, with the manager that is kept.
unfoldable pub get_exec_manager :
    {C : Type 0}
    → Option Bool
    → Option Text
    → Text
    → Option (ExecManager C)
    → Option (ExecManager C)
unfolding create_exec_manager
get_exec_manager stat file namespace (some manager) = some manager
get_exec_manager stat file namespace none = create_exec_manager stat file namespace
