-- ===== src/Client/Tests.antt =====
-- A cluster whose clients are the tokens that they show.
use che_machine_exec.Common.{
  ◌≡◌, refl, Text, codes, text_eq, true, false, none, some, List, [], ◌∷◌, Result, ok, err,
  if◌then◌else◌,
}
use che_machine_exec.Exec.Resolver.{MachineExec}
use che_machine_exec.Exec.Manager.{Execs, Api, empty_exec, create, register}
use che_machine_exec.Api.Auth.{Headers, token_of}
use che_machine_exec.Api.Rpc.{json_rpc_create_exec}
use che_machine_exec.Client.{
  RestConfig, Cluster, K8sApi, get_k8s_api, get_current_user_id, get_exec_manager,
}
use che_machine_exec.Client.Laws.{get_all, AreOwn, AreShared, get_all-cases}
use che_machine_exec.Client.Token.{
  manager_api, IsMadeFor, created_with_own_token, IsOwnUser, token_of-IsOwnUser,
}

abbrev pod_config : RestConfig
pod_config = record {
  bearer_token = codes "sa";
  bearer_token_file = codes "/token";
  group_version = [];
  api_path = [];
}

abbrev up : Cluster Text
up = record { in_cluster_config = ok pod_config; new_for_config = λ c. ok c.bearer_token }

abbrev down : Cluster Text
down = record { in_cluster_config = err (codes "not in a pod"); new_for_config = λ c. ok [] }

abbrev calls : List (Cluster Text × Text)
calls = (down, codes "t") ∷ (up, codes "t") ∷ (up, codes "u") ∷ (down, []) ∷ []

get_all-cases_example :
    AreOwn calls (get_all true calls none) × AreShared none calls (get_all false calls none)
unfolding get_k8s_api
get_all-cases_example = get_all-cases calls none

abbrev answers : K8sApi Text → Api
answers api = record {
  k8s_api = ok tt;
  selector = codes "id=1";
  pods =
      if text_eq api.client (codes "t")
      then ok (
          record { name = codes "pod"; containers = record { name = codes "a"; env = [] } ∷ [] }
          ∷ [])
      else err (codes "forbidden");
  shells = record { detect_shell = λ i. none; start_sh = λ i. ok tt; parse_url = λ u. none };
  new_executor = λ i cmd. ok tt;
}

abbrev no_execs : Execs
no_execs = record { exec_map = []; prev_exec_id = 0 }

created_with_own_token_example :
    (made : MachineExec) × (after : Execs) × (made.id ≡ 1)
    × IsMadeFor up none answers (some (codes "t")) empty_exec no_execs made after
unfolding json_rpc_create_exec manager_api get_k8s_api create register
created_with_own_token_example =
    created_with_own_token up none answers (some (codes "t")) empty_exec no_execs 1 refl

abbrev get_uid : Text → Result Text Text
get_uid client = if text_eq client (codes "t") then ok (codes "owner") else err (codes "no user")

abbrev headers : Headers
headers name = if text_eq name (codes "X-Access-Token") then codes "Bearer t" else []

own_user : IsOwnUser up get_uid (codes "t") (codes "owner")
unfolding token_of get_current_user_id
own_user = token_of-IsOwnUser up get_uid (codes "owner") headers (codes "t") refl

manager_of_pod :
    get_exec_manager {C = Text} (some true) (some (codes "ns")) [] none
    ≡ some (record { namespace = codes "ns"; provider = none })
unfolding get_exec_manager
manager_of_pod = refl

no_manager : get_exec_manager {C = Text} none (some (codes "ns")) [] none ≡ none
unfolding get_exec_manager
no_manager = refl
