-- ===== src/Startup.antt =====
-- main.go: the start of the process, with the exec manager that the package api/jsonrpc makes when it is
-- loaded. Reading the file with the namespace gives the same each time; `none` is an error.
pub mod Laws
mod Tests
use che_machine_exec.Common.{
  Text, codes, Bool, Option, none, some, List, [], ◌∷◌, ◌++◌, Result, ok, err, if◌then◌else◌,
}
use che_machine_exec.Idle.{
  SetupError, Created, no_op, failed, manager, new_inactivity_idle_manager, new_run_idle_manager,
}
use che_machine_exec.Settings.{or_text, Settings, Environment, Flag, Fatal, parse}
use che_machine_exec.Client.{ExecManager, get_exec_manager}
use che_machine_exec.Api.Connect.{RpcMethod, rpc_routes}

-- The end points of the router, by the method and the path of a request.
pub data Endpoint : Type 0 where
  handle_connect : Endpoint
  handle_attach : Endpoint
  handle_kube_config : Endpoint
  handle_init : Endpoint
  handle_activity_tick : Endpoint
  healthz : Endpoint

unfoldable pub routes : List (Text × Text × Endpoint)
routes =
    (codes "GET", codes "/connect", handle_connect)
    ∷ (codes "GET", codes "/attach/:id", handle_attach)
    ∷ (codes "POST", codes "/exec/config", handle_kube_config)
    ∷ (codes "POST", codes "/exec/init", handle_init)
    ∷ (codes "POST", codes "/activity/tick", handle_activity_tick)
    ∷ (codes "GET", codes "/healthz", healthz)
    ∷ []

-- What `main` does once its checks have passed, in order: the managers are started, then the server.
pub data Action : Type 0 where
  registers : List (Text × Text × Endpoint) → Action
  registers_methods : List (Text × RpcMethod) → Action
  starts_inactivity : Created → Action
  starts_run : Created → Action
  runs_tls : Text → Text → Text → Action
  runs : Text → Action

-- How the start ends: the process dies before `main`, by a panic or since the namespace cannot be read;
-- it ends by `logrus.Fatal`; or it goes on.
pub data Started : Type 0 where
  no_exec_manager : Started
  bad_settings : Fatal → Started
  no_activity_manager : SetupError → Started
  no_runtime_manager : SetupError → Started
  goes_on : List Action → Started

unfoldable pub run_server : Settings → Action
run_server s =
    if s.use_tls
    then runs_tls s.url (codes "/var/serving-cert/tls.crt") (codes "/var/serving-cert/tls.key")
    else runs s.url

unfoldable pub serve : Settings → Created → Created → List Action
unfolding routes rpc_routes run_server
serve s activity_manager runtime_manager =
    registers routes
    ∷ registers_methods rpc_routes
    ∷ starts_inactivity activity_manager
    ∷ starts_run runtime_manager
    ∷ run_server s
    ∷ []

unfoldable pub with_runtime : Settings → Created → Created → Started
unfolding serve
with_runtime s activity_manager (failed e) = no_runtime_manager e
with_runtime s activity_manager no_op = goes_on (serve s activity_manager no_op)
with_runtime s activity_manager (manager ns name) =
    goes_on (serve s activity_manager (manager ns name))

unfoldable pub with_activity : Settings → Created → Created → Started
unfolding with_runtime
with_activity s (failed e) runtime_manager = no_activity_manager e
with_activity s no_op runtime_manager = with_runtime s no_op runtime_manager
with_activity s (manager ns name) runtime_manager = with_runtime s (manager ns name) runtime_manager

-- What `main` gets from outside: whether the directory of the service account is one, the file with the
-- namespace, and the two variables with the name of the workspace.
pub record Pod : Type 0 where
  pub service_account : Option Bool
  pub namespace_file : Option Text
  pub che_workspace_name : Option Text
  pub devworkspace_name : Option Text

unfoldable pub main : Environment → List Flag → Pod → Started
unfolding with_activity parse get_exec_manager new_inactivity_idle_manager new_run_idle_manager
main env flags pod =
    elim (get_exec_manager {C = Unit} pod.service_account pod.namespace_file [] none) [
      | none ↦ no_exec_manager
      | some exec_manager ↦ elim (parse env flags) [
        | err e ↦ bad_settings e
        | ok s ↦
            with_activity s
              (new_inactivity_idle_manager s.idle_timeout s.stop_retry_period
                (or_text [] pod.namespace_file) pod.che_workspace_name pod.devworkspace_name)
              (new_run_idle_manager s.run_timeout s.stop_retry_period
                (or_text [] pod.namespace_file) pod.che_workspace_name pod.devworkspace_name)
      ]
    ]
