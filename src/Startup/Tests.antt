-- ===== src/Startup/Tests.antt =====
-- A process in a pod of the namespace `ns`, with the idle timeout of one minute.
use che_machine_exec.Common.{
  ◌≡◌, refl, codes, text_eq, true, false, none, some, List, [], if◌then◌else◌,
}
use che_machine_exec.Common.Int.{pos, negsuc}
use che_machine_exec.Idle.{no_op, manager}
use che_machine_exec.Settings.{Settings, Environment}
use che_machine_exec.Startup.{no_exec_manager, serve, Pod, main, Action}

abbrev env : Environment
env = record {
  lookup = λ name.
      if text_eq name (codes "POD_SELECTOR")
      then some (codes "a=b")
      else if text_eq name (codes "SECONDS_OF_DW_INACTIVITY_BEFORE_IDLING")
      then some (codes "60")
      else none;
  parse_bool = λ s. none;
  parse_int = λ s. if text_eq s (codes "60") then some (pos 60) else none;
}

abbrev pod : Pod
pod = record {
  service_account = some true;
  namespace_file = some (codes "ns");
  che_workspace_name = none;
  devworkspace_name = some (codes "w");
}

abbrev settings : Settings
settings = record {
  url = codes ":4444";
  use_bearer_token = false;
  authenticated_user_id = [];
  idle_timeout = pos 60000000000;
  run_timeout = negsuc 0;
  stop_retry_period = pos 10000000000;
  use_tls = false;
  pod_selector = codes "a=b";
  allowed_origins = [];
}

abbrev actions : List Action
actions = serve settings (manager (codes "ns") (codes "w")) no_op

outside_a_pod : main env [] (record pod { service_account = none }) ≡ no_exec_manager
unfolding main
outside_a_pod = refl
