-- ===== src/Settings/Tests.antt =====
-- The settings of a workspace that sets its ID and its inactivity timeout.
use che_machine_exec.Common.{
  ◌≡◌, refl, codes, text_eq, false, none, some, List, [], ◌∷◌, ok, if◌then◌else◌,
}
use che_machine_exec.Common.Int.{pos, negsuc}
use che_machine_exec.Settings.{Settings, Environment, Flag, parse, set_log_level}

abbrev env : Environment
env = record {
  lookup = λ name.
      if text_eq name (codes "DEVWORKSPACE_ID")
      then some (codes "w1")
      else if text_eq name (codes "SECONDS_OF_DW_INACTIVITY_BEFORE_IDLING")
      then some (codes "60")
      else none;
  parse_bool = λ s. none;
  parse_int = λ s. if text_eq s (codes "60") then some (pos 60) else none;
}

abbrev flags : List Flag
flags = Flag.retry_flag (pos 5000000000) ∷ []

abbrev settings : Settings
settings = record {
  url = codes ":4444";
  use_bearer_token = false;
  authenticated_user_id = [];
  idle_timeout = pos 60000000000;
  run_timeout = negsuc 0;
  stop_retry_period = pos 5000000000;
  use_tls = false;
  pod_selector = codes "controller.devfile.io/devworkspace_id=w1";
  allowed_origins = [];
}

parse_example : parse env flags ≡ ok settings
unfolding parse text_eq
parse_example = refl

default_level : set_log_level (λ s. none) env ≡ codes "info"
unfolding set_log_level text_eq
default_level = refl
