-- ===== src/Settings.antt =====
-- cfg/cfg.go: the settings of the service, from the environment and the command line. What
-- `flag.Parse` reads from the command line is a list of flags; a variable that is not set is `none`. The
-- parsers of package strconv and of the log level are parameters.
pub mod Laws
mod Tests
use che_machine_exec.Common.{
  ℕ, ◌*◌, ◌+◌, Text, codes, is_empty, Bool, true, false, not, Option, none, some, List, [], ◌∷◌,
  ◌++◌, Result, ok, err, if◌then◌else◌,
}
use che_machine_exec.Common.Int.{ℤ, pos, negsuc, leb_ℤ}
use che_machine_exec.Api.Origin.{parse_allowed_origins}

pub record Settings : Type 0 where
  pub url : Text
  pub use_bearer_token : Bool
  pub authenticated_user_id : Text
  pub idle_timeout : ℤ
  pub run_timeout : ℤ
  pub stop_retry_period : ℤ
  pub use_tls : Bool
  pub pod_selector : Text
  pub allowed_origins : List Text

-- `os.LookupEnv`, `strconv.ParseBool`, and `strconv.ParseInt` in base 10 for 32 bits.
pub record Environment : Type 0 where
  pub lookup : Text → Option Text
  pub parse_bool : Text → Option Bool
  pub parse_int : Text → Option ℤ

abbrev pub seconds : ℤ → ℤ
seconds (pos n) = pos (n * 1000000000)
seconds (negsuc n) = negsuc (n * 1000000000 + 999999999)

-- `isFound && len(value) > 0`.
abbrev pub non_empty : Option Text → Option Text
non_empty none = none
non_empty (some []) = none
non_empty (some (c ∷ s)) = some (c ∷ s)

abbrev pub or_text : Text → Option Text → Text
or_text default none = default
or_text default (some value) = value

unfoldable pub bool_of : Environment → Option Text → Bool
bool_of env none = false
bool_of env (some value) = elim (env.parse_bool value) [ none ↦ false | some b ↦ b ]

-- A timeout in seconds, and the default for a value that is missing or no number.
unfoldable pub timeout_of : Environment → ℤ → Option Text → ℤ
timeout_of env default none = default
timeout_of env default (some value) = elim (env.parse_int value) [
  | none ↦ default
  | some v ↦ seconds v
]

-- `os.Getenv`.
abbrev pub getenv : Environment → Text → Text
getenv env name = or_text [] (env.lookup name)

unfoldable pub default_pod_selector : Environment → Text
unfolding is_empty
default_pod_selector env = elim (env.lookup (codes "POD_SELECTOR")) [
  | some selector ↦ selector
  | none ↦
      if not (is_empty (getenv env (codes "DEVWORKSPACE_ID")))
      then codes "controller.devfile.io/devworkspace_id=" ++ getenv env (codes "DEVWORKSPACE_ID")
      else if not (is_empty (getenv env (codes "CHE_WORKSPACE_ID")))
      then codes "che.workspace_id=" ++ getenv env (codes "CHE_WORKSPACE_ID")
      else []
]

-- `init`: the defaults of the flags.
unfoldable pub defaults : Environment → Settings
unfolding bool_of timeout_of default_pod_selector parse_allowed_origins
defaults env = record {
  url = or_text (codes ":4444") (non_empty (env.lookup (codes "API_URL")));
  use_bearer_token = bool_of env (non_empty (env.lookup (codes "USE_BEARER_TOKEN")));
  authenticated_user_id = getenv env (codes "AUTHENTICATED_USER_ID");
  idle_timeout =
      timeout_of env (pos 1800000000000)
        (non_empty (env.lookup (codes "SECONDS_OF_DW_INACTIVITY_BEFORE_IDLING")));
  run_timeout =
      timeout_of env (negsuc 0) (non_empty (env.lookup (codes "SECONDS_OF_DW_RUN_BEFORE_IDLING")));
  stop_retry_period = pos 10000000000;
  use_tls = false;
  pod_selector = default_pod_selector env;
  allowed_origins = parse_allowed_origins (getenv env (codes "ALLOWED_ORIGINS"));
}

-- A flag of the command line with its value.
pub data Flag : Type 0 where
  url_flag : Text → Flag
  bearer_flag : Bool → Flag
  user_flag : Text → Flag
  idle_flag : ℤ → Flag
  run_flag : ℤ → Flag
  retry_flag : ℤ → Flag
  tls_flag : Bool → Flag
  selector_flag : Text → Flag
  origins_flag : Text → Flag

unfoldable pub set_flag : Flag → Settings → Settings
unfolding parse_allowed_origins
set_flag (url_flag v) s = record s { url = v }
set_flag (bearer_flag v) s = record s { use_bearer_token = v }
set_flag (user_flag v) s = record s { authenticated_user_id = v }
set_flag (idle_flag v) s = record s { idle_timeout = v }
set_flag (run_flag v) s = record s { run_timeout = v }
set_flag (retry_flag v) s = record s { stop_retry_period = v }
set_flag (tls_flag v) s = record s { use_tls = v }
set_flag (selector_flag v) s = record s { pod_selector = v }
set_flag (origins_flag v) s = record s { allowed_origins = parse_allowed_origins v }

-- A later flag replaces an earlier one.
unfoldable pub set_flags : List Flag → Settings → Settings
unfolding set_flag
set_flags [] s = s
set_flags (f ∷ fs) s = set_flags fs (set_flag f s)

-- What `logrus.Fatal` ends the program with.
pub data Fatal : Type 0 where
  no_pod_selector : Fatal
  no_retry_period : Fatal

-- `Parse`.
unfoldable pub checked : Settings → Result Fatal Settings
unfolding is_empty
checked s =
    if is_empty s.pod_selector
    then err no_pod_selector
    else if leb_ℤ s.stop_retry_period (pos 0)
    then err no_retry_period
    else ok s

unfoldable pub parse : Environment → List Flag → Result Fatal Settings
unfolding defaults set_flags checked
parse env flags = checked (set_flags flags (defaults env))

-- `setLogLevel`, with `logrus.ParseLevel`: the level that is set.
unfoldable pub set_log_level : (Text → Option Text) → Environment → Text
set_log_level parse_level env = elim (non_empty (env.lookup (codes "LOG_LEVEL"))) [
  | none ↦ codes "info"
  | some value ↦ elim (parse_level value) [ none ↦ codes "info" | some level ↦ level ]
]
