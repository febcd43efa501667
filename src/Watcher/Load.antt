-- ===== src/Watcher/Load.antt =====
-- timeout/cli-watcher.go: `loadConfig` and `loadEnvConfig`. What the file system and the YAML
-- decoder return are parameters: `none` is an error.
pub mod Limits
pub mod Laws
use che_machine_exec.Common.{
  ◌<◌, Text, codes, is_empty, Bool, true, false, not, ◌&&◌, Option, none, some, List, [], ◌∷◌,
  if◌then◌else◌,
}
use che_machine_exec.Common.Int.{ℤ, pos, leb_ℤ, ltb_ℤ}
use che_machine_exec.Watcher.Durations.{Parsers, parse_duration}
use che_machine_exec.Watcher.Config.{
  Config, EnvConfig, WatchedCommand, Fractions, Folding, zero_config, apply_defaults,
  ignore_exclusions, apply_env_ceilings,
}
use che_machine_exec.Watcher.Sources.{Selector, parse_activity_sources_env}

-- `os.Stat`: a modification time, or one of the two kinds of error.
pub data Stat : Type 0 where
  not_exist : Stat
  stat_failed : Stat
  found : ℤ → Stat

-- What one call of `loadConfig` sees of the file.
pub record FileView : Type 0 where
  pub stat : Stat
  pub contents : Option Text

-- The parameters of the watcher: Go's library and YAML's decoder, the idle timeout, the admin's
-- settings and `alwaysIgnoredCommands`.
pub record Setup : Type 0 where
  pub parsers : Parsers
  pub fractions : Fractions
  pub folding : Folding
  pub unmarshal : Text → Option Config
  pub idle_timeout : ℤ
  pub env : EnvConfig
  pub always_ignored : List Text

pub data LoadError : Type 0 where
  failed_to_stat : LoadError
  failed_to_read : LoadError
  failed_to_parse : LoadError

-- The returned configuration and error, and `warnedMissingConfig` after the call.
pub record Loaded : Type 0 where
  pub config : Option Config
  pub error : Option LoadError
  pub warned : Bool

abbrev pub is_from_file : Option Config → Bool
is_from_file none = false
is_from_file (some c) = c.from_file

-- `current != nil && !info.ModTime().After(current._lastModTime)`.
unfoldable pub is_unchanged : Option Config → ℤ → Bool
is_unchanged none mod_time = false
is_unchanged (some c) mod_time = leb_ℤ mod_time c.last_mod_time

-- The configuration of a run without a file.
unfoldable pub default_config : Setup → Config
default_config su =
    apply_env_ceilings su.env (apply_defaults su.parsers su.fractions zero_config su.idle_timeout)
      false

-- The configuration that a decoded file gives.
unfoldable pub complete_config : Setup → ℤ → Config → Config
complete_config su mod_time c =
    apply_env_ceilings su.env
      (ignore_exclusions su.folding su.always_ignored (
        apply_defaults su.parsers su.fractions
          (record c { last_mod_time = mod_time; from_file = true }) su.idle_timeout))
      true

-- The file does not exist. `is_from_file` of nil is false, so a nil configuration warns once.
unfoldable pub load_missing : Setup → Bool → Option Config → Loaded
unfolding default_config
load_missing su warned none = record {
  config = some (default_config su);
  error = none;
  warned = true;
}
load_missing su warned (some c) =
    if c.from_file
    then record { config = some (default_config su); error = none; warned = warned }
    else record { config = some c; error = none; warned = true }

-- The file is new or changed.
unfoldable pub load_changed : Setup → Option Config → ℤ → Option Text → Loaded
unfolding complete_config
load_changed su current mod_time none = record {
  config = current;
  error = some failed_to_read;
  warned = false;
}
load_changed su current mod_time (some data_read) = elim (su.unmarshal data_read) [
  | none ↦ record { config = current; error = some failed_to_parse; warned = false }
  | some c ↦ record { config = some (complete_config su mod_time c); error = none; warned = false }
]

unfoldable pub load_config : Setup → Bool → FileView → Option Config → Loaded
unfolding load_missing load_changed is_unchanged
load_config su warned view current = elim view.stat [
  | not_exist ↦ load_missing su warned current
  | stat_failed ↦ record { config = current; error = some failed_to_stat; warned = warned }
  | found mod_time ↦
      if is_unchanged current mod_time
      then record { config = current; error = none; warned = false }
      else load_changed su current mod_time view.contents
]

-- The process environment and `strconv.ParseBool`.
pub record Environment : Type 0 where
  pub lookup : Text → Option Text
  pub parse_bool : Text → Option Bool

unfoldable pub parse_bool_env : Environment → Text → Option Bool
parse_bool_env e name = elim (e.lookup name) [ none ↦ none | some v ↦ e.parse_bool v ]

-- The closure `parseDurationEnv`.
unfoldable pub parse_duration_env : Parsers → Environment → Text → Option ℤ
unfolding is_empty
parse_duration_env p e name = elim (e.lookup name) [
  | none ↦ none
  | some v ↦
      let d = parse_duration p v name (pos 0) in
      if not (is_empty v) && ltb_ℤ (pos 0) d then some d else none
]

unfoldable pub load_env_config : Parsers → Folding → Environment → EnvConfig × List Selector
unfolding parse_bool_env parse_duration_env
load_env_config p fold e = (
  record {
    enabled = parse_bool_env e (codes "CLI_ACTIVITY_TRACKER_ENABLED");
    check_period = parse_duration_env p e (codes "CLI_ACTIVITY_TRACKER_CHECK_PERIOD");
    activity_window = parse_duration_env p e (codes "CLI_ACTIVITY_TRACKER_ACTIVITY_WINDOW");
    grace_period = parse_duration_env p e (codes "CLI_ACTIVITY_TRACKER_GRACE_PERIOD");
    max_process_age = parse_duration_env p e (codes "CLI_ACTIVITY_TRACKER_MAX_PROCESS_AGE");
    verbose = parse_bool_env e (codes "CLI_ACTIVITY_TRACKER_VERBOSE");
  },
  elim (e.lookup (codes "CLI_ACTIVITY_TRACKER_ACTIVITY_SOURCES")) [
    | none ↦ []
    | some v ↦ parse_activity_sources_env fold v
  ],
)

-- `UnmarshalYAML` of a watched command, from what the decoder makes of the node as a string and as a
-- struct.
unfoldable pub unmarshal_yaml :
    WatchedCommand → Option Text → Option WatchedCommand → Option WatchedCommand
unmarshal_yaml w (some str) raw = some (record w { name = str; interactive = codes "no" })
unmarshal_yaml w none raw = raw
