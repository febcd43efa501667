-- ===== src/Watcher/Config.antt =====
-- timeout/cli-watcher.go: the configuration and the functions that complete it.
-- Products of a duration with the fractions 0.15 and 0.2 are computed by the source in 64-bit
-- floats and truncated; `Fractions` holds these two functions as parameters.
pub mod Bounds
pub mod Ceilings
use che_machine_exec.Common.{
  ℕ, ◌+◌, ◌-◌, ◌*◌, ◌/◌, ◌%◌, ◌^◌, Text, codes, text_eq, is_empty, trim_space, Bool, true, false,
  not, ◌&&◌, ◌||◌, List, [], ◌∷◌, ◌++◌, Option, none, some, if◌then◌else◌, ltb, map,
}
use che_machine_exec.Common.Int.{ℤ, pos, negsuc, ltb_ℤ, leb_ℤ, ◌+ℤ◌, ◌-ℤ◌}
use che_machine_exec.Watcher.Durations.{
  second, minute, default_check_period, default_activity_window, default_grace_period,
  default_max_process_age, min_activity_window, min_grace_period, min_check_period,
  safety_buffer_duration, Parsers, parse_duration,
}

pub record WatchedCommand : Type 0 where
  pub name : Text
  pub interactive : Text
  pub force_watch : Text

pub record Config : Type 0 where
  pub watched_commands : List WatchedCommand
  pub ignored_commands : List Text
  pub check_period_seconds : ℤ
  pub check_period : Text
  pub activity_window : Text
  pub grace_period : Text
  pub max_process_age : Text
  pub enabled : Bool
  pub last_mod_time : ℤ
  pub check_period_parsed : ℤ
  pub activity_window_parsed : ℤ
  pub grace_period_parsed : ℤ
  pub max_process_age_parsed : ℤ
  pub from_file : Bool
  pub verbose : Bool

-- The value of a configuration that nothing was written to.
abbrev pub zero_config : Config
zero_config = record {
  watched_commands = [];
  ignored_commands = [];
  check_period_seconds = pos 0;
  check_period = [];
  activity_window = [];
  grace_period = [];
  max_process_age = [];
  enabled = false;
  last_mod_time = pos 0;
  check_period_parsed = pos 0;
  activity_window_parsed = pos 0;
  grace_period_parsed = pos 0;
  max_process_age_parsed = pos 0;
  from_file = false;
  verbose = false;
}

-- Admin settings from the environment; `none` is a nil pointer.
pub record EnvConfig : Type 0 where
  pub enabled : Option Bool
  pub check_period : Option ℤ
  pub activity_window : Option ℤ
  pub grace_period : Option ℤ
  pub max_process_age : Option ℤ
  pub verbose : Option Bool

pub record Fractions : Type 0 where
  pub of_15_percent : ℤ → ℤ
  pub of_20_percent : ℤ → ℤ

-- `time.Duration(n) * time.Second` for a positive n, with the wrap-around of int64.
unfoldable pub seconds : ℕ → ℤ
seconds n = let m = n * second % 2 ^ 64 in if ltb m (2 ^ 63) then pos m else negsuc (2 ^ 64 - 1 - m)

abbrev pub is_positive : ℤ → Bool
is_positive d = ltb_ℤ (pos 0) d

unfoldable pub deprecated_period : ℤ → ℤ
unfolding seconds
deprecated_period (pos n) = if ltb 0 n then seconds n else pos (default_check_period * second)
deprecated_period (negsuc n) = pos (default_check_period * second)

-- The check period before its bounds are applied.
unfoldable pub raw_check_period : Parsers → Config → ℤ
unfolding is_empty deprecated_period
raw_check_period p c =
    if not (is_empty c.check_period)
    then parse_duration p c.check_period (codes "checkPeriod") (pos (default_check_period * second))
    else deprecated_period c.check_period_seconds

-- `idleTimeout / 4` for a positive timeout, at most ten minutes.
unfoldable pub max_check_period : ℤ → ℤ
max_check_period (negsuc n) = pos (10 * minute)
max_check_period (pos n) =
    if ltb 0 n
    then (if ltb (10 * minute) (n / 4) then pos (10 * minute) else pos (n / 4))
    else pos (10 * minute)

unfoldable pub clamp_check_period : ℤ → ℤ → ℤ
unfolding max_check_period
clamp_check_period idle_timeout d =
    let raised =
      if ltb_ℤ d (pos (min_check_period * second)) then pos (min_check_period * second) else d in
    if ltb_ℤ (max_check_period idle_timeout) raised then max_check_period idle_timeout else raised

unfoldable pub default_grace : Fractions → Text → ℤ → ℤ
unfolding is_empty
default_grace fr grace_period idle_timeout =
    if is_empty grace_period && is_positive idle_timeout
    then (let part = fr.of_15_percent idle_timeout in
        let capped = if ltb_ℤ default_grace_period part then default_grace_period else part in
        if ltb_ℤ capped min_grace_period then min_grace_period else capped)
    else default_grace_period

unfoldable pub default_window : Fractions → Text → ℤ → ℤ → ℤ
unfolding is_empty
default_window fr activity_window idle_timeout grace =
    if is_empty activity_window && is_positive idle_timeout
    then (let part = fr.of_20_percent idle_timeout in
        let buffer = if ltb_ℤ safety_buffer_duration part then safety_buffer_duration else part in
        let calculated = idle_timeout -ℤ grace -ℤ buffer in
        if ltb_ℤ calculated min_activity_window then min_activity_window else calculated)
    else if is_empty activity_window && is_positive grace
    then (let longer = grace +ℤ pos (2 * minute) in
        if ltb_ℤ longer default_activity_window then default_activity_window else longer)
    else default_activity_window

-- A command without a mode gets `DefaultInteractiveMode`, "no".
unfoldable pub default_mode : WatchedCommand → WatchedCommand
unfolding is_empty
default_mode w = record w {
  interactive = if is_empty w.interactive then codes "no" else w.interactive;
}

unfoldable pub apply_defaults : Parsers → Fractions → Config → ℤ → Config
unfolding raw_check_period clamp_check_period default_grace default_window default_mode
apply_defaults p fr c idle_timeout =
    let grace =
      parse_duration p c.grace_period (codes "gracePeriod")
        (default_grace fr c.grace_period idle_timeout) in
    record c {
      check_period_parsed = clamp_check_period idle_timeout (raw_check_period p c);
      grace_period_parsed = grace;
      activity_window_parsed =
          parse_duration p c.activity_window (codes "activityWindow")
            (default_window fr c.activity_window idle_timeout grace);
      max_process_age_parsed =
          parse_duration p c.max_process_age (codes "maxProcessAge") default_max_process_age;
      watched_commands = map default_mode c.watched_commands;
    }

-- `applyDurationCeiling`: an admin value is a ceiling for a value from the file, and otherwise the
-- value itself.
unfoldable pub duration_ceiling : Bool → Text → Option ℤ → ℤ → ℤ
unfolding is_empty
duration_ceiling noidle noidle_raw none parsed = parsed
duration_ceiling noidle noidle_raw (some env_val) parsed =
    let noidle_set = noidle && not (is_empty noidle_raw) in
    if noidle_set && ltb_ℤ env_val parsed then env_val else if noidle_set then parsed else env_val

-- `*p` for a pointer that may be nil, with the value for nil.
abbrev pub or_default : Bool → Option Bool → Bool
or_default d none = d
or_default d (some b) = b

-- `DefaultCliWatcherEnabled`.
abbrev pub default_cli_watcher_enabled : Bool
default_cli_watcher_enabled = false

unfoldable pub apply_env_ceilings : EnvConfig → Config → Bool → Config
unfolding duration_ceiling
apply_env_ceilings env c noidle = record c {
  enabled = or_default default_cli_watcher_enabled env.enabled;
  verbose = or_default false env.verbose;
  check_period_parsed =
      duration_ceiling noidle c.check_period env.check_period c.check_period_parsed;
  activity_window_parsed =
      duration_ceiling noidle c.activity_window env.activity_window c.activity_window_parsed;
  grace_period_parsed =
      duration_ceiling noidle c.grace_period env.grace_period c.grace_period_parsed;
  max_process_age_parsed =
      duration_ceiling noidle c.max_process_age env.max_process_age c.max_process_age_parsed;
}

-- `ForceWatchMode.isEnabled`.
unfoldable pub force_watch_enabled : Text → Bool
unfolding text_eq
force_watch_enabled f = text_eq f (codes "true") || text_eq f (codes "yes")

-- Case folding of Go's library: `strings.ToLower` and `strings.EqualFold`, as parameters.
pub record Folding : Type 0 where
  pub to_lower : Text → Text
  pub equal_fold : Text → Text → Bool

unfoldable pub is_excluded : Folding → List Text → Text → Bool
unfolding trim_space
is_excluded fold [] name = false
is_excluded fold (ex ∷ exclusions) name =
    fold.equal_fold (trim_space ex) name || is_excluded fold exclusions name

abbrev pub is_always_ignored : Folding → List Text → WatchedCommand → Bool
is_always_ignored fold exclusions cmd =
    is_excluded fold exclusions (fold.to_lower (trim_space cmd.name))

-- The loop of `ignoreExclusions`: the commands that stay, and the names that are ignored.
unfoldable pub split_exclusions :
    Folding → List Text → List WatchedCommand → List WatchedCommand × List Text
unfolding is_excluded force_watch_enabled
split_exclusions fold exclusions [] = ([], [])
split_exclusions fold exclusions (cmd ∷ cmds) =
    let (filtered, ignored) = split_exclusions fold exclusions cmds in
    if is_always_ignored fold exclusions cmd && not (force_watch_enabled cmd.force_watch)
    then (filtered, cmd.name ∷ ignored)
    else (cmd ∷ filtered, ignored)

unfoldable pub ignore_exclusions : Folding → List Text → Config → Config
unfolding split_exclusions
ignore_exclusions fold exclusions c =
    let (filtered, ignored) = split_exclusions fold exclusions c.watched_commands in
    record c { watched_commands = filtered; ignored_commands = c.ignored_commands ++ ignored }
