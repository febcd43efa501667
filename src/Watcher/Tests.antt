-- ===== src/Watcher/Tests.antt =====
-- Runs of the CLI watcher with an idle timeout of half an hour.
use che_machine_exec.Common.{
  ◌≡◌, ◌≢◌, refl, inl, ◌+◌, ◌*◌, ◌<◌, ◌≤◌, if◌then◌else◌, Text, codes, text_eq, true, false, Option,
  none, some, List, [], ◌∷◌, In, arith, ◌++◌,
}
use che_machine_exec.Common.Int.{ℤ, pos, ◌<ℤ◌, ◌≤ℤ◌}
use che_machine_exec.Watcher.Path.{FileSystem, resolved, find_upward}
use che_machine_exec.Watcher.Path.Nearest.{Finds, find_upward-Finds}
use che_machine_exec.Watcher.Durations.{Parsers, hour, minute, parse_duration}
use che_machine_exec.Watcher.Durations.Bounds.{IsWithin, parse_duration-IsWithin}
use che_machine_exec.Watcher.Config.{
  Config, EnvConfig, Fractions, Folding, WatchedCommand, zero_config, or_default, apply_defaults,
  apply_env_ceilings, ignore_exclusions,
}
use che_machine_exec.Watcher.Config.Bounds.{IsCheckPeriod, apply_defaults_bounds}
use che_machine_exec.Watcher.Config.Ceilings.{
  ObeysCeiling, apply_env_ceilings-ObeysCeiling, drops, dropped_names, ignore_exclusions_split,
}
use che_machine_exec.Watcher.Sources.{parse_tokens, implicit_pass, is_mentioned, is_default_on}
use che_machine_exec.Watcher.Sources.Laws.{AreFresh, parse_tokens-AreFresh, implicit_pass-defaults}
use che_machine_exec.Watcher.Load.{
  FileView, found, Setup, Environment, load_config, complete_config, load_env_config, is_unchanged,
}
use che_machine_exec.Watcher.Load.Limits.{
  ArePositiveLimits, IsSound, load_env_config-ArePositiveLimits,
}
use che_machine_exec.Watcher.Load.Laws.{nothing_loaded, load_all-IsSound, load_config_error}
use che_machine_exec.Watcher.Loop.{Loop, cycle}
use che_machine_exec.Watcher.Loop.Laws.{IsActive, cycle_ticks}

abbrev parsers : Parsers
parsers = record {
  duration = λ t. if_text t (codes "5m") (some (pos (5 * minute)));
  int = λ t. none;
}
  where
    if_text : Text → Text → Option ℤ → Option ℤ
    if_text t u o = if text_eq t u then o else none

abbrev fractions : Fractions
fractions = record { of_15_percent = λ d. pos (4 * minute); of_20_percent = λ d. pos (6 * minute) }

abbrev folding : Folding
folding = record { to_lower = λ t. t; equal_fold = λ a b. text_eq a b }

abbrev half_hour : ℤ
half_hour = pos (30 * minute)

abbrev env : EnvConfig
env = record {
  enabled = some true;
  check_period = none;
  activity_window = some (pos (10 * minute));
  grace_period = none;
  max_process_age = none;
  verbose = none;
}

abbrev make : WatchedCommand
make = record { name = codes "make"; interactive = []; force_watch = [] }

abbrev top : WatchedCommand
top = record { name = codes "top"; interactive = []; force_watch = [] }

abbrev file_config : Config
file_config = record zero_config { watched_commands = make ∷ top ∷ []; grace_period = codes "5m" }

abbrev setup : Setup
setup = record {
  parsers = parsers;
  fractions = fractions;
  folding = folding;
  unmarshal = λ t. some file_config;
  idle_timeout = half_hour;
  env = env;
  always_ignored = codes "tail" ∷ codes "watch" ∷ codes "top" ∷ codes "htop" ∷ [];
}

parsed_duration :
    IsWithin
      (codes "gracePeriod")
      (pos hour)
      (parse_duration parsers (codes "5m") (codes "gracePeriod") (pos hour))
parsed_duration = parse_duration-IsWithin parsers (codes "5m") (codes "gracePeriod") (pos hour)

apply_defaults_bounds_example :
    (let d = apply_defaults parsers fractions file_config half_hour in
      (pos 0 ≤ℤ d.check_period_parsed)
      × IsCheckPeriod half_hour d.check_period_parsed
      × ((pos 0 <ℤ d.grace_period_parsed) × (d.grace_period_parsed ≤ℤ pos hour))
      × (pos 0 <ℤ d.activity_window_parsed)
      × ((pos 0 <ℤ d.max_process_age_parsed) × (d.max_process_age_parsed ≤ℤ pos (7 * 24 * hour))))
apply_defaults_bounds_example = apply_defaults_bounds parsers fractions file_config half_hour

apply_env_ceilings-ObeysCeiling_example :
    (let c = file_config in
      let d = apply_env_ceilings env c true in
      (d.enabled ≡ or_default false env.enabled)
      × (d.verbose ≡ or_default false env.verbose)
      × ObeysCeiling true c.check_period env.check_period c.check_period_parsed
          d.check_period_parsed
      × ObeysCeiling true c.activity_window env.activity_window c.activity_window_parsed
          d.activity_window_parsed
      × ObeysCeiling true c.grace_period env.grace_period c.grace_period_parsed
          d.grace_period_parsed
      × ObeysCeiling true c.max_process_age env.max_process_age c.max_process_age_parsed
          d.max_process_age_parsed)
apply_env_ceilings-ObeysCeiling_example = apply_env_ceilings-ObeysCeiling env file_config true

ignore_exclusions_split_example :
    (let d = ignore_exclusions folding (codes "top" ∷ []) file_config in
      (In top d.watched_commands
        → In top file_config.watched_commands × (drops folding (codes "top" ∷ []) top ≡ false))
      × (In top file_config.watched_commands
          → drops folding (codes "top" ∷ []) top ≡ false
          → In top d.watched_commands)
      × (In top file_config.watched_commands
          → drops folding (codes "top" ∷ []) top ≡ true
          → In (codes "top") d.ignored_commands)
      × (d.ignored_commands
          ≡ file_config.ignored_commands
            ++ dropped_names folding (codes "top" ∷ []) file_config.watched_commands))
ignore_exclusions_split_example = ignore_exclusions_split folding (codes "top" ∷ []) file_config top

abbrev tokens : List Text
tokens = codes "tty" ∷ codes "codex:true" ∷ codes "tty:false" ∷ []

fresh_tokens : AreFresh [] (parse_tokens folding [] tokens)
fresh_tokens = parse_tokens-AreFresh folding [] tokens

only_defaults : (is_mentioned [] (codes "tty") ≡ false) × (is_default_on (codes "tty") ≡ true)
unfolding implicit_pass text_eq
only_defaults =
    implicit_pass-defaults folding [] (codes "tty" ∷ codes "codex" ∷ []) (codes "tty") (inl refl)

abbrev environment : Environment
environment = record { lookup = λ n. some (codes "5m"); parse_bool = λ v. none }

env_limits : ArePositiveLimits (load_env_config parsers folding environment).0
env_limits = load_env_config-ArePositiveLimits parsers folding environment

abbrev new_file : FileView
new_file = record { stat = found (pos 100); contents = some (codes "watchedCommands") }

load_all-IsSound_example : IsSound env (complete_config setup (pos 100) file_config)
unfolding load_config apply_env_ceilings ignore_exclusions apply_defaults
load_all-IsSound_example =
    load_all-IsSound setup (new_file ∷ new_file ∷ []) (complete_config setup (pos 100) file_config)
      (tt, omega arith, tt, tt) refl

load_config_error_example :
    ((load_config setup false new_file none).error ≢ none
      → (load_config setup false new_file none).config ≡ none)
    × ((m : ℤ)
        → new_file.stat ≡ found m
        → is_unchanged none m ≡ true
        → (load_config setup false new_file none).config ≡ none)
load_config_error_example = load_config_error setup false new_file none

abbrev loop : Loop
loop = record { loaded = nothing_loaded; chk_period = 60; ticks = 3 }

cycle_ticks_example :
    (let m = cycle setup (λ src c. true) (codes "tty" ∷ []) new_file loop in
      (3 ≤ m.ticks)
      × (m.ticks ≤ 3 + 1)
      × (m.ticks ≢ 3
          → (c : Config) × (m.loaded.config ≡ some c)
            × (c.enabled ≡ true)
            × IsActive (λ src c. true) (codes "tty" ∷ []) c)
      × (0 < 60 → 0 < m.chk_period))
cycle_ticks_example = cycle_ticks setup (λ src c. true) (codes "tty" ∷ []) new_file loop

-- A configuration file one level above the start.
abbrev files : FileSystem
files = record { stat = λ path. text_eq path (codes "/p/a/.noidle"); eval_symlinks = λ path. none }

find_upward_example :
    find_upward files (codes "/p/a/b") (codes "/p") (codes ".noidle") ≡ codes "/p/a/.noidle"
unfolding find_upward
find_upward_example = refl

find_upward-Finds_example :
    Finds 100 files
      (resolved files (codes "/p"))
      (codes ".noidle")
      (resolved files (codes "/p/a/b"))
      (find_upward files (codes "/p/a/b") (codes "/p") (codes ".noidle"))
find_upward-Finds_example = find_upward-Finds files (codes "/p/a/b") (codes "/p") (codes ".noidle")
