-- ===== src/Watcher/Loop.antt =====
-- timeout/cli-watcher.go: the watcher's life, from `Start` to `Stop`, and one cycle of its loop.
-- A source's scan and the file are parameters of a cycle. Logging is left out.
pub mod Laws
use che_machine_exec.Common.{
  ℕ, suc, ◌+◌, ◌/◌, Text, Bool, true, false, not, ◌&&◌, ◌||◌, Option, none, some, List, [], ◌∷◌,
  if◌then◌else◌, ltb, ◌==◌,
}
use che_machine_exec.Common.Int.{ℤ, pos, negsuc, ltb_ℤ}
use che_machine_exec.Watcher.Durations.{second, default_check_period, Parsers}
use che_machine_exec.Watcher.Config.{Config, EnvConfig, Folding}
use che_machine_exec.Watcher.Sources.{Selector, resolve_active_activity_sources}
use che_machine_exec.Watcher.Load.{
  FileView, Setup, Loaded, load_config, Environment, load_env_config,
}

-- `int(d.Seconds())`, for a duration that is not negative.
unfoldable pub whole_seconds : ℤ → ℕ
whole_seconds (pos n) = n / second
whole_seconds (negsuc n) = 0

-- The loop's variables: what was loaded, the ticker's period in seconds, and how often `tickFunc` was
-- called.
pub record Loop : Type 0 where
  pub loaded : Loaded
  pub chk_period : ℕ
  pub ticks : ℕ

-- The period of the first ticker.
unfoldable pub first_period : Option Config → ℕ
unfolding whole_seconds
first_period none = default_check_period
first_period (some c) =
    if ltb_ℤ (pos 0) c.check_period_parsed
    then whole_seconds c.check_period_parsed
    else default_check_period

-- The loop over the sources, which stops at the first active one.
unfoldable pub scan_sources : (Text → Config → Bool) → List Text → Config → Bool
scan_sources scan [] c = false
scan_sources scan (src ∷ sources) c = scan src c || scan_sources scan sources c

-- `newPeriod > 0 && newPeriod != oldPeriod`.
unfoldable pub next_period : ℕ → ℤ → ℕ
unfolding whole_seconds
next_period old d =
    if ltb 0 (whole_seconds d) && not (whole_seconds d == old) then whole_seconds d else old

-- The loop behind the reload: the period and the number of ticks.
unfoldable pub after_reload : (Text → Config → Bool) → List Text → ℕ → Option Config → ℕ × ℕ
unfolding next_period scan_sources
after_reload scan sources old none = (default_check_period, 0)
after_reload scan sources old (some c) =
    if not c.enabled
    then (default_check_period, 0)
    else (next_period old c.check_period_parsed, if scan_sources scan sources c then 1 else 0)

-- `case <-ticker.C`.
unfoldable pub cycle : Setup → (Text → Config → Bool) → List Text → FileView → Loop → Loop
unfolding load_config after_reload
cycle su scan sources view l =
    let loaded = load_config su l.loaded.warned view l.loaded.config in
    let (period, ticked) = after_reload scan sources l.chk_period loaded.config in
    record { loaded = loaded; chk_period = period; ticks = l.ticks + ticked }

-- The loop before its first cycle.
unfoldable pub start_loop : Setup → FileView → Loaded → Loop
unfolding first_period load_config
start_loop su view l =
    let loaded = load_config su l.warned view l.config in
    record { loaded = loaded; chk_period = first_period loaded.config; ticks = 0 }

-- The watcher's own fields. `running` counts the loops that were started and `is_closed` says that
-- `stopChan` is closed.
pub record Watcher : Type 0 where
  pub started : Bool
  pub env : Option (EnvConfig × List Selector)
  pub active_sources : List Text
  pub running : ℕ
  pub is_closed : Bool

-- `NewCliWatcher`.
abbrev pub new_cli_watcher : Watcher
new_cli_watcher = record {
  started = false;
  env = none;
  active_sources = [];
  running = 0;
  is_closed = false;
}

abbrev is_nil : List Text → Bool
is_nil [] = true
is_nil (s ∷ ss) = false

-- `Start`: a watcher without an active source is started and runs no loop.
unfoldable pub start : Parsers → Folding → Environment → List Text → Watcher → Watcher
unfolding load_env_config resolve_active_activity_sources
start p fold e all w =
    if w.started
    then w
    else (let env = load_env_config p fold e in
        let active = (resolve_active_activity_sources fold all env.1).0 in
        record w {
          started = true;
          env = some env;
          active_sources = active;
          running = if is_nil active then w.running else suc w.running;
        })

-- `Stop`; `stopOnce` closes the channel the first time only.
unfoldable pub stop : Watcher → Watcher
stop w = if not w.started then w else record w { started = false; is_closed = true }
