-- ===== src/Watcher/Durations.antt =====
-- timeout/cli-watcher.go: durations and `parseDuration`. A `time.Duration` is an integer number of
-- nanoseconds. `time.ParseDuration` and `strconv.ParseInt(value, 10, 64)` are parameters: `none`
-- is their error.
use che_machine_exec.Common.{
  ℕ, ◌+◌, ◌-◌, ◌*◌, ◌/◌, ◌%◌, ◌^◌, Text, codes, text_eq, is_empty, Bool, true, false, Option, none,
  some, if◌then◌else◌, ltb,
}
use che_machine_exec.Common.Int.{ℤ, pos, negsuc, ltb_ℤ, leb_ℤ}
pub mod Bounds

abbrev pub second : ℕ
second = 1000000000

abbrev pub minute : ℕ
minute = 60000000000

abbrev pub hour : ℕ
hour = 3600000000000

abbrev pub default_check_period : ℕ
default_check_period = 60

abbrev pub default_activity_window : ℤ
default_activity_window = pos (25 * minute)

abbrev pub default_grace_period : ℤ
default_grace_period = pos (5 * minute)

abbrev pub default_max_process_age : ℤ
default_max_process_age = pos (6 * hour)

abbrev pub min_activity_window : ℤ
min_activity_window = pos (2 * minute)

abbrev pub min_grace_period : ℤ
min_grace_period = pos minute

abbrev pub min_check_period : ℕ
min_check_period = 10

abbrev pub safety_buffer_duration : ℤ
safety_buffer_duration = pos (5 * minute)

-- The parsers of Go's library.
pub record Parsers : Type 0 where
  pub duration : Text → Option ℤ
  pub int : Text → Option ℤ

-- The upper bound for a field, by its name.
unfoldable pub max_allowed : Text → ℕ
unfolding text_eq
max_allowed field_name =
    if text_eq field_name (codes "checkPeriod")
    then hour
    else if text_eq field_name (codes "activityWindow")
    then 24 * hour
    else if text_eq field_name (codes "gracePeriod")
    then hour
    else if text_eq field_name (codes "maxProcessAge")
    then 7 * 24 * hour
    else 24 * hour

-- The checks behind the parsing.
unfoldable pub check_bounds : Text → ℤ → ℤ → ℤ
check_bounds field_name default duration =
    if leb_ℤ duration (pos 0)
    then default
    else if ltb_ℤ (pos (max_allowed field_name)) duration
    then default
    else duration

abbrev pub max_safe_seconds : ℕ
max_safe_seconds = 9223372036

-- A value that is no duration may be a number of seconds.
unfoldable pub from_seconds : Text → ℤ → ℤ → ℤ
unfolding check_bounds
from_seconds field_name default (negsuc n) = default
from_seconds field_name default (pos n) =
    if ltb 0 n
    then (if ltb max_safe_seconds n
        then default
        else check_bounds field_name default (pos (n * second)))
    else default

unfoldable pub parse_duration : Parsers → Text → Text → ℤ → ℤ
unfolding is_empty from_seconds
parse_duration p value field_name default =
    if is_empty value then default else elim (p.duration value) [
      | some d ↦ check_bounds field_name default d
      | none ↦ elim (p.int value) [ some s ↦ from_seconds field_name default s | none ↦ default ]
    ]
