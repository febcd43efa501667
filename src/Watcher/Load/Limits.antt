-- ===== src/Watcher/Load/Limits.antt =====
-- The limits of the admin, and what a configuration below them is.
use che_machine_exec.Common.{
  ◌≡◌, refl, inl, inr, Text, is_empty, Bool, false, not, ◌&&◌, Option, none, some, arith,
  Bool-cases, Option-cases,
}
use che_machine_exec.Common.Int.{ℤ, pos, ◌≤ℤ◌, ◌<ℤ◌, ltb_ℤ}
use che_machine_exec.Watcher.Durations.{Parsers, parse_duration}
use che_machine_exec.Watcher.Config.{
  Config, EnvConfig, Folding, or_default, apply_defaults, duration_ceiling, apply_env_ceilings,
  raw_check_period,
}
use che_machine_exec.Watcher.Config.Bounds.{clamp_nonneg}
use che_machine_exec.Watcher.Load.{Setup, Environment, parse_duration_env, load_env_config}

-- An admin value that is set is positive.
abbrev pub IsPositiveLimit : Option ℤ → Type 0
IsPositiveLimit none = Unit
IsPositiveLimit (some d) = pos 0 <ℤ d

abbrev pub ArePositiveLimits : EnvConfig → Type 0
ArePositiveLimits env =
    IsPositiveLimit env.check_period
    × IsPositiveLimit env.activity_window
    × IsPositiveLimit env.grace_period
    × IsPositiveLimit env.max_process_age

parse_duration_env-IsPositiveLimit :
    (p : Parsers) (e : Environment) (name : Text) → IsPositiveLimit (parse_duration_env p e name)
unfolding parse_duration_env
parse_duration_env-IsPositiveLimit p e name = elim (Option-cases (e.lookup name)) [
  | inl h ↦ rw (h, IsPositiveLimit) tt
  | inr (v, h) ↦
      elim (Bool-cases (not (is_empty v) && ltb_ℤ (pos 0) (parse_duration p v name (pos 0)))) [
        | inl t ↦ rw (h, IsPositiveLimit, t) (ground arith)
        | inr t ↦ rw (h, IsPositiveLimit, t) tt
      ]
]

-- Every duration that the admin's settings hold is positive, whatever the process environment is.
pub load_env_config-ArePositiveLimits :
    (p : Parsers) (fold : Folding) (e : Environment)
    → ArePositiveLimits (load_env_config p fold e).0
unfolding load_env_config
load_env_config-ArePositiveLimits p fold e = (
  parse_duration_env-IsPositiveLimit p e _,
  parse_duration_env-IsPositiveLimit p e _,
  parse_duration_env-IsPositiveLimit p e _,
  parse_duration_env-IsPositiveLimit p e _,
)

-- At most the admin's value, if there is one.
abbrev pub IsBelow : Option ℤ → ℤ → Type 0
IsBelow none d = Unit
IsBelow (some limit) d = d ≤ℤ limit

-- What the watcher relies on: the admin decides on `enabled`, and the durations are positive, the
-- process age also, and at most the admin's limits; the check period may be zero when the idle timeout is
-- below four nanoseconds.
abbrev pub IsSound : EnvConfig → Config → Type 0
IsSound env c =
    (c.enabled ≡ or_default false env.enabled)
    × ((pos 0 ≤ℤ c.check_period_parsed) × IsBelow env.check_period c.check_period_parsed)
    × ((pos 0 <ℤ c.activity_window_parsed) × IsBelow env.activity_window c.activity_window_parsed)
    × ((pos 0 <ℤ c.grace_period_parsed) × IsBelow env.grace_period c.grace_period_parsed)
    × ((pos 0 <ℤ c.max_process_age_parsed) × IsBelow env.max_process_age c.max_process_age_parsed)

abbrev pub IsSoundOption : EnvConfig → Option Config → Type 0
IsSoundOption env none = Unit
IsSoundOption env (some c) = IsSound env c

duration_ceiling_sound :
    (noidle : Bool) (raw : Text) (env : Option ℤ) (parsed : ℤ)
    → IsPositiveLimit env
    → pos 0 <ℤ parsed
    → (pos 0 <ℤ duration_ceiling noidle raw env parsed)
      × IsBelow env (duration_ceiling noidle raw env parsed)
unfolding duration_ceiling
duration_ceiling_sound noidle raw none parsed l h = (h, tt)
duration_ceiling_sound noidle raw (some limit) parsed l h =
    elim (Bool-cases (noidle && not (is_empty raw))) [
      | inr e ↦ rw e (l, omega arith)
      | inl e ↦ elim (Bool-cases (ltb_ℤ limit parsed)) [
        | inl g ↦ rw (e, g) (l, omega arith)
        | inr g ↦ rw (e, g) (h, ground arith)
      ]
    ]

duration_ceiling_nonneg :
    (noidle : Bool) (raw : Text) (env : Option ℤ) (parsed : ℤ)
    → IsPositiveLimit env
    → pos 0 ≤ℤ parsed
    → (pos 0 ≤ℤ duration_ceiling noidle raw env parsed)
      × IsBelow env (duration_ceiling noidle raw env parsed)
unfolding duration_ceiling
duration_ceiling_nonneg noidle raw none parsed l h = (h, tt)
duration_ceiling_nonneg noidle raw (some limit) parsed l h =
    elim (Bool-cases (noidle && not (is_empty raw))) [
      | inr e ↦ rw e (omega arith, omega arith)
      | inl e ↦ elim (Bool-cases (ltb_ℤ limit parsed)) [
        | inl g ↦ rw (e, g) (omega arith, omega arith)
        | inr g ↦ rw (e, g) (h, ground arith)
      ]
    ]

-- Whatever stands in the completed part, admin limits make it sound.
pub apply_env_ceilings-IsSound :
    (env : EnvConfig) (c : Config) (noidle : Bool)
    → ArePositiveLimits env
    → pos 0 ≤ℤ c.check_period_parsed
    → pos 0 <ℤ c.activity_window_parsed
    → pos 0 <ℤ c.grace_period_parsed
    → pos 0 <ℤ c.max_process_age_parsed
    → IsSound env (apply_env_ceilings env c noidle)
unfolding apply_env_ceilings
apply_env_ceilings-IsSound env c noidle limits cp aw gp pa = (
  refl,
  duration_ceiling_nonneg noidle _ env.check_period _ limits.0 cp,
  duration_ceiling_sound noidle _ env.activity_window _ limits.1 aw,
  duration_ceiling_sound noidle _ env.grace_period _ limits.2 gp,
  duration_ceiling_sound noidle _ env.max_process_age _ limits.3 pa,
)

pub check_period_nonneg :
    (su : Setup) (c : Config)
    → pos 0 ≤ℤ (apply_defaults su.parsers su.fractions c su.idle_timeout).check_period_parsed
unfolding apply_defaults
check_period_nonneg su c = clamp_nonneg su.idle_timeout (raw_check_period su.parsers c)
