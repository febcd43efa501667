-- ===== src/Watcher/Config/Bounds.antt =====
-- The timing parameters of a completed configuration.
use che_machine_exec.Common.{
  ℕ, ◌≡◌, refl, ◌⊎◌, inl, inr, ◌*◌, ◌/◌, ◌≤◌, Text, codes, text_eq, is_empty, ◌&&◌, if◌then◌else◌,
  arith, Bool-cases,
}
use che_machine_exec.Common.Int.{ℤ, pos, negsuc, ◌≤ℤ◌, ◌<ℤ◌, ltb_ℤ, ◌+ℤ◌, ◌-ℤ◌, pos_part}
use che_machine_exec.Watcher.Durations.{
  second, minute, hour, Parsers, max_allowed, parse_duration, default_grace_period,
  default_max_process_age, min_grace_period, min_activity_window, default_activity_window,
  safety_buffer_duration,
}
use che_machine_exec.Watcher.Durations.Bounds.{IsWithin, parse_duration-IsWithin}
use che_machine_exec.Watcher.Config.{
  Config, Fractions, max_check_period, clamp_check_period, default_grace, default_window,
  apply_defaults, is_positive, raw_check_period,
}

-- The check period is at most ten minutes and a quarter of a known idle timeout, and at least ten
-- seconds unless that quarter is less.
abbrev pub IsCheckPeriod : ℤ → ℤ → Type 0
IsCheckPeriod idle d =
    (d ≤ℤ pos (10 * minute))
    × (pos 0 <ℤ idle → d ≤ℤ pos (pos_part idle / 4))
    × ((pos (10 * second) ≤ℤ d) ⊎ ((pos 0 <ℤ idle) × (idle <ℤ pos (40 * second))))

-- The bound itself, and what a value below one bound and raised to another becomes.
max_check_period_bounds :
    (idle : ℤ)
    → (max_check_period idle ≤ℤ pos (10 * minute))
      × (pos 0 <ℤ idle → max_check_period idle ≤ℤ pos (pos_part idle / 4))
      × (pos 0 ≤ℤ max_check_period idle)
      × ((pos (10 * second) ≤ℤ max_check_period idle)
          ⊎ ((pos 0 <ℤ idle) × (idle <ℤ pos (40 * second))))
unfolding max_check_period
max_check_period_bounds (negsuc n) = ground arith
max_check_period_bounds (pos n) = ground arith

clamp_cases :
    (idle d : ℤ)
    → (clamp_check_period idle d ≡ max_check_period idle)
      ⊎ ((clamp_check_period idle d ≤ℤ max_check_period idle)
          × (pos (10 * second) ≤ℤ clamp_check_period idle d))
unfolding clamp_check_period
clamp_cases idle d = elim (Bool-cases (ltb_ℤ d (pos (10 * second)))) [
  | inl e ↦ elim (Bool-cases (ltb_ℤ (max_check_period idle) (pos (10 * second)))) [
    | inl g ↦ rw e (rw g (inl refl))
    | inr g ↦ rw e (rw g (inr (ground arith, ground arith)))
  ]
  | inr e ↦ elim (Bool-cases (ltb_ℤ (max_check_period idle) d)) [
    | inl g ↦ rw e (rw g (inl refl))
    | inr g ↦ rw e (rw g (inr (ground arith, ground arith)))
  ]
]

pub clamp-IsCheckPeriod : (idle d : ℤ) → IsCheckPeriod idle (clamp_check_period idle d)
clamp-IsCheckPeriod idle d =
    let b = max_check_period_bounds idle in
    elim (clamp_cases idle d) [
      | inl e ↦ rw e (b.0, b.1, b.3)
      | inr (le, ge) ↦ (omega arith, λ h. let q = b.1 h in omega arith, inl ge)
    ]

pub clamp_nonneg : (idle d : ℤ) → pos 0 ≤ℤ clamp_check_period idle d
clamp_nonneg idle d =
    let b = max_check_period_bounds idle in
    elim (clamp_cases idle d) [ inl e ↦ rw e b.2 | inr (le, ge) ↦ omega arith ]

raised : (m x : ℤ) → m ≤ℤ (if ltb_ℤ x m then m else x)
raised m x = ground arith

default_grace_bounds :
    (fr : Fractions) (raw : Text) (idle : ℤ)
    → (min_grace_period ≤ℤ default_grace fr raw idle)
      × (default_grace fr raw idle ≤ℤ default_grace_period)
unfolding default_grace
default_grace_bounds fr raw idle = ground arith

over_default :
    (x : ℤ)
    → min_activity_window
      ≤ℤ (if ltb_ℤ x default_activity_window then default_activity_window else x)
over_default x = ground arith

positive : (f : Text) {default d : ℤ} → IsWithin f default d → pos 0 <ℤ default → pos 0 <ℤ d
positive f (inl e) h = rw e h
positive f (inr h) k = h.0

within :
    (f : Text) {default d : ℤ}
    → IsWithin f default d
    → (b : ℕ) → max_allowed f ≤ b
    → pos 0 <ℤ default
    → default ≤ℤ pos b
    → (pos 0 <ℤ d) × (d ≤ℤ pos b)
within f (inl e) b h k l = rw e (k, l)
within f (inr h) b k l m = (h.0, omega arith)

default_window_bound :
    (fr : Fractions) (raw : Text) (idle grace : ℤ)
    → min_activity_window ≤ℤ default_window fr raw idle grace
unfolding default_window
default_window_bound fr raw idle grace = elim (Bool-cases (is_empty raw && is_positive idle)) [
  | inl e ↦ rw e (
      raised min_activity_window (
        idle
        -ℤ grace
        -ℤ (if ltb_ℤ safety_buffer_duration (fr.of_20_percent idle)
            then safety_buffer_duration
            else fr.of_20_percent idle)))
  | inr e ↦ elim (Bool-cases (is_empty raw && is_positive grace)) [
    | inl g ↦ rw (e, g) (over_default (grace +ℤ pos (2 * minute)))
    | inr g ↦ rw (e, g) (omega arith)
  ]
]

-- Whatever the file says, whatever the idle timeout is, and whatever the rounding of its fractions is: the
-- check period of a completed configuration is not negative, at most ten minutes, at most a quarter
-- of an idle timeout above zero, and at least ten seconds unless that timeout is above zero and below
-- forty seconds, when it may be zero; the grace period is positive and at most an hour, the maximal age of
-- a process positive and at most a week; and the activity window is positive, without an upper bound.
pub apply_defaults_bounds :
    (p : Parsers) (fr : Fractions) (c : Config) (idle : ℤ)
    → let d = apply_defaults p fr c idle in
      (pos 0 ≤ℤ d.check_period_parsed)
      × IsCheckPeriod idle d.check_period_parsed
      × ((pos 0 <ℤ d.grace_period_parsed) × (d.grace_period_parsed ≤ℤ pos hour))
      × (pos 0 <ℤ d.activity_window_parsed)
      × ((pos 0 <ℤ d.max_process_age_parsed) × (d.max_process_age_parsed ≤ℤ pos (7 * 24 * hour)))
unfolding apply_defaults
apply_defaults_bounds p fr c idle =
    let grace_default = default_grace_bounds fr c.grace_period idle in
    let grace =
      parse_duration-IsWithin p c.grace_period (codes "gracePeriod")
        (default_grace fr c.grace_period idle) in
    let g : ℤ =
      parse_duration p c.grace_period (codes "gracePeriod")
        (default_grace fr c.grace_period idle) in
    (
      clamp_nonneg idle (raw_check_period p c),
      clamp-IsCheckPeriod idle (raw_check_period p c),
      within (codes "gracePeriod") grace hour (unfold max_allowed text_eq in omega arith)
          (omega arith) (omega arith),
      positive (codes "activityWindow")
          (parse_duration-IsWithin p c.activity_window (codes "activityWindow")
            (default_window fr c.activity_window idle g))
          (omega (arith, default_window_bound fr c.activity_window idle g)),
      within (codes "maxProcessAge")
          (parse_duration-IsWithin p c.max_process_age (codes "maxProcessAge")
            default_max_process_age)
          (7 * 24 * hour) (unfold max_allowed text_eq in omega arith) (omega arith) (omega arith),
    )
