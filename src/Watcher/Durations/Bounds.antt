-- ===== src/Watcher/Durations/Bounds.antt =====
-- What `parseDuration` may return.
use che_machine_exec.Common.{
  ◌≡◌, refl, ◌⊎◌, inl, inr, ◌*◌, Text, is_empty, ltb, arith, Bool-cases, Option-cases,
}
use che_machine_exec.Common.Int.{ℤ, pos, negsuc, ◌≤ℤ◌, ◌<ℤ◌, leb_ℤ, ltb_ℤ}
use che_machine_exec.Watcher.Durations.{
  second, Parsers, max_allowed, check_bounds, from_seconds, max_safe_seconds, parse_duration,
}

-- The default, or a positive duration within the bound of the field.
abbrev pub IsWithin : Text → ℤ → ℤ → Type 0
IsWithin field_name default d = (d ≡ default) ⊎ ((pos 0 <ℤ d) × (d ≤ℤ pos (max_allowed field_name)))

check_bounds-IsWithin : (f : Text) (default d : ℤ) → IsWithin f default (check_bounds f default d)
unfolding check_bounds
check_bounds-IsWithin f default d = elim (Bool-cases (leb_ℤ d (pos 0))) [
  | inl e ↦ rw e (inl refl)
  | inr e ↦ elim (Bool-cases (ltb_ℤ (pos (max_allowed f)) d)) [
    | inl g ↦ rw (e, g) (inl refl)
    | inr g ↦ rw (e, g) (inr (ground arith, ground arith))
  ]
]

from_seconds-IsWithin : (f : Text) (default s : ℤ) → IsWithin f default (from_seconds f default s)
unfolding from_seconds
from_seconds-IsWithin f default (negsuc n) = inl refl
from_seconds-IsWithin f default (pos n) = elim (Bool-cases (ltb 0 n)) [
  | inr e ↦ rw e (inl refl)
  | inl e ↦ elim (Bool-cases (ltb max_safe_seconds n)) [
    | inl g ↦ rw (e, g) (inl refl)
    | inr g ↦ rw (e, g) (check_bounds-IsWithin f default (pos (n * second)))
  ]
]

-- `parseDuration` returns the default, or a positive duration that is at most the bound of the
-- field, whatever the text and whatever Go's parsers make of it.
pub parse_duration-IsWithin :
    (p : Parsers) (value f : Text) (default : ℤ)
    → IsWithin f default (parse_duration p value f default)
unfolding parse_duration
parse_duration-IsWithin p value f default = elim (Bool-cases (is_empty value)) [
  | inl e ↦ rw e (inl refl)
  | inr e ↦ elim (Option-cases (p.duration value)) [
    | inr (d, g) ↦ rw (e, g, parse_duration) (check_bounds-IsWithin f default d)
    | inl g ↦ elim (Option-cases (p.int value)) [
      | inr (s, k) ↦ rw (e, g, k, parse_duration) (from_seconds-IsWithin f default s)
      | inl k ↦ rw (e, g, k, parse_duration) (inl refl)
    ]
  ]
]
