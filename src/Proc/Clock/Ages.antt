-- ===== src/Proc/Clock/Ages.antt =====
-- Bounds on what is read of the system, and on ages.
use che_machine_exec.Common.{
  ℕ, zero, suc, ◌+◌, ◌≤◌, ◌≡◌, refl, ◌≢◌, inl, inr, Text, codes, cut_prefix, split, Option, none,
  some, List, [], ◌∷◌, ltb, length, drop, arith, Bool-cases, Option-cases,
}
use che_machine_exec.Common.Int.{ℤ, pos, negsuc, ◌≤ℤ◌, ◌<ℤ◌, ltb_ℤ, ◌-ℤ◌}
use che_machine_exec.Proc.Numbers.{scan_int}
use che_machine_exec.Proc.Clock.{
  find_clock_ticks, detect_clock_ticks, get_platform_default_clock_ticks, boot_time_of,
  find_boot_time, detect_system_boot_time, System, system_info, age_of, get_process_start_time,
  get_process_age,
}

find_clock_ticks-le : (fuel size : ℕ) (auxv : List ℕ) → find_clock_ticks fuel size auxv ≤ 10000
unfolding find_clock_ticks
find_clock_ticks-le zero size auxv = omega arith
find_clock_ticks-le (suc fuel) size auxv =
    let later = find_clock_ticks-le fuel size (drop (size + size) auxv) in ground arith

detect_clock_ticks-le : (size : ℕ) (auxv : Option (List ℕ)) → detect_clock_ticks size auxv ≤ 10000
unfolding detect_clock_ticks
detect_clock_ticks-le size none = omega arith
detect_clock_ticks-le size (some auxv) = find_clock_ticks-le (suc (length auxv)) size auxv

default_bounds :
    (arch : Text)
    → (1 ≤ get_platform_default_clock_ticks arch) × (get_platform_default_clock_ticks arch ≤ 10000)
unfolding get_platform_default_clock_ticks
default_bounds arch = ground arith

-- The zero time, or a time after 1970.
abbrev pub IsBootTime : Option ℤ → Type 0
IsBootTime none = Unit
IsBootTime (some t) = pos 0 <ℤ t

boot_time_of-IsBootTime : (n : Option ℤ) → IsBootTime (boot_time_of n)
boot_time_of-IsBootTime none = tt
boot_time_of-IsBootTime (some (negsuc n)) = tt
boot_time_of-IsBootTime (some (pos n)) = elim (Bool-cases (ltb 0 n)) [
  | inl e ↦ rw (e, IsBootTime) (ground arith)
  | inr e ↦ rw (e, IsBootTime) tt
]

find_boot_time-IsBootTime : (lines : List Text) → IsBootTime (find_boot_time lines)
unfolding find_boot_time
find_boot_time-IsBootTime [] = tt
find_boot_time-IsBootTime (line ∷ lines) = elim (Option-cases (cut_prefix line (codes "btime "))) [
  | inl e ↦ rw (e, IsBootTime, find_boot_time) (find_boot_time-IsBootTime lines)
  | inr (rest, e) ↦ rw (e, IsBootTime, find_boot_time) (boot_time_of-IsBootTime (scan_int rest))
]

detect_system_boot_time-IsBootTime :
    (stat : Option Text) → IsBootTime (detect_system_boot_time stat)
unfolding detect_system_boot_time
detect_system_boot_time-IsBootTime none = tt
detect_system_boot_time-IsBootTime (some text) = find_boot_time-IsBootTime (split b'\n' text)

-- Whatever the auxiliary vector and /proc/stat hold, and for every word size and architecture, there
-- are between 1 and 10000 clock ticks to a second, and a boot time that is known is after 1970.
pub system_info_bounds :
    (size : ℕ) (arch : Text) (auxv : Option (List ℕ)) (stat : Option Text)
    → let sys = system_info size arch auxv stat in
      (1 ≤ sys.clock_ticks) × (sys.clock_ticks ≤ 10000) × IsBootTime sys.boot_time
unfolding system_info
system_info_bounds size arch auxv stat =
    let le = detect_clock_ticks-le size auxv in
    let default = default_bounds arch in
    (ground arith, ground arith, detect_system_boot_time-IsBootTime stat)

-- An age is never negative, and one that is not zero is the time since the start of the process.
pub get_process_age_nonneg :
    (to_ms : ℤ → ℕ → ℤ) (sys : System) (now : ℤ) (file : Option Text)
    → (pos 0 ≤ℤ get_process_age to_ms sys now file)
      × (get_process_age to_ms sys now file ≢ pos 0
          → (start : ℤ) × (get_process_start_time to_ms sys file ≡ some start)
            × (get_process_age to_ms sys now file ≡ now -ℤ start))
unfolding get_process_age
get_process_age_nonneg to_ms sys now file = age_of_lem now (get_process_start_time to_ms sys file)
  where
    age_of_lem :
        (now : ℤ) (start : Option ℤ)
        → (pos 0 ≤ℤ age_of now start)
          × (age_of now start ≢ pos 0 → (s : ℤ) × (start ≡ some s) × (age_of now start ≡ now -ℤ s))
    age_of_lem now none = (omega arith, λ h. absurd (h refl))
    age_of_lem now (some s) = elim (Bool-cases (ltb_ℤ (now -ℤ s) (pos 0))) [
      | inl e ↦ rw (e, age_of) (omega arith, λ h. absurd (h refl))
      | inr e ↦ rw (e, age_of) (ground arith, λ _. (s, refl, refl))
    ]
