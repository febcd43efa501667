-- ===== src/Proc/Clock.antt =====
-- timeout/procutil.go: clock ticks, boot time, start times and ages. A time is the number of
-- nanoseconds since 1970; `none` is the zero time.
pub mod Ages
use che_machine_exec.Common.{
  ℕ, zero, suc, ◌+◌, ◌-◌, ◌*◌, ◌%◌, ◌^◌, Text, codes, text_eq, split, cut_prefix, has_prefix, Bool,
  true, false, ◌&&◌, ◌||◌, Option, none, some, List, [], ◌∷◌, Result, ok, err, if◌then◌else◌, ltb,
  leb, length, take, drop, ◌==◌,
}
use che_machine_exec.Common.Int.{ℤ, pos, negsuc, leb_ℤ, ltb_ℤ, ◌+ℤ◌, ◌-ℤ◌}
use che_machine_exec.Proc.Numbers.{scan_int}
use che_machine_exec.Proc.Stat.{ProcStat, StatError, parse_proc_stat}

abbrev pub at_clktck : ℕ
at_clktck = 17

-- `binary.NativeEndian` on a little-endian machine: a word from its bytes.
unfoldable pub little_endian : List ℕ → ℕ
little_endian [] = 0
little_endian (b ∷ bs) = b + 256 * little_endian bs

-- The loop over the pairs of words; `size` is the bytes of a word, and `fuel` bounds the pairs.
unfoldable pub find_clock_ticks : ℕ → ℕ → List ℕ → ℕ
unfolding little_endian
find_clock_ticks zero size auxv = 0
find_clock_ticks (suc fuel) size auxv =
    let later = find_clock_ticks fuel size (drop (size + size) auxv) in
    let value = little_endian (take size (drop size auxv)) in
    if ltb (length auxv) (size + size)
    then 0
    else if little_endian (take size auxv) == at_clktck
    then (if leb 1 value && leb value 10000 then value else 0)
    else later

-- `none` is an unreadable file.
unfoldable pub detect_clock_ticks : ℕ → Option (List ℕ) → ℕ
unfolding find_clock_ticks
detect_clock_ticks size none = 0
detect_clock_ticks size (some auxv) = find_clock_ticks (suc (length auxv)) size auxv

-- By `runtime.GOARCH`.
unfoldable pub get_platform_default_clock_ticks : Text → ℕ
unfolding text_eq
get_platform_default_clock_ticks arch =
    if text_eq arch (codes "arm") || text_eq arch (codes "arm64")
    then 250
    else if text_eq arch (codes "amd64") || text_eq arch (codes "386")
    then 100
    else 100

-- The number behind "btime ", in nanoseconds, of the first line that has it.
abbrev pub boot_time_of : Option ℤ → Option ℤ
boot_time_of none = none
boot_time_of (some (negsuc n)) = none
boot_time_of (some (pos n)) = if ltb 0 n then some (pos (n * 1000000000)) else none

unfoldable pub find_boot_time : List Text → Option ℤ
unfolding cut_prefix scan_int
find_boot_time [] = none
find_boot_time (line ∷ lines) = elim (cut_prefix line (codes "btime ")) [
  | none ↦ find_boot_time lines
  | some rest ↦ boot_time_of (scan_int rest)
]

unfoldable pub detect_system_boot_time : Option Text → Option ℤ
unfolding find_boot_time split
detect_system_boot_time none = none
detect_system_boot_time (some text) = find_boot_time (split b'\n' text)

-- `systemClockTicks` and `systemBootTime`.
pub record System : Type 0 where
  pub clock_ticks : ℕ
  pub boot_time : Option ℤ

-- `ensureSystemInfoInitialized`, run once.
unfoldable pub system_info : ℕ → Text → Option (List ℕ) → Option Text → System
unfolding detect_clock_ticks get_platform_default_clock_ticks detect_system_boot_time
system_info size arch auxv stat = record {
  clock_ticks =
      if detect_clock_ticks size auxv == 0
      then get_platform_default_clock_ticks arch
      else detect_clock_ticks size auxv;
  boot_time = detect_system_boot_time stat;
}

abbrev milliseconds : ℤ → ℤ
milliseconds (pos n) = pos (n * 1000000)
milliseconds (negsuc n) = negsuc (n * 1000000 + 999999)

-- The value of an int64 that holds a sum.
abbrev pub wrap64 : ℤ → ℤ
wrap64 (pos n) = let m = n % 2 ^ 64 in if ltb m (2 ^ 63) then pos m else negsuc (2 ^ 64 - 1 - m)
wrap64 (negsuc n) = let m = n % 2 ^ 64 in if ltb m (2 ^ 63) then negsuc m else pos (2 ^ 64 - 1 - m)

-- `getProcessStartTime` behind the parser. `to_ms ticks hertz` is the quotient in 64-bit floats,
-- `int64(float64(ticks) * 1000.0 / float64(hertz))`, a parameter.
unfoldable pub start_time_of : (ℤ → ℕ → ℤ) → System → Result StatError ProcStat → Option ℤ
start_time_of to_ms sys (err e) = none
start_time_of to_ms sys (ok stat) = elim sys.boot_time [
  | none ↦ none
  | some boot ↦
      let hertz = if sys.clock_ticks == 0 then 100 else sys.clock_ticks in
      some (boot +ℤ milliseconds (to_ms stat.start_ticks hertz))
]

unfoldable pub get_process_start_time : (ℤ → ℕ → ℤ) → System → Option Text → Option ℤ
unfolding start_time_of parse_proc_stat
get_process_start_time to_ms sys file = start_time_of to_ms sys (parse_proc_stat file)

-- `getProcessAge` at the time `now`.
unfoldable pub age_of : ℤ → Option ℤ → ℤ
age_of now none = pos 0
age_of now (some start) = if ltb_ℤ (now -ℤ start) (pos 0) then pos 0 else now -ℤ start

unfoldable pub get_process_age : (ℤ → ℕ → ℤ) → System → ℤ → Option Text → ℤ
unfolding age_of get_process_start_time
get_process_age to_ms sys now file = age_of now (get_process_start_time to_ms sys file)

-- `getProcessCPUTicks`; the sum wraps as int64 does.
unfoldable pub ticks_of : Result StatError ProcStat → Option ℤ
ticks_of (err e) = none
ticks_of (ok stat) = some (wrap64 (stat.utime_ticks +ℤ stat.stime_ticks))

unfoldable pub get_process_cpu_ticks : Option Text → Option ℤ
unfolding ticks_of parse_proc_stat
get_process_cpu_ticks file = ticks_of (parse_proc_stat file)
