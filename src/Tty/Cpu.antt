-- ===== src/Tty/Cpu.antt =====
-- timeout/activity_source_tty.go: activity measured by CPU ticks, `hasRecentCPUActivity`, and its
-- cache. A time is a number of nanoseconds.
pub mod Window
use che_machine_exec.Common.{
  ℕ, Text, text_eq, Bool, true, false, not, Option, none, some, List, [], ◌∷◌, if◌then◌else◌,
  length, leb,
}
use che_machine_exec.Common.Int.{ℤ, ltb_ℤ, ◌-ℤ◌}

-- `cpuActivitySample`.
pub record Sample : Type 0 where
  pub last_ticks : ℤ
  pub last_active_at : ℤ

abbrev pub Cache : Type 0
Cache = List (Text × Sample)

-- Reading from the map `cpuActivityCache` and writing to it.
unfoldable pub find : Text → Cache → Option Sample
unfolding text_eq
find pid [] = none
find pid (e ∷ cache) = if text_eq e.0 pid then some e.1 else find pid cache

unfoldable pub store : Text → Sample → Cache → Cache
unfolding text_eq
store pid s [] = (pid, s) ∷ []
store pid s (e ∷ cache) =
    let rest = store pid s cache in if text_eq e.0 pid then (pid, s) ∷ cache else e ∷ rest

-- `cleanupCPUActivityCache`: the processes that /proc still has stay.
unfoldable pub cleanup_cpu_activity_cache : (Text → Bool) → Cache → Cache
cleanup_cpu_activity_cache is_alive [] = []
cleanup_cpu_activity_cache is_alive (e ∷ cache) =
    let rest = cleanup_cpu_activity_cache is_alive cache in if is_alive e.0 then e ∷ rest else rest

abbrev pub cpu_activity_cache_cleanup_at : ℕ
cpu_activity_cache_cleanup_at = 800

-- The sample of a process that was seen before.
unfoldable pub next_sample : ℤ → ℤ → Sample → Sample
next_sample ticks now s =
    if ltb_ℤ s.last_ticks ticks then record { last_ticks = ticks; last_active_at = now } else s

-- The answer and the cache after the call; `ticks` is what `getProcessCPUTicks` returns.
unfoldable pub has_recent_cpu_activity :
    (Text → Bool) → Text → ℤ → Option ℤ → ℤ → Cache → Bool × Cache
unfolding find store cleanup_cpu_activity_cache next_sample
has_recent_cpu_activity is_alive pid window none now cache = (false, cache)
has_recent_cpu_activity is_alive pid window (some ticks) now cache = elim (find pid cache) [
  | none ↦
      let kept =
        if leb cpu_activity_cache_cleanup_at (length cache)
        then cleanup_cpu_activity_cache is_alive cache
        else cache in
      (true, store pid (record { last_ticks = ticks; last_active_at = now }) kept)
  | some s ↦
      let t = next_sample ticks now s in (ltb_ℤ (now -ℤ t.last_active_at) window, store pid t cache)
]
