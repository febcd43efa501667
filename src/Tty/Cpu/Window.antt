-- ===== src/Tty/Cpu/Window.antt =====
-- How long a process counts as active after its last CPU use.
use che_machine_exec.Common.{
  ◌≡◌, refl, inl, inr, Text, text_eq, text_eq_refl, Bool, true, none, some, List, [], ◌∷◌, arith,
  Bool-cases, All,
}
use che_machine_exec.Common.Int.{ℤ, ◌≤ℤ◌, ltb_ℤ, ◌-ℤ◌}
use che_machine_exec.Tty.Cpu.{Sample, Cache, find, store, next_sample, has_recent_cpu_activity}

find-store : (pid : Text) (s : Sample) (cache : Cache) → find pid (store pid s cache) ≡ some s
unfolding find store
find-store pid s [] = rw (text_eq_refl pid) refl
find-store pid s (e ∷ cache) = elim (Bool-cases (text_eq e.0 pid)) [
  | inl h ↦ rw (h, text_eq_refl pid) refl
  | inr h ↦ rw (h, h) (find-store pid s cache)
]

-- Calls for one process, each at a time and with the ticks that are read then; the cache after them.
abbrev pub after_samples : (Text → Bool) → Text → ℤ → List (ℤ × ℤ) → Cache → Cache
after_samples is_alive pid window [] cache = cache
after_samples is_alive pid window (e ∷ samples) cache =
    after_samples is_alive pid window samples
      (has_recent_cpu_activity is_alive pid window (some e.1) e.0 cache).1

-- No sample has more ticks than the first one.
abbrev pub IsIdleSince : ℤ → List (ℤ × ℤ) → Type 0
IsIdleSince ticks samples = All (λ (e : ℤ × ℤ). e.1 ≤ℤ ticks) samples

idle_sample : (ticks now : ℤ) (s : Sample) → ticks ≤ℤ s.last_ticks → next_sample ticks now s ≡ s
unfolding next_sample
idle_sample ticks now s le = elim (Bool-cases (ltb_ℤ s.last_ticks ticks)) [
  | inl h ↦ absurd (ground arith)
  | inr h ↦ rw h refl
]

idle_call :
    (is_alive : Text → Bool) (pid : Text) (window ticks now : ℤ) (s : Sample) (cache : Cache)
    → find pid cache ≡ some s
    → ticks ≤ℤ s.last_ticks
    → has_recent_cpu_activity is_alive pid window (some ticks) now cache
      ≡ (ltb_ℤ (now -ℤ s.last_active_at) window, store pid s cache)
unfolding has_recent_cpu_activity
idle_call is_alive pid window ticks now s cache h le =
    rw (h, has_recent_cpu_activity, idle_sample ticks now s le) refl

idle_samples :
    (is_alive : Text → Bool) (pid : Text) (window : ℤ) (samples : List (ℤ × ℤ)) (s : Sample)
    (cache : Cache)
    → find pid cache ≡ some s
    → IsIdleSince s.last_ticks samples
    → find pid (after_samples is_alive pid window samples cache) ≡ some s
idle_samples is_alive pid window [] s cache h idle = h
idle_samples is_alive pid window (e ∷ samples) s cache h idle =
    idle_samples is_alive pid window samples s
      (has_recent_cpu_activity is_alive pid window (some e.1) e.0 cache).1
      (rw (idle_call is_alive pid window e.1 e.0 s cache h idle.0) (find-store pid s cache)) idle.1

-- A process that the cache does not know counts as active. If it then uses no more CPU, whatever the
-- times of the samples are, the call at a later time `now` says that it is active exactly when less
-- than the window has passed since that first sample.
pub has_recent_cpu_activity-window :
    (is_alive : Text → Bool) (pid : Text) (window first ticks : ℤ) (samples : List (ℤ × ℤ))
    (now last : ℤ) (cache : Cache)
    → find pid cache ≡ none
    → IsIdleSince ticks samples
    → last ≤ℤ ticks
    → let start = has_recent_cpu_activity is_alive pid window (some ticks) first cache in
      (start.0 ≡ true)
      × ((has_recent_cpu_activity is_alive pid window
            (some last)
            now
            (after_samples is_alive pid window samples start.1)).0
          ≡ ltb_ℤ (now -ℤ first) window)
unfolding has_recent_cpu_activity
has_recent_cpu_activity-window is_alive pid window first ticks samples now last cache h idle le =
    let s : Sample = record { last_ticks = ticks; last_active_at = first } in
    (
      rw (h, has_recent_cpu_activity) refl,
      rw
          (idle_call is_alive pid window last now s
            (after_samples is_alive pid window samples
              (has_recent_cpu_activity is_alive pid window (some ticks) first cache).1)
            (idle_samples is_alive pid window samples s
              (has_recent_cpu_activity is_alive pid window (some ticks) first cache).1
              (rw (h, has_recent_cpu_activity) (find-store pid s _)) idle)
            le)
          refl,
    )
