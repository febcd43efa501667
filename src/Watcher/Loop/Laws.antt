-- ===== src/Watcher/Loop/Laws.antt =====
-- The watcher's cycles.
use che_machine_exec.Common.{
  ℕ, ◌≡◌, refl, sym, subst, ◌≢◌, inl, inr, ◌+◌, ◌<◌, ◌≤◌, Text, Bool, true, not, Option, none, some,
  List, [], ◌∷◌, if◌then◌else◌, arith, Bool-cases, In,
}
use che_machine_exec.Common.Int.{ℤ}
use che_machine_exec.Watcher.Config.{Config}
use che_machine_exec.Watcher.Load.{FileView, Setup, load_config}
use che_machine_exec.Watcher.Loop.{Loop, scan_sources, next_period, after_reload, cycle}

-- A source that the loop scans as active.
abbrev pub IsActive : (Text → Config → Bool) → List Text → Config → Type 0
IsActive scan sources c = (src : Text) × In src sources × (scan src c ≡ true)

scan_sources_sound :
    (scan : Text → Config → Bool) (sources : List Text) (c : Config)
    → scan_sources scan sources c ≡ true
    → IsActive scan sources c
unfolding scan_sources
scan_sources_sound scan [] c h = absurd (cc h)
scan_sources_sound scan (src ∷ sources) c h = elim (Bool-cases (scan src c)) [
  | inl e ↦ (src, inl refl, e)
  | inr e ↦ let (s, at, k) = scan_sources_sound scan sources c (rw e at h) in (s, inr at, k)
]

next_period_positive : (old : ℕ) (d : ℤ) → 0 < old → 0 < next_period old d
unfolding next_period
next_period_positive old d h = ground arith

-- What a reload adds to the ticks and makes of the period.
abbrev Obeys : (Text → Config → Bool) → List Text → ℕ → ℕ → Option Config → ℕ × ℕ → Type 0
Obeys scan sources t old o r =
    (t ≤ t + r.1)
    × (t + r.1 ≤ t + 1)
    × (t + r.1 ≢ t → (c : Config) × (o ≡ some c) × (c.enabled ≡ true) × IsActive scan sources c)
    × (0 < old → 0 < r.0)

after_reload-Obeys :
    (scan : Text → Config → Bool) (sources : List Text) (t old : ℕ) (o : Option Config)
    → Obeys scan sources t old o (after_reload scan sources old o)
unfolding after_reload
after_reload-Obeys scan sources t old none =
    (omega arith, omega arith, λ h. absurd (h (omega arith)), λ _. omega arith)
after_reload-Obeys scan sources t old (some c) =
    let period = next_period old c.check_period_parsed in
    let positive = next_period_positive old c.check_period_parsed in
    let ticked : Bool → ℕ = λ b. if b then 1 else 0 in
    let of_enabled : Bool → ℕ × ℕ =
      λ b. if not b then (60, 0) else (period, ticked (scan_sources scan sources c)) in
    elim (Bool-cases c.enabled) [
      | inr e ↦
          subst (λ b. Obeys scan sources t old (some c) (of_enabled b)) (sym e)
            (omega arith, omega arith, λ h. absurd (h (omega arith)), λ _. omega arith)
      | inl e ↦
          subst (λ b. Obeys scan sources t old (some c) (of_enabled b)) (sym e)
            (elim (Bool-cases (scan_sources scan sources c)) [
              | inr d ↦
                  subst (λ b. Obeys scan sources t old (some c) (period, ticked b)) (sym d)
                    (omega arith, omega arith, λ h. absurd (h (omega arith)), positive)
              | inl d ↦
                  subst (λ b. Obeys scan sources t old (some c) (period, ticked b)) (sym d)
                    (
                      omega arith,
                      omega arith,
                      λ _. (c, refl, e, scan_sources_sound scan sources c d),
                      positive,
                    )
            ])
    ]

-- A cycle calls `tickFunc` at most once, and only when the configuration it loaded is enabled and
-- one of the active sources scans as active with it; a positive period stays positive.
pub cycle_ticks :
    (su : Setup) (scan : Text → Config → Bool) (sources : List Text) (view : FileView) (l : Loop)
    → let m = cycle su scan sources view l in
      (l.ticks ≤ m.ticks)
      × (m.ticks ≤ l.ticks + 1)
      × (m.ticks ≢ l.ticks
          → (c : Config) × (m.loaded.config ≡ some c)
            × (c.enabled ≡ true)
            × IsActive scan sources c)
      × (0 < l.chk_period → 0 < m.chk_period)
unfolding cycle
cycle_ticks su scan sources view l =
    after_reload-Obeys scan sources l.ticks l.chk_period
      (load_config su l.loaded.warned view l.loaded.config).config
