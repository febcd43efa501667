-- ===== src/Watcher/Config/Ceilings.antt =====
-- Admin limits and exclusions on a configuration.
use che_machine_exec.Common.{
  ◌≡◌, refl, ◌⊎◌, inl, inr, Text, is_empty, Bool, true, false, not, ◌&&◌, List, [], ◌∷◌, Option,
  none, some, arith, Bool-cases, In, In-append_right, ap, ◌∙◌, ◌++◌, if◌then◌else◌,
}
use che_machine_exec.Common.Int.{ℤ, ◌≤ℤ◌, ltb_ℤ}
use che_machine_exec.Watcher.Config.{
  Config, EnvConfig, WatchedCommand, Folding, duration_ceiling, apply_env_ceilings, or_default,
  is_always_ignored, force_watch_enabled, split_exclusions, ignore_exclusions,
}

-- Without an admin value the parsed value stays. With one, the result is at most that value; it is
-- that value, unless the file itself gives a value that is within it.
abbrev pub ObeysCeiling : Bool → Text → Option ℤ → ℤ → ℤ → Type 0
ObeysCeiling noidle raw none parsed result = result ≡ parsed
ObeysCeiling noidle raw (some limit) parsed result =
    (result ≤ℤ limit)
    × ((result ≡ limit) ⊎ ((result ≡ parsed) × (noidle ≡ true) × (is_empty raw ≡ false)))
    × (noidle ≡ true → is_empty raw ≡ false → parsed ≤ℤ limit → result ≡ parsed)

duration_ceiling-ObeysCeiling :
    (noidle : Bool) (raw : Text) (env : Option ℤ) (parsed : ℤ)
    → ObeysCeiling noidle raw env parsed (duration_ceiling noidle raw env parsed)
unfolding duration_ceiling is_empty
duration_ceiling-ObeysCeiling noidle raw none parsed = refl
duration_ceiling-ObeysCeiling false raw (some limit) parsed =
    (omega arith, inl refl, λ h. absurd (cc h))
duration_ceiling-ObeysCeiling true [] (some limit) parsed =
    (omega arith, inl refl, λ _ h. absurd (cc h))
duration_ceiling-ObeysCeiling true (x ∷ raw) (some limit) parsed =
    elim (Bool-cases (ltb_ℤ limit parsed)) [
      | inl e ↦ rw e (omega arith, inl refl, λ _ _ le. absurd (ground arith))
      | inr e ↦ rw e (ground arith, inr (refl, refl, refl), λ _ _ _. refl)
    ]

-- The admin's settings decide whether the watcher is enabled, whatever the file says, and are
-- ceilings for all four timing parameters.
pub apply_env_ceilings-ObeysCeiling :
    (env : EnvConfig) (c : Config) (noidle : Bool)
    → let d = apply_env_ceilings env c noidle in
      (d.enabled ≡ or_default false env.enabled)
      × (d.verbose ≡ or_default false env.verbose)
      × ObeysCeiling noidle c.check_period env.check_period c.check_period_parsed
          d.check_period_parsed
      × ObeysCeiling noidle c.activity_window env.activity_window c.activity_window_parsed
          d.activity_window_parsed
      × ObeysCeiling noidle c.grace_period env.grace_period c.grace_period_parsed
          d.grace_period_parsed
      × ObeysCeiling noidle c.max_process_age env.max_process_age c.max_process_age_parsed
          d.max_process_age_parsed
unfolding apply_env_ceilings
apply_env_ceilings-ObeysCeiling env c noidle = (
  refl,
  refl,
  duration_ceiling-ObeysCeiling noidle c.check_period env.check_period _,
  duration_ceiling-ObeysCeiling noidle c.activity_window env.activity_window _,
  duration_ceiling-ObeysCeiling noidle c.grace_period env.grace_period _,
  duration_ceiling-ObeysCeiling noidle c.max_process_age env.max_process_age _,
)

-- A command that the exclusions reach and that is not forced.
abbrev pub drops : Folding → List Text → WatchedCommand → Bool
drops fold exclusions cmd =
    is_always_ignored fold exclusions cmd && not (force_watch_enabled cmd.force_watch)

split_exclusions_split :
    (fold : Folding) (ex : List Text) (cmds : List WatchedCommand) (cmd : WatchedCommand)
    → In cmd cmds
    → (In cmd (split_exclusions fold ex cmds).0 × (drops fold ex cmd ≡ false))
      ⊎ (In cmd.name (split_exclusions fold ex cmds).1 × (drops fold ex cmd ≡ true))
unfolding split_exclusions
split_exclusions_split fold ex [] cmd h = absurd h
split_exclusions_split fold ex (c ∷ cmds) cmd (inl e) = elim (Bool-cases (drops fold ex c)) [
  | inl d ↦ inr (rw d (inl (ap (λ (w : WatchedCommand). w.name) e)), ap (drops fold ex) e ∙ d)
  | inr d ↦ inl (rw d (inl e), ap (drops fold ex) e ∙ d)
]
split_exclusions_split fold ex (c ∷ cmds) cmd (inr h) = elim (Bool-cases (drops fold ex c)) [
  | inl d ↦ rw d (elim (split_exclusions_split fold ex cmds cmd h) [
    | inl kept ↦ inl kept
    | inr (at, k) ↦ inr (inr at, k)
  ])
  | inr d ↦ rw d (elim (split_exclusions_split fold ex cmds cmd h) [
    | inl (at, k) ↦ inl (inr at, k)
    | inr dropped ↦ inr dropped
  ])
]

In-extend :
    (fold : Folding) (ex : List Text) (c cmd : WatchedCommand) (kept cmds : List WatchedCommand)
    → (In cmd kept → In cmd cmds × (drops fold ex cmd ≡ false))
    → drops fold ex c ≡ false
    → In cmd (c ∷ kept)
    → In cmd (c ∷ cmds) × (drops fold ex cmd ≡ false)
In-extend fold ex c cmd kept cmds sound d (inl e) = (inl e, ap (drops fold ex) e ∙ d)
In-extend fold ex c cmd kept cmds sound d (inr h) = let (at, k) = sound h in (inr at, k)

split_exclusions_sound :
    (fold : Folding) (ex : List Text) (cmds : List WatchedCommand) (cmd : WatchedCommand)
    → In cmd (split_exclusions fold ex cmds).0
    → In cmd cmds × (drops fold ex cmd ≡ false)
unfolding split_exclusions
split_exclusions_sound fold ex [] cmd h = absurd h
split_exclusions_sound fold ex (c ∷ cmds) cmd h = elim (Bool-cases (drops fold ex c)) [
  | inl d ↦ let (at, k) = split_exclusions_sound fold ex cmds cmd (rw d at h) in (inr at, k)
  | inr d ↦
      In-extend fold ex c cmd (split_exclusions fold ex cmds).0 cmds
        (split_exclusions_sound fold ex cmds cmd) d (rw d at h)
]

-- The names of the commands that are dropped, in order.
abbrev pub dropped_names : Folding → List Text → List WatchedCommand → List Text
dropped_names fold ex [] = []
dropped_names fold ex (cmd ∷ cmds) =
    if drops fold ex cmd then cmd.name ∷ dropped_names fold ex cmds else dropped_names fold ex cmds

split_exclusions_names :
    (fold : Folding) (ex : List Text) (cmds : List WatchedCommand)
    → (split_exclusions fold ex cmds).1 ≡ dropped_names fold ex cmds
unfolding split_exclusions
split_exclusions_names fold ex [] = refl
split_exclusions_names fold ex (cmd ∷ cmds) = elim (Bool-cases (drops fold ex cmd)) [
  | inl d ↦ rw d (ap (λ l. cmd.name ∷ l) (split_exclusions_names fold ex cmds))
  | inr d ↦ rw d (split_exclusions_names fold ex cmds)
]

-- Exclusions keep exactly the watched commands that no exclusion reaches or that are forced; the
-- ignored commands are then those of the file and, behind them, the names of the others in order.
pub ignore_exclusions_split :
    (fold : Folding) (ex : List Text) (c : Config) (cmd : WatchedCommand)
    → let d = ignore_exclusions fold ex c in
      (In cmd d.watched_commands → In cmd c.watched_commands × (drops fold ex cmd ≡ false))
      × (In cmd c.watched_commands → drops fold ex cmd ≡ false → In cmd d.watched_commands)
      × (In cmd c.watched_commands → drops fold ex cmd ≡ true → In cmd.name d.ignored_commands)
      × (d.ignored_commands ≡ c.ignored_commands ++ dropped_names fold ex c.watched_commands)
unfolding ignore_exclusions
ignore_exclusions_split fold ex c cmd = (
  split_exclusions_sound fold ex c.watched_commands cmd,
  λ h k. elim (split_exclusions_split fold ex c.watched_commands cmd h) [
    | inl (at, _) ↦ at
    | inr (_, d) ↦ absurd (cc (k, d))
  ],
  λ h k. elim (split_exclusions_split fold ex c.watched_commands cmd h) [
    | inl (_, d) ↦ absurd (cc (k, d))
    | inr (at, _) ↦ In-append_right cmd.name c.ignored_commands _ at
  ],
  ap (λ l. c.ignored_commands ++ l) (split_exclusions_names fold ex c.watched_commands),
)
