-- ===== src/Watcher/Load/Laws.antt =====
-- The loading of the configuration: errors, and what every loaded configuration obeys.
use che_machine_exec.Common.{
  ◌≡◌, refl, ◌≢◌, inl, inr, Text, Bool, true, false, Option, none, some, List, [], ◌∷◌, Bool-cases,
  Option-cases,
}
use che_machine_exec.Common.Int.{ℤ}
use che_machine_exec.Watcher.Config.{Config, zero_config, ignore_exclusions}
use che_machine_exec.Watcher.Config.Bounds.{apply_defaults_bounds}
use che_machine_exec.Watcher.Load.{
  Stat, not_exist, stat_failed, found, FileView, Setup, Loaded, is_unchanged, default_config,
  complete_config, load_missing, load_changed, load_config,
}
use che_machine_exec.Watcher.Load.Limits.{
  ArePositiveLimits, IsSound, IsSoundOption, apply_env_ceilings-IsSound, check_period_nonneg,
}

default_config-IsSound :
    (su : Setup) → ArePositiveLimits su.env → IsSound su.env (default_config su)
unfolding default_config
default_config-IsSound su limits =
    let b = apply_defaults_bounds su.parsers su.fractions zero_config su.idle_timeout in
    apply_env_ceilings-IsSound su.env _ false limits (check_period_nonneg su _) b.3 b.2.0 b.4.0

complete_config-IsSound :
    (su : Setup) (mod_time : ℤ) (c : Config)
    → ArePositiveLimits su.env
    → IsSound su.env (complete_config su mod_time c)
unfolding complete_config ignore_exclusions
complete_config-IsSound su mod_time c limits =
    let start = record c { last_mod_time = mod_time; from_file = true } in
    let b = apply_defaults_bounds su.parsers su.fractions start su.idle_timeout in
    apply_env_ceilings-IsSound su.env _ true limits (check_period_nonneg su start) b.3 b.2.0 b.4.0

load_changed-IsSound :
    (su : Setup) (current : Option Config) (mod_time : ℤ) (contents : Option Text)
    → ArePositiveLimits su.env
    → IsSoundOption su.env current
    → IsSoundOption su.env (load_changed su current mod_time contents).config
unfolding load_changed
load_changed-IsSound su current mod_time none limits h = h
load_changed-IsSound su current mod_time (some text) limits h =
    elim (Option-cases (su.unmarshal text)) [
      | inl e ↦ rw (e, IsSoundOption) h
      | inr (c, e) ↦ rw (e, IsSoundOption) (complete_config-IsSound su mod_time c limits)
    ]

load_missing-IsSound :
    (su : Setup) (warned : Bool) (current : Option Config)
    → ArePositiveLimits su.env
    → IsSoundOption su.env current
    → IsSoundOption su.env (load_missing su warned current).config
unfolding load_missing
load_missing-IsSound su warned none limits h = default_config-IsSound su limits
load_missing-IsSound su warned (some c) limits h = elim (Bool-cases c.from_file) [
  | inl e ↦ rw (e, IsSoundOption) (default_config-IsSound su limits)
  | inr e ↦ rw (e, IsSoundOption) h
]

pub load_config-IsSound :
    (su : Setup) (warned : Bool) (view : FileView) (current : Option Config)
    → ArePositiveLimits su.env
    → IsSoundOption su.env current
    → IsSoundOption su.env (load_config su warned view current).config
unfolding load_config
load_config-IsSound su warned view current limits h =
    load_config-IsSound_at su warned current view.contents view.stat limits h
  where
    load_config-IsSound_at :
        (su : Setup) (warned : Bool) (current : Option Config) (contents : Option Text)
        (stat : Stat)
        → ArePositiveLimits su.env
        → IsSoundOption su.env current
        → IsSoundOption su.env
            (load_config su warned (record { stat = stat; contents = contents }) current).config
    load_config-IsSound_at su warned current contents not_exist limits h =
        load_missing-IsSound su warned current limits h
    load_config-IsSound_at su warned current contents stat_failed limits h = h
    load_config-IsSound_at su warned current contents (found m) limits h =
        elim (Bool-cases (is_unchanged current m)) [
          | inl e ↦ rw (e, IsSoundOption) h
          | inr e ↦ rw (e, IsSoundOption) (load_changed-IsSound su current m contents limits h)
        ]

-- The configurations of a run, from nil, one call of `loadConfig` for each view of the file.
abbrev pub load_all : Setup → Loaded → List FileView → Loaded
load_all su l [] = l
load_all su l (view ∷ views) = load_all su (load_config su l.warned view l.config) views

abbrev pub nothing_loaded : Loaded
nothing_loaded = record { config = none; error = none; warned = false }

load_all-IsSound_from :
    (su : Setup) (l : Loaded) (views : List FileView)
    → ArePositiveLimits su.env
    → IsSoundOption su.env l.config
    → IsSoundOption su.env (load_all su l views).config
load_all-IsSound_from su l [] limits h = h
load_all-IsSound_from su l (view ∷ views) limits h =
    load_all-IsSound_from su (load_config su l.warned view l.config) views limits
      (load_config-IsSound su l.warned view l.config limits h)

-- When the admin's limits that are set are positive, the configuration after any sequence of calls of
-- `loadConfig`, each with its own view of the file, errors among them, is sound: it is enabled as the
-- admin says, its check period is not negative, its other durations are positive, and all four are at
-- most the admin's limits.
pub load_all-IsSound :
    (su : Setup) (views : List FileView) (c : Config)
    → ArePositiveLimits su.env
    → (load_all su nothing_loaded views).config ≡ some c
    → IsSound su.env c
load_all-IsSound su views c limits e =
    rw e at (load_all-IsSound_from su nothing_loaded views limits tt)

-- Every call that reports an error returns the configuration it was given, and so does one that finds
-- the file no newer than that.
pub load_config_error :
    (su : Setup) (warned : Bool) (view : FileView) (current : Option Config)
    → ((load_config su warned view current).error ≢ none
        → (load_config su warned view current).config ≡ current)
      × ((m : ℤ)
          → view.stat ≡ found m
          → is_unchanged current m ≡ true
          → (load_config su warned view current).config ≡ current)
unfolding load_config load_changed load_missing
load_config_error su warned view current =
    (load_config-error_at su warned current view.contents view.stat, λ m e u. rw (e, u) refl)
  where
    load_changed_error :
        (su : Setup) (current : Option Config) (m : ℤ) (contents : Option Text)
        → (load_changed su current m contents).error ≢ none
        → (load_changed su current m contents).config ≡ current
    load_changed_error su current m none h = refl
    load_changed_error su current m (some text) h = elim (Option-cases (su.unmarshal text)) [
      | inl e ↦ rw (e, load_changed) refl
      | inr (c, e) ↦ absurd (h (rw (e, load_changed) refl))
    ]

    load_config-error_at :
        (su : Setup) (warned : Bool) (current : Option Config) (contents : Option Text)
        (stat : Stat)
        → (load_config su warned (record { stat = stat; contents = contents }) current).error ≢ none
        → (load_config su warned (record { stat = stat; contents = contents }) current).config
          ≡ current
    load_config-error_at su warned none contents not_exist h = absurd (h refl)
    load_config-error_at su warned (some c) contents not_exist h = elim (Bool-cases c.from_file) [
      | inl e ↦ absurd (h (rw e refl))
      | inr e ↦ rw e refl
    ]
    load_config-error_at su warned current contents stat_failed h = refl
    load_config-error_at su warned current contents (found m) h =
        elim (Bool-cases (is_unchanged current m)) [
          | inl e ↦ rw e refl
          | inr e ↦ rw e (load_changed_error su current m contents (rw e at h))
        ]
