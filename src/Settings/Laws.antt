-- ===== src/Settings/Laws.antt =====
-- Settings that pass their checks, and the managers that use them.
use che_machine_exec.Common.{
  ◌≡◌, ◌≢◌, sym, ap, ◌∙◌, subst, inl, inr, Text, is_empty, Bool, true, false, Option, none, some,
  List, ok, if◌then◌else◌, Bool-cases,
}
use che_machine_exec.Common.Int.{ℤ, pos, leb_ℤ}
use che_machine_exec.Idle.{
  SetupError, Created, failed, workspace_name, with_names, new_inactivity_idle_manager,
  new_run_idle_manager,
}
use che_machine_exec.Settings.{Settings, Environment, Flag, defaults, set_flags, checked, parse}

checked-ok :
    (s t : Settings)
    → checked s ≡ ok t
    → (is_empty t.pod_selector ≡ false) × (leb_ℤ t.stop_retry_period (pos 0) ≡ false)
unfolding checked
checked-ok s t h = elim (Bool-cases (is_empty s.pod_selector)) [
  | inl e ↦ absurd (cc (rw (e, checked) at h))
  | inr e ↦ elim (Bool-cases (leb_ℤ s.stop_retry_period (pos 0))) [
    | inl f ↦ absurd (cc (rw (e, checked, f) at h))
    | inr f ↦
        let same : ok s ≡ ok t = rw (e, checked, f) at h in
        let settings : s ≡ t = cc same in
        (
          ap (λ (x : Settings). is_empty x.pod_selector) (sym settings) ∙ e,
          ap (λ (x : Settings). leb_ℤ x.stop_retry_period (pos 0)) (sym settings) ∙ f,
        )
  ]
]

-- No error about the retry period.
abbrev IsGood : Created → Type 0
IsGood c = c ≢ failed SetupError.no_retry_period

with_names-IsGood : (namespace : Text) (name : Option Text) → IsGood (with_names namespace name)
unfolding with_names
with_names-IsGood namespace none = elim (Bool-cases (is_empty namespace)) [
  | inl e ↦ rw e (λ h. absurd (cc h))
  | inr e ↦ rw e (λ h. absurd (cc h))
]
with_names-IsGood namespace (some name) = elim (Bool-cases (is_empty namespace)) [
  | inl e ↦ rw e (λ h. absurd (cc h))
  | inr e ↦ rw e (λ h. absurd (cc h))
]

checks-IsGood :
    (is_off : Bool) (period : ℤ) (namespace : Text) (name : Option Text)
    → leb_ℤ period (pos 0) ≡ false
    → IsGood (
        if is_off
        then Created.no_op
        else if leb_ℤ period (pos 0)
        then failed SetupError.no_retry_period
        else with_names namespace name)
checks-IsGood true period namespace name h = λ k. absurd (cc k)
checks-IsGood false period namespace name h =
    subst (λ b. IsGood (if b then failed SetupError.no_retry_period else with_names namespace name))
      (sym h) (with_names-IsGood namespace name)

-- Settings that `Parse` accepts, whatever the environment and the flags say, have a pod selector and a
-- retry period above zero; and neither manager that is made with them is refused for its retry period.
pub parse_managers :
    (env : Environment) (flags : List Flag) (s : Settings) (namespace : Text)
    (che devworkspace : Option Text)
    → parse env flags ≡ ok s
    → (is_empty s.pod_selector ≡ false)
      × (leb_ℤ s.stop_retry_period (pos 0) ≡ false)
      × (new_inactivity_idle_manager s.idle_timeout s.stop_retry_period namespace che devworkspace
          ≢ failed SetupError.no_retry_period)
      × (new_run_idle_manager s.run_timeout s.stop_retry_period namespace che devworkspace
          ≢ failed SetupError.no_retry_period)
unfolding parse new_inactivity_idle_manager new_run_idle_manager
parse_managers env flags s namespace che devworkspace h =
    let (selector, period) = checked-ok (set_flags flags (defaults env)) s h in
    let name = workspace_name che devworkspace in
    (
      selector,
      period,
      checks-IsGood (leb_ℤ s.idle_timeout (pos 0)) s.stop_retry_period namespace name period,
      checks-IsGood (leb_ℤ s.run_timeout (pos 0)) s.stop_retry_period namespace name period,
    )
