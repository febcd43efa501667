-- ===== src/Idle/Run.antt =====
-- timeout/run.go: the loop of `runIdleManagerImpl.Start`, which has no case for activities, and its
-- retries. The cases that it shares with timeout/inactivity.go are written alike there.
use che_machine_exec.Common.{
  ℕ, suc, ◌+◌, ◌≤◌, ◌≡◌, refl, sym, subst, Bool, true, false, List, [], ◌∷◌, leb, arith, Bool-cases,
  inl, inr,
}
use che_machine_exec.Idle.{Timeouts}
use che_machine_exec.Idle.Tick.{
  Timer, armed, fired, spent, selecting, stopping, stuck, finished, Manager, Happening, expires,
  receives_timer, stop_returns, ticks, sends_term, receives_term, start_manager, expire, on_timer,
  on_stopped, on_term,
}

unfoldable pub run_happen : Timeouts → ℕ → Happening → Manager → Manager
unfolding expire on_timer on_stopped on_term
run_happen t now expires m = expire now m
run_happen t now receives_timer m = elim m.phase [
  | selecting ↦ on_timer m
  | stopping ↦ m
  | stuck ↦ m
  | finished ↦ m
]
run_happen t now (stop_returns b) m = elim m.phase [
  | selecting ↦ m
  | stopping ↦ on_stopped t now b m
  | stuck ↦ m
  | finished ↦ m
]
run_happen t now ticks m = m
run_happen t now sends_term m = record m { is_terminated = true }
run_happen t now receives_term m = elim m.phase [
  | selecting ↦ on_term m
  | stopping ↦ m
  | stuck ↦ m
  | finished ↦ m
]

unfoldable pub run_happen_all : Timeouts → List (ℕ × Happening) → Manager → Manager
unfolding run_happen
run_happen_all t [] m = m
run_happen_all t ((now, h) ∷ hs) m = run_happen_all t hs (run_happen t now h m)

-- When a timer's deadline comes, when its value is received, and when `stopWorkspace` returns.
pub record Attempt : Type 0 where
  pub expired : ℕ
  pub received : ℕ
  pub returned : ℕ

abbrev pub attempt : Bool → Attempt → List (ℕ × Happening) → List (ℕ × Happening)
attempt stopped a hs =
    (a.expired, expires) ∷ (a.received, receives_timer) ∷ (a.returned, stop_returns stopped) ∷ hs

-- Failed attempts, followed by one that succeeds.
abbrev pub attempts : List Attempt → Attempt → List (ℕ × Happening) → List (ℕ × Happening)
attempts [] last later = attempt true last later
attempts (a ∷ fails) last later = attempt false a (attempts fails last later)

-- The first attempt comes at the deadline or later, each other one when the retry period has passed since
-- the return of the attempt before it, or later.
abbrev pub AreDue : Timeouts → ℕ → List Attempt → Attempt → Type 0
AreDue t deadline [] last = deadline ≤ last.expired
AreDue t deadline (a ∷ fails) last =
    (deadline ≤ a.expired) × AreDue t (a.returned + t.stop_retry_period) fails last

abbrev pub count : List Attempt → ℕ
count [] = 0
count (x ∷ xs) = suc (count xs)

abbrev waits : ℕ → ℕ → Manager
waits deadline calls = record {
  phase = selecting;
  timer = armed deadline;
  is_terminated = false;
  stop_calls = calls;
}

abbrev at_end : Timer → Bool → ℕ → Manager
at_end timer term calls = record {
  phase = finished;
  timer = timer;
  is_terminated = term;
  stop_calls = calls;
}

abbrev Ends : ℕ → Manager → Type 0
Ends calls m = (m.phase ≡ finished) × (m.stop_calls ≡ calls)

at_end-Ends :
    (t : Timeouts) (timer : Timer) (term : Bool) (calls : ℕ) (hs : List (ℕ × Happening))
    → Ends calls (run_happen_all t hs (at_end timer term calls))
unfolding run_happen_all run_happen expire
at_end-Ends t timer term calls [] = (refl, refl)
at_end-Ends t (armed d) term calls ((now, expires) ∷ hs) = elim (Bool-cases (leb d now)) [
  | inl e ↦ rw (e, run_happen_all, run_happen, expire) (at_end-Ends t fired term calls hs)
  | inr e ↦ rw (e, run_happen_all, run_happen, expire) (at_end-Ends t (armed d) term calls hs)
]
at_end-Ends t fired term calls ((now, expires) ∷ hs) = at_end-Ends t fired term calls hs
at_end-Ends t spent term calls ((now, expires) ∷ hs) = at_end-Ends t spent term calls hs
at_end-Ends t timer term calls ((now, receives_timer) ∷ hs) = at_end-Ends t timer term calls hs
at_end-Ends t timer term calls ((now, stop_returns b) ∷ hs) = at_end-Ends t timer term calls hs
at_end-Ends t timer term calls ((now, ticks) ∷ hs) = at_end-Ends t timer term calls hs
at_end-Ends t timer term calls ((now, sends_term) ∷ hs) = at_end-Ends t timer true calls hs
at_end-Ends t timer term calls ((now, receives_term) ∷ hs) = at_end-Ends t timer term calls hs

-- A timer that is due gives its value.
expire_due :
    (deadline calls now : ℕ)
    → deadline ≤ now
    → expire now (waits deadline calls) ≡ record (waits deadline calls) { timer = fired }
unfolding expire
expire_due deadline calls now le = elim (Bool-cases (leb deadline now)) [
  | inl e ↦ rw (e, expire) refl
  | inr e ↦ absurd (ground arith)
]

attempts-Ends :
    (t : Timeouts) (deadline calls : ℕ) (fails : List Attempt) (last : Attempt)
    (later : List (ℕ × Happening))
    → AreDue t deadline fails last
    → Ends
        (calls + suc (count fails))
        (run_happen_all t (attempts fails last later) (waits deadline calls))
unfolding run_happen_all run_happen on_timer on_stopped
attempts-Ends t deadline calls [] last later due =
    subst
      (λ m. Ends (calls + 1) (
        run_happen_all t
          ((last.received, receives_timer) ∷ (last.returned, stop_returns true) ∷ later) m))
      (sym (expire_due deadline calls last.expired due))
      (at_end-Ends t spent false (calls + 1) later)
attempts-Ends t deadline calls (a ∷ fails) last later due =
    let (phase, calls') =
      attempts-Ends t (a.returned + t.stop_retry_period) (calls + 1) fails last later due.1 in
    subst
      (λ m. Ends (calls + suc (suc (count fails))) (
        run_happen_all t
          ((a.received, receives_timer)
            ∷ (a.returned, stop_returns false)
            ∷ attempts fails last later)
          m))
      (sym (expire_due deadline calls a.expired due.0)) (phase, omega arith)

-- The run manager sets its timer again whenever `stopWorkspace` fails: it calls it at each attempt for
-- which the timer is due, the run timeout after the start and then the retry period after each failure,
-- until one succeeds. It has then made one call more than there were failures, its goroutine has ended,
-- and nothing that comes later makes it call `stopWorkspace` again.
pub run_retries :
    (t : Timeouts) (now : ℕ) (fails : List Attempt) (last : Attempt) (later : List (ℕ × Happening))
    → AreDue t (now + t.timeout) fails last
    → let m = run_happen_all t (attempts fails last later) (start_manager t now) in
      (m.phase ≡ finished) × (m.stop_calls ≡ suc (count fails))
unfolding start_manager
run_retries t now fails last later due =
    let (phase, calls) = attempts-Ends t (now + t.timeout) 0 fails last later due in
    (phase, omega arith)
