-- ===== src/Idle/Tick/Busy.antt =====
-- A workspace in use is not stopped.
use che_machine_exec.Common.{
  ℕ, ◌+◌, ◌≤◌, ◌<◌, ◌≡◌, refl, ◌∙◌, inl, inr, Bool, List, [], ◌∷◌, arith, leb, leb→le, Bool-cases,
}
use che_machine_exec.Idle.{Timeouts}
use che_machine_exec.Idle.Tick.{
  Timer, armed, fired, spent, Phase, selecting, stopping, stuck, finished, Manager, Happening,
  expires, receives_timer, stop_returns, ticks, sends_term, receives_term, start_manager, expire,
  on_timer, on_activity, on_term, happen, happen_all,
}

-- The last activity, whether or not it is received.
abbrev pub last_tick : ℕ → Happening → ℕ → ℕ
last_tick now expires last = last
last_tick now receives_timer last = last
last_tick now (stop_returns b) last = last
last_tick now ticks last = now
last_tick now sends_term last = last
last_tick now receives_term last = last

-- Whenever something happens, the timeout has not yet passed since the last activity.
abbrev pub IsBusy : Timeouts → ℕ → List (ℕ × Happening) → Type 0
IsBusy t last [] = Unit
IsBusy t last ((now, h) ∷ hs) = (now < last + t.timeout) × IsBusy t (last_tick now h last) hs

abbrev IsPending : Timeouts → ℕ → Timer → Type 0
IsPending t last (armed deadline) = last + t.timeout ≤ deadline
IsPending t last fired = ⊥
IsPending t last spent = ⊥

-- The goroutine is in its `select` and its timer runs, or it is at its end.
abbrev IsUp : Timeouts → ℕ → Phase → Timer → Type 0
IsUp t last selecting timer = IsPending t last timer
IsUp t last stopping timer = ⊥
IsUp t last stuck timer = ⊥
IsUp t last finished timer = Unit

abbrev StaysUp : Timeouts → ℕ → ℕ → Happening → Manager → Type 0
StaysUp t last now h m =
    ((happen t now h m).stop_calls ≡ m.stop_calls)
    × IsUp t (last_tick now h last) (happen t now h m).phase (happen t now h m).timer

module _ (t : Timeouts) (last now : ℕ) (term : Bool) (calls : ℕ) where
  abbrev waits : ℕ → Manager
  waits d = record { phase = selecting; timer = armed d; is_terminated = term; stop_calls = calls }

  expire-StaysUp :
      (d : ℕ) → now < last + t.timeout → last + t.timeout ≤ d → StaysUp t last now expires (waits d)
  unfolding happen expire
  expire-StaysUp d busy up = elim (Bool-cases (leb d now)) [
    | inl e ↦ absurd (let due = leb→le d now e in omega arith)
    | inr e ↦ rw (e, happen, expire) (refl, up)
  ]

  selecting-StaysUp :
      (h : Happening) (d : ℕ)
      → now < last + t.timeout
      → last + t.timeout ≤ d
      → StaysUp t last now h (waits d)
  unfolding happen on_timer on_activity on_term
  selecting-StaysUp expires d busy up = expire-StaysUp d busy up
  selecting-StaysUp receives_timer d busy up = (refl, up)
  selecting-StaysUp (stop_returns b) d busy up = (refl, up)
  selecting-StaysUp ticks d busy up = (refl, omega arith)
  selecting-StaysUp sends_term d busy up = (refl, up)
  selecting-StaysUp receives_term d busy up = elim (Bool-cases term) [
    | inl e ↦ rw (e, happen, on_term) (refl, tt)
    | inr e ↦ rw (e, happen, on_term) (refl, up)
  ]

  abbrev at_end : Timer → Manager
  at_end timer = record {
    phase = finished;
    timer = timer;
    is_terminated = term;
    stop_calls = calls;
  }

  finished-StaysUp : (h : Happening) (timer : Timer) → StaysUp t last now h (at_end timer)
  unfolding happen expire
  finished-StaysUp expires (armed d) = elim (Bool-cases (leb d now)) [
    | inl e ↦ rw (e, happen, expire) (refl, tt)
    | inr e ↦ rw (e, happen, expire) (refl, tt)
  ]
  finished-StaysUp expires fired = (refl, tt)
  finished-StaysUp expires spent = (refl, tt)
  finished-StaysUp receives_timer timer = (refl, tt)
  finished-StaysUp (stop_returns b) timer = (refl, tt)
  finished-StaysUp ticks timer = (refl, tt)
  finished-StaysUp sends_term timer = (refl, tt)
  finished-StaysUp receives_term timer = (refl, tt)

  happen-StaysUp :
      (h : Happening) (phase : Phase) (timer : Timer)
      → now < last + t.timeout
      → IsUp t last phase timer
      → StaysUp t last now h
          (record { phase = phase; timer = timer; is_terminated = term; stop_calls = calls })
  happen-StaysUp h selecting (armed d) busy up = selecting-StaysUp h d busy up
  happen-StaysUp h selecting fired busy up = absurd up
  happen-StaysUp h selecting spent busy up = absurd up
  happen-StaysUp h stopping timer busy up = absurd up
  happen-StaysUp h stuck timer busy up = absurd up
  happen-StaysUp h finished timer busy up = finished-StaysUp h timer

all_calls :
    (t : Timeouts) (last : ℕ) (m : Manager) (hs : List (ℕ × Happening))
    → IsBusy t last hs
    → IsUp t last m.phase m.timer
    → (happen_all t hs m).stop_calls ≡ m.stop_calls
unfolding happen_all
all_calls t last m [] busy up = refl
all_calls t last m ((now, h) ∷ hs) busy up =
    let (same, next) =
      happen-StaysUp t last now m.is_terminated m.stop_calls h m.phase m.timer busy.0 up in
    all_calls t (last_tick now h last) (happen t now h m) hs busy.1 next ∙ same

-- As long as something happens only while the timeout has not passed since the start and the last tick,
-- `stopWorkspace` is not called, whatever happens and in whatever order.
pub start_manager-calls :
    (t : Timeouts) (now : ℕ) (hs : List (ℕ × Happening))
    → IsBusy t now hs
    → (happen_all t hs (start_manager t now)).stop_calls ≡ 0
unfolding start_manager
start_manager-calls t now hs busy = all_calls t now (start_manager t now) hs busy (omega arith)
