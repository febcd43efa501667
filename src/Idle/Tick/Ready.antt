-- ===== src/Idle/Tick/Ready.antt =====
-- What each thing that happens does to a manager whose timer is right.
use che_machine_exec.Common.{
  ℕ, suc, ◌+◌, ◌≤◌, ◌≡◌, refl, inl, inr, Bool, true, false, leb, leb→le, Bool-cases, arith,
}
use che_machine_exec.Idle.{Timeouts}
use che_machine_exec.Idle.Tick.{
  Timer, armed, fired, spent, Phase, selecting, stopping, stuck, finished, Manager, Happening,
  expires, receives_timer, stop_returns, ticks, sends_term, receives_term, expire, on_timer,
  on_activity, on_term, on_stopped, happen,
}

-- The last activity that the goroutine received, from the one before.
abbrev pub last_received : ℕ → Happening → Phase → ℕ → ℕ
last_received now expires p last = last
last_received now receives_timer p last = last
last_received now (stop_returns b) p last = last
last_received now ticks selecting last = now
last_received now ticks stopping last = last
last_received now ticks stuck last = last
last_received now ticks finished last = last
last_received now sends_term p last = last
last_received now receives_term p last = last

-- In its `select` the timer runs and is due no sooner than the timeout after the last activity, or it
-- has fired no sooner.
abbrev pub IsDue : Timeouts → ℕ → ℕ → Timer → Type 0
IsDue t last clock (armed deadline) = last + t.timeout ≤ deadline
IsDue t last clock fired = last + t.timeout ≤ clock
IsDue t last clock spent = ⊥

abbrev pub IsReady : Timeouts → ℕ → ℕ → Phase → Timer → Type 0
IsReady t last clock selecting timer = IsDue t last clock timer
IsReady t last clock stopping timer = (timer ≡ spent) × (last + t.timeout ≤ clock)
IsReady t last clock stuck timer = ⊥
IsReady t last clock finished timer = Unit

abbrev pub Next : Timeouts → ℕ → ℕ → Happening → Manager → Type 0
Next t last now h m =
    ((happen t now h m).stop_calls ≡ suc m.stop_calls → last + t.timeout ≤ now)
    × IsReady t (last_received now h m.phase last) now (happen t now h m).phase
        (happen t now h m).timer

of_parts : Phase → Timer → Bool → ℕ → Manager
of_parts phase timer term calls = record {
  phase = phase;
  timer = timer;
  is_terminated = term;
  stop_calls = calls;
}

IsReady-later :
    (t : Timeouts) (last clock now : ℕ) (phase : Phase) (timer : Timer)
    → clock ≤ now
    → IsReady t last clock phase timer
    → IsReady t last now phase timer
IsReady-later t last clock now selecting (armed d) le r = r
IsReady-later t last clock now selecting fired le r = omega arith
IsReady-later t last clock now selecting spent le r = r
IsReady-later t last clock now stopping timer le r = (r.0, omega (arith, le, r.1))
IsReady-later t last clock now stuck timer le r = r
IsReady-later t last clock now finished timer le r = r

no_call : (n at now : ℕ) → n ≡ suc n → at ≤ now
no_call n at now k = absurd (omega arith)

expire-IsReady :
    (t : Timeouts) (last clock now d : ℕ) (phase : Phase)
    → clock ≤ now
    → d ≤ now
    → IsReady t last clock phase (armed d)
    → IsReady t last now phase fired
expire-IsReady t last clock now d selecting le due r = omega (arith, due, r)
expire-IsReady t last clock now d stopping le due r = absurd (cc r.0)
expire-IsReady t last clock now d stuck le due r = r
expire-IsReady t last clock now d finished le due r = r

expire-Next :
    (t : Timeouts) (last clock now : ℕ) (phase : Phase) (timer : Timer) (term : Bool) (calls : ℕ)
    → clock ≤ now
    → IsReady t last clock phase timer
    → Next t last now expires (of_parts phase timer term calls)
unfolding happen expire of_parts
expire-Next t last clock now phase (armed d) term calls le r = elim (Bool-cases (leb d now)) [
  | inl k ↦
      rw (k, happen, expire)
        (no_call calls _ now, expire-IsReady t last clock now d phase le (leb→le d now k) r)
  | inr k ↦
      rw (k, happen, expire)
        (no_call calls _ now, IsReady-later t last clock now phase (armed d) le r)
]
expire-Next t last clock now phase fired term calls le r =
    (no_call calls _ now, IsReady-later t last clock now phase fired le r)
expire-Next t last clock now phase spent term calls le r =
    (no_call calls _ now, IsReady-later t last clock now phase spent le r)

on_timer-Next :
    (t : Timeouts) (last clock now : ℕ) (phase : Phase) (timer : Timer) (term : Bool) (calls : ℕ)
    → clock ≤ now
    → IsReady t last clock phase timer
    → Next t last now receives_timer (of_parts phase timer term calls)
unfolding happen on_timer of_parts
on_timer-Next t last clock now selecting (armed d) term calls le r = (no_call calls _ now, r)
on_timer-Next t last clock now selecting fired term calls le r =
    ((λ k. omega (arith, le, r)), (refl, omega (arith, le, r)))
on_timer-Next t last clock now selecting spent term calls le r = absurd r
on_timer-Next t last clock now stopping timer term calls le r =
    (no_call calls _ now, IsReady-later t last clock now stopping timer le r)
on_timer-Next t last clock now stuck timer term calls le r = absurd r
on_timer-Next t last clock now finished timer term calls le r = (no_call calls _ now, tt)

on_stopped-Next :
    (t : Timeouts) (last clock now : ℕ) (b : Bool) (phase : Phase) (timer : Timer) (term : Bool)
    (calls : ℕ)
    → clock ≤ now
    → IsReady t last clock phase timer
    → Next t last now (stop_returns b) (of_parts phase timer term calls)
unfolding happen on_stopped of_parts
on_stopped-Next t last clock now b selecting timer term calls le r =
    (no_call calls _ now, IsReady-later t last clock now selecting timer le r)
on_stopped-Next t last clock now true stopping timer term calls le r = (no_call calls _ now, tt)
on_stopped-Next t last clock now false stopping timer term calls le r =
    (no_call calls _ now, omega (arith, le, r.1))
on_stopped-Next t last clock now b stuck timer term calls le r = absurd r
on_stopped-Next t last clock now b finished timer term calls le r = (no_call calls _ now, tt)

on_activity-Next :
    (t : Timeouts) (last clock now : ℕ) (phase : Phase) (timer : Timer) (term : Bool) (calls : ℕ)
    → clock ≤ now
    → IsReady t last clock phase timer
    → Next t last now ticks (of_parts phase timer term calls)
unfolding happen on_activity of_parts
on_activity-Next t last clock now selecting (armed d) term calls le r =
    (no_call calls _ now, omega arith)
on_activity-Next t last clock now selecting fired term calls le r =
    (no_call calls _ now, omega arith)
on_activity-Next t last clock now selecting spent term calls le r = absurd r
on_activity-Next t last clock now stopping timer term calls le r =
    (no_call calls _ now, IsReady-later t last clock now stopping timer le r)
on_activity-Next t last clock now stuck timer term calls le r = absurd r
on_activity-Next t last clock now finished timer term calls le r = (no_call calls _ now, tt)

on_term-Next :
    (t : Timeouts) (last clock now : ℕ) (phase : Phase) (timer : Timer) (term : Bool) (calls : ℕ)
    → clock ≤ now
    → IsReady t last clock phase timer
    → Next t last now receives_term (of_parts phase timer term calls)
unfolding happen on_term of_parts
on_term-Next t last clock now selecting timer true calls le r = (no_call calls _ now, tt)
on_term-Next t last clock now selecting timer false calls le r =
    (no_call calls _ now, IsReady-later t last clock now selecting timer le r)
on_term-Next t last clock now stopping timer term calls le r =
    (no_call calls _ now, IsReady-later t last clock now stopping timer le r)
on_term-Next t last clock now stuck timer term calls le r = absurd r
on_term-Next t last clock now finished timer term calls le r = (no_call calls _ now, tt)

pub happen-Next :
    (t : Timeouts) (last clock now : ℕ) (h : Happening) (m : Manager)
    → clock ≤ now
    → IsReady t last clock m.phase m.timer
    → Next t last now h m
unfolding happen of_parts
happen-Next t last clock now expires m le r =
    expire-Next t last clock now m.phase m.timer m.is_terminated m.stop_calls le r
happen-Next t last clock now receives_timer m le r =
    on_timer-Next t last clock now m.phase m.timer m.is_terminated m.stop_calls le r
happen-Next t last clock now (stop_returns b) m le r =
    on_stopped-Next t last clock now b m.phase m.timer m.is_terminated m.stop_calls le r
happen-Next t last clock now ticks m le r =
    on_activity-Next t last clock now m.phase m.timer m.is_terminated m.stop_calls le r
happen-Next t last clock now sends_term m le r =
    (no_call m.stop_calls _ now, IsReady-later t last clock now m.phase m.timer le r)
happen-Next t last clock now receives_term m le r =
    on_term-Next t last clock now m.phase m.timer m.is_terminated m.stop_calls le r
