-- ===== src/Idle/Tick.antt =====
-- timeout/inactivity.go, the loop: the timer, the channel that `Tick` sends on without waiting, and the
-- call of `stopWorkspace`, which takes time. What happens comes from outside, one thing at a time.
pub mod Ready
pub mod Laws
pub mod Busy
use che_machine_exec.Common.{
  ℕ, ◌+◌, Bool, true, false, Option, none, some, ◌&&◌, List, [], ◌∷◌, if◌then◌else◌, leb,
}
use che_machine_exec.Api.Auth.{AuthConfig, Headers}
use che_machine_exec.Api.Rest.{Response, handle_activity_tick}
use che_machine_exec.Idle.{Timeouts}

-- `time.Timer`: it runs until its deadline; or it has put a value into its channel; or that was
-- received.
pub data Timer : Type 0 where
  armed : ℕ → Timer
  fired : Timer
  spent : Timer

-- Where the goroutine of `Start` is: in its `select`, in `stopWorkspace`, waiting for a value of a
-- timer that gives none, or at its end.
pub data Phase : Type 0 where
  selecting : Phase
  stopping : Phase
  stuck : Phase
  finished : Phase

pub record Manager : Type 0 where
  pub phase : Phase
  pub timer : Timer
  pub is_terminated : Bool
  pub stop_calls : ℕ

-- What happens: the timer's deadline comes, the goroutine receives its value, `stopWorkspace` returns
-- (`true` without an error), `Tick` is called, SIGTERM arrives, the goroutine receives it.
pub data Happening : Type 0 where
  expires : Happening
  receives_timer : Happening
  stop_returns : Bool → Happening
  ticks : Happening
  sends_term : Happening
  receives_term : Happening

unfoldable pub start_manager : Timeouts → ℕ → Manager
start_manager t now = record {
  phase = selecting;
  timer = armed (now + t.timeout);
  is_terminated = false;
  stop_calls = 0;
}

unfoldable pub expire : ℕ → Manager → Manager
expire now m = elim m.timer [
  | armed deadline ↦ if leb deadline now then record m { timer = fired } else m
  | fired ↦ m
  | spent ↦ m
]

-- The case `<-timer.C`: `stopWorkspace` is called.
unfoldable pub on_timer : Manager → Manager
on_timer m = elim m.timer [
  | armed deadline ↦ m
  | fired ↦ record m { phase = stopping; timer = spent; stop_calls = m.stop_calls + 1 }
  | spent ↦ m
]

-- The rest of that case, behind the result of `stopWorkspace`.
unfoldable pub on_stopped : Timeouts → ℕ → Bool → Manager → Manager
on_stopped t now true m = record m { phase = finished }
on_stopped t now false m = record m { phase = selecting; timer = armed (now + t.stop_retry_period) }

-- The case `<-m.activityC`: a value that the timer has put into its channel is dropped, by `Stop` or by the
-- receive behind it, and the timer is set again.
unfoldable pub on_activity : Timeouts → ℕ → Manager → Manager
on_activity t now m = elim m.timer [
  | armed deadline ↦ record m { timer = armed (now + t.timeout) }
  | fired ↦ record m { timer = armed (now + t.timeout) }
  | spent ↦ record m { phase = stuck }
]

unfoldable pub on_term : Manager → Manager
on_term m = if m.is_terminated then record m { phase = finished } else m

-- One thing that happens; the goroutine receives only in its `select`, so `Tick` sends only then.
unfoldable pub happen : Timeouts → ℕ → Happening → Manager → Manager
unfolding expire on_timer on_stopped on_activity on_term
happen t now expires m = expire now m
happen t now receives_timer m = elim m.phase [
  | selecting ↦ on_timer m
  | stopping ↦ m
  | stuck ↦ m
  | finished ↦ m
]
happen t now (stop_returns b) m = elim m.phase [
  | selecting ↦ m
  | stopping ↦ on_stopped t now b m
  | stuck ↦ m
  | finished ↦ m
]
happen t now ticks m = elim m.phase [
  | selecting ↦ on_activity t now m
  | stopping ↦ m
  | stuck ↦ m
  | finished ↦ m
]
happen t now sends_term m = record m { is_terminated = true }
happen t now receives_term m = elim m.phase [
  | selecting ↦ on_term m
  | stopping ↦ m
  | stuck ↦ m
  | finished ↦ m
]

unfoldable pub happen_all : Timeouts → List (ℕ × Happening) → Manager → Manager
unfolding happen
happen_all t [] m = m
happen_all t ((now, h) ∷ hs) m = happen_all t hs (happen t now h m)

-- `Tick` of what the constructor returns; the manager that does nothing is `none`.
unfoldable pub tick : Timeouts → ℕ → Option Manager → Option Manager
unfolding happen
tick t now none = none
tick t now (some m) = some (happen t now ticks m)

-- `HandleActivityTick` with the manager: the response, and the manager after it.
unfoldable pub tick_request :
    AuthConfig → Headers → Timeouts → ℕ → Option Manager → Response × Option Manager
unfolding handle_activity_tick tick
tick_request c headers t now m =
    let handled = handle_activity_tick c headers in
    (handled.0, if handled.1 then tick t now m else m)
