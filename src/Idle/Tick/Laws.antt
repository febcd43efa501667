-- ===== src/Idle/Tick/Laws.antt =====
-- When the inactivity manager stops the workspace.
use che_machine_exec.Common.{ℕ, suc, ◌+◌, ◌≤◌, ◌≡◌, List, [], ◌∷◌, arith}
use che_machine_exec.Idle.{Timeouts}
use che_machine_exec.Idle.Tick.{
  Timer, Phase, selecting, stopping, stuck, finished, Manager, Happening, start_manager, happen,
}
use che_machine_exec.Idle.Tick.Ready.{last_received, IsReady, happen-Next}

-- The times do not go back.
abbrev pub IsMonotone : ℕ → List (ℕ × Happening) → Type 0
IsMonotone clock [] = Unit
IsMonotone clock ((now, h) ∷ hs) = (clock ≤ now) × IsMonotone now hs

-- The goroutine never waits for a timer that gives nothing, and whenever it calls `stopWorkspace` the
-- timeout has passed since the last activity that it received, `last` at first.
abbrev pub IsPatient : Timeouts → ℕ → Manager → List (ℕ × Happening) → Type 0
IsPatient t last m [] = Unit
IsPatient t last m ((now, h) ∷ hs) =
    ¬ ((happen t now h m).phase ≡ stuck)
    × ((happen t now h m).stop_calls ≡ suc m.stop_calls → last + t.timeout ≤ now)
    × IsPatient t (last_received now h m.phase last) (happen t now h m) hs

not_stuck :
    (t : Timeouts) (last clock : ℕ) (phase : Phase) (timer : Timer)
    → IsReady t last clock phase timer
    → ¬ (phase ≡ stuck)
not_stuck t last clock selecting timer r k = absurd (cc k)
not_stuck t last clock stopping timer r k = absurd (cc k)
not_stuck t last clock stuck timer r k = r
not_stuck t last clock finished timer r k = absurd (cc k)

ready-IsPatient :
    (t : Timeouts) (last clock : ℕ) (m : Manager) (hs : List (ℕ × Happening))
    → IsMonotone clock hs
    → IsReady t last clock m.phase m.timer
    → IsPatient t last m hs
ready-IsPatient t last clock m [] line r = tt
ready-IsPatient t last clock m ((now, h) ∷ hs) line r =
    let (call, after) = happen-Next t last clock now h m line.0 r in
    let last' = last_received now h m.phase last in
    (
      not_stuck t last' now (happen t now h m).phase (happen t now h m).timer after,
      call,
      ready-IsPatient t last' now (happen t now h m) hs line.1 after,
    )

-- Whatever happens since the start, at times that do not go back, the goroutine of the inactivity
-- manager never waits in vain for its timer, and it calls `stopWorkspace` only when the timeout has
-- passed since the start and since the last activity that it received.
pub start_manager-IsPatient :
    (t : Timeouts) (now : ℕ) (hs : List (ℕ × Happening))
    → IsMonotone now hs
    → IsPatient t now (start_manager t now) hs
unfolding start_manager
start_manager-IsPatient t now hs line =
    ready-IsPatient t now now (start_manager t now) hs line (omega arith)
