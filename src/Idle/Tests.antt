-- ===== src/Idle/Tests.antt =====
-- Timelines of the managers: activities, failed attempts to stop, and one that succeeds.
use che_machine_exec.Common.{ℕ, ◌≡◌, refl, codes, true, false, none, some, ok, List, [], ◌∷◌, arith}
use che_machine_exec.Client.{Cluster}
use che_machine_exec.Idle.{Timeouts}
use che_machine_exec.Idle.Run.{Attempt, attempts, run_happen_all, run_retries}
use che_machine_exec.Idle.Tick.{
  Happening, finished, expires, receives_timer, stop_returns, ticks, start_manager, happen_all,
  tick_request,
}
use che_machine_exec.Idle.Tick.Laws.{IsPatient, start_manager-IsPatient}
use che_machine_exec.Idle.Tick.Busy.{start_manager-calls}
use che_machine_exec.Idle.Stop.{Sender, stop_workspace, IsAnswered, stop_workspace-IsAnswered}

abbrev timeouts : Timeouts
timeouts = record { timeout = 30; stop_retry_period = 10 }

-- Attempts at 30 and 45 that fail, one at 60 that succeeds, and a value of the timer after it.
abbrev failed_attempts : List Attempt
failed_attempts =
    record { expired = 30; received = 30; returned = 35 }
    ∷ record { expired = 45; received = 46; returned = 50 }
    ∷ []

abbrev last_attempt : Attempt
last_attempt = record { expired = 60; received = 61; returned = 62 }

run_retries_example :
    (let m =
        run_happen_all timeouts
          (attempts failed_attempts last_attempt ((90, receives_timer) ∷ []))
          (start_manager timeouts 0) in
      (m.phase ≡ finished) × (m.stop_calls ≡ 3))
run_retries_example =
    run_retries timeouts 0 failed_attempts last_attempt ((90, receives_timer) ∷ [])
      (omega arith, (omega arith, omega arith))

-- An activity at 20, the timer at 50, and a failed stop that ends at 55, after a tick that is lost.
abbrev happenings : List (ℕ × Happening)
happenings =
    (20, ticks)
    ∷ (50, expires)
    ∷ (51, receives_timer)
    ∷ (54, ticks)
    ∷ (55, stop_returns false)
    ∷ (65, expires)
    ∷ (65, receives_timer)
    ∷ []

start_manager-IsPatient_example : IsPatient timeouts 0 (start_manager timeouts 0) happenings
start_manager-IsPatient_example = start_manager-IsPatient timeouts 0 happenings (
  omega arith,
  (omega arith, (omega arith, (omega arith, (omega arith, (omega arith, (omega arith, tt)))))),
)

calls_after : (happen_all timeouts happenings (start_manager timeouts 0)).stop_calls ≡ 2
unfolding happen_all start_manager
calls_after = refl

abbrev cluster : Cluster Unit
cluster = record {
  in_cluster_config = ok (record {
    bearer_token = codes "sa";
    bearer_token_file = [];
    group_version = [];
    api_path = [];
  });
  new_for_config = λ config. ok tt;
}

abbrev sender : Sender Unit
sender = record { marshal_json = λ v. ok (codes "{}"); patch = λ c p. none }

stopped_workspace :
    IsAnswered cluster sender
      (codes "ns")
      (codes "w")
      (codes "inactivity")
      (stop_workspace cluster sender (codes "ns") (codes "w") (codes "inactivity"))
stopped_workspace =
    stop_workspace-IsAnswered cluster sender (codes "ns") (codes "w") (codes "inactivity")

abbrev busy_happenings : List (ℕ × Happening)
busy_happenings =
    (20, ticks) ∷ (30, expires) ∷ (31, receives_timer) ∷ (45, ticks) ∷ (70, expires) ∷ []

start_manager-calls_example :
    (happen_all timeouts busy_happenings (start_manager timeouts 0)).stop_calls ≡ 0
start_manager-calls_example =
    start_manager-calls timeouts 0 busy_happenings
      (omega arith, (omega arith, (omega arith, (omega arith, (omega arith, tt)))))

-- A request without a token does not reset the timer when authentication is on.
unauthorized_tick :
    (tick_request
      (record {
        use_bearer_token = true;
        authenticated_user_id = [];
        get_current_user_id = λ token. ok [];
      })
      (λ name. [])
      timeouts
      20
      (some (start_manager timeouts 0))).1
    ≡ some (start_manager timeouts 0)
unfolding tick_request
unauthorized_tick = refl
