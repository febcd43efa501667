-- ===== src/Idle.antt =====
-- timeout/inactivity.go and timeout/run.go: the managers that stop the workspace when it is idle, or
-- when its run time is over. A time is a number of nanoseconds since some start. Whether
-- `stopWorkspace` succeeds is part of what happens.
pub mod Tick
pub mod Run
pub mod Stop
mod Tests
use che_machine_exec.Common.{
  ℕ, ◌+◌, Text, codes, is_empty, Bool, true, false, not, ◌&&◌, Option, none, some, List, [], ◌∷◌,
  if◌then◌else◌,
}
use che_machine_exec.Common.Int.{ℤ, pos, negsuc, leb_ℤ}

pub data SetupError : Type 0 where
  no_retry_period : SetupError
  no_namespace : SetupError
  no_workspace_name : SetupError

-- What the constructor returns: a manager that does nothing, an error, or a manager with its
-- workspace's name.
pub data Created : Type 0 where
  no_op : Created
  failed : SetupError → Created
  manager : Text → Text → Created

-- The two look-ups of the workspace's name.
unfoldable pub workspace_name : Option Text → Option Text → Option Text
workspace_name (some che) devworkspace = some che
workspace_name none devworkspace = devworkspace

-- The checks behind the one on the timeout.
unfoldable pub with_names : Text → Option Text → Created
unfolding is_empty
with_names namespace name =
    if is_empty namespace
    then failed no_namespace
    else elim name [ none ↦ failed no_workspace_name | some n ↦ manager namespace n ]

unfoldable pub new_inactivity_idle_manager : ℤ → ℤ → Text → Option Text → Option Text → Created
unfolding with_names workspace_name
new_inactivity_idle_manager idle_timeout stop_retry_period namespace che devworkspace =
    if leb_ℤ idle_timeout (pos 0)
    then no_op
    else if leb_ℤ stop_retry_period (pos 0)
    then failed no_retry_period
    else with_names namespace (workspace_name che devworkspace)

unfoldable pub new_run_idle_manager : ℤ → ℤ → Text → Option Text → Option Text → Created
unfolding with_names workspace_name
new_run_idle_manager run_timeout stop_retry_period namespace che devworkspace =
    if leb_ℤ run_timeout (pos 0)
    then no_op
    else if leb_ℤ stop_retry_period (pos 0)
    then failed no_retry_period
    else with_names namespace (workspace_name che devworkspace)

pub record Timeouts : Type 0 where
  pub timeout : ℕ
  pub stop_retry_period : ℕ
