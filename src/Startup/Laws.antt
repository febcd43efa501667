-- ===== src/Startup/Laws.antt =====
-- What the process has checked when its server runs.
use che_machine_exec.Common.{◌≡◌, ◌⊎◌, Text, Bool, true, false, Option, some}
use che_machine_exec.Common.Int.{ℤ, pos, leb_ℤ}
use che_machine_exec.Idle.{SetupError, Created, no_op, failed, manager, workspace_name}
use che_machine_exec.Settings.{Settings}
use che_machine_exec.Startup.{Pod}

-- The manager does nothing, since its timeout is off; or it stops the workspace that the pod names.
abbrev pub IsManagerOf : Pod → ℤ → Created → Type 0
IsManagerOf pod timeout c =
    ((leb_ℤ timeout (pos 0) ≡ true) × (c ≡ no_op))
    ⊎ ((ns : Text) × (name : Text) × (leb_ℤ timeout (pos 0) ≡ false)
        × (pod.namespace_file ≡ some ns)
        × (workspace_name pod.che_workspace_name pod.devworkspace_name ≡ some name)
        × (c ≡ manager ns name))

-- What a manager is that was made without an error.
abbrev IsMade : Bool → Text → Option Text → Created → Type 0
IsMade off namespace name c =
    ((e : SetupError) × (c ≡ failed e))
    ⊎ (((off ≡ true) × (c ≡ no_op))
        ⊎ ((n : Text) × (off ≡ false) × (name ≡ some n) × (c ≡ manager namespace n)))

-- The manager was made without an error.
abbrev IsFine : Created → Type 0
IsFine (failed e) = ⊥
IsFine no_op = Unit
IsFine (manager ns name) = Unit
