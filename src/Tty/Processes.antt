-- ===== src/Tty/Processes.antt =====
-- timeout/activity_source_tty.go: the walk up the process tree.
pub mod Walk
use che_machine_exec.Common.{
  ℕ, zero, suc, Text, codes, text_eq, has_prefix, is_empty, slices_contains, Bool, true, false, not,
  ◌&&◌, ◌||◌, Option, none, some, List, [], ◌∷◌, if◌then◌else◌,
}

-- What /proc says: the parent's PID, empty for a process that is gone, and the target of
-- /proc/PID/fd/0, `none` for an error.
pub record ProcTree : Type 0 where
  pub parent_pid : Text → Text
  pub fd0_target : Text → Option Text

unfoldable pub is_tty_path : Text → Bool
unfolding has_prefix
is_tty_path target = has_prefix target (codes "/dev/pts/") || has_prefix target (codes "/dev/tty")

unfoldable pub process_has_tty : ProcTree → Text → Bool
unfolding is_tty_path
process_has_tty t pid = elim (t.fd0_target pid) [ none ↦ false | some target ↦ is_tty_path target ]

-- `parent == "" || parent == "0" || parent == "1"`.
unfoldable pub is_top : Text → Bool
unfolding text_eq is_empty
is_top parent = is_empty parent || text_eq parent (codes "0") || text_eq parent (codes "1")

-- The loop of `getMainUserProcess`; `depth` counts down from `maxDepth`.
unfoldable pub walk_up : ProcTree → ℕ → List Text → Text → Option Text
unfolding slices_contains text_eq is_top process_has_tty
walk_up t zero visited current = none
walk_up t (suc depth) visited current =
    let further = walk_up t depth (current ∷ visited) (t.parent_pid current) in
    if slices_contains visited current
    then none
    else if text_eq (t.parent_pid current) current
    then none
    else if is_top (t.parent_pid current)
    then none
    else if not (process_has_tty t (t.parent_pid current))
    then some (t.parent_pid current)
    else further

abbrev pub max_depth : ℕ
max_depth = 64

unfoldable pub get_main_user_process : ProcTree → Text → Option Text
unfolding walk_up
get_main_user_process t pid = walk_up t max_depth [] pid

abbrev is_found : Option Text → Bool
is_found none = false
is_found (some p) = true

unfoldable pub is_user_initiated_process : ProcTree → Text → Bool
unfolding process_has_tty is_top get_main_user_process
is_user_initiated_process t pid =
    if not (process_has_tty t pid)
    then false
    else if is_top (t.parent_pid pid)
    then false
    else if not (process_has_tty t (t.parent_pid pid))
    then false
    else is_found (get_main_user_process t pid)
