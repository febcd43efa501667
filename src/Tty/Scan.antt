-- ===== src/Tty/Scan.antt =====
-- timeout/activity_source_tty.go: `Scan`, one pass over the processes.
pub mod Laws
use che_machine_exec.Common.{
  ℕ, Text, codes, text_eq, is_empty, trim_space, slices_contains, Bool, true, false, not, ◌&&◌,
  ◌||◌, Option, none, some, List, [], ◌∷◌, if◌then◌else◌, leb,
}
use che_machine_exec.Common.Int.{ℤ, pos, negsuc, ltb_ℤ, leb_ℤ}
use che_machine_exec.Watcher.Durations.{default_grace_period, default_max_process_age}
use che_machine_exec.Watcher.Config.{WatchedCommand}
use che_machine_exec.Tty.Processes.{is_user_initiated_process}
use che_machine_exec.Tty.Cpu.{Cache}
use che_machine_exec.Tty.Policy.{ProcInfo, apply_policy}

-- `ActivityScanContext`.
pub record ScanContext : Type 0 where
  pub my_pid : Text
  pub activity_window : ℤ
  pub grace_period : ℤ
  pub max_process_age : ℤ
  pub watched_commands : List WatchedCommand
  pub ignored_commands : List Text

abbrev pub always_ignored_commands : List Text
always_ignored_commands = codes "tail" ∷ codes "watch" ∷ codes "top" ∷ codes "htop" ∷ []

-- A directory entry of /proc: its name, and whether it is a directory.
abbrev pub Entry : Type 0
Entry = Text × Bool

unfoldable pub all_digits : Text → Bool
all_digits [] = true
all_digits (c ∷ cs) = leb b'0' c && leb c b'9' && all_digits cs

unfoldable pub is_numeric : Text → Bool
unfolding all_digits is_empty
is_numeric s = not (is_empty s) && all_digits s

-- The mode of the first watched command with the name, and "auto" if there is none.
unfoldable pub mode_of : List WatchedCommand → Text → Text
unfolding text_eq is_empty
mode_of [] cmd_name = codes "auto"
mode_of (w ∷ ws) cmd_name =
    if text_eq w.name cmd_name
    then (if is_empty w.interactive then codes "no" else w.interactive)
    else mode_of ws cmd_name

abbrev pub or_positive : ℤ → ℤ → ℤ
or_positive default d = if leb_ℤ d (pos 0) then default else d

abbrev pub is_zero : ℤ → Bool
is_zero d = leb_ℤ d (pos 0) && leb_ℤ (pos 0) d

-- Steps 3 to 5, the process age and the policy. A result `none` is a `continue`.
unfoldable pub examine_age : ProcInfo → ScanContext → Text → Text → Cache → Option Text × Cache
unfolding mode_of apply_policy
examine_age i ctx pid cmd_name cache =
    if ltb_ℤ (pos 0) (i.age pid)
      && ltb_ℤ (or_positive default_max_process_age ctx.max_process_age) (i.age pid)
    then (none, cache)
    else if is_zero (i.age pid)
        || ltb_ℤ (i.age pid) (or_positive default_grace_period ctx.grace_period)
    then (some cmd_name, cache)
    else (let (prevents, after) =
          apply_policy i pid (mode_of ctx.watched_commands cmd_name) ctx.activity_window cache in
        (if prevents then some cmd_name else none, after))

-- Steps 1 and 2, the ignored commands.
unfoldable pub examine_command : ProcInfo → ScanContext → Text → Text → Cache → Option Text × Cache
unfolding slices_contains is_empty examine_age
examine_command i ctx pid cmd_name cache =
    if is_empty cmd_name
      || slices_contains always_ignored_commands cmd_name
      || slices_contains ctx.ignored_commands cmd_name
    then (none, cache)
    else examine_age i ctx pid cmd_name cache

-- The tests before the command's name is read.
abbrev pub is_candidate : ProcInfo → ScanContext → Entry → Bool
is_candidate i ctx e =
    e.1
    && is_numeric e.0
    && not (text_eq e.0 (codes "1") || text_eq e.0 ctx.my_pid)
    && is_user_initiated_process i.tree e.0

-- The body of the loop.
unfoldable pub examine : ProcInfo → ScanContext → Entry → Cache → Option Text × Cache
unfolding is_numeric text_eq is_user_initiated_process trim_space examine_command
examine i ctx e cache = if not (is_candidate i ctx e) then (none, cache) else elim (i.comm e.0) [
  | none ↦ (none, cache)
  | some comm_data ↦ examine_command i ctx e.0 (trim_space comm_data) cache
]

unfoldable pub scan_entries : ProcInfo → ScanContext → List Entry → Cache → Option Text × Cache
unfolding examine
scan_entries i ctx [] cache = (none, cache)
scan_entries i ctx (e ∷ entries) cache =
    let (found, after) = examine i ctx e cache in
    elim found [ some label ↦ (some label, after) | none ↦ scan_entries i ctx entries after ]

-- `Scan`; `none` is an unreadable /proc, and a result `none` is `false, ""`.
unfoldable pub scan : ProcInfo → ScanContext → Option (List Entry) → Cache → Option Text × Cache
unfolding scan_entries
scan i ctx none cache = (none, cache)
scan i ctx (some entries) cache = scan_entries i ctx entries cache
