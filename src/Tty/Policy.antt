-- ===== src/Tty/Policy.antt =====
-- timeout/activity_source_tty.go: whether a process is interactive, and the policy for it.
use che_machine_exec.Common.{
  Text, codes, text_eq, trim_space, Bool, true, false, not, ◌&&◌, ◌||◌, Option, none, some, List,
  [], ◌∷◌, if◌then◌else◌,
}
use che_machine_exec.Common.Int.{ℤ, pos, ltb_ℤ, leb_ℤ, ◌-ℤ◌}
use che_machine_exec.Watcher.Durations.{default_activity_window}
use che_machine_exec.Tty.Processes.{ProcTree}
use che_machine_exec.Tty.Cpu.{Cache, has_recent_cpu_activity}

-- What a scan reads about a process, by its PID: its command, its age (zero if it is unknown), its
-- process group and the foreground group of its TTY, its wait channel, its start time, what
-- `getCachedTTYInfo` returns, its CPU ticks, the time at which it is looked at, and whether it exists.
pub record ProcInfo : Type 0 where
  pub tree : ProcTree
  pub comm : Text → Option Text
  pub age : Text → ℤ
  pub groups : Text → Option (ℤ × ℤ)
  pub wchan : Text → Option Text
  pub start_time : Text → Option ℤ
  pub tty_info : Text → ℤ × Bool
  pub cpu_ticks : Text → Option ℤ
  pub now : Text → ℤ
  pub is_alive : Text → Bool

unfoldable pub is_in_foreground_process_group : ProcInfo → Text → Bool
is_in_foreground_process_group i pid = elim (i.groups pid) [
  | none ↦ false
  | some g ↦ ltb_ℤ (pos 0) g.1 && leb_ℤ g.0 g.1 && leb_ℤ g.1 g.0
]

unfoldable pub get_wait_channel : ProcInfo → Text → Text
unfolding trim_space
get_wait_channel i pid = elim (i.wchan pid) [ none ↦ [] | some data_read ↦ trim_space data_read ]

unfoldable pub is_any_of : Text → List Text → Bool
unfolding text_eq
is_any_of s [] = false
is_any_of s (t ∷ ts) = text_eq s t || is_any_of s ts

unfoldable pub has_interactive_behavior_fallback : ProcInfo → Text → Bool
unfolding get_wait_channel is_any_of
has_interactive_behavior_fallback i pid = is_any_of (get_wait_channel i pid) (
    codes "poll_schedule_timeout"
    ∷ codes "pipe_wait"
    ∷ codes "unix_stream_read_generic"
    ∷ codes "select"
    ∷ codes "ep_poll"
    ∷ [])

-- `none` is the zero time.
unfoldable pub get_tty_atime : ProcInfo → Text → Option ℤ
get_tty_atime i pid = if not (i.tty_info pid).1 then none else some (i.tty_info pid).0

unfoldable pub has_ever_read_from_tty : ProcInfo → Text → Bool
unfolding get_tty_atime has_interactive_behavior_fallback
has_ever_read_from_tty i pid = elim (i.start_time pid) [
  | none ↦ false
  | some start ↦ elim (get_tty_atime i pid) [
    | none ↦ false
    | some atime ↦ if ltb_ℤ start atime then true else has_interactive_behavior_fallback i pid
  ]
]

unfoldable pub is_interactive_process : ProcInfo → Text → Bool
unfolding is_in_foreground_process_group get_wait_channel is_any_of has_ever_read_from_tty
is_interactive_process i pid =
    if not (is_in_foreground_process_group i pid)
    then false
    else if is_any_of (get_wait_channel i pid) (
        codes "read"
        ∷ codes "wait_woken"
        ∷ codes "n_tty_read"
        ∷ codes "tty_read"
        ∷ codes "tty_write"
        ∷ [])
    then true
    else has_ever_read_from_tty i pid

-- The read of the TTY's access time, when it is usable.
unfoldable pub usable_atime : ProcInfo → Text → Option ℤ
usable_atime i pid = elim (i.start_time pid) [
  | none ↦ none
  | some start ↦
      if (i.tty_info pid).1 && ltb_ℤ start (i.tty_info pid).0 then some (i.tty_info pid).0 else none
]

unfoldable pub has_tty_activity : ProcInfo → Text → ℤ → Cache → Bool × Cache
unfolding usable_atime has_recent_cpu_activity
has_tty_activity i pid window cache = elim (usable_atime i pid) [
  | some atime ↦ (ltb_ℤ (i.now pid -ℤ window) atime, cache)
  | none ↦ has_recent_cpu_activity i.is_alive pid window (i.cpu_ticks pid) (i.now pid) cache
]

unfoldable pub has_recent_activity : ProcInfo → ℤ → Text → Cache → Bool × Cache
unfolding has_tty_activity
has_recent_activity i activity_window pid cache =
    has_tty_activity i pid
      (if leb_ℤ activity_window (pos 0) then default_activity_window else activity_window) cache

-- The switch over the mode; a mode that it does not name leaves `checkActivity` false.
unfoldable pub checks_activity : ProcInfo → Text → Text → Bool
unfolding is_interactive_process text_eq
checks_activity i pid mode =
    if text_eq mode (codes "auto")
    then is_interactive_process i pid
    else text_eq mode (codes "true") || text_eq mode (codes "yes")

unfoldable pub apply_policy : ProcInfo → Text → Text → ℤ → Cache → Bool × Cache
unfolding checks_activity has_recent_activity
apply_policy i pid mode activity_window cache =
    if checks_activity i pid mode
    then has_recent_activity i activity_window pid cache
    else (true, cache)

unfoldable pub get_interactive_mode_description : Text → Text
unfolding text_eq
get_interactive_mode_description mode =
    if text_eq mode (codes "auto")
    then codes "auto-detect TTY"
    else if text_eq mode (codes "true") || text_eq mode (codes "yes")
    then codes "interactive (activity check)"
    else if text_eq mode (codes "false") || text_eq mode (codes "no")
    then codes "non-interactive (always active)"
    else codes "unknown"
