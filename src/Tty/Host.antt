-- ===== src/Tty/Host.antt =====
-- timeout/activity_source_tty.go on a host: what a scan reads about a process, from the files of /proc
-- by way of the parsers of timeout/procutil.go and the cache of TTY paths. One scan takes the cache as it
-- is at its start, and the readings of the clock by process.
pub mod Young
use che_machine_exec.Common.{ℕ, Text, codes, Bool, Option, none, some, [], Result, ok, err}
use che_machine_exec.Common.Int.{ℤ}
use che_machine_exec.Common.Paths.{join_path}
use che_machine_exec.Proc.Stat.{ProcStat, StatError, parse_proc_stat}
use che_machine_exec.Proc.Clock.{
  System, get_process_start_time, get_process_age, get_process_cpu_ticks,
}
use che_machine_exec.Tty.Paths.{Links, Readings, TtyCache, get_cached_tty_info}
use che_machine_exec.Tty.Policy.{ProcInfo}

pub record Host : Type 0 where
  pub stat_file : Text → Option Text
  pub comm_file : Text → Option Text
  pub wchan_file : Text → Option Text
  pub links : Links
  pub readings : Text → Readings
  pub tty_cache : TtyCache
  pub to_ms : ℤ → ℕ → ℤ
  pub system : System
  pub now : Text → ℤ
  pub is_alive : Text → Bool

-- `getParentPID` behind the parser.
unfoldable pub parent_of : Result StatError ProcStat → Text
parent_of (err e) = []
parent_of (ok stat) = stat.ppid

unfoldable pub get_parent_pid : Option Text → Text
unfolding parent_of parse_proc_stat
get_parent_pid file = parent_of (parse_proc_stat file)

-- The two groups that `isInForegroundProcessGroup` compares.
unfoldable pub groups_of : Result StatError ProcStat → Option (ℤ × ℤ)
groups_of (err e) = none
groups_of (ok stat) = some (stat.pgrp, stat.tpgid)

abbrev pub fd0_path : Text → Text
fd0_path pid = join_path (join_path (join_path (codes "/proc") pid) (codes "fd")) (codes "0")

unfoldable pub proc_info : Host → ProcInfo
unfolding get_parent_pid groups_of parse_proc_stat get_process_start_time get_process_age
    get_process_cpu_ticks get_cached_tty_info join_path
proc_info h = record {
  tree = record {
    parent_pid = λ pid. get_parent_pid (h.stat_file pid);
    fd0_target = λ pid. h.links.readlink (fd0_path pid);
  };
  comm = h.comm_file;
  age = λ pid. get_process_age h.to_ms h.system (h.now pid) (h.stat_file pid);
  groups = λ pid. groups_of (parse_proc_stat (h.stat_file pid));
  wchan = h.wchan_file;
  start_time = λ pid. get_process_start_time h.to_ms h.system (h.stat_file pid);
  tty_info = λ pid.
      let info = get_cached_tty_info h.links (h.readings pid) pid h.tty_cache in
      (info.atime, info.valid);
  cpu_ticks = λ pid. get_process_cpu_ticks (h.stat_file pid);
  now = h.now;
  is_alive = h.is_alive;
}
