-- ===== src/Tty/Tests.antt =====
-- A terminal: process 9 is a build below the shell 8, which the terminal 7 started; 7 has no TTY.
use che_machine_exec.Common.{
  ℕ, ◌≡◌, refl, ◌≤◌, inl, inr, Text, codes, text_eq, trim_space, is_empty, slices_contains, true,
  false, none, some, [], ◌∷◌, arith, if◌then◌else◌,
}
use che_machine_exec.Common.Int.{pos, ltb_ℤ, ◌-ℤ◌}
use che_machine_exec.Tty.Processes.{ProcTree, get_main_user_process, is_user_initiated_process}
use che_machine_exec.Tty.Processes.Walk.{ancestor, IsFirstWithout, get_main_user_process-finds}
use che_machine_exec.Tty.Cpu.{find, has_recent_cpu_activity}
use che_machine_exec.Tty.Cpu.Window.{after_samples, has_recent_cpu_activity-window}
use che_machine_exec.Tty.Policy.{ProcInfo}
use che_machine_exec.Tty.Scan.{ScanContext, Entry, is_numeric, scan_entries}
use che_machine_exec.Tty.Scan.Laws.{IsRelevant, scan_entries_young}

abbrev tree : ProcTree
tree = record {
  parent_pid = λ p.
      if text_eq p (codes "9")
      then codes "8"
      else if text_eq p (codes "8")
      then codes "7"
      else codes "1";
  fd0_target = λ p. if text_eq p (codes "7") then none else some (codes "/dev/pts/0");
}

abbrev proc_info : ProcInfo
proc_info = record {
  tree = tree;
  comm = λ p. some (codes "make\n");
  age = λ p. pos 5;
  groups = λ p. none;
  wchan = λ p. none;
  start_time = λ p. none;
  tty_info = λ p. (pos 0, false);
  cpu_ticks = λ p. none;
  now = λ p. pos 100;
  is_alive = λ p. true;
}

abbrev context : ScanContext
context = record {
  my_pid = codes "3";
  activity_window = pos 50;
  grace_period = pos 10;
  max_process_age = pos 1000;
  watched_commands = [];
  ignored_commands = [];
}

abbrev build : Entry
build = (codes "9", true)

get_main_user_process-finds_example :
    (n : ℕ) × (n ≤ 64)
    × (ancestor tree n (codes "9") ≡ codes "7")
    × IsFirstWithout tree n (codes "9")
unfolding get_main_user_process
get_main_user_process-finds_example = get_main_user_process-finds tree (codes "9") (codes "7") refl

build-IsRelevant : IsRelevant proc_info context build (codes "make")
unfolding is_user_initiated_process is_numeric text_eq trim_space is_empty slices_contains
build-IsRelevant = (refl, (codes "make\n", refl, refl), refl, refl)

scan_entries_young_example :
    (l : Text) × ((scan_entries proc_info context ((codes "1", true) ∷ build ∷ []) []).0 ≡ some l)
scan_entries_young_example =
    scan_entries_young proc_info context ((codes "1", true) ∷ build ∷ []) [] build (codes "make")
      (inr (inl refl)) build-IsRelevant refl

has_recent_cpu_activity-window_example :
    (let start =
        has_recent_cpu_activity (λ p. true) (codes "9") (pos 50) (some (pos 7)) (pos 100) [] in
      (start.0 ≡ true)
      × ((has_recent_cpu_activity
            (λ p. true)
            (codes "9")
            (pos 50)
            (some (pos 7))
            (pos 160)
            (after_samples (λ p. true) (codes "9") (pos 50) ((pos 120, pos 7) ∷ []) start.1)).0
          ≡ ltb_ℤ (pos 160 -ℤ pos 100) (pos 50)))
unfolding find
has_recent_cpu_activity-window_example =
    has_recent_cpu_activity-window (λ p. true) (codes "9") (pos 50) (pos 100) (pos 7)
      ((pos 120, pos 7) ∷ []) (pos 160) (pos 7) [] refl (omega arith, tt) (omega arith)
