-- ===== src/Proc/Tests.antt =====
-- The line of a process whose command name holds a space and a closing parenthesis.
use che_machine_exec.Common.{
  ◌≡◌, refl, ℕ, Text, codes, is_space, is_empty, List, [], ◌∷◌, some, ok, arith,
}
use che_machine_exec.Common.Int.{pos, negsuc}
use che_machine_exec.Proc.Numbers.Decimal.{print_int}
use che_machine_exec.Proc.Stat.{ProcStat, parse_proc_stat}
use che_machine_exec.Proc.Stat.RoundTrip.{stat_line, stat_fields, parse_proc_stat-stat_line}

abbrev stat : ProcStat
stat = record {
  ppid = codes "12";
  pgrp = pos 42;
  tpgid = negsuc 0;
  utime_ticks = pos 7;
  stime_ticks = pos 5;
  start_ticks = pos 900;
}

abbrev others : ℕ → Text
others i = codes "S"

abbrev rest : List Text
rest = codes "0" ∷ codes "17" ∷ []

parse_proc_stat-stat_line_example :
    parse_proc_stat (some (stat_line (codes "42") (codes "a) b") (stat_fields stat others rest)))
    ≡ ok stat
unfolding print_int is_space is_empty
parse_proc_stat-stat_line_example =
    parse_proc_stat-stat_line stat (codes "42") (codes "a) b") others rest
      (omega arith, omega arith, omega arith, omega arith, omega arith, omega arith)
      (λ i. (refl, ((refl, refl), tt))) (refl, ((refl, refl), ((refl, refl), tt)))
      ((refl, ((refl, refl), tt)), ((refl, ((refl, refl), ((refl, refl), tt))), tt)) (omega arith)
      (omega arith) (omega arith)
