-- ===== src/Proc/Stat.antt =====
-- timeout/procutil.go: `parseProcStat`. The text is what the file holds; its command name may be any
-- text, also with spaces and parentheses. A reading error is a parameter, `none`.
pub mod RoundTrip
use che_machine_exec.Common.{
  ℕ, zero, suc, Text, codes, behind_last, fields, Bool, true, false, Option, none, some, List, [],
  ◌∷◌, Result, ok, err, ◌>>=◌, if◌then◌else◌, ltb, length, take,
}
use che_machine_exec.Common.Int.{ℤ, pos, negsuc, leb_ℤ, ◌+ℤ◌}
use che_machine_exec.Proc.Numbers.{scan_int}

pub record ProcStat : Type 0 where
  pub ppid : Text
  pub pgrp : ℤ
  pub tpgid : ℤ
  pub utime_ticks : ℤ
  pub stime_ticks : ℤ
  pub start_ticks : ℤ

pub data StatError : Type 0 where
  cannot_read : StatError
  no_closing_paren : StatError
  too_many_fields : ℕ → StatError
  insufficient_fields : ℕ → StatError
  failed_to_parse : Text → StatError

abbrev pub max_stat_file_size : ℕ
max_stat_file_size = 4096

abbrev pub max_stat_fields : ℕ
max_stat_fields = 100

-- `fields[i]`; the caller has tested the number of fields.
abbrev pub field_at : ℕ → List Text → Text
field_at i [] = []
field_at zero (f ∷ fs) = f
field_at (suc i) (f ∷ fs) = field_at i fs

-- A field that must be a number, with its name for the error.
unfoldable pub parse_field : Text → Text → Result StatError ℤ
unfolding scan_int
parse_field name field = elim (scan_int field) [ none ↦ err (failed_to_parse name) | some i ↦ ok i ]

-- The start time must also be positive.
unfoldable pub parse_start : Text → Result StatError ℤ
unfolding scan_int
parse_start field = elim (scan_int field) [
  | none ↦ err (failed_to_parse (codes "starttime"))
  | some i ↦ if leb_ℤ i (pos 0) then err (failed_to_parse (codes "starttime")) else ok i
]

unfoldable pub parse_numbers : List Text → Result StatError ProcStat
unfolding parse_field parse_start
parse_numbers fs = do
  pgrp ← parse_field (codes "pgrp") (field_at 2 fs)
  tpgid ← parse_field (codes "tpgid") (field_at 5 fs)
  utime ← parse_field (codes "utime") (field_at 11 fs)
  stime ← parse_field (codes "stime") (field_at 12 fs)
  start ← parse_start (field_at 19 fs)
  ok (record {
    ppid = field_at 1 fs;
    pgrp = pgrp;
    tpgid = tpgid;
    utime_ticks = utime;
    stime_ticks = stime;
    start_ticks = start;
  })

unfoldable pub parse_fields : List Text → Result StatError ProcStat
unfolding parse_numbers
parse_fields fs =
    if ltb max_stat_fields (length fs)
    then err (too_many_fields (length fs))
    else if ltb (length fs) 22
    then err (insufficient_fields (length fs))
    else parse_numbers fs

-- The part behind the reading.
unfoldable pub parse_text : Text → Result StatError ProcStat
unfolding parse_fields behind_last fields
parse_text str = elim (behind_last b')' str) [
  | none ↦ err no_closing_paren
  | some rest ↦ parse_fields (fields rest)
]

unfoldable pub parse_proc_stat : Option Text → Result StatError ProcStat
unfolding parse_text
parse_proc_stat none = err cannot_read
parse_proc_stat (some file) = parse_text (take max_stat_file_size file)
