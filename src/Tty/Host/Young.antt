-- ===== src/Tty/Host/Young.antt =====
-- Processes of a host that keep the workspace running by their age.
use che_machine_exec.Common.{
  ℕ, ◌≡◌, refl, ap, sym, subst, Text, true, ◌||◌, none, some, List, Result, ok, err, In,
}
use che_machine_exec.Common.Int.{ℤ, pos, ltb_ℤ}
use che_machine_exec.Proc.Stat.{ProcStat, StatError, parse_proc_stat}
use che_machine_exec.Proc.Clock.{
  System, start_time_of, get_process_start_time, age_of, get_process_age,
}
use che_machine_exec.Tty.Cpu.{Cache}
use che_machine_exec.Tty.Scan.{ScanContext, Entry, is_zero, scan_entries}
use che_machine_exec.Tty.Scan.Laws.{IsRelevant, scan_entries_young}
use che_machine_exec.Tty.Host.{Host, proc_info}

start_time_of-unknown :
    (to_ms : ℤ → ℕ → ℤ) (sys : System) (stat : Result StatError ProcStat)
    → sys.boot_time ≡ none
    → start_time_of to_ms sys stat ≡ none
unfolding start_time_of
start_time_of-unknown to_ms sys (err e) h = refl
start_time_of-unknown to_ms sys (ok stat) h = rw h refl

age_unknown :
    (h : Host) (pid : Text)
    → h.system.boot_time ≡ none
    → get_process_age h.to_ms h.system (h.now pid) (h.stat_file pid) ≡ pos 0
unfolding get_process_age get_process_start_time age_of
age_unknown h pid none_there =
    ap (age_of (h.now pid))
      (start_time_of-unknown h.to_ms h.system (parse_proc_stat (h.stat_file pid)) none_there)

zero_young : (age grace : ℤ) → age ≡ pos 0 → (is_zero age || ltb_ℤ age grace) ≡ true
zero_young age grace e = subst (λ a. (is_zero a || ltb_ℤ a grace) ≡ true) (sym e) refl

-- On a host whose boot time cannot be read, every relevant process makes a scan report activity: its age is
-- unknown, so the grace period never ends for it.
pub scan_without_boot_time :
    (h : Host) (ctx : ScanContext) (entries : List Entry) (cache : Cache) (e : Entry) (label : Text)
    → h.system.boot_time ≡ none
    → In e entries
    → IsRelevant (proc_info h) ctx e label
    → (l : Text) × ((scan_entries (proc_info h) ctx entries cache).0 ≡ some l)
unfolding proc_info
scan_without_boot_time h ctx entries cache e label unknown at relevant =
    scan_entries_young (proc_info h) ctx entries cache e label at relevant
      (zero_young _ _ (age_unknown h e.0 unknown))
