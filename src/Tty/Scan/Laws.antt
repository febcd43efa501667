-- ===== src/Tty/Scan/Laws.antt =====
-- What a scan never passes over.
use che_machine_exec.Common.{
  ◌≡◌, refl, sym, inl, inr, ap, ◌∙◌, Text, is_empty, trim_space, slices_contains, Bool, true, false,
  ◌&&◌, ◌||◌, some, List, [], ◌∷◌, Option-cases, In,
}
use che_machine_exec.Common.Int.{pos, ltb_ℤ}
use che_machine_exec.Watcher.Durations.{default_grace_period, default_max_process_age}
use che_machine_exec.Tty.Cpu.{Cache}
use che_machine_exec.Tty.Policy.{ProcInfo}
use che_machine_exec.Tty.Scan.{
  ScanContext, always_ignored_commands, Entry, or_positive, is_zero, is_candidate, examine_age,
  examine_command, examine, scan_entries,
}

-- The command name is not empty and not ignored.
abbrev is_skipped : ScanContext → Text → Bool
is_skipped ctx cmd_name =
    is_empty cmd_name
    || slices_contains always_ignored_commands cmd_name
    || slices_contains ctx.ignored_commands cmd_name

abbrev is_too_old : ProcInfo → ScanContext → Text → Bool
is_too_old i ctx pid =
    ltb_ℤ (pos 0) (i.age pid)
    && ltb_ℤ (or_positive default_max_process_age ctx.max_process_age) (i.age pid)

abbrev is_young : ProcInfo → ScanContext → Text → Bool
is_young i ctx pid =
    is_zero (i.age pid) || ltb_ℤ (i.age pid) (or_positive default_grace_period ctx.grace_period)

-- A process that a user started, whose command is `label`, which no list ignores and which is not
-- beyond the maximal age.
abbrev pub IsRelevant : ProcInfo → ScanContext → Entry → Text → Type 0
IsRelevant i ctx e label =
    (is_candidate i ctx e ≡ true)
    × ((data_read : Text) × (i.comm e.0 ≡ some data_read) × (trim_space data_read ≡ label))
    × (is_skipped ctx label ≡ false)
    × (is_too_old i ctx e.0 ≡ false)

examine_young :
    (i : ProcInfo) (ctx : ScanContext) (e : Entry) (label : Text) (cache : Cache)
    → IsRelevant i ctx e label
    → is_young i ctx e.0 ≡ true
    → (examine i ctx e cache).0 ≡ some label
unfolding examine examine_command examine_age
examine_young i ctx e label cache (a, (d, b, same), c, old) young =
    rw (a, b, same, c, old, young) refl

-- While /proc has a relevant process that is young or of unknown age, a scan reports activity,
-- whatever else runs and whatever the cache holds.
pub scan_entries_young :
    (i : ProcInfo) (ctx : ScanContext) (entries : List Entry) (cache : Cache) (e : Entry)
    (label : Text)
    → In e entries
    → IsRelevant i ctx e label
    → is_young i ctx e.0 ≡ true
    → (l : Text) × ((scan_entries i ctx entries cache).0 ≡ some l)
unfolding scan_entries
scan_entries_young i ctx [] cache e label h r y = absurd h
scan_entries_young i ctx (f ∷ entries) cache e label h r y =
    elim (Option-cases (examine i ctx f cache).0) [
      | inr (l, a) ↦ (l, rw (a, scan_entries) refl)
      | inl a ↦
          rw (a, scan_entries)
            (elim h [
              | inl same ↦ absurd (
                  cc (
                    sym a
                    ∙ ap (λ x. (examine i ctx x cache).0) (sym same)
                    ∙ examine_young i ctx e label cache r y))
              | inr at ↦ scan_entries_young i ctx entries (examine i ctx f cache).1 e label at r y
            ])
    ]
