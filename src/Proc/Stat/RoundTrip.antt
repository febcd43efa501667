-- ===== src/Proc/Stat/RoundTrip.antt =====
-- A line that the kernel writes to /proc/PID/stat is read back.
use mathlib.Core.List.{append-nil, append_assoc}
use che_machine_exec.Common.{
  ℕ, ◌≤◌, ◌≡◌, refl, sym, ◌∙◌, ap, Text, codes, is_space, is_empty, behind_last, fields,
  fields_from, true, false, none, some, List, [], ◌∷◌, ◌++◌, ok, ltb, ◌==◌, length,
  take_of_length-le, All, All-append, arith,
}
use che_machine_exec.Common.Int.{pos, ◌<ℤ◌}
use che_machine_exec.Proc.Numbers.Decimal.{
  print_int, print_int-IsPlain, IsPlain, IsInt64, scan_int-print_int,
}
use che_machine_exec.Proc.Stat.{
  ProcStat, parse_field, parse_start, parse_numbers, parse_fields, parse_text, parse_proc_stat,
}

-- Fields, each behind a space, and the end of the line.
abbrev pub spaced : List Text → Text
spaced [] = b'\n' ∷ []
spaced (f ∷ fs) = b' ' ∷ (f ++ spaced fs)

-- A field of the line.
abbrev pub IsField : Text → Type 0
IsField f = (is_empty f ≡ false) × IsPlain f

fields_from-word :
    (word f : Text) (c : ℕ) (rest : Text)
    → IsPlain f
    → is_space c ≡ true
    → is_empty (word ++ f) ≡ false
    → fields_from word (f ++ c ∷ rest) ≡ (word ++ f) ∷ fields_from [] rest
unfolding fields_from
fields_from-word word [] c rest plain sp full =
    let end : is_empty word ≡ false = ap is_empty (sym (append-nil word)) ∙ full in
    rw (sp, fields_from, end, append-nil word) refl
fields_from-word word (x ∷ f) c rest plain sp full =
    let assoc : (word ++ x ∷ []) ++ f ≡ word ++ (x ∷ f) = append_assoc word (x ∷ []) f in
    rw (plain.0.0, fields_from)
      (fields_from-word (word ++ x ∷ []) f c rest plain.1 sp (ap is_empty assoc ∙ full)
        ∙ ap (λ w. w ∷ fields_from [] rest) assoc)

fields-spaced : (fs : List Text) → All IsField fs → fields (spaced fs) ≡ fs
unfolding fields fields_from is_space is_empty
fields-spaced [] h = refl
fields-spaced (f ∷ []) h = fields_from-word [] f b'\n' [] h.0.1 refl h.0.0
fields-spaced (f ∷ g ∷ fs) h =
    fields_from-word [] f b' ' (g ++ spaced fs) h.0.1 refl h.0.0
    ∙ ap (λ l. f ∷ l) (fields-spaced (g ∷ fs) h.1)

HasNoParen : Text → Type 0
HasNoParen s = All (λ c. (c == b')') ≡ false) s

spaced-HasNoParen : (fs : List Text) → All IsField fs → HasNoParen (spaced fs)
unfolding HasNoParen
spaced-HasNoParen [] h = (refl, tt)
spaced-HasNoParen (f ∷ fs) h = (
  refl,
  All-append (λ c. (c == b')') ≡ false) f (spaced fs) (plain f h.0.1) (spaced-HasNoParen fs h.1),
)
  where
    plain : (t : Text) → IsPlain t → HasNoParen t
    plain [] k = tt
    plain (c ∷ t) k = (k.0.1, plain t k.1)

behind_last-none : (s : Text) → HasNoParen s → behind_last b')' s ≡ none
unfolding behind_last HasNoParen
behind_last-none [] h = refl
behind_last-none (c ∷ s) h = rw (behind_last-none s h.1, behind_last, h.0) refl

behind_last-append : (front s : Text) → HasNoParen s → behind_last b')' (front ++ b')' ∷ s) ≡ some s
unfolding behind_last
behind_last-append [] s h = rw (behind_last-none s h, behind_last) refl
behind_last-append (c ∷ front) s h = rw (behind_last-append front s h, behind_last) refl

-- The fields behind the command name: those that are read, and `others` in the other places.
abbrev pub stat_fields : ProcStat → (ℕ → Text) → List Text → List Text
stat_fields st others rest =
    others 0
    ∷ st.ppid
    ∷ print_int st.pgrp
    ∷ others 3
    ∷ others 4
    ∷ print_int st.tpgid
    ∷ others 6
    ∷ others 7
    ∷ others 8
    ∷ others 9
    ∷ others 10
    ∷ print_int st.utime_ticks
    ∷ print_int st.stime_ticks
    ∷ others 13
    ∷ others 14
    ∷ others 15
    ∷ others 16
    ∷ others 17
    ∷ others 18
    ∷ print_int st.start_ticks
    ∷ rest

-- The line of a process.
abbrev pub stat_line : Text → Text → List Text → Text
stat_line pid comm fs = (pid ++ codes " (" ++ comm) ++ b')' ∷ spaced fs

abbrev pub HasInt64 : ProcStat → Type 0
HasInt64 st =
    IsInt64 st.pgrp
    × IsInt64 st.tpgid
    × IsInt64 st.utime_ticks
    × IsInt64 st.stime_ticks
    × IsInt64 st.start_ticks
    × (pos 0 <ℤ st.start_ticks)

parse_numbers-stat_fields :
    (st : ProcStat) (others : ℕ → Text) (rest : List Text)
    → HasInt64 st
    → parse_numbers (stat_fields st others rest) ≡ ok st
unfolding parse_numbers
parse_numbers-stat_fields st others rest (pg, tp, ut, ss, sr, later) =
    rw
      (
        scan_int-print_int st.pgrp pg,
        scan_int-print_int st.tpgid tp,
        scan_int-print_int st.utime_ticks ut,
        scan_int-print_int st.stime_ticks ss,
        scan_int-print_int st.start_ticks sr,
        parse_field,
        parse_start,
      )
      (ground arith)

stat_fields-IsField :
    (st : ProcStat) (others : ℕ → Text) (rest : List Text)
    → ((i : ℕ) → IsField (others i))
    → IsField st.ppid
    → All IsField rest
    → All IsField (stat_fields st others rest)
stat_fields-IsField st others rest o p r = (
  o 0,
  (
    p,
    (
      print_int-IsPlain st.pgrp,
      (
        o 3,
        (
          o 4,
          (
            print_int-IsPlain st.tpgid,
            (
              o 6,
              (
                o 7,
                (
                  o 8,
                  (
                    o 9,
                    (
                      o 10,
                      (
                        print_int-IsPlain st.utime_ticks,
                        (
                          print_int-IsPlain st.stime_ticks,
                          (
                            o 13,
                            (
                              o 14,
                              (o 15, (o 16, (o 17, (o 18, (print_int-IsPlain st.start_ticks, r))))),
                            ),
                          ),
                        ),
                      ),
                    ),
                  ),
                ),
              ),
            ),
          ),
        ),
      ),
    ),
  ),
)

-- The line of a process, whose command name may be any text, also with spaces and parentheses, is read back:
-- when its numbers are int64 and the start time is positive, no field is empty or holds a space
-- or a closing parenthesis, 2 to 80 fields follow the start time, and the file is at most 4096
-- characters long.
pub parse_proc_stat-stat_line :
    (st : ProcStat) (pid comm : Text) (others : ℕ → Text) (rest : List Text)
    → HasInt64 st
    → ((i : ℕ) → IsField (others i))
    → IsField st.ppid
    → All IsField rest
    → 2 ≤ length rest
    → length rest ≤ 80
    → length (stat_line pid comm (stat_fields st others rest)) ≤ 4096
    → parse_proc_stat (some (stat_line pid comm (stat_fields st others rest))) ≡ ok st
unfolding parse_proc_stat parse_text parse_fields
parse_proc_stat-stat_line st pid comm others rest numbers o p r two eighty short =
    let fs = stat_fields st others rest in
    let are = stat_fields-IsField st others rest o p r in
    let long : ltb 100 (length fs) ≡ false = ground arith in
    let few : ltb (length fs) 22 ≡ false = ground arith in
    rw
      (
        take_of_length-le 4096 (stat_line pid comm fs) short,
        behind_last-append (pid ++ codes " (" ++ comm) (spaced fs) (spaced-HasNoParen fs are),
        parse_text,
        fields-spaced fs are,
        long,
        few,
      )
      (parse_numbers-stat_fields st others rest numbers)
