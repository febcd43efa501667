-- ===== src/Shell/Laws.antt =====
-- Which shell is detected.
use che_machine_exec.Common.{
  ℕ, ◌≤◌, ◌≡◌, refl, sym, subst, ap, ◌∙◌, inl, inr, Text, codes, text_eq, text_eq_iff, is_empty,
  split, Bool, true, false, ◌&&◌, Option, some, List, [], ◌∷◌, ◌++◌, ok, >>=-eq-ok, leb, length,
  drop, In, arith, Bool-cases, Option-cases,
}
use che_machine_exec.Shell.{
  digits_of, parse_uid, has_uid, last_field, find_group, parse_shell_from_etc_passwd,
  spawn_exec_info, detect_shell,
}

-- A line of /etc/passwd for the user: its ID is a field behind at least two others and before at
-- least four, of which the last is the shell.
abbrev pub IsLineOf : Text → Text → Text → Type 0
IsLineOf uid shell line =
    (before : List Text) × (behind : List Text) × (drop 2 (split b':' line)
      ≡ before ++ uid ∷ behind)
    × (4 ≤ length behind)
    × (last_field (split b':' line) ≡ shell)

has_uid_sound :
    (uid : Text) (fs : List Text)
    → has_uid uid fs ≡ true
    → (before : List Text) × (behind : List Text) × (fs ≡ before ++ uid ∷ behind)
      × (4 ≤ length behind)
unfolding has_uid
has_uid_sound uid [] h = absurd (cc h)
has_uid_sound uid (f ∷ fs) h = elim (Bool-cases (text_eq f uid && leb 4 (length fs))) [
  | inl e ↦ ([], fs, ap (λ x. x ∷ fs) ((text_eq_iff f uid).0 (ground arith)), ground arith)
  | inr e ↦
      let (before, behind, same, long) = has_uid_sound uid fs (ground arith) in
      (f ∷ before, behind, ap (λ l. f ∷ l) same, long)
]

find_group_sound :
    (uid shell : Text) (lines : List Text)
    → find_group uid lines ≡ some shell
    → (line : Text) × In line lines × IsLineOf uid shell line
unfolding find_group
find_group_sound uid shell [] h = absurd (cc h)
find_group_sound uid shell (line ∷ lines) h =
    elim (Bool-cases (has_uid uid (drop 2 (split b':' line)))) [
      | inl e ↦
          let same : some (last_field (split b':' line)) ≡ some shell = rw (e, find_group) at h in
          let (before, behind, fs, long) = has_uid_sound uid (drop 2 (split b':' line)) e in
          (line, inl refl, (before, behind, fs, long, cc same))
      | inr e ↦
          let (found, at, is) = find_group_sound uid shell lines (rw (e, find_group) at h) in
          (found, inr at, is)
    ]

parse_shell_from_etc_passwd_sound :
    (uid content shell : Text)
    → parse_shell_from_etc_passwd content uid ≡ ok shell
    → (is_empty shell ≡ false)
      × ((line : Text) × In line (split b'\n' content) × IsLineOf uid shell line)
unfolding parse_shell_from_etc_passwd
parse_shell_from_etc_passwd_sound uid content shell h =
    elim (Option-cases (find_group uid (split b'\n' content))) [
      | inl e ↦ absurd (cc (rw (e, parse_shell_from_etc_passwd) at h))
      | inr (group, e) ↦ elim (Bool-cases (is_empty group)) [
        | inl k ↦ absurd (cc (rw (e, parse_shell_from_etc_passwd, k) at h))
        | inr k ↦
            let same : ok group ≡ ok shell = rw (e, parse_shell_from_etc_passwd, k) at h in
            let found : group ≡ shell = cc same in
            (
              ap is_empty (sym found) ∙ k,
              find_group_sound uid shell (split b'\n' content) (e ∙ ap some found),
            )
      ]
    ]

spawn_exec_info-ok :
    (run : List Text → Option Text) (command : List Text) (output : Text)
    → spawn_exec_info run command ≡ ok output
    → run command ≡ some output
unfolding spawn_exec_info
spawn_exec_info-ok run command output h = elim (Option-cases (run command)) [
  | inl e ↦ absurd (cc (rw (e, spawn_exec_info) at h))
  | inr (o, e) ↦ let same : ok o ≡ ok output = rw (e, spawn_exec_info) at h in e ∙ ap some (cc same)
]

parse_uid-ok :
    (is_digit : ℕ → Bool) (content uid : Text)
    → parse_uid is_digit content ≡ ok uid
    → (uid ≡ digits_of is_digit content) × (is_empty uid ≡ false)
unfolding parse_uid
parse_uid-ok is_digit content uid h = elim (Bool-cases (is_empty (digits_of is_digit content))) [
  | inl e ↦ absurd (cc (rw (e, parse_uid) at h))
  | inr e ↦
      let same : ok (digits_of is_digit content) ≡ ok uid = rw (e, parse_uid) at h in
      let found : uid ≡ digits_of is_digit content = cc same in (found, ap is_empty found ∙ e)
]

-- A shell that is detected is not empty, and is the last field of a line of /etc/passwd that has the
-- digits in the output of `id -u`, of which there is one, as a field behind two others and before four.
pub detect_shell_sound :
    (is_digit : ℕ → Bool) (run : List Text → Option Text) (shell : Text)
    → detect_shell is_digit run ≡ ok shell
    → (id : Text) × (passwd : Text) × (run (codes "id" ∷ codes "-u" ∷ []) ≡ some id)
      × (run (codes "cat" ∷ codes "/etc/passwd" ∷ []) ≡ some passwd)
      × (is_empty (digits_of is_digit id) ≡ false)
      × (is_empty shell ≡ false)
      × ((line : Text) × In line (split b'\n' passwd) × IsLineOf (digits_of is_digit id) shell line)
unfolding detect_shell
detect_shell_sound is_digit run shell h =
    let (id, e1, h1) = >>=-eq-ok (spawn_exec_info run (codes "id" ∷ codes "-u" ∷ [])) _ h in
    let (uid, e2, h2) = >>=-eq-ok (parse_uid is_digit id) _ h1 in
    let (passwd, e3, h3) =
      >>=-eq-ok (spawn_exec_info run (codes "cat" ∷ codes "/etc/passwd" ∷ [])) _ h2 in
    let (same, full) = parse_uid-ok is_digit id uid e2 in
    let (kept, lines) = parse_shell_from_etc_passwd_sound uid passwd shell h3 in
    (
      id,
      passwd,
      spawn_exec_info-ok run _ id e1,
      spawn_exec_info-ok run _ passwd e3,
      ap is_empty (sym same) ∙ full,
      kept,
      subst (λ u. (line : Text) × In line (split b'\n' passwd) × IsLineOf u shell line) same lines,
    )
