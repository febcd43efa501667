-- ===== src/Exec/Resolver/Laws.antt =====
-- The shape of a resolved command line, stated without the code's own helpers.
use che_machine_exec.Common.{
  ◌≡◌, ◌≢◌, refl, sym, subst, ap, ◌∙◌, ◌⊎◌, inl, inr, Text, codes, text_eq, text_eq_iff, is_empty,
  has_prefix, join, true, false, none, some, List, [], ◌∷◌, ◌++◌, ok, >>=-eq-ok, Bool-cases,
  Option-cases,
}
use che_machine_exec.Filter.{ContainerInfo}
use che_machine_exec.Exec.Resolver.{
  MachineExec, Shells, set_up_exec_shell_path, own_shell, strip_shell, or_shell, directory,
  cd_command, command_line, resolve_cmd,
}

-- The command of a `shell` exec, or of one without a type, begins with the shell's name.
abbrev pub NamesShell : Text → List Text → Text → Type 0
NamesShell kind cmd shell =
    (shell ≢ [])
    × ((kind ≡ []) ⊎ (kind ≡ codes "shell"))
    × ((rest : List Text) × (cmd ≡ shell ∷ rest))

-- The words of the script: the command, without its first two if the second is `-c`, and the shell if
-- nothing is left.
abbrev pub AreWords : List Text → Text → List Text → Type 0
AreWords [] shell words = words ≡ shell ∷ []
AreWords (c ∷ []) shell words = words ≡ c ∷ []
AreWords (c ∷ d ∷ []) shell words =
    (d ≡ codes "-c" → words ≡ shell ∷ []) × (d ≢ codes "-c" → words ≡ c ∷ d ∷ [])
AreWords (c ∷ d ∷ x ∷ rest) shell words =
    (d ≡ codes "-c" → words ≡ x ∷ rest) × (d ≢ codes "-c" → words ≡ c ∷ d ∷ x ∷ rest)

-- The directory of the exec: the path, if it is a `file://` URL that parses.
abbrev pub IsDirectory : Shells → Text → Text → Type 0
IsDirectory sh cwd dir =
    (has_prefix cwd (codes "file://") ≡ false → dir ≡ cwd)
    × (sh.parse_url cwd ≡ none → dir ≡ cwd)
    × ((path : Text)
        → has_prefix cwd (codes "file://") ≡ true
        → sh.parse_url cwd ≡ some path
        → dir ≡ path)

-- What stands before the words: nothing without a directory, else the change to it.
abbrev pub IsChange : Shells → Text → Text → Type 0
IsChange sh [] change = change ≡ []
IsChange sh (c ∷ cwd) change =
    (dir : Text) × IsDirectory sh (c ∷ cwd) dir × (change ≡ codes "cd " ++ (dir ++ codes "; "))

is_empty_eq : (t : Text) → is_empty t ≡ true → t ≡ []
unfolding is_empty
is_empty_eq [] h = refl
is_empty_eq (c ∷ t) h = absurd (cc h)

own_shell-named :
    (kind c : Text) (cmd : List Text)
    → (kind ≡ []) ⊎ (kind ≡ codes "shell")
    → own_shell kind (c ∷ cmd) ≡ c
unfolding own_shell is_empty text_eq
own_shell-named kind c cmd (inl e) = subst (λ k. own_shell k (c ∷ cmd) ≡ c) (sym e) refl
own_shell-named kind c cmd (inr e) = subst (λ k. own_shell k (c ∷ cmd) ≡ c) (sym e) refl

own_shell-NamesShell :
    (kind : Text) (cmd : List Text)
    → is_empty (own_shell kind cmd) ≡ false
    → NamesShell kind cmd (own_shell kind cmd)
unfolding own_shell is_empty
own_shell-NamesShell kind [] h = absurd (cc h)
own_shell-NamesShell [] (c ∷ cmd) h = ((λ e. absurd (cc (e, h))), inl refl, (cmd, refl))
own_shell-NamesShell (k ∷ kind) (c ∷ cmd) h =
    elim (Bool-cases (text_eq (k ∷ kind) (codes "shell"))) [
      | inl a ↦
          let shell = (text_eq_iff (k ∷ kind) (codes "shell")).0 a in
          let same = own_shell-named (k ∷ kind) c cmd (inr shell) in
          let full : is_empty c ≡ false = subst (λ s. is_empty s ≡ false) same h in
          subst (NamesShell (k ∷ kind) (c ∷ cmd)) (sym same)
            ((λ e. absurd (cc (e, full))), inr shell, (cmd, refl))
      | inr a ↦ absurd (cc (rw (a, own_shell) at h))
    ]

NamesShell-own_shell :
    (kind shell : Text) (cmd : List Text) → NamesShell kind cmd shell → own_shell kind cmd ≡ shell
NamesShell-own_shell kind shell cmd (full, kinds, (rest, e)) =
    ap (own_shell kind) e ∙ own_shell-named kind shell rest kinds

or_shell-AreWords :
    (cmd : List Text) (shell : Text) → AreWords cmd shell (or_shell shell (strip_shell cmd))
unfolding or_shell strip_shell
or_shell-AreWords [] shell = refl
or_shell-AreWords (c ∷ []) shell = refl
or_shell-AreWords (c ∷ d ∷ []) shell = elim (Bool-cases (text_eq d (codes "-c"))) [
  | inl a ↦
      rw (a, strip_shell) ((λ _. refl), (λ ne. absurd (ne ((text_eq_iff d (codes "-c")).0 a))))
  | inr a ↦
      rw (a, strip_shell)
        ((λ e. let b = (text_eq_iff d (codes "-c")).1 e in absurd (cc (a, b))), (λ _. refl))
]
or_shell-AreWords (c ∷ d ∷ x ∷ rest) shell = elim (Bool-cases (text_eq d (codes "-c"))) [
  | inl a ↦
      rw (a, strip_shell) ((λ _. refl), (λ ne. absurd (ne ((text_eq_iff d (codes "-c")).0 a))))
  | inr a ↦
      rw (a, strip_shell)
        ((λ e. let b = (text_eq_iff d (codes "-c")).1 e in absurd (cc (a, b))), (λ _. refl))
]

directory-IsDirectory : (sh : Shells) (cwd : Text) → IsDirectory sh cwd (directory sh cwd)
unfolding directory
directory-IsDirectory sh cwd = elim (Bool-cases (has_prefix cwd (codes "file://"))) [
  | inr a ↦ rw (a, directory) ((λ _. refl), (λ _. refl), (λ path b. absurd (cc b)))
  | inl a ↦ elim (Option-cases (sh.parse_url cwd)) [
    | inl b ↦ rw (a, b, directory) ((λ _. refl), (λ _. refl), (λ path _ p. absurd (cc p)))
    | inr (q, b) ↦
        rw (a, b, directory) ((λ c. absurd (cc c)), (λ c. absurd (cc c)), (λ path _ p. cc p))
  ]
]

cd_command-IsChange : (sh : Shells) (cwd : Text) → IsChange sh cwd (cd_command sh cwd)
unfolding cd_command is_empty
cd_command-IsChange sh [] = refl
cd_command-IsChange sh (c ∷ cwd) =
    (directory sh (c ∷ cwd), directory-IsDirectory sh (c ∷ cwd), refl)

-- A resolved command line runs one shell, with `-c` and one script. The shell is the one that the
-- command names, if it names one, else the one found for the container; the script is the change of
-- directory, if there is a directory, then the words of the command with a space between them, without a leading
-- shell and `-c`, or the shell itself when no word is left.
pub resolve_cmd-shape :
    (sh : Shells) (e : MachineExec) (info : ContainerInfo) (r : List Text)
    → resolve_cmd sh e info ≡ ok r
    → (shell : Text) × (change : Text) × (words : List Text) × (r
        ≡ shell ∷ codes "-c" ∷ (change ++ join (codes " ") words) ∷ [])
      × IsChange sh e.cwd change
      × AreWords e.cmd shell words
      × (NamesShell e.kind e.cmd shell
          ⊎ (((other : Text) → ¬ NamesShell e.kind e.cmd other)
              × (set_up_exec_shell_path sh info ≡ ok shell)))
unfolding resolve_cmd command_line
resolve_cmd-shape sh e info r h = elim (Bool-cases (is_empty (own_shell e.kind e.cmd))) [
  | inl a ↦
      let (shell, k, l) =
        >>=-eq-ok (set_up_exec_shell_path sh info) (λ shell. ok (command_line sh e shell))
          (rw a at h) in
      (
        shell,
        cd_command sh e.cwd,
        or_shell shell (strip_shell e.cmd),
        cc l,
        cd_command-IsChange sh e.cwd,
        or_shell-AreWords e.cmd shell,
        inr (
          (λ other named. named.0 (
              sym (NamesShell-own_shell e.kind other e.cmd named)
              ∙ is_empty_eq (own_shell e.kind e.cmd) a)),
          k,
        ),
      )
  | inr a ↦
      let shell = own_shell e.kind e.cmd in
      let l : ok (command_line sh e shell) ≡ ok r = rw a at h in
      (
        shell,
        cd_command sh e.cwd,
        or_shell shell (strip_shell e.cmd),
        cc l,
        cd_command-IsChange sh e.cwd,
        or_shell-AreWords e.cmd shell,
        inl (own_shell-NamesShell e.kind e.cmd a),
      )
]
