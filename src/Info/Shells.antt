-- ===== src/Info/Shells.antt =====
-- The shell that an exec gets by way of info execs: exec/command_resolver.go and shell, composed with
-- exec-info.
use che_machine_exec.Common.{
  ℕ, ◌≡◌, refl, sym, ap, ◌∙◌, ◌⊎◌, inl, inr, Text, codes, is_empty, split, Bool, true, false,
  Option, none, some, List, [], ◌∷◌, Result, ok, err, Bool-cases, Option-cases, In,
}
use che_machine_exec.Filter.{ContainerInfo}
use che_machine_exec.Shell.{digits_of, detect_shell}
use che_machine_exec.Shell.Laws.{IsLineOf, detect_shell_sound}
use che_machine_exec.Exec.Resolver.{
  Shells, shell_is_defined, default_or_err, set_up_exec_shell_path,
}
use che_machine_exec.Info.{Remote, start, create_info_exec, output_unless, run}
use che_machine_exec.Info.Laws.{HasOutput, run_iff}

abbrev pub sh_test : List Text
sh_test = codes "sh" ∷ codes "-c" ∷ codes "exit 0" ∷ []

abbrev pub result_unit : Option Text → Result Text Unit
result_unit none = ok tt
result_unit (some e) = err e

abbrev pub shell_option : {A : Type 0} → Result A Text → Option Text
shell_option (err e) = none
shell_option (ok shell) = some shell

-- What `NewCmdResolver` gives to the resolver: the detector and the test, over info execs.
unfoldable pub shells_of : Remote → Text → (ℕ → Bool) → (Text → Option Text) → Shells
unfolding start create_info_exec detect_shell
shells_of remote namespace is_digit parse_url = record {
  detect_shell = λ info. shell_option (detect_shell is_digit (run remote namespace info));
  start_sh = λ info. result_unit (start remote (create_info_exec namespace sh_test info)).0;
  parse_url = parse_url;
}

result_unit-ok : (failure : Option Text) → result_unit failure ≡ ok tt → failure ≡ none
result_unit-ok none h = refl
result_unit-ok (some e) h = absurd (cc h)

shell_option-some :
    {A : Type 0} (r : Result A Text) (shell : Text) → shell_option r ≡ some shell → r ≡ ok shell
shell_option-some (err e) shell h = absurd (cc h)
shell_option-some (ok s) shell h = let same : s ≡ shell = cc h in ap ok same

default_or_err-ok :
    (r : Result Text Unit) (shell : Text)
    → default_or_err r ≡ ok shell
    → (r ≡ ok tt) × (shell ≡ codes "sh")
unfolding default_or_err
default_or_err-ok (ok u) shell h = let same : codes "sh" ≡ shell = cc h in (refl, sym same)
default_or_err-ok (err e) shell h = absurd (cc h)

module _ (remote : Remote) (namespace : Text) (is_digit : ℕ → Bool) (parse_url : Text → Option Text)
    (info : ContainerInfo) (shell : Text) where
  -- The default shell of the user that `id -u` tells, in the lines that `cat /etc/passwd` has written.
  abbrev pub IsDefaultShell : Type 0
  IsDefaultShell =
      (id : Text) × (passwd : Text) × HasOutput remote namespace info (codes "id" ∷ codes "-u" ∷ [])
        id
      × HasOutput remote namespace info (codes "cat" ∷ codes "/etc/passwd" ∷ []) passwd
      × (is_empty shell ≡ false)
      × (shell_is_defined shell ≡ true)
      × ((line : Text) × In line (split b'\n' passwd) × IsLineOf (digits_of is_digit id) shell line)

  -- `sh`, which runs in the container.
  abbrev pub IsTestedSh : Type 0
  IsTestedSh = (shell ≡ codes "sh") × ((out : Text) × HasOutput remote namespace info sh_test out)

  detected-IsDefaultShell :
      detect_shell is_digit (run remote namespace info) ≡ ok shell
      → shell_is_defined shell ≡ true
      → IsDefaultShell
  detected-IsDefaultShell h defined =
      let (id, passwd, e1, e2, digits, full, line) =
        detect_shell_sound is_digit (run remote namespace info) shell h in
      (
        id,
        passwd,
        (run_iff remote namespace info (codes "id" ∷ codes "-u" ∷ []) id).0 e1,
        (run_iff remote namespace info (codes "cat" ∷ codes "/etc/passwd" ∷ []) passwd).0 e2,
        full,
        defined,
        line,
      )

  tested-IsTestedSh :
      default_or_err ((shells_of remote namespace is_digit parse_url).start_sh info) ≡ ok shell
      → IsTestedSh
  unfolding shells_of run
  tested-IsTestedSh h =
      let started = start remote (create_info_exec namespace sh_test info) in
      let (good, same) = default_or_err-ok (result_unit started.0) shell h in
      let quiet = result_unit-ok started.0 good in
      let ran : run remote namespace info sh_test ≡ some started.1.std_out =
        ap (λ f. output_unless f started.1.std_out) quiet in
      (same, (started.1.std_out, (run_iff remote namespace info sh_test started.1.std_out).0 ran))

  -- A shell that the resolver sets up by way of info execs is the last field of a line of the container's
  -- /etc/passwd for the user ID that `id -u` has written there, and does not end in `nologin`; or it is
  -- `sh`, and `sh -c "exit 0"` was run in the container without an error.
  pub set_up_exec_shell_path_sound :
      set_up_exec_shell_path (shells_of remote namespace is_digit parse_url) info ≡ ok shell
      → IsDefaultShell ⊎ IsTestedSh
  unfolding set_up_exec_shell_path shells_of
  set_up_exec_shell_path_sound h =
      let found = shell_option (detect_shell is_digit (run remote namespace info)) in
      elim (Option-cases found) [
        | inl k ↦ inr (tested-IsTestedSh (rw (k, set_up_exec_shell_path) at h))
        | inr (s, k) ↦ elim (Bool-cases (shell_is_defined s)) [
          | inr l ↦ inr (tested-IsTestedSh (rw (k, set_up_exec_shell_path, l) at h))
          | inl l ↦
              let same : ok s ≡ ok shell = rw (k, set_up_exec_shell_path, l) at h in
              let is_shell : s ≡ shell = cc same in
              inl (
                detected-IsDefaultShell
                  (shell_option-some (detect_shell is_digit (run remote namespace info)) shell
                    (k ∙ ap some is_shell))
                  (ap shell_is_defined (sym is_shell) ∙ l))
        ]
      ]
