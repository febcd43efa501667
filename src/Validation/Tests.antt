-- ===== src/Validation/Tests.antt =====
-- Runs of the check against shell metacharacters.
use che_machine_exec.Common.{◌≡◌, ◌↔◌, refl, codes, false, none, some, All}
use che_machine_exec.Validation.{validate_no_shell_metacharacters, forbidden}
use che_machine_exec.Validation.Laws.{is_metacharacter, validate_iff}

-- A namespace with a semicolon is refused.
refuses_semicolon :
    validate_no_shell_metacharacters (codes "a;b") (codes "namespace")
    ≡ some (forbidden (codes "namespace") (codes ";"))
unfolding validate_no_shell_metacharacters
refuses_semicolon = refl

free_of_metacharacters :
    (validate_no_shell_metacharacters (codes "a-b") (codes "namespace") ≡ none)
    ↔ All (λ c. is_metacharacter c ≡ false) (codes "a-b")
free_of_metacharacters = validate_iff (codes "a-b") (codes "namespace")
