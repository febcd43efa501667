-- ===== src/Validation/Laws.antt =====
-- What a validated value is free of, and what an error reports.
use che_machine_exec.Common.{
  ℕ, ◌≡◌, refl, ◌↔◌, inl, inr, ◌||◌, Text, codes, has_prefix, contains, Bool, false, List, [], ◌∷◌,
  none, arith, ◌==◌, All, Bool-cases,
}
use che_machine_exec.Validation.{check_chars, validate_no_shell_metacharacters}

abbrev pub mem_char : Text → ℕ → Bool
mem_char [] c = false
mem_char (d ∷ ds) c = c == d || mem_char ds c

-- A character that a shell reads as more than itself, or that starts a new command.
abbrev metacharacters : Text
metacharacters = codes "$`;|&><\n\r\"'\\!*?[]{}()"

abbrev pub is_metacharacter : ℕ → Bool
is_metacharacter = mem_char metacharacters

abbrev singles : Text → List Text
singles [] = []
singles (d ∷ ds) = (d ∷ []) ∷ singles ds

-- No character of `s` is one of `ds`.
abbrev pub IsFree : Text → Text → Type 0
IsFree ds s = All (λ c. mem_char ds c ≡ false) s

IsFree-nil : (s : Text) → IsFree [] s
IsFree-nil [] = tt
IsFree-nil (x ∷ s) = (refl, IsFree-nil s)

contains-IsFree :
    (d : ℕ) (ds s : Text) → contains s (d ∷ []) ≡ false → IsFree ds s → IsFree (d ∷ ds) s
unfolding contains has_prefix
contains-IsFree d ds [] h k = tt
contains-IsFree d ds (x ∷ s) h k = (ground arith, contains-IsFree d ds s (ground arith) k.1)

IsFree-contains :
    (d : ℕ) (ds s : Text) → IsFree (d ∷ ds) s → (contains s (d ∷ []) ≡ false) × IsFree ds s
unfolding contains has_prefix
IsFree-contains d ds [] k = (refl, tt)
IsFree-contains d ds (x ∷ s) k =
    let rest = IsFree-contains d ds s k.1 in (ground arith, (ground arith, rest.1))

check_chars_iff : (ds s f : Text) → (check_chars (singles ds) s f ≡ none) ↔ IsFree ds s
unfolding check_chars
check_chars_iff [] s f = (λ _. IsFree-nil s, λ _. refl)
check_chars_iff (d ∷ ds) s f = (
  λ h. elim (Bool-cases (contains s (d ∷ []))) [
    | inl e ↦ absurd (ground arith)
    | inr e ↦ contains-IsFree d ds s e ((check_chars_iff ds s f).0 (rw e at h))
  ],
  λ k. let (e, free) = IsFree-contains d ds s k in rw e ((check_chars_iff ds s f).1 free),
)

-- The check accepts a value, under any field name, exactly when no character of the value is a
-- shell metacharacter.
pub validate_iff :
    (value field_name : Text)
    → (validate_no_shell_metacharacters value field_name ≡ none)
      ↔ All (λ c. is_metacharacter c ≡ false) value
unfolding validate_no_shell_metacharacters
validate_iff [] field_name = (λ _. tt, λ _. refl)
validate_iff (c ∷ value) field_name = check_chars_iff metacharacters (c ∷ value) field_name
