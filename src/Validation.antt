-- ===== src/Validation.antt =====
-- api/validation/input_validator.go: the check of user input against shell metacharacters.
use che_machine_exec.Common.{
  ℕ, Text, codes, is_empty, contains, Bool, true, false, List, [], ◌∷◌, Option, none, some,
  if◌then◌else◌,
}
pub mod Laws
mod Tests

-- `fmt.Errorf("%s contains forbidden character %q", fieldName, char)`.
pub data Forbidden : Type 0 where
  forbidden : Text → Text → Forbidden

abbrev pub dangerous_chars : List Text
dangerous_chars =
    codes "$"
    ∷ codes "`"
    ∷ codes ";"
    ∷ codes "|"
    ∷ codes "&"
    ∷ codes ">"
    ∷ codes "<"
    ∷ codes "\n"
    ∷ codes "\r"
    ∷ codes "\""
    ∷ codes "'"
    ∷ codes "\\"
    ∷ codes "!"
    ∷ codes "*"
    ∷ codes "?"
    ∷ codes "["
    ∷ codes "]"
    ∷ codes "{"
    ∷ codes "}"
    ∷ codes "("
    ∷ codes ")"
    ∷ []

-- The loop over the characters, with its early return.
unfoldable pub check_chars : List Text → Text → Text → Option Forbidden
check_chars [] value field_name = none
check_chars (char ∷ chars) value field_name =
    if contains value char
    then some (forbidden field_name char)
    else check_chars chars value field_name

-- `none` is the `nil` error.
unfoldable pub validate_no_shell_metacharacters : Text → Text → Option Forbidden
unfolding is_empty check_chars contains
validate_no_shell_metacharacters value field_name =
    if is_empty value then none else check_chars dangerous_chars value field_name
