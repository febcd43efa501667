-- ===== src/Shell.antt =====
-- shell/shell_detector.go and shell/shell_info_parser.go: the default shell of a container's user.
-- Commands in the container are a parameter: their output, or `none` when one fails. So is
-- `unicode.IsDigit`.
pub mod Laws
mod Tests
use che_machine_exec.Common.{
  ℕ, Text, codes, text_eq, is_empty, split, Bool, true, false, ◌&&◌, ◌||◌, Option, none, some, List,
  [], ◌∷◌, ◌++◌, Result, ok, err, ◌>>=◌, if◌then◌else◌, leb, length, drop,
}

pub data ShellError : Type 0 where
  command_failed : List Text → ShellError
  no_uid : ShellError
  no_default_shell : ShellError

unfoldable pub digits_of : (ℕ → Bool) → Text → Text
digits_of is_digit [] = []
digits_of is_digit (c ∷ content) =
    let rest = digits_of is_digit content in if is_digit c then c ∷ rest else rest

-- `ParseUID`.
unfoldable pub parse_uid : (ℕ → Bool) → Text → Result ShellError Text
unfolding digits_of is_empty
parse_uid is_digit content =
    let digits = digits_of is_digit content in if is_empty digits then err no_uid else ok digits

-- The expression `.*:.*:<uid>:.*:.*:.*:(.*)` on the fields of a line, where each `.*` may take several
-- of them: the user ID is a field behind two others and before four.
unfoldable pub has_uid : Text → List Text → Bool
unfolding text_eq
has_uid uid [] = false
has_uid uid (f ∷ fields) = (text_eq f uid && leb 4 (length fields)) || has_uid uid fields

-- What the group takes: the last field, since the parts before it take as much as they can.
unfoldable pub last_field : List Text → Text
last_field [] = []
last_field (f ∷ []) = f
last_field (f ∷ g ∷ fields) = last_field (g ∷ fields)

-- The group in the first line that matches; no part of the expression takes a line feed.
unfoldable pub find_group : Text → List Text → Option Text
unfolding has_uid last_field split
find_group uid [] = none
find_group uid (line ∷ lines) =
    if has_uid uid (drop 2 (split b':' line))
    then some (last_field (split b':' line))
    else find_group uid lines

-- `ParseShellFromEtcPassWd`, for a user ID of digits.
unfoldable pub parse_shell_from_etc_passwd : Text → Text → Result ShellError Text
unfolding find_group is_empty
parse_shell_from_etc_passwd content uid = elim (find_group uid (split b'\n' content)) [
  | none ↦ err no_default_shell
  | some shell ↦ if is_empty shell then err no_default_shell else ok shell
]

-- `spawnExecInfo`.
unfoldable pub spawn_exec_info : (List Text → Option Text) → List Text → Result ShellError Text
spawn_exec_info run command = elim (run command) [
  | none ↦ err (command_failed command)
  | some output ↦ ok output
]

unfoldable pub detect_shell : (ℕ → Bool) → (List Text → Option Text) → Result ShellError Text
unfolding spawn_exec_info parse_uid parse_shell_from_etc_passwd
detect_shell is_digit run = do
  id_content ← spawn_exec_info run (codes "id" ∷ codes "-u" ∷ [])
  uid ← parse_uid is_digit id_content
  passwd ← spawn_exec_info run (codes "cat" ∷ codes "/etc/passwd" ∷ [])
  parse_shell_from_etc_passwd passwd uid
