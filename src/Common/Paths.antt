-- ===== src/Common/Paths.antt =====
-- The part of Go's `path/filepath` that the program uses, for slash-separated paths.
use mathlib.Core.Bool.{Bool, not, ◌||◌}
use mathlib.Core.List.{List, [], ◌∷◌, ◌++◌, reverse}
use che_machine_exec.Common.Tests.{◌==◌, if◌then◌else◌}
use che_machine_exec.Common.Strings.{Text, codes, text_eq, is_empty, has_prefix, split, join}

-- One element of a path; the elements before it are a stack with the last one at its head.
unfoldable pub push_element : Bool → List Text → Text → List Text
unfolding text_eq is_empty
push_element rooted stack element =
    if is_empty element || text_eq element (codes ".")
    then stack
    else if not (text_eq element (codes ".."))
    then element ∷ stack
    else pop stack
  where
    pop : List Text → List Text
    pop [] = if rooted then [] else codes ".." ∷ []
    pop (top ∷ below) = if text_eq top (codes "..") then codes ".." ∷ top ∷ below else below

unfoldable pub push_elements : Bool → List Text → List Text → List Text
unfolding push_element
push_elements rooted stack [] = stack
push_elements rooted stack (e ∷ es) = push_elements rooted (push_element rooted stack e) es

abbrev pub or_dot : Text → Text
or_dot [] = codes "."
or_dot (c ∷ s) = c ∷ s

-- `filepath.Clean`.
unfoldable pub clean : Text → Text
unfolding push_elements split join has_prefix
clean path =
    let rooted = has_prefix path (codes "/") in
    let elements = join (codes "/") (reverse (push_elements rooted [] (split b'/' path))) in
    if rooted then b'/' ∷ elements else or_dot elements

-- `filepath.Join(a, b)`.
unfoldable pub join_path : Text → Text → Text
unfolding clean is_empty
join_path a b =
    if is_empty a
    then (if is_empty b then [] else clean b)
    else if is_empty b
    then clean a
    else clean (a ++ b'/' ∷ b)

-- The path up to its last slash.
unfoldable pub up_to_slash : Text → Text
up_to_slash [] = []
up_to_slash (c ∷ s) = elim (up_to_slash s) [
  | [] ↦ if c == b'/' then c ∷ [] else []
  | x ∷ xs ↦ c ∷ x ∷ xs
]

-- `filepath.Dir`.
unfoldable pub dir : Text → Text
unfolding clean up_to_slash
dir path = clean (up_to_slash path)
