-- ===== src/Watcher/Sources.antt =====
-- timeout/activity_source.go: the selection of activity sources. A source is represented by its
-- name; what its scan finds is in `Loop`.
pub mod Laws
use che_machine_exec.Common.{
  ℕ, Text, codes, text_eq, is_empty, trim_space, split, slices_contains, Bool, true, false, not,
  ◌&&◌, ◌||◌, List, [], ◌∷◌, ◌++◌, Option, none, some, if◌then◌else◌, leb, ◌==◌,
}
use che_machine_exec.Watcher.Config.{Folding}

-- `activitySourceSelector`.
pub record Selector : Type 0 where
  pub name : Text
  pub enabled : Bool

-- `^[A-Za-z0-9._/@#$&-]+$`.
abbrev pub is_name_char : ℕ → Bool
is_name_char c =
    (leb b'A' c && leb c b'Z')
    || (leb b'a' c && leb c b'z')
    || (leb b'0' c && leb c b'9')
    || c == b'.'
    || c == b'_'
    || c == b'/'
    || c == b'@'
    || c == b'#'
    || c == b'$'
    || c == b'&'
    || c == b'-'

unfoldable pub all_name_chars : Text → Bool
all_name_chars [] = true
all_name_chars (c ∷ cs) = is_name_char c && all_name_chars cs

unfoldable pub is_valid_name : Text → Bool
unfolding is_empty all_name_chars
is_valid_name s = not (is_empty s) && all_name_chars s

-- The switch over a flag that is not empty; `none` drops the entry.
unfoldable pub parse_flag : Folding → Text → Option Bool
unfolding text_eq trim_space
parse_flag fold flag =
    let f = fold.to_lower (trim_space flag) in
    if text_eq f (codes "enabled") || text_eq f (codes "true")
    then some true
    else if text_eq f (codes "disabled") || text_eq f (codes "false")
    then some false
    else none

unfoldable pub parse_entry : Folding → Text → Text → Option Selector
unfolding is_valid_name parse_flag is_empty trim_space
parse_entry fold name_part flag_part =
    let name = fold.to_lower (trim_space name_part) in
    if not (is_valid_name name)
    then none
    else if is_empty flag_part
    then some (record { name = name; enabled = true })
    else elim (parse_flag fold flag_part) [
      | none ↦ none
      | some enabled ↦ some (record { name = name; enabled = enabled })
    ]

-- `switch len(parts)`.
unfoldable pub parse_parts : Folding → List Text → Option Selector
unfolding parse_entry
parse_parts fold (name_part ∷ []) = parse_entry fold name_part []
parse_parts fold (name_part ∷ flag_part ∷ []) = parse_entry fold name_part flag_part
parse_parts fold _ = none

-- One token of the list, up to the test for duplicates; `none` is a `continue`.
unfoldable pub parse_token : Folding → Text → Option Selector
unfolding parse_parts is_empty trim_space split
parse_token fold token =
    if is_empty (trim_space token) then none else parse_parts fold (split b':' (trim_space token))

-- The loop; `seen` holds the names of the entries before.
unfoldable pub parse_tokens : Folding → List Text → List Text → List Selector
unfolding parse_token slices_contains
parse_tokens fold seen [] = []
parse_tokens fold seen (token ∷ tokens) = elim (parse_token fold token) [
  | none ↦ parse_tokens fold seen tokens
  | some s ↦
      if slices_contains seen s.name
      then parse_tokens fold seen tokens
      else s ∷ parse_tokens fold (s.name ∷ seen) tokens
]

unfoldable pub parse_activity_sources_env : Folding → Text → List Selector
unfolding parse_tokens split
parse_activity_sources_env fold raw = parse_tokens fold [] (split b',' raw)

-- `byName[name]`: a later source with the same name replaces an earlier one.
unfoldable pub by_name : Folding → List Text → Text → Option Text
unfolding text_eq
by_name fold [] name = none
by_name fold (src ∷ all) name = elim (by_name fold all name) [
  | some later ↦ some later
  | none ↦ if text_eq (fold.to_lower src) name then some src else none
]

-- The explicit pass: active sources in the admin's order, and the unknown names it warns of.
unfoldable pub explicit_pass : Folding → List Text → List Selector → List Text × List Text
unfolding by_name
explicit_pass fold all [] = ([], [])
explicit_pass fold all (sel ∷ sels) =
    let (active, warnings) = explicit_pass fold all sels in
    elim (by_name fold all sel.name) [
      | none ↦ (active, sel.name ∷ warnings)
      | some src ↦ if sel.enabled then (src ∷ active, warnings) else (active, warnings)
    ]

unfoldable pub is_mentioned : List Selector → Text → Bool
unfolding text_eq
is_mentioned [] name = false
is_mentioned (sel ∷ sels) name = text_eq sel.name name || is_mentioned sels name

-- `defaultOnActivitySources`.
abbrev pub is_default_on : Text → Bool
is_default_on name = text_eq name (codes "tty")

-- The implicit pass: sources that are on by default and not mentioned.
unfoldable pub implicit_pass : Folding → List Selector → List Text → List Text
unfolding is_mentioned text_eq
implicit_pass fold sels [] = []
implicit_pass fold sels (src ∷ all) =
    let later = implicit_pass fold sels all in
    if is_mentioned sels (fold.to_lower src)
    then later
    else if is_default_on (fold.to_lower src)
    then src ∷ later
    else later

unfoldable pub resolve_active_activity_sources :
    Folding → List Text → List Selector → List Text × List Text
unfolding explicit_pass implicit_pass
resolve_active_activity_sources fold all sels =
    let (active, warnings) = explicit_pass fold all sels in
    (active ++ implicit_pass fold sels all, warnings)
