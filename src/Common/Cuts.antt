-- ===== src/Common/Cuts.antt =====
-- Cutting texts: the part of Go's `strings` package that takes texts apart.
use Prim.Native.Nat.{ℕ}
use mathlib.Core.Bool.{true, false}
use mathlib.Core.Option.{Option, none, some}
use mathlib.Core.List.{List, [], ◌∷◌, ◌++◌, reverse}
use che_machine_exec.Common.Tests.{◌==◌, if◌then◌else◌}
use che_machine_exec.Common.Strings.{Text, is_empty, is_space}

-- `strings.CutPrefix(s, p)`: the text behind the prefix, if it is one.
unfoldable pub cut_prefix : Text → Text → Option Text
cut_prefix s [] = some s
cut_prefix [] (_ ∷ _) = none
cut_prefix (x ∷ s) (y ∷ p) = let rest = cut_prefix s p in if x == y then rest else none

-- `strings.TrimPrefix(s, p)`.
unfoldable pub trim_prefix : Text → Text → Text
unfolding cut_prefix
trim_prefix s p = elim (cut_prefix s p) [ none ↦ s | some rest ↦ rest ]

-- `strings.TrimSuffix(s, p)`.
unfoldable pub trim_suffix : Text → Text → Text
unfolding trim_prefix
trim_suffix s p = reverse (trim_prefix (reverse s) (reverse p))

-- `strings.Cut(s, sep)` for a separator of one character.
unfoldable pub cut : ℕ → Text → Option (Text × Text)
cut sep [] = none
cut sep (x ∷ s) = elim (x == sep) [
  | true ↦ some ([], s)
  | false ↦ elim (cut sep s) [ none ↦ none | some (before, behind) ↦ some (x ∷ before, behind) ]
]

-- The text behind the last `sep`, as from `strings.LastIndex`.
unfoldable pub behind_last : ℕ → Text → Option Text
behind_last sep [] = none
behind_last sep (x ∷ s) = elim (behind_last sep s) [
  | some rest ↦ some rest
  | none ↦ if x == sep then some s else none
]

abbrev pub drop_char : ℕ → Text → Text
drop_char c [] = []
drop_char c (x ∷ s) = let rest = drop_char c s in if x == c then rest else x ∷ s

-- `strings.TrimRight(s, c)` for one character.
unfoldable pub trim_right : ℕ → Text → Text
trim_right c s = reverse (drop_char c (reverse s))

-- `strings.Fields(s)`; `word` is the field that is being read.
unfoldable pub fields_from : Text → Text → List Text
unfolding is_empty is_space
fields_from word [] = if is_empty word then [] else word ∷ []
fields_from word (c ∷ s) = elim (is_space c) [
  | false ↦ fields_from (word ++ c ∷ []) s
  | true ↦ let rest = fields_from [] s in if is_empty word then rest else word ∷ rest
]

unfoldable pub fields : Text → List Text
unfolding fields_from
fields s = fields_from [] s
