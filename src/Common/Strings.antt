-- ===== src/Common/Strings.antt =====
-- Go strings as lists of numbers. The functions that follow are the part of Go's `strings` and
-- `slices` packages that the program calls. A text is the list of its code points (for ASCII, its
-- bytes); none of the functions here depends on how a code point is encoded.
use Prim.Native.Nat.{ℕ}
use Prim.Native.Char.{code}
use Prim.Native.String.{String}
use mathlib.Core.Path.{◌≡◌, refl}
use mathlib.Core.Logic.{◌↔◌}
use mathlib.Core.Bool.{Bool, true, false, ◌&&◌, ◌||◌}
use mathlib.Core.List.{List, [], ◌∷◌, ◌++◌, reverse}
use native.Mathlib.Omega.{arith}
use che_machine_exec.Common.Tests.{leb, ◌==◌, if◌then◌else◌}
use che_machine_exec.Common.Lists.{In}

abbrev pub Text : Type 0
Text = List ℕ

-- The code points of a literal.
abbrev pub codes : String → Text
codes String.[] = []
codes (String.◌∷◌ c s) = code c ∷ codes s

-- `==` on strings.
unfoldable pub text_eq : Text → Text → Bool
text_eq [] [] = true
text_eq (x ∷ xs) (y ∷ ys) = x == y && text_eq xs ys
text_eq _ _ = false

pub text_eq_iff : (a b : Text) → (text_eq a b ≡ true) ↔ (a ≡ b)
unfolding text_eq
text_eq_iff (x ∷ a) (y ∷ b) = ground (arith, text_eq_iff a b)
text_eq_iff _ _ = ground arith

pub text_eq_refl : (a : Text) → text_eq a a ≡ true
text_eq_refl a = (text_eq_iff a a).1 refl

-- `s == ""`.
unfoldable pub is_empty : Text → Bool
is_empty [] = true
is_empty (_ ∷ _) = false

-- `strings.HasPrefix(s, p)`.
unfoldable pub has_prefix : Text → Text → Bool
has_prefix s [] = true
has_prefix [] (_ ∷ _) = false
has_prefix (x ∷ xs) (y ∷ ys) = x == y && has_prefix xs ys

-- `strings.HasSuffix(s, p)`: `p` is one of the ends of `s`.
unfoldable pub has_suffix : Text → Text → Bool
unfolding text_eq
has_suffix [] p = text_eq [] p
has_suffix (x ∷ xs) p = text_eq (x ∷ xs) p || has_suffix xs p

-- `strings.Contains(s, sub)`.
unfoldable pub contains : Text → Text → Bool
unfolding has_prefix
contains [] sub = has_prefix [] sub
contains (x ∷ xs) sub = has_prefix (x ∷ xs) sub || contains xs sub

-- `slices.Contains(l, s)`.
unfoldable pub slices_contains : List Text → Text → Bool
slices_contains [] s = false
slices_contains (x ∷ xs) s = text_eq x s || slices_contains xs s

pub slices_contains_iff : (l : List Text) (s : Text) → (slices_contains l s ≡ true) ↔ In s l
unfolding slices_contains
slices_contains_iff [] s = (λ h. cc, λ h. absurd h)
slices_contains_iff (x ∷ l) s = ground (arith, text_eq_iff x s, slices_contains_iff l s)

-- `unicode.IsSpace`.
unfoldable pub is_space : ℕ → Bool
is_space c =
    (leb 9 c && leb c 13)
    || c == 32
    || c == 0x85
    || c == 0xa0
    || c == 0x1680
    || (leb 0x2000 c && leb c 0x200a)
    || c == 0x2028
    || c == 0x2029
    || c == 0x202f
    || c == 0x205f
    || c == 0x3000

unfoldable pub trim_left : Text → Text
unfolding is_space
trim_left [] = []
trim_left (x ∷ xs) = if is_space x then trim_left xs else x ∷ xs

-- `strings.TrimSpace`.
unfoldable pub trim_space : Text → Text
unfolding trim_left
trim_space s = reverse (trim_left (reverse (trim_left s)))

unfoldable pub cons_piece : ℕ → List Text → List Text
cons_piece x [] = (x ∷ []) ∷ []
cons_piece x (p ∷ ps) = (x ∷ p) ∷ ps

-- `strings.Split(s, sep)` for a separator of one character.
unfoldable pub split : ℕ → Text → List Text
unfolding cons_piece
split sep [] = [] ∷ []
split sep (x ∷ xs) = let rest = split sep xs in if x == sep then [] ∷ rest else cons_piece x rest

-- `strings.Join(parts, sep)`.
unfoldable pub join : Text → List Text → Text
join sep [] = []
join sep (p ∷ []) = p
join sep (p ∷ q ∷ ps) = p ++ (sep ++ join sep (q ∷ ps))
