-- ===== src/LineBuffer/Content.antt =====
-- The ring refines the list of all lines: it shows the last of them.
use mathlib.Core.List.{flatten}
use che_machine_exec.Common.{
  ℕ, ◌≡◌, refl, sym, ap, ◌∙◌, inl, inr, Bool, true, false, List, [], ◌∷◌, ◌++◌, Text, codes,
  text_eq, has_suffix, if◌then◌else◌, ◌==◌, arith, Bool-cases,
}
use che_machine_exec.LineBuffer.Scan.{lines_of, cons_first}

abbrev pub ends_line : Text → Bool
ends_line l = has_suffix l (codes "\n")

-- What the lines become when more lines arrive: an open last line is continued.
abbrev pub add_lines : List Text → List Text → List Text
add_lines [] ts = ts
add_lines (l ∷ []) [] = l ∷ []
add_lines (l ∷ []) (t ∷ ts) = if ends_line l then l ∷ t ∷ ts else (l ++ t) ∷ ts
add_lines (l ∷ m ∷ ls) ts = l ∷ add_lines (m ∷ ls) ts

ends_line-cons : (x y : ℕ) (l : Text) → ends_line (x ∷ y ∷ l) ≡ ends_line (y ∷ l)
unfolding has_suffix text_eq
ends_line-cons x y l = ground arith

ends_line-one : (x : ℕ) → ends_line (x ∷ []) ≡ (x == b'\n')
unfolding has_suffix text_eq
ends_line-one x = ground arith

flatten-cons_first : (x : ℕ) (ls : List Text) → flatten (cons_first x ls) ≡ x ∷ flatten ls
unfolding flatten
flatten-cons_first x [] = refl
flatten-cons_first x (l ∷ ls) = refl

pub flatten-lines_of : (s : Text) → flatten (lines_of s) ≡ s
unfolding flatten lines_of
flatten-lines_of [] = refl
flatten-lines_of (x ∷ xs) = elim (Bool-cases (x == b'\n')) [
  | inl e ↦ rw e (ap (◌∷◌ x) (flatten-lines_of xs))
  | inr e ↦ rw e (flatten-cons_first x (lines_of xs) ∙ ap (◌∷◌ x) (flatten-lines_of xs))
]

-- Splitting a text in two does not change its lines.
add_lines-cons_first :
    (x y : ℕ) (l : Text) (ls ts : List Text)
    → add_lines (cons_first x ((y ∷ l) ∷ ls)) ts ≡ cons_first x (add_lines ((y ∷ l) ∷ ls) ts)
add_lines-cons_first x y l [] [] = refl
add_lines-cons_first x y l [] (t ∷ ts) = elim (Bool-cases (ends_line (y ∷ l))) [
  | inl e ↦ rw (ends_line-cons x y l, e)
  | inr e ↦ rw (ends_line-cons x y l, e)
]
add_lines-cons_first x y l (m ∷ ls) ts = refl

cons_first_front :
    (x : ℕ) (ls : List Text) → (l : Text) × (ms : List Text) × (cons_first x ls ≡ (x ∷ l) ∷ ms)
cons_first_front x [] = ([], [], refl)
cons_first_front x (l ∷ ls) = (l, ls, refl)

lines_of_front :
    (y : ℕ) (s : Text) → (l : Text) × (ls : List Text) × (lines_of (y ∷ s) ≡ (y ∷ l) ∷ ls)
unfolding lines_of
lines_of_front y s = elim (Bool-cases (y == b'\n')) [
  | inl e ↦ ([], lines_of s, rw e)
  | inr e ↦ rw e (cons_first_front y (lines_of s))
]

lines_of-newline :
    (x : ℕ) (xs : Text) → (x == b'\n') ≡ true → lines_of (x ∷ xs) ≡ (x ∷ []) ∷ lines_of xs
unfolding lines_of
lines_of-newline x xs e = rw e

lines_of_other :
    (x : ℕ) (xs : Text) → (x == b'\n') ≡ false → lines_of (x ∷ xs) ≡ cons_first x (lines_of xs)
unfolding lines_of
lines_of_other x xs e = rw e

add_lines-nil : (ls : List Text) → add_lines ls [] ≡ ls
add_lines-nil [] = refl
add_lines-nil (l ∷ []) = refl
add_lines-nil (l ∷ m ∷ ls) = ap (◌∷◌ l) (add_lines-nil (m ∷ ls))

add_lines_first :
    (x y : ℕ) (t : Text) → lines_of (x ∷ y ∷ t) ≡ add_lines (lines_of (x ∷ [])) (lines_of (y ∷ t))
add_lines_first x y t =
    let (l, ls, front) = lines_of_front y t in
    elim (Bool-cases (x == b'\n')) [
      | inl e ↦
          rw (lines_of-newline x (y ∷ t) e, lines_of-newline x [] e, front)
            (unfold lines_of in rw (ends_line-one x, e))
      | inr e ↦
          rw (lines_of_other x (y ∷ t) e, lines_of_other x [] e, front)
            (unfold lines_of in rw (ends_line-one x, e))
    ]

pub lines_of-append : (s t : Text) → lines_of (s ++ t) ≡ add_lines (lines_of s) (lines_of t)
lines_of-append [] t = unfold lines_of in refl
lines_of-append (x ∷ []) [] = unfold lines_of in sym (add_lines-nil (lines_of (x ∷ [])))
lines_of-append (x ∷ []) (y ∷ t) = add_lines_first x y t
lines_of-append (x ∷ y ∷ s) t =
    let (l, ls, front) = lines_of_front y s in
    let ih = lines_of-append (y ∷ s) t in
    elim (Bool-cases (x == b'\n')) [
      | inl e ↦
          lines_of-newline x (y ∷ (s ++ t)) e
          ∙ ap (◌∷◌ (x ∷ [])) (ih ∙ ap (λ m. add_lines m (lines_of t)) front)
          ∙ ap (λ m. add_lines ((x ∷ []) ∷ m) (lines_of t)) (sym front)
          ∙ ap (λ m. add_lines m (lines_of t)) (sym (lines_of-newline x (y ∷ s) e))
      | inr e ↦
          lines_of_other x (y ∷ (s ++ t)) e
          ∙ ap (cons_first x) (ih ∙ ap (λ m. add_lines m (lines_of t)) front)
          ∙ sym (add_lines-cons_first x y l ls (lines_of t))
          ∙ ap (λ m. add_lines (cons_first x m) (lines_of t)) (sym front)
          ∙ ap (λ m. add_lines m (lines_of t)) (sym (lines_of_other x (y ∷ s) e))
    ]
