-- ===== src/LineBuffer/Places.antt =====
-- The places of the ring: where the lines stand, and the write of one line.
use mathlib.Core.List.{append-nil}
use che_machine_exec.Common.{
  ℕ, zero, suc, ◌+◌, ◌≤◌, ◌<◌, ◌≡◌, refl, sym, ap, ◌∙◌, inl, inr, List, [], ◌∷◌, ◌++◌, map, Option,
  none, some, Text, if◌then◌else◌, length, drop, replicate, length-append, arith, Bool-cases,
}
use che_machine_exec.LineBuffer.{
  put, prev_value, set_prev_value, should_continue_last_ring, put_first,
}
use che_machine_exec.LineBuffer.Content.{ends_line, add_lines}

-- The ring of `n` places behind the lines `ls`: the last `n` of them, and empty places before
-- them while there are fewer.
abbrev pub ring_of : ℕ → List Text → List (Option Text)
ring_of n ls = drop (length ls) (replicate n none ++ map some ls)

put-drop :
    (k : ℕ) (vs : List (Option Text)) (t : Text)
    → k < length vs
    → put (drop k vs) t ≡ drop (suc k) (vs ++ some t ∷ [])
unfolding put
put-drop k [] t h = absurd (omega arith)
put-drop zero (v ∷ vs) t h = refl
put-drop (suc k) (v ∷ vs) t h = put-drop k vs t (omega arith)

length-full : (n : ℕ) (ls : List Text) → length (replicate n none ++ map some ls) ≡ n + length ls
length-full zero [] = refl
length-full zero (l ∷ ls) = omega (arith, length-full zero ls)
length-full (suc n) ls = omega (arith, length-full n ls)

snoc-full :
    (n : ℕ) (ls : List Text) (t : Text)
    → (replicate n none ++ map some ls) ++ some t ∷ [] ≡ replicate n none ++ map some (ls ++ t ∷ [])
snoc-full zero [] t = refl
snoc-full zero (l ∷ ls) t = ap (◌∷◌ (some l)) (snoc-full zero ls t)
snoc-full (suc n) ls t = ap (◌∷◌ none) (snoc-full n ls t)

length-snoc : (ls : List Text) (t : Text) → length (ls ++ t ∷ []) ≡ suc (length ls)
length-snoc ls t = omega (arith, length-append ls (t ∷ []))

pub put-ring_of :
    (n : ℕ) (ls : List Text) (t : Text)
    → put (ring_of (suc n) ls) t ≡ ring_of (suc n) (ls ++ t ∷ [])
put-ring_of n ls t =
    put-drop (length ls) (replicate (suc n) none ++ map some ls) t
      (omega (arith, length-full (suc n) ls))
    ∙ ap (drop (suc (length ls))) (snoc-full (suc n) ls t)
    ∙ ap (λ k. drop k (replicate (suc n) none ++ map some (ls ++ t ∷ []))) (sym (length-snoc ls t))

prev_value-drop :
    (k : ℕ) (vs : List (Option Text)) (v : Option Text)
    → k ≤ length vs
    → prev_value (drop k (vs ++ v ∷ [])) ≡ v
unfolding prev_value
prev_value-drop zero [] v h = refl
prev_value-drop zero (w ∷ []) v h = refl
prev_value-drop zero (w ∷ x ∷ vs) v h = prev_value-drop zero (x ∷ vs) v (omega arith)
prev_value-drop (suc k) [] v h = absurd (omega arith)
prev_value-drop (suc k) (w ∷ vs) v h = prev_value-drop k vs v (omega arith)

set_prev_value-drop :
    (k : ℕ) (vs : List (Option Text)) (v : Option Text) (t : Text)
    → k ≤ length vs
    → set_prev_value (drop k (vs ++ v ∷ [])) t ≡ drop k (vs ++ some t ∷ [])
unfolding set_prev_value
set_prev_value-drop zero [] v t h = refl
set_prev_value-drop zero (w ∷ []) v t h = refl
set_prev_value-drop zero (w ∷ x ∷ vs) v t h =
    ap (◌∷◌ w) (set_prev_value-drop zero (x ∷ vs) v t (omega arith))
set_prev_value-drop (suc k) [] v t h = absurd (omega arith)
set_prev_value-drop (suc k) (w ∷ vs) v t h = set_prev_value-drop k vs v t (omega arith)

prev_value-replicate : (n : ℕ) → prev_value (replicate n none) ≡ none
unfolding prev_value
prev_value-replicate zero = refl
prev_value-replicate (suc zero) = refl
prev_value-replicate (suc (suc n)) = prev_value-replicate (suc n)

pub data Ends : List Text → Type 0 where
  no_line : Ends []
  last_line : (ls : List Text) (l : Text) {ms : List Text} → ms ≡ ls ++ l ∷ [] → Ends ms

pub ends : (ms : List Text) → Ends ms
ends [] = no_line
ends (m ∷ ms) = elim (ends ms) as (λ (xs : List Text) _. Ends (m ∷ xs)) [
  | no_line ↦ last_line [] m refl
  | last_line ls l e ↦ last_line (m ∷ ls) l (ap (◌∷◌ m) e)
]

add_lines-snoc :
    (ls : List Text) (l t : Text)
    → add_lines (ls ++ l ∷ []) (t ∷ [])
      ≡ (if ends_line l then (ls ++ l ∷ []) ++ t ∷ [] else ls ++ (l ++ t) ∷ [])
add_lines-snoc [] l t = refl
add_lines-snoc (m ∷ []) l t = elim (Bool-cases (ends_line l)) [ inl e ↦ rw e | inr e ↦ rw e ]
add_lines-snoc (m ∷ m' ∷ ls) l t =
    ap (◌∷◌ m) (add_lines-snoc (m' ∷ ls) l t)
    ∙ elim (Bool-cases (ends_line l)) [ inl e ↦ rw e | inr e ↦ rw e ]

put_first-none :
    (ring : List (Option Text)) (t : Text) → prev_value ring ≡ none → put_first ring t ≡ put ring t
unfolding put_first
put_first-none ring t h = rw (h, put_first)

put_first-some :
    (ring : List (Option Text)) (t l : Text)
    → prev_value ring ≡ some l
    → put_first ring t ≡ (if ends_line l then put ring t else set_prev_value ring (l ++ t))
unfolding put_first should_continue_last_ring
put_first-some ring t l h = elim (Bool-cases (ends_line l)) [
  | inl e ↦ rw (h, put_first) (rw e)
  | inr e ↦ rw (h, put_first) (rw e)
]

pub put_first-Ends :
    (n : ℕ) {ls : List Text} (t : Text)
    → Ends ls
    → put_first (ring_of (suc n) ls) t ≡ ring_of (suc n) (add_lines ls (t ∷ []))
put_first-Ends n t no_line =
    put_first-none (ring_of (suc n) []) t (
      ap prev_value (append-nil {A = Option Text} (replicate (suc n) none))
      ∙ prev_value-replicate (suc n))
    ∙ put-ring_of n [] t
put_first-Ends n {ls} t (last_line ms l e) =
    let base : List (Option Text) = replicate (suc n) none ++ map some ms in
    let front : ring_of (suc n) ls ≡ drop (suc (length ms)) (base ++ some l ∷ []) =
      ap (ring_of (suc n)) e
      ∙ ap (λ k. drop k (replicate (suc n) none ++ map some (ms ++ l ∷ []))) (length-snoc ms l)
      ∙ ap (drop (suc (length ms))) (sym (snoc-full (suc n) ms l)) in
    let room : suc (length ms) ≤ length base = omega (arith, length-full (suc n) ms) in
    let last : prev_value (ring_of (suc n) ls) ≡ some l =
      ap prev_value front ∙ prev_value-drop (suc (length ms)) base (some l) room in
    put_first-some (ring_of (suc n) ls) t l last ∙ elim (Bool-cases (ends_line l)) [
      | inl f ↦ rw f (
          put-ring_of n ls t
          ∙ ap (ring_of (suc n)) (
              ap (λ m. m ++ t ∷ []) e
              ∙ sym (add_lines-snoc ms l t ∙ rw f)
              ∙ ap (λ m. add_lines m (t ∷ [])) (sym e)))
      | inr f ↦ rw f (
          ap (λ r. set_prev_value r (l ++ t)) front
          ∙ set_prev_value-drop (suc (length ms)) base (some l) (l ++ t) room
          ∙ ap (drop (suc (length ms))) (snoc-full (suc n) ms (l ++ t))
          ∙ ap (λ k. drop k (replicate (suc n) none ++ map some (ms ++ (l ++ t) ∷ [])))
              (sym (length-snoc ms (l ++ t)))
          ∙ ap (ring_of (suc n))
              (sym (add_lines-snoc ms l t ∙ rw f) ∙ ap (λ m. add_lines m (t ∷ [])) (sym e)))
    ]
