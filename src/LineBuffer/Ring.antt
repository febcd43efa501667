-- ===== src/LineBuffer/Ring.antt =====
-- The ring refines the list of all lines: it shows the last of them.
use mathlib.Core.List.{append_assoc, append-nil, flatten}
use che_machine_exec.Common.{
  ℕ, zero, suc, ◌-◌, ◌≤◌, ◌<◌, ◌≡◌, refl, sym, subst, ap, ◌∙◌, inl, inr, List, [], ◌∷◌, ◌++◌, map,
  Option, none, some, Text, length, drop, replicate, All, arith, Bool-cases,
}
use che_machine_exec.LineBuffer.{LineRingBuffer, new, put_all, write, content_of, get_content}
use che_machine_exec.LineBuffer.Scan.{
  lines_of, first_line, behind_line, lines_of-nil, lines_of-cons, scan-line, scan-nil,
}
use che_machine_exec.LineBuffer.Content.{ends_line, add_lines, lines_of-append}
use che_machine_exec.LineBuffer.Places.{ring_of, put-ring_of, ends, put_first-Ends}

-- Each line of a text fits in the scanner's buffer with a byte to spare.
abbrev pub IsShort : ℕ → Text → Type 0
IsShort max s = All (λ l. length l < max) (lines_of s)

length-behind_line : (s : Text) → length (behind_line s) ≤ length s
length-behind_line [] = omega arith
length-behind_line (x ∷ xs) = ground (arith, length-behind_line xs)

behind_line_shorter : (x : ℕ) (xs : Text) → length (behind_line (x ∷ xs)) < length (x ∷ xs)
behind_line_shorter x xs = ground (arith, length-behind_line xs)

put_all-ring_of :
    (fuel max n : ℕ) (ls : List Text) (s : Text)
    → IsShort max s
    → length s < fuel
    → put_all fuel max (ring_of (suc n) ls) s ≡ some (ring_of (suc n) (ls ++ lines_of s))
unfolding put_all
put_all-ring_of zero max n ls s h lt = absurd (omega arith)
put_all-ring_of (suc f) max n ls [] h lt =
    rw (scan-nil max, put_all)
      (ap (λ m. some (ring_of (suc n) m)) (sym (ap (λ x. ls ++ x) lines_of-nil ∙ append-nil ls)))
put_all-ring_of (suc f) max n ls (x ∷ xs) h lt =
    let line = first_line (x ∷ xs) in
    let later = behind_line (x ∷ xs) in
    let split = lines_of-cons x xs in
    let short = subst (All (λ l. length l < max)) split h in
    rw (scan-line max x xs short.0, put_all)
      (ap (λ r. put_all f max r later) (put-ring_of n ls line)
        ∙ put_all-ring_of f max n (ls ++ line ∷ []) later short.1
            (omega (arith, behind_line_shorter x xs))
        ∙ ap (λ m. some (ring_of (suc n) m))
            (append_assoc ls (line ∷ []) (lines_of later) ∙ ap (λ m. ls ++ m) (sym split)))

add_lines-cons :
    (ls : List Text) (t : Text) (ts : List Text)
    → add_lines ls (t ∷ ts) ≡ add_lines ls (t ∷ []) ++ ts
add_lines-cons [] t ts = refl
add_lines-cons (l ∷ []) t ts = elim (Bool-cases (ends_line l)) [ inl e ↦ rw e | inr e ↦ rw e ]
add_lines-cons (l ∷ m ∷ ls) t ts = ap (◌∷◌ l) (add_lines-cons (m ∷ ls) t ts)

add_lines-nil : (ls : List Text) → add_lines ls [] ≡ ls
add_lines-nil [] = refl
add_lines-nil (l ∷ []) = refl
add_lines-nil (l ∷ m ∷ ls) = ap (◌∷◌ l) (add_lines-nil (m ∷ ls))

abbrev with_ring : Option (List (Option Text)) → Option LineRingBuffer
with_ring r = elim r [ none ↦ none | some ring ↦ some (record { ring = ring }) ]

pub write-ring_of :
    (max n : ℕ) (ls : List Text) (s : Text)
    → IsShort max s
    → write max (record { ring = ring_of (suc n) ls }) s
      ≡ some (record { ring = ring_of (suc n) (add_lines ls (lines_of s)) })
unfolding write
write-ring_of max n ls [] h =
    rw (scan-nil max, write)
      (ap (λ m. some (record { ring = ring_of (suc n) m }))
        (sym (ap (add_lines ls) lines_of-nil ∙ add_lines-nil ls)))
write-ring_of max n ls (x ∷ xs) h =
    let line = first_line (x ∷ xs) in
    let later = behind_line (x ∷ xs) in
    let split = lines_of-cons x xs in
    let short = subst (All (λ l. length l < max)) split h in
    let first = put_first-Ends n line (ends ls) in
    let rest =
      put_all-ring_of (suc (length later)) max n (add_lines ls (line ∷ [])) later short.1
        (omega arith) in
    rw (scan-line max x xs short.0, write)
      (ap with_ring (ap (λ r. put_all (suc (length later)) max r later) first ∙ rest)
        ∙ ap (λ m. some (record { ring = ring_of (suc n) m }))
            (sym (add_lines-cons ls line (lines_of later)) ∙ ap (add_lines ls) (sym split)))

-- One buffer takes the chunks in order.
abbrev pub write_all : ℕ → LineRingBuffer → List Text → Option LineRingBuffer
write_all max buff [] = some buff
write_all max buff (c ∷ cs) = elim (write max buff c) [
  | none ↦ none
  | some buff' ↦ write_all max buff' cs
]

write_all-ring_of :
    (max n : ℕ) (s : Text) (cs : List Text)
    → All (IsShort max) cs
    → write_all max (record { ring = ring_of (suc n) (lines_of s) }) cs
      ≡ some (record { ring = ring_of (suc n) (lines_of (s ++ flatten cs)) })
unfolding flatten
write_all-ring_of max n s [] h = rw (append-nil s)
write_all-ring_of max n s (c ∷ cs) h =
    rw (write-ring_of max n (lines_of s) c h.0, write_all)
      (rw (← lines_of-append s c)
        (write_all-ring_of max n (s ++ c) cs h.1 ∙ rw (append_assoc s c (flatten cs))))

drop-nil : (d : ℕ) → drop {A = Text} d [] ≡ []
drop-nil zero = refl
drop-nil (suc d) = refl

content_of-ring :
    (n k d : ℕ) (ls : List Text)
    → d ≡ k - n
    → content_of (drop k (replicate n none ++ map some ls)) ≡ flatten (drop d ls)
unfolding content_of flatten
content_of-ring zero zero d [] e = rw (drop-nil d)
content_of-ring zero (suc k) d [] e = rw (drop-nil d)
content_of-ring zero zero zero (l ∷ ls) e = ap (λ x. l ++ x) (content_of-ring zero zero zero ls e)
content_of-ring zero zero (suc d) (l ∷ ls) e = absurd (omega arith)
content_of-ring zero (suc k) zero (l ∷ ls) e = absurd (omega arith)
content_of-ring zero (suc k) (suc d) (l ∷ ls) e = content_of-ring zero k d ls (omega arith)
content_of-ring (suc n) zero d ls e = content_of-ring n zero d ls (omega arith)
content_of-ring (suc n) (suc k) d ls e = content_of-ring n k d ls (omega arith)

-- The buffer shows the text of the last `n + 1` lines of all output, however that output was cut
-- into chunks, as long as no line of a chunk fills the scanner's buffer. A line that a chunk
-- leaves open counts as one line together with its continuation.
pub get_content-last_lines :
    (max n : ℕ) (cs : List Text)
    → All (IsShort max) cs
    → (buff : LineRingBuffer) × (write_all max (new (suc n)) cs ≡ some buff)
      × (get_content buff
          ≡ flatten (drop (length (lines_of (flatten cs)) - suc n) (lines_of (flatten cs))))
unfolding get_content new
get_content-last_lines max n cs h =
    let all = lines_of (flatten cs) in
    let start : ring_of (suc n) (lines_of []) ≡ replicate (suc n) none =
      ap (ring_of (suc n)) lines_of-nil ∙ append-nil {A = Option Text} (replicate (suc n) none) in
    (
      record { ring = ring_of (suc n) all },
      ap (λ r. write_all max (record { ring = r }) cs) (sym start)
          ∙ write_all-ring_of max n [] cs h,
      content_of-ring (suc n) (length all) (length all - suc n) all refl,
    )
