-- ===== src/LineBuffer/Scan.antt =====
-- The scanner cuts a text into its lines, each with its newline.
use che_machine_exec.Common.{
  ℕ, zero, suc, ◌<◌, ◌≡◌, refl, sym, ap, ◌∙◌, inl, inr, Bool, true, false, List, [], ◌∷◌, Option,
  none, some, Text, if◌then◌else◌, ltb, ◌==◌, length, take, drop, arith, Bool-cases, Option-cases,
}
use che_machine_exec.LineBuffer.{index_byte, scan_lines_no_drop_cr, taken, scan}

abbrev pub cons_first : ℕ → List Text → List Text
cons_first x [] = (x ∷ []) ∷ []
cons_first x (l ∷ ls) = (x ∷ l) ∷ ls

-- The lines of a text, each with its newline; the last one may lack it.
unfoldable pub lines_of : Text → List Text
lines_of [] = []
lines_of (x ∷ xs) =
    let later = lines_of xs in if x == b'\n' then (x ∷ []) ∷ later else cons_first x later

-- The first line and what follows it.
abbrev pub first_line : Text → Text
first_line [] = []
first_line (x ∷ xs) = if x == b'\n' then x ∷ [] else x ∷ first_line xs

abbrev pub behind_line : Text → Text
behind_line [] = []
behind_line (x ∷ xs) = if x == b'\n' then xs else behind_line xs

pub lines_of-nil : lines_of [] ≡ []
unfolding lines_of
lines_of-nil = refl

pub lines_of-cons :
    (x : ℕ) (xs : Text) → lines_of (x ∷ xs) ≡ first_line (x ∷ xs) ∷ lines_of (behind_line (x ∷ xs))
unfolding lines_of
lines_of-cons x [] = ground arith
lines_of-cons x (y ∷ xs) = ground (arith, lines_of-cons y xs)

-- A newline that the scanner sees ends the first line.
index_byte-some :
    (n : ℕ) (xs : Text) (i : ℕ)
    → index_byte (take n xs) b'\n' ≡ some i
    → (take (suc i) (take n xs) ≡ first_line xs) × (drop (suc i) xs ≡ behind_line xs)
unfolding index_byte
index_byte-some zero xs i h = absurd (cc h)
index_byte-some (suc n) [] i h = absurd (cc h)
index_byte-some (suc n) (x ∷ xs) i h = elim (Bool-cases (x == b'\n')) [
  | inl e ↦ ground arith
  | inr e ↦ elim (Option-cases (index_byte (take n xs) b'\n')) [
    | inl p ↦ absurd (ground arith)
    | inr (j, p) ↦
        let found = index_byte-some n xs j p in
        let at : suc j ≡ i = ground arith in rw (e, ← at) (ap (◌∷◌ x) found.0, found.1)
  ]
]

-- If it sees none in a text whose first line is short, the text is that line.
index_byte-none :
    (n : ℕ) (xs : Text)
    → length (first_line xs) < n
    → index_byte (take n xs) b'\n' ≡ none
    → (take n xs ≡ xs) × (first_line xs ≡ xs) × (behind_line xs ≡ [])
unfolding index_byte
index_byte-none zero xs lt h = absurd (omega arith)
index_byte-none (suc n) [] lt h = (refl, refl, refl)
index_byte-none (suc n) (x ∷ xs) lt h = elim (Bool-cases (x == b'\n')) [
  | inl e ↦ absurd (ground arith)
  | inr e ↦ elim (Option-cases (index_byte (take n xs) b'\n')) [
    | inr (j, p) ↦ absurd (ground arith)
    | inl p ↦
        let rest = index_byte-none n xs (ground arith) p in
        rw e (ap (◌∷◌ x) rest.0, ap (◌∷◌ x) rest.1, rest.2)
  ]
]

scan_lines-some :
    (d : ℕ) (ds : Text) (at_eof : Bool) (i : ℕ)
    → index_byte (d ∷ ds) b'\n' ≡ some i
    → scan_lines_no_drop_cr (d ∷ ds) at_eof
      ≡ record { advance = suc i; token = some (take (suc i) (d ∷ ds)) }
unfolding scan_lines_no_drop_cr
scan_lines-some d ds true i h = rw (h, scan_lines_no_drop_cr)
scan_lines-some d ds false i h = rw (h, scan_lines_no_drop_cr)

scan_lines-none :
    (d : ℕ) (ds : Text)
    → index_byte (d ∷ ds) b'\n' ≡ none
    → scan_lines_no_drop_cr (d ∷ ds) true
      ≡ record { advance = length (d ∷ ds); token = some (d ∷ ds) }
unfolding scan_lines_no_drop_cr
scan_lines-none d ds h = rw (h, scan_lines_no_drop_cr)

drop-length : (xs : Text) → drop (length xs) xs ≡ []
drop-length [] = refl
drop-length (x ∷ xs) = drop-length xs

some_pair :
    {a a' b b' : Text}
    → a ≡ a'
    → b ≡ b'
    → ◌≡◌ {A = Option (Text × Text)} (some (a, b)) (some (a', b'))
some_pair p q = cc

-- A text with a first line shorter than the buffer gives that line.
pub scan-line :
    (max : ℕ) (x : ℕ) (xs : Text)
    → length (first_line (x ∷ xs)) < max
    → scan max (x ∷ xs) ≡ some (first_line (x ∷ xs), behind_line (x ∷ xs))
unfolding scan taken
scan-line zero x xs h = absurd (omega arith)
scan-line (suc max) x xs h = elim (Option-cases (index_byte (x ∷ take max xs) b'\n')) [
  | inl p ↦
      let (all, line, behind) = index_byte-none (suc max) (x ∷ xs) h p in
      let size : ltb (length (x ∷ xs)) (suc max) ≡ true =
        ground (arith, ap (length {A = ℕ}) line) in
      ap (λ t. taken t (x ∷ xs))
        (ap (scan_lines_no_drop_cr (x ∷ take max xs)) size ∙ scan_lines-none x (take max xs) p)
      ∙ some_pair (all ∙ sym line)
          (ap (λ t. drop (length t) (x ∷ xs)) all ∙ drop-length (x ∷ xs) ∙ sym behind)
  | inr (i, p) ↦
      let found = index_byte-some (suc max) (x ∷ xs) i p in
      ap (λ t. taken t (x ∷ xs))
        (scan_lines-some x (take max xs) (ltb (length (x ∷ xs)) (suc max)) i p)
      ∙ some_pair found.0 found.1
]

scan_lines-nil : (b : Bool) → taken (scan_lines_no_drop_cr [] b) [] ≡ none
unfolding taken scan_lines_no_drop_cr index_byte
scan_lines-nil true = refl
scan_lines-nil false = refl

pub scan-nil : (max : ℕ) → scan max [] ≡ none
unfolding scan
scan-nil zero = scan_lines-nil (ltb 0 0)
scan-nil (suc max) = scan_lines-nil (ltb 0 (suc max))
