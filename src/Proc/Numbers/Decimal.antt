-- ===== src/Proc/Numbers/Decimal.antt =====
-- Reading an integer back that was written in decimal.
use che_machine_exec.Common.{
  ℕ, zero, suc, ◌+◌, ◌-◌, ◌*◌, ◌/◌, ◌%◌, ◌^◌, ◌<◌, ◌≡◌, refl, sym, ◌∙◌, ap, inl, inr, Text,
  is_space, trim_left, true, false, some, [], ◌∷◌, ◌++◌, if◌then◌else◌, ltb, ◌==◌, All, All-append,
  arith, is_empty, Bool-cases,
}
use che_machine_exec.Common.Int.{ℤ, pos, negsuc}
use che_machine_exec.Proc.Numbers.{is_digit, read_digits, scan_digits, scan_int}

abbrev digit : ℕ → ℕ
digit n = b'0' + n % 10

unfoldable digits : ℕ → ℕ → Text
digits zero n = []
digits (suc fuel) n =
    let front = digits fuel (n / 10) in if ltb n 10 then digit n ∷ [] else front ++ digit n ∷ []

-- A number in decimal; the fuel is enough for its digits.
unfoldable pub print_nat : ℕ → Text
unfolding digits is_empty
print_nat n = digits (suc n) n

unfoldable pub print_int : ℤ → Text
unfolding print_nat
print_int (pos n) = print_nat n
print_int (negsuc n) = b'-' ∷ print_nat (suc n)

abbrev pub AreDigits : Text → Type 0
AreDigits s = All (λ c. is_digit c ≡ true) s

AreDigits-digits : (fuel n : ℕ) → AreDigits (digits fuel n)
unfolding digits is_empty
AreDigits-digits zero n = tt
AreDigits-digits (suc fuel) n = elim (Bool-cases (ltb n 10)) [
  | inl e ↦ rw (e, All) (ground arith, tt)
  | inr e ↦
      rw (e, All)
        (All-append (λ c. is_digit c ≡ true) (digits fuel (n / 10)) (digit n ∷ [])
          (AreDigits-digits fuel (n / 10)) (ground arith, tt))
]

read_digits-append :
    (acc : ℕ) (s : Text) (c : ℕ)
    → AreDigits s
    → is_digit c ≡ true
    → read_digits acc (s ++ c ∷ []) ≡ read_digits acc s * 10 + (c - b'0')
unfolding read_digits
read_digits-append acc [] c h k = rw (k, read_digits) refl
read_digits-append acc (x ∷ s) c h k =
    rw (h.0, read_digits) (read_digits-append (acc * 10 + (x - b'0')) s c h.1 k)

read_digits-digits : (fuel n : ℕ) → n < fuel → read_digits 0 (digits fuel n) ≡ n
unfolding digits read_digits
read_digits-digits zero n lt = absurd (omega arith)
read_digits-digits (suc fuel) n lt = elim (Bool-cases (ltb n 10)) [
  | inl e ↦ rw (e, read_digits) (ground arith)
  | inr e ↦
      rw
        (
          e,
          read_digits-append 0 (digits fuel (n / 10)) (digit n) (AreDigits-digits fuel (n / 10))
              (ground arith),
          read_digits-digits fuel (n / 10) (ground arith),
        )
        (omega arith)
]

-- What `print_nat` writes is not empty and starts with a digit.
digits-nonempty :
    (fuel n : ℕ) → (c : ℕ) × (s : Text) × (digits (suc fuel) n ≡ c ∷ s) × AreDigits (c ∷ s)
unfolding digits is_empty
digits-nonempty fuel n = starts (digits (suc fuel) n) (AreDigits-digits (suc fuel) n) nonempty
  where
    snoc_nonempty : (xs : Text) (c : ℕ) → is_empty (xs ++ c ∷ []) ≡ false
    snoc_nonempty [] c = refl
    snoc_nonempty (x ∷ xs) c = refl

    nonempty : is_empty (digits (suc fuel) n) ≡ false
    nonempty = elim (Bool-cases (ltb n 10)) [
      | inl e ↦ rw (e, is_empty) refl
      | inr e ↦ rw (e, is_empty) (snoc_nonempty (digits fuel (n / 10)) (digit n))
    ]

    starts :
        (t : Text)
        → AreDigits t
        → is_empty t ≡ false
        → (c : ℕ) × (s : Text) × (t ≡ c ∷ s) × AreDigits (c ∷ s)
    starts [] h k = absurd (cc k)
    starts (c ∷ s) h k = (c, s, refl, h)

scan_digits-print_nat : (n : ℕ) → scan_digits (print_nat n) ≡ some n
unfolding scan_digits print_nat
scan_digits-print_nat n =
    let (c, s, e, h) = digits-nonempty n n in
    let back : read_digits 0 (c ∷ s) ≡ n =
      ap (read_digits 0) (sym e) ∙ read_digits-digits (suc n) n (omega arith) in
    rw (e, scan_digits, h.0, back) refl

digit_plain :
    (c : ℕ)
    → is_digit c ≡ true
    → (is_space c ≡ false) × ((c == b'-') ≡ false) × ((c == b'+') ≡ false)
unfolding is_space
digit_plain c h = ground arith

-- No space and no closing parenthesis.
abbrev pub IsPlain : Text → Type 0
IsPlain f = All (λ c. (is_space c ≡ false) × ((c == b')') ≡ false)) f

AreDigits-IsPlain : (s : Text) → AreDigits s → IsPlain s
unfolding is_space
AreDigits-IsPlain [] h = tt
AreDigits-IsPlain (c ∷ s) h =
    ((let d = h.0 in (ground arith, ground arith)), AreDigits-IsPlain s h.1)

pub print_int-IsPlain : (i : ℤ) → (is_empty (print_int i) ≡ false) × IsPlain (print_int i)
unfolding print_int print_nat is_empty is_space
print_int-IsPlain (pos n) =
    let (c, s, e, h) = digits-nonempty n n in
    (rw (e, is_empty) refl, AreDigits-IsPlain (digits (suc n) n) (AreDigits-digits (suc n) n))
print_int-IsPlain (negsuc n) = (
  refl,
  (
    (refl, refl),
    AreDigits-IsPlain (digits (suc (suc n)) (suc n)) (AreDigits-digits (suc (suc n)) (suc n)),
  ),
)

-- An int64, written in decimal.
abbrev pub IsInt64 : ℤ → Type 0
IsInt64 (pos n) = n < 2 ^ 63
IsInt64 (negsuc n) = n < 2 ^ 63

-- An int64 that is written in decimal is read back.
pub scan_int-print_int : (i : ℤ) → IsInt64 i → scan_int (print_int i) ≡ some i
unfolding scan_int print_int trim_left print_nat is_space
scan_int-print_int (pos n) lt =
    let (c, s, e, h) = digits-nonempty n n in
    let (sp, minus, plus) = digit_plain c h.0 in
    let back : scan_digits (c ∷ s) ≡ some n = ap scan_digits (sym e) ∙ scan_digits-print_nat n in
    rw (e, trim_left, sp, minus, plus, back) (ground arith)
scan_int-print_int (negsuc n) lt = rw (scan_digits-print_nat (suc n)) (ground arith)
