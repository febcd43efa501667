-- ===== src/Proc/Numbers.antt =====
-- `fmt.Sscanf(text, "%d", &n)` for a 64-bit integer, as timeout/procutil.go uses it.
pub mod Decimal
use che_machine_exec.Common.{
  ℕ, ◌+◌, ◌-◌, ◌*◌, ◌^◌, Text, trim_left, Bool, true, false, ◌&&◌, Option, none, some, List, [],
  ◌∷◌, if◌then◌else◌, leb, ltb, ◌==◌,
}
use che_machine_exec.Common.Int.{ℤ, pos, negsuc}

abbrev pub is_digit : ℕ → Bool
is_digit c = leb b'0' c && leb c b'9'

-- The digits at the front; what follows them is not read.
unfoldable pub read_digits : ℕ → Text → ℕ
read_digits acc [] = acc
read_digits acc (c ∷ s) = elim (is_digit c) [
  | true ↦ read_digits (acc * 10 + (c - b'0')) s
  | false ↦ acc
]

-- At least one digit.
unfoldable pub scan_digits : Text → Option ℕ
unfolding read_digits
scan_digits [] = none
scan_digits (c ∷ s) = if is_digit c then some (read_digits 0 (c ∷ s)) else none

-- The ranges of int64.
abbrev pub to_positive : Option ℕ → Option ℤ
to_positive none = none
to_positive (some n) = if ltb n (2 ^ 63) then some (pos n) else none

abbrev pub to_negative : Option ℕ → Option ℤ
to_negative none = none
to_negative (some n) =
    if n == 0 then some (pos 0) else if leb n (2 ^ 63) then some (negsuc (n - 1)) else none

abbrev pub scan_signed : Text → Option ℤ
scan_signed [] = none
scan_signed (c ∷ s) =
    if c == b'-'
    then to_negative (scan_digits s)
    else if c == b'+'
    then to_positive (scan_digits s)
    else to_positive (scan_digits (c ∷ s))

-- `none` is an error or a count of 0.
unfoldable pub scan_int : Text → Option ℤ
unfolding scan_digits trim_left
scan_int s = scan_signed (trim_left s)
