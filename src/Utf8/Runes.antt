-- ===== src/Utf8/Runes.antt =====
-- The part of Go's `unicode/utf8` that the stream filter uses. A byte is a number below 256.
use che_machine_exec.Common.{
  ℕ, ◌+◌, ◌-◌, ◌*◌, ◌/◌, ◌%◌, Bool, true, false, ◌&&◌, List, [], ◌∷◌, ltb, leb, ◌==◌, if◌then◌else◌,
  drop,
}

abbrev pub Bytes : Type 0
Bytes = List ℕ

-- `utf8.RuneError` and `utf8.UTFMax`.
abbrev pub rune_error : ℕ
rune_error = 0xfffd

abbrev pub utf_max : ℕ
utf_max = 4

-- `utf8.RuneStart`: the byte is not 10xxxxxx.
abbrev pub rune_start : ℕ → Bool
rune_start b = if b / 64 % 4 == 2 then false else true

-- What the first byte announces: the size of the sequence, or that no sequence starts so.
pub data Lead : Type 0 where
  ascii two three four bad : Lead

unfoldable pub lead_of : ℕ → Lead
lead_of b =
    if ltb b 0x80
    then ascii
    else if leb 0xc2 b && leb b 0xdf
    then two
    else if leb 0xe0 b && leb b 0xef
    then three
    else if leb 0xf0 b && leb b 0xf4
    then four
    else bad

-- A continuation byte, and the second byte, whose range depends on the first (`acceptRanges`).
unfoldable pub in_cont : ℕ → Bool
in_cont b = leb 0x80 b && leb b 0xbf

unfoldable pub second_ok : ℕ → ℕ → Bool
second_ok b0 b1 =
    leb (if b0 == 0xe0 then 0xa0 else if b0 == 0xf0 then 0x90 else 0x80) b1
    && leb b1 (if b0 == 0xed then 0x9f else if b0 == 0xf4 then 0x8f else 0xbf)

-- The bytes behind a first byte complete its sequence.
unfoldable pub tail_ok : Lead → ℕ → Bytes → Bool
unfolding in_cont second_ok
tail_ok ascii b0 _ = true
tail_ok two b0 (b1 ∷ _) = second_ok b0 b1
tail_ok three b0 (b1 ∷ b2 ∷ _) = second_ok b0 b1 && in_cont b2
tail_ok four b0 (b1 ∷ b2 ∷ b3 ∷ _) = second_ok b0 b1 && (in_cont b2 && in_cont b3)
tail_ok _ b0 _ = false

abbrev pub size : Lead → ℕ
size ascii = 1
size two = 2
size three = 3
size four = 4
size bad = 0

-- The length of the sequence at the front of the bytes; 0 if none is complete and well formed.
unfoldable pub rune_len : Bytes → ℕ
unfolding lead_of tail_ok
rune_len [] = 0
rune_len (b0 ∷ bs) = if tail_ok (lead_of b0) b0 bs then size (lead_of b0) else 0

-- The code point of a sequence that `tail_ok` accepts.
unfoldable pub value_of : Lead → ℕ → Bytes → ℕ
value_of two b0 (b1 ∷ _) = (b0 - 0xc0) * 64 + (b1 - 0x80)
value_of three b0 (b1 ∷ b2 ∷ _) = (b0 - 0xe0) * 4096 + (b1 - 0x80) * 64 + (b2 - 0x80)
value_of four b0 (b1 ∷ b2 ∷ b3 ∷ _) =
    (b0 - 0xf0) * 262144 + (b1 - 0x80) * 4096 + (b2 - 0x80) * 64 + (b3 - 0x80)
value_of _ b0 _ = b0

-- `bytes.Reader.ReadRune` on the bytes not yet read, which are not empty: the rune, and how many
-- bytes it takes. A malformed sequence is `RuneError` of one byte.
pub record Decoded : Type 0 where
  pub char : ℕ
  pub char_len : ℕ

unfoldable pub read_rune : ℕ → Bytes → Decoded
unfolding lead_of tail_ok value_of
read_rune b0 bs =
    if tail_ok (lead_of b0) b0 bs
    then record { char = value_of (lead_of b0) b0 bs; char_len = size (lead_of b0) }
    else record { char = rune_error; char_len = 1 }

-- `bytes.Buffer.WriteRune`, that is, `utf8.AppendRune`.
unfoldable pub encode : ℕ → Bytes
encode c =
    if ltb c 0x80
    then c ∷ []
    else if ltb c 0x800
    then (0xc0 + c / 64) ∷ (0x80 + c % 64) ∷ []
    else if ltb 0x10ffff c
    then 0xef ∷ 0xbf ∷ 0xbd ∷ []
    else if leb 0xd800 c && leb c 0xdfff
    then 0xef ∷ 0xbf ∷ 0xbd ∷ []
    else if ltb c 0x10000
    then (0xe0 + c / 4096) ∷ (0x80 + c / 64 % 64) ∷ (0x80 + c % 64) ∷ []
    else (0xf0 + c / 262144) ∷ (0x80 + c / 4096 % 64) ∷ (0x80 + c / 64 % 64) ∷ (0x80 + c % 64) ∷ []

-- `utf8.Valid`, by steps over whole sequences; as many steps as there are bytes are enough.
unfoldable pub valid_from : ℕ → Bytes → Bool
unfolding rune_len
valid_from ℕ.zero [] = true
valid_from ℕ.zero (_ ∷ _) = false
valid_from (ℕ.suc f) [] = true
valid_from (ℕ.suc f) (b ∷ bs) =
    let later = valid_from f (drop (rune_len (b ∷ bs)) (b ∷ bs)) in
    if rune_len (b ∷ bs) == 0 then false else later
