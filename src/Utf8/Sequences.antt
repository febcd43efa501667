-- ===== src/Utf8/Sequences.antt =====
-- Well-formed sequences: what `ReadRune` makes of one, and that `WriteRune` writes it back.
use che_machine_exec.Common.{
  ℕ, ◌+◌, ◌*◌, ◌≤◌, ◌∙◌, ◌/◌, ◌%◌, ◌≡◌, refl, inl, inr, true, [], ◌∷◌, ◌++◌, arith, length,
  Bool-cases,
}
use che_machine_exec.Utf8.Runes.{
  Bytes, rune_error, Lead, ascii, two, three, four, lead_of, in_cont, second_ok, tail_ok, rune_len,
  value_of, read_rune, encode,
}

-- The bytes of exactly one well-formed sequence.
pub data IsSeq : Bytes → Type 0 where
  one : (b0 : ℕ) → lead_of b0 ≡ ascii → IsSeq (b0 ∷ [])
  pair : (b0 b1 : ℕ) → lead_of b0 ≡ two → second_ok b0 b1 ≡ true → IsSeq (b0 ∷ b1 ∷ [])
  triple :
      (b0 b1 b2 : ℕ)
      → lead_of b0 ≡ three
      → second_ok b0 b1 ≡ true
      → in_cont b2 ≡ true
      → IsSeq (b0 ∷ b1 ∷ b2 ∷ [])
  quad :
      (b0 b1 b2 b3 : ℕ)
      → lead_of b0 ≡ four
      → second_ok b0 b1 ≡ true
      → in_cont b2 ≡ true
      → in_cont b3 ≡ true
      → IsSeq (b0 ∷ b1 ∷ b2 ∷ b3 ∷ [])

pub rune_len-IsSeq : {r : Bytes} (s : Bytes) → IsSeq r → rune_len (r ++ s) ≡ length r
unfolding rune_len
rune_len-IsSeq s (one b0 h) = ground arith
rune_len-IsSeq s (pair b0 b1 h k) = rw h (rw k)
rune_len-IsSeq s (triple b0 b1 b2 h k l) = rw h (rw (k, l))
rune_len-IsSeq s (quad b0 b1 b2 b3 h k l m) = rw h (rw (k, l, m))

encode-two :
    (b0 b1 : ℕ)
    → lead_of b0 ≡ two
    → second_ok b0 b1 ≡ true
    → encode (value_of two b0 (b1 ∷ [])) ≡ b0 ∷ b1 ∷ []
unfolding lead_of second_ok encode value_of
encode-two b0 b1 h k = ground arith

encode-three :
    (b0 b1 b2 : ℕ)
    → lead_of b0 ≡ three
    → second_ok b0 b1 ≡ true
    → in_cont b2 ≡ true
    → encode (value_of three b0 (b1 ∷ b2 ∷ [])) ≡ b0 ∷ b1 ∷ b2 ∷ []
unfolding lead_of second_ok encode value_of in_cont
encode-three b0 b1 b2 h k l = ground arith

-- The ranges that the first two bytes of a sequence of four pin down.
four_bounds :
    (b0 b1 : ℕ)
    → lead_of b0 ≡ four
    → second_ok b0 b1 ≡ true
    → (0xf0 ≤ b0)
      × (b0 ≤ 0xf4)
      × (0x80 ≤ b1)
      × (b1 ≤ 0xbf)
      × (0xf090 ≤ b0 * 256 + b1)
      × (b0 * 256 + b1 ≤ 0xf48f)
unfolding lead_of second_ok
four_bounds b0 b1 h k = ground arith

in_cont_bounds : (b : ℕ) → in_cont b ≡ true → (0x80 ≤ b) × (b ≤ 0xbf)
unfolding in_cont
in_cont_bounds b h = ground arith

encode_wide :
    (c : ℕ)
    → 0x10000 ≤ c
    → c ≤ 0x10ffff
    → encode c
      ≡ (0xf0 + c / 262144) ∷ (0x80 + c / 4096 % 64) ∷ (0x80 + c / 64 % 64) ∷ (0x80 + c % 64) ∷ []
unfolding encode
encode_wide c h k = ground arith

quad_eq :
    {a b c d a' b' c' d' : ℕ}
    → a ≡ a'
    → b ≡ b'
    → c ≡ c'
    → d ≡ d'
    → ◌≡◌ {A = Bytes} (a ∷ b ∷ c ∷ d ∷ []) (a' ∷ b' ∷ c' ∷ d' ∷ [])
quad_eq p q r s = cc

encode-four :
    (b0 b1 b2 b3 : ℕ)
    → lead_of b0 ≡ four
    → second_ok b0 b1 ≡ true
    → in_cont b2 ≡ true
    → in_cont b3 ≡ true
    → encode (value_of four b0 (b1 ∷ b2 ∷ b3 ∷ [])) ≡ b0 ∷ b1 ∷ b2 ∷ b3 ∷ []
unfolding value_of
encode-four b0 b1 b2 b3 h k l m =
    let w = four_bounds b0 b1 h k in
    let x = in_cont_bounds b2 l in
    let y = in_cont_bounds b3 m in
    encode_wide _ (omega arith) (omega arith)
    ∙ quad_eq (omega arith) (omega arith) (omega arith) (omega arith)

-- `ReadRune` takes exactly the sequence, and `WriteRune` of what it read gives the sequence back.
pub read_rune-IsSeq :
    {b0 : ℕ} {t : Bytes} (s : Bytes)
    → IsSeq (b0 ∷ t)
    → ((read_rune b0 (t ++ s)).char_len ≡ length (b0 ∷ t))
      × (encode (read_rune b0 (t ++ s)).char ≡ b0 ∷ t)
unfolding read_rune
read_rune-IsSeq s (one b0 h) = (rw h, rw h (unfold lead_of value_of encode in ground arith))
read_rune-IsSeq s (pair b0 b1 h k) = (rw h (rw k), rw h (rw k (encode-two b0 b1 h k)))
read_rune-IsSeq s (triple b0 b1 b2 h k l) =
    (rw h (rw (k, l)), rw h (rw (k, l) (encode-three b0 b1 b2 h k l)))
read_rune-IsSeq s (quad b0 b1 b2 b3 h k l m) =
    (rw h (rw (k, l, m)), rw h (rw (k, l, m) (encode-four b0 b1 b2 b3 h k l m)))

-- What `ReadRune` takes as a rune of its own is a well-formed sequence.
pub data Split (b0 : ℕ) (bs : Bytes) : Type 0 where
  whole : (t s : Bytes) → bs ≡ t ++ s → IsSeq (b0 ∷ t) → Split b0 bs
  broken :
      rune_len (b0 ∷ bs) ≡ 0
      → (read_rune b0 bs).char ≡ rune_error
      → (read_rune b0 bs).char_len ≡ 1
      → Split b0 bs

split_at : (l : Lead) (b0 : ℕ) (bs : Bytes) → lead_of b0 ≡ l → tail_ok l b0 bs ≡ true → Split b0 bs
unfolding tail_ok
split_at ascii b0 bs h k = whole [] bs refl (one b0 h)
split_at two b0 (b1 ∷ s) h k = whole (b1 ∷ []) s refl (pair b0 b1 h k)
split_at three b0 (b1 ∷ b2 ∷ s) h k =
    whole (b1 ∷ b2 ∷ []) s refl (triple b0 b1 b2 h (ground arith) (ground arith))
split_at four b0 (b1 ∷ b2 ∷ b3 ∷ s) h k =
    whole (b1 ∷ b2 ∷ b3 ∷ []) s refl
      (quad b0 b1 b2 b3 h (ground arith) (ground arith) (ground arith))
split_at _ b0 bs h k = absurd (cc k)

pub split : (b0 : ℕ) (bs : Bytes) → Split b0 bs
unfolding rune_len read_rune
split b0 bs = elim (Bool-cases (tail_ok (lead_of b0) b0 bs)) [
  | inl e ↦ split_at (lead_of b0) b0 bs refl e
  | inr e ↦ broken (rw e) (rw e) (rw e)
]
