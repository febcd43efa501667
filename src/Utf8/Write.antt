-- ===== src/Utf8/Write.antt =====
-- Texts of whole sequences, and one round of the loop of `ProcessRaw`.
use mathlib.Core.List.{append_assoc}
use che_machine_exec.Common.{
  ℕ, zero, suc, ◌+◌, ◌≤◌, ◌<◌, ◌≡◌, refl, ◌≢◌, sym, ap, ◌∙◌, ◌⊎◌, inl, inr, true, false, ◌&&◌, [],
  ◌∷◌, ◌++◌, some, arith, ltb, leb, ◌==◌, length, drop, length-append, Bool-cases, ==_iff,
}
use che_machine_exec.Utf8.Runes.{
  Bytes, rune_error, utf_max, rune_start, lead_of, in_cont, second_ok, read_rune, encode,
  valid_from,
}
use che_machine_exec.Utf8.Filter.{Shown, after, handle_last_bytes, process_loop}
use che_machine_exec.Utf8.Sequences.{
  IsSeq, one, pair, triple, quad, rune_len-IsSeq, whole, broken, split,
}

-- Bytes that are a row of well-formed sequences.
pub data IsText : Bytes → Type 0 where
  nil : IsText []
  cons : (r s : Bytes) {x : Bytes} → x ≡ r ++ s → IsSeq r → IsText s → IsText x

pub IsText-append : {a b : Bytes} → IsText a → IsText b → IsText (a ++ b)
IsText-append nil t = t
IsText-append {b = b} (cons r s e h t) u =
    cons r (s ++ b) (ap (λ x. x ++ b) e ∙ append_assoc r s b) h (IsText-append t u)

pub IsText-IsSeq : {r : Bytes} → IsSeq r → IsText r
IsText-IsSeq {r} h = cons r [] (sym (mathlib.Core.List.append-nil r)) h nil

-- `WriteRune` writes one well-formed sequence, whatever the code point.
pub encode-IsSeq : (c : ℕ) → IsSeq (encode c)
unfolding encode lead_of second_ok in_cont
encode-IsSeq c = elim (Bool-cases (ltb c 0x80)) [
  | inl e ↦ rw e (one c (ground arith))
  | inr e ↦ elim (Bool-cases (ltb c 0x800)) [
    | inl f ↦ rw (e, f) (pair _ _ (ground arith) (ground arith))
    | inr f ↦ elim (Bool-cases (ltb 0x10ffff c)) [
      | inl g ↦ rw (e, f, g) (triple _ _ _ refl refl refl)
      | inr g ↦ elim (Bool-cases (leb 0xd800 c && leb c 0xdfff)) [
        | inl k ↦ rw (e, f, g, k) (triple _ _ _ refl refl refl)
        | inr k ↦ elim (Bool-cases (ltb c 0x10000)) [
          | inl l ↦ rw (e, f, g, k, l) (triple _ _ _ (ground arith) (ground arith) (ground arith))
          | inr l ↦
              rw (e, f, g, k, l)
                (quad _ _ _ _ (ground arith) (ground arith) (ground arith) (ground arith))
        ]
      ]
    ]
  ]
]

pub drop-append : (r s : Bytes) → drop (length r) (r ++ s) ≡ s
drop-append [] s = refl
drop-append (x ∷ r) s = drop-append r s

pub IsSeq-length : {r : Bytes} → IsSeq r → length r ≢ 0
IsSeq-length (one _ _) = omega arith
IsSeq-length (pair _ _ _ _) = omega arith
IsSeq-length (triple _ _ _ _ _ _) = omega arith
IsSeq-length (quad _ _ _ _ _ _ _ _) = omega arith

pub suc-ne-zero : (n : ℕ) → (suc n == 0) ≡ false
suc-ne-zero n = ground arith

pub valid_from-IsText : (f : ℕ) {x : Bytes} → IsText x → length x ≤ f → valid_from f x ≡ true
unfolding valid_from
valid_from-IsText zero nil h = refl
valid_from-IsText (suc f) nil h = refl
valid_from-IsText zero {x} (cons r s e q t) h =
    absurd (IsSeq-length q (omega (arith, ap (length {A = ℕ}) e, length-append r s)))
valid_from-IsText (suc f) (cons [] s e q t) h = absurd (IsSeq-length q (omega arith))
valid_from-IsText (suc f) (cons (b ∷ r) s e q t) h = rw e (
    rw (rune_len-IsSeq s q) (
      rw (drop-append r s, suc-ne-zero (length r))
        (valid_from-IsText f t (omega (arith, ap (length {A = ℕ}) e, length-append r s)))))

pub IsText-valid_from : (f : ℕ) (x : Bytes) → valid_from f x ≡ true → IsText x
unfolding valid_from
IsText-valid_from zero [] h = nil
IsText-valid_from zero (b ∷ x) h = absurd (cc h)
IsText-valid_from (suc f) [] h = nil
IsText-valid_from (suc f) (b ∷ x) h = elim (split b x) [
  | broken e _ _ ↦ absurd (ground arith)
  | whole t s e q ↦ cons (b ∷ t) s (ap (◌∷◌ b) e) q (
      IsText-valid_from f s
        (rw (e, rune_len-IsSeq s q, drop-append t s, suc-ne-zero (length t)) at h))
]

-- A round of the loop hands the last bytes over, or writes the rune that it read and goes on.
pub process_loop-step :
    (fuel data_len processed : ℕ) (sf : Shown) (result : Bytes) (b : ℕ) (bs : Bytes)
    → let d = read_rune b bs in
      ((process_loop (suc fuel) data_len processed sf result (b ∷ bs)
          ≡ some (after result (handle_last_bytes sf b bs)))
        × (d.char ≡ rune_error)
        × (data_len < processed + utf_max)
        × (rune_start b ≡ true))
      ⊎ ((process_loop (suc fuel) data_len processed sf result (b ∷ bs)
            ≡ process_loop fuel data_len
                (processed + d.char_len)
                sf
                (result ++ encode d.char)
                (drop d.char_len (b ∷ bs)))
          × ((d.char ≡ rune_error) → (data_len < processed + utf_max) → rune_start b ≡ false))
unfolding process_loop
process_loop-step fuel data_len processed sf result b bs =
    elim (Bool-cases ((read_rune b bs).char == rune_error)) [
      | inl e ↦
          let is_error = (==_iff (read_rune b bs).char rune_error).0 e in
          elim (Bool-cases (ltb data_len (processed + utf_max))) [
            | inl near ↦ elim (Bool-cases (rune_start b)) [
              | inl start ↦ inl (rw (e, near, start), is_error, ground arith, start)
              | inr mid ↦ inr (rw (e, near, mid, is_error), λ _ _. mid)
            ]
            | inr far ↦ inr (rw (e, far, is_error), λ _ h. absurd (ground arith))
          ]
      | inr e ↦ inr (rw e, λ h _. absurd (ground arith))
    ]
