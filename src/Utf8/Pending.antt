-- ===== src/Utf8/Pending.antt =====
-- Clean texts, and the bytes of a sequence that wait for more.
use mathlib.Core.List.{append_assoc}
use che_machine_exec.Common.{
  ℕ, zero, suc, ◌+◌, ◌≤◌, ◌<◌, ◌≡◌, ◌≢◌, refl, sym, ap, ◌∙◌, ◌⊎◌, inl, inr, ◌++◌, true, false, [],
  ◌∷◌, some, arith, length, length-append,
}
use che_machine_exec.Utf8.Runes.{
  Bytes, rune_error, rune_start, two, three, four, lead_of, in_cont, second_ok, tail_ok, rune_len,
  read_rune, encode, valid_from,
}
use che_machine_exec.Utf8.Filter.{Shown, Step, after, handle_last_bytes, process_loop}
use che_machine_exec.Utf8.Sequences.{IsSeq, rune_len-IsSeq, read_rune-IsSeq}
use che_machine_exec.Utf8.Write.{
  IsText, nil, cons, IsSeq-length, process_loop-step, drop-append, suc-ne-zero,
}

-- A text of whole sequences, none of which is the placeholder character itself.
pub data IsClean : Bytes → Type 0 where
  stop : IsClean []
  more :
      (r s : Bytes) {x : Bytes}
      → x ≡ r ++ s
      → IsSeq r
      → r ≢ encode rune_error
      → IsClean s
      → IsClean x

pub IsClean-IsText : {x : Bytes} → IsClean x → IsText x
IsClean-IsText stop = nil
IsClean-IsText (more r s e q _ t) = cons r s e q (IsClean-IsText t)

-- The first bytes of a sequence, at least one of its bytes missing.
pub data IsPending : Bytes → Type 0 where
  cut1 :
      (b0 : ℕ)
      → (lead_of b0 ≡ two) ⊎ ((lead_of b0 ≡ three) ⊎ (lead_of b0 ≡ four))
      → IsPending (b0 ∷ [])
  cut2 :
      (b0 b1 : ℕ)
      → (lead_of b0 ≡ three) ⊎ (lead_of b0 ≡ four)
      → second_ok b0 b1 ≡ true
      → IsPending (b0 ∷ b1 ∷ [])
  cut3 :
      (b0 b1 b2 : ℕ)
      → lead_of b0 ≡ four
      → second_ok b0 b1 ≡ true
      → in_cont b2 ≡ true
      → IsPending (b0 ∷ b1 ∷ b2 ∷ [])

rune_len-IsPending : {q : Bytes} → IsPending q → rune_len q ≡ 0
unfolding rune_len tail_ok
rune_len-IsPending (cut1 b0 h) = ground arith
rune_len-IsPending (cut2 b0 b1 h k) = ground arith
rune_len-IsPending (cut3 b0 b1 b2 h k l) = ground arith

read_rune-IsPending :
    {b0 : ℕ} {t : Bytes}
    → IsPending (b0 ∷ t)
    → ((read_rune b0 t).char ≡ rune_error) × (rune_start b0 ≡ true)
unfolding read_rune tail_ok lead_of
read_rune-IsPending (cut1 b0 h) = ground arith
read_rune-IsPending (cut2 b0 b1 h k) = ground arith
read_rune-IsPending (cut3 b0 b1 b2 h k l) = ground arith

-- `handleLastBytes` keeps a cut sequence for the next chunk and writes nothing.
handle-IsPending :
    {b0 : ℕ} {t : Bytes} (sf : Shown)
    → IsPending (b0 ∷ t)
    → handle_last_bytes sf b0 t ≡ record { out = []; filter = record { rest = b0 ∷ t } }
unfolding handle_last_bytes lead_of second_ok in_cont
handle-IsPending sf (cut1 b0 h) = ground arith
handle-IsPending sf (cut2 b0 b1 h k) = ground arith
handle-IsPending sf (cut3 b0 b1 b2 h k l) = ground arith

pub valid_from_pending : (f : ℕ) {q : Bytes} → IsPending q → valid_from f q ≡ false
unfolding valid_from
valid_from_pending zero (cut1 _ _) = refl
valid_from_pending zero (cut2 _ _ _ _) = refl
valid_from_pending zero (cut3 _ _ _ _ _ _) = refl
valid_from_pending (suc f) (cut1 b0 h) = rw (rune_len-IsPending (cut1 b0 h))
valid_from_pending (suc f) (cut2 b0 b1 h k) = rw (rune_len-IsPending (cut2 b0 b1 h k))
valid_from_pending (suc f) (cut3 b0 b1 b2 h k l) = rw (rune_len-IsPending (cut3 b0 b1 b2 h k l))

-- A text with a cut sequence behind it is not valid.
pub valid_from-IsPending :
    (f : ℕ) {p q : Bytes} → IsClean p → IsPending q → valid_from f (p ++ q) ≡ false
unfolding valid_from
valid_from-IsPending f stop h = valid_from_pending f h
valid_from-IsPending f (more [] s e sq ne c) h = absurd (IsSeq-length sq refl)
valid_from-IsPending zero (more (b ∷ r) s e sq ne c) h = rw e
valid_from-IsPending (suc f) {q = q} (more (b ∷ r) s e sq ne c) h =
    rw
      (
        e,
        append_assoc r s q,
        rune_len-IsSeq (s ++ q) sq,
        drop-append r (s ++ q),
        suc-ne-zero (length r),
      )
      (valid_from-IsPending f c h)

IsPending-length : {q : Bytes} → IsPending q → (0 < length q) × (length q ≤ 3)
IsPending-length (cut1 b0 h) = omega arith
IsPending-length (cut2 b0 b1 h k) = omega arith
IsPending-length (cut3 b0 b1 b2 h k l) = omega arith

loop_pending :
    (fuel data_len processed : ℕ) (sf : Shown) (result : Bytes) (b : ℕ) (t : Bytes)
    → IsPending (b ∷ t)
    → data_len ≤ processed + length (b ∷ t)
    → process_loop (suc fuel) data_len processed sf result (b ∷ t)
      ≡ some (record { out = result ++ []; filter = record { rest = b ∷ t } })
loop_pending fuel data_len processed sf result b t h le =
    elim (process_loop-step fuel data_len processed sf result b t) [
      | inl (e, _, _, _) ↦ e ∙ ap (λ (x : Step). some (after result x)) (handle-IsPending sf h)
      | inr (_, keeps) ↦
          let read = read_rune-IsPending h in
          let near : data_len < processed + 4 = omega (arith, IsPending-length h) in
          absurd (cc (keeps read.0 near, read.1))
    ]

-- The loop writes the whole sequences and keeps the cut one.
pub process_loop-IsPending :
    (fuel data_len processed : ℕ) (sf : Shown) (result : Bytes) {p q : Bytes}
    → IsClean p
    → IsPending q
    → length (p ++ q) < fuel
    → data_len ≤ processed + length (p ++ q)
    → process_loop fuel data_len processed sf result (p ++ q)
      ≡ some (record { out = result ++ p; filter = record { rest = q } })
process_loop-IsPending zero data_len processed sf result c h lt le = absurd (omega arith)
process_loop-IsPending (suc f) data_len processed sf result stop (cut1 b0 h) lt le =
    loop_pending f data_len processed sf result b0 [] (cut1 b0 h) le
process_loop-IsPending (suc f) data_len processed sf result stop (cut2 b0 b1 h k) lt le =
    loop_pending f data_len processed sf result b0 (b1 ∷ []) (cut2 b0 b1 h k) le
process_loop-IsPending (suc f) data_len processed sf result stop (cut3 b0 b1 b2 h k l) lt le =
    loop_pending f data_len processed sf result b0 (b1 ∷ b2 ∷ []) (cut3 b0 b1 b2 h k l) le
process_loop-IsPending (suc f) data_len processed sf result (more [] s e sq ne c) h lt le =
    absurd (IsSeq-length sq refl)
process_loop-IsPending (suc f) data_len processed sf result {q = q} (more (b ∷ r) s e sq ne c) h lt
      le =
    let (len, enc) = read_rune-IsSeq (s ++ q) sq in
    let size = ap (length {A = ℕ}) (ap (λ x. x ++ q) e ∙ append_assoc (b ∷ r) s q) in
    let sum = length-append r (s ++ q) in
    rw (e, append_assoc r s q)
      (elim (process_loop-step f data_len processed sf result b (r ++ (s ++ q))) [
        | inl (_, bad_read, _, _) ↦ absurd (ne (sym enc ∙ ap encode bad_read))
        | inr (next, _) ↦
            next
            ∙ rw (len, enc, drop-append r (s ++ q))
                (process_loop-IsPending f data_len (processed + suc (length r)) sf
                    (result ++ (b ∷ r)) c h (omega arith) (omega arith)
                  ∙ rw (append_assoc result (b ∷ r) s))
      ])
