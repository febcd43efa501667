-- ===== src/Utf8/Total.antt =====
-- Every call of `ProcessRaw` ends: the loop reads at least one byte in each round.
use che_machine_exec.Common.{
  ℕ, zero, suc, ◌+◌, ◌<◌, ◌≡◌, refl, inl, inr, ◌++◌, [], ◌∷◌, some, arith, length, drop,
  length-drop, Bool-cases, is_empty,
}
use che_machine_exec.Utf8.Runes.{Bytes, tail_ok, read_rune, encode, valid_from}
use che_machine_exec.Utf8.Filter.{
  Shown, Step, after, handle_last_bytes, process_loop, process_joined, process_raw,
}
use che_machine_exec.Utf8.Write.{process_loop-step}

read_rune_pos : (b : ℕ) (bs : Bytes) → 0 < (read_rune b bs).char_len
unfolding read_rune tail_ok
read_rune_pos b bs = ground arith

process_loop-total :
    (fuel data_len processed : ℕ) (sf : Shown) (result unread : Bytes)
    → length unread < fuel
    → (s : Step) × (process_loop fuel data_len processed sf result unread ≡ some s)
unfolding process_loop
process_loop-total zero data_len processed sf result unread h = absurd (omega arith)
process_loop-total (suc f) data_len processed sf result [] h =
    (record { out = result; filter = sf }, refl)
process_loop-total (suc f) data_len processed sf result (b ∷ bs) h =
    elim (process_loop-step f data_len processed sf result b bs) [
      | inl (e, _, _, _) ↦ (after result (handle_last_bytes sf b bs), e)
      | inr (e, _) ↦
          let d = read_rune b bs in
          rw e (
            process_loop-total f data_len (processed + d.char_len) sf (result ++ encode d.char)
              (drop d.char_len (b ∷ bs))
              (omega (arith, length-drop d.char_len (b ∷ bs), read_rune_pos b bs)))
    ]

process_joined-total :
    (data_len : ℕ) (sf : Shown) (joined : Bytes)
    → (s : Step) × (process_joined data_len sf joined ≡ some s)
unfolding process_joined
process_joined-total data_len sf joined = elim (Bool-cases (valid_from (length joined) joined)) [
  | inl e ↦ (record { out = joined; filter = sf }, rw e)
  | inr e ↦ rw e (process_loop-total (suc (length joined)) data_len 0 sf [] joined (omega arith))
]

-- Every call of `ProcessRaw` returns: the fuel of the model, one more than the number of the bytes
-- that the loop reads, is never used up.
pub process_raw-total : (sf : Shown) (data' : Bytes) → (s : Step) × (process_raw sf data' ≡ some s)
unfolding process_raw
process_raw-total sf [] = (record { out = []; filter = sf }, refl)
process_raw-total sf (d ∷ ds) = elim (Bool-cases (is_empty sf.rest)) [
  | inl e ↦ rw e (process_joined-total (length (d ∷ ds)) sf (d ∷ ds))
  | inr e ↦ rw e (process_joined-total (length (d ∷ ds)) (record { rest = [] }) (sf.rest ++ d ∷ ds))
]
