-- ===== src/Utf8/Stall.antt =====
-- A malformed sequence of three bytes at the front of the pending bytes, followed by short chunks.
use mathlib.Core.List.{append_assoc, append-nil, flatten}
use che_machine_exec.Common.{
  ℕ, suc, ◌+◌, ◌≤◌, ◌<◌, ◌≡◌, ap, ◌∙◌, ◌⊎◌, inl, inr, ◌++◌, true, false, List, [], ◌∷◌, some, arith,
  length, is_empty, All,
}
use che_machine_exec.Utf8.Runes.{
  Bytes, rune_error, rune_start, three, four, lead_of, in_cont, second_ok, tail_ok, rune_len,
  read_rune, valid_from,
}
use che_machine_exec.Utf8.Filter.{Shown, Step, after, handle_last_bytes, process_loop, process_raw}
use che_machine_exec.Utf8.Write.{process_loop-step}
use che_machine_exec.Utf8.Stream.{process_raw_empty, process_chunks}

-- A first byte of a longer sequence, a continuation byte that may not stand second behind it
-- (an overlong form, a surrogate, or beyond U+10FFFF), and another continuation byte.
pub record IsStuck (b0 b1 b2 : ℕ) : Type 0 where
  pub starts : (lead_of b0 ≡ three) ⊎ (lead_of b0 ≡ four)
  pub second : in_cont b1 ≡ true
  pub misfit : second_ok b0 b1 ≡ false
  pub third : in_cont b2 ≡ true

module _ {b0 b1 b2 : ℕ} (h : IsStuck b0 b1 b2) where
  stuck-rune_len : (xs : Bytes) → rune_len (b0 ∷ b1 ∷ b2 ∷ xs) ≡ 0
  unfolding rune_len tail_ok
  stuck-rune_len [] = ground arith
  stuck-rune_len (x ∷ xs) = ground arith

  stuck-read_rune :
      (xs : Bytes) → ((read_rune b0 (b1 ∷ b2 ∷ xs)).char ≡ rune_error) × (rune_start b0 ≡ true)
  unfolding read_rune tail_ok lead_of
  stuck-read_rune [] = ground arith
  stuck-read_rune (x ∷ xs) = ground arith

  stuck-handle :
      (sf : Shown) (xs : Bytes)
      → handle_last_bytes sf b0 (b1 ∷ b2 ∷ xs)
        ≡ record { out = []; filter = record { rest = b0 ∷ b1 ∷ b2 ∷ xs } }
  unfolding handle_last_bytes lead_of in_cont
  stuck-handle sf xs = ground arith

  stuck-loop :
      (fuel data_len : ℕ) (sf : Shown) (xs : Bytes)
      → data_len ≤ 3
      → process_loop (suc fuel) data_len 0 sf [] (b0 ∷ b1 ∷ b2 ∷ xs)
        ≡ some (record { out = []; filter = record { rest = b0 ∷ b1 ∷ b2 ∷ xs } })
  stuck-loop fuel data_len sf xs le =
      elim (process_loop-step fuel data_len 0 sf [] b0 (b1 ∷ b2 ∷ xs)) [
        | inl (e, _, _, _) ↦ e ∙ ap (λ (x : Step). some (after [] x)) (stuck-handle sf xs)
        | inr (_, keeps) ↦
            let read = stuck-read_rune xs in
            let near : data_len < 0 + 4 = omega arith in absurd (cc (keeps read.0 near, read.1))
      ]

  stuck-process_raw :
      (xs : Bytes) (d : ℕ) (ds : Bytes)
      → length (d ∷ ds) ≤ 3
      → process_raw (record { rest = b0 ∷ b1 ∷ b2 ∷ xs }) (d ∷ ds)
        ≡ some (record { out = []; filter = record { rest = b0 ∷ b1 ∷ b2 ∷ (xs ++ (d ∷ ds)) } })
  unfolding process_raw is_empty valid_from
  stuck-process_raw xs d ds le = rw (stuck-rune_len (xs ++ (d ∷ ds))) (stuck-loop _ _ _ _ le)

  -- Once a malformed sequence of three bytes is pending, chunks of at most three bytes each, in
  -- buffers of their own, are
  -- never written: every call returns no byte, and what arrives is added to the pending bytes,
  -- without bound.
  pub process_chunks-stall :
      (cs : List Bytes) (xs : Bytes)
      → All (λ c. length c ≤ 3) cs
      → process_chunks (record { rest = b0 ∷ b1 ∷ b2 ∷ xs }) cs
        ≡ some (record { out = []; filter = record { rest = b0 ∷ b1 ∷ b2 ∷ (xs ++ flatten cs) } })
  unfolding flatten
  process_chunks-stall [] xs short = rw append-nil
  process_chunks-stall ([] ∷ cs) xs short =
      rw (process_raw_empty (record { rest = b0 ∷ b1 ∷ b2 ∷ xs }), process_chunks)
        (rw (process_chunks-stall cs xs short.1))
  process_chunks-stall ((d ∷ ds) ∷ cs) xs short =
      rw (stuck-process_raw xs d ds short.0, process_chunks)
        (rw (process_chunks-stall cs (xs ++ (d ∷ ds)) short.1)
          (rw (append_assoc xs (d ∷ ds) (flatten cs))))
