-- ===== src/Utf8/Output.antt =====
-- What `ProcessRaw` writes is valid UTF-8.
use che_machine_exec.Common.{
  ℕ, zero, suc, ◌+◌, ◌≡◌, sym, ap, ◌∙◌, subst, inl, inr, ◌++◌, Bool, true, false, not, [], ◌∷◌,
  Option, none, some, arith, length, drop, Bool-cases, if◌then◌else◌, is_empty,
}
use che_machine_exec.Utf8.Runes.{
  Bytes, rune_error, read_rune, encode, valid_from, lead_of, rune_start,
}
use che_machine_exec.Utf8.Filter.{
  Shown, Step, handle_last_bytes, process_loop, process_joined, process_raw, is_utf8_continuation,
  is_utf8_single_byte_character,
}
use che_machine_exec.Utf8.Sequences.{one}
use che_machine_exec.Utf8.Write.{
  IsText, nil, IsText-append, IsText-IsSeq, encode-IsSeq, valid_from-IsText, IsText-valid_from,
  process_loop-step,
}

placeholder : (s : Bytes) → IsText s → IsText (encode rune_error ++ s)
placeholder s t = IsText-append (IsText-IsSeq (encode-IsSeq rune_error)) t

if-IsText : (c : Bool) (x y : Step) → IsText x.out → IsText y.out → IsText (if c then x else y).out
if-IsText true x y h k = h
if-IsText false x y h k = k

-- The only byte that `handleLastBytes` writes as it is, is an ASCII character.
handle_one-IsText : (sf : Shown) (b : ℕ) → IsText (handle_last_bytes sf b []).out
unfolding handle_last_bytes
handle_one-IsText sf b = elim (Bool-cases (not (rune_start b))) [
  | inl e ↦ rw e (IsText-IsSeq (encode-IsSeq rune_error))
  | inr e ↦ elim (Bool-cases (is_utf8_single_byte_character b)) [
    | inl f ↦ rw (e, f) (IsText-IsSeq (one b (unfold lead_of in ground arith)))
    | inr f ↦ rw (e, f) nil
  ]
]

handle-IsText : (sf : Shown) (b : ℕ) (bs : Bytes) → IsText (handle_last_bytes sf b bs).out
unfolding handle_last_bytes
handle-IsText sf b [] = handle_one-IsText sf b
handle-IsText sf b (b1 ∷ []) =
    let later = placeholder _ (handle-IsText sf b1 []) in
    if-IsText (not (rune_start b)) _ _ later (if-IsText (is_utf8_continuation b1) _ _ nil later)
handle-IsText sf b (b1 ∷ b2 ∷ bs) =
    let from1 = placeholder _ (handle-IsText sf b1 (b2 ∷ bs)) in
    let from2 = placeholder _ (placeholder _ (handle-IsText sf b2 bs)) in
    if-IsText (not (rune_start b)) _ _ from1 (
      if-IsText (not (is_utf8_continuation b1)) _ _ from1
        (if-IsText (not (is_utf8_continuation b2)) _ _ from2 nil))

abbrev out_of : Option Step → Bytes
out_of none = []
out_of (some s) = s.out

process_loop-IsText :
    (fuel data_len processed : ℕ) (sf : Shown) (result unread : Bytes) {s : Step}
    → IsText result
    → process_loop fuel data_len processed sf result unread ≡ some s
    → IsText s.out
unfolding process_loop
process_loop-IsText zero data_len processed sf result unread t h = absurd (cc h)
process_loop-IsText (suc f) data_len processed sf result [] t h = subst IsText (ap out_of h) t
process_loop-IsText (suc f) data_len processed sf result (b ∷ bs) t h =
    elim (process_loop-step f data_len processed sf result b bs) [
      | inl (e, _, _, _) ↦
          subst IsText (ap out_of (sym e ∙ h)) (IsText-append t (handle-IsText sf b bs))
      | inr (e, _) ↦
          process_loop-IsText f data_len (processed + (read_rune b bs).char_len) sf
            (result ++ encode (read_rune b bs).char) (drop (read_rune b bs).char_len (b ∷ bs))
            (IsText-append t (IsText-IsSeq (encode-IsSeq (read_rune b bs).char))) (sym e ∙ h)
    ]

process_joined-IsText :
    (data_len : ℕ) (sf : Shown) (joined : Bytes) {s : Step}
    → process_joined data_len sf joined ≡ some s
    → IsText s.out
unfolding process_joined
process_joined-IsText data_len sf joined h = elim (Bool-cases (valid_from (length joined) joined)) [
  | inl e ↦ subst IsText (ap out_of (rw e at h)) (IsText-valid_from (length joined) joined e)
  | inr e ↦ process_loop-IsText (suc (length joined)) data_len 0 sf [] joined nil (rw e at h)
]

process_raw-IsText :
    (sf : Shown) (data' : Bytes) {s : Step} → process_raw sf data' ≡ some s → IsText s.out
unfolding process_raw
process_raw-IsText sf [] h = subst IsText (ap out_of h) nil
process_raw-IsText sf (d ∷ ds) h = elim (Bool-cases (is_empty sf.rest)) [
  | inl e ↦ process_joined-IsText (length (d ∷ ds)) sf (d ∷ ds) (rw e at h)
  | inr e ↦
      process_joined-IsText (length (d ∷ ds)) (record { rest = [] }) (sf.rest ++ d ∷ ds) (rw e at h)
]

-- Whatever bytes arrive and whatever is pending, the bytes that `ProcessRaw` writes to the stream
-- are valid UTF-8, by the test of `utf8.Valid`.
pub process_raw-valid :
    (sf : Shown) (data' : Bytes) {s : Step}
    → process_raw sf data' ≡ some s
    → valid_from (length s.out) s.out ≡ true
process_raw-valid sf data' {s} h =
    valid_from-IsText (length s.out) (process_raw-IsText sf data' h) (omega arith)
