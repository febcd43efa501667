-- ===== src/Utf8/Filter.antt =====
-- The methods of `Utf8StreamFilter` on the bytes that its slice `rest` shows when a call reads them:
-- what a method writes to the stream, and the bytes of `rest` at its end. Where these bytes stand in
-- memory, and what becomes of them between two calls, is in Utf8/Shared.
use che_machine_exec.Common.{
  ℕ, zero, suc, ◌+◌, ◌/◌, ◌%◌, Bool, not, [], ◌∷◌, ◌++◌, Option, none, some, ltb, ◌==◌,
  if◌then◌else◌, length, drop, is_empty,
}
use che_machine_exec.Utf8.Runes.{
  Bytes, rune_error, utf_max, rune_start, read_rune, encode, valid_from,
}

-- The bytes that `rest` shows.
pub record Shown : Type 0 where
  pub rest : Bytes

-- What a method writes, and the filter after it.
pub record Step : Type 0 where
  pub out : Bytes
  pub filter : Shown

-- `arg & 0xc0 == 0x80`.
abbrev pub is_utf8_continuation : ℕ → Bool
is_utf8_continuation arg = arg / 64 % 4 == 2

-- `arg < utf8.RuneSelf`.
abbrev pub is_utf8_single_byte_character : ℕ → Bool
is_utf8_single_byte_character arg = ltb arg 0x80

abbrev pub after : Bytes → Step → Step
after written s = record s { out = written ++ s.out }

-- `handleLastBytes` on `b0 ∷ bs`; the source never calls it on an empty slice.
unfoldable pub handle_last_bytes : Shown → ℕ → Bytes → Step
unfolding encode
handle_last_bytes sf b0 [] =
    if not (rune_start b0)
    then record { out = encode rune_error; filter = sf }
    else if is_utf8_single_byte_character b0
    then record { out = b0 ∷ []; filter = record { rest = [] } }
    else record { out = []; filter = record { rest = b0 ∷ [] } }
handle_last_bytes sf b0 (b1 ∷ []) =
    let later = after (encode rune_error) (handle_last_bytes sf b1 []) in
    if not (rune_start b0)
    then later
    else if is_utf8_continuation b1
    then record { out = []; filter = record { rest = b0 ∷ b1 ∷ [] } }
    else later
handle_last_bytes sf b0 (b1 ∷ b2 ∷ bs) =
    let from1 = after (encode rune_error) (handle_last_bytes sf b1 (b2 ∷ bs)) in
    let from2 = after (encode rune_error ++ encode rune_error) (handle_last_bytes sf b2 bs) in
    if not (rune_start b0)
    then from1
    else if not (is_utf8_continuation b1)
    then from1
    else if not (is_utf8_continuation b2)
    then from2
    else record { out = []; filter = record { rest = b0 ∷ b1 ∷ b2 ∷ bs } }

-- The loop of `ProcessRaw` on the bytes not yet read; `none` means that the fuel ran out.
-- `dataLen - processedBytes < utf8.UTFMax` is an inequality of signed numbers.
unfoldable pub process_loop : ℕ → ℕ → ℕ → Shown → Bytes → Bytes → Option Step
unfolding handle_last_bytes
process_loop zero data_len processed sf result unread = none
process_loop (suc fuel) data_len processed sf result [] =
    some (record { out = result; filter = sf })
process_loop (suc fuel) data_len processed sf result (b ∷ bs) =
    let char = (read_rune b bs).char in
    let char_len = (read_rune b bs).char_len in
    let unread = drop char_len (b ∷ bs) in
    let replaced =
      process_loop fuel data_len (processed + char_len) sf (result ++ encode rune_error) unread in
    let added =
      process_loop fuel data_len (processed + char_len) sf (result ++ encode char) unread in
    if char == rune_error
    then (if ltb data_len (processed + utf_max)
        then (if rune_start b then some (after result (handle_last_bytes sf b bs)) else replaced)
        else replaced)
    else added

-- `ProcessRaw` behind its early return; `data_len` is the length of the new data alone.
unfoldable pub process_joined : ℕ → Shown → Bytes → Option Step
process_joined data_len sf joined =
    if valid_from (length joined) joined
    then some (record { out = joined; filter = sf })
    else process_loop (suc (length joined)) data_len 0 sf [] joined

-- `ProcessRaw` on the bytes that `rest` shows when it is called: the bytes that it writes, and those that
-- `rest` shows when it returns.
unfoldable pub process_raw : Shown → Bytes → Option Step
unfolding process_joined
process_raw sf [] = some (record { out = []; filter = sf })
process_raw sf (d ∷ ds) =
    if is_empty sf.rest
    then process_joined (length (d ∷ ds)) sf (d ∷ ds)
    else process_joined (length (d ∷ ds)) (record { rest = [] }) (sf.rest ++ d ∷ ds)

-- One placeholder for each pending byte; the pending bytes stay where they are.
unfoldable pub flush_from : Bytes → Bytes
flush_from [] = []
flush_from (b ∷ bs) = encode rune_error ++ flush_from bs

unfoldable pub flush_buffer : Shown → Step
unfolding flush_from
flush_buffer sf = record { out = flush_from sf.rest; filter = sf }
