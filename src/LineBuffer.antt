-- ===== src/LineBuffer.antt =====
-- output/line-buffer: the scanner that cuts output into lines, and the ring of the last lines.
-- The ring is the list of its values in order from the current element on, so `Next` turns the
-- list, and the value of `Prev` stands at its end. The mutex is held over each method, so a method
-- is one step.
pub mod Scan
pub mod Content
mod Places
pub mod Ring
mod Tests
use che_machine_exec.Common.{
  ℕ, zero, suc, ◌+◌, Bool, true, false, not, List, [], ◌∷◌, ◌++◌, Option, none, some, Text, codes,
  text_eq, has_suffix, if◌then◌else◌, ltb, ◌==◌, length, take, drop, replicate,
}

abbrev pub line_buffer_size : ℕ
line_buffer_size = 1000

-- `bufio.MaxScanTokenSize`.
abbrev pub max_scan_token_size : ℕ
max_scan_token_size = 65536

-- `bytes.IndexByte(data, c)`; `none` is -1.
unfoldable pub index_byte : Text → ℕ → Option ℕ
index_byte [] c = none
index_byte (x ∷ xs) c =
    if x == c then some 0 else elim (index_byte xs c) [ some i ↦ some (suc i) | none ↦ none ]

-- The results of a `bufio.SplitFunc`; its error is always nil here.
pub record Token : Type 0 where
  pub advance : ℕ
  pub token : Option Text

unfoldable pub scan_lines_no_drop_cr : Text → Bool → Token
unfolding index_byte
scan_lines_no_drop_cr [] true = record { advance = 0; token = none }
scan_lines_no_drop_cr data' at_eof = elim (index_byte data' b'\n') [
  | some i ↦ record { advance = suc i; token = some (take (suc i) data') }
  | none ↦
      if at_eof
      then record { advance = length data'; token = some data' }
      else record { advance = 0; token = none }
]

-- `LineScanner.Scan` and `Text` on the bytes not yet taken: the next token and the bytes behind it.
-- `bufio.Scanner` shows its split function at most `max` bytes, and reaches the end of its input
-- only in a buffer that is not full; a buffer of `max` bytes without a token ends the scan.
unfoldable pub taken : Token → Text → Option (Text × Text)
taken found unread = elim found.token [
  | none ↦ none
  | some token ↦ some (token, drop found.advance unread)
]

unfoldable pub scan : ℕ → Text → Option (Text × Text)
unfolding scan_lines_no_drop_cr taken
scan max unread = taken (scan_lines_no_drop_cr (take max unread) (ltb (length unread) max)) unread

pub record LineRingBuffer : Type 0 where
  pub ring : List (Option Text)

-- `New`, with the size of the ring as an argument.
unfoldable pub new : ℕ → LineRingBuffer
new size = record { ring = replicate size none }

-- `ring.Value = text; ring = ring.Next()`.
unfoldable pub put : List (Option Text) → Text → List (Option Text)
put [] text = []
put (v ∷ vs) text = vs ++ some text ∷ []

-- `ring.Prev().Value`, and a write to it.
unfoldable pub prev_value : List (Option Text) → Option Text
prev_value [] = none
prev_value (v ∷ []) = v
prev_value (v ∷ w ∷ vs) = prev_value (w ∷ vs)

unfoldable pub set_prev_value : List (Option Text) → Text → List (Option Text)
set_prev_value [] text = []
set_prev_value (v ∷ []) text = some text ∷ []
set_prev_value (v ∷ w ∷ vs) text = v ∷ set_prev_value (w ∷ vs) text

unfoldable pub should_continue_last_ring : Option Text → Text → Bool
unfolding has_suffix
should_continue_last_ring none next_text = false
should_continue_last_ring (some last_line) next_text = not (has_suffix last_line (codes "\n"))

-- The write of the first token.
unfoldable pub put_first : List (Option Text) → Text → List (Option Text)
unfolding prev_value set_prev_value put should_continue_last_ring
put_first ring text = elim (prev_value ring) [
  | none ↦ put ring text
  | some last_line ↦
      if should_continue_last_ring (some last_line) text
      then set_prev_value ring (last_line ++ text)
      else put ring text
]

-- `for scanner.Scan() { … }`; `none` means that the fuel ran out.
unfoldable pub put_all : ℕ → ℕ → List (Option Text) → Text → Option (List (Option Text))
unfolding scan put
put_all zero max ring unread = none
put_all (suc fuel) max ring unread = elim (scan max unread) [
  | none ↦ some ring
  | some (text, rest) ↦ put_all fuel max (put ring text) rest
]

unfoldable pub write : ℕ → LineRingBuffer → Text → Option LineRingBuffer
unfolding scan put_first put_all
write max buff bts = elim (scan max bts) [
  | none ↦ some buff
  | some (text, rest) ↦ elim (put_all (suc (length rest)) max (put_first buff.ring text) rest) [
    | none ↦ none
    | some ring ↦ some (record { ring = ring })
  ]
]

-- `GetContent`: `Do` calls its function on each value, from the current element on.
unfoldable pub content_of : List (Option Text) → Text
content_of [] = []
content_of (none ∷ vs) = content_of vs
content_of (some line ∷ vs) = line ++ content_of vs

unfoldable pub get_content : LineRingBuffer → Text
unfolding content_of
get_content buff = content_of buff.ring
