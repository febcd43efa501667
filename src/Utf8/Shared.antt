-- ===== src/Utf8/Shared.antt =====
-- `Utf8StreamFilter` with its memory: `rest` is a slice, either of an array of the filter's own or of the
-- buffer that the caller reads each chunk into. `io.Copy`, which calls `PtyHandlerImpl.Write` for the
-- stream of an exec, uses one buffer for all its chunks.
pub mod Memory
pub mod Clean
use che_machine_exec.Common.{
  ℕ, zero, suc, ◌+◌, ◌-◌, Option, none, some, List, [], ◌∷◌, ◌++◌, if◌then◌else◌, length, take,
  drop, leb,
}
use che_machine_exec.Utf8.Runes.{Bytes}
use che_machine_exec.Utf8.Filter.{Shown, process_raw}

-- `own`: the contents of an array that nothing else writes to. `inside`: where the slice starts in the
-- caller's buffer, and its length; its capacity reaches to the end of the buffer.
pub data Slice : Type 0 where
  own : Bytes → Slice
  inside : ℕ → ℕ → Slice

pub record Utf8StreamFilter : Type 0 where
  pub rest : Slice

-- What a slice shows while the caller's buffer has the given contents.
unfoldable pub show : Slice → Bytes → Bytes
show (own bytes) memory = bytes
show (inside start size) memory = take size (drop start memory)

-- The caller's buffer when a chunk was read into it.
unfoldable pub fill : Bytes → Bytes → Bytes
fill chunk memory = chunk ++ drop (length chunk) memory

-- `append` in place.
unfoldable pub overwrite : ℕ → Bytes → Bytes → Bytes
overwrite start chunk memory = take start memory ++ (chunk ++ drop (start + length chunk) memory)

-- `data`, once it is joined: where it starts in the caller's buffer, unless it is in an array of its own,
-- and the buffer. `append` makes a new array when the capacity of `rest` is too small.
unfoldable pub join_data : Slice → Bytes → Bytes → Option ℕ × Bytes
unfolding overwrite
join_data (own []) chunk memory = (some 0, memory)
join_data (own (b ∷ bytes)) chunk memory = (none, memory)
join_data (inside start zero) chunk memory = (some 0, memory)
join_data (inside start (suc size)) chunk memory =
    if leb (start + suc size + length chunk) (length memory)
    then (some start, overwrite (start + suc size) chunk memory)
    else (none, memory)

-- The slice of the last bytes of the joined data, whose length is the number given.
unfoldable pub keep : Option ℕ → ℕ → Bytes → Slice
keep start size [] = own []
keep none size (b ∷ pending) = own (b ∷ pending)
keep (some start) size (b ∷ pending) =
    inside (start + size - length (b ∷ pending)) (length (b ∷ pending))

-- What a call writes, and the filter and the caller's buffer after it.
pub record Called : Type 0 where
  pub out : Bytes
  pub filter : Utf8StreamFilter
  pub memory : Bytes

-- `ProcessRaw` behind its early return, on a chunk that stands at the front of the caller's buffer.
unfoldable pub process_filled : Utf8StreamFilter → Bytes → Bytes → Option Called
unfolding process_raw show join_data keep
process_filled sf chunk memory =
    let pending = show sf.rest memory in
    let joined = join_data sf.rest chunk memory in
    elim (process_raw (record { rest = pending }) chunk) [
      | none ↦ none
      | some step ↦ some (record {
        out = step.out;
        filter = record { rest = keep joined.0 (length pending + length chunk) step.filter.rest };
        memory = joined.1;
      })
    ]

-- The caller reads a chunk into its buffer and calls `ProcessRaw` with it; `none` means that fuel ran out.
unfoldable pub process_read : Utf8StreamFilter → Bytes → Bytes → Option Called
unfolding process_filled fill
process_read sf [] memory = some (record { out = []; filter = sf; memory = memory })
process_read sf (d ∷ ds) memory = process_filled sf (d ∷ ds) (fill (d ∷ ds) memory)

abbrev pub behind : Bytes → Option Called → Option Called
behind out none = none
behind out (some c) = some (record c { out = out ++ c.out })

-- The calls for the chunks of a stream, with one buffer.
unfoldable pub process_stream : Utf8StreamFilter → List Bytes → Bytes → Option Called
unfolding process_read
process_stream sf [] memory = some (record { out = []; filter = sf; memory = memory })
process_stream sf (c ∷ cs) memory = elim (process_read sf c memory) [
  | none ↦ none
  | some called ↦ behind called.out (process_stream called.filter cs called.memory)
]
