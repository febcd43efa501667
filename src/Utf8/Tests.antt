-- ===== src/Utf8/Tests.antt =====
-- Runs of the UTF-8 filter.
use mathlib.Core.List.{flatten}
use che_machine_exec.Common.{◌≡◌, refl, inl, true, some, List, [], ◌∷◌, arith, is_empty}
use che_machine_exec.Utf8.Runes.{Bytes, valid_from, encode, lead_of, in_cont, second_ok, read_rune}
use che_machine_exec.Utf8.Sequences.{one, pair}
use che_machine_exec.Utf8.Filter.{
  Shown, Step, process_raw, process_loop, process_joined, handle_last_bytes,
}
use che_machine_exec.Utf8.Total.{process_raw-total}
use che_machine_exec.Utf8.Output.{process_raw-valid}
use che_machine_exec.Utf8.Pending.{more, stop}
use che_machine_exec.Utf8.Stream.{process_chunks}
use che_machine_exec.Utf8.Shared.{
  own, show, fill, overwrite, join_data, keep, process_filled, process_read, process_stream,
}
use che_machine_exec.Utf8.Shared.Clean.{process_stream-IsClean}
use che_machine_exec.Utf8.Stall.{IsStuck, process_chunks-stall}

-- The filter without pending bytes.
abbrev empty_filter : Shown
empty_filter = record { rest = [] }

abbrev replaced_step : Step
replaced_step = record { out = 0x41 ∷ 0xEF ∷ 0xBF ∷ 0xBD ∷ []; filter = empty_filter }

process_raw-valid_example : valid_from 4 (0x41 ∷ 0xEF ∷ 0xBF ∷ 0xBD ∷ []) ≡ true
unfolding process_raw is_empty valid_from process_loop read_rune encode
process_raw-valid_example =
    process_raw-valid empty_filter (0x41 ∷ 0x80 ∷ []) {s = replaced_step} refl

process_raw-total_example : (s : Step) × (process_raw empty_filter (0xFF ∷ 0x41 ∷ []) ≡ some s)
process_raw-total_example = process_raw-total empty_filter (0xFF ∷ 0x41 ∷ [])

overlong : IsStuck 0xE0 0x80 0x80
unfolding lead_of in_cont second_ok
overlong = record { starts = inl refl; second = refl; misfit = refl; third = refl }

process_chunks-stall_example :
    process_chunks
      (record { rest = 0xE0 ∷ 0x80 ∷ 0x80 ∷ [] })
      ((0x41 ∷ []) ∷ (0x42 ∷ 0x43 ∷ []) ∷ [])
    ≡ some (record {
      out = [];
      filter = record { rest = 0xE0 ∷ 0x80 ∷ 0x80 ∷ 0x41 ∷ 0x42 ∷ 0x43 ∷ [] };
    })
unfolding flatten
process_chunks-stall_example =
    process_chunks-stall overlong ((0x41 ∷ []) ∷ (0x42 ∷ 0x43 ∷ []) ∷ []) []
      (omega arith, (omega arith, tt))

-- A chunk of two bytes, and one byte that leaves the pending byte in the buffer.
abbrev two_chunks : List Bytes
two_chunks = (0x41 ∷ 0xC3 ∷ []) ∷ (0xA9 ∷ []) ∷ []

abbrev four_bytes : Bytes
four_bytes = 0 ∷ 0 ∷ 0 ∷ 0 ∷ []

process_stream-IsClean_example :
    (after : Bytes) × (process_stream (record { rest = own [] }) two_chunks four_bytes
      ≡ some (record {
        out = 0x41 ∷ 0xC3 ∷ 0xA9 ∷ [];
        filter = record { rest = own [] };
        memory = after;
      }))
unfolding encode lead_of second_ok flatten process_raw process_loop process_joined handle_last_bytes
    read_rune valid_from is_empty in_cont process_read process_filled show fill overwrite join_data
    keep
process_stream-IsClean_example =
    process_stream-IsClean two_chunks four_bytes
      (more (0x41 ∷ []) (0xC3 ∷ 0xA9 ∷ []) refl (one 0x41 refl) (λ e. absurd (cc e))
        (more (0xC3 ∷ 0xA9 ∷ []) [] refl (pair 0xC3 0xA9 refl refl) (λ e. absurd (cc e)) stop))
      (tt, (omega arith, tt))

-- A chunk that is longer than what stands before the pending byte overwrites it: two placeholders are
-- written in place of the character.
overwritten_byte :
    process_stream (record { rest = own [] }) ((0xC3 ∷ []) ∷ (0xA9 ∷ 0x0A ∷ []) ∷ []) four_bytes
    ≡ some (record {
      out = 0xEF ∷ 0xBF ∷ 0xBD ∷ 0xEF ∷ 0xBF ∷ 0xBD ∷ 0x0A ∷ [];
      filter = record { rest = own [] };
      memory = 0xA9 ∷ 0xA9 ∷ 0x0A ∷ 0 ∷ [];
    })
unfolding encode lead_of second_ok process_raw process_loop process_joined handle_last_bytes
    read_rune valid_from is_empty in_cont process_stream process_read process_filled show fill
    overwrite join_data keep
overwritten_byte = refl
