-- ===== src/Terminal/Tests.antt =====
-- Two clients of an exec, one of which has gone, and an output that is cut inside a character.
use mathlib.Core.List.{flatten}
use che_machine_exec.Common.{
  ℕ, ◌-◌, ◌≡◌, refl, inl, inr, is_empty, Text, Bool, none, some, List, [], ◌∷◌, ◌==◌, length, drop,
  arith,
}
use che_machine_exec.Utf8.Runes.{encode, lead_of, second_ok, read_rune, valid_from, in_cont}
use che_machine_exec.Utf8.Filter.{process_raw, process_loop, process_joined, handle_last_bytes}
use che_machine_exec.Utf8.Shared.{
  Utf8StreamFilter, own, inside, show, fill, overwrite, join_data, keep, process_filled,
  process_read,
}
use che_machine_exec.Utf8.Sequences.{one, pair}
use che_machine_exec.Utf8.Pending.{more, stop}
use che_machine_exec.LineBuffer.{new, get_content}
use che_machine_exec.LineBuffer.Scan.{lines_of}
use che_machine_exec.Terminal.Sockets.{remove_connection}
use che_machine_exec.Terminal.Pty.{Ran, stream}
use che_machine_exec.Terminal.Pty.Delivered.{sent_to}
use che_machine_exec.Terminal.Pty.Output.{passing, nothing, datas, stream-IsClean}

remove_connection_example : remove_connection 5 (3 ∷ 5 ∷ 8 ∷ 9 ∷ []) ≡ some (3 ∷ 8 ∷ 9 ∷ [])
unfolding remove_connection
remove_connection_example = refl

-- A connection that is in the list twice makes the loop panic.
remove_twice_example : remove_connection 5 (5 ∷ 5 ∷ []) ≡ none
unfolding remove_connection
remove_twice_example = refl

abbrev only_three : ℕ → Bool
only_three conn = conn == 3

abbrev outputs : List ((ℕ → Bool) × Text)
outputs = (only_three, 0x41 ∷ 0xC3 ∷ []) ∷ (only_three, 0xA9 ∷ []) ∷ []

abbrev empty_filter : Utf8StreamFilter
empty_filter = record { rest = own [] }

abbrev four_bytes : Text
four_bytes = 0 ∷ 0 ∷ 0 ∷ 0 ∷ []

stream-IsClean_example :
    (ran : Ran) × (stream 10 four_bytes outputs
        (record { filter = empty_filter; buffer = new 2; ws_conns = 4 ∷ 3 ∷ [] })
      ≡ some ran)
    × (sent_to 3 ran.messages ≡ flatten (datas outputs))
    × (get_content ran.terminal.buffer
        ≡ flatten (
            drop
              (length (lines_of (flatten (datas outputs))) - 2)
              (lines_of (flatten (datas outputs)))))
unfolding encode lead_of second_ok flatten process_raw process_loop process_joined handle_last_bytes
    read_rune valid_from is_empty in_cont lines_of process_read process_filled show fill overwrite
    join_data keep
stream-IsClean_example =
    stream-IsClean 10 1 3 four_bytes (4 ∷ 3 ∷ []) outputs ((0x41 ∷ []) ∷ (0xC3 ∷ 0xA9 ∷ []) ∷ [])
      (inr (omega arith, inl (refl, tt))) (refl, (refl, tt))
      (more (0x41 ∷ []) (0xC3 ∷ 0xA9 ∷ []) refl (one 0x41 refl) (λ e. absurd (cc e))
        (more (0xC3 ∷ 0xA9 ∷ []) [] refl (pair 0xC3 0xA9 refl refl) (λ e. absurd (cc e)) stop))
      (tt, (omega arith, tt))
      (passing _ _ _ _
        (record {
          out = 0x41 ∷ [];
          filter = record { rest = inside 1 1 };
          memory = 0x41 ∷ 0xC3 ∷ 0 ∷ 0 ∷ [];
        })
        _ refl
        (passing _ _ _ _
          (record {
            out = 0xC3 ∷ 0xA9 ∷ [];
            filter = empty_filter;
            memory = 0xA9 ∷ 0xC3 ∷ 0xA9 ∷ 0 ∷ [];
          })
          _ refl (nothing _ _)))
      ((omega arith, tt), ((omega arith, tt), tt))
