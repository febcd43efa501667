-- ===== src/LineBuffer/Tests.antt =====
-- Runs of the line buffer.
use che_machine_exec.Common.{◌≡◌, ◌-◌, some, List, [], ◌∷◌, Text, codes, length, drop, arith}
use che_machine_exec.LineBuffer.{LineRingBuffer, new, get_content}
use mathlib.Core.List.{flatten}
use che_machine_exec.LineBuffer.Scan.{lines_of}
use che_machine_exec.LineBuffer.Ring.{write_all, get_content-last_lines}

-- Three lines in two chunks, one of them cut, in a ring of two places.
abbrev chunks : List Text
chunks = codes "a\nb" ∷ codes "c\nd" ∷ []

get_content-last_lines_example :
    (buff : LineRingBuffer) × (write_all 5 (new 2) chunks ≡ some buff)
    × (get_content buff
        ≡ flatten (drop (length (lines_of (flatten chunks)) - 2) (lines_of (flatten chunks))))
unfolding lines_of
get_content-last_lines_example =
    get_content-last_lines 5 1 chunks
      ((omega arith, (omega arith, tt)), ((omega arith, (omega arith, tt)), tt))
