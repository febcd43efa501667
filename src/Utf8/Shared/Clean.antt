-- ===== src/Utf8/Shared/Clean.antt =====
-- A text that arrives in chunks, cut anywhere, in one buffer.
use mathlib.Core.List.{append_assoc, append-nil, flatten}
use che_machine_exec.Common.{
  ℕ, ◌+◌, ◌≡◌, refl, sym, ap, ◌∙◌, subst, ◌⊎◌, inl, inr, Option, none, some, List, [], ◌∷◌, ◌++◌,
  arith, length, length-append,
}
use che_machine_exec.Utf8.Runes.{Bytes}
use che_machine_exec.Utf8.Filter.{process_raw}
use che_machine_exec.Utf8.Pending.{IsClean, IsPending}
use che_machine_exec.Utf8.Stream.{
  Cut, Cut-joins, cut, process_raw_joins, process_joined-Cut, IsClean-ne-IsPending,
}
use che_machine_exec.Utf8.Shared.{
  Slice, own, inside, Utf8StreamFilter, show, fill, join_data, keep, Called, process_filled,
  process_read, behind, process_stream,
}
use che_machine_exec.Utf8.Shared.Memory.{
  Holds, IsJoined, IsSpared, Holds-show, Holds-fill, join_data-IsJoined, keep-Holds,
}

abbrev AreSparedAfter : (Utf8StreamFilter → Bytes → Type 0) → Option Called → Type 0
AreSparedAfter after none = Unit
AreSparedAfter after (some called) = after called.filter called.memory

-- No chunk overwrites pending bytes when it is read into the buffer: while bytes are pending there, it is
-- no longer than what stands before them.
abbrev pub AreSpared : Utf8StreamFilter → List Bytes → Bytes → Type 0
AreSpared sf [] memory = Unit
AreSpared sf ([] ∷ cs) memory = AreSpared sf cs memory
AreSpared sf ((d ∷ ds) ∷ cs) memory =
    IsSpared sf.rest (d ∷ ds)
    × AreSparedAfter (λ sf' m. AreSpared sf' cs m) (process_read sf (d ∷ ds) memory)

-- A call on pending bytes that the chunk leaves.
process_read-Cut :
    (slice : Slice) (q memory : Bytes) (d : ℕ) (ds : Bytes) {v : Bytes} (c : Cut (q ++ (d ∷ ds)) v)
    → Holds slice q memory
    → IsSpared slice (d ∷ ds)
    → (next : Slice) × (m : Bytes) × (process_read (record { rest = slice }) (d ∷ ds) memory
        ≡ some (record { out = c.front; filter = record { rest = next }; memory = m }))
      × Holds next c.pending m
unfolding process_read process_filled
process_read-Cut slice q memory d ds c h spared =
    let chunk = d ∷ ds in
    let m = fill chunk memory in
    let held = Holds-fill slice q chunk memory spared h in
    let shown = Holds-show slice q m held in
    let joined = join_data slice chunk m in
    let ran : process_raw (record { rest = show slice m }) chunk
        ≡ some (record { out = c.front; filter = record { rest = c.pending } }) =
      ap (λ p. process_raw (record { rest = p }) chunk) shown
      ∙ process_raw_joins q d ds
      ∙ process_joined-Cut (length chunk) c (omega (arith, length-append q chunk)) in
    let size : length (show slice m) + length chunk ≡ length (c.front ++ c.pending) =
      ap (λ p. length {A = ℕ} p + length chunk) shown
      ∙ sym (length-append q chunk)
      ∙ ap (length {A = ℕ}) c.splits in
    (
      keep joined.0 (length (show slice m) + length chunk) c.pending,
      joined.1,
      rw (ran, process_filled) refl,
      keep-Holds joined.0 (length (show slice m) + length chunk) c.front c.pending joined.1 size (
          subst (λ u. IsJoined joined.0 u joined.1) c.splits
            (join_data-IsJoined slice q chunk memory held)),
    )

-- The run has written the text, and nothing is pending.
abbrev Writes : Bytes → Option Called → Type 0
Writes w ran =
    (m : Bytes) × (ran ≡ some (record { out = w; filter = record { rest = own [] }; memory = m }))

stream-behind :
    (sf : Utf8StreamFilter) (c : Bytes) (cs : List Bytes) (memory : Bytes) (called : Called)
    → process_read sf c memory ≡ some called
    → process_stream sf (c ∷ cs) memory
      ≡ behind called.out (process_stream called.filter cs called.memory)
unfolding process_stream
stream-behind sf c cs memory called e = rw (e, process_stream) refl

Holds-own : (slice : Slice) (memory : Bytes) → Holds slice [] memory → slice ≡ own []
Holds-own (own bytes) memory h = ap own h
Holds-own (inside start size) memory (e, full, h) = absurd (omega arith)

process_stream_end :
    (slice : Slice) (memory : Bytes)
    → process_stream (record { rest = slice }) [] memory
      ≡ some (record { out = []; filter = record { rest = slice }; memory = memory })
unfolding process_stream
process_stream_end slice memory = refl

empty_chunk :
    (sf : Utf8StreamFilter) (memory : Bytes)
    → process_read sf [] memory ≡ some (record { out = []; filter = sf; memory = memory })
unfolding process_read
empty_chunk sf memory = refl

behind-Writes :
    (front later w : Bytes) (ran : Option Called)
    → front ++ later ≡ w
    → Writes later ran
    → Writes w (behind front ran)
behind-Writes front later w ran e (m, k) = (
  m,
  ap (behind front) k
      ∙ ap (λ out. some (record { out = out; filter = record { rest = own [] }; memory = m })) e,
)

stream-Writes :
    (cs : List Bytes) (slice : Slice) (q memory : Bytes) {w : Bytes}
    → (q ≡ []) ⊎ IsPending q
    → IsClean w
    → w ≡ q ++ flatten cs
    → Holds slice q memory
    → AreSpared (record { rest = slice }) cs memory
    → Writes w (process_stream (record { rest = slice }) cs memory)
unfolding flatten
stream-Writes [] slice q memory {w} h c e held spared =
    let same : w ≡ q = e ∙ append-nil q in
    elim h [
      | inl p ↦
          let out : [] ≡ w = sym (same ∙ p) in
          let none_left = Holds-own slice memory (subst (λ x. Holds slice x memory) p held) in
          (
            memory,
            process_stream_end slice memory
                ∙ ap
                    (λ o.
                      some (record { out = o; filter = record { rest = slice }; memory = memory }))
                    out
                ∙ ap (λ r. some (record { out = w; filter = record { rest = r }; memory = memory }))
                    none_left,
          )
      | inr p ↦ absurd (IsClean-ne-IsPending (subst IsClean same c) p)
    ]
stream-Writes ([] ∷ cs) slice q memory {w} h c e held spared =
    let sf : Utf8StreamFilter = record { rest = slice } in
    subst (Writes w) (sym (stream-behind sf [] cs memory _ (empty_chunk sf memory)))
      (behind-Writes [] w w _ refl (stream-Writes cs slice q memory h c e held spared))
stream-Writes ((d ∷ ds) ∷ cs) slice q memory {w} h c e held spared =
    let sf : Utf8StreamFilter = record { rest = slice } in
    let at = cut c (q ++ (d ∷ ds)) (flatten cs) (e ∙ sym (append_assoc q (d ∷ ds) (flatten cs))) in
    let (next, m, ran, holds) = process_read-Cut slice q memory d ds at held spared.0 in
    let spared' = subst (AreSparedAfter (λ sf' m'. AreSpared sf' cs m')) ran spared.1 in
    subst (Writes w) (sym (stream-behind sf (d ∷ ds) cs memory _ ran)) (
      behind-Writes at.front at.later w _
        (Cut-joins at ∙ append_assoc q (d ∷ ds) (flatten cs) ∙ sym e)
        (stream-Writes cs next at.pending m at.pending_short at.later_clean at.later_eq holds
          spared'))

-- A text that has no placeholder character of its own comes out whole, however it is cut into chunks, also
-- inside a character and into empty chunks, and nothing stays pending, although the filter keeps its
-- pending bytes in the buffer that the caller reads the next chunk into, provided that no chunk
-- overwrites them there: while bytes are pending in the buffer, the chunk that comes next is no
-- longer than what stands before them.
pub process_stream-IsClean :
    (cs : List Bytes) (memory : Bytes)
    → IsClean (flatten cs)
    → AreSpared (record { rest = own [] }) cs memory
    → (after : Bytes) × (process_stream (record { rest = own [] }) cs memory
        ≡ some (record { out = flatten cs; filter = record { rest = own [] }; memory = after }))
process_stream-IsClean cs memory c spared =
    stream-Writes cs (own []) [] memory (inl refl) c refl refl spared
