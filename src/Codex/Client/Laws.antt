-- ===== src/Codex/Client/Laws.antt =====
-- Which answer a call takes.
use che_machine_exec.Common.{◌≡◌, refl, ◌∙◌, ap, Text, true, false, List, [], ◌∷◌, ◌++◌, All}
use che_machine_exec.Common.Int.{ℤ, pos, ◌+ℤ◌}
use che_machine_exec.Codex.Client.{
  Response, Frame, read_error, malformed, frame, Client, is_own, answer, await, call,
}

-- A frame that is not an answer to the call, and not the end of the connection.
abbrev pub IsForeign : ℤ → Frame → Type 0
IsForeign id read_error = ⊥
IsForeign id malformed = Unit
IsForeign id (frame r) = is_own id r.id ≡ false

await-skips :
    (method : Text) (id : ℤ) (junk : List Frame) (r : Response) (rest : List Frame)
    → All (IsForeign id) junk
    → is_own id r.id ≡ true
    → await method id (junk ++ frame r ∷ rest) ≡ (answer method r, rest)
unfolding await
await-skips method id [] r rest h own = rw (own, await) refl
await-skips method id (read_error ∷ junk) r rest h own = absurd h.0
await-skips method id (malformed ∷ junk) r rest h own = await-skips method id junk r rest h.1 own
await-skips method id (frame s ∷ junk) r rest h own =
    rw (h.0, await) (await-skips method id junk r rest h.1 own)

-- A call whose request is written takes the answer in the first response with its own ID, which is one
-- more than the ID before, whatever malformed frames, notifications and answers to other calls come
-- before it; the frames behind it are left for the next call.
pub call-own :
    (method : Text) (c : Client) (junk : List Frame) (r : Response) (rest : List Frame)
    → c.can_marshal ≡ true
    → c.can_write ≡ true
    → c.incoming ≡ junk ++ frame r ∷ rest
    → All (IsForeign (c.next_id +ℤ pos 1)) junk
    → is_own (c.next_id +ℤ pos 1) r.id ≡ true
    → call method c ≡ (answer method r, record c { next_id = c.next_id +ℤ pos 1; incoming = rest })
unfolding call
call-own method c junk r rest marshal write incoming h own =
    let id = c.next_id +ℤ pos 1 in
    let e : await method id c.incoming ≡ (answer method r, rest) =
      ap (await method id) incoming ∙ await-skips method id junk r rest h own in
    simp (marshal, write, e, call)
