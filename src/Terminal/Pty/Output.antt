-- ===== src/Terminal/Pty/Output.antt =====
-- What a client sees of the output of an exec.
use che_machine_exec.Common.{
  ℕ, suc, ◌-◌, ◌≡◌, refl, sym, ap, ◌∙◌, inl, inr, Text, Bool, true, Option, none, some, List, [],
  ◌∷◌, ◌++◌, map, All, length, drop, Option-cases,
}
use mathlib.Core.List.{flatten}
use che_machine_exec.Utf8.Pending.{IsClean}
use che_machine_exec.Utf8.Shared.{
  Utf8StreamFilter, own, Called, behind, process_read, process_stream,
}
use che_machine_exec.Utf8.Shared.Clean.{AreSpared, process_stream-IsClean}
use che_machine_exec.LineBuffer.{LineRingBuffer, new, write, get_content}
use che_machine_exec.LineBuffer.Scan.{lines_of}
use che_machine_exec.LineBuffer.Ring.{IsShort, write_all, get_content-last_lines}
use che_machine_exec.Terminal.Sockets.{write_data_to_ws_connections}
use che_machine_exec.Terminal.Pty.{Terminal, Written, Ran, written_by, pty_write, run_on, stream}
use che_machine_exec.Terminal.Pty.Delivered.{sent_to, sent_to-append, IsOnce, IsOnce-Got}

-- The texts that the filter passes on, one for each output of the stream, which are read into the same
-- buffer.
pub data PassedOn : Utf8StreamFilter → Text → List Text → List Text → Type 0 where
  nothing : (sf : Utf8StreamFilter) (memory : Text) → PassedOn sf memory [] []
  passing :
      (sf : Utf8StreamFilter) (memory p : Text) (ps : List Text) (called : Called)
      (texts : List Text)
      → process_read sf p memory ≡ some called
      → PassedOn called.filter called.memory ps texts
      → PassedOn sf memory (p ∷ ps) (called.out ∷ texts)

some_inj : {A : Type 0} (o : Option A) {a b : A} → o ≡ some a → o ≡ some b → a ≡ b
some_inj o h k = cc (h, k)

process_stream-cons :
    (sf : Utf8StreamFilter) (memory p : Text) (ps : List Text) (called : Called)
    → process_read sf p memory ≡ some called
    → process_stream sf (p ∷ ps) memory
      ≡ behind called.out (process_stream called.filter ps called.memory)
unfolding process_stream
process_stream-cons sf memory p ps called e = rw (e, process_stream) refl

-- The outputs in order, joined, are what the filter writes for the chunks.
PassedOn-flatten :
    (sf : Utf8StreamFilter) (memory : Text) (ps texts : List Text)
    → PassedOn sf memory ps texts
    → (last : Utf8StreamFilter) × (after : Text) × (process_stream sf ps memory
        ≡ some (record { out = flatten texts; filter = last; memory = after }))
unfolding flatten process_stream
PassedOn-flatten sf memory [] [] (nothing _ _) = (sf, memory, refl)
PassedOn-flatten sf memory [] (_ ∷ texts) x = elim x [ ]
PassedOn-flatten sf memory (p ∷ ps) [] x = elim x [ ]
PassedOn-flatten sf memory (p ∷ ps) (_ ∷ texts) (passing _ _ _ _ called _ e rest) =
    let (last, after, chunks) = PassedOn-flatten called.filter called.memory ps texts rest in
    (last, after, process_stream-cons sf memory p ps called e ∙ ap (behind called.out) chunks)

write_all-cons :
    (max : ℕ) (b last : LineRingBuffer) (t : Text) (ts : List Text)
    → write_all max b (t ∷ ts) ≡ some last
    → (m : LineRingBuffer) × (write max b t ≡ some m) × (write_all max m ts ≡ some last)
write_all-cons max b last t ts h = elim (Option-cases (write max b t)) [
  | inl e ↦
      let bad : write_all max b (t ∷ ts) ≡ none = rw (e, write_all) refl in absurd (cc (bad, h))
  | inr (m, e) ↦ (
    m,
    e,
    let same : write_all max b (t ∷ ts) ≡ write_all max m ts = rw (e, write_all) refl in
        sym same ∙ h,
  )
]

abbrev pub datas : List ((ℕ → Bool) × Text) → List Text
datas outputs = map (λ output. output.1) outputs

pty_write_passed :
    (max : ℕ) (accepts : ℕ → Bool) (p memory : Text) (t : Terminal) (m : LineRingBuffer)
    (called : Called)
    → process_read t.filter p memory ≡ some called
    → write max t.buffer called.out ≡ some m
    → pty_write max accepts p memory t
      ≡ some (
          written_by
            (length p)
            called.filter
            m
            called.memory
            (write_data_to_ws_connections accepts called.out t.ws_conns))
unfolding pty_write
pty_write_passed max accepts p memory t m called e1 e2 =
    rw (e1, pty_write) (rw (e2, pty_write) refl)

stream-cons :
    (max : ℕ) (accepts : ℕ → Bool) (p memory : Text) (outputs : List ((ℕ → Bool) × Text))
    (t : Terminal) (w : Written)
    → pty_write max accepts p memory t ≡ some w
    → stream max memory ((accepts, p) ∷ outputs) t
      ≡ run_on w.messages (stream max w.memory outputs w.terminal)
unfolding stream
stream-cons max accepts p memory outputs t w e = rw (e, stream) refl

-- What `conn` has been sent, and the buffer, at the end of a run.
abbrev Shows : ℕ → List Text → LineRingBuffer → Ran → Type 0
Shows conn texts last ran =
    (sent_to conn ran.messages ≡ flatten texts) × (ran.terminal.buffer ≡ last)

stream-Shows :
    (max conn : ℕ) (memory : Text) (outputs : List ((ℕ → Bool) × Text)) (t : Terminal)
    (last : LineRingBuffer) (texts : List Text)
    → IsOnce conn t.ws_conns
    → All (λ output. output.0 conn ≡ true) outputs
    → PassedOn t.filter memory (datas outputs) texts
    → write_all max t.buffer texts ≡ some last
    → (ran : Ran) × (stream max memory outputs t ≡ some ran) × Shows conn texts last ran
unfolding sent_to flatten
stream-Shows max conn memory [] t last [] once acc (nothing _ _) h =
    (record { terminal = t; messages = [] }, unfold stream in refl, (refl, cc h))
stream-Shows max conn memory [] t last (_ ∷ texts) once acc x h = elim x [ ]
stream-Shows max conn memory (output ∷ outputs) t last [] once acc x h = elim x [ ]
stream-Shows max conn memory ((accepts, p) ∷ outputs) t last (_ ∷ texts) once acc
      (passing _ _ _ _ called _ e rest) h =
    let (m, e2, h2) = write_all-cons max t.buffer last called.out texts h in
    let s = write_data_to_ws_connections accepts called.out t.ws_conns in
    let (got, still) = IsOnce-Got conn accepts called.out t.ws_conns acc.0 once in
    let written = written_by (length p) called.filter m called.memory s in
    let (ran, went, (sent, ends)) =
      stream-Shows max conn called.memory outputs written.terminal last texts still acc.1 rest h2 in
    (
      record ran { messages = written.messages ++ ran.messages },
      stream-cons max accepts p memory outputs t written
            (pty_write_passed max accepts p memory t m called e e2)
          ∙ ap (run_on written.messages) went,
      (
        sent_to-append conn s.messages ran.messages
            ∙ ap (λ x. x ++ sent_to conn ran.messages) got
            ∙ ap (λ x. called.out ++ x) sent,
        ends,
      ),
    )

-- A client whose connection stands once in the list, and accepts every write, gets the output of the
-- container whole and in order, however the stream cuts a text that has no placeholder character of
-- its own, whatever becomes of the other connections, provided that no output overwrites the filter's
-- pending bytes in the one buffer that the stream reads them all into; and the line buffer then holds the
-- last `n + 1` lines of that output, as long as no line of a text that the filter passes on fills the
-- scanner's buffer.
pub stream-IsClean :
    (max n conn : ℕ) (memory : Text) (conns : List ℕ) (outputs : List ((ℕ → Bool) × Text))
    (texts : List Text)
    → IsOnce conn conns
    → All (λ output. output.0 conn ≡ true) outputs
    → IsClean (flatten (datas outputs))
    → AreSpared (record { rest = own [] }) (datas outputs) memory
    → PassedOn (record { rest = own [] }) memory (datas outputs) texts
    → All (IsShort max) texts
    → (ran : Ran) × (stream max memory outputs
          (record { filter = record { rest = own [] }; buffer = new (suc n); ws_conns = conns })
        ≡ some ran)
      × (sent_to conn ran.messages ≡ flatten (datas outputs))
      × (get_content ran.terminal.buffer
          ≡ flatten (
              drop
                (length (lines_of (flatten (datas outputs))) - suc n)
                (lines_of (flatten (datas outputs)))))
stream-IsClean max n conn memory conns outputs texts once acc clean spared passed short =
    let sf : Utf8StreamFilter = record { rest = own [] } in
    let (last, all, shows) = get_content-last_lines max n texts short in
    let (ran, went, (sent, ends)) =
      stream-Shows max conn memory outputs
        (record { filter = sf; buffer = new (suc n); ws_conns = conns }) last texts once acc passed
        all in
    let (_, _, chunks) = PassedOn-flatten sf memory (datas outputs) texts passed in
    let (_, whole) = process_stream-IsClean (datas outputs) memory clean spared in
    let same : flatten texts ≡ flatten (datas outputs) =
      ap Called.out (some_inj (process_stream sf (datas outputs) memory) chunks whole) in
    (
      ran,
      went,
      sent ∙ same,
      ap get_content ends
          ∙ shows
          ∙ ap (λ t. flatten (drop (length (lines_of t) - suc n) (lines_of t))) same,
    )
