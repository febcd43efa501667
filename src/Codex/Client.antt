-- ===== src/Codex/Client.antt =====
-- timeout/codex_app_server_client.go: the JSON-RPC client. The frames that the server sends are a
-- list; the JSON encoder and decoder, and the writing half of the connection, are parameters.
pub mod Laws
use che_machine_exec.Common.{
  ℕ, ◌+◌, Text, codes, text_eq, Bool, true, false, not, Option, none, some, List, [], ◌∷◌, Result,
  ok, err, if◌then◌else◌,
}
use che_machine_exec.Common.Int.{ℤ, pos, ◌+ℤ◌, leb_ℤ}

-- `codexJSONRPCResponse` with a raw result; `none` is nil.
pub record Response : Type 0 where
  pub id : Option ℤ
  pub result : Text
  pub error : Option (ℤ × Text)

-- What `ReadMessage` and the decoder make of the next frame.
pub data Frame : Type 0 where
  read_error : Frame
  malformed : Frame
  frame : Response → Frame

-- A JSON-RPC error leaves the connection usable; the others are failures of the transport or of a
-- decoder.
pub data CallError : Type 0 where
  rpc_error : Text → ℤ → Text → CallError
  marshal_failed : CallError
  write_failed : CallError
  read_failed : CallError
  bad_result : CallError

-- The client: its counter, the frames still to come, and whether requests can be encoded and
-- written.
pub record Client : Type 0 where
  pub next_id : ℤ
  pub incoming : List Frame
  pub can_marshal : Bool
  pub can_write : Bool

abbrev pub same : ℤ → ℤ → Bool
same a b = elim (leb_ℤ a b) [ true ↦ leb_ℤ b a | false ↦ false ]

abbrev pub is_own : ℤ → Option ℤ → Bool
is_own id none = false
is_own id (some other) = same other id

-- The answer of the response with the own ID.
unfoldable pub answer : Text → Response → Result CallError Text
answer method r = elim r.error [
  | none ↦ ok r.result
  | some (code, message) ↦ err (rpc_error method code message)
]

-- The reading loop: the answer and the frames that are left. A connection without further frames ends
-- in a read error, at the deadline at the latest.
unfoldable pub await : Text → ℤ → List Frame → Result CallError Text × List Frame
unfolding answer
await method id [] = (err read_failed, [])
await method id (read_error ∷ frames) = (err read_failed, frames)
await method id (malformed ∷ frames) = await method id frames
await method id (frame r ∷ frames) = elim (is_own id r.id) [
  | true ↦ (answer method r, frames)
  | false ↦ await method id frames
]

-- `call` up to the decoding of the result.
unfoldable pub call : Text → Client → Result CallError Text × Client
unfolding await
call method c =
    let id = c.next_id +ℤ pos 1 in
    let sent = record c { next_id = id } in
    let (r, frames) = await method id c.incoming in
    if not c.can_marshal
    then (err marshal_failed, sent)
    else if not c.can_write
    then (err write_failed, sent)
    else (r, record sent { incoming = frames })

-- The decoding of a result.
unfoldable pub decode_with :
    {A : Type 0} → (Text → Option A) → Result CallError Text → Result CallError A
decode_with decode (err e) = err e
decode_with decode (ok text) = elim (decode text) [ none ↦ err bad_result | some a ↦ ok a ]

-- `codexThread`; the active flags are only logged.
pub record Thread : Type 0 where
  pub id : Text
  pub status : Text
  pub updated_at : ℤ

-- The JSON decoder at the two types of results.
pub record Decoders : Type 0 where
  pub loaded_list : Text → Option (List Text)
  pub thread : Text → Option Thread

unfoldable pub find_active_thread : List Thread → Option Thread
unfolding text_eq
find_active_thread [] = none
find_active_thread (t ∷ ts) =
    if text_eq t.status (codes "active") then some t else find_active_thread ts

-- `initialize` asks for no result.
unfoldable pub initialize : Client → Result CallError Text × Client
unfolding call
initialize c = call (codes "initialize") c

unfoldable pub thread_loaded_list : Decoders → Client → Result CallError (List Text) × Client
unfolding call decode_with
thread_loaded_list d c =
    let (r, after) = call (codes "thread/loaded/list") c in (decode_with d.loaded_list r, after)

unfoldable pub thread_read : Decoders → Text → Client → Result CallError Thread × Client
unfolding call decode_with
thread_read d thread_id c =
    let (r, after) = call (codes "thread/read") c in (decode_with d.thread r, after)

-- `dialCodexAppServerClient` on a connection that was opened, or `none`: a client whose handshake has
-- succeeded.
unfoldable pub dial : Option Client → Option Client
unfolding initialize
dial none = none
dial (some c) = let (r, after) = initialize c in elim r [ err e ↦ none | ok text ↦ some after ]
