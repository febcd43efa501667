-- ===== src/Terminal/Pty.antt =====
-- exec/pty_handler.go, the stream part of `Attach` in exec/kubernetes_exec_manager.go and
-- exec/health-watcher.go.
pub mod Delivered
pub mod Output
use che_machine_exec.Common.{
  ℕ, Text, Bool, codes, Option, none, some, List, [], ◌∷◌, ◌++◌, length, take,
}
use che_machine_exec.Utf8.Shared.{Utf8StreamFilter, own, process_read}
use che_machine_exec.LineBuffer.{LineRingBuffer, line_buffer_size, new, write, get_content}
use che_machine_exec.Terminal.Sockets.{
  Sent, read_connection, write_data_to_ws_connections, close_connections,
}
use che_machine_exec.Exec.Resolver.{MachineExec}
use che_machine_exec.Exec.Manager.{Execs, remove}

-- The part of an exec that its output changes.
pub record Terminal : Type 0 where
  pub filter : Utf8StreamFilter
  pub buffer : LineRingBuffer
  pub ws_conns : List ℕ

-- What `Write` returns, the terminal and the caller's buffer after it, and the messages it sent.
pub record Written : Type 0 where
  pub count : ℕ
  pub terminal : Terminal
  pub memory : Text
  pub messages : List (ℕ × Text)

abbrev pub written_by : ℕ → Utf8StreamFilter → LineRingBuffer → Text → Sent → Written
written_by count filter buffer memory sent = record {
  count = count;
  terminal = record { filter = filter; buffer = buffer; ws_conns = sent.conns };
  memory = memory;
  messages = sent.messages;
}

-- `Write` of bytes that the caller has read into its buffer; `none` means that fuel ran out.
unfoldable pub pty_write : ℕ → (ℕ → Bool) → Text → Text → Terminal → Option Written
unfolding process_read write write_data_to_ws_connections
pty_write max accepts p memory t = elim (process_read t.filter p memory) [
  | none ↦ none
  | some called ↦ elim (write max t.buffer called.out) [
    | none ↦ none
    | some buffer ↦ some (
        written_by (length p) called.filter buffer called.memory
          (write_data_to_ws_connections accepts called.out t.ws_conns))
  ]
]

-- `Read` into `size` bytes: the bytes it copies and the messages left, or `none` while it waits.
unfoldable pub pty_read : ℕ → List Text → Option (Text × List Text)
pty_read size [] = none
pty_read size (data' ∷ messages) = some (take size data', messages)

-- `Attach` of the first connection, up to the stream.
unfoldable pub attach_first : ℕ → List ℕ → Terminal
unfolding new
attach_first conn conns = record {
  filter = record { rest = own [] };
  buffer = new line_buffer_size;
  ws_conns = read_connection conn conns;
}

-- `Attach` of a later connection, and what it sends to restore the output.
unfoldable pub attach_again : ℕ → Terminal → Terminal × Text
unfolding get_content
attach_again conn t =
    (record t { ws_conns = read_connection conn t.ws_conns }, get_content t.buffer)

-- The outputs that the stream hands to `Write`, each with the connections that accept the write.
pub record Ran : Type 0 where
  pub terminal : Terminal
  pub messages : List (ℕ × Text)

abbrev pub run_on : List (ℕ × Text) → Option Ran → Option Ran
run_on messages none = none
run_on messages (some ran) = some (record ran { messages = messages ++ ran.messages })

-- `Stream`, which reads each output into the same buffer.
unfoldable pub stream : ℕ → Text → List ((ℕ → Bool) × Text) → Terminal → Option Ran
unfolding pty_write
stream max memory [] t = some (record { terminal = t; messages = [] })
stream max memory ((accepts, p) ∷ outputs) t = elim (pty_write max accepts p memory t) [
  | none ↦ none
  | some written ↦ run_on written.messages (stream max written.memory outputs written.terminal)
]

-- How the stream of an exec ends: `ExitChan`, or `ErrorChan` with the text of the error.
pub data Ended : Type 0 where
  exited : Ended
  broken : Text → Ended

pub data ExecEvent : Type 0 where
  exec_exit : ℕ → ExecEvent
  exec_error : ℕ → Text → ExecEvent

-- The end of `Attach`: the connections it closes, and what it sends to the health watcher.
unfoldable pub end_attach : Option Text → Terminal → List ℕ × Terminal × Ended
end_attach failure t =
    let after = record t { ws_conns = (close_connections t.ws_conns).1 } in
    elim failure [
      | none ↦ ((close_connections t.ws_conns).0, after, exited)
      | some e ↦ ((close_connections t.ws_conns).0, after, broken e)
    ]

-- `CleanUpOnExitOrError`: the execs after it, and the event that it publishes.
unfoldable pub clean_up_on_exit_or_error : ℕ → Ended → Execs → Execs × ExecEvent
unfolding remove
clean_up_on_exit_or_error id exited st = (remove id st, exec_exit id)
clean_up_on_exit_or_error id (broken stack) st = (remove id st, exec_error id stack)
