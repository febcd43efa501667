-- ===== src/Lifecycle.antt =====
-- The lives of execs, from the request that makes one to the event that reports its end: the handlers of
-- api/jsonrpc/handlers.go, the calls of `Attach` in exec/kubernetes_exec_manager.go and the health
-- watchers of exec/health-watcher.go, interleaved in any order.
pub mod Members
pub mod Invariant
pub mod Sound
pub mod Reach
mod Tests
use che_machine_exec.Common.{
  ℕ, ◌+◌, ◌<◌, ◌≡◌, Text, Bool, true, false, Option, none, some, List, [], ◌∷◌, ◌++◌, ok, In,
}
use che_machine_exec.Exec.Resolver.{MachineExec}
use che_machine_exec.Exec.Manager.{Execs, Api, get_by_id, put, delete}
use che_machine_exec.Api.Rpc.{
  Reply, sends_id, sends_error, sends_containers, minus_one, Outcome, json_rpc_create_exec,
  json_rpc_resize_exec,
}
use che_machine_exec.Terminal.Pty.{
  Terminal, Ended, ExecEvent, end_attach, clean_up_on_exit_or_error,
}

-- Where the goroutine that looks after an exec is: the request has made the exec and has yet to start
-- the health watcher; the watcher waits at `ExitChan` and `ErrorChan`; it has received how the stream
-- ended, and has yet to remove the exec.
pub data Watcher : Type 0 where
  registered : Watcher
  waiting : Watcher
  received : Ended → Watcher

-- What the goroutines share, and where each of them is; an exec is named by its ID. `watchers`: the
-- execs that were made and not yet removed. `attaching`: calls of `Attach` that have found their exec;
-- `starting`: those that found no buffer. `buffers`: execs whose `Buffer` is set. `streams`: calls of
-- `Stream` that run. `ending`: calls that wait at `ExitChan` or `ErrorChan`. `ended`: the events of the
-- execs that were removed, the last removal first, and whether each was published yet.
pub record System : Type 0 where
  pub execs : Execs
  pub watchers : List (ℕ × Watcher)
  pub attaching : List ℕ
  pub starting : List ℕ
  pub buffers : List ℕ
  pub streams : List ℕ
  pub ending : List (ℕ × Ended)
  pub ended : List (ExecEvent × Bool)

abbrev pub init : System
init = record {
  execs = record { exec_map = []; prev_exec_id = 0 };
  watchers = [];
  attaching = [];
  starting = [];
  buffers = [];
  streams = [];
  ending = [];
  ended = [];
}

-- The exec of a request that was made. The health watcher of a request that failed waits on channels
-- that were never made, and never wakes up.
unfoldable pub watched : List Reply → List (ℕ × Watcher) → List (ℕ × Watcher)
watched [] ids = ids
watched (sends_error e ∷ replies) ids = ids
watched (sends_id id ∷ replies) ids = (id, registered) ∷ ids
watched (sends_containers infos ∷ replies) ids = ids

-- `Create` in a request.
unfoldable pub with_outcome : Outcome → System → System
unfolding watched
with_outcome o s = record s { execs = o.execs; watchers = watched o.replies s.watchers }

-- `Next` of the PTY handler: the size it takes from the channel of the exec.
unfoldable pub take_size : ℕ → MachineExec → Execs → Execs
unfolding delete
take_size id e st = record st { exec_map = put id (record e { size_chan = [] }) st.exec_map }

-- `Remove` in `CleanUpOnExitOrError`, for the exec that leaves `watchers`; its event comes next.
unfoldable pub remove_ended : ℕ → Ended → List (ℕ × Watcher) → System → System
unfolding clean_up_on_exit_or_error
remove_ended id end' watchers s =
    let cleaned = clean_up_on_exit_or_error id end' s.execs in
    record s { execs = cleaned.0; watchers = watchers; ended = (cleaned.1, false) ∷ s.ended }

-- A step of one goroutine. `Attach`, a request that makes an exec and a health watcher have a step for
-- each access to what they share with others.
pub data Step (s : System) : System → Type 0 where
  creates :
      (auth : Bool) (api : Text → Api) (attribute : Option Text) (e : MachineExec)
      → s.execs.prev_exec_id + 1 < minus_one
      → Step s (with_outcome (json_rpc_create_exec auth api attribute e s.execs) s)
  resizes :
      (id cols rows : ℕ) {after : Execs}
      → json_rpc_resize_exec id cols rows s.execs ≡ ok (some after)
      → Step s (record s { execs = after })
  takes_size :
      (id : ℕ) {e : MachineExec}
      → In id s.streams
      → get_by_id id s.execs.exec_map ≡ some e
      → Step s (record s { execs = take_size id e s.execs })
  finds :
      (id : ℕ) {e : MachineExec}
      → get_by_id id s.execs.exec_map ≡ some e
      → Step s (record s { attaching = id ∷ s.attaching })
  restores :
      (id : ℕ) (before behind : List ℕ)
      → s.attaching ≡ before ++ id ∷ behind
      → In id s.buffers
      → Step s (record s { attaching = before ++ behind })
  passes :
      (id : ℕ) (before behind : List ℕ)
      → s.attaching ≡ before ++ id ∷ behind
      → ¬ In id s.buffers
      → Step s (record s { attaching = before ++ behind; starting = id ∷ s.starting })
  starts :
      (id : ℕ) (before behind : List ℕ)
      → s.starting ≡ before ++ id ∷ behind
      → Step s (record s {
        starting = before ++ behind;
        buffers = id ∷ s.buffers;
        streams = id ∷ s.streams;
      })
  ends :
      (id : ℕ) (before behind : List ℕ) (failure : Option Text) (t : Terminal)
      → s.streams ≡ before ++ id ∷ behind
      → Step s (record s {
        streams = before ++ behind;
        ending = (id, (end_attach failure t).2) ∷ s.ending;
      })
  watches :
      (id : ℕ) (before behind : List (ℕ × Watcher))
      → s.watchers ≡ before ++ (id, registered) ∷ behind
      → Step s (record s { watchers = before ++ (id, waiting) ∷ behind })
  receives :
      (id : ℕ) (end' : Ended) (before behind : List (ℕ × Watcher)) (sooner later : List (ℕ × Ended))
      → s.watchers ≡ before ++ (id, waiting) ∷ behind
      → s.ending ≡ sooner ++ (id, end') ∷ later
      → Step s
          (record s { watchers = before ++ (id, received end') ∷ behind; ending = sooner ++ later })
  removes :
      (id : ℕ) (end' : Ended) (before behind : List (ℕ × Watcher))
      → s.watchers ≡ before ++ (id, received end') ∷ behind
      → Step s (remove_ended id end' (before ++ behind) s)
  publishes :
      (event : ExecEvent) (before behind : List (ExecEvent × Bool))
      → s.ended ≡ before ++ (event, false) ∷ behind
      → Step s (record s { ended = before ++ (event, true) ∷ behind })

-- Zero or more steps.
pub data Steps (s : System) : System → Type 0 where
  start : Steps s s
  onward : {t u : System} → Steps s t → Step t u → Steps s u

abbrev pub IsReachable : System → Type 0
IsReachable s = Steps init s
