-- ===== src/Codex/Tests.antt =====
-- A codex app-server among the processes, with one thread that was updated ten seconds ago.
use che_machine_exec.Common.{
  ◌≡◌, refl, Text, codes, text_eq, true, Option, none, some, List, [], ◌∷◌, ◌++◌,
}
use che_machine_exec.Common.Int.{ℤ, pos, ◌+ℤ◌, ◌-ℤ◌}
use che_machine_exec.Tty.Scan.{Entry}
use che_machine_exec.Codex.Discovery.{Candidate, find_codex_app_server_processes}
use che_machine_exec.Codex.Client.{Response, malformed, frame, Client, answer, call}
use che_machine_exec.Codex.Client.Laws.{call-own}
use che_machine_exec.Codex.Scan.{World, Conns, scan, prune_stale_connections}
use che_machine_exec.Codex.Scan.Laws.{AreLive, scan-AreLive}
use che_machine_exec.Codex.Scan.Fresh.{IsFoundIn, scan-IsActive}

abbrev response : ℤ → Text → Response
response id text = record { id = some id; result = text; error = none }

-- The answers to the handshake, the list and the thread, with a notification between them.
abbrev client : Client
client = record {
  next_id = pos 0;
  incoming =
      frame (response (pos 1) [])
      ∷ malformed
      ∷ frame (response (pos 2) (codes "list"))
      ∷ frame (response (pos 3) (codes "thread"))
      ∷ [];
  can_marshal = true;
  can_write = true;
}

abbrev after_handshake : Client
after_handshake = record client {
  next_id = pos 1;
  incoming =
      malformed
      ∷ frame (response (pos 2) (codes "list"))
      ∷ frame (response (pos 3) (codes "thread"))
      ∷ [];
}

own_answer : call (codes "thread/loaded/list") after_handshake ≡ (
  answer (codes "thread/loaded/list") (response (pos 2) (codes "list")),
  record after_handshake {
    next_id = pos 1 +ℤ pos 1;
    incoming = frame (response (pos 3) (codes "thread")) ∷ [];
  },
)
unfolding ◌+ℤ◌
own_answer =
    call-own (codes "thread/loaded/list") after_handshake (malformed ∷ [])
      (response (pos 2) (codes "list")) (frame (response (pos 3) (codes "thread")) ∷ []) refl refl
      refl (tt, tt) refl

abbrev world : World
world = record {
  folding = record { to_lower = λ s. s; equal_fold = λ a b. text_eq a b };
  files = record {
    comm = λ pid. some (codes "codex\n");
    cmdline = λ pid.
        some (
          codes "codex" ++ 0 ∷ codes "app-server" ++ 0 ∷ codes "--listen" ++ 0 ∷ codes "unix:///s");
    environ = λ pid. none;
  };
  connect = λ socket. some client;
  decoders = record {
    loaded_list = λ text. some (codes "t" ∷ []);
    thread = λ text. some (record { id = codes "t"; status = codes "idle"; updated_at = pos 90 });
  };
  now = pos 100000000000;
}

abbrev entries : Option (List Entry)
entries = some ((codes "17", true) ∷ (codes "99", true) ∷ [])

-- A connection of a process that has ended.
abbrev conns : Conns
conns = (codes "5", client) ∷ []

abbrev candidates : List Candidate
candidates = find_codex_app_server_processes world.folding world.files (codes "99") entries

scan-AreLive_example :
    AreLive candidates (scan world (codes "99") (pos 60000000000) entries conns).1
scan-AreLive_example = scan-AreLive world (codes "99") (pos 60000000000) entries conns

abbrev label : Text
label = codes "codex-app-server (pid 17, socket /s)"

scan-IsActive_example :
    IsFoundIn world (pos 60000000000) candidates (prune_stale_connections candidates conns) label
unfolding scan ◌+ℤ◌ ◌-ℤ◌
scan-IsActive_example = scan-IsActive world (codes "99") (pos 60000000000) entries conns label refl
