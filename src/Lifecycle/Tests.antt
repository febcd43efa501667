-- ===== src/Lifecycle/Tests.antt =====
-- The life of one exec.
use che_machine_exec.Common.{
  ℕ, ◌≤◌, refl, ◌⊎◌, inl, Text, codes, true, none, some, List, [], ◌∷◌, ok, arith,
}
use che_machine_exec.Exec.Resolver.{MachineExec}
use che_machine_exec.Exec.Manager.{Api, empty_exec, get_by_id, register}
use che_machine_exec.Api.Rpc.{json_rpc_create_exec}
use che_machine_exec.Terminal.Pty.{
  Terminal, attach_first, end_attach, clean_up_on_exit_or_error, exited, exec_exit,
}
use che_machine_exec.Lifecycle.{
  System, registered, received, init, with_outcome, remove_ended, Step, creates, finds, passes,
  starts, ends, watches, receives, removes, publishes, Steps, start, onward,
}
use che_machine_exec.Lifecycle.Members.{AreDistinct}
use che_machine_exec.Lifecycle.Invariant.{event_ids}
use che_machine_exec.Lifecycle.Reach.{IsLive, IsRemoved, IsGone, reachable_execs, reported_stays}

abbrev api : Text → Api
api token = record {
  k8s_api = ok tt;
  selector = codes "id=1";
  pods =
      ok (
        record { name = codes "pod"; containers = record { name = codes "a"; env = [] } ∷ [] }
        ∷ []);
  shells = record { detect_shell = λ i. none; start_sh = λ i. ok tt; parse_url = λ u. none };
  new_executor = λ i cmd. ok tt;
}

abbrev sh_command : List Text
sh_command = codes "sh" ∷ codes "-c" ∷ codes "sh" ∷ []

abbrev created_exec : MachineExec
created_exec = (register empty_exec sh_command init.execs).0

abbrev created : System
created = record init {
  execs = record { exec_map = (1, created_exec) ∷ []; prev_exec_id = 1 };
  watchers = (1, registered) ∷ [];
}

abbrev terminal : Terminal
terminal = attach_first 5 []

abbrev twice_attaching : System
twice_attaching = record created { attaching = 1 ∷ 1 ∷ [] }

abbrev twice_starting : System
twice_starting = record created { starting = 1 ∷ 1 ∷ [] }

-- Two calls of `Attach` that both pass the check on the buffer start two streams of one exec.
abbrev two_streams : System
two_streams = record created { buffers = 1 ∷ 1 ∷ []; streams = 1 ∷ 1 ∷ [] }

creation : Step init created
unfolding with_outcome register json_rpc_create_exec
creation = creates true api (some (codes "t")) empty_exec (omega arith)

two_streams_run : Steps init two_streams
unfolding register get_by_id
two_streams_run =
    onward
      (onward
        (onward
          (onward (onward (onward (onward start creation) (finds 1 refl)) (finds 1 refl))
            (passes 1 [] (1 ∷ []) refl (λ k. k)))
          (passes 1 [] [] refl (λ k. k)))
        (starts 1 [] (1 ∷ []) refl))
      (starts 1 [] [] refl)

abbrev ended : System
ended = record two_streams { streams = 1 ∷ []; ending = (1, exited) ∷ [] }

-- The exec is removed, and its event is not yet published.
abbrev removed : System
removed =
    remove_ended 1 exited [] (record ended { watchers = (1, received exited) ∷ []; ending = [] })

abbrev reported : System
reported = record removed { ended = (exec_exit 1, true) ∷ [] }

removed_run : Steps init removed
unfolding end_attach
removed_run =
    onward
      (onward
        (onward (onward two_streams_run (ends 1 [] (1 ∷ []) none terminal refl))
          (watches 1 [] [] refl))
        (receives 1 exited [] [] [] [] refl refl))
      (removes 1 exited [] [] refl)

reported_run : Steps init reported
unfolding remove_ended clean_up_on_exit_or_error
reported_run = onward removed_run (publishes (exec_exit 1) [] [] refl)

reachable_execs_example :
    AreDistinct (event_ids reported)
    × ((id : ℕ)
        → 1 ≤ id
        → id ≤ reported.execs.prev_exec_id
        → IsLive reported id ⊎ (IsRemoved reported id ⊎ IsGone reported id))
reachable_execs_example = reachable_execs reported reported_run

abbrev created_again : System
created_again =
    with_outcome (json_rpc_create_exec true api (some (codes "t")) empty_exec reported.execs)
      reported

reported_stays_example : IsGone created_again 1
unfolding remove_ended
reported_stays_example =
    reported_stays reported created_again 1 reported_run (inl refl)
      (onward start (creates true api (some (codes "t")) empty_exec (omega arith)))
