-- ===== src/Api/Rpc.antt =====
-- api/jsonrpc/handlers.go: the handlers over the exec manager. What they send is a list of replies; the
-- manager's API is made from the token.
pub mod Laws
use che_machine_exec.Common.{
  ℕ, ◌-◌, ◌^◌, Text, codes, is_empty, Bool, true, false, not, ◌&&◌, Option, none, some, List, [],
  ◌∷◌, Result, ok, err, if◌then◌else◌, ◌==◌,
}
use che_machine_exec.Validation.{Forbidden, validate_no_shell_metacharacters}
use che_machine_exec.Filter.{ContainerInfo}
use che_machine_exec.Exec.Resolver.{MachineExec}
use che_machine_exec.Exec.Manager.{
  Execs, Api, ExecError, create, check, resize, list_available_containers,
}

pub data RpcError : Type 0 where
  bad_argument : Forbidden → RpcError
  no_token : RpcError
  exec_failed : ExecError → RpcError
  not_initialized : RpcError

-- A reply of the transmitter. An ID is the 64 bits of the `int`.
pub data Reply : Type 0 where
  sends_error : RpcError → Reply
  sends_id : ℕ → Reply
  sends_containers : List ContainerInfo → Reply

-- -1.
abbrev pub minus_one : ℕ
minus_one = 2 ^ 64 - 1

-- `setToken`, for a connection's attribute: the token, which is empty when authentication is off.
unfoldable pub set_token : Bool → Option Text → Result RpcError Text
unfolding is_empty
set_token false attribute = ok []
set_token true none = err no_token
set_token true (some token) = if is_empty token then err no_token else ok token

-- The replies, the manager's state, and how many health watchers were started.
pub record Outcome : Type 0 where
  pub replies : List Reply
  pub execs : Execs
  pub watchers : ℕ

abbrev pub refuse : RpcError → Execs → Outcome
refuse e st = record { replies = sends_error e ∷ []; execs = st; watchers = 0 }

-- Behind `Create`: the watcher is started on every branch.
unfoldable pub after_create : Result ExecError (MachineExec × Execs) → Execs → Outcome
after_create (err e) st = record {
  replies = sends_error (exec_failed e) ∷ [];
  execs = st;
  watchers = 1;
}
after_create (ok r) st =
    if r.0.id == minus_one
    then record { replies = sends_error not_initialized ∷ []; execs = r.1; watchers = 1 }
    else record { replies = sends_id r.0.id ∷ []; execs = r.1; watchers = 1 }

unfoldable pub json_rpc_create_exec :
    Bool → (Text → Api) → Option Text → MachineExec → Execs → Outcome
unfolding set_token after_create create validate_no_shell_metacharacters
json_rpc_create_exec auth api attribute e st =
    elim (validate_no_shell_metacharacters e.cwd (codes "cwd")) [
      | some f ↦ refuse (bad_argument f) st
      | none ↦ elim (set_token auth attribute) [
        | err x ↦ refuse x st
        | ok token ↦ after_create (create (api token) e st) st
      ]
    ]

-- The handler goes on behind the error.
unfoldable pub json_rpc_check_exec : ℕ → Execs → List Reply
unfolding check
json_rpc_check_exec id st = elim (check id st) [
  | err e ↦ sends_error (exec_failed e) ∷ sends_id minus_one ∷ []
  | ok found ↦ sends_id found ∷ []
]

-- The result of a resize: the new state, or `none` while it waits.
unfoldable pub json_rpc_resize_exec : ℕ → ℕ → ℕ → Execs → Result RpcError (Option Execs)
unfolding resize
json_rpc_resize_exec id cols rows st = elim (resize id cols rows st) [
  | err e ↦ err (exec_failed e)
  | ok after ↦ ok after
]

-- This one goes on behind the error, too.
unfoldable pub json_rpc_list_containers_exec : Bool → (Text → Api) → Option Text → List Reply
unfolding set_token list_available_containers
json_rpc_list_containers_exec auth api attribute = elim (set_token auth attribute) [
  | err x ↦ sends_error x ∷ []
  | ok token ↦ elim (list_available_containers (api token)) [
    | err e ↦ sends_error (exec_failed e) ∷ sends_containers [] ∷ []
    | ok infos ↦ sends_containers infos ∷ []
  ]
]
