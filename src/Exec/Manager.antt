-- ===== src/Exec/Manager.antt =====
-- exec/kubernetes_exec_manager.go: the map of execs and the operations on it. The replies of the
-- Kubernetes API are parameters; an executor is not represented, only whether it can be made.
pub mod Ids
pub mod Create
pub mod Table
use che_machine_exec.Common.{
  ℕ, ◌+◌, ◌%◌, ◌^◌, Text, codes, text_eq, is_empty, Bool, true, false, not, Option, none, some,
  List, [], ◌∷◌, ◌++◌, map, Result, ok, err, ◌>>=◌, if◌then◌else◌, ◌==◌,
}
use che_machine_exec.Filter.{
  ContainerInfo, Pod, FilterError, get_container_list, find_container_info, get_container,
}
use che_machine_exec.Exec.Resolver.{MachineExec, Shells, resolve_cmd}

-- `machineExecs` and `prevExecID`. A key or an ID is the 64 bits of the `int`.
pub record Execs : Type 0 where
  pub exec_map : List (ℕ × MachineExec)
  pub prev_exec_id : ℕ

pub data ExecError : Type 0 where
  no_k8s_api : Text → ExecError
  filter_failed : FilterError → ExecError
  resolve_failed : Text → ExecError
  no_executor : Text → ExecError
  no_containers : ExecError
  all_failed : List ContainerInfo → ExecError
  exec_not_found : ℕ → ExecError

-- What the API does for the manager.
pub record Api : Type 0 where
  pub k8s_api : Result Text Unit
  pub selector : Text
  pub pods : Result Text (List Pod)
  pub shells : Shells
  pub new_executor : ContainerInfo → List Text → Result Text Unit

-- Reading from the map, deleting and writing.
unfoldable pub get_by_id : ℕ → List (ℕ × MachineExec) → Option MachineExec
get_by_id id [] = none
get_by_id id (e ∷ es) = if e.0 == id then some e.1 else get_by_id id es

unfoldable pub delete : ℕ → List (ℕ × MachineExec) → List (ℕ × MachineExec)
delete id [] = []
delete id (e ∷ es) = let rest = delete id es in if e.0 == id then rest else e ∷ rest

abbrev pub put : ℕ → MachineExec → List (ℕ × MachineExec) → List (ℕ × MachineExec)
put id e es = (id, e) ∷ delete id es

-- `uint16(n)`.
abbrev pub to_uint16 : ℕ → ℕ
to_uint16 n = n % 2 ^ 16

-- `atomic.AddUint64(&prevExecID, 1)`.
abbrev pub next_id : ℕ → ℕ
next_id prev = (prev + 1) % 2 ^ 64

-- The part of `doCreate` behind the executor: the exec gets its command, ID and channels, and its
-- first size.
unfoldable pub register : MachineExec → List Text → Execs → MachineExec × Execs
unfolding delete
register e cmd st =
    let id = next_id st.prev_exec_id in
    let created = record e {
      cmd = cmd;
      id = id;
      size_chan = (to_uint16 e.cols, to_uint16 e.rows) ∷ [];
    } in
    (created, record { exec_map = put id created st.exec_map; prev_exec_id = id })

unfoldable pub with_executor :
    MachineExec → List Text → Result Text Unit → Execs → Result ExecError (MachineExec × Execs)
unfolding register
with_executor e cmd (err x) st = err (no_executor x)
with_executor e cmd (ok u) st = ok (register e cmd st)

unfoldable pub with_cmd :
    Api
    → MachineExec
    → ContainerInfo
    → Result Text (List Text)
    → Execs
    → Result ExecError (MachineExec × Execs)
unfolding with_executor
with_cmd api e info (err x) st = err (resolve_failed x)
with_cmd api e info (ok cmd) st = with_executor e cmd (api.new_executor info cmd) st

unfoldable pub do_create :
    Api → MachineExec → ContainerInfo → Execs → Result ExecError (MachineExec × Execs)
unfolding with_cmd resolve_cmd
do_create api e info st = with_cmd api e info (resolve_cmd api.shells e info) st

-- The loop over the containers, which ends with the first one that works; `all` is for the error.
unfoldable pub create_first :
    Api
    → MachineExec
    → List ContainerInfo
    → List ContainerInfo
    → Execs
    → Result ExecError (MachineExec × Execs)
unfolding do_create
create_first api e all [] st = err (all_failed all)
create_first api e all (info ∷ infos) st = elim (do_create api e info st) [
  | ok r ↦ ok r
  | err x ↦ create_first api e all infos st
]

unfoldable pub create_in_list :
    Api
    → MachineExec
    → Result FilterError (List ContainerInfo)
    → Execs
    → Result ExecError (MachineExec × Execs)
unfolding create_first
create_in_list api e (err x) st = err (filter_failed x)
create_in_list api e (ok []) st = err no_containers
create_in_list api e (ok (info ∷ infos)) st = create_first api e (info ∷ infos) (info ∷ infos) st

unfoldable pub create_in :
    Api
    → MachineExec
    → Result FilterError ContainerInfo
    → Execs
    → Result ExecError (MachineExec × Execs)
unfolding do_create
create_in api e (err x) st = err (filter_failed x)
create_in api e (ok info) st = do_create api e info st

-- `Create`. On an error the map and the counter are as before.
unfoldable pub create : Api → MachineExec → Execs → Result ExecError (MachineExec × Execs)
unfolding create_in create_in_list get_container_list find_container_info is_empty
create api e st = elim api.k8s_api [
  | err x ↦ err (no_k8s_api x)
  | ok u ↦
      if is_empty e.machine_name
      then create_in_list api e (get_container_list api.selector api.pods) st
      else create_in api e (find_container_info api.selector api.pods e.machine_name) st
]

-- `Remove`.
unfoldable pub remove : ℕ → Execs → Execs
unfolding delete
remove id st = record st { exec_map = delete id st.exec_map }

unfoldable pub check : ℕ → Execs → Result ExecError ℕ
unfolding get_by_id
check id st = elim (get_by_id id st.exec_map) [ none ↦ err (exec_not_found id) | some e ↦ ok e.id ]

-- `Resize`: the new state, or `none` while the channel still holds a size and the send waits.
unfoldable pub send_size : ℕ → ℕ → ℕ → MachineExec → Execs → Option Execs
unfolding delete
send_size id cols rows e st = elim e.size_chan [
  | [] ↦ some (record st {
    exec_map = put id (record e { size_chan = (to_uint16 cols, to_uint16 rows) ∷ [] }) st.exec_map;
  })
  | s ∷ ss ↦ none
]

unfoldable pub resize : ℕ → ℕ → ℕ → Execs → Result ExecError (Option Execs)
unfolding get_by_id send_size
resize id cols rows st = elim (get_by_id id st.exec_map) [
  | none ↦ err (exec_not_found id)
  | some e ↦ ok (send_size id cols rows e st)
]

-- `ListAvailableContainers`.
unfoldable pub list_available_containers : Api → Result ExecError (List ContainerInfo)
unfolding get_container_list
list_available_containers api = elim api.k8s_api [
  | err x ↦ err (no_k8s_api x)
  | ok u ↦ elim (get_container_list api.selector api.pods) [
    | err x ↦ err (filter_failed x)
    | ok infos ↦ ok infos
  ]
]

-- The loop of `findFirstAvailable`.
unfoldable pub resolve_first :
    Api
    → MachineExec
    → List ContainerInfo
    → List ContainerInfo
    → Result ExecError (ContainerInfo × List Text)
unfolding resolve_cmd
resolve_first api e all [] = err (all_failed all)
resolve_first api e all (info ∷ infos) = elim (resolve_cmd api.shells e info) [
  | ok cmd ↦ ok (info, cmd)
  | err x ↦ resolve_first api e all infos
]

unfoldable pub find_first_available :
    Api
    → MachineExec
    → Result FilterError (List ContainerInfo)
    → Result ExecError (ContainerInfo × List Text)
unfolding resolve_first
find_first_available api e (err x) = err (filter_failed x)
find_first_available api e (ok []) = err no_containers
find_first_available api e (ok (info ∷ infos)) = resolve_first api e (info ∷ infos) (info ∷ infos)

unfoldable pub resolve_in :
    Api
    → MachineExec
    → Result FilterError ContainerInfo
    → Result ExecError (ContainerInfo × List Text)
unfolding resolve_cmd
resolve_in api e (err x) = err (filter_failed x)
resolve_in api e (ok info) = elim (resolve_cmd api.shells e info) [
  | err x ↦ err (resolve_failed x)
  | ok cmd ↦ ok (info, cmd)
]

abbrev pub empty_exec : MachineExec
empty_exec = record {
  machine_name = [];
  cmd = [];
  kind = [];
  tty = false;
  cols = 0;
  rows = 0;
  cwd = [];
  id = 0;
  size_chan = [];
}

-- `Resolve`; the token only serves to get the API.
unfoldable pub resolve : Api → Text → Result ExecError (ContainerInfo × List Text)
unfolding find_first_available resolve_in get_container_list get_container is_empty
resolve api container = elim api.k8s_api [
  | err x ↦ err (no_k8s_api x)
  | ok u ↦
      if is_empty container
      then find_first_available api empty_exec (get_container_list api.selector api.pods)
      else resolve_in api empty_exec (get_container api.selector api.pods container)
]
