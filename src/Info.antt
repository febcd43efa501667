-- ===== src/Info.antt =====
-- exec-info: the execs that read something from a container. The executor of the cluster and the stream
-- are a parameter: whether the executor can be made, and what the stream has written when the `select` of
-- `Start` goes on, at its end or behind the 3 seconds.
pub mod Laws
pub mod Shells
mod Tests
use che_machine_exec.Common.{
  Text, codes, is_empty, Bool, true, false, Option, none, some, List, [], ◌∷◌, ◌++◌, Result, ok,
  err, if◌then◌else◌,
}
use che_machine_exec.Filter.{ContainerInfo}

pub record KubernetesInfoExec : Type 0 where
  pub command : List Text
  pub namespace : Text
  pub container_name : Text
  pub pod_name : Text
  pub std_out : Text
  pub std_err : Text

unfoldable pub new_kubernetes_info_exec : List Text → Text → Text → Text → KubernetesInfoExec
new_kubernetes_info_exec command container_name pod_name namespace = record {
  command = command;
  namespace = namespace;
  container_name = container_name;
  pod_name = pod_name;
  std_out = [];
  std_err = [];
}

-- The request with its `PodExecOptions`.
pub record PodExec : Type 0 where
  pub namespace : Text
  pub pod : Text
  pub container : Text
  pub command : List Text
  pub stdout : Bool
  pub stderr : Bool
  pub stdin : Bool
  pub tty : Bool

unfoldable pub request_of : KubernetesInfoExec → PodExec
request_of exec = record {
  namespace = exec.namespace;
  pod = exec.pod_name;
  container = exec.container_name;
  command = exec.command;
  stdout = true;
  stderr = true;
  stdin = false;
  tty = false;
}

-- What the `select` receives: the result of the stream, or the time.
pub data StreamEnd : Type 0 where
  stream_ended : Option Text → StreamEnd
  timed_out : StreamEnd

pub record Streamed : Type 0 where
  pub stream_end : StreamEnd
  pub out : Text
  pub errors : Text

abbrev pub Remote : Type 0
Remote = PodExec → Result Text Streamed

-- An error with what is in the buffer for errors, if anything is.
unfoldable pub error_output : Text → Option Text
unfolding is_empty
error_output errors = if is_empty errors then none else some errors

unfoldable pub result_of : StreamEnd → Text → Option Text
unfolding error_output
result_of timed_out errors = error_output errors
result_of (stream_ended (some e)) errors = some e
result_of (stream_ended none) errors = error_output errors

-- `Start`: the error, and the exec with what its buffers have got.
unfoldable pub start : Remote → KubernetesInfoExec → Option Text × KubernetesInfoExec
unfolding request_of result_of
start remote exec = elim (remote (request_of exec)) [
  | err e ↦ (some e, exec)
  | ok s ↦ (
    result_of s.stream_end (exec.std_err ++ s.errors),
    record exec { std_out = exec.std_out ++ s.out; std_err = exec.std_err ++ s.errors },
  )
]

abbrev pub get_output : KubernetesInfoExec → Text
get_output exec = exec.std_out

-- `CreateInfoExec` of a creator for a namespace.
unfoldable pub create_info_exec : Text → List Text → ContainerInfo → KubernetesInfoExec
unfolding new_kubernetes_info_exec
create_info_exec namespace command info =
    new_kubernetes_info_exec command info.container_name info.pod_name namespace

-- What the callers do: an exec is started, and its output is read when there is no error.
abbrev pub output_unless : Option Text → Text → Option Text
output_unless none out = some out
output_unless (some e) out = none

unfoldable pub run : Remote → Text → ContainerInfo → List Text → Option Text
unfolding start create_info_exec
run remote namespace info command =
    let started = start remote (create_info_exec namespace command info) in
    output_unless started.0 (get_output started.1)
