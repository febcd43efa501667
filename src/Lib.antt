-- ===== src/Lib.antt =====
-- A model of che-machine-exec, the service that starts execs in the containers of a workspace, shows
-- their output to web clients, and stops the workspace when nobody uses it.
--
-- The parts and their files. `Common` holds what they share: native numbers, lists, text as a list of
-- codes (Go strings and byte slices), results for a Go pair of a value and an error, and integers.
-- * `Validation` (api/validation/input_validator.go): the check of input against metacharacters.
-- * `Filter` (filter/kubernetes_filter.go): the search for a container in the pods of the workspace.
-- * `Exec.Resolver` (exec/command_resolver.go) makes the command line of an exec; `Exec.Manager`
--   (exec/kubernetes_exec_manager.go) keeps the map of execs and the counter of IDs as the record
--   `Execs`, and uses `Filter` and `Exec.Resolver`; `Exec.Manager.Table` is its abstract view; `Exec.Kubeconfig` is its call of `Kube`.
-- * `Utf8` (output/utf8stream/utf8-stream-filter.go): the bytes of an exec's output pass through
--   `process_raw`, which reads and leaves pending bytes; `Utf8.Shared` says where these are stored: in the
--   buffer that the caller reads the next chunk into, or in an array of the filter's own. `Utf8.Runes`
--   gives the functions of Go's unicode/utf8 that it uses.
-- * `LineBuffer` (output/line-buffer): the ring of the last lines of the output.
-- * `Terminal` (ws-conn, exec/pty_handler.go, exec/health-watcher.go,
--   exec/activity-connection-saver.go): `Terminal.Sockets` keeps the connections of an exec, and
--   `Terminal.Pty` composes `Utf8`, `LineBuffer` and the connections into the handler of the stream.
-- * `Lifecycle` (exec/kubernetes_exec_manager.go, exec/health-watcher.go, api/jsonrpc/handlers.go): the
--   goroutines of requests, `Attach` and the health watchers, interleaved in any order, as a step
--   relation over what they share. It uses the functions of `Api.Rpc`, `Exec.Manager` and `Terminal.Pty`.
-- * `Client` (client, auth/user.go, exec/namespace_provider.go, exec/exec-manager-provider.go): clients of
--   the cluster with the token of a request or the service account. `Client.Token` composes them with
--   `Api` and `Exec.Manager`, whose cluster is a parameter.
-- * `Info` (exec-info): the execs that read something from a container; `Info.Shells` fills with them what
--   `Exec.Resolver` and `Shell` ask of a container.
-- * `Shell` (shell): the default shell of a container's user, which `Exec.Resolver` asks for.
-- * `Kube` (kubeconfig/kubeconfig.go): the scripts that write a kubeconfig in a container, as a log.
-- * `Settings` (cfg/cfg.go): the settings from the environment and the flags, with their checks.
-- * `Api` (auth, common/origin, common/rest, api/rest, api/jsonrpc, api/websocket): `Api.Auth` and
--   `Api.Origin` decide who may call; the handlers of `Api.Rest`, `Api.Rpc`, `Api.Attach` and `Api.Connect`
--   use them, `Validation` and the exec manager. `Api.Connect` (with api/events) subscribes its clients
--   to the events of execs; the bus is an interface.
-- * `Watcher` (timeout/cli-watcher.go, timeout/activity_source.go): `Durations`, `Config` and `Load`
--   parse, complete and reload the configuration, `Path` finds its file, `Sources` selects the activity
--   sources, and `Loop` is the watcher's cycle, which reloads, scans and ticks.
-- * `Tty` (timeout/activity_source_tty.go): the source that looks for processes on terminals, with the
--   walk up the process tree, the policy for a process, and the caches of CPU samples and TTY paths;
--   `Tty.Host` builds what a scan reads from `Proc` and the cache of TTY paths.
-- * `Proc` (timeout/procutil.go): the numbers of a process in /proc and what is computed of them.
-- * `Codex` (timeout/codex_app_server_discovery.go, timeout/codex_app_server_client.go,
--   timeout/activity_source_codex_app_server_api.go): the source that asks the codex app-servers for their
--   threads: `Discovery` finds them, `Client` calls them, `Scan` keeps the connections.
-- * `Idle` (timeout/inactivity.go, timeout/run.go, timeout/shutdown.go): the event loops that stop the
--   workspace; a tick of the watcher, or of a request to `Api.Rest`, is their activity. `Idle.Tick` is the
--   loop of the inactivity manager, with the timer and the ticks that it misses, `Idle.Run` that of the run
--   manager, and `Idle.Stop` the patch that stops the workspace.
-- * `Startup` (main.go): the order of checks and actions of the process; it uses `Settings`, `Client`,
--   `Idle` and `Api.Connect`.
--
-- A stateful method is a function from the state before to its result and the state after. Methods that
-- hold a mutex are one step. Durations and times are integers of nanoseconds; a conversion that wraps is
-- written with its modulus. What /proc, the file system, the process environment, the Kubernetes API,
-- the YAML decoder and Go's parsers return are parameters.
--
-- Fuel: the loop of `process_raw` has one unit more than the bytes to read, and the loop of
-- `LineBuffer.write` one more than the bytes left after its first token; each round takes at least one byte. The
-- walk up the process tree has the source's own limit of 64 rounds, and the search for the configuration
-- file that of 100. The eviction from the cache of TTY paths has as many rounds as entries; each removes one.
--
-- Not modelled: logging and the printed settings, the protocol of web sockets and of JSON-RPC, the router,
-- and what the Kubernetes client does with a configuration, which are libraries; and the test doubles of
-- mocks, which are generated.
pub mod Common
pub mod Validation
pub mod Filter
pub mod Utf8
pub mod LineBuffer
pub mod Watcher
pub mod Tty
pub mod Proc
pub mod Codex
pub mod Kube
pub mod Api
pub mod Lifecycle
pub mod Startup
pub mod Info
pub mod Client
pub mod Settings
pub mod Shell
pub mod Terminal
pub mod Exec
pub mod Idle
