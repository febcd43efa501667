-- ===== src/Codex/Discovery.antt =====
-- timeout/codex_app_server_discovery.go: the search for the processes of a codex app-server. What /proc
-- says is a parameter; an unreadable file is `none`.
use che_machine_exec.Common.{
  Text, codes, text_eq, is_empty, has_prefix, trim_space, trim_prefix, cut_prefix, trim_right, cut,
  split, Bool, true, false, not, ◌&&◌, ◌||◌, Option, none, some, List, [], ◌∷◌, if◌then◌else◌,
}
use che_machine_exec.Common.Paths.{join_path}
use che_machine_exec.Watcher.Config.{Folding}
use che_machine_exec.Tty.Scan.{Entry, is_numeric}

-- `codexAppServerCandidate`.
pub record Candidate : Type 0 where
  pub pid : Text
  pub socket_path : Text

-- The files of a process.
pub record ProcFiles : Type 0 where
  pub comm : Text → Option Text
  pub cmdline : Text → Option Text
  pub environ : Text → Option Text

-- `getProcessCmdlineArgs`; an empty command line has no arguments.
unfoldable pub cmdline_args : Text → List Text
unfolding trim_right is_empty split
cmdline_args raw = if is_empty (trim_right 0 raw) then [] else split 0 (trim_right 0 raw)

unfoldable pub get_process_cmdline_args : ProcFiles → Text → Option (List Text)
unfolding cmdline_args
get_process_cmdline_args p pid = elim (p.cmdline pid) [
  | none ↦ none
  | some raw ↦ some (cmdline_args raw)
]

-- What the loop of `codexAppServerCmdlineMatch` has found so far.
pub record Found : Type 0 where
  pub has_app_server : Bool
  pub has_listen_unix : Bool
  pub socket_path : Text

abbrev pub unix_scheme : Text
unix_scheme = codes "unix://"

-- The value of a `--listen`.
unfoldable pub listen_to : Text → Found → Found
unfolding has_prefix trim_prefix
listen_to val f =
    if has_prefix val unix_scheme
    then record f { has_listen_unix = true; socket_path = trim_prefix val unix_scheme }
    else f

-- The value that follows a `--listen`.
unfoldable pub next_of : Text → List Text → Option Text
unfolding text_eq
next_of a [] = none
next_of a (val ∷ args) = if text_eq a (codes "--listen") then some val else none

-- `a == "--listen" && i+1 < len(args)`, and otherwise `--listen=…`.
unfoldable pub match_listen : Text → List Text → Found → Found
unfolding listen_to next_of cut_prefix
match_listen a behind f = elim (next_of a behind) [
  | some val ↦ listen_to val f
  | none ↦ elim (cut_prefix a (codes "--listen=")) [ none ↦ f | some val ↦ listen_to val f ]
]

unfoldable pub match_args : List Text → Found → Found
unfolding match_listen text_eq
match_args [] f = f
match_args (a ∷ args) f = match_args args (
    match_listen a args
      (record f { has_app_server = f.has_app_server || text_eq a (codes "app-server") }))

abbrev pub nothing_found : Found
nothing_found = record { has_app_server = false; has_listen_unix = false; socket_path = [] }

unfoldable pub codex_app_server_cmdline_match : List Text → Bool × Text
unfolding match_args
codex_app_server_cmdline_match args =
    let f = match_args args nothing_found in (f.has_app_server && f.has_listen_unix, f.socket_path)

-- The tests of the loop's body behind the name of the entry.
unfoldable pub identify : Folding → ProcFiles → Text → Option Candidate
unfolding has_prefix trim_space get_process_cmdline_args codex_app_server_cmdline_match
identify fold p pid = elim (p.comm pid) [
  | none ↦ none
  | some comm ↦
      if not (has_prefix (fold.to_lower (trim_space comm)) (codes "codex"))
      then none
      else elim (get_process_cmdline_args p pid) [
        | none ↦ none
        | some args ↦
            let (matches, socket) = codex_app_server_cmdline_match args in
            if matches then some (record { pid = pid; socket_path = socket }) else none
      ]
]

unfoldable pub candidate_of : Folding → ProcFiles → Text → Entry → Option Candidate
unfolding identify is_numeric text_eq
candidate_of fold p my_pid e =
    if not (e.1 && is_numeric e.0) || text_eq e.0 my_pid then none else identify fold p e.0

unfoldable pub candidates_of : Folding → ProcFiles → Text → List Entry → List Candidate
unfolding candidate_of
candidates_of fold p my_pid [] = []
candidates_of fold p my_pid (e ∷ entries) =
    let rest = candidates_of fold p my_pid entries in
    elim (candidate_of fold p my_pid e) [ none ↦ rest | some c ↦ c ∷ rest ]

-- `none` is an unreadable /proc.
unfoldable pub find_codex_app_server_processes :
    Folding → ProcFiles → Text → Option (List Entry) → List Candidate
unfolding candidates_of
find_codex_app_server_processes fold p my_pid none = []
find_codex_app_server_processes fold p my_pid (some entries) = candidates_of fold p my_pid entries

-- An environment; a later entry of a name replaces an earlier one.
abbrev pub Environ : Type 0
Environ = List (Text × Text)

unfoldable pub lookup_env : Text → Environ → Text
unfolding text_eq
lookup_env name [] = []
lookup_env name (e ∷ env) = if text_eq e.0 name then e.1 else lookup_env name env

-- The loop over the entries; `env` holds what was read before, the latest entry first.
unfoldable pub parse_environ : List Text → Environ → Environ
unfolding is_empty cut
parse_environ [] env = env
parse_environ (entry ∷ entries) env = parse_environ entries (elim (cut b'=' entry) [
  | none ↦ env
  | some (key, val) ↦ if is_empty entry then env else (key, val) ∷ env
])

unfoldable pub get_process_environ : ProcFiles → Text → Option Environ
unfolding parse_environ split
get_process_environ p pid = elim (p.environ pid) [
  | none ↦ none
  | some text ↦ some (parse_environ (split 0 text) [])
]

-- `${CODEX_HOME:-$HOME/.codex}`.
unfoldable pub codex_base_dir_from_env : Environ → Text
unfolding lookup_env is_empty join_path
codex_base_dir_from_env env =
    if not (is_empty (lookup_env (codes "CODEX_HOME") env))
    then lookup_env (codes "CODEX_HOME") env
    else if not (is_empty (lookup_env (codes "HOME") env))
    then join_path (lookup_env (codes "HOME") env) (codes ".codex")
    else []

unfoldable pub resolve_codex_base_dir : ProcFiles → Text → Text
unfolding get_process_environ codex_base_dir_from_env
resolve_codex_base_dir p pid = elim (get_process_environ p pid) [
  | none ↦ []
  | some env ↦ codex_base_dir_from_env env
]
