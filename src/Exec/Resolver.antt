-- ===== src/Exec/Resolver.antt =====
-- exec/command_resolver.go: the command line of an exec. The shell's detection in a container, the
-- test whether `sh` runs there, and `url.Parse` are parameters.
pub mod Laws
use che_machine_exec.Common.{
  ℕ, Text, codes, text_eq, is_empty, has_prefix, has_suffix, join, Bool, true, false, not, ◌&&◌,
  ◌||◌, Option, none, some, List, [], ◌∷◌, ◌++◌, Result, ok, err, ◌>>=◌, if◌then◌else◌,
}
use che_machine_exec.Filter.{ContainerInfo}

-- The fields of `model.MachineExec` that are data. `cmd` is empty for nil; `id` is the 64 bits of the
-- ID; `size_chan` holds the sizes in the channel of capacity one.
pub record MachineExec : Type 0 where
  pub machine_name : Text
  pub cmd : List Text
  pub kind : Text
  pub tty : Bool
  pub cols : ℕ
  pub rows : ℕ
  pub cwd : Text
  pub id : ℕ
  pub size_chan : List (ℕ × ℕ)

-- What a container and Go's library answer; `parse_url` is the path of a URL that parses.
pub record Shells : Type 0 where
  pub detect_shell : ContainerInfo → Option Text
  pub start_sh : ContainerInfo → Result Text Unit
  pub parse_url : Text → Option Text

unfoldable pub shell_is_defined : Text → Bool
unfolding has_suffix
shell_is_defined shell = not (has_suffix shell (codes "nologin"))

unfoldable pub default_or_err : Result Text Unit → Result Text Text
default_or_err (ok u) = ok (codes "sh")
default_or_err (err e) = err e

unfoldable pub set_up_exec_shell_path : Shells → ContainerInfo → Result Text Text
unfolding shell_is_defined default_or_err
set_up_exec_shell_path sh info = elim (sh.detect_shell info) [
  | none ↦ default_or_err (sh.start_sh info)
  | some shell ↦ if shell_is_defined shell then ok shell else default_or_err (sh.start_sh info)
]

-- The shell that the command itself names.
unfoldable pub own_shell : Text → List Text → Text
unfolding text_eq is_empty
own_shell kind [] = []
own_shell kind (c ∷ cmd) = if is_empty kind || text_eq kind (codes "shell") then c else []

-- `if len(cmd) >= 2 && cmd[1] == "-c"`.
unfoldable pub strip_shell : List Text → List Text
unfolding text_eq
strip_shell [] = []
strip_shell (c ∷ []) = c ∷ []
strip_shell (c ∷ d ∷ cmd) = if text_eq d (codes "-c") then cmd else c ∷ d ∷ cmd

unfoldable pub or_shell : Text → List Text → List Text
or_shell shell [] = shell ∷ []
or_shell shell (c ∷ cmd) = c ∷ cmd

-- The directory, which may be a URL.
unfoldable pub directory : Shells → Text → Text
unfolding has_prefix
directory sh cwd =
    if has_prefix cwd (codes "file://")
    then elim (sh.parse_url cwd) [ none ↦ cwd | some path ↦ path ]
    else cwd

unfoldable pub cd_command : Shells → Text → Text
unfolding directory is_empty
cd_command sh cwd = if is_empty cwd then [] else codes "cd " ++ directory sh cwd ++ codes "; "

-- The command line for a shell that is known.
unfoldable pub command_line : Shells → MachineExec → Text → List Text
unfolding strip_shell or_shell cd_command join
command_line sh e shell =
    shell
    ∷ codes "-c"
    ∷ (cd_command sh e.cwd ++ join (codes " ") (or_shell shell (strip_shell e.cmd)))
    ∷ []

unfoldable pub resolve_cmd : Shells → MachineExec → ContainerInfo → Result Text (List Text)
unfolding own_shell set_up_exec_shell_path command_line is_empty
resolve_cmd sh e info =
    if is_empty (own_shell e.kind e.cmd)
    then (do shell ← set_up_exec_shell_path sh info; ok (command_line sh e shell))
    else ok (command_line sh e (own_shell e.kind e.cmd))
