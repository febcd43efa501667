-- ===== src/Watcher/Path.antt =====
-- timeout/cli-watcher.go: the search for the configuration file. The environment (a missing variable is
-- empty), `filepath.EvalSymlinks` and whether `os.Stat` succeeds are parameters.
pub mod Nearest
use che_machine_exec.Common.{
  ℕ, zero, suc, Text, codes, text_eq, is_empty, Bool, true, false, not, ◌||◌, ◌&&◌, Option, none,
  some, [], ◌∷◌, if◌then◌else◌,
}
use che_machine_exec.Common.Paths.{join_path, dir}

pub record FileSystem : Type 0 where
  pub stat : Text → Bool
  pub eval_symlinks : Text → Option Text

pub record Variables : Type 0 where
  pub config : Text
  pub projects_root : Text
  pub project_source : Text
  pub working_directory : Text
  pub home : Text

abbrev pub config_file_name : Text
config_file_name = codes ".noidle"

abbrev pub max_iterations : ℕ
max_iterations = 100

-- The tests of the loop behind a candidate that does not exist.
unfoldable pub is_last : Text → Text → Bool
unfolding text_eq dir
is_last stop current =
    text_eq current stop || text_eq current (codes "/") || text_eq (dir current) current

-- The loop of `findUpward`; the first argument is the number of iterations left.
unfoldable pub find_loop : ℕ → FileSystem → Text → Text → Text → Text
unfolding is_last join_path dir
find_loop zero fs stop filename current = []
find_loop (suc left) fs stop filename current =
    let above = find_loop left fs stop filename (dir current) in
    if fs.stat (join_path current filename)
    then join_path current filename
    else if is_last stop current
    then []
    else above

-- A path without symbolic links, or the path itself if that fails.
unfoldable pub resolved : FileSystem → Text → Text
resolved fs path = elim (fs.eval_symlinks path) [ none ↦ path | some target ↦ target ]

unfoldable pub find_upward : FileSystem → Text → Text → Text → Text
unfolding find_loop resolved
find_upward fs start stop filename =
    find_loop max_iterations fs (resolved fs stop) filename (resolved fs start)

abbrev pub or_else : Text → Text → Text
or_else [] other = other
or_else (c ∷ s) other = c ∷ s

-- The fallback in the home directory.
unfoldable pub home_config : FileSystem → Text → Text
unfolding is_empty text_eq join_path
home_config fs home =
    if not (is_empty home)
      && not (text_eq home (codes "/"))
      && fs.stat (join_path home config_file_name)
    then join_path home config_file_name
    else []

unfoldable pub get_config_path : FileSystem → Variables → Text
unfolding find_upward home_config
get_config_path fs v = or_else v.config (
    or_else
      (find_upward fs (or_else (or_else v.project_source v.projects_root) v.working_directory)
        (or_else v.projects_root (codes "/")) config_file_name)
      (home_config fs v.home))
