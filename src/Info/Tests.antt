-- ===== src/Info/Tests.antt =====
-- Info execs in a container where `cat` runs and `env` hangs.
use che_machine_exec.Common.{
  ℕ, ◌≡◌, refl, ◌↔◌, ◌⊎◌, codes, text_eq, Bool, ◌&&◌, none, some, [], ◌∷◌, ok, err, if◌then◌else◌,
  leb, join,
}
use che_machine_exec.Filter.{ContainerInfo}
use che_machine_exec.Shell.{detect_shell}
use che_machine_exec.Exec.Resolver.{set_up_exec_shell_path}
use che_machine_exec.Info.{Remote, stream_ended, timed_out, run}
use che_machine_exec.Info.Laws.{HasOutput, run_iff}
use che_machine_exec.Info.Shells.{
  shells_of, IsDefaultShell, IsTestedSh, set_up_exec_shell_path_sound,
}

abbrev remote : Remote
remote r =
    let command = join (codes " ") r.command in
    if text_eq command (codes "id -u")
    then ok (record { stream_end = stream_ended none; out = codes "0\n"; errors = [] })
    else if text_eq command (codes "cat /etc/passwd")
    then ok (record {
      stream_end = stream_ended none;
      out = codes "root:x:0:0:root:/root:/bin/sh";
      errors = [];
    })
    else if text_eq command (codes "env")
    then ok (record { stream_end = timed_out; out = codes "A=1\n"; errors = [] })
    else err (codes "no such command")

abbrev info : ContainerInfo
info = record { pod_name = codes "pod"; container_name = codes "c" }

run_hanging : run remote (codes "ns") info (codes "env" ∷ []) ≡ some (codes "A=1\n")
unfolding run text_eq join
run_hanging = refl

env_output :
    (run remote (codes "ns") info (codes "env" ∷ []) ≡ some (codes "A=1\n"))
    ↔ HasOutput remote (codes "ns") info (codes "env" ∷ []) (codes "A=1\n")
env_output = run_iff remote (codes "ns") info (codes "env" ∷ []) (codes "A=1\n")

abbrev is_digit : ℕ → Bool
is_digit c = leb b'0' c && leb c b'9'

set_up_exec_shell_path_sound_example :
    IsDefaultShell remote (codes "ns") is_digit (λ url. none) info (codes "/bin/sh")
    ⊎ IsTestedSh remote (codes "ns") is_digit (λ url. none) info (codes "/bin/sh")
unfolding set_up_exec_shell_path shells_of run detect_shell join
set_up_exec_shell_path_sound_example =
    set_up_exec_shell_path_sound remote (codes "ns") is_digit (λ url. none) info (codes "/bin/sh")
      refl
