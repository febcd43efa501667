-- ===== src/Exec/Tests.antt =====
-- Execs in a workspace of one pod with two containers; the first one has no shell.
use che_machine_exec.Common.{
  ℕ, ◌≡◌, ◌≢◌, refl, Text, codes, text_eq, is_empty, List, [], ◌∷◌, ◌++◌, none, ok, err,
  if◌then◌else◌, arith, join, ◌⊎◌,
}
use che_machine_exec.Filter.{ContainerInfo, get_container_list}
use che_machine_exec.Exec.Resolver.{MachineExec, Shells, resolve_cmd, set_up_exec_shell_path}
use che_machine_exec.Exec.Resolver.Laws.{NamesShell, AreWords, IsChange, resolve_cmd-shape}
use che_machine_exec.Exec.Manager.{
  Execs, Api, empty_exec, create, remove, check, resize, exec_not_found, register,
}
use che_machine_exec.Exec.Manager.Ids.{IsCreated, IsWellFormed, create-IsCreated, remove-check}
use che_machine_exec.Exec.Manager.Create.{IsFirst, create-IsFirst}
use che_machine_exec.Exec.Manager.Table.{view, viewed, remove_from, checked_id, resized}
use che_machine_exec.Exec.Manager.Table.Create.{CreatesOn, manager_table}

abbrev info : Text → ContainerInfo
info name = record { pod_name = codes "pod"; container_name = name }

abbrev only_b : Shells
only_b = record {
  detect_shell = λ i. none;
  start_sh = λ i. if text_eq i.container_name (codes "b") then ok tt else err (codes "no sh");
  parse_url = λ u. none;
}

abbrev api : Api
api = record {
  k8s_api = ok tt;
  selector = codes "id=1";
  pods = ok (
      record {
        name = codes "pod";
        containers =
            record { name = codes "a"; env = [] } ∷ record { name = codes "b"; env = [] } ∷ [];
      }
      ∷ []);
  shells = only_b;
  new_executor = λ i cmd. ok tt;
}

abbrev old_exec : MachineExec
old_exec = record empty_exec { id = 7 }

abbrev state : Execs
state = record { exec_map = (7, old_exec) ∷ []; prev_exec_id = 7 }

abbrev sh_command : List Text
sh_command = codes "sh" ∷ codes "-c" ∷ codes "sh" ∷ []

new_eight :
    IsCreated state
      (register empty_exec sh_command state).0
      (register empty_exec sh_command state).1
unfolding create register
new_eight =
    create-IsCreated api empty_exec (register empty_exec sh_command state).0 state
      (register empty_exec sh_command state).1 ((refl, omega arith), tt) (omega arith) refl

create-IsFirst_example :
    IsFirst api empty_exec state
      (info (codes "a") ∷ info (codes "b") ∷ [])
      (info (codes "a") ∷ info (codes "b") ∷ [])
      (create api empty_exec state)
unfolding get_container_list is_empty
create-IsFirst_example =
    create-IsFirst api empty_exec state (info (codes "a")) (info (codes "b") ∷ []) refl refl refl

removed_seven :
    (check 7 (remove 7 state) ≡ err (exec_not_found 7))
    × ((other : ℕ) → other ≢ 7 → check other (remove 7 state) ≡ check other state)
    × (IsWellFormed state → IsWellFormed (remove 7 state))
removed_seven = remove-check 7 state

abbrev list_home : MachineExec
list_home = record empty_exec {
  cmd = codes "ls" ∷ codes "-l" ∷ [];
  kind = codes "process";
  cwd = codes "/home";
}

resolve_cmd-shape_example :
    (shell : Text) × (change : Text) × (words : List Text) × ((codes "sh"
        ∷ codes "-c"
        ∷ codes "cd /home; ls -l"
        ∷ [])
      ≡ shell ∷ codes "-c" ∷ (change ++ join (codes " ") words) ∷ [])
    × IsChange only_b list_home.cwd change
    × AreWords list_home.cmd shell words
    × (NamesShell list_home.kind list_home.cmd shell
        ⊎ (((other : Text) → ¬ NamesShell list_home.kind list_home.cmd other)
            × (set_up_exec_shell_path only_b (info (codes "b")) ≡ ok shell)))
unfolding resolve_cmd
resolve_cmd-shape_example =
    resolve_cmd-shape only_b list_home (info (codes "b"))
      (codes "sh" ∷ codes "-c" ∷ codes "cd /home; ls -l" ∷ []) refl

manager_table_example :
    ((id : ℕ) (st : Execs) → view (remove id st) ≡ remove_from id (view st))
    × ((id : ℕ) (st : Execs) → check id st ≡ checked_id id ((view st).find id))
    × ((id cols rows : ℕ) (st : Execs)
        → viewed (resize id cols rows st) ≡ resized id cols rows ((view st).find id) (view st))
    × CreatesOn api empty_exec
manager_table_example = manager_table api empty_exec
