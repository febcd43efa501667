-- ===== src/Kube/Tests.antt =====
-- A container that sets no KUBECONFIG, with the home of a user.
use che_machine_exec.Common.{
  ◌≡◌, refl, Text, codes, text_eq, some, List, [], ◌∷◌, ◌++◌, ok, if◌then◌else◌,
}
use che_machine_exec.Kube.{Host, Container, create_kube_config_text, create_kube_config}
use che_machine_exec.Kube.Laws.{IsDirectory, create_kube_config-ok}

abbrev host : Host
host = record {
  service_host = codes "10.0.0.1";
  service_port = codes "443";
  join_host_port = λ h p. h ++ codes ":" ++ p;
  marshal = λ c. some c.current_context;
}

abbrev sh : Container
sh script =
    if text_eq script (codes "echo $KUBECONFIG")
    then some (codes "\n")
    else if text_eq script (codes "echo $HOME")
    then some (codes "/home/user\n")
    else some []

create_kube_config-ok_example :
    (config : Text) × (dir : Text) × (scripts : List Text) × (create_kube_config_text host []
        (codes "ns")
        (codes "dev")
      ≡ ok config)
    × IsDirectory sh dir scripts
    × ((create_kube_config host sh [] (codes "ns") (codes "dev")).scripts
        ≡ scripts
          ++ (codes "mkdir -p " ++ dir)
            ∷ (codes "echo \"" ++ (config ++ (codes "\" > " ++ (dir ++ codes "/config"))))
            ∷ [])
unfolding create_kube_config text_eq
create_kube_config-ok_example = create_kube_config-ok host sh [] (codes "ns") (codes "dev") [] refl
