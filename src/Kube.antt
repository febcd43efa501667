-- ===== src/Kube.antt =====
-- kubeconfig/kubeconfig.go: the kubeconfig that is written in a container. Commands run through
-- `sh`: a parameter gives the output of each, or `none` when it fails to start or writes to its error
-- output. The environment, `net.JoinHostPort` and the YAML encoder are parameters too.
pub mod Laws
mod Tests
use che_machine_exec.Common.{
  ℕ, Text, codes, text_eq, is_empty, trim_suffix, cut_prefix, Bool, true, false, not, ◌||◌, Option,
  none, some, List, [], ◌∷◌, ◌++◌, Result, ok, err, if◌then◌else◌,
}

-- `KubeConfig` with its clusters, users and contexts.
pub record Cluster : Type 0 where
  pub certificate_authority : Text
  pub server : Text
  pub name : Text

pub record User : Type 0 where
  pub name : Text
  pub token : Text

pub record Context : Type 0 where
  pub cluster : Text
  pub namespace : Text
  pub user : Text
  pub name : Text

pub record KubeConfig : Type 0 where
  pub api_version : Text
  pub clusters : List Cluster
  pub users : List User
  pub contexts : List Context
  pub current_context : Text
  pub kind : Text

unfoldable pub generate_kube_config : Text → Text → Text → Text → KubeConfig
generate_kube_config token server namespace username =
    let current = username ++ codes "-context" in
    record {
      api_version = codes "v1";
      clusters =
          record {
            certificate_authority = codes "/var/run/secrets/kubernetes.io/serviceaccount/ca.crt";
            server = server;
            name = server;
          }
          ∷ [];
      users = record { name = username; token = token } ∷ [];
      contexts =
          record { cluster = server; namespace = namespace; user = username; name = current } ∷ [];
      current_context = current;
      kind = codes "Config";
    }

pub data KubeError : Type 0 where
  no_service_host : KubeError
  marshal_failed : KubeError
  no_kubeconfig : KubeError
  no_home : KubeError
  no_directory : Text → KubeError
  no_write : Text → KubeError

pub record Host : Type 0 where
  pub service_host : Text
  pub service_port : Text
  pub join_host_port : Text → Text → Text
  pub marshal : KubeConfig → Option Text

unfoldable pub create_kube_config_text : Host → Text → Text → Text → Result KubeError Text
unfolding generate_kube_config is_empty
create_kube_config_text h token namespace username =
    if is_empty h.service_host || is_empty h.service_port
    then err no_service_host
    else (let server = codes "https://" ++ h.join_host_port h.service_host h.service_port in
        elim (h.marshal (generate_kube_config token server namespace username)) [
          | none ↦ err marshal_failed
          | some text ↦ ok text
        ])

-- A script's output, by the script.
abbrev pub Container : Type 0
Container = Text → Option Text

-- The scripts that were run, in order, and the result.
pub record Logged (A : Type 0) : Type 0 where
  pub scripts : List Text
  pub result : Result KubeError A

abbrev pub done : {A : Type 0} → A → Logged A
done a = record { scripts = []; result = ok a }

abbrev pub fail : {A : Type 0} → KubeError → Logged A
fail e = record { scripts = []; result = err e }

abbrev pub output_or : KubeError → Option Text → Result KubeError Text
output_or e none = err e
output_or e (some out) = ok out

abbrev pub run_script : Container → KubeError → Text → Logged Text
run_script sh e script = record { scripts = script ∷ []; result = output_or e (sh script) }

abbrev pub then_run : {A B : Type 0} → List Text → Result KubeError A → (A → Logged B) → Logged B
then_run scripts (err e) rest = record { scripts = scripts; result = err e }
then_run scripts (ok a) rest = record {
  scripts = scripts ++ (rest a).scripts;
  result = (rest a).result;
}

infixl 5 ◌>>=◌
abbrev pub ◌>>=◌ : {A B : Type 0} → Logged A → (A → Logged B) → Logged B
m >>= rest = then_run m.scripts m.result rest

-- `strings.Replace(s, old, "", 1)`.
unfoldable pub remove_first : Text → Text → Text
unfolding cut_prefix
remove_first [] old = []
remove_first (c ∷ s) old = elim (cut_prefix (c ∷ s) old) [
  | some rest ↦ rest
  | none ↦ c ∷ remove_first s old
]

unfoldable pub dir_in_home : Text → Text
unfolding trim_suffix
dir_in_home home = trim_suffix home (codes "\n") ++ codes "/.kube"

-- `findKubeConfigDir` behind the output of the first script.
unfoldable pub dir_from : Container → Text → Logged Text
unfolding remove_first text_eq dir_in_home
dir_from sh out =
    if not (text_eq out (codes "\n"))
    then done (remove_first out (codes "/config"))
    else run_script sh no_home (codes "echo $HOME") >>= λ home. done (dir_in_home home)

unfoldable pub find_kube_config_dir : Container → Logged Text
unfolding dir_from
find_kube_config_dir sh = run_script sh no_kubeconfig (codes "echo $KUBECONFIG") >>= dir_from sh

unfoldable pub create_kube_config_dir : Container → Text → Logged Text
create_kube_config_dir sh kubeconfig_dir =
    run_script sh (no_directory kubeconfig_dir) (codes "mkdir -p " ++ kubeconfig_dir)

unfoldable pub write_script : Text → Text → Text
write_script config location =
    codes "echo \"" ++ (config ++ (codes "\" > " ++ (location ++ codes "/config")))

unfoldable pub sync_kube_config : Container → Text → Text → Logged Text
unfolding write_script
sync_kube_config sh config kubeconfig_location =
    run_script sh (no_write kubeconfig_location) (write_script config kubeconfig_location)

-- `CreateKubeConfig` behind the text of the configuration.
unfoldable pub put_kube_config : Container → Text → Logged Text
unfolding find_kube_config_dir create_kube_config_dir sync_kube_config
put_kube_config sh config = do
  dir ← find_kube_config_dir sh
  made ← create_kube_config_dir sh dir
  sync_kube_config sh config dir

-- `CreateKubeConfig`.
unfoldable pub create_kube_config : Host → Container → Text → Text → Text → Logged Text
unfolding create_kube_config_text put_kube_config
create_kube_config h sh token namespace username =
    elim (create_kube_config_text h token namespace username) [
      | err e ↦ fail e
      | ok config ↦ put_kube_config sh config
    ]
