-- ===== src/Kube/Laws.antt =====
-- The scripts that write a kubeconfig.
use che_machine_exec.Common.{
  ◌≡◌, refl, sym, subst, ap, ◌∙◌, ◌⊎◌, inl, inr, Text, codes, text_eq, text_eq_iff, true, false,
  Option, none, some, List, [], ◌∷◌, ◌++◌, Result, ok, err, Bool-cases, trim_suffix, Result-cases,
}
use che_machine_exec.Kube.{
  Host, Container, Logged, KubeError, output_or, then_run, create_kube_config_text, remove_first,
  dir_in_home, dir_from, find_kube_config_dir, create_kube_config_dir, sync_kube_config,
  write_script, put_kube_config, fail, ◌>>=◌, create_kube_config, done,
}

then_run-ok :
    {A B : Type 0} (scripts : List Text) (r : Result KubeError A) (rest : A → Logged B) (b : B)
    → (then_run scripts r rest).result ≡ ok b
    → (a : A) × (r ≡ ok a)
      × ((rest a).result ≡ ok b)
      × ((then_run scripts r rest).scripts ≡ scripts ++ (rest a).scripts)
then_run-ok scripts (err e) rest b h = absurd (cc h)
then_run-ok scripts (ok a) rest b h = (a, refl, h, refl)

output_or-ok :
    (e : KubeError) (o : Option Text) (out : Text) → output_or e o ≡ ok out → o ≡ some out
output_or-ok e none out h = absurd (cc h)
output_or-ok e (some x) out h = cc h

ok_inj : {a b : Text} → (r : Result KubeError Text) → r ≡ ok a → r ≡ ok b → a ≡ b
ok_inj r e h = cc (e, h)

-- Where the kubeconfig goes, and the scripts that find it.
abbrev pub IsDirectory : Container → Text → List Text → Type 0
IsDirectory sh dir scripts =
    ((out : Text) × (sh (codes "echo $KUBECONFIG") ≡ some out)
      × (text_eq out (codes "\n") ≡ false)
      × (dir ≡ remove_first out (codes "/config"))
      × (scripts ≡ codes "echo $KUBECONFIG" ∷ []))
    ⊎ ((home : Text) × (sh (codes "echo $KUBECONFIG") ≡ some (codes "\n"))
        × (sh (codes "echo $HOME") ≡ some home)
        × (dir ≡ trim_suffix home (codes "\n") ++ codes "/.kube")
        × (scripts ≡ codes "echo $KUBECONFIG" ∷ codes "echo $HOME" ∷ []))

dir_from_set :
    (sh : Container) (out : Text)
    → text_eq out (codes "\n") ≡ false
    → dir_from sh out ≡ done (remove_first out (codes "/config"))
unfolding dir_from
dir_from_set sh out e = rw e refl

dir_from_unset :
    (sh : Container) (out : Text)
    → text_eq out (codes "\n") ≡ true
    → dir_from sh out
      ≡ then_run
          (codes "echo $HOME" ∷ [])
          (output_or KubeError.no_home (sh (codes "echo $HOME")))
          (λ home. done (dir_in_home home))
unfolding dir_from
dir_from_unset sh out e = rw e refl

dir_from-ok :
    (sh : Container) (out dir : Text)
    → sh (codes "echo $KUBECONFIG") ≡ some out
    → (dir_from sh out).result ≡ ok dir
    → IsDirectory sh dir (codes "echo $KUBECONFIG" ∷ (dir_from sh out).scripts)
unfolding dir_in_home
dir_from-ok sh out dir found h = elim (Bool-cases (text_eq out (codes "\n"))) [
  | inr e ↦
      let same = dir_from_set sh out e in
      inl (
        out,
        found,
        e,
        sym (ok_inj (dir_from sh out).result (ap Logged.result same) h),
        ap (λ l. codes "echo $KUBECONFIG" ∷ l.scripts) same,
      )
  | inl e ↦
      let same = dir_from_unset sh out e in
      let (home, e1, h1, log) =
        then_run-ok (codes "echo $HOME" ∷ [])
          (output_or KubeError.no_home (sh (codes "echo $HOME"))) (λ home. done (dir_in_home home))
          dir (ap Logged.result (sym same) ∙ h) in
      inr (
        home,
        found ∙ ap some ((text_eq_iff out (codes "\n")).0 e),
        output_or-ok _ _ home e1,
        sym (ok_inj (ok (dir_in_home home)) refl h1),
        ap (λ l. codes "echo $KUBECONFIG" ∷ l.scripts) same
            ∙ ap (λ l. codes "echo $KUBECONFIG" ∷ l) log,
      )
]

find_kube_config_dir-ok :
    (sh : Container) (dir : Text)
    → (find_kube_config_dir sh).result ≡ ok dir
    → IsDirectory sh dir (find_kube_config_dir sh).scripts
unfolding find_kube_config_dir
find_kube_config_dir-ok sh dir h =
    let (out, e, h1, log) =
      then_run-ok (codes "echo $KUBECONFIG" ∷ [])
        (output_or KubeError.no_kubeconfig (sh (codes "echo $KUBECONFIG"))) (dir_from sh) dir h in
    subst (λ scripts. IsDirectory sh dir scripts) (sym log)
      (dir_from-ok sh out dir (output_or-ok _ _ out e) h1)

put_kube_config-ok :
    (sh : Container) (config out : Text)
    → (put_kube_config sh config).result ≡ ok out
    → (dir : Text) × (scripts : List Text) × IsDirectory sh dir scripts
      × ((put_kube_config sh config).scripts
          ≡ scripts
            ++ (codes "mkdir -p " ++ dir)
              ∷ (codes "echo \"" ++ (config ++ (codes "\" > " ++ (dir ++ codes "/config"))))
              ∷ [])
unfolding write_script put_kube_config create_kube_config_dir sync_kube_config
put_kube_config-ok sh config out h =
    let (dir, found, h1, log) =
      then_run-ok (find_kube_config_dir sh).scripts (find_kube_config_dir sh).result
        (λ dir. create_kube_config_dir sh dir >>= λ made. sync_kube_config sh config dir) out h in
    let (made, _, _, log1) =
      then_run-ok ((codes "mkdir -p " ++ dir) ∷ [])
        (output_or (KubeError.no_directory dir) (sh (codes "mkdir -p " ++ dir)))
        (λ made. sync_kube_config sh config dir) out h1 in
    (
      dir,
      (find_kube_config_dir sh).scripts,
      find_kube_config_dir-ok sh dir found,
      log ∙ ap (λ l. (find_kube_config_dir sh).scripts ++ l) log1,
    )

create_kube_config_text_ok :
    (h : Host) (sh : Container) (token namespace username config : Text)
    → create_kube_config_text h token namespace username ≡ ok config
    → create_kube_config h sh token namespace username ≡ put_kube_config sh config
unfolding create_kube_config
create_kube_config_text_ok h sh token namespace username config e = rw (e, create_kube_config) refl

create_kube_config_text_err :
    (h : Host) (sh : Container) (token namespace username : Text) (e : KubeError)
    → create_kube_config_text h token namespace username ≡ err e
    → create_kube_config h sh token namespace username ≡ fail e
unfolding create_kube_config
create_kube_config_text_err h sh token namespace username e f = rw (f, create_kube_config) refl

-- When `CreateKubeConfig` succeeds, it has run exactly these scripts in this order: those that find the
-- directory, `mkdir -p ` with it, and `echo "` with the marshalled configuration, `" > `, the directory
-- and `/config`. The directory is all that `echo $KUBECONFIG` has written, its line feed too, less the first
-- "/config" in it, unless that is a line feed alone; else it is what `echo $HOME` has written, less a line
-- feed at the end, and `/.kube`.
pub create_kube_config-ok :
    (h : Host) (sh : Container) (token namespace username out : Text)
    → (create_kube_config h sh token namespace username).result ≡ ok out
    → (config : Text) × (dir : Text) × (scripts : List Text) × (create_kube_config_text h token
          namespace username
        ≡ ok config)
      × IsDirectory sh dir scripts
      × ((create_kube_config h sh token namespace username).scripts
          ≡ scripts
            ++ (codes "mkdir -p " ++ dir)
              ∷ (codes "echo \"" ++ (config ++ (codes "\" > " ++ (dir ++ codes "/config"))))
              ∷ [])
unfolding write_script
create_kube_config-ok h sh token namespace username out r =
    elim (Result-cases (create_kube_config_text h token namespace username)) [
      | inl (e, f) ↦ absurd (
          cc (
            ap Logged.result (sym (create_kube_config_text_err h sh token namespace username e f))
            ∙ r))
      | inr (config, f) ↦
          let same = create_kube_config_text_ok h sh token namespace username config f in
          let (dir, scripts, found, log) =
            put_kube_config-ok sh config out (ap Logged.result (sym same) ∙ r) in
          (config, dir, scripts, f, found, ap Logged.scripts same ∙ log)
    ]
