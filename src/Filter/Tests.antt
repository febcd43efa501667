-- ===== src/Filter/Tests.antt =====
-- Searches in a workspace of one pod.
use che_machine_exec.Common.{
  ◌≡◌, refl, subst, inl, inr, text_eq, codes, [], ◌∷◌, In, ok, ◌>>=◌, is_empty, false,
}
use che_machine_exec.Filter.{
  Container, Pod, ContainerInfo, get_container_list, get_container, find_container_info,
  machine_name_env_var,
}
use che_machine_exec.Filter.Laws.{
  first_named, get_container-first_named, Hosts, find_container_info-Hosts,
  find_container_info-finds,
}

abbrev tools : Container
tools = record {
  name = codes "tools";
  env = record { name = machine_name_env_var; value = codes "dev" } ∷ [];
}

abbrev workspace : Pod
workspace = record { name = codes "pod"; containers = tools ∷ [] }

get_container-first_named_example :
    get_container (codes "id=1") (ok (workspace ∷ [])) (codes "tools") ≡ (do
      infos ← get_container_list (codes "id=1") (ok (workspace ∷ []))
      first_named (codes "tools") infos)
get_container-first_named_example =
    get_container-first_named (codes "id=1") (ok (workspace ∷ [])) (codes "tools")

hosting_pod :
    (p : Pod) × In p (workspace ∷ [])
    × Hosts (codes "dev") p (record { pod_name = codes "pod"; container_name = codes "tools" })
unfolding find_container_info text_eq
hosting_pod = find_container_info-Hosts (codes "id=1") (workspace ∷ []) (codes "dev") refl

tools_named :
    (q : Pod)
    → In q (workspace ∷ [])
    → (c : Container) → In c q.containers
    → is_empty c.name ≡ false
unfolding is_empty
tools_named q (inl e) c at = named_in (subst (λ (r : Pod). In c r.containers) e at)
  where
    named_in : In c (tools ∷ []) → is_empty c.name ≡ false
    named_in (inl d) = rw d refl
    named_in (inr h) = absurd h
tools_named q (inr h) c at = absurd h

finds_container :
    (info : ContainerInfo) × (find_container_info (codes "id=1") (ok (workspace ∷ [])) (codes "dev")
      ≡ ok info)
unfolding find_container_info text_eq
finds_container =
    find_container_info-finds (codes "id=1") (workspace ∷ []) (codes "dev") workspace tools
      tools_named (inl refl) (inl refl) (inl refl)
