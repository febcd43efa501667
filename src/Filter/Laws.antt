-- ===== src/Filter/Laws.antt =====
-- What the searches of the container filter find.
use che_machine_exec.Common.{
  ◌≡◌, refl, subst, ◌⊎◌, inl, inr, Text, text_eq, text_eq_iff, is_empty, true, false, List, [], ◌∷◌,
  ◌++◌, none, some, Result, ok, err, ◌>>=◌, arith, if◌then◌else◌, In, Bool-cases, Option-cases,
}
use che_machine_exec.Filter.{
  Container, Pod, ContainerInfo, FilterError, no_container, infos_of, all_infos, container_in,
  container_in_pods, has_machine_env, find_container_name, find_in_pods, get_workspace_pods,
  get_container_list, get_container, find_container_info,
}

-- The first entry of a listing with a given container name.
abbrev pub first_named : Text → List ContainerInfo → Result FilterError ContainerInfo
first_named name [] = err (no_container name)
first_named name (i ∷ is) = if text_eq i.container_name name then ok i else first_named name is

first_named-append_none :
    (name pod : Text) (cs : List Container) (rest : List ContainerInfo)
    → container_in name pod cs ≡ none
    → first_named name (infos_of pod cs ++ rest) ≡ first_named name rest
unfolding container_in infos_of
first_named-append_none name pod [] rest h = refl
first_named-append_none name pod (c ∷ cs) rest h =
    ground (arith, first_named-append_none name pod cs rest)

first_named-append_some :
    (name pod : Text) (cs : List Container) (rest : List ContainerInfo) (i : ContainerInfo)
    → container_in name pod cs ≡ some i
    → first_named name (infos_of pod cs ++ rest) ≡ ok i
unfolding container_in infos_of
first_named-append_some name pod [] rest i h = cc
first_named-append_some name pod (c ∷ cs) rest i h =
    ground (arith, first_named-append_some name pod cs rest i)

container_in_pods-first_named :
    (name : Text) (ps : List Pod) → container_in_pods name ps ≡ first_named name (all_infos ps)
unfolding container_in_pods all_infos
container_in_pods-first_named name [] = refl
container_in_pods-first_named name (p ∷ ps) =
    elim (Option-cases (container_in name p.name p.containers)) [
      | inl e ↦ ground (
        arith,
        first_named-append_none name p.name p.containers (all_infos ps),
        container_in_pods-first_named name ps,
      )
      | inr (i, e) ↦
          ground (arith, first_named-append_some name p.name p.containers (all_infos ps) i)
    ]

-- A lookup by container name gives the first entry of the container list with that name, the list's
-- own error when there is no list, and an error that carries the name when no entry has it.
pub get_container-first_named :
    (selector : Text) (reply : Result Text (List Pod)) (name : Text)
    → get_container selector reply name
      ≡ (do infos ← get_container_list selector reply; first_named name infos)
unfolding get_container get_container_list
get_container-first_named selector reply name =
    elim (get_workspace_pods selector reply)
      as (λ r.
        (r >>= container_in_pods name)
        ≡ ((r >>= λ pods. ok (all_infos pods)) >>= first_named name)) [
          | ok ps ↦ container_in_pods-first_named name ps
          | err e ↦ refl
        ]

-- The container that a machine name denotes: its environment names the machine, or it has the name.
abbrev pub Denotes : Text → Container → Type 0
Denotes machine_name c = (has_machine_env machine_name c.env ≡ true) ⊎ (c.name ≡ machine_name)

abbrev pub Hosts : Text → Pod → ContainerInfo → Type 0
Hosts machine_name p info =
    (info.pod_name ≡ p.name)
    × (c : Container) × In c p.containers
    × Denotes machine_name c
    × (info.container_name ≡ c.name)

find_container_name-Denotes :
    (m : Text) (cs : List Container)
    → is_empty (find_container_name cs m) ≡ false
    → (c : Container) × In c cs × Denotes m c × (find_container_name cs m ≡ c.name)
unfolding find_container_name is_empty
find_container_name-Denotes m [] h = cc
find_container_name-Denotes m (c ∷ cs) h = elim (Bool-cases (has_machine_env m c.env)) [
  | inl e ↦ (c, inl refl, inl e, rw e)
  | inr ne ↦ elim (Bool-cases (text_eq c.name m)) [
    | inl e ↦ (c, inl refl, inr ((text_eq_iff c.name m).0 e), rw (ne, e))
    | inr e ↦
        let (d, at, den, eq) = find_container_name-Denotes m cs (rw (ne, e) at h) in
        (d, inr at, den, rw (ne, e) eq)
  ]
]

find_in_pods-Hosts :
    (m : Text) (ps : List Pod) {info : ContainerInfo}
    → find_in_pods m ps ≡ ok info
    → (p : Pod) × In p ps × Hosts m p info
unfolding find_in_pods
find_in_pods-Hosts m [] h = cc
find_in_pods-Hosts m (p ∷ ps) h =
    elim (Bool-cases (is_empty (find_container_name p.containers m))) [
      | inl e ↦ let (q, at, hosts) = find_in_pods-Hosts m ps (rw e at h) in (q, inr at, hosts)
      | inr e ↦
          let (c, at, den, eq) = find_container_name-Denotes m p.containers e in
          (p, inl refl, (ground arith, c, at, den, ground arith))
    ]

-- A container that is found by machine name is a container of one of the listed pods, is reported
-- with that pod's name, and denotes the machine: an entry of its environment is CHE_MACHINE_NAME
-- with the machine name as its value, or the container has that name.
pub find_container_info-Hosts :
    (selector : Text) (ps : List Pod) (m : Text) {info : ContainerInfo}
    → find_container_info selector (ok ps) m ≡ ok info
    → (p : Pod) × In p ps × Hosts m p info
unfolding find_container_info get_workspace_pods
find_container_info-Hosts selector [] m h = cc
find_container_info-Hosts selector (p ∷ ps) m h = find_in_pods-Hosts m (p ∷ ps) h

-- Every container of the pod has a name, as the Kubernetes API requires.
abbrev pub IsNamed : Pod → Type 0
IsNamed p = (c : Container) → In c p.containers → is_empty c.name ≡ false

find_container_name-finds :
    (m : Text) (cs : List Container) (c : Container)
    → ((d : Container) → In d cs → is_empty d.name ≡ false)
    → In c cs
    → Denotes m c
    → is_empty (find_container_name cs m) ≡ false
unfolding find_container_name
find_container_name-finds m [] c named at den = absurd at
find_container_name-finds m (x ∷ cs) c named (inl e) den =
    ground (arith, named x (inl refl), text_eq_iff x.name m)
find_container_name-finds m (x ∷ cs) c named (inr at) den =
    ground
      (arith, named x (inl refl), find_container_name-finds m cs c (λ d h. named d (inr h)) at den)

find_in_pods-finds :
    (m : Text) (ps : List Pod) (p : Pod) (c : Container)
    → ((q : Pod) → In q ps → IsNamed q)
    → In p ps
    → In c p.containers
    → Denotes m c
    → (info : ContainerInfo) × (find_in_pods m ps ≡ ok info)
unfolding find_in_pods
find_in_pods-finds m [] p c named at in_p den = absurd at
find_in_pods-finds m (q ∷ ps) p c named at in_p den =
    elim (Bool-cases (is_empty (find_container_name q.containers m))) [
      | inr e ↦
          (record { pod_name = q.name; container_name = find_container_name q.containers m }, rw e)
      | inl e ↦ elim at [
        | inl eq ↦ absurd (
            cc (
              find_container_name-finds m q.containers c (named q (inl refl))
                  (subst (λ (r : Pod). In c r.containers) eq in_p) den,
              e,
            ))
        | inr later ↦
            let (info, found) =
              find_in_pods-finds m ps p c (λ r h. named r (inr h)) later in_p den in
            (info, rw e found)
      ]
    ]

-- A machine name that some container of a listed pod denotes is always found, provided that no
-- container of the listing has an empty name.
pub find_container_info-finds :
    (selector : Text) (ps : List Pod) (m : Text) (p : Pod) (c : Container)
    → ((q : Pod) → In q ps → IsNamed q)
    → In p ps
    → In c p.containers
    → Denotes m c
    → (info : ContainerInfo) × (find_container_info selector (ok ps) m ≡ ok info)
unfolding find_container_info get_workspace_pods
find_container_info-finds selector [] m p c named at in_p den = absurd at
find_container_info-finds selector (q ∷ ps) m p c named at in_p den =
    find_in_pods-finds m (q ∷ ps) p c named at in_p den
