-- ===== src/Client/Laws.antt =====
-- Whose permissions a client of the cluster has.
use che_machine_exec.Common.{
  ◌≡◌, refl, sym, ap, ◌∙◌, inl, inr, Text, is_empty, Bool, true, false, none, some, List, [], ◌∷◌,
  Result, ok, err, Bool-cases, Result-cases,
}
use che_machine_exec.Client.{
  RestConfig, Cluster, K8sApi, make_api, Provider, get_k8s_api_with_sa, with_token,
  get_k8s_api_with_bearer_token, get_k8s_api,
}

module _ {C : Type 0} where
  pub make_api-config :
      (cluster : Cluster C) (config : RestConfig) (api : K8sApi C)
      → make_api cluster config ≡ ok api
      → (api.config ≡ config) × (cluster.new_for_config config ≡ ok api.client)
  unfolding make_api
  make_api-config cluster config api h = elim (Result-cases (cluster.new_for_config config)) [
    | inl (e, k) ↦ absurd (cc (rw (k, make_api) at h))
    | inr (client, k) ↦
        let made : ok (record { config = config; client = client }) ≡ ok api =
          rw (k, make_api) at h in
        let same : record { config = config; client = client } ≡ api = cc made in
        (
          ap (λ (a : K8sApi C). a.config) (sym same),
          k ∙ ap ok (ap (λ (a : K8sApi C). a.client) same),
        )
  ]

  -- The API acts for the token alone: the configuration of the pod with the token in place of the
  -- service account's, of which nothing is left.
  abbrev pub ActsFor : Cluster C → Text → K8sApi C → Type 0
  ActsFor cluster token api =
      (is_empty token ≡ false)
      × ((config : RestConfig) × (cluster.in_cluster_config ≡ ok config)
          × (api.config ≡ record config { bearer_token = token; bearer_token_file = [] }))
      × (cluster.new_for_config api.config ≡ ok api.client)

  pub bearer_token-ActsFor :
      (cluster : Cluster C) (token : Text) (api : K8sApi C)
      → get_k8s_api_with_bearer_token cluster token ≡ ok api
      → ActsFor cluster token api
  unfolding get_k8s_api_with_bearer_token with_token
  bearer_token-ActsFor cluster token api h = elim (Bool-cases (is_empty token)) [
    | inl e ↦ absurd (cc (rw (e, get_k8s_api_with_bearer_token) at h))
    | inr e ↦ elim (Result-cases cluster.in_cluster_config) [
      | inl (x, k) ↦ absurd (cc (rw (e, k, get_k8s_api_with_bearer_token) at h))
      | inr (config, k) ↦
          let made : make_api cluster (with_token token config) ≡ ok api =
            rw (e, k, get_k8s_api_with_bearer_token) at h in
          let (own, client) = make_api-config cluster (with_token token config) api made in
          (e, (config, k, own), ap cluster.new_for_config own ∙ client)
    ]
  ]

  -- Calls of `GetK8sAPI` one after another, each with the cluster as it is then and a token.
  abbrev pub get_all : Bool → List (Cluster C × Text) → Provider C → List (Result Text (K8sApi C))
  get_all auth [] provider = []
  get_all auth ((cluster, token) ∷ calls) provider =
      (get_k8s_api auth cluster token provider).0
      ∷ get_all auth calls (get_k8s_api auth cluster token provider).1

  -- Each call that succeeds gives an API that acts for its own token.
  abbrev pub AreOwn : List (Cluster C × Text) → List (Result Text (K8sApi C)) → Type 0
  AreOwn [] results = Unit
  AreOwn (call ∷ calls) [] = ⊥
  AreOwn (call ∷ calls) (result ∷ results) =
      ((api : K8sApi C) → result ≡ ok api → ActsFor call.0 call.1 api) × AreOwn calls results

  get_all-AreOwn :
      (calls : List (Cluster C × Text)) (provider : Provider C)
      → AreOwn calls (get_all true calls provider)
  unfolding get_k8s_api
  get_all-AreOwn [] provider = tt
  get_all-AreOwn ((cluster, token) ∷ calls) provider =
      (bearer_token-ActsFor cluster token, get_all-AreOwn calls provider)

  -- The API has the configuration of the pod, with its service account.
  abbrev pub IsOfPod : Cluster C → K8sApi C → Type 0
  IsOfPod cluster api =
      (cluster.in_cluster_config ≡ ok api.config)
      × (cluster.new_for_config api.config ≡ ok api.client)

  -- Once there is an API of the pod, made by the first call that succeeds, every call gives that one.
  abbrev pub AreShared :
      Provider C → List (Cluster C × Text) → List (Result Text (K8sApi C)) → Type 0
  AreShared provider [] results = Unit
  AreShared provider (call ∷ calls) [] = ⊥
  AreShared (some api) (call ∷ calls) (result ∷ results) =
      (result ≡ ok api) × AreShared (some api) calls results
  AreShared none (call ∷ calls) (err e ∷ results) = AreShared none calls results
  AreShared none (call ∷ calls) (ok api ∷ results) =
      IsOfPod call.0 api × AreShared (some api) calls results

  get_all-AreShared :
      (calls : List (Cluster C × Text)) (provider : Provider C)
      → AreShared provider calls (get_all false calls provider)
  unfolding get_k8s_api get_k8s_api_with_sa
  get_all-AreShared [] provider = tt
  get_all-AreShared ((cluster, token) ∷ calls) (some api) =
      (refl, get_all-AreShared calls (some api))
  get_all-AreShared ((cluster, token) ∷ calls) none =
      elim (Result-cases cluster.in_cluster_config) [
        | inl (e, k) ↦ rw (k, get_k8s_api, get_k8s_api_with_sa) (get_all-AreShared calls none)
        | inr (config, k) ↦ elim (Result-cases (make_api cluster config)) [
          | inl (e, l) ↦ rw (k, get_k8s_api, get_k8s_api_with_sa, l) (get_all-AreShared calls none)
          | inr (api, l) ↦
              let (own, made) = make_api-config cluster config api l in
              rw (k, get_k8s_api, get_k8s_api_with_sa, l)
                (
                  (ap ok (sym own), ap cluster.new_for_config own ∙ made),
                  get_all-AreShared calls (some api),
                )
        ]
      ]

-- With authentication, whatever calls came before, a call of `GetK8sAPI` that succeeds gives an API with
-- the token of that call, which is not empty, and nothing of the service account. Without it, the first
-- call that succeeds makes an API with the configuration of the pod, and every later call gives that one.
pub get_all-cases :
    {C : Type 0} (calls : List (Cluster C × Text)) (provider : Provider C)
    → AreOwn calls (get_all true calls provider)
      × AreShared provider calls (get_all false calls provider)
get_all-cases calls provider = (get_all-AreOwn calls provider, get_all-AreShared calls provider)
