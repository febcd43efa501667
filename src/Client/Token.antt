-- ===== src/Client/Token.antt =====
-- Which token reaches the cluster: the handlers of api/jsonrpc and auth, composed with the clients.
use che_machine_exec.Common.{
  ℕ, ◌≡◌, ap, ◌∙◌, inl, inr, Text, codes, is_empty, Bool, true, Option, none, some, [], ◌∷◌, Result,
  ok, err, Bool-cases, Option-cases, Result-cases, ◌==◌,
}
use che_machine_exec.Validation.{validate_no_shell_metacharacters}
use che_machine_exec.Exec.Resolver.{MachineExec}
use che_machine_exec.Exec.Manager.{Execs, Api, create}
use che_machine_exec.Api.Auth.{AuthConfig, Headers, token_of}
use che_machine_exec.Api.Auth.Laws.{token_of-IsAuthorized}
use che_machine_exec.Api.Rpc.{sends_id, minus_one, set_token, after_create, json_rpc_create_exec}
use che_machine_exec.Client.{
  RestConfig, Cluster, K8sApi, make_api, Provider, with_token, get_k8s_api,
  get_k8s_api_with_bearer_token, new_dynamic_for_users_with_token, get_current_user_id,
}
use che_machine_exec.Client.Laws.{ActsFor, bearer_token-ActsFor, make_api-config}

abbrev pub no_api : Text → Api
no_api e = record {
  k8s_api = err e;
  selector = [];
  pods = err e;
  shells = record {
    detect_shell = λ info. none;
    start_sh = λ info. err e;
    parse_url = λ url. none;
  };
  new_executor = λ info cmd. err e;
}

abbrev pub api_of : {C : Type 0} → (K8sApi C → Api) → Result Text (K8sApi C) → Api
api_of answers (err e) = no_api e
api_of answers (ok api) = record (answers api) { k8s_api = ok tt }

-- What the cluster does for the exec manager when it is called with a token: `answers` is what it does
-- through an API of the provider.
unfoldable pub manager_api :
    {C : Type 0} → Bool → Cluster C → Provider C → (K8sApi C → Api) → Text → Api
unfolding get_k8s_api
manager_api auth cluster provider answers token =
    api_of answers (get_k8s_api auth cluster token provider).0

create_reachable :
    (e : Text) (x : MachineExec) (st : Execs) (r : MachineExec × Execs)
    → create (no_api e) x st ≡ ok r
    → ⊥
unfolding create
create_reachable e x st r h = cc h

set_token-some :
    (attribute : Option Text) (token : Text)
    → set_token true attribute ≡ ok token
    → attribute ≡ some token
unfolding set_token
set_token-some none token h = absurd (cc h)
set_token-some (some given) token h = elim (Bool-cases (is_empty given)) [
  | inl e ↦ absurd (cc (rw (e, set_token) at h))
  | inr e ↦ let same : ok given ≡ ok token = rw (e, set_token) at h in ap some (cc same)
]

module _ {C : Type 0} (cluster : Cluster C) (provider : Provider C) (answers : K8sApi C → Api)
    (attribute : Option Text) (e : MachineExec) (st : Execs) where
  -- An exec was made through an API that acts for the token of the connection.
  abbrev pub IsMadeFor : MachineExec → Execs → Type 0
  IsMadeFor made after =
      (token : Text) × (api : K8sApi C) × (attribute ≡ some token)
      × ActsFor cluster token api
      × (create (record (answers api) { k8s_api = ok tt }) e st ≡ ok (made, after))

  create-IsMadeFor :
      (token : Text) (made : MachineExec) (after : Execs)
      → attribute ≡ some token
      → create (manager_api true cluster provider answers token) e st ≡ ok (made, after)
      → IsMadeFor made after
  unfolding manager_api get_k8s_api
  create-IsMadeFor token made after own h =
      elim (Result-cases (get_k8s_api_with_bearer_token cluster token)) [
        | inl (x, k) ↦
            let bad : create (no_api x) e st ≡ ok (made, after) =
              rw (k, manager_api, get_k8s_api) at h in
            absurd (create_reachable x e st (made, after) bad)
        | inr (api, k) ↦
            let good : create (record (answers api) { k8s_api = ok tt }) e st ≡ ok (made, after) =
              rw (k, manager_api, get_k8s_api) at h in
            (token, api, own, bearer_token-ActsFor cluster token api k, good)
      ]

  -- When authentication is on and a request for an exec is answered with its ID, the exec was made through
  -- a client with the token of the connection that sent the request, which is not empty, and with nothing
  -- of the service account.
  pub created_with_own_token :
      (id : ℕ)
      → (json_rpc_create_exec true
          (manager_api true cluster provider answers)
          attribute
          e
          st).replies
        ≡ sends_id id ∷ []
      → (made : MachineExec) × (after : Execs) × (made.id ≡ id) × IsMadeFor made after
  unfolding json_rpc_create_exec after_create
  created_with_own_token id h =
      let api = manager_api true cluster provider answers in
      elim (Option-cases (validate_no_shell_metacharacters e.cwd (codes "cwd"))) [
        | inr (f, v) ↦ absurd (cc (rw (v, json_rpc_create_exec) at h))
        | inl v ↦ elim (Result-cases (set_token true attribute)) [
          | inl (x, t) ↦ absurd (cc (rw (v, json_rpc_create_exec, t) at h))
          | inr (token, t) ↦ elim (Result-cases (create (api token) e st)) [
            | inl (x, c) ↦ absurd (cc (rw (v, json_rpc_create_exec, t, c, after_create) at h))
            | inr ((made, after), c) ↦ elim (Bool-cases (made.id == minus_one)) [
              | inl k ↦ absurd (cc (rw (v, json_rpc_create_exec, t, c, after_create, k) at h))
              | inr k ↦
                  let same : sends_id made.id ∷ [] ≡ sends_id id ∷ [] =
                    rw (v, json_rpc_create_exec, t, c, after_create, k) at h in
                  (
                    made,
                    after,
                    cc same,
                    create-IsMadeFor token made after (set_token-some attribute token t) c,
                  )
            ]
          ]
        ]
      ]

-- The cluster, asked with the token alone, says that it belongs to the user.
abbrev pub IsOwnUser : {C : Type 0} → Cluster C → (C → Result Text Text) → Text → Text → Type 0
IsOwnUser {C = C} cluster get_uid token user =
    (config : RestConfig) × (client : C) × (cluster.in_cluster_config ≡ ok config)
    × (cluster.new_for_config (record {
      bearer_token = token;
      bearer_token_file = [];
      group_version = codes "user.openshift.io/v1";
      api_path = codes "apis";
    })
        ≡ ok client)
    × (get_uid client ≡ ok user)

get_current_user_id-IsOwnUser :
    {C : Type 0} (cluster : Cluster C) (get_uid : C → Result Text Text) (token user : Text)
    → get_current_user_id cluster get_uid token ≡ ok user
    → IsOwnUser cluster get_uid token user
unfolding get_current_user_id new_dynamic_for_users_with_token with_token
get_current_user_id-IsOwnUser cluster get_uid token user h =
    elim (Result-cases cluster.in_cluster_config) [
      | inl (x, k) ↦
          absurd (cc (rw (k, get_current_user_id, new_dynamic_for_users_with_token) at h))
      | inr (config, k) ↦
          let own = record (with_token token config) {
            group_version = codes "user.openshift.io/v1";
            api_path = codes "apis";
          } in
          elim (Result-cases (make_api cluster own)) [
            | inl (x, l) ↦
                absurd (cc (rw (k, get_current_user_id, new_dynamic_for_users_with_token, l) at h))
            | inr (api, l) ↦
                let (_, made) = make_api-config cluster own api l in
                elim (Result-cases (get_uid api.client)) [
                  | inl (x, m) ↦ absurd (
                      cc (rw (k, get_current_user_id, new_dynamic_for_users_with_token, l, m) at h))
                  | inr (uid, m) ↦
                      let found : ok uid ≡ ok user =
                        rw (k, get_current_user_id, new_dynamic_for_users_with_token, l, m) at h in
                      (config, api.client, k, made, m ∙ ap ok (cc found))
                ]
          ]
    ]

-- The configuration of the authentication, with the look-up of a user in the cluster.
abbrev pub auth_config : {C : Type 0} → Cluster C → (C → Result Text Text) → Text → AuthConfig
auth_config cluster get_uid user = record {
  use_bearer_token = true;
  authenticated_user_id = user;
  get_current_user_id = get_current_user_id cluster get_uid;
}

-- When authentication is on, a token that the handlers go on with was shown to the cluster alone, without the
-- service account, and the cluster has said that it belongs to the user of the workspace.
pub token_of-IsOwnUser :
    {C : Type 0} (cluster : Cluster C) (get_uid : C → Result Text Text) (user : Text)
    (headers : Headers) (token : Text)
    → token_of (auth_config cluster get_uid user) headers ≡ ok token
    → IsOwnUser cluster get_uid token user
token_of-IsOwnUser cluster get_uid user headers token h =
    elim (token_of-IsAuthorized (auth_config cluster get_uid user) headers token h) [
      | inl off ↦ absurd (cc off)
      | inr own ↦ get_current_user_id-IsOwnUser cluster get_uid token user own
    ]
