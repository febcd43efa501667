-- ===== src/Api/Rest/Safety.antt =====
-- What the handlers let through to the exec manager.
use che_machine_exec.Common.{
  ◌≡◌, refl, ◌∙◌, subst, ap, inl, inr, Text, codes, is_empty, false, none, [], ◌∷◌, ok, All,
  Bool-cases, Option-cases, Result-cases,
}
use che_machine_exec.Validation.{validate_no_shell_metacharacters}
use che_machine_exec.Validation.Laws.{is_metacharacter, validate_iff}
use che_machine_exec.Api.Auth.{AuthConfig, token_of}
use che_machine_exec.Api.Auth.Laws.{IsAuthorized, token_of-IsAuthorized}
use che_machine_exec.Api.Rest.{
  Response, Request, InitConfigParams, ResolvedExec, Services, Call, resolves, creates_kube_config,
  is_cross_site, check_names, prepare, or_developer, with_kube_config, with_exec, send_exec,
  handle_init, handle_kube_config,
}

-- No character of the text is a shell metacharacter.
abbrev pub IsFree : Text → Type 0
IsFree s = All (λ c. is_metacharacter c ≡ false) s

-- The token is the one of the request, and it is authorized.
abbrev pub HasToken : AuthConfig → Request → Text → Type 0
HasToken c r token = (token_of c r.headers ≡ ok token) × IsAuthorized c token

-- A call with the token of an authorized request, which no cross-site form can send. The names in it
-- hold no shell metacharacter.
abbrev pub IsSafe : AuthConfig → Request → Call → Type 0
IsSafe c r (resolves container token) = HasToken c r token × (is_cross_site r.content_type ≡ false)
IsSafe c r (creates_kube_config p info) =
    HasToken c r p.bearer_token
    × (is_cross_site r.content_type ≡ false)
    × IsFree p.username
    × IsFree p.namespace

check_names-IsFree :
    (s : Services) (p : InitConfigParams)
    → check_names s p ≡ none
    → IsFree p.username × IsFree p.namespace
unfolding check_names
check_names-IsFree s p h =
    elim (Option-cases (validate_no_shell_metacharacters p.username (codes "username"))) [
      | inr (f, e) ↦ absurd (cc (rw (e, check_names) at h))
      | inl e ↦
          elim (Option-cases (validate_no_shell_metacharacters p.namespace (codes "namespace"))) [
            | inr (f, d) ↦ absurd (cc (rw (e, check_names, d) at h))
            | inl d ↦ (
              (validate_iff p.username (codes "username")).0 e,
              (validate_iff p.namespace (codes "namespace")).0 d,
            )
          ]
    ]

prepare-safe :
    (c : AuthConfig) (s : Services) (r : Request) (token : Text) (p : InitConfigParams)
    → prepare c s r ≡ ok (token, p)
    → HasToken c r token
      × (is_cross_site r.content_type ≡ false)
      × IsFree p.username
      × IsFree p.namespace
unfolding prepare
prepare-safe c s r token p h = elim (Result-cases (token_of c r.headers)) [
  | inl (e, k) ↦ absurd (cc (rw (k, prepare) at h))
  | inr (t, k) ↦ elim (Bool-cases (is_cross_site r.content_type)) [
    | inl x ↦ absurd (cc (rw (k, prepare, x) at h))
    | inr x ↦ elim (Option-cases r.body) [
      | inl b ↦ absurd (cc (rw (k, prepare, x, b) at h))
      | inr (q, b) ↦ elim (Option-cases (check_names s q)) [
        | inr (m, n) ↦ absurd (cc (rw (k, prepare, x, b, n) at h))
        | inl n ↦
            let same : ok (t, q) ≡ ok (token, p) = rw (k, prepare, x, b, n) at h in
            let free = check_names-IsFree s q n in
            let passed : token_of c r.headers ≡ ok token = k ∙ ap ok (cc same) in
            let body : q ≡ p = cc same in
            (
              (passed, token_of-IsAuthorized c r.headers token passed),
              x,
              subst (λ (b' : InitConfigParams). IsFree b'.username) body free.0,
              subst (λ (b' : InitConfigParams). IsFree b'.namespace) body free.1,
            )
      ]
    ]
  ]
]

or_developer-IsFree : (username : Text) → IsFree username → IsFree (or_developer username)
unfolding is_empty
or_developer-IsFree [] h =
    (refl, (refl, (refl, (refl, (refl, (refl, (refl, (refl, (refl, tt)))))))))
or_developer-IsFree (c ∷ username) h = h

with_exec-IsSafe :
    (c : AuthConfig) (s : Services) (r : Request) (token : Text) (p : InitConfigParams)
    (finish : ResolvedExec → Response → Response)
    → HasToken c r token
    → is_cross_site r.content_type ≡ false
    → IsFree p.username
    → IsFree p.namespace
    → All (IsSafe c r) (with_exec s token p finish).calls
unfolding with_exec with_kube_config
with_exec-IsSafe c s r token p finish t x u n =
    elim (Result-cases (s.resolve p.container_name token)) [
      | inl (e, k) ↦ rw (k, All, with_exec) ((t, x), tt)
      | inr (e, k) ↦
          rw (k, All, with_exec) ((t, x), ((t, x, or_developer-IsFree p.username u, n), tt))
    ]

handle_init-IsSafe :
    (c : AuthConfig) (s : Services) (r : Request) → All (IsSafe c r) (handle_init c s r).calls
unfolding handle_init
handle_init-IsSafe c s r = elim (Result-cases (prepare c s r)) [
  | inl (e, k) ↦ rw (k, All, handle_init) tt
  | inr ((token, p), k) ↦
      let (t, x, u, n) = prepare-safe c s r token p k in
      rw (k, All, handle_init) (with_exec-IsSafe c s r token p (send_exec s) t x u n)
]

handle_kube_config-IsSafe :
    (c : AuthConfig) (s : Services) (r : Request)
    → All (IsSafe c r) (handle_kube_config c s r).calls
unfolding handle_kube_config
handle_kube_config-IsSafe c s r = elim (Result-cases (prepare c s r)) [
  | inl (e, k) ↦ rw (k, All, handle_kube_config) tt
  | inr ((token, p), k) ↦
      let (t, x, u, n) = prepare-safe c s r token p k in
      elim (Bool-cases (is_empty p.container_name)) [
        | inl e ↦ rw (k, All, handle_kube_config, e) tt
        | inr e ↦
            rw (k, All, handle_kube_config, e)
              (with_exec-IsSafe c s r token p (λ e response. response) t x u n)
      ]
]

-- Both handlers call the exec manager only with the token of the request, and, when authentication is
-- on, only if the cluster says that it belongs to the user of the workspace; only for a content type that no
-- cross-site form can send; and for a kubeconfig only with a user name and a namespace without shell
-- metacharacters.
pub handlers-IsSafe :
    (c : AuthConfig) (s : Services) (r : Request)
    → All (IsSafe c r) (handle_init c s r).calls × All (IsSafe c r) (handle_kube_config c s r).calls
handlers-IsSafe c s r = (handle_init-IsSafe c s r, handle_kube_config-IsSafe c s r)
