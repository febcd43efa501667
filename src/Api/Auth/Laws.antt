-- ===== src/Api/Auth/Laws.antt =====
-- Who is let in.
use che_machine_exec.Common.{
  ◌≡◌, subst, ap, ◌∙◌, ◌⊎◌, inl, inr, Text, text_eq, text_eq_iff, false, ok, >>=-eq-ok, Bool-cases,
  Result-cases,
}
use che_machine_exec.Api.Auth.{
  AuthConfig, Headers, extract_token, authorize, authenticate, token_of,
}

-- Authentication is off, or the cluster says that the token belongs to the user of the workspace.
abbrev pub IsAuthorized : AuthConfig → Text → Type 0
IsAuthorized c token =
    (c.use_bearer_token ≡ false) ⊎ (c.get_current_user_id token ≡ ok c.authenticated_user_id)

authorize_owner :
    (c : AuthConfig) (token passed : Text)
    → authorize c token ≡ ok passed
    → (token ≡ passed) × (c.get_current_user_id token ≡ ok c.authenticated_user_id)
unfolding authorize
authorize_owner c token passed h = elim (Result-cases (c.get_current_user_id token)) [
  | inl (e, k) ↦ absurd (cc (rw (k, authorize) at h))
  | inr (user, k) ↦ elim (Bool-cases (text_eq user c.authenticated_user_id)) [
    | inr d ↦ absurd (cc (rw (k, authorize, d) at h))
    | inl d ↦
        let same : ok token ≡ ok passed = rw (k, authorize, d) at h in
        (cc same, k ∙ ap ok ((text_eq_iff user c.authenticated_user_id).0 d))
  ]
]

-- A token that the handlers go on with is authorized.
pub token_of-IsAuthorized :
    (c : AuthConfig) (headers : Headers) (token : Text)
    → token_of c headers ≡ ok token
    → IsAuthorized c token
unfolding token_of authenticate
token_of-IsAuthorized c headers token h = elim (Bool-cases c.use_bearer_token) [
  | inr e ↦ inl e
  | inl e ↦
      let (found, x, y) = >>=-eq-ok (extract_token headers) (authorize c) (rw (e, token_of) at h) in
      let (same, owner) = authorize_owner c found token y in
      inr (subst (λ t. c.get_current_user_id t ≡ ok c.authenticated_user_id) same owner)
]
