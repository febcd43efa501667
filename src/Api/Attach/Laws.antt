-- ===== src/Api/Attach/Laws.antt =====
-- Who may attach to an exec.
use che_machine_exec.Common.{
  ℕ, ◌≡◌, refl, ap, ◌∙◌, inl, inr, ◌⊎◌, Text, is_empty, Bool, true, false, some, List, [], ◌∷◌, In,
  ok, Bool-cases, Option-cases, Result-cases,
}
use che_machine_exec.Watcher.Config.{Folding}
use che_machine_exec.Api.Auth.{AuthConfig, token_of}
use che_machine_exec.Api.Auth.Laws.{IsAuthorized, token_of-IsAuthorized}
use che_machine_exec.Api.Origin.{
  OriginRequest, normalize, origin_matches, any_matches, is_origin_allowed,
}
use che_machine_exec.Api.Attach.{
  attaches, Upgrader, AttachRequest, upgrade, do_attach, handle_attach,
}

-- An origin of the list, less the spaces around it and the slashes behind it, is the origin or its host.
abbrev pub IsListed : Folding → Text → Text → List Text → Type 0
IsListed fold host origin origins =
    (allowed : Text) × In allowed origins
    × (is_empty (normalize allowed) ≡ false)
    × ((fold.equal_fold origin (normalize allowed) ≡ true)
        ⊎ (fold.equal_fold host (normalize allowed) ≡ true))

-- The request names no origin, or one whose host is that of the request, or one of the list.
abbrev pub IsFromAllowed : Upgrader → OriginRequest → Type 0
IsFromAllowed u r =
    (is_empty r.origin ≡ true)
    ⊎ ((host : Text) × (u.parse_url r.origin ≡ some host)
        × ((u.folding.equal_fold host r.host ≡ true)
            ⊎ IsListed u.folding host r.origin u.allowed_origins))

origin_matches_lem :
    (fold : Folding) (host origin allowed : Text)
    → origin_matches fold host origin allowed ≡ true
    → (is_empty (normalize allowed) ≡ false)
      × ((fold.equal_fold origin (normalize allowed) ≡ true)
          ⊎ (fold.equal_fold host (normalize allowed) ≡ true))
unfolding origin_matches
origin_matches_lem fold host origin allowed h = elim (Bool-cases (is_empty (normalize allowed))) [
  | inl e ↦ absurd (cc (rw (e, origin_matches) at h))
  | inr e ↦ elim (Bool-cases (fold.equal_fold origin (normalize allowed))) [
    | inl f ↦ (e, inl f)
    | inr f ↦ (e, inr (rw (e, origin_matches, f) at h))
  ]
]

any_matches-IsListed :
    (fold : Folding) (host origin : Text) (origins : List Text)
    → any_matches fold host origin origins ≡ true
    → IsListed fold host origin origins
unfolding any_matches
any_matches-IsListed fold host origin [] h = absurd (cc h)
any_matches-IsListed fold host origin (allowed ∷ origins) h =
    elim (Bool-cases (origin_matches fold host origin allowed)) [
      | inl e ↦
          let (full, same) = origin_matches_lem fold host origin allowed e in
          (allowed, inl refl, full, same)
      | inr e ↦
          let (found, at, full, same) =
            any_matches-IsListed fold host origin origins (rw (e, any_matches) at h) in
          (found, inr at, full, same)
    ]

is_origin_allowed-IsFromAllowed :
    (u : Upgrader) (r : OriginRequest)
    → is_origin_allowed u.folding u.parse_url u.allowed_origins r ≡ true
    → IsFromAllowed u r
unfolding is_origin_allowed
is_origin_allowed-IsFromAllowed u r h = elim (Bool-cases (is_empty r.origin)) [
  | inl e ↦ inl e
  | inr e ↦ elim (Option-cases (u.parse_url r.origin)) [
    | inl f ↦ absurd (cc (rw (e, is_origin_allowed, f) at h))
    | inr (host, f) ↦ elim (Bool-cases (u.folding.equal_fold host r.host)) [
      | inl g ↦ inr (host, f, inl g)
      | inr g ↦ inr (
        host,
        f,
        inr (
            any_matches-IsListed u.folding host r.origin u.allowed_origins
              (rw (e, is_origin_allowed, f, g) at h)),
      )
    ]
  ]
]

do_attach_upgrades :
    (u : Upgrader) (r : AttachRequest) (id : ℕ)
    → do_attach u r ≡ attaches id
    → (u.atoi r.id_param ≡ some id) × (upgrade u r.source r.is_upgrade ≡ true)
unfolding do_attach
do_attach_upgrades u r id h = elim (Option-cases (u.atoi r.id_param)) [
  | inl e ↦ absurd (cc (rw (e, do_attach) at h))
  | inr (n, e) ↦ elim (Bool-cases (upgrade u r.source r.is_upgrade)) [
    | inr f ↦ absurd (cc (rw (e, do_attach, f) at h))
    | inl f ↦
        let same : attaches n ≡ attaches id = rw (e, do_attach, f) at h in
        (e ∙ ap some (cc same), f)
  ]
]

-- A request that is upgraded comes from an allowed origin.
pub upgrade-IsFromAllowed :
    (u : Upgrader) (source : OriginRequest) (is_upgrade : Bool)
    → upgrade u source is_upgrade ≡ true
    → IsFromAllowed u source
unfolding upgrade
upgrade-IsFromAllowed u source is_upgrade h =
    elim (Bool-cases (is_origin_allowed u.folding u.parse_url u.allowed_origins source)) [
      | inl e ↦ is_origin_allowed-IsFromAllowed u source e
      | inr e ↦ absurd (cc (rw (e, upgrade) at h))
    ]

-- A web socket is attached only to the exec that the request names, for a request with an authorized token
-- unless authentication is off, and only when the request names no origin, or one whose host is that of the
-- request, or one that the list of allowed origins names by its text or its host.
pub handle_attach_allowed :
    (c : AuthConfig) (u : Upgrader) (r : AttachRequest) (id : ℕ)
    → handle_attach c u r ≡ attaches id
    → (u.atoi r.id_param ≡ some id)
      × ((token : Text) × (token_of c r.headers ≡ ok token) × IsAuthorized c token)
      × IsFromAllowed u r.source
unfolding handle_attach
handle_attach_allowed c u r id h = elim (Result-cases (token_of c r.headers)) [
  | inl (e, k) ↦ absurd (cc (rw (k, handle_attach) at h))
  | inr (token, k) ↦
      let (named, upgraded) = do_attach_upgrades u r id (rw (k, handle_attach) at h) in
      (
        named,
        (token, k, token_of-IsAuthorized c r.headers token k),
        upgrade-IsFromAllowed u r.source r.is_upgrade upgraded,
      )
]
