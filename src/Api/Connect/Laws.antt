-- ===== src/Api/Connect/Laws.antt =====
-- Whose token a connection carries, and which clients are told of the end of an exec.
use che_machine_exec.Common.{
  ℕ, ◌≡◌, ◌≢◌, refl, sym, ap, ◌∙◌, inl, inr, Text, is_empty, Bool, true, false, Option, List, [],
  ◌∷◌, ◌++◌, ok, if◌then◌else◌, Bool-cases, Result-cases,
}
use che_machine_exec.Api.Auth.{AuthConfig, token_of}
use che_machine_exec.Api.Auth.Laws.{IsAuthorized, token_of-IsAuthorized}
use che_machine_exec.Api.Attach.{Upgrader, upgrade}
use che_machine_exec.Api.Attach.Laws.{IsFromAllowed, upgrade-IsFromAllowed}
use che_machine_exec.Api.Rpc.{set_token}
use che_machine_exec.Terminal.Pty.{ExecEvent, exec_exit, exec_error}
use che_machine_exec.Api.Connect.{
  Bus, on_exec_exit, on_exec_error, event_type, Notification, accept, Connected, refused,
  not_upgraded, connects, ConnectRequest, attribute_of, do_connect, handle_connect, subscribe,
}

do_connect-connects :
    (u : Upgrader) (r : ConnectRequest) (token : Text) (attribute : Option Text)
    → do_connect u r token ≡ connects attribute
    → (upgrade u r.source r.is_upgrade ≡ true) × (attribute_of token ≡ attribute)
unfolding do_connect
do_connect-connects u r token attribute h = elim (Bool-cases (upgrade u r.source r.is_upgrade)) [
  | inr e ↦ absurd (cc (rw (e, do_connect) at h))
  | inl e ↦
      let same : connects (attribute_of token) ≡ connects attribute = rw (e, do_connect) at h in
      (e, cc same)
]

-- The token that the attribute gives back is the one that was put there.
set_token-attribute :
    (auth : Bool) (token used : Text)
    → (auth ≡ false → token ≡ [])
    → set_token auth (attribute_of token) ≡ ok used
    → token ≡ used
unfolding set_token attribute_of
set_token-attribute false token used off h = let same : [] ≡ used = cc h in off refl ∙ same
set_token-attribute true token used off h = elim (Bool-cases (is_empty token)) [
  | inl e ↦ absurd (cc (rw (e, set_token, attribute_of) at h))
  | inr e ↦ let same : ok token ≡ ok used = rw (e, set_token, attribute_of, e) at h in cc same
]

token_of-off :
    (c : AuthConfig) (headers : Text → Text) (token : Text)
    → token_of c headers ≡ ok token
    → c.use_bearer_token ≡ false
    → token ≡ []
unfolding token_of
token_of-off c headers token h off =
    let same : ok [] ≡ ok token = rw (off, token_of) at h in sym (cc same)

-- A connection for JSON-RPC is made only for an authorized request from an allowed origin; and when a
-- handler then takes a token from the connection, it is the one that the request was authorized with.
pub handle_connect_token :
    (c : AuthConfig) (u : Upgrader) (r : ConnectRequest) (attribute : Option Text)
    → handle_connect c u r ≡ connects attribute
    → IsFromAllowed u r.source
      × ((token : Text) × (token_of c r.headers ≡ ok token)
          × IsAuthorized c token
          × ((used : Text) → set_token c.use_bearer_token attribute ≡ ok used → token ≡ used))
unfolding handle_connect
handle_connect_token c u r attribute h = elim (Result-cases (token_of c r.headers)) [
  | inl (e, k) ↦ absurd (cc (rw (k, handle_connect) at h))
  | inr (token, k) ↦
      let (upgraded, same) =
        do_connect-connects u r token attribute (rw (k, handle_connect) at h) in
      (
        upgrade-IsFromAllowed u r.source r.is_upgrade upgraded,
        (
          token,
          k,
          token_of-IsAuthorized c r.headers token k,
          λ used taken.
              set_token-attribute c.use_bearer_token token used (token_of-off c r.headers token k)
                (ap (set_token c.use_bearer_token) same ∙ taken),
        ),
      )
]

-- The tunnels of the requests that were connected, in order.
abbrev pub tunnels_of : List (Connected × ℕ) → List ℕ
tunnels_of [] = []
tunnels_of ((refused e, tunnel) ∷ outcomes) = tunnels_of outcomes
tunnels_of ((not_upgraded, tunnel) ∷ outcomes) = tunnels_of outcomes
tunnels_of ((connects attribute, tunnel) ∷ outcomes) = tunnel ∷ tunnels_of outcomes

-- The notifications for an event, by the tunnels whose consumers are called.
abbrev pub notified : (ℕ → Bool) → ExecEvent → List ℕ → List Notification
notified is_closed event [] = []
notified is_closed event (tunnel ∷ tunnels) =
    accept is_closed tunnel event ++ notified is_closed event tunnels

-- One notification for each tunnel that is open.
abbrev pub for_open : (ℕ → Bool) → ExecEvent → List ℕ → List Notification
for_open is_closed event [] = []
for_open is_closed event (tunnel ∷ tunnels) =
    if is_closed tunnel
    then for_open is_closed event tunnels
    else record { tunnel = tunnel; method = event_type event; params = event }
      ∷ for_open is_closed event tunnels

notified_lem :
    (is_closed : ℕ → Bool) (event : ExecEvent) (tunnels : List ℕ)
    → notified is_closed event tunnels ≡ for_open is_closed event tunnels
unfolding accept
notified_lem is_closed event [] = refl
notified_lem is_closed event (tunnel ∷ tunnels) = elim (Bool-cases (is_closed tunnel)) [
  | inl e ↦ rw (e, accept) (notified_lem is_closed event tunnels)
  | inr e ↦ rw (e, accept, notified_lem is_closed event tunnels) refl
]

module _ {B : Type 0} (bus : Bus B) where
  abbrev pub subscribed : List (Connected × ℕ) → B → B
  subscribed [] b = b
  subscribed ((outcome, tunnel) ∷ outcomes) b = subscribed outcomes (subscribe bus outcome tunnel b)

  types_differ : on_exec_error ≢ on_exec_exit
  types_differ h = absurd (cc h)

  consumers_of_new :
      (event : ExecEvent) (attribute : Option Text) (tunnel : ℕ) (b : B)
      → bus.consumers (subscribe bus (connects attribute) tunnel b) (event_type event)
        ≡ bus.consumers b (event_type event) ++ tunnel ∷ []
  unfolding subscribe event_type
  consumers_of_new (exec_exit id) attribute tunnel b =
      bus.consumers_of_second b tunnel on_exec_error on_exec_exit types_differ
  consumers_of_new (exec_error id stack) attribute tunnel b =
      bus.consumers_of_first b tunnel on_exec_error on_exec_exit types_differ

  append_assoc : (xs ys zs : List ℕ) → (xs ++ ys) ++ zs ≡ xs ++ (ys ++ zs)
  append_assoc [] ys zs = refl
  append_assoc (x ∷ xs) ys zs = ap (λ l. x ∷ l) (append_assoc xs ys zs)

  append_nothing : (xs : List ℕ) → xs ++ [] ≡ xs
  append_nothing [] = refl
  append_nothing (x ∷ xs) = ap (λ l. x ∷ l) (append_nothing xs)

  consumers_of_subscribed :
      (event : ExecEvent) (outcomes : List (Connected × ℕ)) (b : B)
      → bus.consumers (subscribed outcomes b) (event_type event)
        ≡ bus.consumers b (event_type event) ++ tunnels_of outcomes
  unfolding subscribe
  consumers_of_subscribed event [] b = sym (append_nothing _)
  consumers_of_subscribed event ((refused e, tunnel) ∷ outcomes) b =
      consumers_of_subscribed event outcomes b
  consumers_of_subscribed event ((not_upgraded, tunnel) ∷ outcomes) b =
      consumers_of_subscribed event outcomes b
  consumers_of_subscribed event ((connects attribute, tunnel) ∷ outcomes) b =
      consumers_of_subscribed event outcomes (subscribe bus (connects attribute) tunnel b)
      ∙ ap (λ l. l ++ tunnels_of outcomes) (consumers_of_new event attribute tunnel b)
      ∙ append_assoc (bus.consumers b (event_type event)) (tunnel ∷ []) (tunnels_of outcomes)

  -- After any requests to the end point, an event about an exec is sent once to each tunnel that was connected
  -- and is not closed, in the order of the connections, under the method of its type, and to no other.
  pub event_for_open :
      (is_closed : ℕ → Bool) (event : ExecEvent) (outcomes : List (Connected × ℕ))
      → notified is_closed event (bus.consumers (subscribed outcomes bus.empty) (event_type event))
        ≡ for_open is_closed event (tunnels_of outcomes)
  event_for_open is_closed event outcomes =
      ap (notified is_closed event) (
        consumers_of_subscribed event outcomes bus.empty
        ∙ ap (λ l. l ++ tunnels_of outcomes) (bus.consumers_of_empty (event_type event)))
      ∙ notified_lem is_closed event (tunnels_of outcomes)
