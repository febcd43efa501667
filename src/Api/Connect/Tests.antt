-- ===== src/Api/Connect/Tests.antt =====
-- A bus that is a function, and a connection from an allowed origin.
use che_machine_exec.Common.{
  ℕ, ◌≡◌, ◌≢◌, refl, sym, ap, ◌∙◌, Text, codes, text_eq, text_eq_iff, true, none, some, List, [],
  ◌∷◌, ◌++◌, ok, err, if◌then◌else◌, Bool-cases, inl, inr, ◌==◌,
}
use che_machine_exec.Api.Auth.{AuthConfig, token_of}
use che_machine_exec.Api.Auth.Laws.{IsAuthorized}
use che_machine_exec.Api.Attach.{Upgrader}
use che_machine_exec.Api.Attach.Laws.{IsFromAllowed}
use che_machine_exec.Api.Rpc.{set_token}
use che_machine_exec.Terminal.Pty.{exec_exit}
use che_machine_exec.Api.Connect.{
  Bus, event_type, Connected, not_upgraded, connects, ConnectRequest, handle_connect,
}
use che_machine_exec.Api.Connect.Laws.{
  tunnels_of, notified, for_open, subscribed, handle_connect_token, event_for_open,
}

-- For each type, the consumers.
abbrev Table : Type 0
Table = Text → List ℕ

abbrev add : Table → ℕ → Text → Table
add bus consumer type t = if text_eq type t then bus t ++ consumer ∷ [] else bus t

abbrev add_all : Table → ℕ → List Text → Table
add_all bus consumer [] = bus
add_all bus consumer (type ∷ types) = add_all (add bus consumer type) consumer types

add_same : (bus : Table) (consumer : ℕ) (t : Text) → add bus consumer t t ≡ bus t ++ consumer ∷ []
add_same bus consumer t = rw ((text_eq_iff t t).1 refl) refl

add_other :
    (bus : Table) (consumer : ℕ) (type t : Text) → type ≢ t → add bus consumer type t ≡ bus t
add_other bus consumer type t h = elim (Bool-cases (text_eq type t)) [
  | inl e ↦ absurd (h ((text_eq_iff type t).0 e))
  | inr e ↦ rw e refl
]

abbrev table_bus : Bus Table
table_bus = record {
  empty = λ t. [];
  sub_any = add_all;
  consumers = λ bus t. bus t;
  consumers_of_empty = λ t. refl;
  consumers_of_first = λ bus c one other h.
      add_other (add bus c one) c other one (λ e. h (sym e)) ∙ add_same bus c one;
  consumers_of_second = λ bus c one other h.
      add_same (add bus c one) c other ∙ ap (λ l. l ++ c ∷ []) (add_other bus c one other h);
}

abbrev config : AuthConfig
config = record {
  use_bearer_token = true;
  authenticated_user_id = codes "owner";
  get_current_user_id =
      λ token. if text_eq token (codes "t") then ok (codes "owner") else err (codes "no user");
}

abbrev upgrader : Upgrader
upgrader = record {
  folding = record { to_lower = λ s. s; equal_fold = λ a b. text_eq a b };
  parse_url = λ url.
      if text_eq url (codes "https://ide.example.com")
      then some (codes "ide.example.com")
      else none;
  allowed_origins = codes "ide.example.com" ∷ [];
  atoi = λ s. none;
}

abbrev request : ConnectRequest
request = record {
  headers = λ name. if text_eq name (codes "X-Access-Token") then codes "Bearer t" else [];
  source = record { origin = codes "https://ide.example.com"; host = codes "10.0.0.1:4444" };
  is_upgrade = true;
}

handle_connect_token_example :
    IsFromAllowed upgrader request.source
    × ((token : Text) × (token_of config request.headers ≡ ok token)
        × IsAuthorized config token
        × ((used : Text) → set_token true (some (codes "t")) ≡ ok used → token ≡ used))
unfolding handle_connect text_eq
handle_connect_token_example = handle_connect_token config upgrader request (some (codes "t")) refl

abbrev outcomes : List (Connected × ℕ)
outcomes =
    (connects (some (codes "t")), 1)
    ∷ (not_upgraded, 2)
    ∷ (connects none, 3)
    ∷ (connects none, 4)
    ∷ []

event_for_open_example :
    notified
      (λ t. t == 3)
      (exec_exit 7)
      (table_bus.consumers
        (subscribed table_bus outcomes table_bus.empty)
        (event_type (exec_exit 7)))
    ≡ for_open (λ t. t == 3) (exec_exit 7) (tunnels_of outcomes)
event_for_open_example = event_for_open table_bus (λ t. t == 3) (exec_exit 7) outcomes
