-- ===== src/Api/Connect.antt =====
-- api/websocket/connect.go, api/events/event_bus.go and the routes of api/jsonrpc/jsonrpc-api.go: the end
-- point for JSON-RPC, and the events that its clients get. The bus of events and the tunnels are a
-- library's: a tunnel is a number, and the bus is an interface.
pub mod Laws
mod Tests
use che_machine_exec.Common.{
  ℕ, ◌≡◌, ◌≢◌, Text, codes, text_eq, is_empty, Bool, true, false, not, Option, none, some, List, [],
  ◌∷◌, ◌++◌, ok, err, if◌then◌else◌,
}
use che_machine_exec.Api.Auth.{HttpError, AuthConfig, Headers, token_of}
use che_machine_exec.Api.Origin.{OriginRequest}
use che_machine_exec.Api.Attach.{Upgrader, upgrade}
use che_machine_exec.Terminal.Pty.{ExecEvent, exec_exit, exec_error}

-- `event.Bus`: subscribing a consumer to events of several types, and the consumers that are called for an
-- event of a type, in order. The laws are what its documentation says.
pub record Bus (B : Type 0) : Type 0 where
  pub empty : B
  pub sub_any : B → ℕ → List Text → B
  pub consumers : B → Text → List ℕ
  pub consumers_of_empty : (type : Text) → consumers empty type ≡ []
  pub consumers_of_first :
      (bus : B) (consumer : ℕ) (one other : Text)
      → one ≢ other
      → consumers (sub_any bus consumer (one ∷ other ∷ [])) one ≡ consumers bus one ++ consumer ∷ []
  pub consumers_of_second :
      (bus : B) (consumer : ℕ) (one other : Text)
      → one ≢ other
      → consumers (sub_any bus consumer (one ∷ other ∷ [])) other
        ≡ consumers bus other ++ consumer ∷ []

abbrev pub on_exec_exit : Text
on_exec_exit = codes "onExecExit"

abbrev pub on_exec_error : Text
on_exec_error = codes "onExecError"

-- `Type` of an event.
unfoldable pub event_type : ExecEvent → Text
event_type (exec_exit id) = on_exec_exit
event_type (exec_error id stack) = on_exec_error

-- A notification for the client of a tunnel: its method and its parameters.
pub record Notification : Type 0 where
  pub tunnel : ℕ
  pub method : Text
  pub params : ExecEvent

-- `Accept` of the consumer of a tunnel.
unfoldable pub accept : (ℕ → Bool) → ℕ → ExecEvent → List Notification
unfolding event_type
accept is_closed tunnel event =
    if not (is_closed tunnel)
    then record { tunnel = tunnel; method = event_type event; params = event } ∷ []
    else []

-- What a request leads to: a tunnel, with its attribute for the token.
pub data Connected : Type 0 where
  refused : HttpError → Connected
  not_upgraded : Connected
  connects : Option Text → Connected

pub record ConnectRequest : Type 0 where
  pub headers : Headers
  pub source : OriginRequest
  pub is_upgrade : Bool

unfoldable pub attribute_of : Text → Option Text
unfolding is_empty
attribute_of token = if is_empty token then none else some token

unfoldable pub do_connect : Upgrader → ConnectRequest → Text → Connected
unfolding upgrade attribute_of
do_connect u r token =
    if not (upgrade u r.source r.is_upgrade) then not_upgraded else connects (attribute_of token)

unfoldable pub handle_connect : AuthConfig → Upgrader → ConnectRequest → Connected
unfolding token_of do_connect
handle_connect c u r = elim (token_of c r.headers) [
  | err e ↦ refused e
  | ok token ↦ do_connect u r token
]

-- The bus behind the end point: a new tunnel is subscribed.
unfoldable pub subscribe : {B : Type 0} → Bus B → Connected → ℕ → B → B
subscribe bus (refused e) tunnel b = b
subscribe bus not_upgraded tunnel b = b
subscribe bus (connects attribute) tunnel b =
    bus.sub_any b tunnel (on_exec_error ∷ on_exec_exit ∷ [])

-- `RPCRoutes`: the methods and their handlers.
pub data RpcMethod : Type 0 where
  create_method : RpcMethod
  check_method : RpcMethod
  resize_method : RpcMethod
  list_containers_method : RpcMethod

unfoldable pub rpc_routes : List (Text × RpcMethod)
rpc_routes =
    (codes "create", create_method)
    ∷ (codes "check", check_method)
    ∷ (codes "resize", resize_method)
    ∷ (codes "listContainers", list_containers_method)
    ∷ []
