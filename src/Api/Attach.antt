-- ===== src/Api/Attach.antt =====
-- api/websocket/attach.go: the end point that attaches a web socket to an exec. `strconv.Atoi` and whether
-- the request is otherwise a valid upgrade are parameters.
pub mod Laws
use che_machine_exec.Common.{
  ℕ, Text, Bool, true, false, not, Option, none, some, List, Result, ok, err, if◌then◌else◌,
}
use che_machine_exec.Watcher.Config.{Folding}
use che_machine_exec.Api.Auth.{HttpError, AuthConfig, Headers, token_of}
use che_machine_exec.Api.Origin.{OriginRequest, is_origin_allowed}

-- What a request leads to.
pub data Attached : Type 0 where
  refused : HttpError → Attached
  bad_id : Attached
  not_upgraded : Attached
  attaches : ℕ → Attached

pub record Upgrader : Type 0 where
  pub folding : Folding
  pub parse_url : Text → Option Text
  pub allowed_origins : List Text
  pub atoi : Text → Option ℕ

pub record AttachRequest : Type 0 where
  pub headers : Headers
  pub source : OriginRequest
  pub id_param : Text
  pub is_upgrade : Bool

unfoldable pub upgrade : Upgrader → OriginRequest → Bool → Bool
unfolding is_origin_allowed
upgrade u source is_upgrade =
    if is_origin_allowed u.folding u.parse_url u.allowed_origins source then is_upgrade else false

unfoldable pub do_attach : Upgrader → AttachRequest → Attached
unfolding upgrade
do_attach u r = elim (u.atoi r.id_param) [
  | none ↦ bad_id
  | some id ↦ if not (upgrade u r.source r.is_upgrade) then not_upgraded else attaches id
]

unfoldable pub handle_attach : AuthConfig → Upgrader → AttachRequest → Attached
unfolding token_of do_attach
handle_attach c u r = elim (token_of c r.headers) [ err e ↦ refused e | ok token ↦ do_attach u r ]
