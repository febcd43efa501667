-- ===== src/Api/Rest.antt =====
-- api/rest: the handlers that resolve an exec and write a kubeconfig, with common/rest. The exec
-- manager and the JSON encoder are an interface; the calls of the manager are logged.
pub mod Safety
use che_machine_exec.Common.{
  ℕ, Text, codes, is_empty, slices_contains, Bool, true, false, not, Option, none, some, List, [],
  ◌∷◌, ◌++◌, Result, ok, err, if◌then◌else◌,
}
use che_machine_exec.Validation.{Forbidden, forbidden, validate_no_shell_metacharacters}
use che_machine_exec.Filter.{ContainerInfo}
use che_machine_exec.Api.Auth.{HttpError, AuthConfig, Headers, token_of}

-- gin's writer: a status that is set once something was written has no effect.
pub record Response : Type 0 where
  pub status : ℕ
  pub is_written : Bool
  pub body : Text

abbrev pub no_response : Response
no_response = record { status = 200; is_written = false; body = [] }

abbrev pub write_header : ℕ → Response → Response
write_header code r = if r.is_written then r else record r { status = code }

abbrev pub write_body : Text → Response → Response
write_body text r = record r { is_written = true; body = r.body ++ text }

-- `WriteResponse`.
unfoldable pub write_response : ℕ → Text → Response → Response
write_response code message r = write_body message (write_header code r)

-- `WriteErrorResponse`; authentication only returns errors of the type `HttpError`.
unfoldable pub write_error_response : HttpError → Response → Response
unfolding write_response
write_error_response e r = write_response e.code e.err_msg r

-- `corsSafelistedContentTypes`.
abbrev pub cors_safelisted_content_types : List Text
cors_safelisted_content_types =
    codes "text/plain"
    ∷ codes "application/x-www-form-urlencoded"
    ∷ codes "multipart/form-data"
    ∷ []

abbrev pub is_cross_site : Text → Bool
is_cross_site content_type = slices_contains cors_safelisted_content_types content_type

-- `InitConfigParams`, and `KubeConfigParams` with the token.
pub record InitConfigParams : Type 0 where
  pub container_name : Text
  pub namespace : Text
  pub username : Text

pub record KubeConfigParams : Type 0 where
  pub namespace : Text
  pub username : Text
  pub bearer_token : Text

-- The body is `none` when `BindJSON` fails, which has then answered 400.
pub record Request : Type 0 where
  pub headers : Headers
  pub content_type : Text
  pub body : Option InitConfigParams

-- `model.ResolvedExec`.
pub record ResolvedExec : Type 0 where
  pub container_info : ContainerInfo
  pub cmd : List Text

-- The manager, its errors as texts; the JSON encoder; and `%q`.
pub record Services : Type 0 where
  pub resolve : Text → Text → Result Text ResolvedExec
  pub create_kube_config : KubeConfigParams → ContainerInfo → Option Text
  pub marshal : ResolvedExec → Result Text Text
  pub quote : Text → Text

pub data Call : Type 0 where
  resolves : Text → Text → Call
  creates_kube_config : KubeConfigParams → ContainerInfo → Call

pub record Outcome : Type 0 where
  pub response : Response
  pub calls : List Call

abbrev pub error_text : Services → Forbidden → Text
error_text s (forbidden field_name char) =
    field_name ++ (codes " contains forbidden character " ++ s.quote char)

-- The checks on the two names.
unfoldable pub check_names : Services → InitConfigParams → Option Text
unfolding validate_no_shell_metacharacters
check_names s p = elim (validate_no_shell_metacharacters p.username (codes "username")) [
  | some f ↦ some (error_text s f)
  | none ↦ elim (validate_no_shell_metacharacters p.namespace (codes "namespace")) [
    | some f ↦ some (error_text s f)
    | none ↦ none
  ]
]

-- What both handlers do first: the response that ends the handler, or the token and the body.
unfoldable pub prepare : AuthConfig → Services → Request → Result Response (Text × InitConfigParams)
unfolding token_of write_error_response write_response check_names slices_contains
prepare c s r = elim (token_of c r.headers) [
  | err e ↦ err (write_error_response e no_response)
  | ok token ↦
      if is_cross_site r.content_type
      then err (
          write_response 415 (codes "Unsupported Content-Type: expected application/json")
            no_response)
      else elim r.body [
        | none ↦ err (
            write_response 500 (codes "Failed to convert body args into internal structure")
              (record { status = 400; is_written = true; body = [] }))
        | some p ↦ elim (check_names s p) [
          | some message ↦ err (write_response 400 message no_response)
          | none ↦ ok (token, p)
        ]
      ]
]

abbrev pub or_developer : Text → Text
or_developer username = if is_empty username then codes "Developer" else username

abbrev pub kube_params : Text → InitConfigParams → KubeConfigParams
kube_params token p = record {
  namespace = p.namespace;
  username = or_developer p.username;
  bearer_token = token;
}

-- `handleContainerResolve` and the test behind it: a failure is written twice.
unfoldable pub unresolved : Text → Response
unfolding write_response
unresolved e =
    write_response 500 (codes "Could not retrieve exec request")
      (write_response 500 (codes "Unable to resolve exec. Cause: " ++ e) no_response)

-- `HandleKubeConfigCreation` and what follows it.
unfoldable pub with_kube_config :
    Services → Text → InitConfigParams → ResolvedExec → (Response → Response) → Outcome
unfolding write_response
with_kube_config s token p e finish =
    let made = kube_params token p in
    record {
      response = elim (s.create_kube_config made e.container_info) [
        | some message ↦ write_response 500 message no_response
        | none ↦ finish no_response
      ];
      calls = resolves p.container_name token ∷ creates_kube_config made e.container_info ∷ [];
    }

unfoldable pub with_exec :
    Services → Text → InitConfigParams → (ResolvedExec → Response → Response) → Outcome
unfolding unresolved with_kube_config
with_exec s token p finish = elim (s.resolve p.container_name token) [
  | err e ↦ record { response = unresolved e; calls = resolves p.container_name token ∷ [] }
  | ok e ↦ with_kube_config s token p e (finish e)
]

-- The end of `HandleInit`.
unfoldable pub send_exec : Services → ResolvedExec → Response → Response
unfolding write_response
send_exec s e r = elim (s.marshal e) [
  | err message ↦ write_response 500 (codes "Failed to marshal resolved exec. Cause: " ++ message) r
  | ok text ↦ write_body text r
]

unfoldable pub handle_init : AuthConfig → Services → Request → Outcome
unfolding prepare with_exec send_exec
handle_init c s r = elim (prepare c s r) [
  | err response ↦ record { response = response; calls = [] }
  | ok (token, p) ↦ with_exec s token p (send_exec s)
]

unfoldable pub handle_kube_config : AuthConfig → Services → Request → Outcome
unfolding prepare with_exec write_response is_empty
handle_kube_config c s r = elim (prepare c s r) [
  | err response ↦ record { response = response; calls = [] }
  | ok (token, p) ↦
      if is_empty p.container_name
      then record {
        response = write_response 400 (codes "Container name is required") no_response;
        calls = [];
      }
      else with_exec s token p (λ e response. response)
]

-- `HandleActivityTick`: the response, and whether the manager ticks.
unfoldable pub handle_activity_tick : AuthConfig → Headers → Response × Bool
unfolding token_of write_error_response
handle_activity_tick c headers = elim (token_of c headers) [
  | err e ↦ (write_error_response e no_response, false)
  | ok token ↦ (write_header 204 no_response, true)
]
