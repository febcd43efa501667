-- ===== src/Api/Tests.antt =====
-- Requests to a service with authentication.
use che_machine_exec.Common.{
  ◌≡◌, refl, ◌⊎◌, Text, codes, text_eq, true, none, some, [], ◌∷◌, ok, err, All, arith, length,
  if◌then◌else◌,
}
use che_machine_exec.Exec.Manager.{Execs, Api, empty_exec}
use che_machine_exec.Api.Auth.{AuthConfig, token_of}
use che_machine_exec.Api.Auth.Laws.{IsAuthorized}
use che_machine_exec.Api.Attach.{Upgrader, AttachRequest, handle_attach}
use che_machine_exec.Api.Attach.Laws.{IsFromAllowed, handle_attach_allowed}
use che_machine_exec.Api.Origin.{parse_allowed_origins}
use che_machine_exec.Api.Rest.{Services, Request, handle_init, handle_kube_config}
use che_machine_exec.Api.Rest.Safety.{IsSafe, handlers-IsSafe}
use che_machine_exec.Api.Rpc.{json_rpc_create_exec}
use che_machine_exec.Api.Rpc.Laws.{IsRefused, IsMade, json_rpc_create_exec_cases}

abbrev config : AuthConfig
config = record {
  use_bearer_token = true;
  authenticated_user_id = codes "owner";
  get_current_user_id =
      λ token. if text_eq token (codes "t") then ok (codes "owner") else err (codes "no user");
}

abbrev services : Services
services = record {
  resolve = λ container token. ok (record {
    container_info = record { pod_name = codes "pod"; container_name = container };
    cmd = codes "sh" ∷ [];
  });
  create_kube_config = λ p info. none;
  marshal = λ e. ok (codes "{}");
  quote = λ c. c;
}

abbrev request : Request
request = record {
  headers = λ name. if text_eq name (codes "X-Access-Token") then codes "Bearer t" else [];
  content_type = codes "application/json";
  body =
      some (record { container_name = codes "c"; namespace = codes "ns"; username = codes "dev" });
}

handlers-IsSafe_example :
    All (IsSafe config request) (handle_init config services request).calls
    × All (IsSafe config request) (handle_kube_config config services request).calls
handlers-IsSafe_example = handlers-IsSafe config services request

abbrev api : Text → Api
api token = record {
  k8s_api = ok tt;
  selector = codes "id=1";
  pods =
      ok (
        record { name = codes "pod"; containers = record { name = codes "a"; env = [] } ∷ [] }
        ∷ []);
  shells = record { detect_shell = λ i. none; start_sh = λ i. ok tt; parse_url = λ u. none };
  new_executor = λ i cmd. ok tt;
}

abbrev state : Execs
state = record { exec_map = []; prev_exec_id = 0 }

json_rpc_create_exec_cases_example :
    let o = json_rpc_create_exec true api (some (codes "t")) empty_exec state in
    (length o.replies ≡ 1) × (IsRefused state o ⊎ IsMade true (some (codes "t")) empty_exec state o)
json_rpc_create_exec_cases_example =
    json_rpc_create_exec_cases true api (some (codes "t")) empty_exec state tt (omega arith)

parse_allowed_origins_example :
    parse_allowed_origins (codes " https://a.b ,, c d") ≡ codes "https://a.b" ∷ codes "c d" ∷ []
unfolding parse_allowed_origins
parse_allowed_origins_example = refl

abbrev upgrader : Upgrader
upgrader = record {
  folding = record { to_lower = λ s. s; equal_fold = λ a b. text_eq a b };
  parse_url = λ url.
      if text_eq url (codes "https://ide.example.com")
      then some (codes "ide.example.com")
      else none;
  allowed_origins = codes " ide.example.com/ " ∷ [];
  atoi = λ s. if text_eq s (codes "7") then some 7 else none;
}

abbrev attach_request : AttachRequest
attach_request = record {
  headers = request.headers;
  source = record { origin = codes "https://ide.example.com"; host = codes "10.0.0.1:4444" };
  id_param = codes "7";
  is_upgrade = true;
}

handle_attach_allowed_example :
    (upgrader.atoi attach_request.id_param ≡ some 7)
    × ((token : Text) × (token_of config attach_request.headers ≡ ok token)
        × IsAuthorized config token)
    × IsFromAllowed upgrader attach_request.source
unfolding handle_attach text_eq
handle_attach_allowed_example = handle_attach_allowed config upgrader attach_request 7 refl
