-- ===== src/Idle/Stop.antt =====
-- timeout/shutdown.go: the patch that stops the workspace. What encodes it and what sends it are
-- parameters.
use che_machine_exec.Common.{
  ◌≡◌, refl, ap, ◌⊎◌, inl, inr, Text, codes, Bool, true, false, Option, none, some, List, [], ◌∷◌,
  Result, ok, err, Result-cases,
}
use che_machine_exec.Client.{Cluster, K8sApi, make_api}

-- The values of an unstructured object that the patch has.
mutual
  pub data Value : Type 0 where
    text : Text → Value
    flag : Bool → Value
    object : Fields → Value

  pub data Fields : Type 0 where
    end : Fields
    field : Text → Value → Fields → Fields

-- `stopWorkspacePath`.
unfoldable pub stop_workspace_path : Text → Value
stop_workspace_path reason = object (
    field (codes "metadata")
      (object (
        field (codes "annotations")
          (object (field (codes "controller.devfile.io/stopped-by") (text reason) end)) end))
      (field (codes "spec") (object (field (codes "started") (flag false) end)) end))

-- A merge patch of a resource.
pub record Patch : Type 0 where
  pub resource : Text
  pub namespace : Text
  pub name : Text
  pub body : Text

-- What encodes an object, and the API's answer to a patch through a client: `none`, or an error.
pub record Sender (C : Type 0) : Type 0 where
  pub marshal_json : Value → Result Text Text
  pub patch : C → Patch → Option Text

-- The patches that were sent, and the error.
pub record Stopped : Type 0 where
  pub patches : List Patch
  pub failure : Option Text

-- `newWorkspaceClientInCluster`.
unfoldable pub new_workspace_client_in_cluster : {C : Type 0} → Cluster C → Result Text (K8sApi C)
unfolding make_api
new_workspace_client_in_cluster cluster = elim cluster.in_cluster_config [
  | err e ↦ err e
  | ok config ↦ make_api cluster (record config {
    api_path = codes "/apis";
    group_version = codes "workspace.devfile.io/v1alpha2";
  })
]

abbrev pub stop_patch : Text → Text → Text → Patch
stop_patch namespace workspace_name body = record {
  resource = codes "devworkspaces";
  namespace = namespace;
  name = workspace_name;
  body = body;
}

unfoldable pub stop_workspace : {C : Type 0} → Cluster C → Sender C → Text → Text → Text → Stopped
unfolding new_workspace_client_in_cluster stop_workspace_path
stop_workspace cluster sender namespace workspace_name reason =
    elim (new_workspace_client_in_cluster cluster) [
      | err e ↦ record { patches = []; failure = some e }
      | ok api ↦ elim (sender.marshal_json (stop_workspace_path reason)) [
        | err e ↦ record { patches = []; failure = some e }
        | ok body ↦ record {
          patches = stop_patch namespace workspace_name body ∷ [];
          failure = sender.patch api.client (stop_patch namespace workspace_name body);
        }
      ]
    ]

-- What the loops do with the result: `err != nil`.
abbrev pub is_stopped : Option Text → Bool
is_stopped none = true
is_stopped (some e) = false

-- Nothing was sent, and there is an error; or the one patch that was sent asks to stop the workspace for
-- the reason, through a client of the pod, and the error is the API's answer to it.
abbrev pub IsAnswered : {C : Type 0} → Cluster C → Sender C → Text → Text → Text → Stopped → Type 0
IsAnswered {C = C} cluster sender namespace workspace_name reason stopped =
    ((stopped.patches ≡ []) × ((e : Text) × (stopped.failure ≡ some e)))
    ⊎ ((api : K8sApi C) × (body : Text) × (new_workspace_client_in_cluster cluster ≡ ok api)
        × (sender.marshal_json (stop_workspace_path reason) ≡ ok body)
        × (stopped.patches ≡ stop_patch namespace workspace_name body ∷ [])
        × (stopped.failure ≡ sender.patch api.client (stop_patch namespace workspace_name body)))

-- A call of `stopWorkspace` sends at most one patch. Without an error exactly one was sent, which names the
-- workspace and the reason, and the API has accepted it; when none was sent there is an error.
pub stop_workspace-IsAnswered :
    {C : Type 0} (cluster : Cluster C) (sender : Sender C) (namespace workspace_name reason : Text)
    → IsAnswered cluster sender namespace workspace_name reason
        (stop_workspace cluster sender namespace workspace_name reason)
unfolding stop_workspace
stop_workspace-IsAnswered cluster sender namespace workspace_name reason =
    elim (Result-cases (new_workspace_client_in_cluster cluster)) [
      | inl (e, k) ↦ rw (k, stop_workspace) (inl (refl, (e, refl)))
      | inr (api, k) ↦ elim (Result-cases (sender.marshal_json (stop_workspace_path reason))) [
        | inl (e, l) ↦ rw (k, stop_workspace, l) (inl (refl, (e, refl)))
        | inr (body, l) ↦
            let sent : stop_workspace cluster sender namespace workspace_name reason ≡ record {
              patches = stop_patch namespace workspace_name body ∷ [];
              failure = sender.patch api.client (stop_patch namespace workspace_name body);
            } =
              rw (k, stop_workspace, l) refl in
            inr (api, body, k, l, ap Stopped.patches sent, ap Stopped.failure sent)
      ]
    ]
