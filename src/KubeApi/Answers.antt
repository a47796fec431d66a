-- ===== src/KubeApi/Answers.antt =====
-- The pieces of `kubernetes_api_mutating_response` of server_k8s_dispatch.py that read no state: its
-- answers, its events, the changes of a workload, and the choice of the object to show.
use Prim.Native.String.{◌++◌ as ◌<>◌}
use anomaly_metric_creator.Base.{
  String, Bool, true, ◌&&◌, List, [], ◌∷◌, Option, none, some, ℤ, pos, if◌then◌else◌, ◌==◌,
  string_eq,
}
use anomaly_metric_creator.Base.Dict.{lookup, get_or}
use anomaly_metric_creator.Base.Text.{or_else, lower, show_ℤ}
use anomaly_metric_creator.Json.{Json, null, str, obj, Row, fields, str_of, is_text}
use anomaly_metric_creator.Mutations.{default_namespace}
use anomaly_metric_creator.Mutations.Methods.{
  EventKey, WorkloadChange, no_change, same_int, has_text,
}
use anomaly_metric_creator.KubeApi.{
  KubernetesApiResponse, status_response, json_response, MutationTarget, dict_or_empty,
  normalized_resource_prefix, repr,
}

abbrev pub api_event : String → String → String → EventKey
api_event reason object message = record {
  event_type = "Normal";
  reason = reason;
  namespace = default_namespace;
  object = object;
  message = message;
}

abbrev pub not_found : String → String → String → KubernetesApiResponse
not_found resource name rule =
    status_response 404 (resource <> " " <> repr name <> " not found") "NotFound" "supported" rule

abbrev pub deleted : String → String → String → KubernetesApiResponse
deleted resource name rule =
    status_response 200 (resource <> " " <> repr name <> " deleted") "Deleted" "supported" rule

abbrev pub missing_deployment : String → KubernetesApiResponse
missing_deployment name = not_found "deployments" name "k8s.apps.deployments.mutate.not_found"

-- An object of the name in the namespace, or without one.
abbrev pub is_object : String → String → Row → Bool
is_object name namespace object =
    let metadata = dict_or_empty (get_or "metadata" null object) in
    has_text metadata "name" name
    && elim (lookup "namespace" metadata) [ none ↦ true | some j ↦ is_text j namespace ]

unfoldable pub first_object : String → String → List Row → Option Json
first_object name namespace [] = none
first_object name namespace (object ∷ objects) =
    let rest = first_object name namespace objects in
    if is_object name namespace object then some (obj (fields object)) else rest

-- The group and the resource under which the objects of a kind are asked for again.
unfoldable pub fallback : String → Option (String × String)
fallback kind =
    if kind == "hpa"
    then some ("autoscaling", "horizontalpodautoscalers")
    else if kind == "ingress"
    then some ("networking.k8s.io", "ingresses")
    else if kind == "pvc"
    then some ("", "persistentvolumeclaims")
    else none

abbrev pub replica_change : ℤ → WorkloadChange
replica_change n = record no_change {
  replicas = some n;
  ready_replicas = some n;
  deployment_status = if same_int n (pos 0) then "ScaledToZero" else "Healthy";
  pod_status = "Running";
}

abbrev pub removed : WorkloadChange
removed = record no_change {
  replicas = some (pos 0);
  ready_replicas = some (pos 0);
  deployment_status = "Deleted";
  pod_status = "Terminating";
  deleted = some true;
}

abbrev pub update_rule : String → MutationTarget → String
update_rule method t = "k8s." <> t.resource <> "." <> lower method

unfoldable pub updated : String → MutationTarget → Option Json → KubernetesApiResponse
updated method t (some object) = json_response object (update_rule method t)
updated method t none =
    status_response 200 (t.resource <> " " <> repr t.name <> " configured by simulator")
      "Configured" "supported" (update_rule method t)

-- The events of an update, a deletion and a creation.
abbrev pub replica_event : String → MutationTarget → ℤ → EventKey
replica_event method t n =
    api_event (if t.subresource == "scale" then "ScalingReplicaSet" else "Patched")
      ("deployment/" <> t.name)
      (lower method <> " set deployment " <> t.name <> " replicas to " <> show_ℤ n)

abbrev pub deletion_event : MutationTarget → EventKey
deletion_event t =
    api_event "Deleted" ("deployment/" <> t.name)
      ("deployment " <> t.name <> " deleted from simulator state")

abbrev pub creation_event : MutationTarget → String → EventKey
creation_event t name =
    api_event "Created" (t.resource <> "/" <> name) ("accepted create request for " <> t.resource)

-- `name or str(metadata.get("name", "")) or f"simulated-{prefix}"`.
unfoldable pub created_name : MutationTarget → Row → String
created_name t payload =
    let given = str_of (get_or "name" (str "") (dict_or_empty (get_or "metadata" null payload))) in
    or_else (or_else t.name given) ("simulated-" <> normalized_resource_prefix t.resource)
