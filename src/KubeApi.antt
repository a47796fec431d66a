-- ===== src/KubeApi.antt =====
-- server_k8s_api.py: the responses of the Kubernetes API, and how a request that changes something is
-- read: its path, its kind and its payload.
pub mod Paths
pub mod Answers
pub mod Mutating
pub mod Succeeds
pub mod Refused
pub mod Issues
pub mod Asked
pub mod Obeys
pub mod Effects
pub mod Tests
use Prim.Native.String
use Prim.Native.Char.{code}
use anomaly_metric_creator.Base.{
  String, ℕ, Bool, true, false, not, ◌&&◌, ◌||◌, List, [], ◌∷◌, Option, none, some, ℤ, pos, max_ℤ,
  length, drop, leb, ltb, contains, if◌then◌else◌, ◌==◌, string_eq, nat_eq,
}
use anomaly_metric_creator.Base.Dict.{Dict, lookup, get_or}
use anomaly_metric_creator.Base.Text.{or_else, is_empty, split_at, strip_right_char, has_part, join}
use anomaly_metric_creator.Exec.{
  Result, ok, err, value_error, key_error, type_error, index_error, os_error, overflow_error,
}
use anomaly_metric_creator.Json.{
  Json, null, bool, num, float, str, arr, obj, end, Row, entries, fields, int_of,
}
use anomaly_metric_creator.Mutations.{resource_prefix}
use anomaly_metric_creator.Mutations.Methods.{has_text}
use anomaly_metric_creator.OpsParse.Families.{nth}
use anomaly_metric_creator.OpsParse.Split.{non_empty}
use anomaly_metric_creator.OpsParse.Targets.{normalize_kind}

pub record KubernetesApiResponse : Type 0 where
  pub status : ℕ
  pub body : Json
  pub content_type : String
  pub support_status : String
  pub matched_rule_id : String

abbrev json_type : String
json_type = "application/json; charset=utf-8"

unfoldable pub status_response : ℕ → String → String → String → String → KubernetesApiResponse
status_response status message reason support_status matched_rule_id = record {
  status = status;
  body = obj (
      fields (
        ("kind", str "Status")
        ∷ ("apiVersion", str "v1")
        ∷ ("metadata", obj end)
        ∷ ("status", str (if ltb status 400 then "Success" else "Failure"))
        ∷ ("message", str message)
        ∷ ("reason", str reason)
        ∷ ("code", num (pos status))
        ∷ []));
  content_type = json_type;
  support_status = support_status;
  matched_rule_id = matched_rule_id;
}

-- A response with an object: 200, or 201 where it was created.
abbrev pub object_response : ℕ → Json → String → KubernetesApiResponse
object_response status body matched_rule_id = record {
  status = status;
  body = body;
  content_type = json_type;
  support_status = "supported";
  matched_rule_id = matched_rule_id;
}

unfoldable pub json_response : Json → String → KubernetesApiResponse
json_response body matched_rule_id = object_response 200 body matched_rule_id

unfoldable pub read_only_response : String → String → KubernetesApiResponse
unfolding status_response
read_only_response method path =
    status_response 405
      (String.◌++◌ method (
        String.◌++◌ " "
          (String.◌++◌ path " is not supported by the simulator Kubernetes mutation facade")))
      "MethodNotAllowed" "unsupported" "k8s.method.unsupported"

-- `s.lstrip(c)` for one character.
unfoldable pub strip_left_char : ℕ → String → String
strip_left_char k String.[] = String.[]
strip_left_char k (String.◌∷◌ c s) =
    let rest = strip_left_char k s in if code c == k then rest else String.◌∷◌ c s

-- `[part for part in path.strip("/").split("/") if part]`.
unfoldable pub path_parts : String → List String
unfolding strip_left_char
path_parts path = non_empty (split_at b'/' (strip_left_char b'/' (strip_right_char b'/' path)))

-- The part at a place, empty past the end.
abbrev pub part : ℕ → List String → String
part n parts = elim (nth n parts) [ none ↦ "" | some p ↦ p ]

pub record MutationTarget : Type 0 where
  pub group : String
  pub version : String
  pub namespace : String
  pub resource : String
  pub name : String
  pub subresource : String
  pub extra : String

abbrev core_target : List String → MutationTarget
core_target parts = record {
  group = "";
  version = "v1";
  namespace = part 3 parts;
  resource = part 4 parts;
  name = part 5 parts;
  subresource = part 6 parts;
  extra = join "/" (drop 7 parts);
}

abbrev group_target : List String → MutationTarget
group_target parts = record {
  group = part 1 parts;
  version = part 2 parts;
  namespace = part 4 parts;
  resource = part 5 parts;
  name = part 6 parts;
  subresource = part 7 parts;
  extra = join "/" (drop 8 parts);
}

unfoldable pub target_of_parts : List String → Option MutationTarget
target_of_parts parts =
    if part 0 parts == "api"
      && part 1 parts == "v1"
      && part 2 parts == "namespaces"
      && leb 5 (length parts)
    then some (core_target parts)
    else if part 0 parts == "apis" && leb 6 (length parts) && part 3 parts == "namespaces"
    then some (group_target parts)
    else none

unfoldable pub mutation_target : String → Option MutationTarget
unfolding target_of_parts
mutation_target path = target_of_parts (path_parts path)

unfoldable pub is_update : String → Bool
is_update method = contains method ("PATCH" ∷ "PUT" ∷ [])

unfoldable pub subresource_mutation_allowed : String → String → String → Bool
unfolding is_update
subresource_mutation_allowed method resource subresource =
    is_empty subresource
    || (is_update method && resource == "deployments" && subresource == "scale")

unfoldable pub dict_or_empty : Json → Row
dict_or_empty (obj fs) = entries fs
dict_or_empty _ = []

-- `except (TypeError, ValueError): return None`.
read_replicas : Result ℤ → Result (Option ℤ)
read_replicas (ok n) = ok (some (max_ℤ (pos 0) n))
read_replicas (err type_error) = ok none
read_replicas (err (value_error _)) = ok none
read_replicas (err e) = err e

replicas_of : Json → Result (Option ℤ)
unfolding read_replicas
replicas_of (bool _) = ok none
replicas_of j = read_replicas (int_of j)

unfoldable pub payload_replicas : Row → Result (Option ℤ)
unfolding replicas_of
payload_replicas payload = elim (lookup "replicas" (dict_or_empty (get_or "spec" null payload))) [
  | none ↦ ok none
  | some j ↦ replicas_of j
]

unfoldable pub find_named : List Row → String → Option Row
find_named [] name = none
find_named (row ∷ rows) name =
    let rest = find_named rows name in if has_text row "name" name then some row else rest

abbrev mutation_snapshot_kinds : List String
mutation_snapshot_kinds =
    "configmaps" ∷ "secrets" ∷ "deployments" ∷ "daemonsets" ∷ "services" ∷ "hpa" ∷ "jobs"
    ∷ "cronjobs" ∷ "serviceaccounts" ∷ "pvc" ∷ "statefulsets" ∷ "ingress" ∷ []

abbrev snapshot_aliases : Dict String
snapshot_aliases =
    ("horizontalpodautoscalers", "hpa")
    ∷ ("persistentvolumeclaims", "pvc")
    ∷ ("ingresses", "ingress")
    ∷ ("manifest", "configmaps")
    ∷ []

unfoldable pub mutation_snapshot_kind : String → String
mutation_snapshot_kind kind =
    let normalized = get_or (normalize_kind kind) (normalize_kind kind) snapshot_aliases in
    if contains normalized mutation_snapshot_kinds then normalized else ""

unfoldable pub normalized_resource_prefix : String → String
normalized_resource_prefix kind =
    let normalized = or_else (mutation_snapshot_kind kind) (normalize_kind kind) in
    resource_prefix (or_else (or_else normalized kind) "resource")

escaped : ℕ → String → String
escaped quote String.[] = String.[]
escaped quote (String.◌∷◌ c s) =
    let rest = String.◌∷◌ c (escaped quote s) in
    if code c == quote || code c == b'\\' then String.◌∷◌ "\\" rest else rest

-- `repr(s)`: double quotes only around a text with single ones. The escapes of control characters are
-- not modelled.
unfoldable pub repr : String → String
unfolding escaped
repr s =
    if has_part "'" s && not (has_part "\"" s)
    then String.◌++◌ "\"" (String.◌++◌ (escaped b'"' s) "\"")
    else String.◌++◌ "'" (String.◌++◌ (escaped 39 s) "'")
