-- ===== src/Mutations.antt =====
-- server_mutations.py: the overlay of a served simulation, its helpers, and the commit that every
-- mutator ends in. The mutators are in Methods.antt and the proofs in the other modules below.
pub mod Methods
pub mod Commit
pub mod Requests
pub mod Closed
pub mod Durable
pub mod Events
pub mod Resources
pub mod Workloads
pub mod Versions
pub mod Tests
use Prim.Native.String.{◌++◌ as ◌<>◌}
use anomaly_metric_creator.Base.{
  String, ℕ, ◌+◌, Bool, true, false, List, [], ◌∷◌, map, Option, none, some, ℤ, pos, ltb,
  if◌then◌else◌, ◌==◌, string_eq,
}
use anomaly_metric_creator.Base.Dict.{Dict, lookup, get_or, insert, sorted_items, sorted_texts}
use anomaly_metric_creator.Base.Text.{
  or_else, split_last, before, is_digits, remove_suffix, strip_right_char, show_ℕ,
}
use anomaly_metric_creator.Exec.{Exec, ok, err, ◌>>◌, modify}
use anomaly_metric_creator.Json.{
  Json, null, bool, num, str, arr, obj, Row, Content, json, not_json, items, fields,
}
use anomaly_metric_creator.Artifacts.{Fault, no_fault, Files, atomic_artifact_open}

abbrev pub default_namespace : String
default_namespace = "saas-prod"

abbrev pub mutation_state_schema_version : ℤ
mutation_state_schema_version = pos 1

abbrev pub persisted_mutation_fields : List String
persisted_mutation_fields =
    "workloads" ∷ "deleted_pods" ∷ "deleted_resources" ∷ "created_resources" ∷ "extra_events"
    ∷ "release" ∷ "version" ∷ []

abbrev pub unpersisted_mutation_fields : List String
unpersisted_mutation_fields = "lock" ∷ "extra_event_limit" ∷ "persist_path" ∷ []

pub record Datetime : Type 0 where
  pub year : ℕ
  pub month : ℕ
  pub day : ℕ
  pub hour : ℕ
  pub minute : ℕ
  pub second : ℕ

two_digits : ℕ → String
two_digits n = if ltb n 10 then "0" <> show_ℕ n else show_ℕ n

-- `%Y-%m-%d %H:%M:%S`; a year has four digits from 1000 on.
unfoldable pub format_dt : Datetime → String
unfolding two_digits show_ℕ
format_dt t =
    show_ℕ t.year
    <> "-"
    <> two_digits t.month
    <> "-"
    <> two_digits t.day
    <> " "
    <> two_digits t.hour
    <> ":"
    <> two_digits t.minute
    <> ":"
    <> two_digits t.second

unfoldable pub mutation_resource_key : String → String → String
unfolding or_else
mutation_resource_key namespace name = or_else namespace default_namespace <> "/" <> name

-- Without a dash `rpartition` gives an empty prefix and the whole name as the suffix.
unfoldable pub component_from_pod_name : String → String
unfolding split_last is_digits remove_suffix before
component_from_pod_name name = elim (split_last b'-' name) [
  | some (prefix, suffix) ↦
      if is_digits suffix then remove_suffix "-recreated" prefix else before b'-' name
  | none ↦ if is_digits name then "" else before b'-' name
]

abbrev pub resource_prefixes : Dict String
resource_prefixes =
    ("namespaces", "namespace")
    ∷ ("pods", "pod")
    ∷ ("configmaps", "configmap")
    ∷ ("secrets", "secret")
    ∷ ("deployments", "deployment")
    ∷ ("replicasets", "replicaset")
    ∷ ("daemonsets", "daemonset")
    ∷ ("services", "service")
    ∷ ("endpoints", "endpoints")
    ∷ ("endpointslices", "endpointslice")
    ∷ ("events", "event")
    ∷ ("hpa", "horizontalpodautoscaler")
    ∷ ("jobs", "job")
    ∷ ("cronjobs", "cronjob")
    ∷ ("serviceaccounts", "serviceaccount")
    ∷ ("nodes", "node")
    ∷ ("pvc", "persistentvolumeclaim")
    ∷ ("statefulsets", "statefulset")
    ∷ ("ingress", "ingress")
    ∷ []

unfoldable pub resource_prefix : String → String
unfolding get_or lookup strip_right_char
resource_prefix kind = get_or kind (strip_right_char b's' kind) resource_prefixes

pub record WorkloadMutation : Type 0 where
  pub replicas : Option ℤ
  pub deployment_status : String
  pub pod_status : String
  pub ready_replicas : Option ℤ
  pub restarts_delta : ℤ
  pub deleted : Bool
  pub generation : ℤ
  pub observed_generation : ℤ
  pub resource_version : ℤ
  pub deletion_timestamp : String
  pub updated_at : String

abbrev pub new_workload : WorkloadMutation
new_workload = record {
  replicas = none;
  deployment_status = "";
  pod_status = "";
  ready_replicas = none;
  restarts_delta = pos 0;
  deleted = false;
  generation = pos 1;
  observed_generation = pos 1;
  resource_version = pos 1;
  deletion_timestamp = "";
  updated_at = "";
}

pub record HelmReleaseMutation : Type 0 where
  pub revisions : Option (List Row)
  pub uninstalled : Bool
  pub values : Dict String
  pub updated_at : String

abbrev pub new_release : HelmReleaseMutation
new_release = record { revisions = none; uninstalled = false; values = []; updated_at = "" }

-- The fields of the class but for the lock: a method is one step, since each holds the lock over
-- its writes. `put_resource` and `delete_resource` are two locked blocks, one after the other.
pub record SimulationMutations : Type 0 where
  pub workloads : Dict WorkloadMutation
  pub deleted_pods : List String
  pub deleted_resources : Dict (List String)
  pub created_resources : Dict (Dict Row)
  pub extra_events : List Row
  pub extra_event_limit : ℤ
  pub release : HelmReleaseMutation
  pub version : ℕ
  pub persist_path : Option String

abbrev pub new_mutations : ℤ → SimulationMutations
new_mutations limit = record {
  workloads = [];
  deleted_pods = [];
  deleted_resources = [];
  created_resources = [];
  extra_events = [];
  extra_event_limit = limit;
  release = new_release;
  version = 0;
  persist_path = none;
}

-- The overlay, the files, and what will fail in the writes to come; with no fault left every write
-- succeeds.
pub record World : Type 0 where
  pub overlay : SimulationMutations
  pub files : Files Content
  pub faults : List Fault

abbrev pub Method : Type 0 → Type 0
Method = Exec World

-- `asdict(mutation)`.
unfoldable pub workload_row : WorkloadMutation → Row
workload_row m =
    ("replicas", elim m.replicas [ none ↦ null | some n ↦ num n ])
    ∷ ("deployment_status", str m.deployment_status)
    ∷ ("pod_status", str m.pod_status)
    ∷ ("ready_replicas", elim m.ready_replicas [ none ↦ null | some n ↦ num n ])
    ∷ ("restarts_delta", num m.restarts_delta)
    ∷ ("deleted", bool m.deleted)
    ∷ ("generation", num m.generation)
    ∷ ("observed_generation", num m.observed_generation)
    ∷ ("resource_version", num m.resource_version)
    ∷ ("deletion_timestamp", str m.deletion_timestamp)
    ∷ ("updated_at", str m.updated_at)
    ∷ []

unfoldable pub map_values {ℓ κ} : {A : Type ℓ} {B : Type κ} → (A → B) → Dict A → Dict B
map_values f [] = []
map_values f ((k, v) ∷ d) = (k, f v) ∷ map_values f d

abbrev pub row_object : Row → Json
row_object r = obj (fields r)

abbrev pub texts : List String → Json
texts l = arr (items (map str l))

-- `asdict(release)`.
unfoldable pub release_row : HelmReleaseMutation → Row
release_row r =
    ("revisions", elim r.revisions [ none ↦ null | some l ↦ arr (items (map row_object l)) ])
    ∷ ("uninstalled", bool r.uninstalled)
    ∷ ("values", row_object (map_values str r.values))
    ∷ ("updated_at", str r.updated_at)
    ∷ []

unfoldable pub serialized : SimulationMutations → Row
serialized m =
    (
      "workloads",
      row_object (map_values (λ w. row_object (workload_row w)) (sorted_items m.workloads)),
    )
    ∷ ("deleted_pods", texts (sorted_texts m.deleted_pods))
    ∷ (
      "deleted_resources",
      row_object
          (map_values (λ names. texts (sorted_texts names)) (sorted_items m.deleted_resources)),
    )
    ∷ (
      "created_resources",
      row_object (
          map_values (λ rows. row_object (map_values row_object (sorted_items rows)))
            (sorted_items m.created_resources)),
    )
    ∷ ("extra_events", arr (items (map row_object m.extra_events)))
    ∷ ("release", row_object (release_row m.release))
    ∷ ("version", num (pos m.version))
    ∷ []

unfoldable pub envelope : SimulationMutations → Json
envelope m = row_object (
    ("schema_version", num mutation_state_schema_version)
    ∷ ("mutations", row_object (serialized m))
    ∷ [])

abbrev pub next_fault : List Fault → Fault
next_fault [] = no_fault
next_fault (f ∷ _) = f

abbrev pub later_faults : List Fault → List Fault
later_faults [] = []
later_faults (_ ∷ fs) = fs

-- The partial content of a failed write is not looked at.
unfoldable pub persist : Method (Unit {0})
persist w = elim w.overlay.persist_path [
  | none ↦ (ok tt, w)
  | some path ↦
      let (r, files) =
        atomic_artifact_open (next_fault w.faults) path not_json (json (envelope w.overlay))
          w.files in
      (r, record w { files = files; faults = later_faults w.faults })
]

abbrev pub update : (SimulationMutations → SimulationMutations) → World → World
update f w = record w { overlay = f w.overlay }

unfoldable pub commit : Method (Unit {0})
commit w = persist (update (λ m. record m { version = m.version + 1 }) w)

unfoldable pub attach_persistence : Option String → Method (Unit {0})
attach_persistence path w = persist (update (λ m. record m { persist_path = path }) w)
