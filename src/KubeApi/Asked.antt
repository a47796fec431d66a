-- ===== src/KubeApi/Asked.antt =====
-- What a request of the Kubernetes API asks of the overlay: which of its mutators are called, in what
-- order, from what the snapshot shows when the request comes.
use anomaly_metric_creator.Base.{
  String, not, ◌&&◌, [], ◌∷◌, ◌++◌, Option, none, some, ℤ, if◌then◌else◌, ◌==◌, string_eq,
}
use anomaly_metric_creator.Base.Text.{is_empty}
use anomaly_metric_creator.Exec.{Result, ok, err}
use anomaly_metric_creator.Json.{Json, Row}
use anomaly_metric_creator.Mutations.{World, Datetime}
use anomaly_metric_creator.Mutations.Requests.{Request}
use anomaly_metric_creator.KubeApi.{
  MutationTarget, mutation_snapshot_kind, find_named, payload_replicas, is_update,
}
use anomaly_metric_creator.KubeApi.Answers.{
  created_name, replica_change, removed, replica_event, deletion_event, creation_event,
}
use anomaly_metric_creator.KubeApi.Mutating.{Views, store_object, is_allowed}
use anomaly_metric_creator.KubeApi.Issues.{Requests}

abbrev pub where_shown : Requests → Option Row → Requests
where_shown requests none = []
where_shown requests (some _) = requests

module _ (v : Views) (now : Datetime) where
  abbrev pub shown : World → String → String → Option Row
  shown w kind name = elim (v.resource_snapshot now w) [
    | ok rows ↦ find_named (rows kind) name
    | err _ ↦ none
  ]

  abbrev pub asked_replicas : String → MutationTarget → Option ℤ → Requests
  asked_replicas method t none = []
  asked_replicas method t (some n) =
      (Request.set_workload t.name (replica_change n), now)
      ∷ (Request.record_event (replica_event method t n), now)
      ∷ []

  abbrev pub asked_update : String → MutationTarget → Row → Requests
  asked_update method t payload = elim (payload_replicas payload) [
    | ok n ↦ asked_replicas method t n
    | err _ ↦ []
  ]

  abbrev pub asked_removal : MutationTarget → Requests
  asked_removal t =
      (Request.set_workload t.name removed, now)
      ∷ (Request.record_event (deletion_event t), now)
      ∷ []

  abbrev pub asked_put : MutationTarget → String → String → Row → World → Requests
  asked_put t kind name payload w = elim (v.generic_resource_row now w kind name payload) [
    | ok row ↦ (Request.put_resource kind name row t.namespace, now) ∷ []
    | err _ ↦ []
  ]

  -- An event for an object that is not shown after it was stored.
  abbrev pub asked_event : MutationTarget → String → Option Json → Requests
  asked_event t name none = (Request.record_event (creation_event t name), now) ∷ []
  asked_event t name (some _) = []

  abbrev pub unseen : MutationTarget → String → Result (Option Json) → Requests
  unseen t name (ok o) = asked_event t name o
  unseen t name (err _) = []

  abbrev pub asked_create : MutationTarget → String → Row → World → Requests
  asked_create t kind payload w =
      let name = created_name t payload in
      if is_empty kind
      then asked_event t name none
      else asked_put t kind name payload w
        ++ unseen t name (store_object v now t kind name payload w).0

  abbrev pub asked_of_target : String → MutationTarget → String → Row → World → Requests
  asked_of_target method t kind payload w =
      let named = not (is_empty t.name) in
      if is_update method && t.resource == "deployments" && named
      then where_shown (asked_update method t payload) (shown w "deployments" t.name)
      else if is_update method && not (is_empty kind) && named
      then asked_put t kind t.name payload w
      else if method == "DELETE" && t.resource == "pods" && named
      then where_shown ((Request.delete_pod t.name, now) ∷ []) (shown w "pods" t.name)
      else if method == "DELETE" && t.resource == "deployments" && named
      then where_shown (asked_removal t) (shown w "deployments" t.name)
      else if method == "DELETE" && not (is_empty kind) && named
      then where_shown ((Request.delete_resource kind t.name t.namespace, now) ∷ [])
          (shown w kind t.name)
      else if method == "POST"
      then asked_create t kind payload w
      else []

  unfoldable pub asked : String → Option MutationTarget → Row → World → Requests
  asked method none payload w = []
  asked method (some t) payload w =
      if is_allowed v now method t
      then asked_of_target method t (mutation_snapshot_kind t.resource) payload w
      else []
