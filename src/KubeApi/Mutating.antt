-- ===== src/KubeApi/Mutating.antt =====
-- `kubernetes_api_mutating_response` of server_k8s_dispatch.py: the requests that change the overlay.
use Prim.Native.String.{◌++◌ as ◌<>◌}
use anomaly_metric_creator.Base.{
  String, Bool, not, ◌&&◌, List, Option, none, some, ℤ, if◌then◌else◌, ◌==◌, string_eq,
}
use anomaly_metric_creator.Base.Text.{is_empty, lower}
use anomaly_metric_creator.Exec.{Result, ok, err, ◌>>=◌, ◌>>◌, pure, lift, get_state}
use anomaly_metric_creator.Json.{Json, Row}
use anomaly_metric_creator.Mutations.{World, Method, Datetime}
use anomaly_metric_creator.Mutations.Methods
use anomaly_metric_creator.Mutations.Methods.{
  EventKey, WorkloadChange, no_change, same_int, has_text, record_event, set_workload, put_resource,
}
use anomaly_metric_creator.KubeApi.{
  KubernetesApiResponse, status_response, object_response, json_response, read_only_response,
  MutationTarget, mutation_target, is_update, subresource_mutation_allowed, payload_replicas,
  find_named, mutation_snapshot_kind,
}
use anomaly_metric_creator.KubeApi.Answers.{
  replica_event, deletion_event, creation_event, not_found, deleted, missing_deployment,
  first_object, fallback, replica_change, removed, updated, created_name,
}

-- What the handlers read of the state through the snapshot and its renderers, at a time: the rows of
-- each kind, the object of a deployment or of its scale, the objects of a group's resource, and the
-- row that stands for an object of a kind and name with a payload.
pub record Views : Type 0 where
  pub resource_snapshot : Datetime → World → Result (String → List Row)
  pub deployment_object : Datetime → World → Row → Result Json
  pub scale_object : Datetime → World → Row → Result Json
  pub objects_for_resource : Datetime → World → String → String → Result (Option (List Row))
  pub generic_resource_row : Datetime → World → String → String → Row → Result Row

abbrev pub Answer : Type 0
Answer = Method KubernetesApiResponse

-- `if replicas is not None:` and what follows it.
unfoldable pub set_replicas : String → MutationTarget → Option ℤ → Datetime → Method (Unit {0})
set_replicas method t none now = pure tt
set_replicas method t (some n) now = do
  set_workload t.name (replica_change n) now
  record_event (replica_event method t n) now

-- The answer that `_handle_mutating_method` of server.py makes of an exception.
unfoldable pub internal_error : KubernetesApiResponse
unfolding status_response
internal_error =
    status_response 500 "internal server error" "InternalError" "unsupported" "k8s.internal_error"

abbrev pub sent : Result KubernetesApiResponse → KubernetesApiResponse
sent (ok response) = response
sent (err _) = internal_error

module _ (v : Views) (now : Datetime) where
  -- The row of the name in the snapshot, as it is now.
  unfoldable pub snapshot_row : String → String → Method (Option Row)
  snapshot_row kind name = do
    w ← get_state
    rows ← lift (v.resource_snapshot now w)
    pure (find_named (rows kind) name)

  unfoldable pub objects_or_fallback :
      Option (String × String) → Option (List Row) → Method (Option (List Row))
  objects_or_fallback _ (some objects) = pure (some objects)
  objects_or_fallback none none = pure none
  objects_or_fallback (some (group, resource)) none = do
    w ← get_state
    lift (v.objects_for_resource now w group resource)

  unfoldable pub mutated_object : MutationTarget → String → String → Method (Option Json)
  unfolding objects_or_fallback
  mutated_object t kind name = do
    w ← get_state
    first ← lift (v.objects_for_resource now w t.group t.resource)
    objects ← objects_or_fallback (fallback kind) first
    pure (elim objects [ none ↦ none | some l ↦ first_object name t.namespace l ])

  unfoldable pub deployment_answer : String → MutationTarget → Option Row → Answer
  deployment_answer method t none = pure (missing_deployment t.name)
  deployment_answer method t (some deployment) = do
    w ← get_state
    body ← lift (
        if t.subresource == "scale"
        then v.scale_object now w deployment
        else v.deployment_object now w deployment)
    pure (json_response body ("k8s.apps.deployments." <> lower method))

  -- After the existence check.
  unfoldable pub update_found : String → MutationTarget → Row → Option Row → Answer
  unfolding set_replicas deployment_answer snapshot_row
  update_found method t payload none = pure (missing_deployment t.name)
  update_found method t payload (some _) = do
    replicas ← lift (payload_replicas payload)
    set_replicas method t replicas now
    after ← snapshot_row "deployments" t.name
    deployment_answer method t after

  unfoldable pub update_deployment : String → MutationTarget → Row → Answer
  unfolding update_found
  update_deployment method t payload = do
    before ← snapshot_row "deployments" t.name
    update_found method t payload before

  unfoldable pub store_object : MutationTarget → String → String → Row → Method (Option Json)
  unfolding mutated_object
  store_object t kind name payload = do
    w ← get_state
    row ← lift (v.generic_resource_row now w kind name payload)
    put_resource kind name row now t.namespace
    mutated_object t kind name

  unfoldable pub update_resource : String → MutationTarget → String → Row → Answer
  unfolding store_object
  update_resource method t kind payload = do
    body ← store_object t kind t.name payload
    pure (updated method t body)

  unfoldable pub delete_found_pod : MutationTarget → Option Row → Answer
  delete_found_pod t none = pure (not_found "pods" t.name "k8s.core.pods.delete.not_found")
  delete_found_pod t (some _) = do
    Methods.delete_pod t.name now
    pure (deleted "pods" t.name "k8s.core.pods.delete")

  unfoldable pub delete_found_deployment : MutationTarget → Option Row → Answer
  delete_found_deployment t none =
      pure (not_found "deployments" t.name "k8s.apps.deployments.delete.not_found")
  delete_found_deployment t (some _) = do
    set_workload t.name removed now
    record_event (deletion_event t) now
    pure (deleted "deployments" t.name "k8s.apps.deployments.delete")

  unfoldable pub delete_found : MutationTarget → String → Option Row → Answer
  delete_found t kind none =
      pure (not_found t.resource t.name ("k8s." <> t.resource <> ".delete.not_found"))
  delete_found t kind (some _) = do
    Methods.delete_resource kind t.name now t.namespace
    pure (deleted t.resource t.name ("k8s." <> t.resource <> ".delete"))

  -- A create request whose object is not shown is accepted with an event.
  unfoldable pub accept_create : MutationTarget → String → Option Json → Answer
  accept_create t name (some body) =
      pure (object_response 201 body ("k8s." <> t.resource <> ".create"))
  accept_create t name none = do
    record_event (creation_event t name) now
    pure (
        status_response 201 (t.resource <> " create accepted by simulator") "Created" "partial"
          ("k8s." <> t.resource <> ".create.partial"))

  unfoldable pub create : MutationTarget → String → Row → Answer
  unfolding accept_create store_object
  create t kind payload =
      let name = created_name t payload in
      if is_empty kind
      then accept_create t name none
      else do body ← store_object t kind name payload; accept_create t name body

  unfoldable pub mutate : String → String → MutationTarget → String → Row → Answer
  unfolding update_deployment update_resource delete_found_pod delete_found_deployment delete_found
      create
  mutate method path t kind payload =
      let named = not (is_empty t.name) in
      if is_update method && t.resource == "deployments" && named
      then update_deployment method t payload
      else if is_update method && not (is_empty kind) && named
      then update_resource method t kind payload
      else if method == "DELETE" && t.resource == "pods" && named
      then (snapshot_row "pods" t.name >>= delete_found_pod t)
      else if method == "DELETE" && t.resource == "deployments" && named
      then (snapshot_row "deployments" t.name >>= delete_found_deployment t)
      else if method == "DELETE" && not (is_empty kind) && named
      then (snapshot_row kind t.name >>= delete_found t kind)
      else if method == "POST"
      then create t kind payload
      else pure (read_only_response method path)

  abbrev pub is_allowed : String → MutationTarget → Bool
  is_allowed method t =
      is_empty t.extra && subresource_mutation_allowed method t.resource t.subresource

  unfoldable pub answer_target : String → String → Option MutationTarget → Row → Answer
  unfolding mutate
  answer_target method path none payload = pure (read_only_response method path)
  answer_target method path (some t) payload =
      if is_allowed method t
      then mutate method path t (mutation_snapshot_kind t.resource) payload
      else pure (read_only_response method path)

  unfoldable pub mutating_response : String → String → Row → Answer
  unfolding answer_target
  mutating_response method path payload = answer_target method path (mutation_target path) payload

  -- What it sends to a PUT, PATCH or DELETE of the API that is let in and whose payload was read. A POST
  -- differs in the body of the 500.
  unfoldable pub respond : String → String → Row → World → KubernetesApiResponse × World
  unfolding internal_error
  respond method path payload w =
      let (r, w') = mutating_response method path payload w in (sent r, w')
