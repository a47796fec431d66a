-- ===== src/Mutations/Methods.antt =====
-- The mutators of `SimulationMutations` in server_mutations.py. Each ends in `commit`, and each
-- works on the overlay that the writes before it left, also where a later write raises.
mod Recording
pub use Recording.*
unfoldable pub use Recording.{
  same_event, count_event, touch_event, touch_first, new_event, trim_events, finish_event,
  record_event,
}
use Prim.Native.String.{◌++◌ as ◌<>◌}
use anomaly_metric_creator.Base.{
  String, ℕ, ◌+◌, ◌-◌, Bool, true, false, not, ◌&&◌, ◌||◌, List, [], ◌∷◌, ◌++◌, Option, none, some,
  ℤ, pos, negsuc, ◌+ℤ◌, max_ℤ, pos_part, length, drop, if◌then◌else◌, ◌==◌, string_eq, nat_eq,
}
use anomaly_metric_creator.Base.Dict.{Dict, lookup, get_or, insert, erase, set_add, set_discard}
use anomaly_metric_creator.Base.Text.{or_else, is_empty, show_ℤ}
use anomaly_metric_creator.Exec.{
  Result, ok, err, pure, lift, get_state, ◌>>=◌, ◌>>◌, modify, bind_result,
}
use anomaly_metric_creator.Json.{
  Json, null, bool, num, float, str, arr, obj, nil, end, Row, int_of, is_text, str_of,
}
use anomaly_metric_creator.Mutations.{
  World, Method, SimulationMutations, WorkloadMutation, HelmReleaseMutation, new_workload,
  new_release, default_namespace, Datetime, format_dt, mutation_resource_key,
  component_from_pod_name, resource_prefix, commit, update,
}

-- The keyword arguments of `set_workload`.
pub record WorkloadChange : Type 0 where
  pub replicas : Option ℤ
  pub deployment_status : String
  pub pod_status : String
  pub ready_replicas : Option ℤ
  pub restarts_delta : ℤ
  pub deleted : Option Bool

abbrev pub no_change : WorkloadChange
no_change = record {
  replicas = none;
  deployment_status = "";
  pod_status = "";
  ready_replicas = none;
  restarts_delta = pos 0;
  deleted = none;
}

abbrev pub same_int : ℤ → ℤ → Bool
same_int (pos a) (pos b) = a == b
same_int (negsuc a) (negsuc b) = a == b
same_int _ _ = false

abbrev pub same_bool : Bool → Bool → Bool
same_bool true b = b
same_bool false b = not b

-- `spec_changed`: the replicas or the deletion mark differ from what they were.
unfoldable pub spec_changed : WorkloadChange → WorkloadMutation → Bool
spec_changed c m =
    elim c.replicas [
      | none ↦ false
      | some r ↦ elim m.replicas [ none ↦ true | some old ↦ not (same_int old (max_ℤ (pos 0) r)) ]
    ]
    || elim c.deleted [ none ↦ false | some d ↦ not (same_bool m.deleted d) ]

-- The mutation that `set_workload` leaves, from the one that it finds and the overlay's version.
unfoldable pub changed_workload :
    WorkloadChange → Datetime → ℕ → WorkloadMutation → WorkloadMutation
unfolding or_else spec_changed
changed_workload c now version m =
    let generation = if spec_changed c m then m.generation +ℤ pos 1 else m.generation in
    record {
      replicas = elim c.replicas [ none ↦ m.replicas | some r ↦ some (max_ℤ (pos 0) r) ];
      deployment_status = or_else c.deployment_status m.deployment_status;
      pod_status = or_else c.pod_status m.pod_status;
      ready_replicas = elim c.ready_replicas [
        | none ↦ m.ready_replicas
        | some r ↦ some (max_ℤ (pos 0) r)
      ];
      restarts_delta = m.restarts_delta +ℤ c.restarts_delta;
      deleted = elim c.deleted [ none ↦ m.deleted | some d ↦ d ];
      generation = generation;
      observed_generation = generation;
      resource_version = max_ℤ (m.resource_version +ℤ pos 1) (pos (version + 2));
      deletion_timestamp = elim c.deleted [
        | none ↦ m.deletion_timestamp
        | some d ↦ if d then format_dt now else ""
      ];
      updated_at = format_dt now;
    }

unfoldable pub set_workload : String → WorkloadChange → Datetime → Method WorkloadMutation
unfolding changed_workload
set_workload component c now w =
    let m =
      changed_workload c now w.overlay.version
        (get_or component new_workload w.overlay.workloads) in
    (commit >> pure m) (update (λ o. record o { workloads = insert component m o.workloads }) w)

unfoldable pub put_pod : String → SimulationMutations → SimulationMutations
put_pod pod o = record o { deleted_pods = set_add pod o.deleted_pods }

unfoldable pub delete_pod : String → Datetime → Method (Unit {0})
delete_pod pod now = do
  modify (update (put_pod pod))
  commit
  set_workload (component_from_pod_name pod)
      (record no_change {
        deployment_status = "Restarting";
        pod_status = "Running";
        restarts_delta = pos 1;
      })
      now
  record_event
      (record {
        event_type = "Normal";
        reason = "Killing";
        namespace = default_namespace;
        object = "pod/" <> pod;
        message = "pod " <> pod <> " deleted; controller recreated replacement pod";
      })
      now

-- `bool(j)`.
truthy : Json → Bool
truthy null = false
truthy (bool b) = b
truthy (num n) = not (same_int n (pos 0))
truthy (float text n) = not (text == "0.0" || text == "-0.0")
truthy (str s) = not (is_empty s)
truthy (arr nil) = false
truthy (arr _) = true
truthy (obj end) = false
truthy (obj _) = true

-- `str(namespace or stored.get("namespace") or DEFAULT_NAMESPACE)`.
unfoldable pub row_namespace : String → Row → String
unfolding truthy is_empty or_else
row_namespace namespace stored = or_else namespace (elim (lookup "namespace" stored) [
  | none ↦ default_namespace
  | some j ↦ if truthy j then str_of j else default_namespace
])

-- `max(int(str(stored.get("resource_version", "1")) or 1), self.version + 2)`, which `int` may refuse.
unfoldable pub row_resource_version : Row → ℕ → Result ℤ
row_resource_version stored version =
    let text = str_of (get_or "resource_version" (str "1") stored) in
    let read = int_of (if is_empty text then num (pos 1) else str text) in
    bind_result read (λ n. ok (max_ℤ n (pos (version + 2))))

-- The row that `put_resource` stores under the key of its namespace and name.
unfoldable pub stored_row : String → String → ℤ → Row → Row
stored_row name namespace resource_version row =
    insert "resource_version" (str (show_ℤ resource_version))
      (insert "namespace" (str namespace) (insert "name" (str name) row))

unfoldable pub put_created : String → String → Row → SimulationMutations → SimulationMutations
put_created kind key row o = record o {
  created_resources =
      insert kind (insert key row (get_or kind [] o.created_resources)) o.created_resources;
  deleted_resources =
      insert kind (set_discard key (get_or kind [] o.deleted_resources)) o.deleted_resources;
}

unfoldable pub put_deleted : String → String → SimulationMutations → SimulationMutations
put_deleted kind key o = record o {
  created_resources =
      insert kind (erase key (get_or kind [] o.created_resources)) o.created_resources;
  deleted_resources =
      insert kind (set_add key (get_or kind [] o.deleted_resources)) o.deleted_resources;
}

abbrev pub resource_event : String → String → String → String → String → EventKey
resource_event kind name namespace reason done = record {
  event_type = "Normal";
  reason = reason;
  namespace = namespace;
  object = resource_prefix kind <> "/" <> name;
  message = resource_prefix kind <> " " <> name <> done;
}

unfoldable pub put_resource : String → String → Row → Datetime → String → Method (Unit {0})
put_resource kind name row now given = do
  w ← get_state
  let namespace = row_namespace given row
  rv ← lift (row_resource_version row w.overlay.version)
  modify (
      update (
        put_created kind (mutation_resource_key namespace name) (stored_row name namespace rv row)))
  commit
  record_event (resource_event kind name namespace "Configured" " configured in simulator state")
      now

unfoldable pub delete_resource : String → String → Datetime → String → Method (Unit {0})
delete_resource kind name now namespace = do
  modify (update (put_deleted kind (mutation_resource_key namespace name)))
  commit
  record_event (resource_event kind name namespace "Deleted" " deleted from simulator state") now

abbrev pub cleared : SimulationMutations → SimulationMutations
cleared o = record o {
  workloads = [];
  deleted_pods = [];
  deleted_resources = [];
  created_resources = [];
  extra_events = [];
  release = new_release;
}

unfoldable pub reset : Method (Unit {0})
reset w = commit (update cleared w)

-- `None` revisions stand for the caller's base list.
unfoldable pub current_revisions : List Row → SimulationMutations → List Row
current_revisions base o = elim o.release.revisions [ none ↦ base | some l ↦ l ]

abbrev pub update_release : (HelmReleaseMutation → HelmReleaseMutation) → World → World
update_release f = update (λ o. record o { release = f o.release })

abbrev pub changed_revisions :
    List Row → Datetime → Bool → HelmReleaseMutation → HelmReleaseMutation
changed_revisions revisions now uninstalled r = record r {
  revisions = some revisions;
  uninstalled = uninstalled;
  values = if uninstalled then [] else r.values;
  updated_at = format_dt now;
}

unfoldable pub set_revisions : List Row → Datetime → Bool → Method (Unit {0})
set_revisions revisions now uninstalled w =
    commit (update_release (changed_revisions revisions now uninstalled) w)

-- `d.update(e)`.
unfoldable pub merge : Dict String → Dict String → Dict String
merge [] d = d
merge ((k, v) ∷ e) d = merge e (insert k v d)

abbrev pub changed_values : Dict String → Datetime → HelmReleaseMutation → HelmReleaseMutation
changed_values values now r = record r {
  values = merge values r.values;
  updated_at = format_dt now;
}

abbrev pub replaced_values : Dict String → Datetime → HelmReleaseMutation → HelmReleaseMutation
replaced_values values now r = record r { values = values; updated_at = format_dt now }

unfoldable pub set_release_values : Dict String → Datetime → Method (Unit {0})
set_release_values values now w = commit (update_release (changed_values values now) w)

unfoldable pub replace_release_values : Dict String → Datetime → Method (Unit {0})
replace_release_values values now w = commit (update_release (replaced_values values now) w)
