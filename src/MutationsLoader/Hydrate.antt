-- ===== src/MutationsLoader/Hydrate.antt =====
-- The overlay that `load_persisted_mutations` builds from a file's value.
use Prim.Native.String.{◌++◌ as ◌<>◌}
use anomaly_metric_creator.Base.{
  String, Bool, false, List, [], ◌∷◌, ◌++◌, map, Option, none, some, ℤ, pos, contains,
  if◌then◌else◌, string_eq, nat_eq,
}
use anomaly_metric_creator.Base.Dict.{Dict, lookup, insert, set_add, sorted_items, sorted_texts}
use anomaly_metric_creator.Exec.{
  Result, ok, err, bind_result, value_error, lift, pure, modify, ◌>>=◌, ◌>>◌,
}
use anomaly_metric_creator.Json.{
  Json, null, bool, num, str, arr, obj, Row, Content, json, not_json, not_utf8, unreadable,
  elements, entries, str_of,
}
use anomaly_metric_creator.Mutations.{
  Method, SimulationMutations, WorkloadMutation, HelmReleaseMutation, new_mutations,
  mutation_state_schema_version, persisted_mutation_fields, component_from_pod_name, update,
}
use anomaly_metric_creator.Mutations.Methods.{trim_events, same_int}
use anomaly_metric_creator.MutationsLoader.{
  persist_error, require_mapping, require_sequence, require_string_sequence, require_version,
  arm_persistence, workload_fields, release_fields, require_field_types, unknown_keys, missing_keys,
  refuse_keys,
}

-- What `**body` hands to a field whose type was checked, or its default.
abbrev int_field : String → ℤ → Row → ℤ
int_field name default body = elim (lookup name body) [ some (num n) ↦ n | _ ↦ default ]

abbrev count_field : String → Row → Option ℤ
count_field name body = elim (lookup name body) [ some (num n) ↦ some n | _ ↦ none ]

abbrev text_field : String → Row → String
text_field name body = elim (lookup name body) [ some (str s) ↦ s | _ ↦ "" ]

abbrev flag_field : String → Row → Bool
flag_field name body = elim (lookup name body) [ some (bool b) ↦ b | _ ↦ false ]

abbrev pub row_of : Json → Row
row_of (obj fs) = entries fs
row_of _ = []

abbrev text_of : Json → String
text_of (str s) = s
text_of _ = ""

abbrev pub texts_of : Row → Dict String
texts_of [] = []
texts_of ((k, j) ∷ r) = (k, text_of j) ∷ texts_of r

-- `WorkloadMutation(**body)`.
unfoldable pub workload_of : Row → WorkloadMutation
workload_of body = record {
  replicas = count_field "replicas" body;
  deployment_status = text_field "deployment_status" body;
  pod_status = text_field "pod_status" body;
  ready_replicas = count_field "ready_replicas" body;
  restarts_delta = int_field "restarts_delta" (pos 0) body;
  deleted = flag_field "deleted" body;
  generation = int_field "generation" (pos 1) body;
  observed_generation = int_field "observed_generation" (pos 1) body;
  resource_version = int_field "resource_version" (pos 1) body;
  deletion_timestamp = text_field "deletion_timestamp" body;
  updated_at = text_field "updated_at" body;
}

-- `HelmReleaseMutation(**body)`.
unfoldable pub release_of : Row → HelmReleaseMutation
release_of body = record {
  revisions = elim (lookup "revisions" body) [
    | some (arr js) ↦ some (map row_of (elements js))
    | _ ↦ none
  ];
  uninstalled = flag_field "uninstalled" body;
  values = elim (lookup "values" body) [ some (obj fs) ↦ texts_of (entries fs) | _ ↦ [] ];
  updated_at = text_field "updated_at" body;
}

abbrev pub known_keys : Dict String → List String
known_keys [] = []
known_keys ((k, _) ∷ d) = k ∷ known_keys d

unfoldable pub hydrate_workload : String → String → Json → Result WorkloadMutation
hydrate_workload path component raw =
    let what = "mutations.workloads['" <> component <> "']" in
    bind_result (require_mapping path raw what) λ body.
      bind_result
        (refuse_keys path (what <> " has unknown field(s)")
          (unknown_keys body (known_keys workload_fields)))
        λ _.
          bind_result (require_field_types path what workload_fields body)
            λ _. ok (workload_of body)

-- The loop over the sorted items, with the workloads and the notes of dropped ones so far.
unfoldable pub hydrate_workloads :
    String
    → List String
    → Row
    → Dict WorkloadMutation
    → List String
    → Result (Dict WorkloadMutation × List String)
hydrate_workloads path known [] workloads dropped = ok (workloads, dropped)
hydrate_workloads path known ((component, raw) ∷ rest) workloads dropped =
    let skip =
      hydrate_workloads path known rest workloads
        (dropped ++ ("workload overlay for unknown component '" <> component <> "'") ∷ []) in
    let keep =
      bind_result (hydrate_workload path component raw)
        (λ m. hydrate_workloads path known rest (insert component m workloads) dropped) in
    if contains component known then keep else skip

unfoldable pub hydrate_pods :
    List String → List String → List String → List String → List String × List String
hydrate_pods known [] pods dropped = (pods, dropped)
hydrate_pods known (pod ∷ rest) pods dropped =
    let skip =
      hydrate_pods known rest pods
        (dropped ++ ("deleted pod '" <> pod <> "' of unknown component") ∷ []) in
    let keep = hydrate_pods known rest (set_add pod pods) dropped in
    if contains (component_from_pod_name pod) known then keep else skip

-- A loop over sorted items that stores what `f` makes of each.
unfoldable pub hydrate_items :
    {V : Type 0} → (String → Json → Result V) → Row → Dict V → Result (Dict V)
hydrate_items f [] d = ok d
hydrate_items f ((k, j) ∷ rest) d = bind_result (f k j) (λ v. hydrate_items f rest (insert k v d))

-- `set(names)`.
unfoldable pub set_of : List String → List String → List String
set_of [] xs = xs
set_of (y ∷ ys) xs = set_of ys (set_add y xs)

unfoldable pub hydrate_deleted : String → String → Json → Result (List String)
unfolding set_of
hydrate_deleted path kind names =
    bind_result
      (require_string_sequence path names ("mutations.deleted_resources['" <> kind <> "']"))
      (λ l. ok (set_of l []))

unfoldable pub hydrate_created : String → String → Json → Result (Dict Row)
unfolding hydrate_items
hydrate_created path kind rows =
    let what = "mutations.created_resources['" <> kind <> "']" in
    bind_result (require_mapping path rows what) λ items.
      hydrate_items (λ key body. require_mapping path body (what <> "['" <> key <> "']"))
        (sorted_items items) []

unfoldable pub hydrate_events : String → List Json → Result (List Row)
hydrate_events path [] = ok []
hydrate_events path (j ∷ js) =
    bind_result (require_mapping path j "mutations.extra_events[]")
      λ event. bind_result (hydrate_events path js) λ events. ok (event ∷ events)

unfoldable pub hydrate_release : String → Json → Result HelmReleaseMutation
unfolding release_of
hydrate_release path raw = bind_result (require_mapping path raw "mutations.release") λ body.
    bind_result
      (refuse_keys path "mutations.release has unknown field(s)"
        (unknown_keys body (known_keys release_fields)))
      λ _.
        bind_result (require_field_types path "mutations.release" release_fields body)
          λ _. ok (release_of body)

-- `payload[key]`, after the check that the key is there.
abbrev pub member : String → Row → Json
member key r = elim (lookup key r) [ none ↦ null | some j ↦ j ]

abbrev supported_version : Json → Bool
supported_version (num n) = same_int n mutation_state_schema_version
supported_version _ = false

check_schema_version : String → Json → Result (Unit {0})
check_schema_version path version =
    if supported_version version
    then ok tt
    else err (
        persist_error path (
          "schema_version "
          <> str_of version
          <> " is not supported by this build (expected 1). "
          <> "Delete the file to start from a clean overlay."))

abbrev pub envelope_keys : List String
envelope_keys = "schema_version" ∷ "mutations" ∷ []

-- The checks of the envelope, in the source's order, down to the dict of the overlay's fields.
unfoldable pub open_envelope : String → Json → Result Row
unfolding check_schema_version
open_envelope path value = bind_result (require_mapping path value "persisted state") λ payload.
    bind_result
      (refuse_keys path "persisted state is missing key(s)" (missing_keys envelope_keys payload))
      λ _. bind_result (check_schema_version path (member "schema_version" payload)) λ _.
        bind_result
          (refuse_keys path "persisted state has unknown key(s)"
            (unknown_keys payload envelope_keys))
          λ _. bind_result (require_mapping path (member "mutations" payload) "mutations") λ state.
            bind_result
              (refuse_keys path "mutations has unknown key(s)"
                (unknown_keys state persisted_mutation_fields))
              λ _.
                bind_result
                  (refuse_keys path "mutations is missing key(s)"
                    (missing_keys persisted_mutation_fields state))
                  λ _. ok state

-- The overlay of the state's fields, not armed yet, and the notes of what was dropped.
unfoldable pub hydrate : String → List String → ℤ → Row → Result (SimulationMutations × List String)
hydrate path known limit state =
    bind_result (require_mapping path (member "workloads" state) "mutations.workloads") λ raw.
      bind_result (hydrate_workloads path known (sorted_items raw) [] []) λ (workloads, dropped).
        bind_result
          (require_string_sequence path (member "deleted_pods" state) "mutations.deleted_pods")
          λ pods.
            bind_result
              (require_mapping path (member "deleted_resources" state)
                "mutations.deleted_resources")
              λ raw_deleted.
                bind_result (hydrate_items (hydrate_deleted path) (sorted_items raw_deleted) [])
                  λ deleted.
                    bind_result
                      (require_mapping path (member "created_resources" state)
                        "mutations.created_resources")
                      λ raw_created.
                        bind_result
                          (hydrate_items (hydrate_created path) (sorted_items raw_created) [])
                          λ created.
                            bind_result
                              (require_sequence path (member "extra_events" state)
                                "mutations.extra_events")
                              λ raw_events. bind_result (hydrate_events path raw_events) λ events.
                                bind_result (hydrate_release path (member "release" state))
                                  λ release.
                                    bind_result (require_version path (member "version" state))
                                      λ version.
                                        let (kept, notes) =
                                          hydrate_pods known (sorted_texts pods) [] dropped in
                                        ok (
                                          record {
                                            workloads = workloads;
                                            deleted_pods = kept;
                                            deleted_resources = deleted;
                                            created_resources = created;
                                            extra_events = trim_events limit events;
                                            extra_event_limit = limit;
                                            release = release;
                                            version = version;
                                            persist_path = none;
                                          },
                                          notes,
                                        )

-- `path.exists()` and what reading it gives. A file that is no UTF-8 raises a `UnicodeDecodeError`,
-- which is a `ValueError` and neither of the two that are converted.
unfoldable pub read_payload : String → Content → Result Json
read_payload path (json value) = ok value
read_payload path not_json = err (persist_error path "file is not valid JSON")
read_payload path unreadable = err (persist_error path "file could not be read")
read_payload path not_utf8 = err (value_error "'utf-8' codec can't decode the file")

-- A start without a file, and one with a file that holds `content`. The notes are those of the
-- warnings on stderr.
unfoldable pub start_clean : String → ℤ → Method (List String)
start_clean path limit = do
  modify (update (λ _. new_mutations limit))
  arm_persistence path
  pure []

unfoldable pub restore : String → List String → ℤ → Content → Method (List String)
restore path known limit content = do
  value ← lift (read_payload path content)
  state ← lift (open_envelope path value)
  (overlay, dropped) ← lift (hydrate path known limit state)
  modify (update (λ _. overlay))
  arm_persistence path
  pure dropped

-- The overlay of the world it is run in is the one that it builds.
unfoldable pub load_persisted_mutations : String → List String → ℤ → Method (List String)
load_persisted_mutations path known limit w = elim (lookup path w.files) [
  | none ↦ start_clean path limit w
  | some content ↦ restore path known limit content w
]
