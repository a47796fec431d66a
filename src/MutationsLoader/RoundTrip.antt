-- ===== src/MutationsLoader/RoundTrip.antt =====
-- The overlay that the loader makes of the file that `_persist_locked` wrote.

use anomaly_metric_creator.Base.{String, ◌≡◌, refl, List, [], none, ℤ, All, string_eq, nat_eq}
use anomaly_metric_creator.Base.Dict.{Dict, lookup, sorted_items, sorted_texts}
use anomaly_metric_creator.Exec.{ok, bind_result}
use anomaly_metric_creator.Json.{Row, entries, fields, elements-items}
use anomaly_metric_creator.Mutations.{
  SimulationMutations, workload_row, row_object, map_values, serialized, envelope, texts,
  component_from_pod_name,
}
use anomaly_metric_creator.Mutations.Methods.{trim_events}
use anomaly_metric_creator.MutationsLoader.{
  require_mapping, require_sequence, require_version, unknown_keys, missing_keys, refuse_keys,
}
use anomaly_metric_creator.MutationsLoader.Hydrate.{
  hydrate, open_envelope, hydrate_deleted, hydrate_created, set_of,
}
use anomaly_metric_creator.MutationsLoader.Fields.{
  require_mapping-row_object, hydrate_workload-row_object, hydrate_release-row_object,
  require_string_sequence-texts, hydrate_events-map,
}
use anomaly_metric_creator.MutationsLoader.Loops.{
  AllKeys, IsKnown, rebuilt, hydrate_items-rebuilt, hydrate_workloads-rebuilt, hydrate_pods-known,
  All-sorted_texts,
}

abbrev pub set_again : List String → List String
set_again names = set_of (sorted_texts names) []

abbrev pub rows_again : Dict Row → Dict Row
rows_again = rebuilt (λ r. r)

hydrate_deleted-texts :
    (path kind : String) (names : List String)
    → hydrate_deleted path kind (texts (sorted_texts names)) ≡ ok (set_again names)
unfolding hydrate_deleted bind_result
hydrate_deleted-texts path kind names = rw require_string_sequence-texts

hydrate_created-row_object :
    (path kind : String) (rows : Dict Row)
    → hydrate_created path kind (row_object (map_values row_object (sorted_items rows)))
      ≡ ok (rows_again rows)
unfolding hydrate_created bind_result
hydrate_created-row_object path kind rows = rw require_mapping-row_object (
    hydrate_items-rebuilt _ row_object (λ r. r) (λ key r. require_mapping-row_object path r _) rows)

-- The overlay with its dicts and sets rebuilt.
abbrev pub restored : ℤ → SimulationMutations → SimulationMutations
restored limit o = record {
  workloads = rebuilt (λ m. m) o.workloads;
  deleted_pods = set_of (sorted_texts (sorted_texts o.deleted_pods)) [];
  deleted_resources = rebuilt set_again o.deleted_resources;
  created_resources = rebuilt rows_again o.created_resources;
  extra_events = trim_events limit o.extra_events;
  extra_event_limit = limit;
  release = o.release;
  version = o.version;
  persist_path = none;
}

pub open_envelope-envelope :
    (path : String) (o : SimulationMutations)
    → open_envelope path (envelope o) ≡ ok (entries (fields (serialized o)))
unfolding open_envelope envelope bind_result require_mapping missing_keys unknown_keys refuse_keys
    lookup string_eq nat_eq serialized
open_envelope-envelope path o = refl

pub hydrate-serialized :
    (path : String) (known : List String) (limit : ℤ) (o : SimulationMutations)
    → AllKeys (IsKnown known) o.workloads
    → All (λ pod. IsKnown known (component_from_pod_name pod)) o.deleted_pods
    → hydrate path known limit (entries (fields (serialized o))) ≡ ok (restored limit o, [])
unfolding hydrate bind_result serialized lookup string_eq require_sequence require_version
hydrate-serialized path known limit o components pods =
    rw
      (
        require_mapping-row_object,
        hydrate_workloads-rebuilt path known (λ w. row_object (workload_row w)) (λ m. m)
            (hydrate_workload-row_object path) o.workloads components,
        require_string_sequence-texts,
        require_mapping-row_object,
        hydrate_items-rebuilt (hydrate_deleted path) (λ names. texts (sorted_texts names)) set_again
            (hydrate_deleted-texts path) o.deleted_resources,
        require_mapping-row_object,
        hydrate_items-rebuilt (hydrate_created path)
            (λ rows. row_object (map_values row_object (sorted_items rows))) rows_again
            (hydrate_created-row_object path) o.created_resources,
        elements-items,
        hydrate_events-map,
        hydrate_release-row_object,
        hydrate_pods-known path known (sorted_texts (sorted_texts o.deleted_pods)) [] [] (
            All-sorted_texts _ (sorted_texts o.deleted_pods)
              (All-sorted_texts _ o.deleted_pods pods)),
      )
      refl
