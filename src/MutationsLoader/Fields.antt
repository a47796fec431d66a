-- ===== src/MutationsLoader/Fields.antt =====
-- What the loader makes of the parts of a file that `_persist_locked` wrote.

use anomaly_metric_creator.Base.{
  String, ℕ, ◌+◌, ◌≡◌, refl, ap, ap₂, true, List, [], ◌∷◌, map, Option, none, some, ℤ, string_eq,
  nat_eq, arith,
}
use anomaly_metric_creator.Base.Dict.{Dict, lookup}
use anomaly_metric_creator.Exec.{ok, bind_result}
use anomaly_metric_creator.Json.{
  str, Row, items, fields, elements, entries, elements-items, entries-fields,
}
use anomaly_metric_creator.Mutations.{
  WorkloadMutation, HelmReleaseMutation, workload_row, release_row, row_object, map_values, texts,
}
use anomaly_metric_creator.MutationsLoader.{
  require_mapping, require_strings, require_string_sequence, require_field_types, unknown_keys,
  refuse_keys, all_dicts, all_strs,
}
use anomaly_metric_creator.MutationsLoader.Hydrate.{
  workload_of, hydrate_workload, hydrate_release, hydrate_events, texts_of, row_of,
}

pub require_mapping-row_object :
    (path : String) (r : Row) (what : String) → require_mapping path (row_object r) what ≡ ok r
unfolding require_mapping
require_mapping-row_object path r what = ap ok (entries-fields r)

-- The two counts that may be missing are split, and the rest is computed.
hydrate_workload_counts :
    (path component : String) (r s : Option ℤ) (m : WorkloadMutation)
    → let n : WorkloadMutation = record m { replicas = r; ready_replicas = s } in
      hydrate_workload path component (row_object (workload_row n)) ≡ ok n
unfolding hydrate_workload bind_result unknown_keys refuse_keys string_eq workload_row
    require_mapping require_field_types lookup workload_of
hydrate_workload_counts path component none none m = refl
hydrate_workload_counts path component none (some _) m = refl
hydrate_workload_counts path component (some _) none m = refl
hydrate_workload_counts path component (some _) (some _) m = refl

pub hydrate_workload-row_object :
    (path component : String) (m : WorkloadMutation)
    → hydrate_workload path component (row_object (workload_row m)) ≡ ok m
hydrate_workload-row_object path component m =
    hydrate_workload_counts path component m.replicas m.ready_replicas m

all_dicts-map : (rows : List Row) → all_dicts (elements (items (map row_object rows))) ≡ true
all_dicts-map [] = refl
all_dicts-map (r ∷ rows) = all_dicts-map rows

all_strs-map_values : (d : Dict String) → all_strs (entries (fields (map_values str d))) ≡ true
unfolding map_values
all_strs-map_values [] = refl
all_strs-map_values ((k, v) ∷ d) = all_strs-map_values d

texts_of-map_values : (d : Dict String) → texts_of (entries (fields (map_values str d))) ≡ d
unfolding map_values
texts_of-map_values [] = refl
texts_of-map_values ((k, v) ∷ d) = ap (λ r. (k, v) ∷ r) (texts_of-map_values d)

map-row_of : (rows : List Row) → map row_of (elements (items (map row_object rows))) ≡ rows
map-row_of [] = refl
map-row_of (r ∷ rows) = ap₂ (λ a b. a ∷ b) (entries-fields r) (map-row_of rows)

hydrate_release_revisions :
    (path : String) (l : Option (List Row)) (m : HelmReleaseMutation)
    → let n : HelmReleaseMutation = record m { revisions = l } in
      hydrate_release path (row_object (release_row n)) ≡ ok n
unfolding hydrate_release bind_result unknown_keys refuse_keys string_eq release_row require_mapping
    require_field_types lookup
hydrate_release_revisions path none m =
    ground (arith, all_strs-map_values m.values, texts_of-map_values m.values)
hydrate_release_revisions path (some l) m = ground (
  arith,
  all_strs-map_values m.values,
  texts_of-map_values m.values,
  all_dicts-map l,
  map-row_of l,
)

pub hydrate_release-row_object :
    (path : String) (m : HelmReleaseMutation)
    → hydrate_release path (row_object (release_row m)) ≡ ok m
hydrate_release-row_object path m = hydrate_release_revisions path m.revisions m

require_strings-map :
    (path what : String) (index : ℕ) (l : List String)
    → require_strings path what index (map str l) ≡ ok l
unfolding require_strings bind_result
require_strings-map path what index [] = refl
require_strings-map path what index (s ∷ l) = rw (require_strings-map path what (index + 1) l)

pub require_string_sequence-texts :
    (path what : String) (l : List String) → require_string_sequence path (texts l) what ≡ ok l
unfolding require_string_sequence bind_result
require_string_sequence-texts path what l = rw elements-items (require_strings-map path what 0 l)

pub hydrate_events-map :
    (path : String) (rows : List Row) → hydrate_events path (map row_object rows) ≡ ok rows
unfolding hydrate_events bind_result
hydrate_events-map path [] = refl
hydrate_events-map path (r ∷ rows) =
    rw (require_mapping-row_object path r "mutations.extra_events[]", hydrate_events-map path rows)
