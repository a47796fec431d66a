-- ===== src/MutationsLoader/Tests.antt =====
-- Starts with a file that an earlier run wrote.
use anomaly_metric_creator.Base.{
  String, ◌≡◌, refl, List, [], ◌∷◌, some, pos, arith, string_eq, nat_eq,
}
use anomaly_metric_creator.Base.Dict.{lookup}
use anomaly_metric_creator.Base.Text.{split_last, is_digits, remove_suffix, before}
use anomaly_metric_creator.Exec.{ok}
use anomaly_metric_creator.Json.{str, json}
use anomaly_metric_creator.Mutations.{
  World, SimulationMutations, new_workload, new_mutations, envelope, component_from_pod_name,
}
use anomaly_metric_creator.MutationsLoader.Hydrate.{load_persisted_mutations}
use anomaly_metric_creator.MutationsLoader.Restored.{IsRestorable, SameOverlay}
use anomaly_metric_creator.MutationsLoader.Armed.{
  IsArmed, load_persisted_mutations-IsArmed, load_persisted_mutations-envelope,
}

abbrev stored : SimulationMutations
stored = record (new_mutations (pos 9)) {
  workloads =
      ("worker", new_workload) ∷ ("api", record new_workload { replicas = some (pos 3) }) ∷ [];
  deleted_pods = "api-0" ∷ [];
  deleted_resources = ("pods", "saas-prod/api-0" ∷ []) ∷ [];
  created_resources = ("configmaps", ("saas-prod/app", ("data", str "x") ∷ []) ∷ []) ∷ [];
  extra_events = (("reason", str "Scaled") ∷ []) ∷ [];
  version = 4;
}

abbrev known : List String
known = "api" ∷ "worker" ∷ []

abbrev restart : World
restart = record {
  overlay = new_mutations (pos 9);
  files = ("overlay.json", json (envelope stored)) ∷ [];
  faults = [];
}

stored-IsRestorable : IsRestorable known (pos 9) stored
unfolding lookup string_eq nat_eq component_from_pod_name split_last is_digits remove_suffix before
stored-IsRestorable = record {
  known_workloads = (refl, (refl, tt));
  known_pods = (refl, tt);
  dict_workloads = (refl, (refl, tt));
  dict_deleted = (refl, tt);
  dict_created = (refl, tt);
  dict_rows = ((refl, tt), tt);
  few_events = omega arith;
}

found : lookup "overlay.json" restart.files ≡ some (json (envelope stored))
unfolding lookup string_eq
found = refl

load_persisted_mutations-envelope_example :
    ((load_persisted_mutations "overlay.json" known (pos 9) restart).0 ≡ ok [])
    × SameOverlay (load_persisted_mutations "overlay.json" known (pos 9) restart).1.overlay stored
load_persisted_mutations-envelope_example =
    load_persisted_mutations-envelope "overlay.json" known (pos 9) stored restart found
      stored-IsRestorable refl

load_persisted_mutations-IsArmed_example :
    IsArmed "overlay.json" (load_persisted_mutations "overlay.json" known (pos 9) restart).1
load_persisted_mutations-IsArmed_example =
    load_persisted_mutations-IsArmed "overlay.json" known (pos 9) restart
      (load_persisted_mutations-envelope "overlay.json" known (pos 9) stored restart found
        stored-IsRestorable refl).0
