-- ===== src/MutationsLoader/Restored.antt =====
-- What `load_persisted_mutations` makes of a file that a commit wrote.
use mathlib.Core.Option
use anomaly_metric_creator.Base.{
  String, ◌-◌, ◌≤◌, ◌≡◌, refl, ◌∙◌, Bool-cases, inl, inr, ◌==◌, List, [], ◌∷◌, Option, none, some,
  ℤ, contains, All, length, arith, string_eq, nat_eq,
}
use anomaly_metric_creator.Base.Dict.{Dict, lookup, get_or, sorted_texts, contains-sorted_texts}
use anomaly_metric_creator.MutationsLoader.RoundTrip.{set_again, rows_again, restored}
use anomaly_metric_creator.Json.{Row}
use anomaly_metric_creator.Mutations.{SimulationMutations, component_from_pod_name}
use anomaly_metric_creator.Mutations.Methods.{event_cap, trim_events}
use anomaly_metric_creator.Mutations.Resources.{created_row, is_deleted}
use anomaly_metric_creator.MutationsLoader.Loops.{
  IsDict, AllKeys, IsKnown, rebuilt, lookup-rebuilt, contains-set_of,
}

-- Two overlays that answer every question alike; where the file is kept is not compared.
pub record SameOverlay (o p : SimulationMutations) : Type 0 where
  pub same_workloads :
      (component : String) → lookup component o.workloads ≡ lookup component p.workloads
  pub same_pods : (pod : String) → contains pod o.deleted_pods ≡ contains pod p.deleted_pods
  pub same_rows : (kind key : String) → created_row o kind key ≡ created_row p kind key
  pub same_deleted : (kind key : String) → is_deleted o kind key ≡ is_deleted p kind key
  pub same_events : o.extra_events ≡ p.extra_events
  pub same_release : o.release ≡ p.release
  pub same_version : o.version ≡ p.version

abbrev AllDicts : Dict (Dict Row) → Type 0
AllDicts [] = Unit
AllDicts ((kind, rows) ∷ d) = IsDict rows × AllDicts d

-- The overlay can be restored whole: its components are known to the simulation, its dicts have no
-- key twice, and its events are within the limit.
pub record IsRestorable (known : List String) (limit : ℤ) (o : SimulationMutations) : Type 0 where
  pub known_workloads : AllKeys (IsKnown known) o.workloads
  pub known_pods : All (λ pod. IsKnown known (component_from_pod_name pod)) o.deleted_pods
  pub dict_workloads : IsDict o.workloads
  pub dict_deleted : IsDict o.deleted_resources
  pub dict_created : IsDict o.created_resources
  pub dict_rows : AllDicts o.created_resources
  pub few_events : length o.extra_events ≤ event_cap limit

map_id : {A : Type 0} (o : Option A) → Option.map (λ a. a) o ≡ o
map_id none = refl
map_id (some a) = refl

contains-set_again :
    (x : String) (names : List String) → contains x (set_again names) ≡ contains x names
contains-set_again x names =
    ground (arith, contains-set_of x (sorted_texts names) [], contains-sorted_texts x names)

AnyDict : Option (Dict Row) → Type 0
AnyDict none = Unit
AnyDict (some rows) = IsDict rows

AllDicts-lookup : (kind : String) (d : Dict (Dict Row)) → AllDicts d → AnyDict (lookup kind d)
unfolding lookup AnyDict
AllDicts-lookup kind [] h = tt
AllDicts-lookup kind ((k, rows) ∷ d) (u, h) = elim (Bool-cases (k == kind)) [
  | inl e ↦ rw e u
  | inr e ↦ rw e (AllDicts-lookup kind d h)
]

lookup-rows_again :
    (key : String) (o : Option (Dict Row))
    → AnyDict o
    → lookup key (elim (Option.map rows_again o) [ none ↦ [] | some rows ↦ rows ])
      ≡ lookup key (elim o [ none ↦ [] | some rows ↦ rows ])
unfolding AnyDict
lookup-rows_again key none h = refl
lookup-rows_again key (some rows) h =
    ground (arith, lookup-rebuilt (λ r. r) rows key h, map_id (lookup key rows))

created_row-rebuilt :
    (kind key : String) (d : Dict (Dict Row))
    → IsDict d
    → AllDicts d
    → lookup key (get_or kind [] (rebuilt rows_again d)) ≡ lookup key (get_or kind [] d)
unfolding get_or
created_row-rebuilt kind key d u h =
    rw (lookup-rebuilt rows_again d kind u, get_or)
      (lookup-rows_again key (lookup kind d) (AllDicts-lookup kind d h))

contains-set_again_or :
    (x : String) (o : Option (List String))
    → contains x (elim (Option.map set_again o) [ none ↦ [] | some names ↦ names ])
      ≡ contains x (elim o [ none ↦ [] | some names ↦ names ])
contains-set_again_or x none = refl
contains-set_again_or x (some names) = contains-set_again x names

is_deleted-rebuilt :
    (kind key : String) (d : Dict (List String))
    → IsDict d
    → contains key (get_or kind [] (rebuilt set_again d)) ≡ contains key (get_or kind [] d)
unfolding get_or
is_deleted-rebuilt kind key d u =
    rw (lookup-rebuilt set_again d kind u, get_or) (contains-set_again_or key (lookup kind d))

trim_events_few :
    (limit : ℤ) (events : List Row)
    → length events ≤ event_cap limit
    → trim_events limit events ≡ events
unfolding trim_events
trim_events_few limit events few =
    let none_over : length events - event_cap limit ≡ 0 = omega arith in rw none_over refl

pub SameOverlay-restored :
    (path : String) (known : List String) (limit : ℤ) (o : SimulationMutations)
    → IsRestorable known limit o
    → SameOverlay (restored limit o) o
SameOverlay-restored path known limit o r = record {
  same_workloads = λ c. lookup-rebuilt (λ m. m) o.workloads c r.dict_workloads ∙ map_id _;
  same_pods = λ pod.
      contains-set_again pod (sorted_texts o.deleted_pods)
      ∙ contains-sorted_texts pod o.deleted_pods;
  same_rows =
      λ kind key. created_row-rebuilt kind key o.created_resources r.dict_created r.dict_rows;
  same_deleted = λ kind key. is_deleted-rebuilt kind key o.deleted_resources r.dict_deleted;
  same_events = trim_events_few limit o.extra_events r.few_events;
  same_release = refl;
  same_version = refl;
}
