-- ===== src/Mutations/Tests.antt =====
-- Runs of the mutators of server_mutations.py on a small overlay.
use anomaly_metric_creator.Base.{
  String, ◌≡◌, ◌≢◌, ◌⊎◌, refl, List, [], ◌∷◌, some, pos, ◌<ℤ◌, ◌+ℤ◌, arith, string_eq, nat_eq, inl,
}
use anomaly_metric_creator.Base.Dict.{lookup, get_or, insert}
use anomaly_metric_creator.Exec.{ok, err, os_error, ◌>>=◌, value_error}
use anomaly_metric_creator.Json.{str, Row, json, int_of, is_text}
use anomaly_metric_creator.Base.Text.{or_else, int_of_text}
use anomaly_metric_creator.Artifacts.{Fault, atomic_artifact_open}
use anomaly_metric_creator.Mutations.{
  format_dt, World, SimulationMutations, WorkloadMutation, Datetime, commit, persist, envelope,
  new_mutations, new_workload,
}
use anomaly_metric_creator.Mutations.Methods.{
  EventKey, WorkloadChange, no_change, set_workload, record_event, touch_first, same_event,
  touch_event,
}
use anomaly_metric_creator.Mutations.Requests.{Request, apply, serve}
use anomaly_metric_creator.Mutations.Commit.{IsSaved, IsWhole}
use anomaly_metric_creator.Mutations.Durable.{apply-IsSaved, serve-IsWhole}
use anomaly_metric_creator.Mutations.Events.{IsRing, serve-IsRing}
use anomaly_metric_creator.Mutations.Resources.{IsDisjoint, serve-IsDisjoint}
use anomaly_metric_creator.Mutations.Workloads.{
  AllWorkloads, serve-AllWorkloads, set_workload_grows, SameSpec,
}
use anomaly_metric_creator.Mutations.Versions.{version-apply}

abbrev noon : Datetime
noon = record { year = 2026; month = 7; day = 6; hour = 12; minute = 0; second = 0 }

abbrev overlay_path : String
overlay_path = "overlay.json"

-- A clean overlay with room for one event, saved at its path.
abbrev clean : SimulationMutations
clean = record (new_mutations (pos 1)) { persist_path = some overlay_path }

abbrev start : World
start = record { overlay = clean; files = (overlay_path, json (envelope clean)) ∷ []; faults = [] }

-- The next write fails.
abbrev failing : World
failing = record start { faults = Fault.replace_fails ∷ [] }

abbrev scale_to_three : WorkloadChange
scale_to_three = record no_change { replicas = some (pos 3) }

abbrev scaled : EventKey
scaled = record {
  event_type = "Normal";
  reason = "Scaled";
  namespace = "";
  object = "deployment/api";
  message = "scaled to 3";
}

abbrev requests : List (Request × Datetime)
requests =
    (Request.set_workload "api" scale_to_three, noon)
    ∷ (Request.record_event scaled, noon)
    ∷ (Request.record_event scaled, noon)
    ∷ (Request.put_resource "configmaps" "app" (("data", str "x") ∷ []) "", noon)
    ∷ (Request.delete_resource "configmaps" "app" "", noon)
    ∷ (Request.delete_pod "api-0", noon)
    ∷ []

start-IsWhole : (w : World) → w.overlay ≡ clean → w.files ≡ start.files → IsWhole w
unfolding lookup
start-IsWhole w e f path armed = (clean, ground (arith, e, f, armed))

returns :
    apply (Request.set_workload "api" scale_to_three) noon start
    ≡ (ok tt, (apply (Request.set_workload "api" scale_to_three) noon start).1)
unfolding apply set_workload ◌>>=◌ commit persist atomic_artifact_open lookup insert string_eq
    get_or
returns = refl

apply-IsSaved_example : IsSaved (apply (Request.set_workload "api" scale_to_three) noon start).1
apply-IsSaved_example =
    apply-IsSaved (Request.set_workload "api" scale_to_three) noon start
      (apply (Request.set_workload "api" scale_to_three) noon start).1 returns

serve-IsWhole_example : IsWhole (serve requests failing)
serve-IsWhole_example = serve-IsWhole requests failing (start-IsWhole failing refl refl)

serve-IsRing_example : IsRing (serve requests failing).overlay
serve-IsRing_example = serve-IsRing requests failing (record { bounded = omega arith; differ = tt })

serve-IsDisjoint_example : IsDisjoint (serve requests failing).overlay
serve-IsDisjoint_example =
    serve-IsDisjoint requests failing (λ kind key. inl (unfold lookup get_or in refl))

serve-AllWorkloads_example : AllWorkloads (serve requests failing).overlay
serve-AllWorkloads_example = serve-AllWorkloads requests failing (λ k m e. unfold lookup in cc)

version-apply_example :
    (apply (Request.set_workload "api" scale_to_three) noon start).1.overlay.version ≡ 1
version-apply_example =
    version-apply (Request.set_workload "api" scale_to_three) noon start
      (apply (Request.set_workload "api" scale_to_three) noon start).1 returns

abbrev api_scaled : WorkloadMutation
api_scaled = record new_workload {
  replicas = some (pos 3);
  generation = pos 2;
  observed_generation = pos 2;
  resource_version = pos 2;
  updated_at = "2026-07-06 12:00:00";
}

returns_workload :
    set_workload "api" scale_to_three noon start
    ≡ (ok api_scaled, (set_workload "api" scale_to_three noon start).1)
unfolding set_workload ◌>>=◌ commit persist atomic_artifact_open lookup insert string_eq get_or
    format_dt nat_eq ◌+ℤ◌
returns_workload = refl

set_workload_grows_example :
    let t = (set_workload "api" scale_to_three noon start).1 in
    let old = get_or "api" new_workload start.overlay.workloads in
    (lookup "api" t.overlay.workloads ≡ some api_scaled)
    × (old.resource_version <ℤ pos 2)
    × (pos t.overlay.version <ℤ pos 2)
    × ((SameSpec old api_scaled × (pos 2 ≡ old.generation))
        ⊎ ((¬ SameSpec old api_scaled) × (pos 2 ≡ old.generation +ℤ pos 1)))
    × ((other : String)
        → "api" ≢ other
        → lookup other t.overlay.workloads ≡ lookup other start.overlay.workloads)
set_workload_grows_example =
    set_workload_grows "api" scale_to_three noon start
      (set_workload "api" scale_to_three noon start).1 api_scaled returns_workload

raises : (commit failing).0 ≡ err os_error
unfolding commit persist atomic_artifact_open
raises = refl

-- A persisted count that is no number: the event bears the new time, and the request raises.
abbrev odd_event : Row
odd_event =
    ("type", str "Normal")
    ∷ ("reason", str "Scaled")
    ∷ ("object", str "deployment/api")
    ∷ ("message", str "scaled to 3")
    ∷ ("count", str "many")
    ∷ []

record_event_raises :
    (record_event scaled noon
      (record start { overlay = record clean { extra_events = odd_event ∷ [] } })).0
    ≡ err (value_error "many")
unfolding record_event lookup string_eq get_or insert int_of touch_first same_event is_text or_else
    touch_event int_of_text nat_eq
record_event_raises = refl
