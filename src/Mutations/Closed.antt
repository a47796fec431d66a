-- ===== src/Mutations/Closed.antt =====
-- The ways in which the mutators write the overlay, as the conditions under which all of them keep
-- an invariant.
use anomaly_metric_creator.Base.{String, ◌≡◌, refl, ◌++◌, List, [], ◌∷◌, Option, none, some}
use anomaly_metric_creator.Base.Dict.{insert, get_or}
use anomaly_metric_creator.Exec.{Result, ok, err, modify}
use anomaly_metric_creator.Exec.Keeps.{Keeps, Keeps-bind, Keeps-pure, Keeps-modify, keeps_rules}
use anomaly_metric_creator.Json.{Row}
use anomaly_metric_creator.Mutations.{
  World, SimulationMutations, HelmReleaseMutation, Datetime, update, commit, new_workload,
}
use anomaly_metric_creator.Mutations.Methods.{
  EventKey, WorkloadChange, touch_first, new_event, trim_events, with_events, finish_event,
  record_event, changed_workload, set_workload, put_pod, delete_pod, put_created, put_deleted,
  put_resource, delete_resource, cleared, reset, update_release, changed_revisions, changed_values,
  replaced_values, set_revisions, set_release_values, replace_release_values,
}
use anomaly_metric_creator.Mutations.Requests.{Request, apply, serve, serve_induction}

abbrev pub put_workload :
    String → WorkloadChange → Datetime → SimulationMutations → SimulationMutations
put_workload component c now o = record o {
  workloads =
      insert component
        (changed_workload c now o.version (get_or component new_workload o.workloads)) o.workloads;
}

pub record Closed (P : World → Type 0) : Type 0 where
  pub at_commit : Keeps P commit
  pub at_new_event :
      (k : EventKey) (timestamp : String) (w : World)
      → P w
      → touch_first k timestamp w.overlay.extra_events ≡ none
      → P (
          with_events
            (trim_events w.overlay.extra_event_limit
              (w.overlay.extra_events ++ new_event k timestamp ∷ []))
            w)
  pub at_touched :
      (k : EventKey) (timestamp : String) (r : Result (Unit {0})) (touched : List Row) (w : World)
      → P w
      → touch_first k timestamp w.overlay.extra_events ≡ some (r, touched)
      → P (with_events touched w)
  pub at_workload :
      (component : String) (c : WorkloadChange) (now : Datetime) (w : World)
      → P w
      → P (update (put_workload component c now) w)
  pub at_pod : (pod : String) (w : World) → P w → P (update (put_pod pod) w)
  pub at_put :
      (kind key : String) (row : Row) (w : World) → P w → P (update (put_created kind key row) w)
  pub at_delete : (kind key : String) (w : World) → P w → P (update (put_deleted kind key) w)
  pub at_reset : (w : World) → P w → P (update cleared w)
  pub at_release :
      (f : HelmReleaseMutation → HelmReleaseMutation) (w : World) → P w → P (update_release f w)

module _ {P : World → Type 0} (c : Closed P) where
  finish_event-Keeps :
      (k : EventKey) (timestamp : String) (o : Option (Result (Unit {0}) × List Row)) (w : World)
      → touch_first k timestamp w.overlay.extra_events ≡ o
      → P w
      → P (finish_event k timestamp o w).1
  unfolding finish_event
  finish_event-Keeps k timestamp none w e h = c.at_commit.at _ (c.at_new_event k timestamp w h e)
  finish_event-Keeps k timestamp (some (ok x, touched)) w e h =
      c.at_commit.at _ (c.at_touched k timestamp (ok x) touched w h e)
  finish_event-Keeps k timestamp (some (err x, touched)) w e h =
      c.at_touched k timestamp (err x) touched w h e

  record_event-Keeps : (k : EventKey) (now : Datetime) → Keeps P (record_event k now)
  unfolding record_event
  record_event-Keeps k now = record { at = λ w h. finish_event-Keeps _ _ _ w refl h }

  set_workload-Keeps :
      (component : String) (change : WorkloadChange) (now : Datetime)
      → Keeps P (set_workload component change now)
  unfolding set_workload
  set_workload-Keeps component change now = record {
    at = λ w h.
        (Keeps-bind commit _ c.at_commit (λ _. Keeps-pure _)).at _
          (c.at_workload component change now w h);
  }

  update-Keeps :
      (f : SimulationMutations → SimulationMutations)
      → ((w : World) → P w → P (update f w))
      → Keeps P (modify (update f))
  update-Keeps f k = Keeps-modify (update f) k

  pod-Keeps : (pod : String) → Keeps P (modify (update (put_pod pod)))
  pod-Keeps pod = update-Keeps (put_pod pod) (c.at_pod pod)

  put-Keeps : (kind key : String) (row : Row) → Keeps P (modify (update (put_created kind key row)))
  put-Keeps kind key row = update-Keeps (put_created kind key row) (c.at_put kind key row)

  delete-Keeps : (kind key : String) → Keeps P (modify (update (put_deleted kind key)))
  delete-Keeps kind key = update-Keeps (put_deleted kind key) (c.at_delete kind key)

  commit-Keeps : Keeps P commit
  commit-Keeps = c.at_commit

  ruleset step_rules = (
    keeps_rules, commit-Keeps, pod-Keeps, put-Keeps, delete-Keeps, set_workload-Keeps,
    record_event-Keeps,
  )

  delete_pod-Keeps : (pod : String) (now : Datetime) → Keeps P (delete_pod pod now)
  unfolding delete_pod
  delete_pod-Keeps pod now = search step_rules depth 8

  put_resource-Keeps :
      (kind name : String) (row : Row) (now : Datetime) (namespace : String)
      → Keeps P (put_resource kind name row now namespace)
  unfolding put_resource
  put_resource-Keeps kind name row now namespace = search step_rules depth 8

  delete_resource-Keeps :
      (kind name : String) (now : Datetime) (namespace : String)
      → Keeps P (delete_resource kind name now namespace)
  unfolding delete_resource
  delete_resource-Keeps kind name now namespace = search step_rules depth 8

  pub apply-Keeps : (r : Request) (now : Datetime) → Keeps P (apply r now)
  unfolding apply reset set_revisions set_release_values replace_release_values
  apply-Keeps (Request.record_event k) now = record_event-Keeps k now
  apply-Keeps (Request.set_workload component change) now = search step_rules
  apply-Keeps (Request.delete_pod pod) now = delete_pod-Keeps pod now
  apply-Keeps (Request.put_resource kind name row namespace) now =
      put_resource-Keeps kind name row now namespace
  apply-Keeps (Request.delete_resource kind name namespace) now =
      delete_resource-Keeps kind name now namespace
  apply-Keeps Request.reset now = record { at = λ w h. c.at_commit.at _ (c.at_reset w h) }
  apply-Keeps (Request.set_revisions revisions uninstalled) now = record {
    at = λ w h. commit-Keeps.at _ (c.at_release (changed_revisions revisions now uninstalled) w h);
  }
  apply-Keeps (Request.set_release_values values) now = record {
    at = λ w h. commit-Keeps.at _ (c.at_release (changed_values values now) w h);
  }
  apply-Keeps (Request.replace_release_values values) now = record {
    at = λ w h. commit-Keeps.at _ (c.at_release (replaced_values values now) w h);
  }

  pub serve-Keeps : (requests : List (Request × Datetime)) (w : World) → P w → P (serve requests w)
  serve-Keeps = serve_induction apply-Keeps
