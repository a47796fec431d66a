-- ===== src/Mutations/Durable.antt =====
-- The file that `--persist-mutations` names, after the mutators of server_mutations.py.
use anomaly_metric_creator.Base.{String, ◌≡◌, List, Option, none, some}
use anomaly_metric_creator.Exec.{Result, ok, err}
use anomaly_metric_creator.Exec.Keeps.{Establishes, Establishes-bind, Establishes-bind_pure}
use anomaly_metric_creator.Json.{Row}
use anomaly_metric_creator.Mutations.{World, Datetime, commit}
use anomaly_metric_creator.Mutations.Methods.{
  EventKey, WorkloadChange, finish_event, record_event, set_workload, delete_pod, put_pod,
  put_created, put_deleted, put_resource, delete_resource, reset, set_revisions, set_release_values,
  replace_release_values,
}
use anomaly_metric_creator.Mutations.Commit.{IsSaved, IsWhole, Establishes-commit, IsWhole-commit}
use anomaly_metric_creator.Mutations.Requests.{Request, apply, serve}
use anomaly_metric_creator.Mutations.Closed.{Closed, serve-Keeps}

finish_event-Establishes :
    (k : EventKey) (timestamp : String) (o : Option (Result (Unit {0}) × List Row))
    → Establishes IsSaved (finish_event k timestamp o)
unfolding finish_event
finish_event-Establishes k timestamp none = record { at = λ s t e. Establishes-commit.at _ t e }
finish_event-Establishes k timestamp (some (ok _, touched)) = record {
  at = λ s t e. Establishes-commit.at _ t e;
}
finish_event-Establishes k timestamp (some (err x, touched)) = record { at = λ s t e. cc }

record_event-Establishes :
    (k : EventKey) (now : Datetime) → Establishes IsSaved (record_event k now)
unfolding record_event
record_event-Establishes k now = record { at = λ s t e. (finish_event-Establishes _ _ _).at s t e }

set_workload-Establishes :
    (component : String) (c : WorkloadChange) (now : Datetime)
    → Establishes IsSaved (set_workload component c now)
unfolding set_workload
set_workload-Establishes component c now = record {
  at = λ s t e. (Establishes-bind_pure commit _ Establishes-commit).at _ t e;
}

ruleset saving_rules =
    (Establishes-bind, Establishes-bind_pure, record_event-Establishes, set_workload-Establishes)

apply-Establishes : (r : Request) (now : Datetime) → Establishes IsSaved (apply r now)
unfolding apply delete_pod put_resource delete_resource reset set_revisions set_release_values
    replace_release_values
apply-Establishes (Request.record_event k) now = search saving_rules
apply-Establishes (Request.set_workload component c) now = search saving_rules
apply-Establishes (Request.delete_pod pod) now = search saving_rules depth 8
apply-Establishes (Request.put_resource kind name row namespace) now = search saving_rules depth 8
apply-Establishes (Request.delete_resource kind name namespace) now = search saving_rules depth 8
apply-Establishes _ now = record { at = λ s t e. Establishes-commit.at _ t e }

-- If a mutator returns, the armed file holds the envelope of the overlay as it then is, whatever
-- the files, the overlay and the faults to come were before.
pub apply-IsSaved :
    (r : Request) (now : Datetime) (w t : World) → apply r now w ≡ (ok tt, t) → IsSaved t
apply-IsSaved r now w t e = (apply-Establishes r now).at w t e

IsWhole-Closed : Closed IsWhole
IsWhole-Closed = record {
  at_commit = IsWhole-commit;
  at_new_event = λ k timestamp w h e. h;
  at_touched = λ k timestamp r touched w h e. h;
  at_workload = λ component c now w h. h;
  at_pod = λ pod w h. unfold put_pod in h;
  at_put = λ kind key row w h. unfold put_created in h;
  at_delete = λ kind key w h. unfold put_deleted in h;
  at_reset = λ w h. h;
  at_release = λ f w h. h;
}

-- Whatever is asked of the overlay and whatever write fails in between, a file that held the
-- envelope of an overlay does so still: it is never torn and never gone.
pub serve-IsWhole :
    (requests : List (Request × Datetime)) (w : World) → IsWhole w → IsWhole (serve requests w)
serve-IsWhole = serve-Keeps IsWhole-Closed
