-- ===== src/Mutations/Requests.antt =====
-- The mutators as one type of request, and a server that goes on after a request that raised.
use anomaly_metric_creator.Base.{String, Bool, List, [], ◌∷◌}
use anomaly_metric_creator.Base.Dict.{Dict}
use anomaly_metric_creator.Exec.{◌>>◌, pure}
use anomaly_metric_creator.Exec.Keeps.{Keeps}
use anomaly_metric_creator.Json.{Row}
use anomaly_metric_creator.Mutations.{World, Method, Datetime}
use anomaly_metric_creator.Mutations.Methods
use anomaly_metric_creator.Mutations.Methods.{EventKey, WorkloadChange}

pub data Request : Type 0 where
  record_event : EventKey → Request
  set_workload : String → WorkloadChange → Request
  delete_pod : String → Request
  put_resource : String → String → Row → String → Request
  delete_resource : String → String → String → Request
  reset : Request
  set_revisions : List Row → Bool → Request
  set_release_values replace_release_values : Dict String → Request

unfoldable pub apply : Request → Datetime → Method (Unit {0})
apply (record_event k) now = Methods.record_event k now
apply (set_workload component c) now = do Methods.set_workload component c now; pure tt
apply (delete_pod pod) now = Methods.delete_pod pod now
apply (put_resource kind name row namespace) now = Methods.put_resource kind name row now namespace
apply (delete_resource kind name namespace) now = Methods.delete_resource kind name now namespace
apply reset now = Methods.reset
apply (set_revisions revisions uninstalled) now = Methods.set_revisions revisions now uninstalled
apply (set_release_values values) now = Methods.set_release_values values now
apply (replace_release_values values) now = Methods.replace_release_values values now

unfoldable pub serve : List (Request × Datetime) → World → World
serve [] w = w
serve ((r, now) ∷ rest) w = serve rest (apply r now w).1

module _ {P : World → Type 0} (step : (r : Request) (now : Datetime) → Keeps P (apply r now)) where
  pub serve_induction :
      (requests : List (Request × Datetime)) (w : World) → P w → P (serve requests w)
  unfolding serve
  serve_induction [] w h = h
  serve_induction ((r, now) ∷ rest) w h =
      serve_induction rest (apply r now w).1 ((step r now).at w h)
