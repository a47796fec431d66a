-- ===== src/Artifacts/Tests.antt =====
-- Runs of `_atomic_artifact_open`.
use anomaly_metric_creator.Base.{String, ◌≡◌, sym, some, [], ◌∷◌, string_eq}
use anomaly_metric_creator.Base.Dict.{lookup}
use anomaly_metric_creator.Artifacts.{Fault, Files, atomic_artifact_open}
use anomaly_metric_creator.Artifacts.Atomic.{tmp_path-ne, lookup-atomic_artifact_open}

abbrev two_files : Files String
two_files = ("a.csv", "old") ∷ ("b.csv", "other") ∷ []

lookup-atomic_artifact_open_example :
    lookup "a.csv" (atomic_artifact_open Fault.body_fails "a.csv" "ne" "new" two_files).1
    ≡ some "old"
unfolding atomic_artifact_open lookup string_eq
lookup-atomic_artifact_open_example =
    lookup-atomic_artifact_open Fault.body_fails "a.csv" "a.csv" "ne" "new" two_files
      (λ e. tmp_path-ne "a.csv" (sym e))
