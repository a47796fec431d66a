-- ===== src/Artifacts.antt =====
-- artifacts.py: publication of a generated file through a temporary sibling and `os.replace`.
pub mod Atomic
pub mod Tests
use Prim.Native.String.{◌++◌ as ◌<>◌}
use anomaly_metric_creator.Base.{String, Option, none, some, List, [], ◌∷◌}
use anomaly_metric_creator.Base.Dict.{Dict, insert, erase, lookup}
use anomaly_metric_creator.Exec.{Result, ok, err, os_error}

abbrev pub atomic_tmp_suffix : String
atomic_tmp_suffix = ".tmp"

-- Where the operating system fails during one atomic write, if it does.
pub data Fault : Type 0 where
  no_fault open_fails body_fails replace_fails : Fault

-- The files by path. Only whole contents can be read, since a reader of a path that is not being
-- written sees the last `os.replace`.
abbrev pub Files : Type 0 → Type 0
Files C = Dict C

-- `os.replace(tmp_path, path)`.
replace : {C : Type 0} → String → String → Files C → Files C
replace tmp path files = elim (lookup tmp files) [
  | none ↦ files
  | some c ↦ insert path c (erase tmp files)
]

-- `_atomic_artifact_open` around a body that writes `content`. `partial` is what stands in the
-- temporary file when the body, the flush or the fsync fails.
unfoldable pub atomic_artifact_open :
    {C : Type 0} → Fault → String → C → C → Files C → Result (Unit {0}) × Files C
unfolding replace
atomic_artifact_open open_fails path partial content files = (err os_error, files)
atomic_artifact_open body_fails path partial content files =
    let tmp = path <> atomic_tmp_suffix in
    let opened = insert tmp partial files in (err os_error, erase tmp opened)
atomic_artifact_open replace_fails path partial content files =
    (err os_error, insert (path <> atomic_tmp_suffix) content files)
atomic_artifact_open no_fault path partial content files =
    let tmp = path <> atomic_tmp_suffix in (ok tt, replace tmp path (insert tmp content files))
