-- ===== src/Artifacts/Atomic.antt =====
-- What `_atomic_artifact_open` leaves on disk, whatever fails.
use Prim.Native.String.{count, ◌++◌ as ◌<>◌}
use text.Mathlib.TextLemmas.{length-append}
use anomaly_metric_creator.Base.{
  String, ◌≡◌, ◌≢◌, ap, Option, some, ◌==◌, string_eq, arith, if◌then◌else◌,
}
use anomaly_metric_creator.Base.Dict.{insert, erase, lookup, lookup-insert, lookup-erase}
use anomaly_metric_creator.Exec.{Result, ok, err}
use anomaly_metric_creator.Artifacts.{Fault, Files, atomic_artifact_open, atomic_tmp_suffix}

abbrev pub tmp_path : String → String
tmp_path path = path <> atomic_tmp_suffix

pub tmp_path-ne : (path : String) → tmp_path path ≢ path
tmp_path-ne path e = omega (arith, ap count e, length-append path ".tmp")

-- What a reader finds at `path` after the write: the new content if it returned, and what stood
-- there before if it raised.
abbrev pub published : {C : Type 0} → Result (Unit {0}) → C → Option C → Option C
published (ok _) content before = some content
published (err _) content before = before

-- Whatever fails, and whatever was on disk: the path holds the whole new content if the write
-- returned and its old content if it raised, and every other path but the temporary sibling is as
-- it was.
pub lookup-atomic_artifact_open :
    {C : Type 0} (fault : Fault) (path j : String) (partial content : C) (files : Files C)
    → j ≢ tmp_path path
    → lookup j (atomic_artifact_open fault path partial content files).1 ≡ (
        if path == j
        then published
            (atomic_artifact_open fault path partial content files).0
            content
            (lookup j files)
        else lookup j files)
unfolding atomic_artifact_open
lookup-atomic_artifact_open Fault.open_fails path j partial content files h = ground arith
lookup-atomic_artifact_open Fault.body_fails path j partial content files h = ground (
  arith,
  lookup-erase j (tmp_path path) (insert (tmp_path path) partial files),
  lookup-insert j (tmp_path path) partial files,
)
lookup-atomic_artifact_open Fault.replace_fails path j partial content files h =
    ground (arith, lookup-insert j (tmp_path path) content files)
lookup-atomic_artifact_open Fault.no_fault path j partial content files h =
    let tmp = tmp_path path in
    let opened = insert tmp content files in
    ground (
      arith,
      lookup-insert tmp tmp content files,
      lookup-insert j path content (erase tmp opened),
      lookup-erase j tmp opened,
      lookup-insert j tmp content files,
    )
