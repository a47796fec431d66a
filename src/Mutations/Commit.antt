-- ===== src/Mutations/Commit.antt =====
-- What `_persist_locked` and `_commit_locked` do, shared by the proofs about the mutators.
use anomaly_metric_creator.Base.{String, ◌+◌, ◌≡◌, refl, sym, Option, some, arith, string_eq}
use anomaly_metric_creator.Base.Dict.{lookup}
use anomaly_metric_creator.Exec.{Error, Result, ok, err}
use anomaly_metric_creator.Exec.Keeps.{Keeps, Establishes}
use anomaly_metric_creator.Json.{Content, json, not_json}
use anomaly_metric_creator.Artifacts.{Fault, Files, atomic_artifact_open}
use anomaly_metric_creator.Artifacts.Atomic.{tmp_path-ne, published, lookup-atomic_artifact_open}
use anomaly_metric_creator.Mutations.{
  World, SimulationMutations, persist, commit, update, envelope, next_fault,
}

abbrev pub bumped : SimulationMutations → SimulationMutations
bumped o = record o { version = o.version + 1 }

pub overlay-persist : (w : World) → (persist w).1.overlay ≡ w.overlay
unfolding persist
overlay-persist w = ground arith

pub overlay-commit : (w : World) → (commit w).1.overlay ≡ bumped w.overlay
unfolding commit
overlay-commit w = overlay-persist _

-- The armed file holds what the overlay's envelope is.
abbrev pub IsSaved : World → Type 0
IsSaved w =
    (path : String)
    → w.overlay.persist_path ≡ some path
    → lookup path w.files ≡ some (json (envelope w.overlay))

-- The armed file holds the envelope of some overlay, whole.
abbrev pub IsWhole : World → Type 0
IsWhole w =
    (path : String)
    → w.overlay.persist_path ≡ some path
    → (o : SimulationMutations) × (lookup path w.files ≡ some (json (envelope o)))

write_at_path :
    (fault : Fault) (path : String) (content : Content) (files : Files Content)
    → lookup path (atomic_artifact_open fault path not_json content files).1
      ≡ published
          (atomic_artifact_open fault path not_json content files).0
          content
          (lookup path files)
write_at_path fault path content files = ground (
  arith,
  lookup-atomic_artifact_open fault path path not_json content files
      (λ e. tmp_path-ne path (sym e)),
)

-- Where persistence is armed, the file after the write, by its result.
pub files-persist :
    (w : World) (path : String)
    → w.overlay.persist_path ≡ some path
    → lookup path (persist w).1.files
      ≡ published (persist w).0 (json (envelope w.overlay)) (lookup path w.files)
unfolding persist
files-persist w path armed =
    ground (arith, write_at_path (next_fault w.faults) path (json (envelope w.overlay)) w.files)

-- A commit that returns has saved the overlay, whatever was on disk.
pub Establishes-commit : Establishes IsSaved commit
unfolding commit
Establishes-commit = record {
  at = λ s t e path armed.
      let w = update bumped s in
      ground (
        arith,
        e,
        overlay-persist w,
        files-persist w path (ground (arith, e, armed, overlay-persist w)),
      );
}

-- A commit that raises has left the file as it was, and the overlay a version ahead of it.
pub commit_raised :
    (w : World) {e : Error} (path : String)
    → (commit w).0 ≡ err e
    → w.overlay.persist_path ≡ some path
    → lookup path (commit w).1.files ≡ lookup path w.files
unfolding commit
commit_raised w path h armed = ground (arith, files-persist (update bumped w) path armed)

pub Keeps-commit :
    (P : SimulationMutations → Type 0)
    → ((o : SimulationMutations) → P o → P (bumped o))
    → Keeps (λ (w : World). P w.overlay) commit
Keeps-commit P k = record { at = λ w h. rw overlay-commit (k w.overlay h) }

whole_after :
    (r : Result (Unit {0})) (o : SimulationMutations) (before : Option Content)
    → ((o : SimulationMutations) × (before ≡ some (json (envelope o))))
    → (p : SimulationMutations) × (published r (json (envelope o)) before
        ≡ some (json (envelope p)))
whole_after (ok _) o before h = (o, refl)
whole_after (err _) o before h = h

pub IsWhole-persist : (w : World) → IsWhole w → IsWhole (persist w).1
IsWhole-persist w h path armed =
    let armed' : w.overlay.persist_path ≡ some path = rw (← overlay-persist w) armed in
    rw (files-persist w path armed')
      (whole_after (persist w).0 w.overlay (lookup path w.files) (h path armed'))

pub IsWhole-commit : Keeps IsWhole commit
unfolding commit
IsWhole-commit = record { at = λ w h. IsWhole-persist (update bumped w) h }
