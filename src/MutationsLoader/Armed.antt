-- ===== src/MutationsLoader/Armed.antt =====
-- What a start leaves of the overlay, and what it refuses.
use anomaly_metric_creator.Base.{
  String, ◌≡◌, refl, ap, sym, ◌∙◌, List, [], none, some, ℤ, arith, Option-cases, inl, inr,
}
use anomaly_metric_creator.Artifacts.{atomic_artifact_open}
use anomaly_metric_creator.Base.Dict.{lookup}
use anomaly_metric_creator.Exec.{
  Result, ok, err, value_error, key_error, type_error, index_error, os_error, overflow_error, ◌>>=◌,
  ◌>>◌, pure,
}
use anomaly_metric_creator.Exec.Keeps.{
  Establishes, Establishes-bind, Establishes-bind_pure, established,
}
use anomaly_metric_creator.Json.{Content, json}
use anomaly_metric_creator.Mutations.{
  World, Method, SimulationMutations, envelope, update, persist, attach_persistence,
}
use anomaly_metric_creator.Mutations.Commit.{overlay-persist, files-persist}
use anomaly_metric_creator.MutationsLoader.{arm_persistence, convert_os_error}
use anomaly_metric_creator.MutationsLoader.Hydrate.{
  load_persisted_mutations, start_clean, restore, read_payload,
}
use anomaly_metric_creator.MutationsLoader.RoundTrip.{
  restored, hydrate-serialized, open_envelope-envelope,
}
use anomaly_metric_creator.MutationsLoader.Restored.{
  SameOverlay, IsRestorable, SameOverlay-restored,
}

-- The overlay writes itself to the path, and stands there.
abbrev pub IsArmed : String → World → Type 0
IsArmed path w =
    (w.overlay.persist_path ≡ some path) × (lookup path w.files ≡ some (json (envelope w.overlay)))

armed_at : String → World → World
armed_at path w = update (λ m. record m { persist_path = some path }) w

ok_of-convert :
    (path : String) (r : Result (Unit {0})) → convert_os_error path r ≡ ok tt → r ≡ ok tt
unfolding convert_os_error
ok_of-convert path (ok _) e = refl
ok_of-convert path (err (value_error _)) e = cc
ok_of-convert path (err (key_error _)) e = cc
ok_of-convert path (err type_error) e = cc
ok_of-convert path (err index_error) e = cc
ok_of-convert path (err os_error) e = cc
ok_of-convert path (err overflow_error) e = cc

IsArmed-persist :
    (path : String) (w : World)
    → w.overlay.persist_path ≡ some path
    → (persist w).0 ≡ ok tt
    → IsArmed path (persist w).1
IsArmed-persist path w armed e =
    (rw (overlay-persist w) armed, ground (arith, e, overlay-persist w, files-persist w path armed))

Establishes-arm_persistence : (path : String) → Establishes (IsArmed path) (arm_persistence path)
unfolding arm_persistence attach_persistence armed_at
Establishes-arm_persistence path = record {
  at = λ s t e.
      let w = armed_at path s in
      let returned : (persist w).0 ≡ ok tt = ok_of-convert path (persist w).0 (ap (λ x. x.0) e) in
      rw (← ap (λ x. x.1) e) (IsArmed-persist path w refl returned);
}

Establishes-start_clean :
    (path : String) (limit : ℤ) → Establishes (IsArmed path) (start_clean path limit)
unfolding start_clean
Establishes-start_clean path limit =
    Establishes-bind _ _ λ _. Establishes-bind_pure _ [] (Establishes-arm_persistence path)

Establishes-restore :
    (path : String) (known : List String) (limit : ℤ) (content : Content)
    → Establishes (IsArmed path) (restore path known limit content)
unfolding restore
Establishes-restore path known limit content = Establishes-bind _ _ λ value.
    Establishes-bind _ _ λ state.
      Establishes-bind _ _ λ x.
        Establishes-bind _ _ λ _. Establishes-bind_pure _ x.1 (Establishes-arm_persistence path)

load_missing :
    (path : String) (known : List String) (limit : ℤ) (w : World)
    → lookup path w.files ≡ none
    → load_persisted_mutations path known limit w ≡ start_clean path limit w
unfolding load_persisted_mutations
load_missing path known limit w e = rw (e, load_persisted_mutations) refl

load_found :
    (path : String) (known : List String) (limit : ℤ) (w : World) (content : Content)
    → lookup path w.files ≡ some content
    → load_persisted_mutations path known limit w ≡ restore path known limit content w
unfolding load_persisted_mutations
load_found path known limit w content e = rw (e, load_persisted_mutations) refl

Establishes-load_persisted_mutations :
    (path : String) (known : List String) (limit : ℤ)
    → Establishes (IsArmed path) (load_persisted_mutations path known limit)
Establishes-load_persisted_mutations path known limit = record {
  at = λ s t e. elim (Option-cases (lookup path s.files)) [
    | inl missing ↦
        (Establishes-start_clean path limit).at s t
          (sym (load_missing path known limit s missing) ∙ e)
    | inr (content, found) ↦
        (Establishes-restore path known limit content).at s t
          (sym (load_found path known limit s content found) ∙ e)
  ];
}

-- A start that returns has armed persistence: the overlay writes itself to the path from then on,
-- and the file there is what the overlay is, whatever stood in it before.
pub load_persisted_mutations-IsArmed :
    (path : String) (known : List String) (limit : ℤ) (w : World) {notes : List String}
    → (load_persisted_mutations path known limit w).0 ≡ ok notes
    → IsArmed path (load_persisted_mutations path known limit w).1
load_persisted_mutations-IsArmed path known limit w e =
    established (Establishes-load_persisted_mutations path known limit) w e

-- The run from an overlay that was read, where no write fails.
abbrev armed_overlay : String → SimulationMutations → SimulationMutations
armed_overlay path o = record o { persist_path = some path }

abbrev arm_and_return : String → Method (List String)
arm_and_return path = arm_persistence path >> pure []

restore-envelope :
    (path : String) (known : List String) (limit : ℤ) (o : SimulationMutations) (w : World)
    → IsRestorable known limit o
    → restore path known limit (json (envelope o)) w
      ≡ arm_and_return path (update (λ _. restored limit o) w)
unfolding restore ◌>>=◌ read_payload
restore-envelope path known limit o w r =
    rw
      (open_envelope-envelope, hydrate-serialized path known limit o r.known_workloads r.known_pods)
      refl

persist_no_fault : (w : World) → w.faults ≡ [] → (persist w).0 ≡ ok tt
unfolding persist atomic_artifact_open
persist_no_fault w e = ground (arith, e)

arm_no_fault :
    (path : String) (w : World)
    → w.faults ≡ []
    → ((arm_and_return path w).0 ≡ ok [])
      × ((arm_and_return path w).1.overlay ≡ armed_overlay path w.overlay)
unfolding arm_persistence attach_persistence armed_at ◌>>=◌ convert_os_error
arm_no_fault path w e =
    let t = armed_at path w in ground (arith, persist_no_fault t e, overlay-persist t)

-- Where the file holds what a commit wrote of an overlay that can be restored whole, and no write
-- fails, a start returns with nothing dropped, and its overlay answers every question as that one.
pub load_persisted_mutations-envelope :
    (path : String) (known : List String) (limit : ℤ) (o : SimulationMutations) (w : World)
    → lookup path w.files ≡ some (json (envelope o))
    → IsRestorable known limit o
    → w.faults ≡ []
    → ((load_persisted_mutations path known limit w).0 ≡ ok [])
      × SameOverlay (load_persisted_mutations path known limit w).1.overlay o
load_persisted_mutations-envelope path known limit o w found r e =
    let (returned, overlay) = arm_no_fault path (update (λ _. restored limit o) w) e in
    rw
      (
        load_found path known limit w (json (envelope o)) found,
        restore-envelope path known limit o w r,
      )
      (
        returned,
        rw overlay
            (same_armed path (restored limit o) o (SameOverlay-restored path known limit o r)),
      )
  where
    same_armed :
        (path : String) (p o : SimulationMutations)
        → SameOverlay p o
        → SameOverlay (armed_overlay path p) o
    same_armed path p o s = record {
      same_workloads = s.same_workloads;
      same_pods = s.same_pods;
      same_rows = s.same_rows;
      same_deleted = s.same_deleted;
      same_events = s.same_events;
      same_release = s.same_release;
      same_version = s.same_version;
    }
