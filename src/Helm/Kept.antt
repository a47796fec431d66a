-- ===== src/Helm/Kept.antt =====
-- The release in the overlay tells a log: what the Helm commands so far mean for its history.
use anomaly_metric_creator.Base.{
  String, string_eq, ◌≡◌, refl, sym, ap, subst, Bool, true, false, List, [], ◌∷◌, Option, none,
  some, if◌then◌else◌,
}
use anomaly_metric_creator.Base.Dict.{Dict}
use anomaly_metric_creator.Exec.{Result, ok, err}
use anomaly_metric_creator.Exec.Keeps.{Keeps, Keeps-pure}
use anomaly_metric_creator.Json.{Row}
use anomaly_metric_creator.OpsParse.{ParsedCommand}
use anomaly_metric_creator.Mutations.{
  World, SimulationMutations, HelmReleaseMutation, Datetime, commit,
}
use anomaly_metric_creator.Mutations.Methods.{
  EventKey, finish_event, record_event, set_revisions, set_release_values, replace_release_values,
  current_revisions, touch_first,
}
use anomaly_metric_creator.Mutations.Commit.{overlay-commit}
use anomaly_metric_creator.Helm.{SimulationState, base_revisions, helm_release_revisions}
use anomaly_metric_creator.Helm.Values.{has_flag, helm_value_overrides}
use anomaly_metric_creator.Helm.Commands.{set_given_values, apply_values}
use anomaly_metric_creator.Helm.History.{
  Line, rows_from, descriptions, Current, base_lines, base_revisions-lines, Current-base,
}
use anomaly_metric_creator.Helm.Effects.{Log, told}

-- The rows are the lines of a history with these descriptions.
abbrev pub Stored : List String → Bool → List Row → Type 0
Stored ds uninstalled rows =
    (es : List Line) × (rows ≡ rows_from 1 es) × (descriptions es ≡ ds) × Current uninstalled es

abbrev pub Recorded : Option (List String) → Bool → Option (List Row) → Type 0
Recorded none uninstalled none = uninstalled ≡ false
Recorded (some ds) uninstalled (some rows) = Stored ds uninstalled rows
Recorded _ _ _ = ⊥

abbrev pub Tells : Log → World → Type 0
Tells (ds, u) w = (w.overlay.release.uninstalled ≡ u) × Recorded ds u w.overlay.release.revisions

-- What the commands read is the log, also before the first change.
pub Stored-helm_release_revisions :
    (s : SimulationState) (ds : Option (List String)) (u : Bool) (w : World)
    → Tells (ds, u) w
    → Stored (told s ds) u (helm_release_revisions s w.overlay)
unfolding helm_release_revisions current_revisions
Stored-helm_release_revisions s ds u w h = by_case ds w.overlay.release.revisions h.1
  where
    by_case :
        (ds : Option (List String)) (r : Option (List Row))
        → Recorded ds u r
        → Stored (told s ds) u (elim r [ none ↦ base_revisions s | some l ↦ l ])
    by_case none none h = (
      base_lines s,
      base_revisions-lines s,
      refl,
      subst (λ v. Current v (base_lines s)) (sym h) (Current-base s),
    )
    by_case (some ds) (some rows) h = h
    by_case none (some _) h = elim h [ ]
    by_case (some _) none h = elim h [ ]

release-commit : (w : World) → (commit w).1.overlay.release ≡ w.overlay.release
release-commit w = ap SimulationMutations.release (overlay-commit w)

release-finish_event :
    (k : EventKey) (timestamp : String) (o : Option (Result (Unit {0}) × List Row)) (w : World)
    → (finish_event k timestamp o w).1.overlay.release ≡ w.overlay.release
unfolding finish_event
release-finish_event k timestamp none w = release-commit _
release-finish_event k timestamp (some (ok _, touched)) w = release-commit _
release-finish_event k timestamp (some (err _, touched)) w = refl

abbrev TellsOf : Log → HelmReleaseMutation → Type 0
TellsOf (ds, u) r = (r.uninstalled ≡ u) × Recorded ds u r.revisions

pub Tells-record_event :
    (l : Log) (k : EventKey) (now : Datetime) → Keeps (Tells l) (record_event k now)
unfolding record_event
Tells-record_event l k now = record {
  at = λ w h.
      subst (TellsOf l) (sym (release-finish_event _ _ (touch_first _ _ w.overlay.extra_events) w))
        h;
}

Tells-replace_release_values :
    (l : Log) (values : Dict String) (now : Datetime)
    → Keeps (Tells l) (replace_release_values values now)
unfolding replace_release_values
Tells-replace_release_values l values now = record {
  at = λ w h. subst (TellsOf l) (sym (release-commit _)) h;
}

pub Tells-set_given_values :
    (l : Log) (values : Dict String) (s : SimulationState)
    → Keeps (Tells l) (set_given_values values s)
unfolding set_given_values set_release_values
Tells-set_given_values l [] s = Keeps-pure tt
Tells-set_given_values l (v ∷ vs) s = record {
  at = λ w h. subst (TellsOf l) (sym (release-commit _)) h;
}

pub Tells-apply_values :
    (l : Log) (s : SimulationState) (p : ParsedCommand) → Keeps (Tells l) (apply_values s p)
unfolding apply_values
Tells-apply_values l s p = by_case (has_flag "--reset-values" p)
  where
    by_case :
        (b : Bool)
        → Keeps (Tells l) (
            if b
            then replace_release_values (helm_value_overrides p) s.now
            else set_given_values (helm_value_overrides p) s)
    by_case true = Tells-replace_release_values l _ _
    by_case false = Tells-set_given_values l _ _

-- What `set_revisions` stores is a history.
pub Tells-set_revisions :
    (rows : List Row) (now : Datetime) (ds : List String) (u : Bool) (w : World)
    → Stored ds u rows
    → Tells (some ds, u) (set_revisions rows now u w).1
unfolding set_revisions
Tells-set_revisions rows now ds u w h =
    subst (TellsOf (some ds, u)) (sym (release-commit _)) (refl, h)
