-- ===== src/Helm/Effects.antt =====
-- What a Helm command means for the history of the release, and how a proof about all commands is made
-- of one for each kind.
use Prim.Native.String.{◌++◌ as ◌<>◌}
use anomaly_metric_creator.Base.{
  String, Bool, true, false, ◌||◌, List, [], ◌∷◌, ◌++◌, Option, none, some, contains, ◌==◌,
  string_eq, if◌then◌else◌,
}
use anomaly_metric_creator.Base.Text.{or_else}
use anomaly_metric_creator.Exec.{Result, pure}
use anomaly_metric_creator.OpsParse.{ParsedCommand}
use anomaly_metric_creator.Mutations.{World, Method}
use anomaly_metric_creator.Helm.{SimulationState}
use anomaly_metric_creator.Helm.Values.{is_dry_run}
use anomaly_metric_creator.Helm.Read.{Output, CommandResult}
use anomaly_metric_creator.Helm.Commands.{
  release_name, rollback_target, reading, writing, helm_get, get_kinds, render_helm_install,
  render_helm_upgrade, render_helm_rollback, helm_uninstall, render_helm,
}
use anomaly_metric_creator.Helm.History.{descriptions, base_lines}

-- A history of one revision, one revision more, or the end of the release.
pub data Effect : Type 0 where
  begins adds : String → Effect
  ends : Effect

abbrev pub reading_verbs : List String
reading_verbs = "version" ∷ "env" ∷ "template" ∷ "list" ∷ "status" ∷ "history" ∷ "get" ∷ "test" ∷ []

abbrev pub unless : Bool → Effect → Option Effect
unless dry e = if dry then none else some e

unfoldable pub effect : ParsedCommand → Option Effect
unfolding or_else
effect p =
    if contains p.verb reading_verbs
    then none
    else if p.verb == "install"
    then unless (is_dry_run p) (begins ("Install applied to " <> release_name p))
    else if p.verb == "upgrade"
    then unless (is_dry_run p) (adds ("Upgrade applied to " <> release_name p))
    else if p.verb == "rollback"
    then some (adds ("Rollback to revision " <> rollback_target p))
    else if p.verb == "uninstall"
    then some ends
    else none

-- The descriptions of the revisions that are stored, and whether the release is uninstalled.
abbrev pub Log : Type 0
Log = Option (List String) × Bool

abbrev pub told : SimulationState → Option (List String) → List String
told s none = descriptions (base_lines s)
told s (some ds) = ds

abbrev pub after : SimulationState → Option Effect → Log → Log
after s none l = l
after s (some (begins d)) (ds, u) = (some (d ∷ []), false)
after s (some (adds d)) (ds, u) = (some (told s ds ++ d ∷ []), false)
after s (some ends) (ds, u) = (some (told s ds), true)

module _ (P : Method CommandResult → Option Effect → Type 0) where
  either :
      (b : Bool) {m n : Method CommandResult} {x y : Option Effect}
      → P m x
      → P n y
      → P (if b then m else n) (if b then x else y)
  either true pm pn = pm
  either false pm pn = pn

  either_read :
      (a b : Bool) (y : Option Effect) {m n : Method CommandResult}
      → P m none
      → P n (if b then none else y)
      → P (if a then m else n) (if (a || b) then none else y)
  either_read true b y pm pn = pm
  either_read false b y pm pn = pn

  either_none :
      (b : Bool) {m n : Method CommandResult} → P m none → P n none → P (if b then m else n) none
  either_none true pm pn = pm
  either_none false pm pn = pn

  -- Every command only reads, or is one of the four that may write.
  pub render_helm-cases :
      (s : SimulationState) (p : ParsedCommand)
      → ((r : CommandResult) → P (pure r) none)
      → ((rule : String) (f : World → Result Output) → P (reading rule f) none)
      → P
          (writing "helm.install" (render_helm_install s p))
          (unless (is_dry_run p) (begins ("Install applied to " <> release_name p)))
      → P
          (writing "helm.upgrade" (render_helm_upgrade s p))
          (unless (is_dry_run p) (adds ("Upgrade applied to " <> release_name p)))
      → P
          (writing "helm.rollback" (render_helm_rollback s p))
          (some (adds ("Rollback to revision " <> rollback_target p)))
      → P (writing "helm.uninstall" (helm_uninstall s p)) (some ends)
      → P (render_helm s p) (effect p)
  unfolding render_helm effect helm_get or_else
  render_helm-cases s p at_pure at_reading at_install at_upgrade at_rollback at_uninstall =
      either_read (p.verb == "version") _ _ (at_pure _) (
        either_read (p.verb == "env") _ _ (at_pure _) (
          either_read (p.verb == "template") _ _ (at_pure _) (
            either_read (p.verb == "list") _ _ (at_reading _ _) (
              either_read (p.verb == "status") _ _ (at_reading _ _) (
                either_read (p.verb == "history") _ _ (at_reading _ _) (
                  either_read (p.verb == "get") _ _
                    (either_none (contains p.resource_kind get_kinds) (at_reading _ _) (at_pure _))
                    (either_read (p.verb == "test") _ _ (at_pure _) (
                      either (p.verb == "install") at_install (
                        either (p.verb == "upgrade") at_upgrade (
                          either (p.verb == "rollback") at_rollback
                            (either (p.verb == "uninstall") at_uninstall (at_pure _))))))))))))
