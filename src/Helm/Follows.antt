-- ===== src/Helm/Follows.antt =====
-- Every Helm command changes the log as its effect says, also where it raises.
use Prim.Native.String.{◌++◌ as ◌<>◌}
use anomaly_metric_creator.Base.{
  String, string_eq, refl, ap, ◌∙◌, Bool, true, false, [], ◌∷◌, ◌++◌, map, Option, none, some,
  if◌then◌else◌,
}
use anomaly_metric_creator.Exec.{◌>>=◌, pure}
use anomaly_metric_creator.Exec.Keeps.{Keeps, Keeps-pure, Keeps-continue, keeps_rules}
use anomaly_metric_creator.OpsParse.{ParsedCommand}
use anomaly_metric_creator.Mutations.{World, Method}
use anomaly_metric_creator.Mutations.Methods.{set_revisions}
use anomaly_metric_creator.Helm.{SimulationState}
use anomaly_metric_creator.Helm.Values.{is_dry_run}
use anomaly_metric_creator.Helm.Commands.{
  add_revision, end_release, apply_install, apply_upgrade, render_helm_install, render_helm_upgrade,
  render_helm_rollback, helm_uninstall, render_helm, install_revisions, release_name,
}
use anomaly_metric_creator.Helm.History.{
  marked_line, retired, mark-rows_from, next_revisions-rows_from, Current-retired,
  Current-uninstalled, descriptions-marked, descriptions-append,
}
use anomaly_metric_creator.Helm.Effects.{
  Effect, begins, adds, ends, unless, effect, Log, told, after, render_helm-cases,
}
use anomaly_metric_creator.Helm.Kept.{
  Tells, Stored-helm_release_revisions, Tells-record_event, Tells-set_given_values,
  Tells-apply_values, Tells-set_revisions,
}

-- A method has an effect on the log of every world that tells it.
pub record Follows {A : Type 0} (s : SimulationState) (m : Method A) (e : Option Effect)
    : Type 0 where
  pub at : (l : Log) (w : World) → Tells l w → Tells (after s e l) (m w).1

Follows-bind :
    {A B : Type 0} (s : SimulationState) (m : Method A) (f : A → Method B) (e : Option Effect)
    → Follows s m e
    → ((l : Log) (a : A) → Keeps (Tells l) (f a))
    → Follows s (m >>= f) e
unfolding ◌>>=◌
Follows-bind s m f e fm kf = record {
  at = λ l w h. Keeps-continue f (kf (after s e l)) (m w).0 (m w).1 (fm.at l w h);
}

Follows-none :
    {A : Type 0} (s : SimulationState) (m : Method A)
    → ((l : Log) → Keeps (Tells l) m)
    → Follows s m none
Follows-none s m k = record { at = λ l w h. (k l).at w h }

Follows-add_revision :
    (s : SimulationState) (d : String) → Follows s (add_revision s d) (some (adds d))
unfolding add_revision ◌>>=◌
Follows-add_revision s d = record {
  at = λ (ds, u) w h.
      let (es, e, e', c) = Stored-helm_release_revisions s ds u w h in
      rw (e, next_revisions-rows_from d es)
        (Tells-set_revisions _ s.now (told s ds ++ d ∷ []) false w (
          retired es ++ ("deployed", d) ∷ [],
          refl,
          descriptions-append (retired es) (("deployed", d) ∷ [])
              ∙ ap (λ x. x ++ d ∷ []) (descriptions-marked "superseded" es ∙ e'),
          Current-retired d es,
        ));
}

Follows-end_release : (s : SimulationState) → Follows s (end_release s) (some ends)
unfolding end_release ◌>>=◌
Follows-end_release s = record {
  at = λ (ds, u) w h.
      let (es, e, e', c) = Stored-helm_release_revisions s ds u w h in
      rw (e, mark-rows_from "uninstalled" 1 es)
        (Tells-set_revisions _ s.now (told s ds) true w (
          map (marked_line "uninstalled") es,
          refl,
          descriptions-marked "uninstalled" es ∙ e',
          Current-uninstalled u es c,
        ));
}

Follows-set_revisions-install :
    (s : SimulationState) (p : ParsedCommand)
    → Follows s
        (set_revisions (install_revisions (release_name p)) s.now false)
        (some (begins ("Install applied to " <> release_name p)))
unfolding string_eq
Follows-set_revisions-install s p = record {
  at = λ (ds, u) w h.
      let d = "Install applied to " <> release_name p in
      Tells-set_revisions _ s.now (d ∷ []) false w (("deployed", d) ∷ [], refl, refl, refl);
}

Follows-unless :
    (s : SimulationState) (dry : Bool) (m : Method (Unit {0})) (e : Effect)
    → Follows s m (some e)
    → Follows s (if dry then pure tt else m) (unless dry e)
Follows-unless s true m e f = Follows-none s (pure tt) (λ l. Keeps-pure tt)
Follows-unless s false m e f = f

ruleset tells_rules = (keeps_rules, Tells-record_event, Tells-set_given_values, Tells-apply_values)

Follows-apply_install :
    (s : SimulationState) (p : ParsedCommand)
    → Follows s (apply_install s p) (some (begins ("Install applied to " <> release_name p)))
unfolding apply_install
Follows-apply_install s p =
    Follows-bind s _ _ _ (Follows-set_revisions-install s p) (λ l a. search tells_rules depth 8)

Follows-apply_upgrade :
    (s : SimulationState) (p : ParsedCommand)
    → Follows s (apply_upgrade s p) (some (adds ("Upgrade applied to " <> release_name p)))
unfolding apply_upgrade
Follows-apply_upgrade s p =
    Follows-bind s _ _ _ (Follows-add_revision s _) (λ l a. search tells_rules depth 8)

-- Every command changes the log as its effect says.
pub Follows-render_helm :
    (s : SimulationState) (p : ParsedCommand) → Follows s (render_helm s p) (effect p)
unfolding render_helm_install render_helm_upgrade render_helm_rollback helm_uninstall
Follows-render_helm s p =
    render_helm-cases (Follows s) s p (λ r. Follows-none s _ (λ l. Keeps-pure r))
      (λ rule f. Follows-none s _ (λ l. search tells_rules depth 8))
      (Follows-bind s _ _ _
        (Follows-bind s _ _ _ (Follows-unless s (is_dry_run p) _ _ (Follows-apply_install s p))
          (λ l a. search tells_rules depth 8))
        (λ l a. Keeps-pure _))
      (Follows-bind s _ _ _
        (Follows-bind s _ _ _ (Follows-unless s (is_dry_run p) _ _ (Follows-apply_upgrade s p))
          (λ l a. search tells_rules depth 8))
        (λ l a. Keeps-pure _))
      (Follows-bind s _ _ _
        (Follows-bind s _ _ _ (Follows-add_revision s _) (λ l a. search tells_rules depth 8))
        (λ l a. Keeps-pure _))
      (Follows-bind s _ _ _
        (Follows-bind s _ _ _ (Follows-end_release s) (λ l a. search tells_rules depth 8))
        (λ l a. Keeps-pure _))
