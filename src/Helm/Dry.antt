-- ===== src/Helm/Dry.antt =====
-- The Helm commands that change nothing.
use mathlib.Core.Option.{some-ne-none}
use anomaly_metric_creator.Base.{◌≡◌, refl, Bool, true, false, Option, none, if◌then◌else◌}
use anomaly_metric_creator.Exec.{pure}
use anomaly_metric_creator.Exec.Keeps.{Keeps, Keeps-pure, Keeps-bind, keeps_rules}
use anomaly_metric_creator.OpsParse.{ParsedCommand}
use anomaly_metric_creator.Mutations.{World, Method}
use anomaly_metric_creator.Helm.{SimulationState}
use anomaly_metric_creator.Helm.Values.{is_dry_run}
use anomaly_metric_creator.Helm.Read.{CommandResult}
use anomaly_metric_creator.Helm.Commands.{render_helm_install, render_helm_upgrade, render_helm}
use anomaly_metric_creator.Helm.Effects.{Effect, unless, effect, render_helm-cases}

record Same (m : Method CommandResult) (e : Option Effect) : Type 0 where
  at : e ≡ none → (w : World) → Keeps (λ v. v ≡ w) m

Keeps-unless :
    (w : World) (dry : Bool) (m : Method (Unit {0})) (e : Effect)
    → unless dry e ≡ none
    → Keeps (λ v. v ≡ w) (if dry then pure tt else m)
Keeps-unless w true m e h = Keeps-pure tt
Keeps-unless w false m e h = absurd (some-ne-none _ h)

-- A command without an effect leaves the overlay, the files and the faults to come as they were: every
-- command that only reads or is not supported, and an install or an upgrade as a dry run.
pub render_helm-effect :
    (s : SimulationState) (p : ParsedCommand) (w : World)
    → effect p ≡ none
    → (render_helm s p w).1 ≡ w
unfolding render_helm_install render_helm_upgrade
render_helm-effect s p w h =
    ((render_helm-cases Same s p (λ r. record { at = λ h w. Keeps-pure r })
          (λ rule f. record { at = λ h w. search keeps_rules depth 8 })
          (record {
            at = λ h w.
                Keeps-bind _ _
                  (Keeps-bind _ _ (Keeps-unless w (is_dry_run p) _ _ h) (λ a. Keeps-pure _))
                  (λ a. Keeps-pure _);
          })
          (record {
            at = λ h w.
                Keeps-bind _ _
                  (Keeps-bind _ _ (Keeps-unless w (is_dry_run p) _ _ h)
                    (λ a. search keeps_rules depth 8))
                  (λ a. Keeps-pure _);
          })
          (record { at = λ h w. absurd (some-ne-none _ h) })
          (record { at = λ h w. absurd (some-ne-none _ h) })).at
        h w).at
      w refl
