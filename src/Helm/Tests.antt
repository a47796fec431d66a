-- ===== src/Helm/Tests.antt =====
-- A release that is upgraded, rolled back and uninstalled, beside one of which the writes fail.
use anomaly_metric_creator.Base.{
  String, ◌≡◌, refl, true, false, not, pos, length, List, [], ◌∷◌, none, some, ◌==◌, string_eq,
  nat_eq,
}
use anomaly_metric_creator.Base.Dict.{Dict, lookup}
use anomaly_metric_creator.Base.Text.{or_else}
use anomaly_metric_creator.Exec.{ok}
use anomaly_metric_creator.OpsParse.{FlagValue, flag, ParsedCommand}
use anomaly_metric_creator.Mutations.{World, new_mutations}
use anomaly_metric_creator.Helm.{SimulationState, profiles_of, HelmRelease, helm_release}
use anomaly_metric_creator.Helm.Values.{is_dry_run}
use anomaly_metric_creator.Helm.Commands.{render_helm}
use anomaly_metric_creator.Helm.History.{base_lines}
use anomaly_metric_creator.Helm.Effects.{Log, effect, told}
use anomaly_metric_creator.Helm.Kept.{Tells}
use anomaly_metric_creator.Helm.Told.{
  serve_helm, told_by, serve_helm-Tells, helm_release-serve_helm,
}
use anomaly_metric_creator.Helm.Dry.{render_helm-effect}

abbrev state : SimulationState
state = record {
  namespace = "saas-prod";
  components = "api" ∷ [];
  active_scenarios = [];
  eval_mode = false;
  scenario_profiles = [];
  now = record { year = 2026; month = 3; day = 9; hour = 1; minute = 2; second = 3 };
}

abbrev helm : String → Dict FlagValue → ParsedCommand
helm verb flags = record {
  raw_input = "";
  argv = [];
  family = "helm";
  verb = verb;
  resource_kind = "release";
  resource_name = "shop";
  namespace = "saas-prod";
  flags = flags;
  positionals = "helm" ∷ verb ∷ [];
  parse_error = "";
}

abbrev world : World
world = record { overlay = new_mutations (pos 10); files = []; faults = [] }

abbrev commands : List (SimulationState × ParsedCommand)
commands =
    (state, helm "upgrade" []) ∷ (state, helm "rollback" []) ∷ (state, helm "uninstall" []) ∷ []

abbrev untouched : Log
untouched = (none, false)

log : told_by commands untouched ≡ (
  some (
      "Install complete" ∷ "Baseline config" ∷ "Upgrade applied to shop"
      ∷ "Rollback to revision previous" ∷ []),
  true,
)
unfolding effect base_lines string_eq is_dry_run lookup or_else profiles_of
log = refl

serve_helm-Tells_example : Tells (told_by commands untouched) (serve_helm commands world)
serve_helm-Tells_example = serve_helm-Tells commands untouched world (refl, refl)

helm_release-serve_helm_example :
    (r : HelmRelease) × (helm_release state (serve_helm commands world).overlay ≡ ok r)
    × (r.revision ≡ pos (length (told state (told_by commands untouched).0)))
    × ((r.status == "deployed") ≡ not (told_by commands untouched).1)
helm_release-serve_helm_example =
    helm_release-serve_helm state commands untouched world (refl, refl)

render_helm-effect_example :
    (render_helm state (helm "upgrade" (("--dry-run", flag) ∷ [])) world).1 ≡ world
unfolding effect string_eq is_dry_run lookup
render_helm-effect_example =
    render_helm-effect state (helm "upgrade" (("--dry-run", flag) ∷ [])) world refl
