-- ===== src/Helm/Read.antt =====
-- The Helm commands that only read. Of a table the cells are kept and the layout of `_table` is left
-- out. The ids of scenarios need no escapes in JSON.
use Prim.Native.String.{◌++◌ as ◌<>◌}
use anomaly_metric_creator.Base.{
  String, ℕ, List, [], ◌∷◌, map, contains, ◌==◌, string_eq, if◌then◌else◌,
}
use anomaly_metric_creator.Base.Dict.{sorted_items}
use anomaly_metric_creator.Base.Text.{or_else, join, show_ℤ}
use anomaly_metric_creator.Exec.{Result, ok, bind_result}
use anomaly_metric_creator.Json.{Row, str_of}
use anomaly_metric_creator.Mutations.{SimulationMutations, format_dt}
use anomaly_metric_creator.Helm.{
  SimulationState, Profile, HelmRelease, default_chart, profiles, exposed_active_scenarios,
  helm_release_revisions, helm_release, item, version_of,
}

pub data Output : Type 0 where
  text : String → Output
  table : List String → List (List String) → Output

pub record CommandResult : Type 0 where
  pub exit_code : ℕ
  pub stdout : Output
  pub stderr : String
  pub support_status : String
  pub matched_rule_id : String

abbrev pub supported : Output → String → CommandResult
supported out rule = record {
  exit_code = 0;
  stdout = out;
  stderr = "";
  support_status = "supported";
  matched_rule_id = rule;
}

abbrev pub unsupported : String → CommandResult
unsupported label = record {
  exit_code = 1;
  stdout = text "";
  stderr = label <> " is not implemented by the simulator yet\n";
  support_status = "unsupported";
  matched_rule_id = "unsupported";
}

abbrev list_headers : List String
list_headers =
    "NAME" ∷ "NAMESPACE" ∷ "REVISION" ∷ "UPDATED" ∷ "STATUS" ∷ "CHART" ∷ "APP VERSION" ∷ []

abbrev pub release_cells : HelmRelease → List String
release_cells r =
    r.name ∷ r.namespace ∷ show_ℤ r.revision ∷ r.updated ∷ r.status ∷ r.chart ∷ r.app_version ∷ []

unfoldable pub render_helm_list : SimulationState → SimulationMutations → Result Output
unfolding helm_release
render_helm_list s o =
    let one =
      bind_result (helm_release s o) (λ r. ok (table list_headers (release_cells r ∷ []))) in
    if o.release.uninstalled then ok (table list_headers []) else one

unfoldable pub helm_notes : SimulationState → String
unfolding join
helm_notes s = elim (profiles s) [
  | [] ↦ "Run kubectl get pods -n saas-prod for workload state."
  | p ∷ ps ↦ join "\n" (map (λ q. "- " <> Profile.helm_notes q) (p ∷ ps))
]

unfoldable pub render_helm_status : SimulationState → SimulationMutations → Result Output
unfolding helm_release helm_notes
render_helm_status s o = bind_result (helm_release s o) (λ r. ok (
    text (
      "NAME: "
      <> r.name
      <> "\n"
      <> "LAST DEPLOYED: "
      <> r.updated
      <> "\n"
      <> "NAMESPACE: "
      <> r.namespace
      <> "\n"
      <> "STATUS: "
      <> r.status
      <> "\n"
      <> "REVISION: "
      <> show_ℤ r.revision
      <> "\n"
      <> "NOTES:\n"
      <> helm_notes s
      <> "\n")))

-- The times of the first two revisions are fixed.
abbrev pub history_updated : SimulationState → String → String
history_updated s version =
    if version == "1"
    then "2026-03-01 00:00:00"
    else if version == "2"
    then "2026-03-08 00:00:00"
    else format_dt s.now

unfoldable pub history_rows : SimulationState → List Row → Result (List (List String))
unfolding version_of item
history_rows s [] = ok []
history_rows s (row ∷ rows) = bind_result (version_of row) (λ n.
    bind_result (item "status" row) (λ status. bind_result (item "description" row) (λ description.
      bind_result (history_rows s rows) (λ rest. ok (
        (show_ℤ n
          ∷ history_updated s (show_ℤ n)
          ∷ str_of status
          ∷ default_chart
          ∷ str_of description
          ∷ [])
        ∷ rest)))))

unfoldable pub render_helm_history : SimulationState → SimulationMutations → Result Output
unfolding history_rows
render_helm_history s o =
    bind_result (history_rows s (helm_release_revisions s o))
      (λ rows. ok (table ("REVISION" ∷ "UPDATED" ∷ "STATUS" ∷ "CHART" ∷ "DESCRIPTION" ∷ []) rows))

abbrev pub render_helm_env : String
render_helm_env =
    "HELM_BIN=\"helm\"\n" <> "HELM_CACHE_HOME=\"/tmp/amc/helm/cache\"\n"
    <> "HELM_CONFIG_HOME=\"/tmp/amc/helm/config\"\n" <> "HELM_DATA_HOME=\"/tmp/amc/helm/data\"\n"
    <> "HELM_NAMESPACE=\"saas-prod\"\n" <> "HELM_DRIVER=\"secrets\"\n"

-- `json.dumps` of a list of texts that need no escapes.
abbrev pub dumps : List String → String
dumps texts = "[" <> join ", " (map (λ t. "\"" <> t <> "\"") texts) <> "]"

unfoldable pub render_helm_values : SimulationState → SimulationMutations → String
unfolding join
render_helm_values s o =
    "replicaCount: 3\n"
    <> "namespace: "
    <> s.namespace
    <> "\n"
    <> "observability:\n"
    <> "  otel: true\n"
    <> "scenarios: "
    <> dumps (exposed_active_scenarios s)
    <> "\n"
    <> join "" (map (λ (key, value). key <> ": " <> value <> "\n") (sorted_items o.release.values))

unfoldable pub render_helm_manifest : SimulationState → String
unfolding join or_else
render_helm_manifest s =
    or_else
      (join "\n" (
        map
          (λ c.
            "---\napiVersion: apps/v1\nkind: Deployment\nmetadata:\n  name: " <> c <> "\n"
            <> "  namespace: " <> s.namespace <> "\n")
          s.components))
      "---\n"

unfoldable pub render_helm_get : SimulationState → SimulationMutations → String → String
unfolding render_helm_values render_helm_manifest helm_notes
render_helm_get s o kind =
    let notes = helm_notes s <> "\n" in
    if kind == "values"
    then render_helm_values s o
    else if kind == "manifest"
    then render_helm_manifest s
    else if kind == "hooks"
    then "HOOKS:\n(no hooks defined for simulated-saas)\n"
    else if kind == "all"
    then "COMPUTED VALUES:\n"
      <> render_helm_values s o
      <> "\nMANIFEST:\n"
      <> render_helm_manifest s
      <> "\nNOTES:\n"
      <> notes
    else notes

unfoldable pub render_helm_test : SimulationState → Output
render_helm_test s =
    let connectivity = "simulated-saas-connectivity" ∷ "Succeeded" ∷ format_dt s.now ∷ [] in
    let canary = "simulated-saas-canary" ∷ "SucceededAfterRollback" ∷ format_dt s.now ∷ [] in
    table ("NAME" ∷ "STATUS" ∷ "LAST RUN" ∷ []) (
      connectivity
      ∷ (if contains "deploy_bad_canary_rollback" s.active_scenarios then canary ∷ [] else []))
