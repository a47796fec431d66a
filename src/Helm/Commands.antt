-- ===== src/Helm/Commands.antt =====
-- `_render_helm`: what each command changes in the overlay, and its result.
use Prim.Native.String.{◌++◌ as ◌<>◌}
use anomaly_metric_creator.Base.{
  String, true, false, List, [], ◌∷◌, none, some, pos, contains, ◌==◌, string_eq, if◌then◌else◌,
}
use anomaly_metric_creator.Base.Dict.{Dict}
use anomaly_metric_creator.Base.Text.{or_else}
use anomaly_metric_creator.Exec.{Result, ok, ◌>>=◌, ◌>>◌, pure, lift, get_state}
use anomaly_metric_creator.Json.{Row}
use anomaly_metric_creator.OpsParse.{ParsedCommand}
use anomaly_metric_creator.OpsParse.Families.{nth}
use anomaly_metric_creator.Mutations.{World, Method, default_namespace, format_dt}
use anomaly_metric_creator.Mutations.Methods.{
  EventKey, record_event, set_revisions, set_release_values, replace_release_values,
}
use anomaly_metric_creator.Helm.{
  SimulationState, HelmRelease, default_release, revision, helm_release_revisions, helm_release,
  mark, next_revisions,
}
use anomaly_metric_creator.Helm.Values.{
  is_dry_run, has_flag, helm_value_overrides, helm_operation_note,
}
use anomaly_metric_creator.Helm.Read.{
  Output, text, CommandResult, supported, unsupported, render_helm_list, render_helm_status,
  render_helm_history, render_helm_env, render_helm_manifest, render_helm_get, render_helm_test,
}

abbrev pub release_name : ParsedCommand → String
release_name p = or_else p.resource_name default_release

abbrev pub release_event : String → String → String → EventKey
release_event reason release message = record {
  event_type = "Normal";
  reason = reason;
  namespace = default_namespace;
  object = "release/" <> release;
  message = message;
}

-- `if values: set_release_values(values, now=now)`.
unfoldable pub set_given_values : Dict String → SimulationState → Method (Unit {0})
set_given_values [] s = pure tt
set_given_values (v ∷ vs) s = set_release_values (v ∷ vs) s.now

abbrev pub install_revisions : String → List Row
install_revisions release = revision (pos 1) "deployed" ("Install applied to " <> release) ∷ []

unfoldable pub apply_install : SimulationState → ParsedCommand → Method (Unit {0})
unfolding set_given_values or_else
apply_install s p = do
  set_revisions (install_revisions (release_name p)) s.now false
  set_given_values (helm_value_overrides p) s
  record_event
      (release_event "HelmInstall" (release_name p)
        ("release " <> release_name p <> " installed by simulator command"))
      s.now

unfoldable pub render_helm_install : SimulationState → ParsedCommand → Method Output
unfolding apply_install is_dry_run
render_helm_install s p = do
  if is_dry_run p then pure tt else apply_install s p
  pure (
      text (
        "NAME: "
        <> release_name p
        <> "\n"
        <> "LAST DEPLOYED: "
        <> format_dt s.now
        <> "\n"
        <> "NAMESPACE: "
        <> s.namespace
        <> "\n"
        <> "STATUS: deployed\n"
        <> "REVISION: 1\n"
        <> helm_operation_note p (is_dry_run p) (helm_value_overrides p) false))

unfoldable pub apply_values : SimulationState → ParsedCommand → Method (Unit {0})
unfolding set_given_values
apply_values s p =
    if has_flag "--reset-values" p
    then replace_release_values (helm_value_overrides p) s.now
    else set_given_values (helm_value_overrides p) s

-- The history with a revision more, by `description`.
unfoldable pub add_revision : SimulationState → String → Method (Unit {0})
unfolding next_revisions helm_release_revisions
add_revision s description = do
  w ← get_state
  revisions ← lift (next_revisions description (helm_release_revisions s w.overlay))
  set_revisions revisions s.now false

unfoldable pub apply_upgrade : SimulationState → ParsedCommand → Method (Unit {0})
unfolding add_revision apply_values or_else
apply_upgrade s p = do
  add_revision s ("Upgrade applied to " <> release_name p)
  apply_values s p
  record_event
      (release_event "HelmUpgrade" (release_name p)
        ("release " <> release_name p <> " upgraded by simulator command"))
      s.now

unfoldable pub render_helm_upgrade : SimulationState → ParsedCommand → Method Output
unfolding apply_upgrade is_dry_run helm_release
render_helm_upgrade s p = do
  if is_dry_run p then pure tt else apply_upgrade s p
  w ← get_state
  release ← lift (helm_release s w.overlay)
  pure (
      text (
        "Release \""
        <> release_name p
        <> "\" has been upgraded ("
        <> (if is_dry_run p then "dry run" else "simulated")
        <> ").\n"
        <> "NAMESPACE: "
        <> s.namespace
        <> "\n"
        <> "STATUS: "
        <> HelmRelease.status release
        <> "\n"
        <> helm_operation_note p (is_dry_run p) (helm_value_overrides p)
            (has_flag "--reset-values" p)))

-- `parsed.positionals[2] if len(parsed.positionals) > 2 else "previous"`.
abbrev pub rollback_target : ParsedCommand → String
rollback_target p = elim (nth 2 p.positionals) [ none ↦ "previous" | some r ↦ r ]

unfoldable pub render_helm_rollback : SimulationState → ParsedCommand → Method Output
unfolding add_revision or_else
render_helm_rollback s p = do
  add_revision s ("Rollback to revision " <> rollback_target p)
  record_event
      (release_event "HelmRollback" (release_name p)
        ("release " <> release_name p <> " rolled back to revision " <> rollback_target p))
      s.now
  pure (
      text (
        "Rollback was a success for release \""
        <> release_name p
        <> "\" to revision "
        <> rollback_target p
        <> ".\n"
        <> "NAMESPACE: "
        <> s.namespace
        <> "\n"
        <> "NOTE: simulator release state updated.\n"))

-- The history where the deployed revision is marked as uninstalled.
unfoldable pub end_release : SimulationState → Method (Unit {0})
unfolding mark helm_release_revisions
end_release s = do
  w ← get_state
  revisions ← lift (mark "uninstalled" (helm_release_revisions s w.overlay))
  set_revisions revisions s.now true

unfoldable pub helm_uninstall : SimulationState → ParsedCommand → Method Output
unfolding end_release or_else
helm_uninstall s p = do
  end_release s
  record_event
      (release_event "HelmUninstall" (release_name p)
        ("release " <> release_name p <> " uninstalled from simulator state"))
      s.now
  pure (text ("release \"" <> release_name p <> "\" uninstalled\n"))

-- A command that only reads.
abbrev pub reading : String → (World → Result Output) → Method CommandResult
reading rule f = do w ← get_state; out ← lift (f w); pure (supported out rule)

-- A command that changes the overlay.
abbrev pub writing : String → Method Output → Method CommandResult
writing rule m = do out ← m; pure (supported out rule)

abbrev pub get_kinds : List String
get_kinds = "values" ∷ "manifest" ∷ "notes" ∷ "all" ∷ "hooks" ∷ []

unfoldable pub helm_get : SimulationState → ParsedCommand → Method CommandResult
unfolding render_helm_get or_else
helm_get s p =
    if contains p.resource_kind get_kinds
    then reading ("helm.get." <> p.resource_kind)
        (λ w. ok (text (render_helm_get s w.overlay p.resource_kind)))
    else pure (unsupported ("helm get " <> or_else p.resource_kind "<missing-kind>"))

abbrev pub version_text : String
version_text = "version.BuildInfo{Version:\"v4.2.2\", GitCommit:\"simulated\"}\n"

unfoldable pub render_helm : SimulationState → ParsedCommand → Method CommandResult
unfolding helm_get render_helm_install render_helm_upgrade render_helm_rollback helm_uninstall
    render_helm_list render_helm_status render_helm_history render_helm_manifest render_helm_test
    or_else
render_helm s p =
    if p.verb == "version"
    then pure (supported (text version_text) "helm.version")
    else if p.verb == "env"
    then pure (supported (text render_helm_env) "helm.env")
    else if p.verb == "template"
    then pure (supported (text (render_helm_manifest s)) "helm.template")
    else if p.verb == "list"
    then reading "helm.list" (λ w. render_helm_list s w.overlay)
    else if p.verb == "status"
    then reading "helm.status" (λ w. render_helm_status s w.overlay)
    else if p.verb == "history"
    then reading "helm.history" (λ w. render_helm_history s w.overlay)
    else if p.verb == "get"
    then helm_get s p
    else if p.verb == "test"
    then pure (supported (render_helm_test s) "helm.test")
    else if p.verb == "install"
    then writing "helm.install" (render_helm_install s p)
    else if p.verb == "upgrade"
    then writing "helm.upgrade" (render_helm_upgrade s p)
    else if p.verb == "rollback"
    then writing "helm.rollback" (render_helm_rollback s p)
    else if p.verb == "uninstall"
    then writing "helm.uninstall" (helm_uninstall s p)
    else pure (unsupported ("helm " <> or_else p.verb "<missing-verb>"))
