-- ===== src/Helm/Told.antt =====
-- Any Helm commands one after the other, and what `helm status` says after them.
use anomaly_metric_creator.Base.{
  ℕ, suc, ◌+◌, pos, ◌≡◌, refl, ap, ◌∙◌, Bool, not, List, [], ◌∷◌, length, some, ◌==◌, string_eq,
  nat_eq, arith,
}
use anomaly_metric_creator.Base.Dict.{lookup}
use anomaly_metric_creator.Exec.{ok, bind_result}
use anomaly_metric_creator.Json.{str, int_of, str_of, str_of-str}
use anomaly_metric_creator.OpsParse.{ParsedCommand}
use anomaly_metric_creator.Mutations.{World, format_dt}
use anomaly_metric_creator.Helm.{
  SimulationState, HelmRelease, default_release, default_chart, current_release, helm_release,
  revision, last_row, item, version_of,
}
use anomaly_metric_creator.Helm.Commands.{render_helm}
use anomaly_metric_creator.Helm.History.{Line, rows_from, descriptions, Current}
use anomaly_metric_creator.Helm.Effects.{effect, Log, told, after}
use anomaly_metric_creator.Helm.Kept.{Tells, Stored-helm_release_revisions}
use anomaly_metric_creator.Helm.Follows.{Follows-render_helm}

-- A server that goes on after a command that raised.
unfoldable pub serve_helm : List (SimulationState × ParsedCommand) → World → World
serve_helm [] w = w
serve_helm ((s, p) ∷ commands) w = serve_helm commands (render_helm s p w).1

abbrev pub told_by : List (SimulationState × ParsedCommand) → Log → Log
told_by [] l = l
told_by ((s, p) ∷ commands) l = told_by commands (after s (effect p) l)

-- After any Helm commands, returned or raised, the stored history is the one that the log tells: as many
-- revisions as it has descriptions, with these, numbered from one; the last one deployed, unless the
-- release is uninstalled, and no other. It is so where it was so before.
pub serve_helm-Tells :
    (commands : List (SimulationState × ParsedCommand)) (l : Log) (w : World)
    → Tells l w
    → Tells (told_by commands l) (serve_helm commands w)
unfolding serve_helm
serve_helm-Tells [] l w h = h
serve_helm-Tells ((s, p) ∷ commands) l w h =
    serve_helm-Tells commands (after s (effect p) l) (render_helm s p w).1
      ((Follows-render_helm s p).at l w h)

-- The last revision has the number and the status of the end of the lines.
last_row-rows_from :
    (n : ℕ) (es : List Line) (u : Bool)
    → Current u es
    → (m : ℕ) × (e : Line) × (last_row (rows_from n es) ≡ some (revision (pos m) e.0 e.1))
      × (suc m ≡ n + length es)
      × ((e.0 == "deployed") ≡ not u)
last_row-rows_from n [] u h = elim h [ ]
last_row-rows_from n (e ∷ []) u h = (n, e, refl, omega arith, h)
last_row-rows_from n (e ∷ f ∷ es) u (h, k) =
    let (m, g, a, b, c) = last_row-rows_from (suc n) (f ∷ es) u k in (m, g, a, omega arith, c)

length-descriptions : (es : List Line) → length (descriptions es) ≡ length es
length-descriptions [] = refl
length-descriptions (e ∷ es) = ap suc (length-descriptions es)

-- After any Helm commands, `_helm_release` finds a release: its revision is the number of descriptions
-- in the log, and it is deployed unless the release is uninstalled. It is so where the history before
-- was the one that the log tells.
pub helm_release-serve_helm :
    (s : SimulationState) (commands : List (SimulationState × ParsedCommand)) (l : Log) (w : World)
    → Tells l w
    → (r : HelmRelease) × (helm_release s (serve_helm commands w).overlay ≡ ok r)
      × (r.revision ≡ pos (length (told s (told_by commands l).0)))
      × ((r.status == "deployed") ≡ not (told_by commands l).1)
unfolding helm_release current_release bind_result version_of item lookup string_eq nat_eq int_of
helm_release-serve_helm s commands l w h =
    let (ds, u) = told_by commands l in
    let (es, e, d, c) =
      Stored-helm_release_revisions s ds u (serve_helm commands w)
        (serve_helm-Tells commands l w h) in
    let (m, g, a, b, k) = last_row-rows_from 1 es u c in
    (
      record {
        name = default_release;
        namespace = s.namespace;
        revision = pos m;
        updated = format_dt s.now;
        status = str_of (str g.0);
        chart = default_chart;
        app_version = "0.3.0";
      },
      ap (current_release s) (ap last_row e ∙ a),
      ap pos (omega (arith, b, length-descriptions es, ap length d)),
      rw (str_of-str g.0) k,
    )
