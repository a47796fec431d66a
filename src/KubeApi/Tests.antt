-- ===== src/KubeApi/Tests.antt =====
-- Requests of the Kubernetes API on concrete states.
use anomaly_metric_creator.Base.{
  String, ◌≡◌, refl, true, false, List, [], ◌∷◌, none, some, pos, ◌==◌, string_eq, nat_eq, arith,
  ap, sym, ◌∙◌, if◌then◌else◌,
}
use anomaly_metric_creator.Base.Dict.{lookup, get_or, insert, set_add}
use anomaly_metric_creator.Base.Text.{lower, is_empty, or_else}
use anomaly_metric_creator.Exec.{ok, err, overflow_error, ◌>>=◌}
use anomaly_metric_creator.Json.{float, str, obj, end, field, Row, int_of, is_text}
use anomaly_metric_creator.Mutations.{
  World, Datetime, new_mutations, mutation_resource_key, commit, persist,
}
use anomaly_metric_creator.Mutations.Methods.{
  record_event, delete_resource, put_deleted, touch_first, finish_event,
}
use anomaly_metric_creator.Mutations.Resources.{is_deleted}
use anomaly_metric_creator.OpsParse.Targets.{normalize_kind}
use anomaly_metric_creator.KubeApi.{
  KubernetesApiResponse, status_response, MutationTarget, mutation_target, is_update,
  subresource_mutation_allowed, dict_or_empty, payload_replicas, find_named, mutation_snapshot_kind,
}
use anomaly_metric_creator.KubeApi.Paths.{is_segment, url, parts_of, IsAddress, mutation_target-url}
use anomaly_metric_creator.KubeApi.Mutating.{
  Views, snapshot_row, delete_found, mutate, answer_target, mutating_response,
}
use anomaly_metric_creator.KubeApi.Answers.{deleted}
use anomaly_metric_creator.KubeApi.Effects.{IsHidden, mutating_response-deletes}

abbrev noon : Datetime
noon = record { year = 2026; month = 3; day = 1; hour = 12; minute = 0; second = 0 }

abbrev fresh : World
fresh = record { overlay = new_mutations (pos 5); files = []; faults = [] }

abbrev settings : Row
settings = ("name", str "settings") ∷ ("namespace", str "saas-prod") ∷ []

abbrev rows_of : String → List Row
rows_of kind = if kind == "configmaps" then settings ∷ [] else []

-- One configmap, and no renderer that shows anything.
abbrev views : Views
views = record {
  resource_snapshot = λ now w. ok rows_of;
  deployment_object = λ now w row. ok (obj end);
  scale_object = λ now w row. ok (obj end);
  objects_for_resource = λ now w group resource. ok none;
  generic_resource_row = λ now w kind name payload. ok [];
}

abbrev configmap_target : String → MutationTarget
configmap_target namespace = record {
  group = "";
  version = "v1";
  namespace = namespace;
  resource = "configmaps";
  name = "settings";
  subresource = "";
  extra = "";
}

abbrev configmap_path : String
configmap_path = "/api/v1/namespaces/saas-prod/configmaps/settings"

abbrev other_path : String
other_path = "/api/v1/namespaces/other/configmaps/settings"

address :
    (namespace : String) → is_segment namespace ≡ true → IsAddress (configmap_target namespace)
unfolding is_empty
address namespace h = record {
  segments = ground (arith, h);
  core_version = λ e. refl;
  named = λ e. refl;
  ended = refl;
}

mutation_target-url_example :
    mutation_target (url (parts_of (configmap_target "other"))) ≡ some (configmap_target "other")
unfolding is_empty nat_eq
mutation_target-url_example = mutation_target-url (configmap_target "other") (address "other" refl)

abbrev deleted_settings : KubernetesApiResponse
deleted_settings = deleted "configmaps" "settings" "k8s.configmaps.delete"

found :
    (namespace path : String)
    → is_segment namespace ≡ true
    → url (parts_of (configmap_target namespace)) ≡ path
    → mutation_target path ≡ some (configmap_target namespace)
found namespace path h e =
    ap mutation_target (sym e)
    ∙ mutation_target-url (configmap_target namespace) (address namespace h)

abbrev after_deletion : String → String → World
after_deletion path namespace =
    (answer_target views noon "DELETE" path (some (configmap_target namespace)) [] fresh).1

answered :
    (path namespace : String)
    → answer_target views noon "DELETE" path (some (configmap_target namespace)) [] fresh
      ≡ (ok deleted_settings, after_deletion path namespace)
unfolding answer_target mutate snapshot_row delete_found ◌>>=◌ is_update
    subresource_mutation_allowed mutation_snapshot_kind normalize_kind lower get_or lookup string_eq
    nat_eq is_empty find_named is_text delete_resource commit persist record_event finish_event
    touch_first put_deleted
answered path namespace = refl

deletion :
    (path namespace : String)
    → mutation_target path ≡ some (configmap_target namespace)
    → mutating_response views noon "DELETE" path [] fresh
      ≡ (ok deleted_settings, after_deletion path namespace)
unfolding mutating_response
deletion path namespace e =
    ap (λ o. answer_target views noon "DELETE" path o [] fresh) e ∙ answered path namespace

mutating_response-deletes_example :
    IsHidden
      (after_deletion configmap_path "saas-prod").overlay
      (mutation_snapshot_kind "configmaps")
      (mutation_resource_key "saas-prod" "settings")
unfolding string_eq is_empty nat_eq status_response
mutating_response-deletes_example =
    mutating_response-deletes views noon fresh (after_deletion configmap_path "saas-prod")
      configmap_path [] (configmap_target "saas-prod") deleted_settings
      (found "saas-prod" configmap_path refl refl) refl refl
      (deletion configmap_path "saas-prod" (found "saas-prod" configmap_path refl refl)) refl

-- A name that stands in another namespace only is taken for the object: the answer is a success, the
-- key of no row is hidden, and the row is not.
other_namespace :
    (mutating_response views noon "DELETE" other_path [] fresh
      ≡ (ok deleted_settings, after_deletion other_path "other"))
    × (is_deleted (after_deletion other_path "other").overlay "configmaps" "other/settings" ≡ true)
    × (is_deleted (after_deletion other_path "other").overlay "configmaps" "saas-prod/settings"
        ≡ false)
unfolding answer_target mutate snapshot_row delete_found ◌>>=◌ is_update
    subresource_mutation_allowed mutation_snapshot_kind normalize_kind lower get_or lookup string_eq
    nat_eq is_empty find_named is_text delete_resource commit persist record_event finish_event
    touch_first put_deleted mutation_resource_key or_else insert set_add
other_namespace = (deletion other_path "other" (found "other" other_path refl refl), refl, refl)

abbrev infinite : Row
infinite = ("spec", obj (field "replicas" (float "inf" none) end)) ∷ []

-- An infinite number of replicas is not caught.
overflows : payload_replicas infinite ≡ err overflow_error
unfolding payload_replicas get_or lookup string_eq dict_or_empty int_of
overflows = refl

-- Without a deployment of the name, an update is refused.
abbrev web_target : MutationTarget
web_target = record {
  group = "apps";
  version = "v1";
  namespace = "saas-prod";
  resource = "deployments";
  name = "web";
  subresource = "scale";
  extra = "";
}

abbrev web_path : String
web_path = "/apis/apps/v1/namespaces/saas-prod/deployments/web/scale"
