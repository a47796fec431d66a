-- ===== src/OpsParse.antt =====
-- server_ops_parse.py: the commands of clients, parsed, normalized and redacted. Here are the tables
-- and the types; the steps of the parser are in the modules below.
pub mod Split
pub mod Targets
pub mod Families
pub mod Redact
pub mod Shlex
pub mod Command
pub mod Quoting
pub mod Redacting
pub mod Secrets
mod Turns
pub mod Positionals
pub mod Kinds
pub mod Kept
pub mod Tests
use anomaly_metric_creator.Base.{String, List, [], ◌∷◌}
use anomaly_metric_creator.Base.Dict.{Dict}

-- What a flag holds: `True`, a text, or the texts of a repeated flag.
pub data FlagValue : Type 0 where
  flag : FlagValue
  text : String → FlagValue
  texts : List String → FlagValue

pub record ParsedCommand : Type 0 where
  pub raw_input : String
  pub argv : List String
  pub family : String
  pub verb : String
  pub resource_kind : String
  pub resource_name : String
  pub namespace : String
  pub flags : Dict FlagValue
  pub positionals : List String
  pub parse_error : String

abbrev pub value_flags : List String
value_flags =
    "-n" ∷ "--namespace" ∷ "-o" ∷ "--output" ∷ "-l" ∷ "--selector" ∷ "--context" ∷ "--kubeconfig"
    ∷ "-c" ∷ "--container" ∷ "--tail" ∷ "--since" ∷ "--since-time" ∷ "--field-selector"
    ∷ "--sort-by" ∷ "--for" ∷ "--timeout" ∷ "--replicas" ∷ "--to-revision" ∷ "-f" ∷ "--filename"
    ∷ "--from-literal" ∷ "--from-file" ∷ "--image" ∷ "--schedule" ∷ "--set" ∷ "--set-string"
    ∷ "--values" ∷ "--api-version" ∷ "--patch" ∷ "--type" ∷ []

abbrev pub repeatable_value_flags : List String
repeatable_value_flags =
    "-f" ∷ "--filename" ∷ "--from-literal" ∷ "--from-file" ∷ "--set" ∷ "--set-string" ∷ "--values"
    ∷ []

abbrev pub bool_flags : List String
bool_flags =
    "-A" ∷ "--all-namespaces" ∷ "--previous" ∷ "-p" ∷ "--follow" ∷ "--prefix" ∷ "--watch" ∷ "-w"
    ∷ "--wide" ∷ "--show-labels" ∷ "--dry-run" ∷ "--install" ∷ "--atomic" ∷ "--debug" ∷ "--all"
    ∷ "--short" ∷ "--recursive" ∷ "--wait" ∷ "--reuse-values" ∷ "--reset-values" ∷ "--timestamps"
    ∷ []

abbrev pub sensitive_flag_tokens : List String
sensitive_flag_tokens = "token" ∷ "password" ∷ "secret" ∷ "client-key" ∷ []

abbrev pub kind_aliases : Dict String
kind_aliases =
    ("all", "all")
    ∷ ("ns", "namespaces")
    ∷ ("namespace", "namespaces")
    ∷ ("namespaces", "namespaces")
    ∷ ("po", "pods")
    ∷ ("pod", "pods")
    ∷ ("pods", "pods")
    ∷ ("cm", "configmaps")
    ∷ ("configmap", "configmaps")
    ∷ ("configmaps", "configmaps")
    ∷ ("secret", "secrets")
    ∷ ("secrets", "secrets")
    ∷ ("rc", "replicationcontrollers")
    ∷ ("replicationcontroller", "replicationcontrollers")
    ∷ ("replicationcontrollers", "replicationcontrollers")
    ∷ ("deploy", "deployments")
    ∷ ("deployment", "deployments")
    ∷ ("deployments", "deployments")
    ∷ ("rs", "replicasets")
    ∷ ("replicaset", "replicasets")
    ∷ ("replicasets", "replicasets")
    ∷ ("ds", "daemonsets")
    ∷ ("daemonset", "daemonsets")
    ∷ ("daemonsets", "daemonsets")
    ∷ ("svc", "services")
    ∷ ("service", "services")
    ∷ ("services", "services")
    ∷ ("ep", "endpoints")
    ∷ ("endpoint", "endpoints")
    ∷ ("endpoints", "endpoints")
    ∷ ("endpointslice", "endpointslices")
    ∷ ("endpointslices", "endpointslices")
    ∷ ("events", "events")
    ∷ ("event", "events")
    ∷ ("hpa", "hpa")
    ∷ ("horizontalpodautoscaler", "hpa")
    ∷ ("horizontalpodautoscalers", "hpa")
    ∷ ("job", "jobs")
    ∷ ("jobs", "jobs")
    ∷ ("cj", "cronjobs")
    ∷ ("cronjob", "cronjobs")
    ∷ ("cronjobs", "cronjobs")
    ∷ ("sa", "serviceaccounts")
    ∷ ("serviceaccount", "serviceaccounts")
    ∷ ("serviceaccounts", "serviceaccounts")
    ∷ ("node", "nodes")
    ∷ ("nodes", "nodes")
    ∷ ("no", "nodes")
    ∷ ("pvc", "pvc")
    ∷ ("pvcs", "pvc")
    ∷ ("persistentvolumeclaim", "pvc")
    ∷ ("persistentvolumeclaims", "pvc")
    ∷ ("sts", "statefulsets")
    ∷ ("statefulset", "statefulsets")
    ∷ ("statefulsets", "statefulsets")
    ∷ ("ing", "ingress")
    ∷ ("ingress", "ingress")
    ∷ ("ingresses", "ingress")
    ∷ []

abbrev pub explain_group_aliases : Dict String
explain_group_aliases =
    ("deployments.apps", "deployments")
    ∷ ("replicasets.apps", "replicasets")
    ∷ ("daemonsets.apps", "daemonsets")
    ∷ ("statefulsets.apps", "statefulsets")
    ∷ ("horizontalpodautoscalers.autoscaling", "hpa")
    ∷ ("jobs.batch", "jobs")
    ∷ ("cronjobs.batch", "cronjobs")
    ∷ ("endpointslices.discovery.k8s.io", "endpointslices")
    ∷ ("ingresses.networking.k8s.io", "ingress")
    ∷ ("ingress.networking.k8s.io", "ingress")
    ∷ ("persistentvolumeclaims.v1", "pvc")
    ∷ ("pods.v1", "pods")
    ∷ ("services.v1", "services")
    ∷ []

-- The group, the version and the resource of each kind.
abbrev pub explain_resource_targets : Dict (String × String × String)
explain_resource_targets =
    ("namespaces", ("", "v1", "namespaces"))
    ∷ ("nodes", ("", "v1", "nodes"))
    ∷ ("pods", ("", "v1", "pods"))
    ∷ ("configmaps", ("", "v1", "configmaps"))
    ∷ ("secrets", ("", "v1", "secrets"))
    ∷ ("replicationcontrollers", ("", "v1", "replicationcontrollers"))
    ∷ ("services", ("", "v1", "services"))
    ∷ ("endpoints", ("", "v1", "endpoints"))
    ∷ ("events", ("", "v1", "events"))
    ∷ ("pvc", ("", "v1", "persistentvolumeclaims"))
    ∷ ("serviceaccounts", ("", "v1", "serviceaccounts"))
    ∷ ("deployments", ("apps", "v1", "deployments"))
    ∷ ("replicasets", ("apps", "v1", "replicasets"))
    ∷ ("daemonsets", ("apps", "v1", "daemonsets"))
    ∷ ("statefulsets", ("apps", "v1", "statefulsets"))
    ∷ ("hpa", ("autoscaling", "v2", "horizontalpodautoscalers"))
    ∷ ("jobs", ("batch", "v1", "jobs"))
    ∷ ("cronjobs", ("batch", "v1", "cronjobs"))
    ∷ ("endpointslices", ("discovery.k8s.io", "v1", "endpointslices"))
    ∷ ("ingress", ("networking.k8s.io", "v1", "ingresses"))
    ∷ []
