-- ===== src/OpsParse/Families.antt =====
-- `_parse_kubectl` and `_parse_helm` of server_ops_parse.py.
use Prim.Native.String.{◌++◌ as ◌<>◌}
use anomaly_metric_creator.Base.{
  String, ℕ, zero, suc, List, [], ◌∷◌, Option, none, some, contains, if◌then◌else◌, ◌==◌, string_eq,
}
use anomaly_metric_creator.Base.Dict.{Dict, lookup, insert}
use anomaly_metric_creator.Base.Text.{strip, is_empty}
use anomaly_metric_creator.Exec.{Result, ok, bind_result}
use anomaly_metric_creator.OpsParse.{FlagValue, flag, ParsedCommand}
use anomaly_metric_creator.OpsParse.Split.{flag_values, next_or_empty}
use anomaly_metric_creator.OpsParse.Targets.{
  normalize_kind, split_resource_token, split_explain_target,
}

-- `positionals[n]`, where there are so many.
abbrev pub nth : ℕ → List String → Option String
nth n [] = none
nth zero (p ∷ ps) = some p
nth (suc n) (p ∷ ps) = nth n ps

-- `positionals[n] if len(positionals) > n else ""`.
abbrev pub word : ℕ → List String → String
word n positionals = elim (nth n positionals) [ none ↦ "" | some p ↦ p ]

-- What a family's parser is given.
pub record Words : Type 0 where
  pub raw : String
  pub argv : List String
  pub namespace : String
  pub flags : Dict FlagValue
  pub positionals : List String

abbrev pub parsed : Words → String → String → String → String → ParsedCommand
parsed w family verb kind name = record {
  raw_input = w.raw;
  argv = w.argv;
  family = family;
  verb = verb;
  resource_kind = kind;
  resource_name = name;
  namespace = w.namespace;
  flags = w.flags;
  positionals = w.positionals;
  parse_error = "";
}

abbrev pub kubectl : Words → String → String × String → Result ParsedCommand
kubectl w verb (kind, name) = ok (parsed w "kubectl" verb kind name)

-- `if not resource_name and len(positionals) > n: resource_name = positionals[n]`.
abbrev or_word : ℕ → List String → String × String → String × String
or_word n positionals (kind, name) = (kind, (if is_empty name then word n positionals else name))

-- `if not resource_name: resource_kind, resource_name = "pods", target`.
abbrev or_pod : String → String × String → String × String
or_pod target (kind, name) = if is_empty name then ("pods", target) else (kind, name)

abbrev kind_word : ℕ → List String → String
kind_word n positionals = elim (nth n positionals) [ none ↦ "" | some p ↦ normalize_kind p ]

-- `-f` of `kubectl logs` is `--follow`, and its value the target where none is given.
unfoldable pub parse_logs : Words → Result ParsedCommand
unfolding flag_values split_resource_token is_empty
parse_logs w =
    let given = word 1 w.positionals in
    let follow_values = flag_values w.flags ("-f" ∷ []) in
    elim (lookup "-f" w.flags) [
      | none ↦ kubectl w "logs" (or_pod given (split_resource_token given "pods"))
      | some _ ↦
          let target = if is_empty given then next_or_empty follow_values else given in
          kubectl (record w { flags = insert "--follow" flag w.flags }) "logs"
            (or_pod target (split_resource_token target "pods"))
    ]

unfoldable pub parse_kubectl : Words → Result ParsedCommand
unfolding parse_logs split_resource_token is_empty
parse_kubectl w =
    let ps = w.positionals in
    let verb = word 0 ps in
    if contains verb ("api-resources" ∷ "api-versions" ∷ "cluster-info" ∷ "version" ∷ [])
    then kubectl w verb ("", "")
    else if verb == "explain"
    then bind_result (split_explain_target (word 1 ps)) (kubectl w verb)
    else if verb == "events"
    then kubectl w "get" ("events", "")
    else if verb == "logs"
    then parse_logs w
    else if verb == "auth"
    then kubectl w (strip ("auth " <> word 1 ps)) (kind_word 3 ps, "")
    else if verb == "config"
    then kubectl w (strip ("config " <> word 1 ps)) ("config", "")
    else if verb == "rollout"
    then kubectl w (strip ("rollout " <> word 1 ps))
        (or_word 3 ps (split_resource_token (word 2 ps) ""))
    else if contains verb ("delete" ∷ "patch" ∷ "scale" ∷ [])
    then kubectl w verb (or_word 2 ps (split_resource_token (word 1 ps) ""))
    else if verb == "create"
    then kubectl w verb (kind_word 1 ps, word 2 ps)
    else if contains verb ("apply" ∷ "diff" ∷ [])
    then kubectl w verb ("manifest", "")
    else if verb == "wait"
    then kubectl w "wait" (split_resource_token (word 1 ps) "")
    else if contains verb ("exec" ∷ "port-forward" ∷ [])
    then kubectl w verb (or_pod (word 1 ps) (split_resource_token (word 1 ps) "pods"))
    else elim (nth 1 ps) [
      | none ↦ kubectl w verb ("", "")
      | some target ↦ kubectl w verb (or_word 2 ps (split_resource_token target ""))
    ]

unfoldable pub parse_helm : Words → ParsedCommand
parse_helm w =
    let ps = w.positionals in
    let verb = word 0 ps in
    if contains verb ("version" ∷ "env" ∷ "template" ∷ [])
    then parsed w "helm" verb verb (word 1 ps)
    else if verb == "get"
    then parsed w "helm" verb (word 1 ps) (word 2 ps)
    else if contains verb ("test" ∷ "upgrade" ∷ "rollback" ∷ "uninstall" ∷ "install" ∷ [])
    then parsed w "helm" verb verb (word 1 ps)
    else parsed w "helm" verb "release" (word 1 ps)
