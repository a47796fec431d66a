-- ===== src/OpsParse/Tests.antt =====
-- Runs of the command parser of server_ops_parse.py.
use anomaly_metric_creator.Base.{
  inl, inr, String, ◌≡◌, refl, false, List, [], ◌∷◌, map, string_eq, nat_eq,
}
use anomaly_metric_creator.Base.Dict.{lookup, insert}
use anomaly_metric_creator.Base.Text.{split_at, split_once, join, has_part, strip_dashes, lower}
use anomaly_metric_creator.Exec.{ok}
use anomaly_metric_creator.Json.{null, str, arr, items}
use anomaly_metric_creator.OpsParse.{text}
use anomaly_metric_creator.OpsParse.Split.{split_flags, flag_values, store_flag_value, non_empty}
use anomaly_metric_creator.OpsParse.Redact.{
  is_sensitive_flag_name, redact_argv, redact_parsed_flags,
}
use anomaly_metric_creator.OpsParse.Targets.{split_explain_target}
use anomaly_metric_creator.OpsParse.Shlex.{shlex_join}
use anomaly_metric_creator.OpsParse.Command.{parse_command, parse_words, family_of}
use anomaly_metric_creator.OpsParse.Quoting.{parse_command-shlex_join}
use anomaly_metric_creator.OpsParse.Redacting.{mask_after, redact_argv_lem}
use anomaly_metric_creator.OpsParse.Secrets.{NamesSecret, redact_parsed_flags-AgreeInPublic}
use anomaly_metric_creator.OpsParse.Kept.{Parses, words_of, is_bad_command, parse_words-Parses}

abbrev exec_words : List String
exec_words = "exec" ∷ "-n" ∷ "prod" ∷ "api-0" ∷ "--" ∷ "sh" ∷ "-c" ∷ "it's up" ∷ []

parse_command-shlex_join_example :
    parse_command (str (shlex_join ("kubectl" ∷ exec_words))) null "saas-prod"
    ≡ parse_command null (arr (items (map str ("kubectl" ∷ exec_words)))) "saas-prod"
parse_command-shlex_join_example = parse_command-shlex_join ("kubectl" ∷ exec_words) "saas-prod"

splits :
    (split_flags exec_words "saas-prod").positionals
    ≡ "exec" ∷ "api-0" ∷ "--" ∷ "sh" ∷ "-c" ∷ "it's up" ∷ []
unfolding split_flags string_eq nat_eq is_sensitive_flag_name has_part strip_dashes lower
splits = refl

repeats :
    flag_values
      (split_flags ("-f" ∷ "a.yaml" ∷ "--filename=b.yaml" ∷ "-f" ∷ "c.yaml" ∷ []) "x").flags
      ("-f" ∷ "--filename" ∷ [])
    ≡ "a.yaml" ∷ "c.yaml" ∷ "b.yaml" ∷ []
unfolding split_flags string_eq nat_eq flag_values lookup store_flag_value split_once insert
    non_empty
repeats = refl

explains : split_explain_target "Deployments.apps.spec" ≡ ok ("deployments", "spec")
unfolding split_explain_target string_eq nat_eq lookup split_at lower join
explains = refl

parse_words-Parses_example :
    let w = words_of "kubectl explain ." "kubectl" ("explain" ∷ "." ∷ []) "saas-prod" in
    Parses w
      (family_of "kubectl")
      (is_bad_command (family_of "kubectl") w)
      (parse_words "kubectl explain ." ("kubectl" ∷ "explain" ∷ "." ∷ []) "saas-prod")
parse_words-Parses_example =
    parse_words-Parses "kubectl explain ." "kubectl" ("explain" ∷ "." ∷ []) "saas-prod"

abbrev secret_words : List String
secret_words = "kubectl" ∷ "--token=s3cret" ∷ "get" ∷ "pods" ∷ []

redact_argv_lem_example : redact_argv false secret_words ≡ mask_after false secret_words
redact_argv_lem_example = redact_argv_lem false secret_words

-- The secret is shown, and the verb after it hidden.
shows_secret : redact_argv false secret_words ≡ "kubectl" ∷ "--token=s3cret" ∷ "***" ∷ "pods" ∷ []
unfolding redact_argv is_sensitive_flag_name string_eq nat_eq has_part strip_dashes lower
shows_secret = refl

x_token : NamesSecret "--X-Token"
unfolding string_eq nat_eq strip_dashes lower
x_token = record { start = "x-"; word = "token"; rest = ""; listed = refl; spelled = refl }

redact_parsed_flags-AgreeInPublic_example :
    redact_parsed_flags (("-o", text "wide") ∷ ("--X-Token", text "s3cret") ∷ [])
    ≡ redact_parsed_flags (("-o", text "wide") ∷ ("--X-Token", text "other") ∷ [])
redact_parsed_flags-AgreeInPublic_example =
    redact_parsed_flags-AgreeInPublic (("-o", text "wide") ∷ ("--X-Token", text "s3cret") ∷ [])
      (("-o", text "wide") ∷ ("--X-Token", text "other") ∷ [])
      (refl, inr refl, (refl, inl x_token, tt))
