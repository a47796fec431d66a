-- ===== src/OpsParse/Redact.antt =====
-- The redaction of server_ops_parse.py: the flags and the words of a command that are shown.
use Prim.Native.String.{◌++◌ as ◌<>◌}
use anomaly_metric_creator.Base.{
  String, Bool, true, false, ◌||◌, List, [], ◌∷◌, none, some, if◌then◌else◌, string_eq,
}
use anomaly_metric_creator.Base.Dict.{Dict}
use anomaly_metric_creator.Base.Text.{lower, strip_dashes, has_part, starts_with, split_once}
use anomaly_metric_creator.OpsParse.{FlagValue, text, sensitive_flag_tokens}

abbrev pub has_any : List String → String → Bool
has_any [] s = false
has_any (p ∷ ps) s = has_part p s || has_any ps s

unfoldable pub is_sensitive_flag_name : String → Bool
is_sensitive_flag_name name = has_any sensitive_flag_tokens (strip_dashes (lower name))

abbrev pub mask : String
mask = "***"

-- A word that is no value of a sensitive flag before it, and whether the word after it is.
unfoldable pub redact_token : String → String × Bool
unfolding starts_with split_once
redact_token token =
    if is_sensitive_flag_name token
    then (token, true)
    else if starts_with "--" token
    then elim (split_once b'=' token) [
      | none ↦ (token, false)
      | some (key, value) ↦
          if is_sensitive_flag_name key
          then (key <> "=" <> mask, false)
          else (key <> "=" <> value, false)
    ]
    else (token, false)

-- The loop over the words, with `redact_next`.
unfoldable pub redact_argv : Bool → List String → List String
unfolding redact_token
redact_argv next [] = []
redact_argv true (token ∷ argv) = mask ∷ redact_argv false argv
redact_argv false (token ∷ argv) =
    let (shown, next) = redact_token token in shown ∷ redact_argv next argv

unfoldable pub redact_parsed_flags : Dict FlagValue → Dict FlagValue
redact_parsed_flags [] = []
redact_parsed_flags ((key, value) ∷ flags) =
    (key, (if is_sensitive_flag_name key then text mask else value)) ∷ redact_parsed_flags flags
