-- ===== src/Redaction.antt =====
-- redaction.py: the headers that the activity log of the OTEL transport shows.
pub mod Secret
pub mod Tests
use Prim.Native.String.{◌++◌ as ◌<>◌}
use anomaly_metric_creator.Base.{
  String, Bool, true, false, List, [], ◌∷◌, Option, none, some, contains, if◌then◌else◌, ◌==◌,
  string_eq,
}
use anomaly_metric_creator.Base.Dict.{Dict}
use anomaly_metric_creator.Base.Text.{lower, split_once}

abbrev pub sensitive_header_names : List String
sensitive_header_names =
    "authorization" ∷ "cookie" ∷ "set-cookie" ∷ "proxy-authorization" ∷ "x-api-key" ∷ []

abbrev pub safe_response_header_names : List String
safe_response_header_names =
    "content-type" ∷ "content-length" ∷ "content-encoding" ∷ "content-language" ∷ "cache-control"
    ∷ "date" ∷ "server" ∷ "vary" ∷ "age" ∷ "retry-after" ∷ "cf-ray" ∷ "x-request-id" ∷ []

abbrev pub schemed_sensitive_headers : List String
schemed_sensitive_headers = "authorization" ∷ "proxy-authorization" ∷ []

-- The scheme before the first blank, where there is a blank.
abbrev pub scheme : String → Option String
scheme value = elim (split_once b' ' value) [ none ↦ none | some (s, _) ↦ some s ]

abbrev pub masked_value : Bool → Option String → String
masked_value true (some s) = s <> " ***"
masked_value _ _ = "***"

unfoldable pub mask_sensitive_value : String → String → String
mask_sensitive_value name value =
    masked_value (contains (lower name) schemed_sensitive_headers) (scheme value)

unfoldable pub masked_headers : Dict String → Dict String
unfolding mask_sensitive_value
masked_headers [] = []
masked_headers ((key, value) ∷ headers) =
    (
      key,
      (if contains (lower key) sensitive_header_names
          then mask_sensitive_value key value
          else value),
    )
    ∷ masked_headers headers

unfoldable pub redact_sensitive_headers : List (String × String) → List (String × String)
unfolding mask_sensitive_value
redact_sensitive_headers [] = []
redact_sensitive_headers ((name, value) ∷ pairs) =
    (
      name,
      (if contains (lower name) safe_response_header_names
          then value
          else mask_sensitive_value name value),
    )
    ∷ redact_sensitive_headers pairs
