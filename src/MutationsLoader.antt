-- ===== src/MutationsLoader.antt =====
-- server_mutations_loader.py: the persisted overlay read back at a start. The checks refuse with an
-- error that names the file; what they let through is in Hydrate.antt, and the proofs beside it.
pub mod Hydrate
pub mod Fields
pub mod Loops
pub mod RoundTrip
pub mod Restored
pub mod Armed
pub mod Tests
use Prim.Native.String.{◌++◌ as ◌<>◌}
use anomaly_metric_creator.Base.{
  String, ℕ, zero, suc, ◌+◌, Bool, true, false, ◌&&◌, List, [], ◌∷◌, Option, none, some, ℤ, pos,
  negsuc, contains, if◌then◌else◌, ◌==◌, string_eq,
}
use anomaly_metric_creator.Base.Dict.{Dict, lookup, sorted_texts}
use anomaly_metric_creator.Base.Text.{join, show_ℕ, show_ℤ}
use anomaly_metric_creator.Exec.{
  Error, Result, ok, err, value_error, type_error, os_error, bind_result,
}
use anomaly_metric_creator.Json.{
  Json, null, bool, num, float, str, arr, obj, Row, elements, entries,
}
use anomaly_metric_creator.Mutations.{Method, attach_persistence}

abbrev pub persist_error_prefix : String
persist_error_prefix = "--persist-mutations "

pub persist_error : String → String → Error
persist_error path detail = value_error (persist_error_prefix <> path <> ": " <> detail)

-- `type(value).__name__`.
pub type_name : Json → String
type_name null = "NoneType"
type_name (bool _) = "bool"
type_name (num _) = "int"
type_name (float _ _) = "float"
type_name (str _) = "str"
type_name (arr _) = "list"
type_name (obj _) = "dict"

unfoldable pub require_mapping : String → Json → String → Result Row
require_mapping path (obj fs) what = ok (entries fs)
require_mapping path value what =
    err (persist_error path (what <> " must be a JSON object, got " <> type_name value))

unfoldable pub require_sequence : String → Json → String → Result (List Json)
require_sequence path (arr js) what = ok (elements js)
require_sequence path value what =
    err (persist_error path (what <> " must be a JSON array, got " <> type_name value))

-- The loop over `enumerate(items)`.
unfoldable pub require_strings : String → String → ℕ → List Json → Result (List String)
require_strings path what index [] = ok []
require_strings path what index (str s ∷ js) =
    bind_result (require_strings path what (index + 1) js) (λ ss. ok (s ∷ ss))
require_strings path what index (j ∷ js) =
    err (
      persist_error path (what <> "[" <> show_ℕ index <> "] must be a string, got " <> type_name j))

unfoldable pub require_string_sequence : String → Json → String → Result (List String)
unfolding require_sequence require_strings
require_string_sequence path value what =
    bind_result (require_sequence path value what) (require_strings path what 0)

unfoldable pub require_version : String → Json → Result ℕ
require_version path (num (pos n)) = ok n
require_version path (num (negsuc n)) =
    err (persist_error path ("mutations.version must not be negative, got " <> show_ℤ (negsuc n)))
require_version path value =
    err (persist_error path ("mutations.version must be an integer, got " <> type_name value))

unfoldable pub convert_os_error : String → Result (Unit {0}) → Result (Unit {0})
convert_os_error path (err os_error) = err (persist_error path "overlay could not be written")
convert_os_error path r = r

-- `_arm_persistence`: a failed first write becomes the refusal that names the file.
unfoldable pub arm_persistence : String → Method (Unit {0})
unfolding convert_os_error
arm_persistence path w =
    let (r, w') = attach_persistence (some path) w in (convert_os_error path r, w')

-- A bool is no int here.
abbrev pub is_int : Json → Bool
is_int (num _) = true
is_int _ = false

abbrev pub is_str : Json → Bool
is_str (str _) = true
is_str _ = false

abbrev is_bool : Json → Bool
is_bool (bool _) = true
is_bool _ = false

abbrev is_dict : Json → Bool
is_dict (obj _) = true
is_dict _ = false

abbrev is_null : Json → Bool
is_null null = true
is_null _ = false

abbrev pub all_dicts : List Json → Bool
all_dicts [] = true
all_dicts (j ∷ js) = is_dict j && all_dicts js

abbrev pub all_strs : Row → Bool
all_strs [] = true
all_strs ((_, j) ∷ r) = is_str j && all_strs r

abbrev is_dict_list : Json → Bool
is_dict_list (arr js) = all_dicts (elements js)
is_dict_list j = is_null j

abbrev is_text_dict : Json → Bool
is_text_dict (obj fs) = all_strs (entries fs)
is_text_dict _ = false

abbrev is_int_or_null : Json → Bool
is_int_or_null (num _) = true
is_int_or_null j = is_null j

-- `_FIELD_TYPE_CHECKS`: the annotation's text, the check and its description.
abbrev pub field_type_checks : Dict ((Json → Bool) × String)
field_type_checks =
    ("int", (is_int, "an integer"))
    ∷ ("str", (is_str, "a string"))
    ∷ ("bool", (is_bool, "a boolean"))
    ∷ ("int | None", (is_int_or_null, "an integer or null"))
    ∷ ("list[dict[str, Any]] | None", (is_dict_list, "an array of JSON objects or null"))
    ∷ ("dict[str, str]", (is_text_dict, "an object with string keys and string values"))
    ∷ []

-- `fields(WorkloadMutation)` and `fields(HelmReleaseMutation)`: names and annotations.
abbrev pub workload_fields : Dict String
workload_fields =
    ("replicas", "int | None")
    ∷ ("deployment_status", "str")
    ∷ ("pod_status", "str")
    ∷ ("ready_replicas", "int | None")
    ∷ ("restarts_delta", "int")
    ∷ ("deleted", "bool")
    ∷ ("generation", "int")
    ∷ ("observed_generation", "int")
    ∷ ("resource_version", "int")
    ∷ ("deletion_timestamp", "str")
    ∷ ("updated_at", "str")
    ∷ []

abbrev pub release_fields : Dict String
release_fields =
    ("revisions", "list[dict[str, Any]] | None")
    ∷ ("uninstalled", "bool")
    ∷ ("values", "dict[str, str]")
    ∷ ("updated_at", "str")
    ∷ []

unfoldable pub check_field : String → String → String → String → Json → Result (Unit {0})
unfolding lookup
check_field path what name annotation value = elim (lookup annotation field_type_checks) [
  | none ↦ err (
      persist_error path (
        what <> "." <> name <> " is declared " <> annotation
        <> ", which this loader cannot validate"))
  | some (predicate, description) ↦
      if predicate value
      then ok tt
      else err (
          persist_error path
            (what <> "." <> name <> " must be " <> description <> ", got " <> type_name value))
]

unfoldable pub require_field_types : String → String → Dict String → Row → Result (Unit {0})
unfolding check_field
require_field_types path what [] body = ok tt
require_field_types path what ((name, annotation) ∷ specs) body =
    let rest = require_field_types path what specs body in
    elim (lookup name body) [
      | none ↦ rest
      | some value ↦ bind_result (check_field path what name annotation value) (λ _. rest)
    ]

-- `a - b` of the keys of a row and a set, and the other way round.
unfoldable pub unknown_keys : Row → List String → List String
unknown_keys [] known = []
unknown_keys ((k, _) ∷ r) known =
    let rest = unknown_keys r known in if contains k known then rest else k ∷ rest

unfoldable pub missing_keys : List String → Row → List String
missing_keys [] r = []
missing_keys (k ∷ ks) r =
    let rest = missing_keys ks r in elim (lookup k r) [ none ↦ k ∷ rest | some _ ↦ rest ]

unfoldable pub refuse_keys : String → String → List String → Result (Unit {0})
refuse_keys path what [] = ok tt
refuse_keys path what (k ∷ ks) =
    err (persist_error path (what <> " " <> join ", " (sorted_texts (k ∷ ks))))
