-- ===== src/OpsParse/Targets.antt =====
-- Kinds, resource tokens and explain targets of server_ops_parse.py.
use anomaly_metric_creator.Base.{
  String, ℕ, zero, suc, Bool, true, false, List, [], ◌∷◌, Option, none, some, take, drop, length,
  if◌then◌else◌, string_eq,
}
use anomaly_metric_creator.Base.Dict.{lookup, get_or}
use anomaly_metric_creator.Base.Text.{lower, or_else, split_once, split_at, join, is_empty}
use anomaly_metric_creator.Exec.{Result, ok, err, index_error}
use anomaly_metric_creator.OpsParse.{kind_aliases, explain_group_aliases, explain_resource_targets}
use anomaly_metric_creator.OpsParse.Split.{non_empty}

unfoldable pub normalize_kind : String → String
unfolding get_or
normalize_kind raw = get_or (lower raw) (lower raw) kind_aliases

-- The kind and the name of `token`, which is `KIND/NAME` or `KIND`.
unfoldable pub split_resource_token : String → String → String × String
unfolding normalize_kind or_else is_empty
split_resource_token token default_kind =
    if is_empty token then (default_kind, "") else elim (split_once b'/' token) [
      | some (raw_kind, name) ↦ (normalize_kind (or_else raw_kind default_kind), name)
      | none ↦ (normalize_kind (or_else token default_kind), "")
    ]

unfoldable pub normalize_explain_resource : String → String
unfolding normalize_kind
normalize_explain_resource raw = elim (lookup (lower raw) explain_group_aliases) [
  | some kind ↦ kind
  | none ↦ normalize_kind (lower raw)
]

abbrev pub is_explained : String → Bool
is_explained kind = elim (lookup kind explain_resource_targets) [ none ↦ false | some _ ↦ true ]

-- The loop over the lengths of the resource, the longest first.
unfoldable pub explain_prefix : ℕ → List String → Option (String × String)
unfolding normalize_explain_resource
explain_prefix zero parts = none
explain_prefix (suc end) parts =
    let kind = normalize_explain_resource (lower (join "." (take (suc end) parts))) in
    let shorter = explain_prefix end parts in
    if is_explained kind then some (kind, join "." (drop (suc end) parts)) else shorter

-- `parts[0]` raises where the target is all dots.
unfoldable pub explain_found : Option (String × String) → List String → Result (String × String)
unfolding normalize_explain_resource
explain_found (some found) parts = ok found
explain_found none [] = err index_error
explain_found none (first ∷ later) = ok (normalize_explain_resource first, join "." later)

unfoldable pub split_explain_target : String → Result (String × String)
unfolding explain_prefix explain_found non_empty is_empty
split_explain_target target =
    let parts = non_empty (split_at b'.' target) in
    if is_empty target
    then ok ("", "")
    else explain_found (explain_prefix (length parts) parts) parts
