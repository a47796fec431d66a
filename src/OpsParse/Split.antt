-- ===== src/OpsParse/Split.antt =====
-- `_split_flags` and `_store_flag_value` of server_ops_parse.py.
use Prim.Native.String.{◌++◌ as ◌<>◌}
use anomaly_metric_creator.Base.{
  String, Bool, true, false, ◌||◌, ◌&&◌, not, List, [], ◌∷◌, ◌++◌, Option, none, some, contains,
  if◌then◌else◌, ◌==◌, string_eq,
}
use anomaly_metric_creator.Base.Dict.{Dict, lookup, insert}
use anomaly_metric_creator.Base.Text.{or_else, starts_with, split_once, strip, is_empty}
use anomaly_metric_creator.OpsParse.{
  FlagValue, flag, text, texts, value_flags, repeatable_value_flags, bool_flags,
}
use anomaly_metric_creator.OpsParse.Redact.{is_sensitive_flag_name}

-- What the loop has gathered.
pub record Split : Type 0 where
  pub namespace : String
  pub flags : Dict FlagValue
  pub positionals : List String

-- The existing value of a repeatable flag is never `True`, since only this function stores it.
unfoldable pub store_flag_value : String → String → Dict FlagValue → Dict FlagValue
store_flag_value key value flags =
    let repeated : Dict FlagValue = elim (lookup key flags) [
      | none ↦ insert key (text value) flags
      | some (texts existing) ↦ insert key (texts (existing ++ value ∷ [])) flags
      | some (text existing) ↦ insert key (texts (existing ∷ value ∷ [])) flags
      | some flag ↦ insert key (texts ("True" ∷ value ∷ [])) flags
    ] in
    if contains key repeatable_value_flags then repeated else insert key (text value) flags

-- `tokens[i + 1] if i + 1 < len(tokens) else ""`.
abbrev pub next_or_empty : List String → String
next_or_empty [] = ""
next_or_empty (t ∷ _) = t

abbrev pub key_of : String → String
key_of token = elim (split_once b'=' token) [ none ↦ token | some (key, _) ↦ key ]

abbrev pub value_of : String → String
value_of token = elim (split_once b'=' token) [ none ↦ "" | some (_, value) ↦ value ]

abbrev pub with_flag : String → FlagValue → Split → Split
with_flag key value s = record s { flags = insert key value s.flags }

abbrev pub with_namespace : String → Split → Split
with_namespace value s = record s {
  namespace = or_else value s.namespace;
  flags = insert "namespace" (text value) s.flags;
}

abbrev pub store : String → String → Split → Split
store key value s = record s { flags = store_flag_value key value s.flags }

-- How far a turn of the loop moves on: past the token, past its value too, or to the end.
pub data Turn : Type 0 where
  one two stop : Split → Turn

-- A flag that `--flag=value` may set: a value flag with two dashes.
abbrev pub has_value_prefix : List String → String → Bool
has_value_prefix [] token = false
has_value_prefix (prefix ∷ flags) token =
    (starts_with "--" prefix && starts_with (prefix <> "=") token) || has_value_prefix flags token

abbrev pub is_inline_json : List String → Bool
is_inline_json [] = false
is_inline_json (t ∷ _) = starts_with "{" (strip t) || starts_with "[" (strip t)

abbrev pub is_value : List String → Bool
is_value [] = false
is_value (t ∷ _) = not (starts_with "-" t)

-- The last tests of a turn: sensitive flags, other flags, and positionals.
unfoldable pub split_rest : String → List String → Split → Turn
unfolding starts_with
split_rest token rest s =
    if starts_with "-" token && is_sensitive_flag_name token
    then (if is_value rest
        then two (with_flag token (text (next_or_empty rest)) s)
        else one (with_flag token (text "") s))
    else if contains token bool_flags
    then one (with_flag token flag s)
    else if starts_with "-" token
    then one (with_flag token flag s)
    else one (record s { positionals = s.positionals ++ token ∷ [] })

-- A sensitive flag that is given as `key=value`, or else `other`.
abbrev pub keyed : Bool → Option (String × String) → Split → Turn → Turn
keyed true (some (key, value)) s other = one (with_flag key (text value) s)
keyed _ _ s other = other

unfoldable pub split_turn : String → List String → Split → Turn
unfolding split_rest
split_turn token rest s =
    if token == "--"
    then stop (record s { positionals = s.positionals ++ token ∷ rest })
    else if contains token ("-n" ∷ "--namespace" ∷ [])
    then two (with_namespace (next_or_empty rest) s)
    else if starts_with "--namespace=" token
    then one (with_namespace (value_of token) s)
    else if contains token ("-A" ∷ "--all-namespaces" ∷ [])
    then one (with_flag token flag (record s { namespace = "*" }))
    else if starts_with "--dry-run=" token
    then one (with_flag "--dry-run" (text (value_of token)) s)
    else if starts_with "-p=" token
    then one (with_flag "-p" (text (value_of token)) s)
    else if token == "-p" && is_inline_json rest
    then two (with_flag "-p" (text (next_or_empty rest)) s)
    else if contains token value_flags
    then two (store token (next_or_empty rest) s)
    else if has_value_prefix value_flags token
    then one (store (key_of token) (value_of token) s)
    else keyed (starts_with "--" token && is_sensitive_flag_name (key_of token))
        (split_once b'=' token) s (split_rest token rest s)

-- The loop: a value is skipped with its flag, where there is one.
unfoldable pub split_loop : List String → Split → Split
unfolding split_turn
split_loop [] s = s
split_loop (token ∷ []) s = elim (split_turn token [] s) [ one t ↦ t | two t ↦ t | stop t ↦ t ]
split_loop (token ∷ next ∷ rest) s = elim (split_turn token (next ∷ rest) s) [
  | one t ↦ split_loop (next ∷ rest) t
  | two t ↦ split_loop rest t
  | stop t ↦ t
]

unfoldable pub split_flags : List String → String → Split
unfolding split_loop
split_flags tokens default_namespace =
    split_loop tokens (record { namespace = default_namespace; flags = []; positionals = [] })

-- `_flag_values`: the texts that are not empty.
unfoldable pub non_empty : List String → List String
unfolding is_empty
non_empty [] = []
non_empty (s ∷ l) = let rest = non_empty l in if is_empty s then rest else s ∷ rest

unfoldable pub flag_values : Dict FlagValue → List String → List String
flag_values flags [] = []
flag_values flags (name ∷ names) =
    elim (lookup name flags) [
      | some (texts l) ↦ non_empty l
      | some (text s) ↦ non_empty (s ∷ [])
      | _ ↦ []
    ]
    ++ flag_values flags names
