-- ===== src/ArgvSafety.antt =====
-- cli_argv_safety.py: the flags that a refusal of a command line names, and never a value.
pub mod Origin
pub mod Tests
use Prim.Native.String.{[], ◌∷◌, ◌++◌}
use Prim.Native.Char.{Char, code}
use mathlib.Core.List
use anomaly_metric_creator.Base.{
  String, Bool, true, false, not, ◌&&◌, ◌||◌, List, contains, if◌then◌else◌, ◌==◌, string_eq,
  nat_eq, leb,
}
use anomaly_metric_creator.Base.Dict.{set_add, sorted_texts}
use anomaly_metric_creator.Base.Text.{before, is_empty, strip_dashes, starts_with, has_part, join}

abbrev is_digit : Char → Bool
is_digit c = leb b'0' (code c) && leb (code c) b'9'

abbrev starts_with_digit : String → Bool
starts_with_digit [] = false
starts_with_digit (c ∷ s) = is_digit c

abbrev dot_or_digit : String → Bool
dot_or_digit [] = false
dot_or_digit (c ∷ s) = is_digit c || (code c == b'.' && starts_with_digit s)

-- `_NEGATIVE_NUMBER.match(token)`: a dash, at most one dot, and a digit.
unfoldable pub is_negative_number : String → Bool
is_negative_number [] = false
is_negative_number (c ∷ s) = code c == b'-' && dot_or_digit s

abbrev pub is_flag : String → Bool
is_flag token = starts_with "-" token && not (is_negative_number token)

-- A flag written without `=` may take the token after it as its value.
abbrev pub takes_value : String → Bool
takes_value token = is_flag token && not (has_part "=" token)

abbrev pub cut : String → String
cut = before b'='

abbrev pub is_named : String → Bool
is_named name = not (is_empty (strip_dashes name))

-- The loop, with `may_take_value` and the names so far.
unfoldable pub names_from : Bool → List String → List String → List String
unfolding is_empty
names_from may_take_value List.[] names = names
names_from may_take_value (List.◌∷◌ token tokens) names =
    let kept =
      if is_flag token && not may_take_value && is_named (cut token)
      then set_add (cut token) names
      else names in
    let rest = names_from (takes_value token) tokens kept in if token == "--" then names else rest

unfoldable pub flag_names : List String → List String
unfolding names_from
flag_names tokens = sorted_texts (names_from false tokens List.[])

unfoldable pub describe_names : List String → String
describe_names List.[] = "unrecognized arguments (not shown: none of them is a flag)"
describe_names (List.◌∷◌ n names) =
    "unrecognized arguments: " ++ join ", " (List.◌∷◌ n names) ++ " (values are not shown)"

unfoldable pub describe_unrecognized : List String → String
unfolding flag_names describe_names
describe_unrecognized tokens = describe_names (flag_names tokens)
