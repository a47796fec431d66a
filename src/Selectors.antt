-- ===== src/Selectors.antt =====
-- The label selectors of server_k8s_api.py: `_split_selector`, `_selector_set_requirement` and
-- `_matches_label_selector`.
pub mod Plain
pub mod Terms
pub mod Tests
use Prim.Native.Nat.{◌-◌}
use Prim.Native.Char.{Char, code}
use Prim.Native.String
use Prim.Native.String.{◌++◌ as ◌<>◌}
use anomaly_metric_creator.Base.{
  String, ℕ, zero, suc, Bool, true, false, not, ◌&&◌, ◌||◌, List, [], ◌∷◌, map, keep, Option, none,
  some, contains, ◌==◌, string_eq, nat_eq, if◌then◌else◌,
}
use anomaly_metric_creator.Base.Dict.{Dict, lookup}
use anomaly_metric_creator.Base.Text.{strip, is_empty, starts_with, has_part, split_at, split_once}
use anomaly_metric_creator.OpsParse.Split.{non_empty}

abbrev pub one : Char → String
one c = String.◌∷◌ c String.[]

-- The items with the one that is being read; commas inside parentheses do not split.
unfoldable pub split_items : ℕ → String → String → List String
unfolding strip
split_items depth item String.[] = strip item ∷ []
split_items depth item (String.◌∷◌ c s) =
    let opened = split_items (suc depth) (item <> one c) s in
    let closed = split_items (depth - 1) (item <> one c) s in
    let next = strip item ∷ split_items depth "" s in
    let same = split_items depth (item <> one c) s in
    if code c == b'('
    then opened
    else if code c == b')'
    then closed
    else if code c == b',' && depth == 0
    then next
    else same

unfoldable pub split_selector : String → List String
unfolding split_items non_empty
split_selector selector = non_empty (split_items 0 "" selector)

-- `s.removeprefix(p)` where `p` begins `s`.
drop_prefix : String → String → String
drop_prefix String.[] s = s
drop_prefix (String.◌∷◌ p ps) String.[] = ""
drop_prefix (String.◌∷◌ p ps) (String.◌∷◌ c s) = drop_prefix ps s

-- `s.split(sep, 1)` where the separator occurs, for a separator of any length.
unfoldable pub cut_at : String → String → Option (String × String)
unfolding starts_with drop_prefix
cut_at sep String.[] = none
cut_at sep (String.◌∷◌ c s) =
    let rest : Option (String × String) = elim (cut_at sep s) [
      | none ↦ none
      | some (a, b) ↦ some (String.◌∷◌ c a, b)
    ] in
    if starts_with sep (String.◌∷◌ c s) then some ("", drop_prefix sep (String.◌∷◌ c s)) else rest

-- `item.partition(sep)` without the separator.
abbrev pub partition : String → String → String × String
partition sep item = elim (cut_at sep item) [ none ↦ (item, "") | some p ↦ p ]

-- `values[1:-1]` where it begins with `(` and ends with `)`.
drop_last : String → String
drop_last String.[] = ""
drop_last (String.◌∷◌ c String.[]) = ""
drop_last (String.◌∷◌ c (String.◌∷◌ d s)) = String.◌∷◌ c (drop_last (String.◌∷◌ d s))

ends_with_closing : String → Bool
ends_with_closing String.[] = false
ends_with_closing (String.◌∷◌ c String.[]) = code c == b')'
ends_with_closing (String.◌∷◌ c (String.◌∷◌ d s)) = ends_with_closing (String.◌∷◌ d s)

unfoldable pub without_parentheses : String → String
unfolding drop_last ends_with_closing
without_parentheses String.[] = ""
without_parentheses (String.◌∷◌ c s) =
    if code c == b'(' && ends_with_closing (String.◌∷◌ c s) then drop_last s else String.◌∷◌ c s

unfoldable pub selector_set_requirement : String → String → String × List String
unfolding cut_at strip without_parentheses split_at non_empty
selector_set_requirement item operator =
    let (key, rest) = partition operator item in
    (strip key, non_empty (map strip (split_at b',' (without_parentheses (strip rest)))))

-- `labels.get(key) in values`.
abbrev pub is_among : Option String → List String → Bool
is_among none values = false
is_among (some label) values = contains label values

-- `labels.get(key) == value`.
abbrev pub label_is : Option String → String → Bool
label_is none value = false
label_is (some label) value = label == value

abbrev pub has_label : String → Dict String → Bool
has_label key labels = elim (lookup key labels) [ none ↦ false | some _ ↦ true ]

abbrev pub equals : Dict String → String × String → Bool
equals labels (key, value) = label_is (lookup (strip key) labels) (strip value)

-- `item[1:]` of an item that begins with `!`.
abbrev pub absent_key : String → Option String
absent_key String.[] = none
absent_key (String.◌∷◌ c s) = if code c == b'!' then some s else none

-- Whether the labels pass one item.
unfoldable pub matches_item : Dict String → String → Bool
unfolding has_part selector_set_requirement cut_at strip
matches_item labels item =
    let (key, values) = selector_set_requirement item "notin" in
    let (key', values') = selector_set_requirement item "in" in
    let presence : Bool = elim (absent_key item) [
      | some key ↦ not (has_label (strip key) labels)
      | none ↦ has_label (strip item) labels
    ] in
    if has_part " notin " item || has_part " notin(" item
    then not (is_among (lookup key labels) values)
    else if has_part " in " item || has_part " in(" item
    then is_among (lookup key' labels) values'
    else if has_part "!=" item
    then not (equals labels (partition "!=" item))
    else if has_part "==" item
    then equals labels (partition "==" item)
    else if has_part "=" item
    then equals labels (partition "=" item)
    else presence

unfoldable pub matches_items : Dict String → List String → Bool
unfolding matches_item
matches_items labels [] = true
matches_items labels (item ∷ items) = matches_item labels item && matches_items labels items

unfoldable pub matches_label_selector : Dict String → String → Bool
unfolding split_selector matches_items
matches_label_selector labels selector =
    if is_empty selector then true else matches_items labels (split_selector selector)
