-- ===== src/Selectors/Tests.antt =====
-- A selector of two terms, and one whose key holds the letters of an operator.
use anomaly_metric_creator.Base.{String, ◌≡◌, refl, true, false, List, [], ◌∷◌, string_eq, nat_eq}
use anomaly_metric_creator.Base.Dict.{Dict, lookup}
use anomaly_metric_creator.Base.Text.{
  is_empty, starts_with, has_part, join, strip, is_blank, split_at,
}
use anomaly_metric_creator.OpsParse.Split.{non_empty}
use anomaly_metric_creator.Selectors.{
  split_items, split_selector, cut_at, without_parentheses, selector_set_requirement, matches_item,
  matches_items, matches_label_selector,
}
use anomaly_metric_creator.Selectors.Terms.{Term, terms, all_equal, matches_label_selector-terms}

abbrev labels : Dict String
labels = ("app", "api") ∷ ("app.kubernetes.io/instance", "shop") ∷ []

abbrev wanted : List Term
wanted = ("app", "api") ∷ ("app.kubernetes.io/instance", "shop") ∷ []

among : matches_label_selector labels "app in (web, api),app!=web,!gone" ≡ true
unfolding matches_label_selector split_selector split_items matches_items matches_item
    selector_set_requirement cut_at without_parentheses strip split_at non_empty is_empty
    starts_with has_part lookup string_eq nat_eq
among = refl

-- The key is cut at the `in` of `instance`.
cut_key : matches_label_selector labels "app.kubernetes.io/instance in (shop)" ≡ false
unfolding matches_label_selector split_selector split_items matches_items matches_item
    selector_set_requirement cut_at without_parentheses strip split_at non_empty is_empty
    starts_with has_part lookup string_eq nat_eq
cut_key = refl

matches_label_selector-terms_example :
    matches_label_selector labels (join "," (terms wanted)) ≡ all_equal labels wanted
unfolding nat_eq is_blank
matches_label_selector-terms_example =
    matches_label_selector-terms labels wanted ((refl, refl), ((refl, refl), tt))
