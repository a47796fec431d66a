-- ===== src/Selectors/Terms.antt =====
-- A selector of terms `key=value`.
use Prim.Native.Char.{Char, code}
use Prim.Native.String.{◌++◌ as ◌<>◌}
use mathlib.Core.Bool.{true≢false}
use text.Mathlib.TextLemmas.{append_assoc, append-nil, nil-append, cons-append}
use anomaly_metric_creator.Base.{
  String, ℕ, ◌≡◌, refl, sym, ap, ap₂, ◌∙◌, Bool, true, false, not, ◌&&◌, List, [], ◌∷◌, none, some,
  ◌==◌, string_eq, nat_eq, arith,
}
use anomaly_metric_creator.Base.Dict.{Dict, lookup}
use anomaly_metric_creator.Base.Text.{is_blank, is_empty, strip, has_part, join}
use anomaly_metric_creator.OpsParse.Split.{non_empty}
use anomaly_metric_creator.Selectors.{
  one, partition, equals, split_items, split_selector, label_is, matches_item, matches_items,
  matches_label_selector,
}
use anomaly_metric_creator.Selectors.Plain.{
  lacks, blank_free, strip-blank_free, has_part-lacks, equation, has_part-twice, has_part-once,
  cut_at-equation, lacks-append, blank_free-append,
}

-- No blank, comma, parenthesis, exclamation mark or equals sign.
abbrev pub is_plain : String → Bool
is_plain s =
    blank_free s
    && (lacks b',' s && (lacks b'(' s && (lacks b')' s && (lacks b'!' s && lacks b'=' s))))

split_items-char :
    (item : String) (d : Char) (s : String)
    → (code d == b',') ≡ false
    → (code d == b'(') ≡ false
    → (code d == b')') ≡ false
    → split_items 0 item (String.◌∷◌ d s) ≡ split_items 0 (item <> one d) s
unfolding split_items
split_items-char item d s a b c = ground (arith, a, b, c)

one-append : (item : String) (d : Char) (s : String) → (item <> one d) <> s ≡ item <> String.◌∷◌ d s
one-append item d s =
    append_assoc item (one d) s
    ∙ ap (λ t. item <> t) (cons-append d "" s ∙ ap (λ t. String.◌∷◌ d t) (nil-append s))

split_items-append :
    (item s rest : String)
    → lacks b',' s ≡ true
    → lacks b'(' s ≡ true
    → lacks b')' s ≡ true
    → split_items 0 item (s <> rest) ≡ split_items 0 (item <> s) rest
split_items-append item String.[] rest a b c = rw (nil-append rest, append-nil item) refl
split_items-append item (String.◌∷◌ d s) rest a b c =
    ap (split_items 0 item) (cons-append d s rest)
    ∙ split_items-char item d (s <> rest) (ground (arith, a)) (ground (arith, b))
        (ground (arith, c))
    ∙ split_items-append (item <> one d) s rest (ground (arith, a)) (ground (arith, b))
        (ground (arith, c))
    ∙ ap (λ t. split_items 0 t rest) (one-append item d s)

-- An item that needs no strip, before a comma and at the end.
split_items-comma :
    (s rest : String)
    → lacks b',' s ≡ true
    → lacks b'(' s ≡ true
    → lacks b')' s ≡ true
    → blank_free s ≡ true
    → split_items 0 "" (s <> ("," <> rest)) ≡ s ∷ split_items 0 "" rest
unfolding split_items nat_eq
split_items-comma s rest a b c f =
    split_items-append "" s ("," <> rest) a b c
    ∙ ap (λ t. split_items 0 ("" <> s) t)
        (cons-append "," "" rest ∙ ap (λ t. String.◌∷◌ "," t) (nil-append rest))
    ∙ ap (λ t. strip t ∷ split_items 0 "" rest) (nil-append s)
    ∙ ap (λ t. t ∷ split_items 0 "" rest) (strip-blank_free s f)

split_items-end :
    (s : String)
    → lacks b',' s ≡ true
    → lacks b'(' s ≡ true
    → lacks b')' s ≡ true
    → blank_free s ≡ true
    → split_items 0 "" s ≡ s ∷ []
unfolding split_items
split_items-end s a b c f =
    ap (split_items 0 "") (sym (append-nil s))
    ∙ split_items-append "" s "" a b c
    ∙ ap (λ t. strip t ∷ []) (nil-append s)
    ∙ ap (λ t. t ∷ []) (strip-blank_free s f)

blank_free-lacks : (s : String) → blank_free s ≡ true → lacks b' ' s ≡ true
unfolding is_blank
blank_free-lacks String.[] h = refl
blank_free-lacks (String.◌∷◌ c s) h = ground (arith, h, blank_free-lacks s)

lacks-equation :
    (n : ℕ) (k v : String) → lacks n (equation k v) ≡ (lacks n k && (not (b'=' == n) && lacks n v))
lacks-equation n k v = lacks-append n k (String.◌∷◌ "=" v)

blank_free-equation : (k v : String) → blank_free (equation k v) ≡ (blank_free k && blank_free v)
unfolding is_blank nat_eq
blank_free-equation k v = blank_free-append k (String.◌∷◌ "=" v)

is_plain-equation :
    (k v : String)
    → is_plain k ≡ true
    → is_plain v ≡ true
    → (lacks b',' (equation k v) ≡ true)
      × (lacks b'(' (equation k v) ≡ true)
      × (lacks b')' (equation k v) ≡ true)
      × (lacks b'!' (equation k v) ≡ true)
      × (blank_free (equation k v) ≡ true)
unfolding nat_eq
is_plain-equation k v h g = (
  ground (arith, h, g, lacks-equation b',' k v),
  ground (arith, h, g, lacks-equation b'(' k v),
  ground (arith, h, g, lacks-equation b')' k v),
  ground (arith, h, g, lacks-equation b'!' k v),
  ground (arith, h, g, blank_free-equation k v),
)

abbrev pub Term : Type 0
Term = String × String

abbrev pub terms : List Term → List String
terms [] = []
terms ((k, v) ∷ ts) = equation k v ∷ terms ts

abbrev pub IsPlain : List Term → Type 0
IsPlain [] = Unit
IsPlain ((k, v) ∷ ts) = ((is_plain k ≡ true) × (is_plain v ≡ true)) × IsPlain ts

-- Each label has its value.
abbrev pub all_equal : Dict String → List Term → Bool
all_equal labels [] = true
all_equal labels ((k, v) ∷ ts) = label_is (lookup k labels) v && all_equal labels ts

split_items-terms :
    (t : Term) (ts : List Term)
    → IsPlain (t ∷ ts)
    → split_items 0 "" (join "," (terms (t ∷ ts))) ≡ terms (t ∷ ts)
unfolding join
split_items-terms (k, v) [] ((h, g), _) =
    let (a, b, c, _, f) = is_plain-equation k v h g in split_items-end (equation k v) a b c f
split_items-terms (k, v) (u ∷ ts) ((h, g), p) =
    let (a, b, c, _, f) = is_plain-equation k v h g in
    split_items-comma (equation k v) (join "," (terms (u ∷ ts))) a b c f
    ∙ ap (λ l. equation k v ∷ l) (split_items-terms u ts p)

is_empty-equation : (k v : String) → is_empty (equation k v) ≡ false
unfolding is_empty
is_empty-equation String.[] v = rw (nil-append (String.◌∷◌ "=" v)) refl
is_empty-equation (String.◌∷◌ c k) v = rw (cons-append c k (String.◌∷◌ "=" v)) refl

is_empty-append : (s t : String) → is_empty s ≡ false → is_empty (s <> t) ≡ false
unfolding is_empty
is_empty-append String.[] t h = absurd (true≢false h)
is_empty-append (String.◌∷◌ c s) t h = rw (cons-append c s t) refl

is_empty-join : (t : Term) (ts : List Term) → is_empty (join "," (terms (t ∷ ts))) ≡ false
unfolding join
is_empty-join (k, v) [] = is_empty-equation k v
is_empty-join (k, v) (u ∷ ts) = is_empty-append (equation k v) _ (is_empty-equation k v)

non_empty-terms : (ts : List Term) → non_empty (terms ts) ≡ terms ts
unfolding non_empty
non_empty-terms [] = refl
non_empty-terms ((k, v) ∷ ts) = ground (arith, is_empty-equation k v, non_empty-terms ts)

matches_item-equation :
    (labels : Dict String) (k v : String)
    → is_plain k ≡ true
    → is_plain v ≡ true
    → matches_item labels (equation k v) ≡ label_is (lookup k labels) v
unfolding matches_item
matches_item-equation labels k v h g =
    let (_, _, c, e, f) = is_plain-equation k v h g in
    let blank = blank_free-lacks (equation k v) f in
    let parts = cut_at-equation k v (ground (arith, h)) in
    let item = equation k v in
    let a1 : has_part " notin " item ≡ false = has_part-lacks " " "notin " item blank in
    let a2 : has_part " notin(" item ≡ false = has_part-lacks " " "notin(" item blank in
    let a3 : has_part " in " item ≡ false = has_part-lacks " " "in " item blank in
    let a4 : has_part " in(" item ≡ false = has_part-lacks " " "in(" item blank in
    let a5 : has_part "!=" item ≡ false = has_part-lacks "!" "=" item e in
    let a6 = has_part-twice k v (ground (arith, h)) (ground (arith, g)) in
    let parted : partition "=" item ≡ (k, v) =
      ap (λ o. elim o [ none ↦ (item, "") | some p ↦ p ]) parts in
    rw (a1, a2, a3, a4, a5, a6, has_part-once k v)
      (ap (equals labels) parted
        ∙ ap₂ (λ key value. label_is (lookup key labels) value)
            (strip-blank_free k (ground (arith, h))) (strip-blank_free v (ground (arith, g))))

matches_items-terms :
    (labels : Dict String) (ts : List Term)
    → IsPlain ts
    → matches_items labels (terms ts) ≡ all_equal labels ts
unfolding matches_items
matches_items-terms labels [] p = refl
matches_items-terms labels ((k, v) ∷ ts) ((h, g), p) =
    ap₂ (λ x y. x && y) (matches_item-equation labels k v h g) (matches_items-terms labels ts p)

-- A selector of terms `key=value`, separated by commas, selects the labels that have each value at its
-- key. It is so where no key and no value holds a blank or one of `,()!=`.
pub matches_label_selector-terms :
    (labels : Dict String) (ts : List Term)
    → IsPlain ts
    → matches_label_selector labels (join "," (terms ts)) ≡ all_equal labels ts
unfolding matches_label_selector split_selector is_empty join
matches_label_selector-terms labels [] p = refl
matches_label_selector-terms labels (t ∷ ts) p = rw (is_empty-join t ts) (
    ap (λ l. matches_items labels (non_empty l)) (split_items-terms t ts p)
    ∙ ap (matches_items labels) (non_empty-terms (t ∷ ts))
    ∙ matches_items-terms labels (t ∷ ts) p)
