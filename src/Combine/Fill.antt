-- ===== src/Combine/Fill.antt =====
-- The streaming loop over entries in the order of their keys.
use anomaly_metric_creator.Base.{
  String, ◌≡◌, refl, sym, ap, ◌∙◌, Bool, true, false, ◌&&◌, ◌||◌, List, [], ◌∷◌, All, Option, none,
  some, ◌==◌, string_eq, if◌then◌else◌, arith, Bool-cases, if-elim, ◌⊎◌, inl, inr,
}
use anomaly_metric_creator.Base.Dict.{Dict, lookup, insert, lookup-insert, lookup-nil}
use anomaly_metric_creator.Combine.{Bucket, Entry, fill_buckets}
use anomaly_metric_creator.Combine.Keys.{
  Key, key_lt, key_eq, eq_of_key_eq, key_lt_irrefl, key_lt-ne, key_eq_sym, key_lt-otherwise,
  key_lt-not-before, key_eq-same, not-lt_trans,
}
use anomaly_metric_creator.Combine.Buckets.{has, cells_at, After, Ascending}
use anomaly_metric_creator.Combine.Views.{any_at, is_at, last_cells, NotBefore, InOrder}

has-fill_some :
    (k : Key) (b : Bucket) (es : List Entry)
    → has k (fill_buckets (some b) es) ≡ (key_eq b.0 k || any_at k es)
unfolding fill_buckets
has-fill_some k b [] = refl
has-fill_some k b (e ∷ es) =
    if-elim (λ ds. has k ds ≡ (key_eq b.0 k || any_at k (e ∷ es))) (key_eq e.key b.0)
      (λ h.
        has-fill_some k (b.0, insert e.component e.cells b.1) es
        ∙ again (key_eq b.0 k) (key_eq e.key k) (key_eq-same e.key b.0 k h))
      (λ h. ap (λ x. key_eq b.0 k || x) (has-fill_some k (e.key, insert e.component e.cells []) es))
  where
    again : (x y : Bool) → y ≡ x → (x || any_at k es) ≡ (x || (y || any_at k es))
    again x y h = ground arith

abbrev NotSooner : Key → List Bucket → Type 0
NotSooner k = All (λ b. key_lt b.0 k ≡ false)

NotSooner-trans :
    (j k : Key) (bs : List Bucket) → key_lt k j ≡ false → NotSooner k bs → NotSooner j bs
NotSooner-trans j k [] h a = tt
NotSooner-trans j k (b ∷ bs) h a = (not-lt_trans j k b.0 h a.0, NotSooner-trans j k bs h a.1)

After-NotSooner : (j k : Key) (bs : List Bucket) → key_lt j k ≡ true → NotSooner k bs → After j bs
After-NotSooner j k [] h a = tt
After-NotSooner j k (b ∷ bs) h a = (key_lt-not-before j k b.0 h a.0, After-NotSooner j k bs h a.1)

NotSooner-fill_some :
    (b : Bucket) (es : List Entry)
    → NotBefore b.0 es
    → InOrder es
    → NotSooner b.0 (fill_buckets (some b) es)
unfolding fill_buckets
NotSooner-fill_some b [] h o = (key_lt_irrefl b.0, tt)
NotSooner-fill_some b (e ∷ es) h o =
    if-elim (NotSooner b.0) (key_eq e.key b.0)
      (λ _. NotSooner-fill_some (b.0, insert e.component e.cells b.1) es h.1 o.1)
      (λ _. (
        key_lt_irrefl b.0,
        NotSooner-trans b.0 e.key _ h.0
            (NotSooner-fill_some (e.key, insert e.component e.cells []) es o.0 o.1),
      ))

Ascending-fill_some :
    (b : Bucket) (es : List Entry)
    → NotBefore b.0 es
    → InOrder es
    → Ascending (fill_buckets (some b) es)
unfolding fill_buckets
Ascending-fill_some b [] h o = (tt, tt)
Ascending-fill_some b (e ∷ es) h o =
    let c : Bucket = (e.key, insert e.component e.cells []) in
    if-elim Ascending (key_eq e.key b.0)
      (λ _. Ascending-fill_some (b.0, insert e.component e.cells b.1) es h.1 o.1)
      (λ i. (
        After-NotSooner b.0 e.key _ (key_lt-otherwise b.0 e.key h.0 i)
            (NotSooner-fill_some c es o.0 o.1),
        Ascending-fill_some c es o.0 o.1,
      ))

-- A key that all others are after has no more cells to come.
last_cells-past :
    (k : Key) (c : String) (j : Key) (es : List Entry) (o : Option (Dict String))
    → key_lt k j ≡ true
    → NotBefore j es
    → last_cells k c es o ≡ o
last_cells-past k c j [] o h a = refl
last_cells-past k c j (e ∷ es) o h a =
    let later = key_lt-not-before k j e.key h a.0 in
    let other : key_eq e.key k ≡ false = key_eq_sym e.key k ∙ key_lt-ne k e.key later in
    ap (λ x. last_cells k c es (if x && e.component == c then some e.cells else o)) other
    ∙ last_cells-past k c j es o h a.1

new_cells :
    (k : Key) (c : String) (e : Entry)
    → cells_at k c ((e.key, insert e.component e.cells []) ∷ [])
      ≡ (if is_at k c e then some e.cells else none)
new_cells k c e =
    ground (arith, lookup-insert c e.component e.cells [], lookup-nil {V = Dict String} c)

cells_at-fill_some :
    (k : Key) (c : String) (b : Bucket) (es : List Entry)
    → NotBefore b.0 es
    → InOrder es
    → cells_at k c (fill_buckets (some b) es) ≡ last_cells k c es (cells_at k c (b ∷ []))
unfolding fill_buckets
cells_at-fill_some k c b [] h o = refl
cells_at-fill_some k c b (e ∷ es) h o =
    if-elim (λ ds. cells_at k c ds ≡ last_cells k c (e ∷ es) (cells_at k c (b ∷ [])))
      (key_eq e.key b.0)
      (λ i.
        cells_at-fill_some k c (b.0, insert e.component e.cells b.1) es h.1 o.1
        ∙ ap (last_cells k c es) (same i))
      (λ i.
        other (cells_at-fill_some k c (e.key, insert e.component e.cells []) es o.0 o.1) i
          (Bool-cases (key_eq b.0 k)))
  where
    same :
        key_eq e.key b.0 ≡ true
        → cells_at k c ((b.0, insert e.component e.cells b.1) ∷ [])
          ≡ (if is_at k c e then some e.cells else cells_at k c (b ∷ []))
    same i = ground (arith, key_eq-same e.key b.0 k i, lookup-insert c e.component e.cells b.1)

    other :
        cells_at k c (fill_buckets (some (e.key, insert e.component e.cells [])) es)
          ≡ last_cells k c es (cells_at k c ((e.key, insert e.component e.cells []) ∷ []))
        → key_eq e.key b.0 ≡ false
        → (key_eq b.0 k ≡ true) ⊎ (key_eq b.0 k ≡ false)
        → cells_at k c (b ∷ fill_buckets (some (e.key, insert e.component e.cells [])) es)
          ≡ last_cells k c (e ∷ es) (cells_at k c (b ∷ []))
    other ih i (inl j) =
        let past = rw (eq_of_key_eq b.0 k j) at (key_lt-otherwise b.0 e.key h.0 i) in
        rw j
          (sym (last_cells-past k c e.key (e ∷ es) (lookup c b.1) past (key_lt_irrefl e.key, o.0)))
    other ih i (inr j) = rw j (ih ∙ ap (last_cells k c es) (new_cells k c e))

pub has-fill_buckets : (k : Key) (es : List Entry) → has k (fill_buckets none es) ≡ any_at k es
unfolding fill_buckets
has-fill_buckets k [] = refl
has-fill_buckets k (e ∷ es) = has-fill_some k (e.key, insert e.component e.cells []) es

pub Ascending-fill_buckets : (es : List Entry) → InOrder es → Ascending (fill_buckets none es)
unfolding fill_buckets
Ascending-fill_buckets [] o = tt
Ascending-fill_buckets (e ∷ es) o =
    Ascending-fill_some (e.key, insert e.component e.cells []) es o.0 o.1

pub cells_at-fill_buckets :
    (k : Key) (c : String) (es : List Entry)
    → InOrder es
    → cells_at k c (fill_buckets none es) ≡ last_cells k c es none
unfolding fill_buckets
cells_at-fill_buckets k c [] o = refl
cells_at-fill_buckets k c (e ∷ es) o =
    cells_at-fill_some k c (e.key, insert e.component e.cells []) es o.0 o.1
    ∙ ap (last_cells k c es) (new_cells k c e)
