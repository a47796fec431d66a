-- ===== src/Combine/Buckets.antt =====
-- Buckets in the order of their keys, each key once: what they hold decides the rows that are written.
use mathlib.Core.Bool.{true≢false}
use anomaly_metric_creator.Base.{
  String, ◌≡◌, refl, sym, ap, ap₂, ◌∙◌, Bool, true, false, ◌||◌, List, [], ◌∷◌, map, All, Option,
  none, if◌then◌else◌, arith, Bool-cases, inl, inr,
}
use anomaly_metric_creator.Base.Dict.{Dict, lookup, get_or}
use anomaly_metric_creator.Combine.{
  Csv, Bucket, output_row, put_components, put_metrics, metric_names,
}
use anomaly_metric_creator.Combine.Keys.{
  Key, key_lt, key_eq, key_eq_refl, eq_of_key_eq, key_lt_trans, key_lt_total, key_lt-ne, key_eq_sym,
}

abbrev pub has : Key → List Bucket → Bool
has k [] = false
has k (b ∷ bs) = key_eq b.0 k || has k bs

-- The cells of a component at a key.
abbrev pub cells_at : Key → String → List Bucket → Option (Dict String)
cells_at k c [] = none
cells_at k c (b ∷ bs) = if key_eq b.0 k then lookup c b.1 else cells_at k c bs

abbrev pub After : Key → List Bucket → Type 0
After k = All (λ b. key_lt k b.0 ≡ true)

abbrev pub Ascending : List Bucket → Type 0
Ascending [] = Unit
Ascending (b ∷ bs) = After b.0 bs × Ascending bs

pub record SameView (ds bs : List Bucket) : Type 0 where
  pub keys : (k : Key) → has k ds ≡ has k bs
  pub cells : (k : Key) (c : String) → cells_at k c ds ≡ cells_at k c bs

pub has-After : (k : Key) (bs : List Bucket) → After k bs → has k bs ≡ false
has-After k [] h = refl
has-After k (b ∷ bs) h =
    let e : key_eq b.0 k ≡ false = key_eq_sym b.0 k ∙ key_lt-ne k b.0 h.0 in
    rw e (has-After k bs h.1)

pub After-trans : (j k : Key) (bs : List Bucket) → key_lt j k ≡ true → After k bs → After j bs
After-trans j k [] h a = tt
After-trans j k (b ∷ bs) h a = (key_lt_trans j k b.0 h a.0, After-trans j k bs h a.1)

pub cells_at-absent :
    (k : Key) (c : String) (bs : List Bucket) → has k bs ≡ false → cells_at k c bs ≡ none
cells_at-absent k c [] h = refl
cells_at-absent k c (b ∷ bs) h = elim (Bool-cases (key_eq b.0 k)) [
  | inl e ↦ absurd (true≢false (rw e at h))
  | inr e ↦ rw e (cells_at-absent k c bs (rw e at h))
]

has-head : (b : Bucket) (bs : List Bucket) → has b.0 (b ∷ bs) ≡ true
has-head b bs = rw (key_eq_refl b.0) refl

-- A key before all others is not among them.
has-before :
    (k : Key) (b : Bucket) (bs : List Bucket)
    → key_lt k b.0 ≡ true
    → Ascending (b ∷ bs)
    → has k (b ∷ bs) ≡ false
has-before k b bs h a = has-After k (b ∷ bs) (h, After-trans k b.0 bs h a.0)

head-eq :
    (a b : Bucket) (ds bs : List Bucket)
    → Ascending (a ∷ ds)
    → Ascending (b ∷ bs)
    → SameView (a ∷ ds) (b ∷ bs)
    → a.0 ≡ b.0
head-eq a b ds bs p q v =
    key_lt_total a.0 b.0
      (no (key_lt a.0 b.0) λ e. sym (has-head a ds) ∙ v.keys a.0 ∙ has-before a.0 b bs e q)
      (no (key_lt b.0 a.0) λ e. sym (has-head b bs) ∙ sym (v.keys b.0) ∙ has-before b.0 a ds e p)
  where
    no : (x : Bool) → (x ≡ true → true ≡ false) → x ≡ false
    no true f = absurd (true≢false (f refl))
    no false f = refl

tail-SameView :
    (a b : Bucket) (ds bs : List Bucket)
    → a.0 ≡ b.0
    → After a.0 ds
    → After b.0 bs
    → SameView (a ∷ ds) (b ∷ bs)
    → SameView ds bs
tail-SameView a b ds bs e p q v = record { keys = keys; cells = cells }
  where
    same : (k : Key) → key_eq a.0 k ≡ true → (has k ds ≡ false) × (has k bs ≡ false)
    same k h =
        let k_is = eq_of_key_eq a.0 k h in
        (
          ap (λ i. has i ds) (sym k_is) ∙ has-After a.0 ds p,
          ap (λ i. has i bs) (sym k_is ∙ e) ∙ has-After b.0 bs q,
        )

    keys : (k : Key) → has k ds ≡ has k bs
    keys k = elim (Bool-cases (key_eq a.0 k)) [
      | inl h ↦ (same k h).0 ∙ sym (same k h).1
      | inr h ↦
          let i = ap (λ j. key_eq j k) (sym e) ∙ h in
          ap (λ x. x || has k ds) (sym h) ∙ v.keys k ∙ ap (λ x. x || has k bs) i
    ]

    cells : (k : Key) (c : String) → cells_at k c ds ≡ cells_at k c bs
    cells k c = elim (Bool-cases (key_eq a.0 k)) [
      | inl h ↦ cells_at-absent k c ds (same k h).0 ∙ sym (cells_at-absent k c bs (same k h).1)
      | inr h ↦
          let i = ap (λ j. key_eq j k) (sym e) ∙ h in
          ap (λ x. if x then lookup c a.1 else cells_at k c ds) (sym h)
          ∙ v.cells k c
          ∙ ap (λ x. if x then lookup c b.1 else cells_at k c bs) i
    ]

get_or-same :
    {V : Type 0} (c : String) (d : V) (x y : Dict V)
    → lookup c x ≡ lookup c y
    → get_or c d x ≡ get_or c d y
unfolding get_or
get_or-same c d x y h = ground (arith, h)

put_components-same :
    (x y : Dict (Dict String)) (files : List Csv) (row : Dict String)
    → ((c : String) → lookup c x ≡ lookup c y)
    → put_components x files row ≡ put_components y files row
unfolding put_components
put_components-same x y [] row h = refl
put_components-same x y (f ∷ files) row h =
    put_components-same x y files _ h
    ∙ ap (λ cells. put_components y files (put_metrics f.component cells (metric_names f) row))
        (get_or-same f.component [] x y (h f.component))

-- Ascending buckets of one view are written ds the same rows.
pub output_row-SameView :
    (files : List Csv) (ds bs : List Bucket)
    → Ascending ds
    → Ascending bs
    → SameView ds bs
    → map (output_row files) ds ≡ map (output_row files) bs
output_row-SameView files [] [] p q v = refl
output_row-SameView files [] (b ∷ bs) p q v =
    absurd (true≢false (sym (has-head b bs) ∙ sym (v.keys b.0)))
output_row-SameView files (a ∷ ds) [] p q v = absurd (true≢false (sym (has-head a ds) ∙ v.keys a.0))
output_row-SameView files (a ∷ ds) (b ∷ bs) p q v =
    let e = head-eq a b ds bs p q v in
    ap₂ ◌∷◌ (same e) (output_row-SameView files ds bs p.1 q.1 (tail-SameView a b ds bs e p.0 q.0 v))
  where
    found : (b : Bucket) (bs : List Bucket) (c : String) → cells_at b.0 c (b ∷ bs) ≡ lookup c b.1
    found b bs c = rw (key_eq_refl b.0) refl

    same : a.0 ≡ b.0 → output_row files a ≡ output_row files b
    same e =
        put_components-same a.1 b.1 files _ (λ c.
          sym (found a ds c) ∙ v.cells a.0 c ∙ ap (λ k. cells_at k c (b ∷ bs)) e ∙ found b bs c)
        ∙ ap (λ (k : Key). put_components b.1 files (("timestamp", k.0) ∷ [])) e
