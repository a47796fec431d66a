-- ===== src/Combine/Streams.antt =====
-- The streams of all files: merged, and one after the other.
use anomaly_metric_creator.Base.{
  String, ℕ, ◌≡◌, refl, sym, ap, ap₂, ◌∙◌, append-nil, Bool, true, false, ◌&&◌, ◌||◌, List, [], ◌∷◌,
  ◌++◌, map, joined, All, Option, none, some, ◌==◌, string_eq, if◌then◌else◌, arith, Bool-cases,
  inl, inr,
}
use anomaly_metric_creator.Base.Dict.{Dict}
use anomaly_metric_creator.Combine.{
  Csv, Bucket, Entry, merge_all, timestamp_of, iter_rows, component_rows, rows_are_monotonic,
  collect, collect_files,
}
use anomaly_metric_creator.Combine.Keys.{Key, key_eq, next_occurrence}
use anomaly_metric_creator.Combine.Views.{any_at, is_at, last_cells, InOrder}
use anomaly_metric_creator.Combine.Merge.{
  InOrder-merge_two, any_at-merge_two, of_component, of_component-left, of_component-right,
}
use anomaly_metric_creator.Combine.Occurrences.{component_rows-InOrder, count_rows-component_rows}

-- No component is listed twice.
abbrev pub DistinctNames : List Csv → Type 0
DistinctNames [] = Unit
DistinctNames (f ∷ fs) = All (λ g. (f.component == g.component) ≡ false) fs × DistinctNames fs

abbrev pub IsMonotonic : Csv → Type 0
IsMonotonic f = rows_are_monotonic f ≡ true

abbrev pub merged : List Csv → List Entry
merged fs = merge_all (map component_rows fs)

abbrev pub in_turn : List Csv → List Entry
in_turn fs = joined (map component_rows fs)

pub InOrder-merged : (fs : List Csv) → All IsMonotonic fs → InOrder (merged fs)
unfolding merge_all
InOrder-merged [] h = tt
InOrder-merged (f ∷ fs) h =
    InOrder-merge_two (component_rows f) (merged fs) (component_rows-InOrder f h.0)
      (InOrder-merged fs h.1)

any_at-append : (k : Key) (l r : List Entry) → any_at k (l ++ r) ≡ (any_at k l || any_at k r)
any_at-append k [] r = refl
any_at-append k (e ∷ l) r =
    ap (λ x. key_eq e.key k || x) (any_at-append k l r)
    ∙ regroup (key_eq e.key k) (any_at k l) (any_at k r)
  where
    regroup : (x y z : Bool) → (x || (y || z)) ≡ ((x || y) || z)
    regroup x y z = ground arith

pub any_at-merged : (k : Key) (fs : List Csv) → any_at k (merged fs) ≡ any_at k (in_turn fs)
unfolding merge_all
any_at-merged k [] = refl
any_at-merged k (f ∷ fs) =
    any_at-merge_two k (component_rows f) (merged fs)
    ∙ ap (λ x. any_at k (component_rows f) || x) (any_at-merged k fs)
    ∙ sym (any_at-append k (component_rows f) (in_turn fs))

of_component-append :
    (c : String) (l r : List Entry) → of_component c (l ++ r) ≡ of_component c l ++ of_component c r
of_component-append c [] r = refl
of_component-append c (e ∷ l) r = elim (Bool-cases (e.component == c)) [
  | inl h ↦ rw h (ap (λ es. e ∷ es) (of_component-append c l r))
  | inr h ↦ rw h (of_component-append c l r)
]

of_component-iter_rows :
    (c : String) (f : Csv) (p : Option String) (n : ℕ) (rows : List (Dict String))
    → (f.component == c) ≡ false
    → of_component c (iter_rows f p n rows) ≡ []
unfolding iter_rows
of_component-iter_rows c f p n [] h = refl
of_component-iter_rows c f p n (row ∷ rows) h =
    rw h (
      let t = timestamp_of row in
      of_component-iter_rows c f (some t) (next_occurrence p n t) rows h)

of_component-in_turn :
    (f : Csv) (c : String) (fs : List Csv)
    → (f.component == c) ≡ true
    → All (λ g. (f.component == g.component) ≡ false) fs
    → of_component c (in_turn fs) ≡ []
of_component-in_turn f c [] h a = refl
of_component-in_turn f c (g ∷ fs) h a =
    let other : (g.component == c) ≡ false = ground (arith, h, a.0) in
    of_component-append c (component_rows g) (in_turn fs)
    ∙ ap₂ ◌++◌ (of_component-iter_rows c g none 0 g.rows other) (of_component-in_turn f c fs h a.1)

pub of_component-merged :
    (c : String) (fs : List Csv)
    → DistinctNames fs
    → of_component c (merged fs) ≡ of_component c (in_turn fs)
unfolding merge_all
of_component-merged c [] d = refl
of_component-merged c (f ∷ fs) d =
    let ih = of_component-merged c fs d.1 in
    let mine = of_component c (component_rows f) in
    elim (Bool-cases (f.component == c)) [
      | inl h ↦
          let gone = of_component-in_turn f c fs h d.0 in
          of_component-left c (component_rows f) (merged fs) (ih ∙ gone)
          ∙ sym (append-nil mine)
          ∙ ap (λ es. mine ++ es) (sym gone)
          ∙ sym (of_component-append c (component_rows f) (in_turn fs))
      | inr h ↦
          let gone = of_component-iter_rows c f none 0 f.rows h in
          of_component-right c (component_rows f) (merged fs) gone
          ∙ ih
          ∙ ap (λ es. es ++ of_component c (in_turn fs)) (sym gone)
          ∙ sym (of_component-append c (component_rows f) (in_turn fs))
    ]

of_component-mine :
    (c : String) (e : Entry) (es : List Entry)
    → (e.component == c) ≡ true
    → of_component c (e ∷ es) ≡ e ∷ of_component c es
of_component-mine c e es h = rw h refl

of_component-other :
    (c : String) (e : Entry) (es : List Entry)
    → (e.component == c) ≡ false
    → of_component c (e ∷ es) ≡ of_component c es
of_component-other c e es h = rw h refl

-- The other components do not matter for the cells of one.
pub last_cells-of_component :
    (k : Key) (c : String) (es : List Entry) (o : Option (Dict String))
    → last_cells k c es o ≡ last_cells k c (of_component c es) o
last_cells-of_component k c [] o = refl
last_cells-of_component k c (e ∷ es) o = elim (Bool-cases (e.component == c)) [
  | inl h ↦
      last_cells-of_component k c es (if is_at k c e then some e.cells else o)
      ∙ ap (λ x. last_cells k c x o) (sym (of_component-mine c e es h))
  | inr h ↦
      ap (λ x. last_cells k c es (if key_eq e.key k && x then some e.cells else o)) h
      ∙ ap (λ x. last_cells k c es (if x then some e.cells else o)) (and_false (key_eq e.key k))
      ∙ last_cells-of_component k c es o
      ∙ ap (λ x. last_cells k c x o) (sym (of_component-other c e es h))
]
  where
    and_false : (x : Bool) → (x && false) ≡ false
    and_false x = ground arith

collect-append :
    (l r : List Entry) (bs : List Bucket) → collect (l ++ r) bs ≡ collect r (collect l bs)
unfolding collect
collect-append [] r bs = refl
collect-append (e ∷ l) r bs = collect-append l r _

pub collect_files-in_turn :
    (fs : List Csv) (bs : List Bucket)
    → All IsMonotonic fs
    → collect_files fs bs ≡ collect (in_turn fs) bs
unfolding collect_files collect
collect_files-in_turn [] bs h = refl
collect_files-in_turn (f ∷ fs) bs h =
    ap (λ es. collect_files fs (collect es bs)) (count_rows-component_rows f h.0)
    ∙ collect_files-in_turn fs (collect (component_rows f) bs) h.1
    ∙ sym (collect-append (component_rows f) (in_turn fs) bs)
