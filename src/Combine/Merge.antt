-- ===== src/Combine/Merge.antt =====
-- The merge of streams that are in the order of their keys.
use mathlib.Core.Bool.{true≢false}
use mathlib.Core.List.{nil≢cons}
use anomaly_metric_creator.Base.{
  String, ◌≡◌, refl, sym, ap, ◌∙◌, Bool, true, false, ◌||◌, List, [], ◌∷◌, keep, ◌==◌, string_eq,
  if◌then◌else◌, arith, Bool-cases, if-elim, inl, inr,
}
use anomaly_metric_creator.Combine.{Entry, entry_lt, merge_two}
use anomaly_metric_creator.Combine.Keys.{
  Key, key_lt, key_eq, eq_of_key_eq, key_lt_irrefl, key_lt_asym,
}
use anomaly_metric_creator.Combine.Views.{any_at, NotBefore, InOrder, NotBefore-trans}

entry_lt-not-before : (x y : Entry) → entry_lt y x ≡ true → key_lt x.key y.key ≡ false
entry_lt-not-before x y h = elim (Bool-cases (key_lt y.key x.key)) [
  | inl e ↦ key_lt_asym y.key x.key e
  | inr e ↦
      let same : key_eq y.key x.key ≡ true = ground (arith, h, e) in
      ap (λ k. key_lt x.key k) (eq_of_key_eq y.key x.key same) ∙ key_lt_irrefl x.key
]

not-entry_lt : (x y : Entry) → entry_lt y x ≡ false → key_lt y.key x.key ≡ false
not-entry_lt x y h = elim (Bool-cases (key_lt y.key x.key)) [
  | inl e ↦ absurd (true≢false (rw e at h))
  | inr e ↦ e
]

NotBefore-merge_two :
    (k : Key) (l r : List Entry) → NotBefore k l → NotBefore k r → NotBefore k (merge_two l r)
unfolding merge_two
NotBefore-merge_two k [] r h g = g
NotBefore-merge_two k (x ∷ l) [] h g = h
NotBefore-merge_two k (x ∷ l) (y ∷ r) h g =
    if-elim (NotBefore k) (entry_lt y x) (λ _. (g.0, NotBefore-merge_two k (x ∷ l) r h g.1))
      (λ _. (h.0, NotBefore-merge_two k l (y ∷ r) h.1 g))

pub InOrder-merge_two : (l r : List Entry) → InOrder l → InOrder r → InOrder (merge_two l r)
unfolding merge_two
InOrder-merge_two [] r h g = g
InOrder-merge_two (x ∷ l) [] h g = h
InOrder-merge_two (x ∷ l) (y ∷ r) h g =
    if-elim InOrder (entry_lt y x)
      (λ e.
        let first = entry_lt-not-before x y e in
        (
          NotBefore-merge_two y.key (x ∷ l) r (first, NotBefore-trans y.key x.key l first h.0) g.0,
          InOrder-merge_two (x ∷ l) r h g.1,
        ))
      (λ e.
        let first = not-entry_lt x y e in
        (
          NotBefore-merge_two x.key l (y ∷ r) h.0 (first, NotBefore-trans x.key y.key r first g.0),
          InOrder-merge_two l (y ∷ r) h.1 g,
        ))

pub any_at-merge_two :
    (k : Key) (l r : List Entry) → any_at k (merge_two l r) ≡ (any_at k l || any_at k r)
unfolding merge_two
any_at-merge_two k [] r = refl
any_at-merge_two k (x ∷ l) [] = none_there (key_eq x.key k || any_at k l)
  where
    none_there : (x : Bool) → x ≡ (x || false)
    none_there x = ground arith
any_at-merge_two k (x ∷ l) (y ∷ r) =
    if-elim (λ es. any_at k es ≡ (any_at k (x ∷ l) || any_at k (y ∷ r))) (entry_lt y x)
      (λ _.
        ap (λ b. key_eq y.key k || b) (any_at-merge_two k (x ∷ l) r)
        ∙ swap (key_eq y.key k) (any_at k (x ∷ l)) (any_at k r))
      (λ _.
        ap (λ b. key_eq x.key k || b) (any_at-merge_two k l (y ∷ r))
        ∙ regroup (key_eq x.key k) (any_at k l) (any_at k (y ∷ r)))
  where
    swap : (x y z : Bool) → (x || (y || z)) ≡ (y || (x || z))
    swap x y z = ground arith

    regroup : (x y z : Bool) → (x || (y || z)) ≡ ((x || y) || z)
    regroup x y z = ground arith

-- The entries of one component.
abbrev pub of_component : String → List Entry → List Entry
of_component c = keep (λ e. e.component == c)

none-cons :
    (c : String) (e : Entry) (es : List Entry)
    → of_component c (e ∷ es) ≡ []
    → ((e.component == c) ≡ false) × (of_component c es ≡ [])
none-cons c e es h = elim (Bool-cases (e.component == c)) [
  | inl i ↦ absurd (nil≢cons (sym (rw i at h)))
  | inr i ↦ (i, rw i at h)
]

-- A stream without the component leaves what there is of it as it is.
pub of_component-left :
    (c : String) (l r : List Entry)
    → of_component c r ≡ []
    → of_component c (merge_two l r) ≡ of_component c l
unfolding merge_two
of_component-left c [] r h = h
of_component-left c (x ∷ l) [] h = refl
of_component-left c (x ∷ l) (y ∷ r) h =
    if-elim (λ es. of_component c es ≡ of_component c (x ∷ l)) (entry_lt y x)
      (λ _. let n = none-cons c y r h in rw n.0 (of_component-left c (x ∷ l) r n.1))
      (λ _. ap (λ es. if x.component == c then x ∷ es else es) (of_component-left c l (y ∷ r) h))

pub of_component-right :
    (c : String) (l r : List Entry)
    → of_component c l ≡ []
    → of_component c (merge_two l r) ≡ of_component c r
unfolding merge_two
of_component-right c [] r h = refl
of_component-right c (x ∷ l) [] h = h
of_component-right c (x ∷ l) (y ∷ r) h =
    if-elim (λ es. of_component c es ≡ of_component c (y ∷ r)) (entry_lt y x)
      (λ _. ap (λ es. if y.component == c then y ∷ es else es) (of_component-right c (x ∷ l) r h))
      (λ _. let n = none-cons c x l h in rw n.0 (of_component-right c l (y ∷ r) n.1))
