-- ===== src/Combine/Views.antt =====
-- What the two ways to fill buckets make of the entries: the same at each key and component, where
-- those of the merge come in the order of their keys.
use anomaly_metric_creator.Base.{
  String, ◌≡◌, refl, ap, ap₂, ◌∙◌, Bool, true, false, ◌&&◌, ◌||◌, List, [], ◌∷◌, All, Option, some,
  ◌==◌, string_eq, if◌then◌else◌, arith, Bool-cases, ◌⊎◌, inl, inr,
}
use anomaly_metric_creator.Base.Dict.{Dict, lookup, lookup-insert, lookup-nil}
use anomaly_metric_creator.Combine.{Bucket, Entry, put_entry, collect}
use anomaly_metric_creator.Combine.Keys.{
  Key, key_lt, key_eq, eq_of_key_eq, key_eq_sym, key_eq-other, not-lt_trans,
}
use anomaly_metric_creator.Combine.Buckets.{has, cells_at}

abbrev pub any_at : Key → List Entry → Bool
any_at k [] = false
any_at k (e ∷ es) = key_eq e.key k || any_at k es

abbrev pub is_at : Key → String → Entry → Bool
is_at k c e = key_eq e.key k && e.component == c

-- The last cells of the component at the key, else those from before.
abbrev pub last_cells : Key → String → List Entry → Option (Dict String) → Option (Dict String)
last_cells k c [] o = o
last_cells k c (e ∷ es) o = last_cells k c es (if is_at k c e then some e.cells else o)

abbrev pub NotBefore : Key → List Entry → Type 0
NotBefore k = All (λ e. key_lt e.key k ≡ false)

abbrev pub InOrder : List Entry → Type 0
InOrder [] = Unit
InOrder (e ∷ es) = NotBefore e.key es × InOrder es

pub NotBefore-trans :
    (j k : Key) (es : List Entry) → key_lt k j ≡ false → NotBefore k es → NotBefore j es
NotBefore-trans j k [] h a = tt
NotBefore-trans j k (e ∷ es) h a = (not-lt_trans j k e.key h a.0, NotBefore-trans j k es h a.1)

has-put_entry :
    (k : Key) (e : Entry) (bs : List Bucket) → has k (put_entry e bs) ≡ (key_eq e.key k || has k bs)
unfolding put_entry
has-put_entry k e [] = refl
has-put_entry k e (b ∷ bs) = elim (Bool-cases (key_eq b.0 e.key)) [
  | inl h ↦
      rw h (again (key_eq e.key k) (key_eq b.0 k) (ap (λ j. key_eq j k) (eq_of_key_eq b.0 e.key h)))
  | inr h ↦ rw h (
      ap (λ x. key_eq b.0 k || x) (has-put_entry k e bs)
      ∙ swap (key_eq b.0 k) (key_eq e.key k) (has k bs))
]
  where
    again : (x y : Bool) → y ≡ x → (y || has k bs) ≡ (x || (y || has k bs))
    again x y h = ground arith

    swap : (x y z : Bool) → (x || (y || z)) ≡ (y || (x || z))
    swap x y z = ground arith

cells_at-put_entry :
    (k : Key) (c : String) (e : Entry) (bs : List Bucket)
    → cells_at k c (put_entry e bs) ≡ (if is_at k c e then some e.cells else cells_at k c bs)
unfolding put_entry
cells_at-put_entry k c e [] =
    ground (arith, lookup-insert c e.component e.cells [], lookup-nil {V = Dict String} c)
cells_at-put_entry k c e (b ∷ bs) = elim (Bool-cases (key_eq b.0 e.key)) [
  | inl h ↦
      let i = ap (λ j. key_eq j k) (eq_of_key_eq b.0 e.key h) in
      rw h (ground (arith, i, lookup-insert c e.component e.cells b.1))
  | inr h ↦ rw h (other (cells_at-put_entry k c e bs) (Bool-cases (key_eq b.0 k)) h)
]
  where
    other :
        cells_at k c (put_entry e bs) ≡ (if is_at k c e then some e.cells else cells_at k c bs)
        → (key_eq b.0 k ≡ true) ⊎ (key_eq b.0 k ≡ false)
        → key_eq b.0 e.key ≡ false
        → (if key_eq b.0 k then lookup c b.1 else cells_at k c (put_entry e bs))
          ≡ (if is_at k c e then some e.cells else cells_at k c (b ∷ bs))
    other ih (inl i) h = rw (i, key_eq-other b.0 e.key k h i) refl
    other ih (inr i) h = rw i ih

pub has-collect :
    (k : Key) (es : List Entry) (bs : List Bucket)
    → has k (collect es bs) ≡ (any_at k es || has k bs)
unfolding collect
has-collect k [] bs = refl
has-collect k (e ∷ es) bs =
    has-collect k es (put_entry e bs)
    ∙ ap (λ x. any_at k es || x) (has-put_entry k e bs)
    ∙ swap (any_at k es) (key_eq e.key k) (has k bs)
  where
    swap : (x y z : Bool) → (x || (y || z)) ≡ ((y || x) || z)
    swap x y z = ground arith

pub cells_at-collect :
    (k : Key) (c : String) (es : List Entry) (bs : List Bucket)
    → cells_at k c (collect es bs) ≡ last_cells k c es (cells_at k c bs)
unfolding collect
cells_at-collect k c [] bs = refl
cells_at-collect k c (e ∷ es) bs =
    cells_at-collect k c es (put_entry e bs) ∙ ap (last_cells k c es) (cells_at-put_entry k c e bs)

-- Each key of the buckets once.
abbrev pub KeysOnce : List Bucket → Type 0
KeysOnce [] = Unit
KeysOnce (b ∷ bs) = (has b.0 bs ≡ false) × KeysOnce bs

put_entry-KeysOnce : (e : Entry) (bs : List Bucket) → KeysOnce bs → KeysOnce (put_entry e bs)
unfolding put_entry
put_entry-KeysOnce e [] h = (refl, tt)
put_entry-KeysOnce e (b ∷ bs) h = elim (Bool-cases (key_eq b.0 e.key)) [
  | inl i ↦ rw i h
  | inr i ↦
      let j = key_eq_sym e.key b.0 ∙ i in
      rw i (has-put_entry b.0 e bs ∙ ap₂ ◌||◌ j h.0, put_entry-KeysOnce e bs h.1)
]

pub collect-KeysOnce : (es : List Entry) (bs : List Bucket) → KeysOnce bs → KeysOnce (collect es bs)
unfolding collect
collect-KeysOnce [] bs h = h
collect-KeysOnce (e ∷ es) bs h = collect-KeysOnce es (put_entry e bs) (put_entry-KeysOnce e bs h)
