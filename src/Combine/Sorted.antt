-- ===== src/Combine/Sorted.antt =====
-- `sorted(data_by_timestamp.keys())`: the buckets in the order of their keys.
use anomaly_metric_creator.Base.{
  String, ◌≡◌, refl, ap, ◌∙◌, Bool, true, false, ◌||◌, List, [], ◌∷◌, if◌then◌else◌, arith,
  Bool-cases, if-elim, ◌⊎◌, inl, inr,
}
use anomaly_metric_creator.Base.Dict.{lookup}
use anomaly_metric_creator.Combine.{Bucket, insert_bucket, sorted_buckets}
use anomaly_metric_creator.Combine.Keys.{
  Key, key_lt, key_eq, key_lt-ne, key_lt-otherwise, key_eq-other,
}
use anomaly_metric_creator.Combine.Buckets.{has, cells_at, After, Ascending, After-trans}
use anomaly_metric_creator.Combine.Views.{KeysOnce}

has-insert_bucket :
    (k : Key) (b : Bucket) (cs : List Bucket)
    → has k (insert_bucket b cs) ≡ (key_eq b.0 k || has k cs)
unfolding insert_bucket
has-insert_bucket k b [] = refl
has-insert_bucket k b (c ∷ cs) =
    if-elim (λ ds. has k ds ≡ (key_eq b.0 k || has k (c ∷ cs))) (key_lt c.0 b.0)
      (λ _.
        ap (λ x. key_eq c.0 k || x) (has-insert_bucket k b cs)
        ∙ swap (key_eq c.0 k) (key_eq b.0 k) (has k cs))
      (λ _. refl)
  where
    swap : (x y z : Bool) → (x || (y || z)) ≡ (y || (x || z))
    swap x y z = ground arith

cells_at-insert_bucket :
    (k : Key) (n : String) (b : Bucket) (cs : List Bucket)
    → cells_at k n (insert_bucket b cs) ≡ cells_at k n (b ∷ cs)
unfolding insert_bucket
cells_at-insert_bucket k n b [] = refl
cells_at-insert_bucket k n b (c ∷ cs) =
    if-elim (λ ds. cells_at k n ds ≡ cells_at k n (b ∷ c ∷ cs)) (key_lt c.0 b.0)
      (λ e.
        later (cells_at-insert_bucket k n b cs) (Bool-cases (key_eq c.0 k)) (key_lt-ne c.0 b.0 e))
      (λ _. refl)
  where
    later :
        cells_at k n (insert_bucket b cs) ≡ cells_at k n (b ∷ cs)
        → (key_eq c.0 k ≡ true) ⊎ (key_eq c.0 k ≡ false)
        → key_eq c.0 b.0 ≡ false
        → cells_at k n (c ∷ insert_bucket b cs) ≡ cells_at k n (b ∷ c ∷ cs)
    later ih (inl i) h = rw (i, key_eq-other c.0 b.0 k h i) refl
    later ih (inr i) h = rw i ih

After-insert_bucket :
    (k : Key) (b : Bucket) (cs : List Bucket)
    → key_lt k b.0 ≡ true
    → After k cs
    → After k (insert_bucket b cs)
unfolding insert_bucket
After-insert_bucket k b [] h a = (h, tt)
After-insert_bucket k b (c ∷ cs) h a =
    if-elim (After k) (key_lt c.0 b.0) (λ _. (a.0, After-insert_bucket k b cs h a.1)) (λ _. (h, a))

Ascending-insert_bucket :
    (b : Bucket) (cs : List Bucket)
    → has b.0 cs ≡ false
    → Ascending cs
    → Ascending (insert_bucket b cs)
unfolding insert_bucket
Ascending-insert_bucket b [] h a = (tt, tt)
Ascending-insert_bucket b (c ∷ cs) h a =
    let other : key_eq c.0 b.0 ≡ false = ground (arith, h) in
    let rest : has b.0 cs ≡ false = ground (arith, h) in
    if-elim Ascending (key_lt c.0 b.0)
      (λ e. (After-insert_bucket c.0 b cs e a.0, Ascending-insert_bucket b cs rest a.1))
      (λ e.
        let before = key_lt-otherwise b.0 c.0 e other in
        ((before, After-trans b.0 c.0 cs before a.0), a))

pub has-sorted_buckets : (k : Key) (bs : List Bucket) → has k (sorted_buckets bs) ≡ has k bs
unfolding sorted_buckets
has-sorted_buckets k [] = refl
has-sorted_buckets k (b ∷ bs) =
    has-insert_bucket k b (sorted_buckets bs)
    ∙ ap (λ x. key_eq b.0 k || x) (has-sorted_buckets k bs)

pub cells_at-sorted_buckets :
    (k : Key) (n : String) (bs : List Bucket) → cells_at k n (sorted_buckets bs) ≡ cells_at k n bs
unfolding sorted_buckets
cells_at-sorted_buckets k n [] = refl
cells_at-sorted_buckets k n (b ∷ bs) =
    cells_at-insert_bucket k n b (sorted_buckets bs)
    ∙ ap (λ x. if key_eq b.0 k then lookup n b.1 else x) (cells_at-sorted_buckets k n bs)

pub Ascending-sorted_buckets : (bs : List Bucket) → KeysOnce bs → Ascending (sorted_buckets bs)
unfolding sorted_buckets
Ascending-sorted_buckets [] h = tt
Ascending-sorted_buckets (b ∷ bs) h =
    Ascending-insert_bucket b (sorted_buckets bs) (has-sorted_buckets b.0 bs ∙ h.0)
      (Ascending-sorted_buckets bs h.1)
