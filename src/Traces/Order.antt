-- ===== src/Traces/Order.antt =====
-- The rows of the table stand in the order of their ids.
use anomaly_metric_creator.Base.{
  ◌≡◌, true, false, List, [], ◌∷◌, All, ℤ, ◌<ℤ◌, nat_eq, arith, if-elim,
}
use anomaly_metric_creator.Traces.Trace.{CommandTrace, lt_ℤ, eq_ℤ}
use anomaly_metric_creator.Traces.Table.{upsert}

-- Every id of the list is greater.
abbrev pub Above : ℤ → List CommandTrace → Type 0
Above i = All (λ t. i <ℤ t.id)

abbrev pub Ascending : List CommandTrace → Type 0
Ascending [] = Unit
Ascending (t ∷ ts) = Above t.id ts × Ascending ts

Above-trans : (i j : ℤ) (ts : List CommandTrace) → i <ℤ j → Above j ts → Above i ts
Above-trans i j [] h k = tt
Above-trans i j (t ∷ ts) h k = (omega (arith, k.0), Above-trans i j ts h k.1)

Above-upsert :
    (i : ℤ) (t : CommandTrace) (rs : List CommandTrace)
    → i <ℤ t.id
    → Above i rs
    → Above i (upsert t rs)
unfolding upsert
Above-upsert i t [] h k = (h, tt)
Above-upsert i t (r ∷ rs) h k =
    if-elim (Above i) (lt_ℤ t.id r.id) (λ _. (h, k))
      λ _. if-elim (Above i) (eq_ℤ t.id r.id) (λ _. (h, k.1)) λ _. (k.0, Above-upsert i t rs h k.1)

lt_ℤ→lt : (a b : ℤ) → lt_ℤ a b ≡ true → a <ℤ b
lt_ℤ→lt a b h = ground arith

not-lt_ℤ : (a b : ℤ) → lt_ℤ a b ≡ false → eq_ℤ a b ≡ false → b <ℤ a
not-lt_ℤ a b h k = ground arith

Above-eq : (i j : ℤ) (ts : List CommandTrace) → eq_ℤ i j ≡ true → Above j ts → Above i ts
Above-eq i j [] h k = tt
Above-eq i j (t ∷ ts) h k = (ground (arith, k.0), Above-eq i j ts h k.1)

-- The order is kept by every insertion.
pub Ascending-upsert :
    (t : CommandTrace) (rs : List CommandTrace) → Ascending rs → Ascending (upsert t rs)
unfolding upsert
Ascending-upsert t [] h = (tt, tt)
Ascending-upsert t (r ∷ rs) h =
    if-elim Ascending (lt_ℤ t.id r.id)
      (λ e. let below = lt_ℤ→lt t.id r.id e in ((below, Above-trans t.id r.id rs below h.0), h))
      λ e.
        if-elim Ascending (eq_ℤ t.id r.id) (λ k. (Above-eq t.id r.id rs k h.0, h.1))
          λ k. (Above-upsert r.id t rs (not-lt_ℤ t.id r.id e k) h.0, Ascending-upsert t rs h.1)
