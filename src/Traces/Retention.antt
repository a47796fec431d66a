-- ===== src/Traces/Retention.antt =====
-- What `_enforce_sqlite_retention` leaves of a table in the order of its ids.
use mathlib.Core.List.{reverse, reverse-reverse}
use anomaly_metric_creator.Base.{
  ℕ, zero, suc, ◌-◌, ◌≡◌, refl, ap, ◌∙◌, true, false, not, List, [], ◌∷◌, length, take, drop, All,
  All-drop, ℤ, ◌<ℤ◌, Option, none, some, ◌==◌, nat_eq, if◌then◌else◌, arith, if-elim,
}
use anomaly_metric_creator.Base.Last.{reverse-last, All-reverse}
use anomaly_metric_creator.Traces.Trace.{CommandTrace, lt_ℤ}
use anomaly_metric_creator.Traces.Table.{
  Table, min_id, min_id_of, from_id, cut_off, newest_rows, enforce_retention,
}
use anomaly_metric_creator.Traces.Order.{Above, Ascending}

-- No id of the list is smaller.
abbrev NotBelow : ℤ → List CommandTrace → Type 0
NotBelow m = All (λ t. lt_ℤ t.id m ≡ false)

NotBelow-trans :
    (m n : ℤ) (ts : List CommandTrace) → lt_ℤ n m ≡ false → NotBelow n ts → NotBelow m ts
NotBelow-trans m n [] h k = tt
NotBelow-trans m n (t ∷ ts) h k = (ground (arith, k.0), NotBelow-trans m n ts h k.1)

min_id_of-le : (m : ℤ) (ts : List CommandTrace) → lt_ℤ m (min_id_of m ts) ≡ false
min_id_of-le m [] = ground arith
min_id_of-le m (t ∷ ts) =
    let n = if lt_ℤ t.id m then t.id else m in ground (arith, min_id_of-le n ts)

min_id_of-NotBelow : (m : ℤ) (ts : List CommandTrace) → NotBelow (min_id_of m ts) ts
min_id_of-NotBelow m [] = tt
min_id_of-NotBelow m (t ∷ ts) =
    let n = if lt_ℤ t.id m then t.id else m in
    (ground (arith, min_id_of-le n ts), min_id_of-NotBelow n ts)

min_id_of-Above : (i m : ℤ) (ts : List CommandTrace) → i <ℤ m → Above i ts → i <ℤ min_id_of m ts
min_id_of-Above i m [] h k = h
min_id_of-Above i m (t ∷ ts) h k =
    min_id_of-Above i (if lt_ℤ t.id m then t.id else m) ts
      (if-elim (λ n. i <ℤ n) (lt_ℤ t.id m) (λ _. k.0) (λ _. h)) k.1

from_id-all : (m : ℤ) (ts : List CommandTrace) → NotBelow m ts → from_id m ts ≡ ts
from_id-all m [] h = refl
from_id-all m (t ∷ ts) h = rw (h.0) (ap (λ l. t ∷ l) (from_id-all m ts h.1))

Above-drop : (i : ℤ) (k : ℕ) (ts : List CommandTrace) → Above i ts → Above i (drop k ts)
Above-drop i k ts = All-drop (λ t. i <ℤ t.id) k ts

-- A cutoff that lies between the two parts of the rows.
from_id-drop :
    (m : ℤ) (k : ℕ) (rows : List CommandTrace)
    → Ascending rows
    → NotBelow m (drop k rows)
    → ((i : ℤ) → Above i (drop k rows) → i <ℤ m)
    → from_id m rows ≡ drop k rows
from_id-drop m zero rows h low high = from_id-all m rows low
from_id-drop m (suc k) [] h low high = refl
from_id-drop m (suc k) (r ∷ rows) h low high =
    let below : lt_ℤ r.id m ≡ true = lt→lt_ℤ r.id m (high r.id (Above-drop r.id k rows h.0)) in
    rw below (from_id-drop m k rows h.1 low high)
  where
    lt→lt_ℤ : (a b : ℤ) → a <ℤ b → lt_ℤ a b ≡ true
    lt→lt_ℤ a b p = ground arith

-- The newest rows that the retention asks for.
abbrev pub kept : ℕ → List CommandTrace → List CommandTrace
kept zero newest = newest
kept (suc n) newest = take (suc n) newest

abbrev IsCutoff : List CommandTrace → Option ℤ → Type 0
IsCutoff b none = b ≡ []
IsCutoff b (some m) = NotBelow m b × ((i : ℤ) → Above i b → i <ℤ m)

min_id-IsCutoff : (b : List CommandTrace) → IsCutoff b (min_id b)
min_id-IsCutoff [] = refl
min_id-IsCutoff (t ∷ ts) =
    ((min_id_of-le t.id ts, min_id_of-NotBelow t.id ts), λ i h. min_id_of-Above i t.id ts h.0 h.1)

take-nil : (n : ℕ) (xs : List CommandTrace) → take (suc n) xs ≡ [] → xs ≡ take (suc n) xs
take-nil n [] h = refl
take-nil n (x ∷ xs) h = cc

cut_off-newest :
    (n : ℕ) (d : Table) (o : Option ℤ)
    → Ascending d.rows
    → IsCutoff (newest_rows (suc n) d.rows) o
    → reverse (cut_off o d).rows ≡ newest_rows (suc n) d.rows
cut_off-newest n d none h c = take-nil n (reverse d.rows) c
cut_off-newest n d (some m) h c =
    let k = length d.rows - suc n in
    let e = reverse-last (suc n) d.rows in
    let low = All-reverse (λ t. lt_ℤ t.id m ≡ false) _ (rw (← e) at c.0) in
    ap reverse (
      from_id-drop m k d.rows h (rw (reverse-reverse (drop k d.rows)) at low)
        (λ i p. c.1 i (rw (← e) (All-reverse (λ t. i <ℤ t.id) (drop k d.rows) p))))
    ∙ e

-- The newest rows are kept, as many as the retention asks for; a retention of 0 keeps them all.
pub enforce_retention-kept :
    (d : Table)
    → Ascending d.rows
    → reverse (enforce_retention d).rows ≡ kept d.retention (reverse d.rows)
unfolding enforce_retention nat_eq
enforce_retention-kept d h = by_size d.retention
  where
    by_size :
        (r : ℕ)
        → reverse (if r == 0 then d else cut_off (min_id (newest_rows r d.rows)) d).rows
          ≡ kept r (reverse d.rows)
    by_size zero = refl
    by_size (suc n) =
        let b = newest_rows (suc n) d.rows in
        let e : (suc n == 0) ≡ false = ground arith in
        rw e (cut_off-newest n d (min_id b) h (min_id-IsCutoff b))

Ascending-from_id : (m : ℤ) (rows : List CommandTrace) → Ascending rows → Ascending (from_id m rows)
Ascending-from_id m [] h = tt
Ascending-from_id m (r ∷ rows) h =
    if-elim Ascending (not (lt_ℤ r.id m))
      (λ _. (Above-from_id r.id m rows h.0, Ascending-from_id m rows h.1))
      (λ _. Ascending-from_id m rows h.1)
  where
    Above-from_id : (i m : ℤ) (rows : List CommandTrace) → Above i rows → Above i (from_id m rows)
    Above-from_id i m [] h = tt
    Above-from_id i m (r ∷ rows) h =
        if-elim (Above i) (not (lt_ℤ r.id m)) (λ _. (h.0, Above-from_id i m rows h.1))
          (λ _. Above-from_id i m rows h.1)

pub enforce_retention-Ascending :
    (d : Table) → Ascending d.rows → Ascending (enforce_retention d).rows
unfolding enforce_retention
enforce_retention-Ascending d h =
    if-elim (λ (e : Table). Ascending e.rows) (d.retention == 0) (λ _. h)
      (λ _. cut (min_id (newest_rows d.retention d.rows)))
  where
    cut : (o : Option ℤ) → Ascending (cut_off o d).rows
    cut none = h
    cut (some m) = Ascending-from_id m d.rows h
