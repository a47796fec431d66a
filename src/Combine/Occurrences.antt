-- ===== src/Combine/Occurrences.antt =====
-- The occurrence that is counted along equal timestamps, in a file whose keys do not step back: the
-- entries are in order, and it is the number of earlier rows of the timestamp in the whole file.
use mathlib.Core.Bool.{true≢false}
use anomaly_metric_creator.Base.{
  String, ℕ, ◌+◌, ◌≡◌, refl, sym, ap, ap₂, ◌∙◌, Bool, true, false, ◌||◌, List, [], ◌∷◌, Option,
  none, some, ◌==◌, string_eq, arith, Bool-cases, inl, inr,
}
use anomaly_metric_creator.Base.Dict.{
  Dict, text_lt, get_or, insert, get_or-nil, get_or-insert, text_lt_irrefl,
}
use anomaly_metric_creator.Base.TextOrder.{text_lt_trans, text_lt_total}
use anomaly_metric_creator.Combine.{
  Csv, Entry, timestamp_of, picked, metric_names, iter_rows, component_rows, count_rows, scan_rows,
  rows_are_monotonic,
}
use anomaly_metric_creator.Combine.Keys.{Key, next_occurrence, steps_back}
use anomaly_metric_creator.Combine.Views.{NotBefore, InOrder, NotBefore-trans}

scan-step :
    (previous_key : Option Key) (f : Csv) (previous : Option String) (occurrence : ℕ)
    (row : Dict String) (rows : List (Dict String))
    → let t = timestamp_of row in
      let n = next_occurrence previous occurrence t in
      scan_rows previous_key previous occurrence (row ∷ rows) ≡ true
      → (steps_back previous_key (t, n) ≡ false) × (scan_rows (some (t, n)) (some t) n rows ≡ true)
unfolding scan_rows
scan-step previous_key f previous occurrence row rows h =
    let t = timestamp_of row in
    let n = next_occurrence previous occurrence t in
    elim (Bool-cases (steps_back previous_key (t, n))) [
      | inl e ↦ absurd (true≢false (sym (rw e at h)))
      | inr e ↦ (e, rw e at h)
    ]

scanned :
    (f : Csv) (p : String) (occurrence : ℕ) (rows : List (Dict String))
    → scan_rows (some (p, occurrence)) (some p) occurrence rows ≡ true
    → let es = iter_rows f (some p) occurrence rows in NotBefore (p, occurrence) es × InOrder es
unfolding iter_rows
scanned f p occurrence [] h = (tt, tt)
scanned f p occurrence (row ∷ rows) h =
    let t = timestamp_of row in
    let n = next_occurrence (some p) occurrence t in
    let step = scan-step (some (p, occurrence)) f (some p) occurrence row rows h in
    let rest = scanned f t n rows step.1 in
    ((step.0, NotBefore-trans (p, occurrence) (t, n) _ step.0 rest.0), rest)

-- The entries of a file that passes the scan are in order.
pub component_rows-InOrder : (f : Csv) → rows_are_monotonic f ≡ true → InOrder (component_rows f)
unfolding iter_rows
component_rows-InOrder f = first f.rows
  where
    first :
        (rows : List (Dict String))
        → scan_rows none none 0 rows ≡ true
        → InOrder (iter_rows f none 0 rows)
    first [] h = tt
    first (row ∷ rows) h =
        scanned f (timestamp_of row) 0 rows (scan-step none f none 0 row rows h).1

-- What the counts say while the rows do not step back: the last timestamp was seen so often, and no
-- later one.
record Seen (seen : Dict ℕ) (p : String) (occurrence : ℕ) : Type 0 where
  pub last : get_or p 0 seen ≡ occurrence + 1
  pub later : (t : String) → text_lt p t ≡ true → get_or t 0 seen ≡ 0

later_text : (t p : String) → text_lt t p ≡ false → (t == p) ≡ false → text_lt p t ≡ true
later_text t p h e = elim (Bool-cases (text_lt p t)) [
  | inl k ↦ k
  | inr k ↦ absurd (differ (text_lt_total t p h k))
]
  where
    differ : t ≡ p → ⊥
    differ q = ground (arith, q, e)

not-back : (t p : String) (b : Bool) → (text_lt t p || b) ≡ false → text_lt t p ≡ false
not-back t p b h = ground (arith, h)

count-step :
    (seen : Dict ℕ) (p : String) (occurrence : ℕ) (t : String)
    → Seen seen p occurrence
    → steps_back (some (p, occurrence)) (t, next_occurrence (some p) occurrence t) ≡ false
    → get_or t 0 seen ≡ next_occurrence (some p) occurrence t
count-step seen p occurrence t s h = elim (Bool-cases (t == p)) [
  | inl e ↦ let same : t ≡ p = ground (arith, e) in rw e (ap (λ i. get_or i 0 seen) same ∙ s.last)
  | inr e ↦ rw e (s.later t (later_text t p (not-back t p _ h) e))
]

Seen-step :
    (seen : Dict ℕ) (p : String) (occurrence : ℕ) (t : String)
    → Seen seen p occurrence
    → steps_back (some (p, occurrence)) (t, next_occurrence (some p) occurrence t) ≡ false
    → let n = next_occurrence (some p) occurrence t in Seen (insert t (n + 1) seen) t n
Seen-step seen p occurrence t s h = record {
  last = get_or-insert t t 0 (next_occurrence (some p) occurrence t + 1) seen ∙ ground arith;
  later = λ u after.
      let other : (t == u) ≡ false = ground (arith, after, text_lt_irrefl t) in
      get_or-insert u t 0 (next_occurrence (some p) occurrence t + 1) seen
      ∙ rw other (s.later u (beyond u after));
}
  where
    beyond : (u : String) → text_lt t u ≡ true → text_lt p u ≡ true
    beyond u after = elim (Bool-cases (t == p)) [
      | inl e ↦ let same : t ≡ p = ground (arith, e) in rw same at after
      | inr e ↦ text_lt_trans p t u (later_text t p (not-back t p _ h) e) after
    ]

count_rows-iter_rows :
    (f : Csv) (seen : Dict ℕ) (p : String) (occurrence : ℕ) (rows : List (Dict String))
    → Seen seen p occurrence
    → scan_rows (some (p, occurrence)) (some p) occurrence rows ≡ true
    → count_rows f seen rows ≡ iter_rows f (some p) occurrence rows
unfolding count_rows iter_rows
count_rows-iter_rows f seen p occurrence [] s h = refl
count_rows-iter_rows f seen p occurrence (row ∷ rows) s h =
    let t = timestamp_of row in
    let n = next_occurrence (some p) occurrence t in
    let step = scan-step (some (p, occurrence)) f (some p) occurrence row rows h in
    let e = count-step seen p occurrence t s step.0 in
    let entry : ℕ → Entry =
      λ i. record { key = (t, i); component = f.component; cells = picked (metric_names f) row } in
    ap₂ ◌∷◌ (ap entry e) (
      ap (λ i. count_rows f (insert t (i + 1) seen) rows) e
      ∙ count_rows-iter_rows f (insert t (n + 1) seen) t n rows
          (Seen-step seen p occurrence t s step.0) step.1)

-- In a file that passes the scan the two ways to number the rows of one timestamp agree.
pub count_rows-component_rows :
    (f : Csv) → rows_are_monotonic f ≡ true → count_rows f [] f.rows ≡ component_rows f
unfolding count_rows iter_rows
count_rows-component_rows f = first f.rows
  where
    start : (t : String) → Seen (insert t 1 []) t 0
    start t = record {
      last = get_or-insert t t 0 1 [] ∙ ground arith;
      later = λ u after.
          let other : (t == u) ≡ false = ground (arith, after, text_lt_irrefl t) in
          get_or-insert u t 0 1 [] ∙ rw other (get_or-nil u 0);
    }

    first :
        (rows : List (Dict String))
        → scan_rows none none 0 rows ≡ true
        → count_rows f [] rows ≡ iter_rows f none 0 rows
    first [] h = refl
    first (row ∷ rows) h =
        let t = timestamp_of row in
        let e = get_or-nil t 0 in
        let entry : ℕ → Entry = λ i. record {
          key = (t, i);
          component = f.component;
          cells = picked (metric_names f) row;
        } in
        ap₂ ◌∷◌ (ap entry e) (
          ap (λ i. count_rows f (insert t (i + 1) []) rows) e
          ∙ ap (λ i. count_rows f (insert t i []) rows) (omega arith)
          ∙ count_rows-iter_rows f (insert t 1 []) t 0 rows (start t)
              (scan-step none f none 0 row rows h).1)
