-- ===== src/Traces/Mirror.antt =====
-- The FTS table against the table of traces that it mirrors.
use anomaly_metric_creator.Base.{
  ℕ, ◌+◌, ◌≡◌, refl, sym, ap, ap₂, ◌∙◌, Bool, true, false, not, List, [], ◌∷◌, ◌++◌, append-nil,
  All, ℤ, Option, none, some, ◌==◌, nat_eq, if◌then◌else◌, arith, Bool-cases, if-elim, inl, inr,
  leb, subst,
}
use anomaly_metric_creator.Traces.Trace.{CommandTrace, lt_ℤ, eq_ℤ}
use anomaly_metric_creator.Traces.Ring.{new_ring}
use anomaly_metric_creator.Traces.Table.{
  Table, Store, upsert, min_id, newest_rows, cut_off, without_id, enforce_retention,
  insert_trace_row, insert_sqlite, insert_rows, replace_traces, next_gen, load_sqlite_tail,
  record_both, import_both, open_store,
}
use anomaly_metric_creator.Traces.Order.{Ascending, Ascending-upsert}
use anomaly_metric_creator.Traces.Retention.{enforce_retention-Ascending}
use anomaly_metric_creator.Traces.Stored.{empty_table, ensure_fts-empty}
use anomaly_metric_creator.Traces.ById.{
  at_id, eq_ℤ-other, at_id-append, at_id-from_id, at_id-found, at_id-skip, without_id-same,
  without_id-other, upsert-same, upsert-other,
}

-- The search finds by the FTS table exactly the texts of the rows that the table has.
record Mirrors (d : Table) : Type 0 where
  pub enabled : d.fts_enabled ≡ true
  pub ascending : Ascending d.rows
  pub same : (i : ℤ) → at_id i d.fts ≡ at_id i d.rows

enforce_retention-Mirrors : (d : Table) → Mirrors d → Mirrors (enforce_retention d)
unfolding enforce_retention
enforce_retention-Mirrors d h = record {
  enabled = keeps_enabled;
  ascending = enforce_retention-Ascending d h.ascending;
  same = λ i.
      if-elim (λ (e : Table). at_id i e.fts ≡ at_id i e.rows) (d.retention == 0) (λ _. h.same i)
        (λ _. cut i (min_id (newest_rows d.retention d.rows)));
}
  where
    cut : (i : ℤ) (o : Option ℤ) → at_id i (cut_off o d).fts ≡ at_id i (cut_off o d).rows
    cut i none = h.same i
    cut i (some m) = rw h.enabled (
        at_id-from_id i m d.fts
        ∙ ap (λ l. if lt_ℤ i m then [] else l) (h.same i)
        ∙ sym (at_id-from_id i m d.rows))

    keeps : (o : Option ℤ) → (cut_off o d).fts_enabled ≡ true
    keeps none = h.enabled
    keeps (some m) = h.enabled

    keeps_enabled : (enforce_retention d).fts_enabled ≡ true
    keeps_enabled =
        if-elim (λ (e : Table). e.fts_enabled ≡ true) (d.retention == 0) (λ _. h.enabled)
          (λ _. keeps (min_id (newest_rows d.retention d.rows)))

-- An id whose old rows are out of the FTS table.
at_id-appended :
    (i : ℤ) (t : CommandTrace) (rest rows : List CommandTrace)
    → Ascending rows
    → (eq_ℤ t.id i ≡ true → at_id i rest ≡ [])
    → (eq_ℤ t.id i ≡ false → at_id i rest ≡ at_id i rows)
    → at_id i (rest ++ t ∷ []) ≡ at_id i (upsert t rows)
at_id-appended i t rest rows a gone kept =
    at_id-append i rest (t ∷ []) ∙ elim (Bool-cases (eq_ℤ t.id i)) [
      | inl e ↦ ap₂ ◌++◌ (gone e) (at_id-found i t [] e) ∙ sym (upsert-same i t rows a e)
      | inr e ↦
          ap₂ ◌++◌ (kept e) (at_id-skip i t [] e)
          ∙ append-nil (at_id i rows)
          ∙ sym (upsert-other i t rows e)
    ]

insert_trace_row-Mirrors :
    (t : CommandTrace) (d : Table) → Mirrors d → Mirrors (insert_trace_row true t d)
unfolding insert_trace_row
insert_trace_row-Mirrors t d h = record {
  enabled = h.enabled;
  ascending = Ascending-upsert t d.rows h.ascending;
  same = λ i. rw h.enabled (
      at_id-appended i t (without_id t.id d.fts) d.rows h.ascending (without_id-same i t.id d.fts)
        (λ e. without_id-other i t.id d.fts e ∙ h.same i));
}

next_gen-Mirrors : (d : Table) → Mirrors d → Mirrors (next_gen d)
next_gen-Mirrors d h = record { enabled = h.enabled; ascending = h.ascending; same = h.same }

insert_sqlite-Mirrors : (t : CommandTrace) (d : Table) → Mirrors d → Mirrors (insert_sqlite t d)
unfolding insert_sqlite
insert_sqlite-Mirrors t d h =
    next_gen-Mirrors _ (enforce_retention-Mirrors _ (insert_trace_row-Mirrors t d h))

abbrev Absent : List CommandTrace → CommandTrace → Type 0
Absent rows t = (i : ℤ) → eq_ℤ t.id i ≡ true → at_id i rows ≡ []

-- No two of the traces have one id.
abbrev pub Distinct : List CommandTrace → Type 0
Distinct [] = Unit
Distinct (t ∷ ts) = All (λ u. eq_ℤ t.id u.id ≡ false) ts × Distinct ts

All-Absent-append :
    (t : CommandTrace) (fts ts : List CommandTrace)
    → All (λ u. eq_ℤ t.id u.id ≡ false) ts
    → All (Absent fts) ts
    → All (Absent (fts ++ t ∷ [])) ts
All-Absent-append t fts [] h a = tt
All-Absent-append t fts (u ∷ ts) h a = (
  λ i e.
      at_id-append i fts (t ∷ [])
      ∙ ap₂ ◌++◌ (a.0 i e) (at_id-skip i t [] (eq_ℤ-other t.id u.id i h.0 e)),
  All-Absent-append t fts ts h.1 a.1,
)

insert_rows-Mirrors :
    (ts : List CommandTrace) (d : Table)
    → Distinct ts
    → All (Absent d.fts) ts
    → Mirrors d
    → Mirrors (insert_rows false ts d)
unfolding insert_rows insert_trace_row
insert_rows-Mirrors [] d h a m = m
insert_rows-Mirrors (t ∷ ts) d h a m =
    insert_rows-Mirrors ts (insert_trace_row false t d) h.1
      (rw m.enabled (All-Absent-append t d.fts ts h.0 a.1))
      (record {
        enabled = m.enabled;
        ascending = Ascending-upsert t d.rows m.ascending;
        same =
            λ i. rw m.enabled (at_id-appended i t d.fts d.rows m.ascending (a.0 i) (λ e. m.same i));
      })

All-Absent-nil : (ts : List CommandTrace) → All (Absent []) ts
All-Absent-nil [] = tt
All-Absent-nil (t ∷ ts) = (λ i e. refl, All-Absent-nil ts)

replace_traces-Mirrors :
    (ts : List CommandTrace) (d : Table) → Distinct ts → Mirrors d → Mirrors (replace_traces ts d)
unfolding replace_traces
replace_traces-Mirrors ts d h m =
    let cleared : Table = record d { rows = []; fts = [] } in
    let k =
      insert_rows-Mirrors ts cleared h (All-Absent-nil ts)
        (record { enabled = m.enabled; ascending = tt; same = λ i. refl }) in
    let P : Bool → Type 0 = λ b. Mirrors (
      next_gen (
        enforce_retention
          (insert_rows (not b) ts (record d { rows = []; fts = if b then [] else d.fts })))) in
    subst P (sym m.enabled) (next_gen-Mirrors _ (enforce_retention-Mirrors _ k))

load_sqlite_tail-Mirrors : (s : Store) → Mirrors s.table → Mirrors (load_sqlite_tail s).table
unfolding load_sqlite_tail
load_sqlite_tail-Mirrors s m = next_gen-Mirrors _ (enforce_retention-Mirrors s.table m)

-- What changes the tables.
pub data Call : Type 0 where
  note : CommandTrace → Call
  replace : List CommandTrace → Call

unfoldable pub run : List Call → Store → Store
run [] s = s
run (note t ∷ calls) s = run calls (record_both t s)
run (replace ts ∷ calls) s = run calls (import_both ts s)

abbrev pub IsImportable : Call → Type 0
IsImportable (note t) = Unit
IsImportable (replace ts) = Distinct ts

import_both-Mirrors :
    (ts : List CommandTrace) (s : Store)
    → Distinct ts
    → Mirrors s.table
    → Mirrors (import_both ts s).table
unfolding import_both
import_both-Mirrors ts s h m =
    let t = load_sqlite_tail (record s { table = replace_traces ts s.table }) in
    let k =
      load_sqlite_tail-Mirrors (record s { table = replace_traces ts s.table })
        (replace_traces-Mirrors ts s.table h m) in
    if-elim (λ (u : Store). Mirrors u.table) (leb t.ring.version s.ring.version)
      {x = record t { ring = record t.ring { version = s.ring.version + 1 } }} {y = t} (λ _. k)
      (λ _. k)

run-Mirrors :
    (calls : List Call) (s : Store)
    → All IsImportable calls
    → Mirrors s.table
    → Mirrors (run calls s).table
unfolding run record_both
run-Mirrors [] s h m = m
run-Mirrors (note t ∷ calls) s h m =
    run-Mirrors calls (record_both t s) h.1 (insert_sqlite-Mirrors t s.table m)
run-Mirrors (replace ts ∷ calls) s h m =
    run-Mirrors calls (import_both ts s) h.1 (import_both-Mirrors ts s h.0 m)

open_store-Mirrors :
    (limit retention : ℕ) → Mirrors (open_store limit (empty_table retention true)).table
unfolding open_store
open_store-Mirrors limit retention =
    subst
      (λ (d : Table).
        Mirrors (load_sqlite_tail (record { ring = new_ring limit; table = d })).table)
      (sym (ensure_fts-empty retention true))
      (load_sqlite_tail-Mirrors
        (record { ring = new_ring limit; table = empty_table retention true })
        (record { enabled = refl; ascending = tt; same = λ i. refl }))

-- Where FTS5 is at hand, the search's table has for each id the rows that the table of traces has,
-- after any traces were recorded and imported, if no import names an id twice.
pub run-at_id :
    (limit retention : ℕ) (calls : List Call)
    → All IsImportable calls
    → (i : ℤ)
    → let d = (run calls (open_store limit (empty_table retention true))).table in
      at_id i d.fts ≡ at_id i d.rows
run-at_id limit retention calls h =
    (run-Mirrors calls _ h (open_store-Mirrors limit retention)).same

-- An import of two traces of one id leaves only the later one in the table of traces, but both in the
-- search's table.
pub replace_traces-stale :
    (t u : CommandTrace) (gen : ℕ)
    → eq_ℤ t.id u.id ≡ true
    → let d = replace_traces (t ∷ u ∷ []) (record (empty_table 0 true) { gen = gen }) in
      (d.rows ≡ u ∷ []) × (d.fts ≡ t ∷ u ∷ [])
unfolding replace_traces enforce_retention insert_rows insert_trace_row upsert nat_eq
replace_traces-stale t u gen h =
    let a : lt_ℤ u.id t.id ≡ false = ground arith in
    let b : eq_ℤ u.id t.id ≡ true = ground arith in rw (a, b) (refl, refl)
