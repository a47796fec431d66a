-- ===== src/Traces/Stored.antt =====
-- The table against the history of all traces that were recorded.
use mathlib.Core.List.{reverse, reverse-reverse}
use anomaly_metric_creator.Base.{
  ℕ, zero, suc, ◌≡◌, refl, sym, ap, ap₂, subst, ◌∙◌, Bool, true, false, List, [], ◌∷◌, ◌++◌,
  append_assoc, append-nil, length, length-append, take, All, ℤ, ◌<ℤ◌, Option, none, some, ◌==◌,
  nat_eq, if◌then◌else◌, arith, if-elim,
}
use anomaly_metric_creator.Base.Last.{take-cons-take, reverse-concat, All-reverse, All-right}
use anomaly_metric_creator.Traces.Trace.{CommandTrace, lt_ℤ, eq_ℤ}
use anomaly_metric_creator.Traces.Ring.{new_ring, record_trace, with_version}
use anomaly_metric_creator.Traces.Table.{
  Table, Store, min_id, newest_rows, cut_off, upsert, enforce_retention, insert_trace_row,
  insert_sqlite, record_both, open_store, ensure_fts, load_sqlite_tail, limited_rows, list_sqlite,
}
use anomaly_metric_creator.Traces.Order.{Ascending, Ascending-upsert}
use anomaly_metric_creator.Traces.Retention.{
  kept, enforce_retention-kept, enforce_retention-Ascending,
}
use anomaly_metric_creator.Traces.Newest.{first}

-- Traces recorded one after the other, in the ring and in the table.
unfoldable pub record_all : List CommandTrace → Store → Store
record_all [] s = s
record_all (t ∷ ts) s = record_all ts (record_both t s)

Older : CommandTrace → CommandTrace → Type 0
Older t u = u.id <ℤ t.id

upsert-Older :
    (t : CommandTrace) (rows : List CommandTrace)
    → All (Older t) rows
    → upsert t rows ≡ rows ++ t ∷ []
unfolding upsert Older
upsert-Older t [] h = refl
upsert-Older t (r ∷ rows) h =
    let after : lt_ℤ t.id r.id ≡ false = ground (arith, h.0) in
    let other : eq_ℤ t.id r.id ≡ false = ground (arith, h.0) in
    rw (after, other) (ap (λ l. r ∷ l) (upsert-Older t rows h.1))

All-take :
    (P : CommandTrace → Type 0) (n : ℕ) (ts : List CommandTrace) → All P ts → All P (take n ts)
All-take P zero ts h = tt
All-take P (suc n) [] h = tt
All-take P (suc n) (t ∷ ts) h = (h.0, All-take P n ts h.1)

All-kept :
    (P : CommandTrace → Type 0) (n : ℕ) (ts : List CommandTrace) → All P ts → All P (kept n ts)
All-kept P zero ts h = h
All-kept P (suc n) ts h = All-take P (suc n) ts h

kept-cons-kept :
    (n : ℕ) (t : CommandTrace) (ts : List CommandTrace) → kept n (t ∷ kept n ts) ≡ kept n (t ∷ ts)
kept-cons-kept zero t ts = refl
kept-cons-kept (suc n) t ts = take-cons-take (suc n) t ts

record Stores (retention : ℕ) (seen : List CommandTrace) (s : Store) : Type 0 where
  pub bound : s.table.retention ≡ retention
  pub version : s.ring.version ≡ length seen
  pub ascending : Ascending s.table.rows
  pub newest : reverse s.table.rows ≡ kept retention (reverse seen)

retention-enforce_retention : (d : Table) → (enforce_retention d).retention ≡ d.retention
unfolding enforce_retention
retention-enforce_retention d =
    if-elim (λ (e : Table). e.retention ≡ d.retention) (d.retention == 0) (λ _. refl)
      (λ _. cut (min_id (newest_rows d.retention d.rows)))
  where
    cut : (o : Option ℤ) → (cut_off o d).retention ≡ d.retention
    cut none = refl
    cut (some m) = refl

record_both-Stores :
    (retention : ℕ) (seen : List CommandTrace) (t : CommandTrace) (s : Store)
    → All (Older t) seen
    → Stores retention seen s
    → Stores retention (seen ++ t ∷ []) (record_both t s)
unfolding record_both record_trace insert_sqlite insert_trace_row
record_both-Stores retention seen t s older h =
    let d = insert_trace_row true t s.table in
    let up = Ascending-upsert t s.table.rows h.ascending in
    let past = All-reverse (Older t) _ (
      rw (← h.newest) at
        (All-kept (Older t) retention (reverse seen) (All-reverse (Older t) seen older))) in
    let rows = upsert-Older t s.table.rows (rw (reverse-reverse s.table.rows) at past) in
    record {
      bound = retention-enforce_retention d ∙ h.bound;
      version = omega (arith, h.version, length-append seen (t ∷ []));
      ascending = enforce_retention-Ascending d up;
      newest =
          enforce_retention-kept d up
          ∙ ap₂ kept h.bound
              (ap reverse rows ∙ reverse-concat s.table.rows t ∙ ap (λ l. t ∷ l) h.newest)
          ∙ kept-cons-kept retention t (reverse seen)
          ∙ ap (kept retention) (sym (reverse-concat seen t));
    }

Ascending-Older :
    (seen : List CommandTrace) (t : CommandTrace) (ts : List CommandTrace)
    → Ascending (seen ++ t ∷ ts)
    → All (Older t) seen
unfolding Older
Ascending-Older [] t ts h = tt
Ascending-Older (u ∷ seen) t ts h =
    ((All-right (λ v. u.id <ℤ v.id) seen (t ∷ ts) h.0).0, Ascending-Older seen t ts h.1)

record_all-Stores :
    (retention : ℕ) (ts seen : List CommandTrace) (s : Store)
    → Ascending (seen ++ ts)
    → Stores retention seen s
    → Stores retention (seen ++ ts) (record_all ts s)
unfolding record_all
record_all-Stores retention [] seen s a h = rw (append-nil seen) h
record_all-Stores retention (t ∷ ts) seen s a h =
    let e = append_assoc seen (t ∷ []) ts in
    let k = record_both-Stores retention seen t s (Ascending-Older seen t ts a) h in
    rw (← e) (record_all-Stores retention ts (seen ++ t ∷ []) (record_both t s) (rw e a) k)

abbrev pub empty_table : ℕ → Bool → Table
empty_table retention fts_enabled = record {
  retention = retention;
  fts_enabled = fts_enabled;
  rows = [];
  fts = [];
  gen = 0;
}

kept-nil : (n : ℕ) → kept n [] ≡ []
kept-nil zero = refl
kept-nil (suc n) = refl

pub enforce_retention-empty :
    (retention : ℕ) (fts_enabled : Bool)
    → enforce_retention (empty_table retention fts_enabled) ≡ empty_table retention fts_enabled
unfolding enforce_retention
enforce_retention-empty retention fts_enabled =
    let d = empty_table retention fts_enabled in
    if-elim (λ e. e ≡ d) (retention == 0) {x = d} (λ _. refl) (λ _. by_size retention d refl)
  where
    by_size : (n : ℕ) (d : Table) → d.rows ≡ [] → cut_off (min_id (take n [])) d ≡ d
    by_size zero d h = refl
    by_size (suc n) d h = refl

pub ensure_fts-empty :
    (retention : ℕ) (fts_enabled : Bool)
    → let d = empty_table retention fts_enabled in (if fts_enabled then ensure_fts d else d) ≡ d
unfolding nat_eq
ensure_fts-empty retention true = refl
ensure_fts-empty retention false = refl

load_sqlite_tail-Stores :
    (limit retention : ℕ) (fts_enabled : Bool)
    → Stores retention [] (
        load_sqlite_tail
          (record { ring = new_ring limit; table = empty_table retention fts_enabled }))
unfolding load_sqlite_tail
load_sqlite_tail-Stores limit retention fts_enabled =
    let e = enforce_retention-empty retention fts_enabled in
    record {
      bound = ap (λ (d : Table). d.retention) e;
      version = ap (λ (d : Table). length d.rows) e;
      ascending = subst (λ (d : Table). Ascending d.rows) (sym e) tt;
      newest = ap (λ (d : Table). reverse d.rows) e ∙ sym (kept-nil retention);
    }

open_store-Stores :
    (limit retention : ℕ) (fts_enabled : Bool)
    → Stores retention [] (open_store limit (empty_table retention fts_enabled))
unfolding open_store
open_store-Stores limit retention fts_enabled =
    subst
      (λ (d : Table).
        Stores retention [] (load_sqlite_tail (record { ring = new_ring limit; table = d })))
      (sym (ensure_fts-empty retention fts_enabled))
      (load_sqlite_tail-Stores limit retention fts_enabled)

-- After traces of rising ids were recorded, the table lists the newest of them, newest first, as many
-- as its retention keeps, which are all where it is 0, and the request asks for, with the number of all
-- that were recorded as the version.
pub list_sqlite-record_all :
    (limit retention : ℕ) (fts_enabled : Bool) (k : Option ℤ) (traces : List CommandTrace)
    → Ascending traces
    → list_sqlite k (record_all traces (open_store limit (empty_table retention fts_enabled)))
      ≡ with_version (length traces) (first k (kept retention (reverse traces)))
unfolding list_sqlite
list_sqlite-record_all limit retention fts_enabled k traces a =
    let h =
      record_all-Stores retention traces [] _ a (open_store-Stores limit retention fts_enabled) in
    ap₂ with_version h.version (limited k _ ∙ ap (first k) h.newest)
  where
    limited : (k : Option ℤ) (l : List CommandTrace) → limited_rows k l ≡ first k l
    limited none l = refl
    limited (some k) l = refl
