-- ===== src/Traces/Table.antt =====
-- `CommandTraceStore` of server_traces.py with SQLite: a table of traces by id beside the ring, and the
-- FTS table that mirrors it for the search. A statement is taken to do what SQLite documents; one that
-- fails, the search by FTS5 and LIKE, and the summary's cache on this path are left out.
use mathlib.Core.List.{reverse}
use anomaly_metric_creator.Base.{
  ℕ, ◌+◌, Bool, true, not, List, [], ◌∷◌, ◌++◌, length, take, keep, ℤ, pos, ◌+ℤ◌, Option, none,
  some, leb, ◌==◌, nat_eq, if◌then◌else◌,
}
use anomaly_metric_creator.Traces.Trace.{CommandTrace, lt_ℤ, eq_ℤ}
use anomaly_metric_creator.Traces.Ring.{
  Ring, new_ring, record_trace, clamp, with_version, find_trace, max_id,
}

-- `rows` is command_traces by id; `fts` is command_traces_fts, a row for each trace that it indexes.
pub record Table : Type 0 where
  pub retention : ℕ
  pub fts_enabled : Bool
  pub rows : List CommandTrace
  pub fts : List CommandTrace
  pub gen : ℕ

-- INSERT OR REPLACE, by the primary key.
unfoldable pub upsert : CommandTrace → List CommandTrace → List CommandTrace
upsert t [] = t ∷ []
upsert t (r ∷ rs) =
    let later = r ∷ upsert t rs in
    if lt_ℤ t.id r.id then t ∷ r ∷ rs else if eq_ℤ t.id r.id then t ∷ rs else later

-- ORDER BY id DESC LIMIT n.
abbrev pub newest_rows : ℕ → List CommandTrace → List CommandTrace
newest_rows n rows = take n (reverse rows)

-- SELECT min(id).
abbrev pub min_id_of : ℤ → List CommandTrace → ℤ
min_id_of m [] = m
min_id_of m (t ∷ ts) = min_id_of (if lt_ℤ t.id m then t.id else m) ts

abbrev pub min_id : List CommandTrace → Option ℤ
min_id [] = none
min_id (t ∷ ts) = some (min_id_of t.id ts)

-- DELETE … WHERE id < cutoff.
abbrev pub from_id : ℤ → List CommandTrace → List CommandTrace
from_id cutoff = keep (λ t. not (lt_ℤ t.id cutoff))

abbrev pub without_id : ℤ → List CommandTrace → List CommandTrace
without_id trace_id = keep (λ t. not (eq_ℤ t.id trace_id))

abbrev pub cut_off : Option ℤ → Table → Table
cut_off none d = d
cut_off (some cutoff) d = record d {
  rows = from_id cutoff d.rows;
  fts = if d.fts_enabled then from_id cutoff d.fts else d.fts;
}

unfoldable pub enforce_retention : Table → Table
enforce_retention d =
    if d.retention == 0 then d else cut_off (min_id (newest_rows d.retention d.rows)) d

unfoldable pub insert_trace_row : Bool → CommandTrace → Table → Table
insert_trace_row delete_fts_first t d = record d {
  rows = upsert t d.rows;
  fts =
      if d.fts_enabled
      then (if delete_fts_first then without_id t.id d.fts else d.fts) ++ t ∷ []
      else d.fts;
}

abbrev pub next_gen : Table → Table
next_gen d = record d { gen = d.gen + 1 }

unfoldable pub insert_sqlite : CommandTrace → Table → Table
unfolding enforce_retention insert_trace_row
insert_sqlite t d = next_gen (enforce_retention (insert_trace_row true t d))

unfoldable pub insert_rows : Bool → List CommandTrace → Table → Table
insert_rows delete_fts_first [] d = d
insert_rows delete_fts_first (t ∷ ts) d =
    insert_rows delete_fts_first ts (insert_trace_row delete_fts_first t d)

-- The FTS table is cleared as a whole, so no row of it is deleted first.
unfoldable pub replace_traces : List CommandTrace → Table → Table
unfolding enforce_retention insert_rows
replace_traces traces d =
    let cleared = record d { rows = []; fts = if d.fts_enabled then [] else d.fts } in
    next_gen (enforce_retention (insert_rows (not d.fts_enabled) traces cleared))

pub record Store : Type 0 where
  pub ring : Ring
  pub table : Table

-- `coalesce(max(id), 0)`: an id of zero is no other than none.
unfoldable pub load_sqlite_tail : Store → Store
unfolding enforce_retention
load_sqlite_tail s =
    let d = next_gen (enforce_retention s.table) in
    record {
      ring = record s.ring {
        items = reverse (newest_rows s.ring.limit d.rows);
        version = length d.rows;
        next_id = max_id d.rows +ℤ pos 1;
      };
      table = d;
    }

-- `_ensure_sqlite_fts`, where the table is there: it is filled again unless the numbers of rows agree.
abbrev pub ensure_fts : Table → Table
ensure_fts d = record d { fts = if length d.fts == length d.rows then d.fts else d.rows }

-- `__init__` with the tables that a file has.
unfoldable pub open_store : ℕ → Table → Store
unfolding load_sqlite_tail
open_store limit d =
    load_sqlite_tail
      (record { ring = new_ring limit; table = if d.fts_enabled then ensure_fts d else d })

unfoldable pub record_both : CommandTrace → Store → Store
record_both t s = record { ring = record_trace t s.ring; table = insert_sqlite t s.table }

-- `import_payload` once every entry is read.
unfoldable pub import_both : List CommandTrace → Store → Store
unfolding load_sqlite_tail replace_traces
import_both traces s =
    let t = load_sqlite_tail (record s { table = replace_traces traces s.table }) in
    if leb t.ring.version s.ring.version
    then record t { ring = record t.ring { version = s.ring.version + 1 } }
    else t

abbrev pub limited_rows : Option ℤ → List CommandTrace → List CommandTrace
limited_rows none rows = rows
limited_rows (some limit) rows = take (clamp limit) rows

unfoldable pub list_sqlite : Option ℤ → Store → List (ℕ × CommandTrace)
list_sqlite limit s = with_version s.ring.version (limited_rows limit (reverse s.table.rows))

abbrev pub get_sqlite : ℤ → Store → Option CommandTrace
get_sqlite trace_id s = find_trace trace_id s.table.rows

abbrev pub count_sqlite : Store → ℕ
count_sqlite s = length s.table.rows
