-- ===== src/Traces/Ring.antt =====
-- `CommandTraceStore` of server_traces.py without SQLite: a ring of the newest traces. `append_jsonl`,
-- the copy of each trace to a log, is left out. A method holds the ring's lock, so it is one step; the
-- one that takes the lock twice, `unsupported_summary`, is two here.
use mathlib.Core.List.{reverse}
use anomaly_metric_creator.Base.{
  String, ℕ, ◌+◌, Bool, true, min, max, List, [], ◌∷◌, ◌++◌, map, length, take, drop, last, keep, ℤ,
  pos, ◌+ℤ◌, pos_part, max_ℤ, Option, none, some, leb, ◌==◌, nat_eq, if◌then◌else◌,
}
use anomaly_metric_creator.Base.Dict.{set_add}
use anomaly_metric_creator.Traces.Trace.{
  CommandTrace, Filters, eq_ℤ, is_unsupported, trace_matches_search,
}
use anomaly_metric_creator.Traces.Summary.{Group, summary_of_traces}

pub record Ring : Type 0 where
  pub limit : ℕ
  pub items : List CommandTrace
  pub next_id : ℤ
  pub version : ℕ
  pub summary_cache : Option (ℕ × List Group)

abbrev pub default_trace_limit : ℕ
default_trace_limit = 500

abbrev pub new_ring : ℕ → Ring
new_ring limit = record {
  limit = limit;
  items = [];
  next_id = pos 1;
  version = 0;
  summary_cache = none;
}

-- `next_id`: the id to use, and the ring after.
unfoldable pub take_id : Ring → ℤ × Ring
take_id r = (r.next_id, record r { next_id = r.next_id +ℤ pos 1 })

unfoldable pub record_trace : CommandTrace → Ring → Ring
record_trace t r = record r { items = last r.limit (r.items ++ t ∷ []); version = r.version + 1 }

-- `max(0, n)`.
abbrev pub clamp : ℤ → ℕ
clamp = pos_part

-- `items[-n:]` where n = 0 is the whole list.
abbrev pub slice_from_end : ℕ → List CommandTrace → List CommandTrace
slice_from_end n items = if n == 0 then items else last n items

abbrev pub with_version : ℕ → List CommandTrace → List (ℕ × CommandTrace)
with_version version = map (λ t. (version, t))

abbrev pub newest_items : Option ℤ → List CommandTrace → List CommandTrace
newest_items none items = items
newest_items (some limit) items =
    if clamp limit == 0 then [] else slice_from_end (clamp limit) items

unfoldable pub list_traces : Option ℤ → Ring → List (ℕ × CommandTrace)
list_traces limit r = with_version r.version (reverse (newest_items limit r.items))

unfoldable pub find_trace : ℤ → List CommandTrace → Option CommandTrace
find_trace trace_id [] = none
find_trace trace_id (t ∷ ts) = if eq_ℤ t.id trace_id then some t else find_trace trace_id ts

abbrev pub get_trace : ℤ → Ring → Option CommandTrace
get_trace trace_id r = find_trace trace_id r.items

abbrev pub count_traces : Ring → ℕ
count_traces r = length r.items

-- `{trace.fingerprint for trace in traces}`.
unfoldable pub fingerprints : List CommandTrace → List String → List String
fingerprints [] seen = seen
fingerprints (t ∷ ts) seen = fingerprints ts (set_add t.fingerprint seen)

unfoldable pub unsupported_fingerprint_count : Ring → ℕ
unsupported_fingerprint_count r = length (fingerprints (keep is_unsupported r.items) [])

-- The first half of `unsupported_summary`: a summary that is cached at this version, or the version
-- and the traces to compute from.
pub data Poll : Type 0 where
  cached : List Group → Poll
  compute : ℕ → List CommandTrace → Poll

abbrev pub cached_at : ℕ → Option (ℕ × List Group) → Option (List Group)
cached_at version none = none
cached_at version (some (at, summary)) = if at == version then some summary else none

unfoldable pub begin_summary : Ring → Poll
begin_summary r = elim (cached_at r.version r.summary_cache) [
  | some summary ↦ cached summary
  | none ↦ compute r.version (keep is_unsupported r.items)
]

abbrev pub may_cache : ℕ → Option (ℕ × List Group) → Bool
may_cache version none = true
may_cache version (some (at, _)) = leb at version

-- The second half: a summary that was computed for a version is cached unless a newer one is.
unfoldable pub end_summary : ℕ → List Group → Ring → Ring
end_summary version summary r =
    if may_cache version r.summary_cache
    then record r { summary_cache = some (version, summary) }
    else r

-- Both halves with nothing in between.
unfoldable pub unsupported_summary : Ring → List Group × Ring
unfolding begin_summary end_summary
unsupported_summary r = elim (begin_summary r) [
  | cached summary ↦ (summary, r)
  | compute version traces ↦
      let summary = summary_of_traces traces in (summary, end_summary version summary r)
]

pub record Page : Type 0 where
  pub items : List (ℕ × CommandTrace)
  pub total : ℕ
  pub limit : ℕ
  pub offset : ℕ
  pub filters : Filters

-- `max(1, min(limit, 500))` and `max(0, offset)`.
abbrev pub page_limit : ℤ → ℕ
page_limit limit = max 1 (min (pos_part limit) 500)

unfoldable pub search : Filters → ℤ → ℤ → Ring → Page
search filters limit offset r =
    let filtered = keep (trace_matches_search filters) r.items in
    record {
      items =
          with_version r.version (take (page_limit limit) (drop (clamp offset) (reverse filtered)));
      total = length filtered;
      limit = page_limit limit;
      offset = clamp offset;
      filters = filters;
    }

-- `max((trace.id for trace in traces), default=0)`.
abbrev pub max_id_of : ℤ → List CommandTrace → ℤ
max_id_of m [] = m
max_id_of m (t ∷ ts) = max_id_of (max_ℤ m t.id) ts

abbrev pub max_id : List CommandTrace → ℤ
max_id [] = pos 0
max_id (t ∷ ts) = max_id_of t.id ts

-- `import_payload` once every entry is read: the ring is replaced.
unfoldable pub import_traces : List CommandTrace → Ring → Ring
import_traces traces r = record r {
  items = last r.limit (slice_from_end r.limit traces);
  next_id = max_id traces +ℤ pos 1;
  version = max (r.version + 1) (length traces);
}

-- `_export_memory_traces`.
abbrev pub export_traces : Ring → List CommandTrace
export_traces r = r.items
