-- ===== src/Traces/Tests.antt =====
-- A ring of two and a table of three, over four traces of which three are not supported.
use mathlib.Core.List.{reverse}
use anomaly_metric_creator.Base.{
  String, ℕ, ◌≡◌, refl, true, length, List, [], ◌∷◌, map, none, some, take, pos, arith, string_eq,
  nat_eq, ◌+ℤ◌,
}
use anomaly_metric_creator.Base.Dict.{text_lt, insert, lookup, get_or}
use anomaly_metric_creator.Base.Text.{is_empty, has_part, lower}
use anomaly_metric_creator.Json.{float}
use anomaly_metric_creator.Traces.Trace.{CommandTrace, trace_matches_search}
use anomaly_metric_creator.Traces.Summary.{Group, summary_of_traces}
use anomaly_metric_creator.Traces.Ring.{
  Ring, new_ring, record_trace, begin_summary, end_summary, unsupported_summary, list_traces,
  with_version, import_traces, search,
}
use anomaly_metric_creator.Traces.Polls.{
  System, Step, Reach, start, next, unsupported_now, unsupported_summary_fresh,
}
use anomaly_metric_creator.Traces.Groups.{of_fingerprint, group_for}
use anomaly_metric_creator.Traces.Counts.{Described, group_for-Described}
use anomaly_metric_creator.Traces.Table.{open_store, list_sqlite}
use anomaly_metric_creator.Traces.Retention.{kept}
use anomaly_metric_creator.Traces.Newest.{record_ring, first, list_traces-record_ring}
use anomaly_metric_creator.Traces.Stored.{record_all, empty_table, list_sqlite-record_all}
use anomaly_metric_creator.Traces.ById.{at_id}
use anomaly_metric_creator.Traces.Mirror.{note, replace, Call, run, run-at_id}

abbrev trace : ℕ → String → String → CommandTrace
trace id fingerprint status = record {
  id = pos id;
  received_at_wall_time = "2026-01-01T00:00:00Z";
  simulated_time = "2026-01-01T00:00:00Z";
  raw_input = fingerprint;
  argv = [];
  client = "curl";
  command_family = "kubectl";
  verb = "get";
  resource_kind = "pod";
  resource_name = "";
  namespace = "default";
  parsed_flags = [];
  support_status = status;
  matched_rule_id = "";
  active_scenarios = [];
  exit_code = pos 1;
  stdout_preview = "";
  stderr_preview = "";
  stdout = "";
  stderr = "";
  latency_ms = float "0.5" (some (pos 0));
  fingerprint = fingerprint;
  guessed_intent = "";
  request_id = "";
}

abbrev history : List CommandTrace
history =
    trace 1 "a" "unsupported"
    ∷ trace 2 "b" "partial"
    ∷ trace 3 "a" "unsupported"
    ∷ trace 4 "c" "supported"
    ∷ []

-- One trace, then a poll that another trace comes in between.
abbrev one_trace : Ring
one_trace = record {
  limit = 2;
  items = trace 1 "a" "unsupported" ∷ [];
  next_id = pos 1;
  version = 1;
  summary_cache = none;
}

abbrev polling : System
polling = record { ring = one_trace; polls = (1, one_trace.items) ∷ [] }

abbrev overtaken : System
overtaken = record polling { ring = record_trace (trace 2 "b" "partial") one_trace }

abbrev finished : System
finished = record {
  ring = end_summary 1 (summary_of_traces one_trace.items) overtaken.ring;
  polls = [];
}

Reach-polling : Reach 2 polling
unfolding record_trace begin_summary string_eq
Reach-polling =
    next (next start (Step.note (trace 1 "a" "unsupported") refl))
      (Step.begin 1 one_trace.items refl refl)

Reach-finished : Reach 2 finished
Reach-finished =
    next (next Reach-polling (Step.note (trace 2 "b" "partial") refl))
      (Step.finish [] [] 1 one_trace.items refl refl)

unsupported_summary_fresh_example :
    (unsupported_summary finished.ring).0 ≡ summary_of_traces (unsupported_now finished.ring)
unsupported_summary_fresh_example = unsupported_summary_fresh Reach-finished

group_for-Described_example :
    Described (of_fingerprint "a" history) (group_for "a" (summary_of_traces history))
group_for-Described_example = group_for-Described "a" history

list_traces-record_ring_example :
    list_traces (some (pos 1)) (record_ring history (new_ring 2))
    ≡ with_version (length history) (first (some (pos 1)) (take 2 (reverse history)))
list_traces-record_ring_example = list_traces-record_ring 2 (some (pos 1)) history

list_sqlite-record_all_example :
    list_sqlite none (record_all history (open_store 2 (empty_table 3 true)))
    ≡ with_version (length history) (first none (kept 3 (reverse history)))
list_sqlite-record_all_example = list_sqlite-record_all 2 3 true none history (omega arith)

abbrev calls : List Call
calls =
    note (trace 1 "a" "unsupported")
    ∷ replace (trace 5 "b" "partial" ∷ trace 3 "c" "partial" ∷ [])
    ∷ note (trace 6 "a" "unsupported")
    ∷ []

run-at_id_example :
    let d = (run calls (open_store 2 (empty_table 3 true))).table in
    at_id (pos 5) d.fts ≡ at_id (pos 5) d.rows
unfolding nat_eq
run-at_id_example = run-at_id 2 3 calls (tt, (((refl, tt), (tt, tt)), (tt, tt))) (pos 5)

ring_of_two :
    list_traces none (record_ring history (new_ring 2))
    ≡ (4, trace 4 "c" "supported") ∷ (4, trace 3 "a" "unsupported") ∷ []
unfolding list_traces record_ring record_trace
ring_of_two = refl

counts_by_group :
    map {B = String × ℕ} (λ (g : Group). (g.fingerprint, g.count)) (summary_of_traces history)
    ≡ ("a", 2) ∷ ("b", 1) ∷ ("c", 1) ∷ []
unfolding summary_of_traces string_eq nat_eq text_lt insert lookup get_or
counts_by_group = refl

keeps_ids : (import_traces history (new_ring 2)).next_id ≡ pos 5
unfolding import_traces ◌+ℤ◌
keeps_ids = refl

finds_one :
    (search
      (record { query = "B"; support_status = ""; command_family = ""; scenario_id = "" })
      (pos 50)
      (pos 0)
      (record_ring history (new_ring 4))).total
    ≡ 1
unfolding search record_ring record_trace trace_matches_search is_empty has_part lower nat_eq
finds_one = refl
