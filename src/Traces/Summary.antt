-- ===== src/Traces/Summary.antt =====
-- `_unsupported_summary_from_traces` of server_traces.py: unsupported traces grouped by fingerprint.
use anomaly_metric_creator.Base.{
  String, ℕ, ◌+◌, Bool, List, [], ◌∷◌, ◌++◌, map, length, ltb, ◌==◌, nat_eq, ◌&&◌, ◌||◌, keep, ℤ,
  if◌then◌else◌,
}
use anomaly_metric_creator.Base.Dict.{Dict, text_lt, get_or, insert}
use anomaly_metric_creator.Json.{Row}
use anomaly_metric_creator.Traces.Trace.{CommandTrace, is_unsupported}

pub record Example : Type 0 where
  pub id : ℤ
  pub raw_input : String
  pub argv : List String
  pub parsed_flags : Row
  pub scenario_ids : List String

pub record Group : Type 0 where
  pub fingerprint : String
  pub count : ℕ
  pub first_seen : String
  pub last_seen : String
  pub examples : List Example
  pub guessed_intent : String
  pub support_statuses : Dict ℕ

abbrev pub example_of : CommandTrace → Example
example_of t = record {
  id = t.id;
  raw_input = t.raw_input;
  argv = t.argv;
  parsed_flags = t.parsed_flags;
  scenario_ids = t.active_scenarios;
}

-- Python's `min` and `max` on texts, which keep the first of two equal ones.
abbrev pub min_text : String → String → String
min_text a b = if text_lt b a then b else a

abbrev pub max_text : String → String → String
max_text a b = if text_lt a b then b else a

abbrev pub new_group : CommandTrace → Group
new_group t = record {
  fingerprint = t.fingerprint;
  count = 0;
  first_seen = t.received_at_wall_time;
  last_seen = t.received_at_wall_time;
  examples = [];
  guessed_intent = t.guessed_intent;
  support_statuses = [];
}

abbrev pub counted : CommandTrace → Group → Group
counted t g = record g {
  count = g.count + 1;
  first_seen = min_text g.first_seen t.received_at_wall_time;
  last_seen = max_text g.last_seen t.received_at_wall_time;
  examples = if ltb (length g.examples) 5 then g.examples ++ example_of t ∷ [] else g.examples;
  support_statuses =
      insert t.support_status (get_or t.support_status 0 g.support_statuses + 1) g.support_statuses;
}

-- The loop over the traces, from the groups so far.
unfoldable pub group_traces : List CommandTrace → Dict Group → Dict Group
group_traces [] groups = groups
group_traces (t ∷ traces) groups =
    group_traces traces
      (insert t.fingerprint (counted t (get_or t.fingerprint (new_group t) groups)) groups)

-- The sort key: the greater count first, then the fingerprint.
abbrev pub sorts_before : Group → Group → Bool
sorts_before g h =
    ltb h.count g.count || (g.count == h.count && text_lt g.fingerprint h.fingerprint)

unfoldable pub insert_group : Group → List Group → List Group
insert_group g [] = g ∷ []
insert_group g (h ∷ hs) =
    let later = h ∷ insert_group g hs in if sorts_before h g then later else g ∷ h ∷ hs

unfoldable pub sorted_groups : List Group → List Group
unfolding insert_group
sorted_groups [] = []
sorted_groups (g ∷ gs) = insert_group g (sorted_groups gs)

abbrev pub group_values : Dict Group → List Group
group_values = map (λ e. e.1)

unfoldable pub summary_of_traces : List CommandTrace → List Group
unfolding group_traces sorted_groups
summary_of_traces traces = sorted_groups (group_values (group_traces traces []))

unfoldable pub unsupported_summary_from_traces : List CommandTrace → List Group
unsupported_summary_from_traces traces = summary_of_traces (keep is_unsupported traces)
