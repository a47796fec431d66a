-- ===== src/Traces/Trace.antt =====
-- `CommandTrace` and the two filters of server_traces.py over one trace.
use Prim.Native.String.{◌++◌ as ◌<>◌}
use anomaly_metric_creator.Base.{
  String, ◌+◌, Bool, true, false, not, ◌&&◌, List, ℤ, pos_part, neg_part, ltb, contains, ◌==◌,
  string_eq, nat_eq, if◌then◌else◌,
}
use anomaly_metric_creator.Base.Text.{is_empty, has_part, lower}
use anomaly_metric_creator.Json.{Json, Row}

-- The fields are of the types that the annotations name; `latency_ms` is a float.
pub record CommandTrace : Type 0 where
  pub id : ℤ
  pub received_at_wall_time : String
  pub simulated_time : String
  pub raw_input : String
  pub argv : List String
  pub client : String
  pub command_family : String
  pub verb : String
  pub resource_kind : String
  pub resource_name : String
  pub namespace : String
  pub parsed_flags : Row
  pub support_status : String
  pub matched_rule_id : String
  pub active_scenarios : List String
  pub exit_code : ℤ
  pub stdout_preview : String
  pub stderr_preview : String
  pub stdout : String
  pub stderr : String
  pub latency_ms : Json
  pub fingerprint : String
  pub guessed_intent : String
  pub request_id : String

-- `a < b` and `a == b` on integers.
abbrev pub lt_ℤ : ℤ → ℤ → Bool
lt_ℤ a b = ltb (pos_part a + neg_part b) (pos_part b + neg_part a)

abbrev pub eq_ℤ : ℤ → ℤ → Bool
eq_ℤ a b = pos_part a + neg_part b == pos_part b + neg_part a

-- `trace.support_status != "supported"`.
abbrev pub is_unsupported : CommandTrace → Bool
is_unsupported t = not (t.support_status == "supported")

pub record Filters : Type 0 where
  pub query : String
  pub support_status : String
  pub command_family : String
  pub scenario_id : String

-- The six texts that are searched, one to a line.
unfoldable pub haystack : CommandTrace → String
haystack t =
    t.raw_input
    <> ("\n"
        <> (t.stdout
            <> ("\n"
                <> (t.stderr
                    <> ("\n"
                        <> (t.fingerprint
                            <> ("\n" <> (t.guessed_intent <> ("\n" <> t.matched_rule_id)))))))))

unfoldable pub trace_matches_search : Filters → CommandTrace → Bool
unfolding haystack
trace_matches_search f t =
    if not (is_empty f.support_status) && not (t.support_status == f.support_status)
    then false
    else if not (is_empty f.command_family) && not (t.command_family == f.command_family)
    then false
    else if not (is_empty f.scenario_id) && not (contains f.scenario_id t.active_scenarios)
    then false
    else if is_empty f.query
    then true
    else has_part (lower f.query) (lower (haystack t))
