-- ===== src/OtelStream/Tests.antt =====
-- Both streams over a network that refuses twice.
use anomaly_metric_creator.Base.{
  joined, String, string_eq, ℕ, ◌*◌, ◌≡◌, refl, true, false, length, List, [], ◌∷◌, map, none, some,
  arith, All,
}
use anomaly_metric_creator.OtelStream.{
  Net, Row, points, post_with_retries, post_loop, stream_otel_gauges, send, retry, ok,
}
use anomaly_metric_creator.OtelStream.Retries.{outcome, refusals, post_with_retries_lem}
use anomaly_metric_creator.OtelStream.Batches.{stream_otel_gauges-bodies}
use anomaly_metric_creator.OtelStream.Limits.{UpTo, stream_otel_gauges-IsLimited}
use anomaly_metric_creator.Base.Dict.{Dict, text_lt}
use anomaly_metric_creator.Base.Text.{is_empty}
use anomaly_metric_creator.OtelStream.Signals.{
  Anomaly, insert_by_time, sorted_rows, stream_otel_signals,
}
use anomaly_metric_creator.OtelStream.Attempts.{posts_of, IsCounted, stream_otel_signals-IsCounted}
use anomaly_metric_creator.OtelStream.Posts.{allowed, stream_otel_signals-posts}
use anomaly_metric_creator.OtelStream.Windows.{IsWindow, stream_otel_gauges-IsWindow}

abbrev flaky : Net
flaky = record { replies = false ∷ false ∷ true ∷ []; log = []; sleeps = [] }

post_with_retries_lem_example :
    post_with_retries 3 flaky ≡ some (outcome 3 0 (refusals 3 flaky.replies) flaky)
post_with_retries_lem_example = post_with_retries_lem 3 flaky

accepts :
    post_with_retries 3 flaky
    ≡ some (
      true,
      record {
        replies = [];
        log = send 1 4 ∷ retry 1 3 ∷ send 2 4 ∷ retry 2 3 ∷ send 3 4 ∷ ok ∷ [];
        sleeps = 1 ∷ 2 ∷ [];
      },
    )
unfolding post_with_retries post_loop
accepts = refl

abbrev rows : List (Row ℕ)
rows =
    record { time = 0; values = 7 ∷ 8 ∷ [] }
    ∷ record { time = 59_000_000; values = 9 ∷ [] }
    ∷ record { time = 60_000_000; values = 10 ∷ [] }
    ∷ []

stream_otel_gauges-bodies_example :
    joined (stream_otel_gauges none 3 60 rows flaky).bodies ≡ joined (map points rows)
stream_otel_gauges-bodies_example = stream_otel_gauges-bodies 3 60 rows flaky

stream_otel_gauges-IsLimited_example :
    let g = stream_otel_gauges (some 1) 3 60 rows flaky in
    (g.requests_attempted ≡ length g.bodies) × UpTo (some 1) g.requests_attempted
stream_otel_gauges-IsLimited_example = stream_otel_gauges-IsLimited (some 1) 3 60 rows flaky

stream_otel_gauges-IsWindow_example :
    All (IsWindow (60 * 1_000_000)) (stream_otel_gauges none 3 60 rows flaky).bodies
stream_otel_gauges-IsWindow_example =
    stream_otel_gauges-IsWindow none 3 60 rows flaky (omega arith)
      (omega arith, (omega arith, (omega arith, tt)))

two_batches :
    (stream_otel_gauges none 3 60 rows flaky).bodies
    ≡ ((0, 7) ∷ (0, 8) ∷ (59_000_000, 9) ∷ []) ∷ ((60_000_000, 10) ∷ []) ∷ []
unfolding stream_otel_gauges
two_batches = refl

abbrev early : Anomaly ℕ
early = record { timestamp = "2026-01-01 00:00:05"; row = 1 }

abbrev late : Anomaly ℕ
late = record { timestamp = "2026-01-01 00:00:10"; row = 2 }

abbrev two_anomalies : List (Anomaly ℕ)
two_anomalies = late ∷ early ∷ []

abbrev some_endpoints : Dict String
some_endpoints = ("logs", "http://h/logs") ∷ ("metrics", "") ∷ ("traces", "http://h/traces") ∷ []

stream_otel_signals-IsCounted_example :
    IsCounted (some 3) (stream_otel_signals some_endpoints two_anomalies (some 3) 1 flaky)
stream_otel_signals-IsCounted_example =
    stream_otel_signals-IsCounted some_endpoints two_anomalies (some 3) 1 flaky

stream_otel_signals-posts_example :
    (stream_otel_signals some_endpoints two_anomalies (some 3) 1 flaky).posts
    ≡ allowed (some 3) 0 (joined (map (posts_of some_endpoints) (sorted_rows two_anomalies)))
stream_otel_signals-posts_example =
    stream_otel_signals-posts some_endpoints two_anomalies (some 3) 1 flaky

three_posts :
    (stream_otel_signals some_endpoints two_anomalies (some 3) 1 flaky).posts
    ≡ ("logs", early) ∷ ("traces", early) ∷ ("logs", late) ∷ []
unfolding stream_otel_signals text_lt is_empty string_eq
three_posts = refl

two_sent : (stream_otel_signals some_endpoints two_anomalies (some 3) 1 flaky).sent ≡ 2
unfolding stream_otel_signals post_with_retries post_loop text_lt is_empty string_eq
two_sent = refl

earlier_first : sorted_rows two_anomalies ≡ early ∷ late ∷ []
unfolding sorted_rows insert_by_time text_lt
earlier_first = refl
