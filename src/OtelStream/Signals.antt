-- ===== src/OtelStream/Signals.antt =====
-- `stream_otel_signals` of otel_stream.py: one post for each anomaly and each signal that has an
-- endpoint, in the order of time. The waits between the anomalies, the bodies and the records START
-- and END of the activity log are left out; a timestamp is assumed to be one that can be parsed.
use anomaly_metric_creator.Base.{
  String, ℕ, ◌+◌, Bool, true, false, List, [], ◌∷◌, ◌++◌, Option, none, some, contains,
  if◌then◌else◌, string_eq,
}
use anomaly_metric_creator.Base.Dict.{Dict, text_lt}
use anomaly_metric_creator.Base.Text.{is_empty}
use anomaly_metric_creator.OtelStream.{Net, is_capped, post_with_retries}

-- An anomaly: its timestamp, and the rest of its row.
pub record Anomaly (R : Type 0) : Type 0 where
  pub timestamp : String
  pub row : R

-- The variables of the function; `posts` are the requests, by signal and anomaly.
pub record Signals (R : Type 0) : Type 0 where
  pub requests_attempted : ℕ
  pub sent : ℕ
  pub posts : List (String × Anomaly R)
  pub net : Net

abbrev pub known_signals : List String
known_signals = "logs" ∷ "metrics" ∷ "traces" ∷ []

module _ {R : Type 0} where
  unfoldable pub insert_by_time : Anomaly R → List (Anomaly R) → List (Anomaly R)
  insert_by_time a [] = a ∷ []
  insert_by_time a (b ∷ l) =
      let later = b ∷ insert_by_time a l in
      if text_lt b.timestamp a.timestamp then later else a ∷ b ∷ l

  -- `sorted(anomaly_rows, key=lambda row: row["timestamp"])`, which keeps the order of equal times.
  unfoldable pub sorted_rows : List (Anomaly R) → List (Anomaly R)
  unfolding insert_by_time
  sorted_rows [] = []
  sorted_rows (a ∷ l) = insert_by_time a (sorted_rows l)

  -- The fuel of the post never ends.
  abbrev pub count_sent : Signals R → Option (Bool × Net) → Signals R
  count_sent s none = s
  count_sent s (some (accepted, net)) = record s {
    sent = if accepted then s.sent + 1 else s.sent;
    net = net;
  }

  abbrev pub attempted : ℕ → Anomaly R → String → Signals R → Signals R
  attempted max_retries a signal s = record (count_sent s (post_with_retries max_retries s.net)) {
    requests_attempted = s.requests_attempted + 1;
    posts = s.posts ++ (signal, a) ∷ [];
  }

  -- One signal of an anomaly: whether the stream is aborted, and what is left.
  unfoldable pub send_signal :
      Option ℕ → ℕ → Anomaly R → String → String → Signals R → Bool × Signals R
  send_signal max_events max_retries a signal endpoint s =
      if is_empty endpoint
      then (false, s)
      else if is_capped max_events s.requests_attempted
      then (true, s)
      else if contains signal known_signals
      then (false, attempted max_retries a signal s)
      else (false, s)

  unfoldable pub send_anomaly :
      Option ℕ → ℕ → Anomaly R → Dict String → Signals R → Bool × Signals R
  unfolding send_signal
  send_anomaly max_events max_retries a [] s = (false, s)
  send_anomaly max_events max_retries a ((signal, endpoint) ∷ endpoints) s =
      let (aborted, t) = send_signal max_events max_retries a signal endpoint s in
      let rest = send_anomaly max_events max_retries a endpoints t in
      if aborted then (true, t) else rest

  unfoldable pub send_anomalies :
      Option ℕ → ℕ → Dict String → List (Anomaly R) → Signals R → Signals R
  unfolding send_anomaly
  send_anomalies max_events max_retries endpoints [] s = s
  send_anomalies max_events max_retries endpoints (a ∷ rows) s =
      let (aborted, t) = send_anomaly max_events max_retries a endpoints s in
      let rest = send_anomalies max_events max_retries endpoints rows t in
      if is_capped max_events s.requests_attempted then s else if aborted then t else rest

  abbrev pub new_signals : Net → Signals R
  new_signals net = record { requests_attempted = 0; sent = 0; posts = []; net = net }

  unfoldable pub stream_otel_signals :
      Dict String → List (Anomaly R) → Option ℕ → ℕ → Net → Signals R
  unfolding sorted_rows send_anomalies
  stream_otel_signals endpoints anomaly_rows max_events max_retries net =
      send_anomalies max_events max_retries endpoints (sorted_rows anomaly_rows) (new_signals net)
