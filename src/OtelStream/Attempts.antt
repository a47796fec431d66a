-- ===== src/OtelStream/Attempts.antt =====
-- How many requests `stream_otel_signals` makes.
use anomaly_metric_creator.Base.{
  String, ℕ, ◌+◌, ◌≤◌, ◌≡◌, refl, Bool, true, false, not, ◌&&◌, length, length-append, List, [],
  ◌∷◌, map, Option, none, some, contains, if◌then◌else◌, if-elim, string_eq, arith,
}
use anomaly_metric_creator.Base.Dict.{Dict}
use anomaly_metric_creator.Base.Text.{is_empty}
use anomaly_metric_creator.OtelStream.{Net, is_capped, post_with_retries}
use anomaly_metric_creator.OtelStream.Limits.{UpTo, UpTo-next}
use anomaly_metric_creator.OtelStream.Signals.{
  Anomaly, Signals, known_signals, sorted_rows, count_sent, attempted, send_signal, send_anomaly,
  send_anomalies, new_signals, stream_otel_signals,
}

-- The signals that have an endpoint, in the order of the endpoints.
abbrev pub active_signals : Dict String → List String
active_signals [] = []
active_signals ((signal, endpoint) ∷ endpoints) =
    let rest = active_signals endpoints in
    if not (is_empty endpoint) && contains signal known_signals then signal ∷ rest else rest

module _ {R : Type 0} where
  abbrev pub posts_of : Dict String → Anomaly R → List (String × Anomaly R)
  posts_of endpoints a = map (λ signal. (signal, a)) (active_signals endpoints)

  -- The requests are counted, no more are allowed, and no more were accepted.
  pub record IsCounted (max_events : Option ℕ) (s : Signals R) : Type 0 where
    pub counted : s.requests_attempted ≡ length s.posts
    pub within : UpTo max_events s.requests_attempted
    pub accepted : s.sent ≤ s.requests_attempted

  count_sent-accepted :
      (s : Signals R) (o : Option (Bool × Net)) → (count_sent s o).sent ≤ s.sent + 1
  count_sent-accepted s none = omega arith
  count_sent-accepted s (some (true, net)) = omega arith
  count_sent-accepted s (some (false, net)) = omega arith

  attempted-IsCounted :
      (max_events : Option ℕ) (max_retries : ℕ) (a : Anomaly R) (signal : String) (s : Signals R)
      → IsCounted max_events s
      → is_capped max_events s.requests_attempted ≡ false
      → IsCounted max_events (attempted max_retries a signal s)
  attempted-IsCounted max_events max_retries a signal s h e = record {
    counted = omega (arith, h.counted, length-append s.posts ((signal, a) ∷ []));
    within = UpTo-next max_events s.requests_attempted e;
    accepted =
        omega (arith, h.accepted, count_sent-accepted s (post_with_retries max_retries s.net));
  }

  send_signal-IsCounted :
      (max_events : Option ℕ) (max_retries : ℕ) (a : Anomaly R) (signal endpoint : String)
      (s : Signals R)
      → IsCounted max_events s
      → IsCounted max_events (send_signal max_events max_retries a signal endpoint s).1
  unfolding send_signal
  send_signal-IsCounted max_events max_retries a signal endpoint s h =
      let P : Bool × Signals R → Type 0 = λ x. IsCounted max_events x.1 in
      if-elim P (is_empty endpoint) (λ _. h)
        λ _.
          if-elim P (is_capped max_events s.requests_attempted) (λ _. h)
            λ e.
              if-elim P (contains signal known_signals)
                (λ _. attempted-IsCounted max_events max_retries a signal s h e) (λ _. h)

  send_anomaly-IsCounted :
      (max_events : Option ℕ) (max_retries : ℕ) (a : Anomaly R) (endpoints : Dict String)
      (s : Signals R)
      → IsCounted max_events s
      → IsCounted max_events (send_anomaly max_events max_retries a endpoints s).1
  unfolding send_anomaly
  send_anomaly-IsCounted max_events max_retries a [] s h = h
  send_anomaly-IsCounted max_events max_retries a ((signal, endpoint) ∷ endpoints) s h =
      let (aborted, t) = send_signal max_events max_retries a signal endpoint s in
      let k = send_signal-IsCounted max_events max_retries a signal endpoint s h in
      if-elim (λ (x : Bool × Signals R). IsCounted max_events x.1) aborted {x = (true, t)} (λ _. k)
        (λ _. send_anomaly-IsCounted max_events max_retries a endpoints t k)

  send_anomalies-IsCounted :
      (max_events : Option ℕ) (max_retries : ℕ) (endpoints : Dict String) (rows : List (Anomaly R))
      (s : Signals R)
      → IsCounted max_events s
      → IsCounted max_events (send_anomalies max_events max_retries endpoints rows s)
  unfolding send_anomalies
  send_anomalies-IsCounted max_events max_retries endpoints [] s h = h
  send_anomalies-IsCounted max_events max_retries endpoints (a ∷ rows) s h =
      let (aborted, t) = send_anomaly max_events max_retries a endpoints s in
      let k = send_anomaly-IsCounted max_events max_retries a endpoints s h in
      if-elim (IsCounted max_events) (is_capped max_events s.requests_attempted) (λ _. h)
        λ _.
          if-elim (IsCounted max_events) aborted (λ _. k)
            (λ _. send_anomalies-IsCounted max_events max_retries endpoints rows t k)

-- The stream counts each request that it makes, makes at most `max_events` of them where there is a
-- limit, and returns no more than the number it made.
pub stream_otel_signals-IsCounted :
    {R : Type 0} (endpoints : Dict String) (anomaly_rows : List (Anomaly R)) (max_events : Option ℕ)
    (max_retries : ℕ) (net : Net)
    → IsCounted max_events (stream_otel_signals endpoints anomaly_rows max_events max_retries net)
unfolding stream_otel_signals
stream_otel_signals-IsCounted endpoints anomaly_rows max_events max_retries net =
    send_anomalies-IsCounted max_events max_retries endpoints (sorted_rows anomaly_rows)
      (new_signals net)
      (record { counted = refl; within = start max_events; accepted = omega arith })
  where
    start : (max_events : Option ℕ) → UpTo max_events 0
    start none = tt
    start (some m) = omega arith
