-- ===== src/OtelStream/Limits.antt =====
-- How many requests `stream_otel_gauges` makes.
use anomaly_metric_creator.Base.{
  ℕ, ◌+◌, ◌≤◌, ◌≡◌, refl, Bool, true, false, not, length, List, [], ◌∷◌, Option, none, some, leb,
  if-elim, arith, length-append,
}
use anomaly_metric_creator.OtelStream.{
  Row, Gauges, Net, is_capped, posted, flush, flush_of, start_of, restarted, extended, started,
  turn, turn_of, stream_rows, new_gauges, stream_otel_gauges,
}

abbrev pub UpTo : Option ℕ → ℕ → Type 0
UpTo none n = Unit
UpTo (some max_events) n = n ≤ max_events

pub UpTo-next :
    (max_events : Option ℕ) (n : ℕ) → is_capped max_events n ≡ false → UpTo max_events (n + 1)
UpTo-next none n h = tt
UpTo-next (some max_events) n h = ground (arith, h)

module _ {V : Type 0} (max_events : Option ℕ) (max_retries span : ℕ) where
  -- The requests are counted, and are not more than allowed.
  record IsLimited (g : Gauges V) : Type 0 where
    pub counted : g.requests_attempted ≡ length g.bodies
    pub within : UpTo max_events g.requests_attempted

  posted-IsLimited :
      (g : Gauges V)
      → IsLimited g
      → is_capped max_events g.requests_attempted ≡ false
      → IsLimited (posted max_retries g)
  posted-IsLimited g h e = record {
    counted = omega (arith, h.counted, length-append g.bodies (g.batch ∷ []));
    within = UpTo-next max_events g.requests_attempted e;
  }

  flush_of-IsLimited :
      (g : Gauges V) (batch : List (ℕ × V))
      → IsLimited g
      → IsLimited (flush_of max_events max_retries g batch).1
  flush_of-IsLimited g [] h = h
  flush_of-IsLimited g (_ ∷ _) h =
      if-elim (λ (x : Bool × Gauges V). IsLimited x.1) (is_capped max_events g.requests_attempted)
        {x = (false, g)}
        {y = (
          not (is_capped max_events (posted max_retries g).requests_attempted),
          posted max_retries g,
        )}
        (λ _. h) (posted-IsLimited g h)

  flush-IsLimited : (g : Gauges V) → IsLimited g → IsLimited (flush max_events max_retries g).1
  unfolding flush
  flush-IsLimited g h = flush_of-IsLimited g g.batch h

  extended-IsLimited :
      (r : Row V) (x : Bool × Gauges V) → IsLimited x.1 → IsLimited (extended r x).1
  extended-IsLimited r (true, g) h = record { counted = h.counted; within = h.within }
  extended-IsLimited r (false, g) h = h

  restarted-IsLimited :
      (time : ℕ) (x : Bool × Gauges V) → IsLimited x.1 → IsLimited (restarted time x).1
  restarted-IsLimited time (true, g) h = record { counted = h.counted; within = h.within }
  restarted-IsLimited time (false, g) h = h

  turn_of-IsLimited :
      (r : Row V) (g : Gauges V) (values : List V)
      → IsLimited g
      → IsLimited (turn_of max_events max_retries span r g values).1
  turn_of-IsLimited r g [] h = h
  turn_of-IsLimited r g (_ ∷ _) h =
      let s : IsLimited (started r g) = record { counted = h.counted; within = h.within } in
      let f = flush max_events max_retries (started r g) in
      if-elim (λ x. IsLimited (extended r x).1) (leb (start_of g.batch_start r.time + span) r.time)
        {x = restarted r.time f} {y = (true, started r g)}
        (λ _.
          extended-IsLimited r (restarted r.time f)
            (restarted-IsLimited r.time f (flush-IsLimited (started r g) s)))
        (λ _. extended-IsLimited r (true, started r g) s)

  turn-IsLimited :
      (r : Row V) (g : Gauges V) → IsLimited g → IsLimited (turn max_events max_retries span r g).1
  unfolding turn
  turn-IsLimited r g h = turn_of-IsLimited r g r.values h

  stream_rows-IsLimited :
      (rows : List (Row V)) (g : Gauges V)
      → IsLimited g
      → IsLimited (stream_rows max_events max_retries span rows g)
  unfolding stream_rows
  stream_rows-IsLimited [] g h = flush-IsLimited g h
  stream_rows-IsLimited (r ∷ rows) g h =
      let (go, after) = turn max_events max_retries span r g in
      let k = turn-IsLimited r g h in
      if-elim IsLimited go (λ _. stream_rows-IsLimited rows after k) (λ _. k)

-- The stream makes at most `max_events` requests where there is a limit, counts each one that it
-- makes, accepted or not, and makes one for each body.
pub stream_otel_gauges-IsLimited :
    {V : Type 0} (max_events : Option ℕ) (max_retries batch_seconds : ℕ) (rows : List (Row V))
    (net : Net)
    → let g = stream_otel_gauges max_events max_retries batch_seconds rows net in
      (g.requests_attempted ≡ length g.bodies) × UpTo max_events g.requests_attempted
unfolding stream_otel_gauges
stream_otel_gauges-IsLimited max_events max_retries batch_seconds rows net =
    let h =
      stream_rows-IsLimited max_events max_retries _ rows (new_gauges net)
        (record { counted = refl; within = start max_events }) in
    (h.counted, h.within)
  where
    start : (max_events : Option ℕ) → UpTo max_events 0
    start none = tt
    start (some m) = omega arith
