-- ===== src/OtelStream/Windows.antt =====
-- How much of the timeline a request of `stream_otel_gauges` covers.
use anomaly_metric_creator.Base.{
  ℕ, ◌+◌, ◌*◌, ◌≤◌, ◌<◌, ◌≡◌, refl, sym, subst, Bool, true, false, not, List, [], ◌∷◌, ◌++◌, Option,
  none, some, leb, if-elim, arith, map, All, All-append,
}
use anomaly_metric_creator.OtelStream.{
  Row, Gauges, Net, points, is_capped, posted, flush, flush_of, start_of, restarted, extended,
  started, turn, turn_of, stream_rows, new_gauges, stream_otel_gauges,
}

-- The rows do not go back in time.
abbrev pub IsSorted : {V : Type 0} → ℕ → List (Row V) → Type 0
IsSorted now [] = Unit
IsSorted now (r ∷ rows) = (now ≤ r.time) × IsSorted r.time rows

-- From the start on, for less than the span.
abbrev pub Within : {V : Type 0} → ℕ → ℕ → ℕ × V → Type 0
Within start span p = (start ≤ p.0) × (p.0 < start + span)

abbrev pub IsWindow : {V : Type 0} → ℕ → List (ℕ × V) → Type 0
IsWindow span body = (start : ℕ) × All (Within start span) body

-- The batch stands in the window that its start opens, which is not to come yet.
abbrev IsOpen : {V : Type 0} → ℕ → ℕ → Option ℕ → List (ℕ × V) → Type 0
IsOpen now span none batch = batch ≡ []
IsOpen now span (some start) batch = (start ≤ now) × All (Within start span) batch

module _ {V : Type 0} (max_events : Option ℕ) (max_retries span : ℕ) (positive : 0 < span) where
  record IsSpanned (now : ℕ) (g : Gauges V) : Type 0 where
    pub open_batch : IsOpen now span g.batch_start g.batch
    pub windows : All (IsWindow span) g.bodies

  later-IsOpen :
      (now later : ℕ) (start : Option ℕ) (batch : List (ℕ × V))
      → now ≤ later
      → IsOpen now span start batch
      → IsOpen later span start batch
  later-IsOpen now later none batch le h = h
  later-IsOpen now later (some s) batch le (before, h) = (omega (arith, le, before), h)

  started-IsOpen :
      (now time : ℕ) (start : Option ℕ) (batch : List (ℕ × V))
      → now ≤ time
      → IsOpen now span start batch
      → IsOpen time span (some (start_of start time)) batch
  started-IsOpen now time none batch le h = (omega arith, subst (All (Within time span)) (sym h) tt)
  started-IsOpen now time (some s) batch le (before, h) = (omega (arith, le, before), h)

  IsWindow-batch :
      (now : ℕ) (start : Option ℕ) (batch : List (ℕ × V))
      → IsOpen now span start batch
      → IsWindow span batch
  IsWindow-batch now none batch h = (0, subst (All (Within 0 span)) (sym h) tt)
  IsWindow-batch now (some s) batch (before, h) = (s, h)

  posted-IsSpanned :
      (now : ℕ) (g : Gauges V) → IsSpanned now g → IsSpanned now (posted max_retries g)
  posted-IsSpanned now g h = record {
    open_batch = refl;
    windows =
        All-append (IsWindow span) g.bodies (g.batch ∷ []) h.windows
          (IsWindow-batch now g.batch_start g.batch h.open_batch, tt);
  }

  flush_of-IsSpanned :
      (now : ℕ) (g : Gauges V) (batch : List (ℕ × V))
      → IsSpanned now g
      → IsSpanned now (flush_of max_events max_retries g batch).1
  flush_of-IsSpanned now g [] h = h
  flush_of-IsSpanned now g (_ ∷ _) h =
      if-elim (λ (x : Bool × Gauges V). IsSpanned now x.1)
        (is_capped max_events g.requests_attempted) {x = (false, g)}
        {y = (
          not (is_capped max_events (posted max_retries g).requests_attempted),
          posted max_retries g,
        )}
        (λ _. h) (λ _. posted-IsSpanned now g h)

  -- A flush that lets the loop go on has emptied the batch.
  IsEmptied : Bool × Gauges V → Type 0
  IsEmptied (true, g) = g.batch ≡ []
  IsEmptied (false, g) = Unit

  flush_of-IsEmptied :
      (g : Gauges V) (batch : List (ℕ × V))
      → g.batch ≡ batch
      → IsEmptied (flush_of max_events max_retries g batch)
  unfolding IsEmptied
  flush_of-IsEmptied g [] e = e
  flush_of-IsEmptied g (_ ∷ _) e =
      if-elim IsEmptied (is_capped max_events g.requests_attempted) {x = (false, g)}
        {y = (
          not (is_capped max_events (posted max_retries g).requests_attempted),
          posted max_retries g,
        )}
        (λ _. tt)
        (λ _. either (not (is_capped max_events (posted max_retries g).requests_attempted)))
    where
      either : (go : Bool) → IsEmptied (go, posted max_retries g)
      either true = refl
      either false = tt

  points-Within :
      (time start : ℕ) (values : List V)
      → start ≤ time
      → time < start + span
      → All (Within start span) (map (λ v. (time, v)) values)
  points-Within time start [] le lt = tt
  points-Within time start (v ∷ vs) le lt = ((le, lt), points-Within time start vs le lt)

  -- A row within the span of the batch joins it.
  joins :
      (r : Row V) (g : Gauges V) (start : ℕ)
      → r.time < start + span
      → IsOpen r.time span (some start) g.batch
      → All (IsWindow span) g.bodies
      → IsSpanned r.time (record g { batch_start = some start; batch = g.batch ++ points r })
  joins r g start lt (le, h) windows = record {
    open_batch = (
      le,
      All-append (Within start span) g.batch (points r) h
          (points-Within r.time start r.values le lt),
    );
    windows = windows;
  }

  -- A row after a flush begins a batch of its own.
  begins :
      (r : Row V) (x : Bool × Gauges V)
      → IsEmptied x
      → IsSpanned r.time x.1
      → IsSpanned r.time (extended r (restarted r.time x)).1
  unfolding IsEmptied
  begins r (true, g) e h =
      joins r g r.time (omega (arith, positive))
        (omega arith, subst (All (Within r.time span)) (sym e) tt) h.windows
  begins r (false, g) e h = h

  turn_of-IsSpanned :
      (now : ℕ) (r : Row V) (g : Gauges V) (values : List V)
      → now ≤ r.time
      → IsSpanned now g
      → IsSpanned r.time (turn_of max_events max_retries span r g values).1
  unfolding flush
  turn_of-IsSpanned now r g [] le h = record {
    open_batch = later-IsOpen now r.time g.batch_start g.batch le h.open_batch;
    windows = h.windows;
  }
  turn_of-IsSpanned now r g (_ ∷ _) le h =
      let start = start_of g.batch_start r.time in
      let opened = started-IsOpen now r.time g.batch_start g.batch le h.open_batch in
      let s : IsSpanned r.time (started r g) = record {
        open_batch = opened;
        windows = h.windows;
      } in
      let f = flush max_events max_retries (started r g) in
      if-elim (λ x. IsSpanned r.time (extended r x).1) (leb (start + span) r.time)
        {x = restarted r.time f} {y = (true, started r g)}
        (λ _.
          begins r f (flush_of-IsEmptied (started r g) (started r g).batch refl)
            (flush_of-IsSpanned r.time (started r g) (started r g).batch s))
        (λ e. joins r (started r g) start (ground (arith, e)) opened h.windows)

  stream_rows-IsSpanned :
      (now : ℕ) (rows : List (Row V)) (g : Gauges V)
      → IsSorted now rows
      → IsSpanned now g
      → All (IsWindow span) (stream_rows max_events max_retries span rows g).bodies
  unfolding stream_rows
  stream_rows-IsSpanned now [] g sorted h = (flush_of-IsSpanned now g g.batch h).windows
  stream_rows-IsSpanned now (r ∷ rows) g (le, sorted) h =
      let (go, after) = turn max_events max_retries span r g in
      let k = turn_of-IsSpanned now r g r.values le h in
      if-elim (λ (x : Gauges V). All (IsWindow span) x.bodies) go
        (λ _. stream_rows-IsSpanned r.time rows after sorted k) (λ _. k.windows)

-- Where the rows do not go back in time and the span is not empty, the points of each request lie
-- within less than `batch_seconds` seconds of the timeline.
pub stream_otel_gauges-IsWindow :
    {V : Type 0} (max_events : Option ℕ) (max_retries batch_seconds : ℕ) (rows : List (Row V))
    (net : Net)
    → 0 < batch_seconds
    → IsSorted 0 rows
    → All
        (IsWindow (batch_seconds * 1_000_000))
        (stream_otel_gauges max_events max_retries batch_seconds rows net).bodies
unfolding stream_otel_gauges
stream_otel_gauges-IsWindow max_events max_retries batch_seconds rows net positive sorted =
    stream_rows-IsSpanned max_events max_retries (batch_seconds * 1_000_000)
      (omega (arith, positive)) 0 rows (new_gauges net) sorted
      (record { open_batch = refl; windows = tt })
