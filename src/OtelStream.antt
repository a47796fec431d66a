-- ===== src/OtelStream.antt =====
-- otel_stream.py: the posts of the OTEL streams, with their retries, and the batches of gauges. The
-- network is a list of replies to the posts to come; a post with no reply left succeeds. The contents
-- of a request and the pacing of the timeline by the clock are left out.
pub mod Retries
pub mod Batches
pub mod Limits
pub mod Windows
pub mod Signals
pub mod Attempts
pub mod Posts
pub mod Sorted
pub mod Tests
use anomaly_metric_creator.Base.{
  ℕ, zero, suc, ◌+◌, ◌-◌, ◌*◌, ◌^◌, min, Bool, true, false, not, length, List, [], ◌∷◌, ◌++◌, map,
  Option, none, some, ltb, leb, if◌then◌else◌,
}

abbrev pub otel_default_max_retries : ℕ
otel_default_max_retries = 3

abbrev pub otel_backoff_max_seconds : ℕ
otel_backoff_max_seconds = 8

-- The records of the activity log, with the numbers in their field `attempt`.
pub data Activity : Type 0 where
  send retry : ℕ → ℕ → Activity
  ok fail : Activity

-- The replies to come, the activity log, and the seconds slept between attempts.
pub record Net : Type 0 where
  pub replies : List Bool
  pub log : List Activity
  pub sleeps : List ℕ

abbrev pub next_reply : List Bool → Bool
next_reply [] = true
next_reply (r ∷ _) = r

abbrev pub later_replies : List Bool → List Bool
later_replies [] = []
later_replies (_ ∷ rs) = rs

abbrev pub write_activity : Activity → Net → Net
write_activity a n = record n { log = n.log ++ a ∷ [] }

abbrev pub backoff : ℕ → ℕ
backoff attempts = min (2 ^ (attempts - 1)) otel_backoff_max_seconds

-- The loop; `none` where the fuel ends before the loop does.
unfoldable pub post_loop : ℕ → ℕ → ℕ → Net → Option (Bool × Net)
post_loop zero max_retries attempts n = none
post_loop (suc fuel) max_retries attempts n =
    let sent = write_activity (send (attempts + 1) (max_retries + 1)) n in
    let taken = record sent { replies = later_replies n.replies } in
    let failed = attempts + 1 in
    let slept = record (write_activity (retry failed max_retries) taken) {
      sleeps = n.sleeps ++ backoff failed ∷ [];
    } in
    let again = post_loop fuel max_retries failed slept in
    if next_reply n.replies
    then some (true, write_activity ok taken)
    else if ltb max_retries failed
    then some (false, write_activity fail taken)
    else again

-- One turn for each attempt is enough.
unfoldable pub post_with_retries : ℕ → Net → Option (Bool × Net)
post_with_retries max_retries = post_loop (suc max_retries) max_retries 0

-- A row of the merged timeline, at a time in microseconds.
pub record Row (V : Type 0) : Type 0 where
  pub time : ℕ
  pub values : List V

-- The variables of `stream_otel_gauges`; `bodies` are the batches that were posted.
pub record Gauges (V : Type 0) : Type 0 where
  pub batch : List (ℕ × V)
  pub batch_start : Option ℕ
  pub requests_sent : ℕ
  pub requests_attempted : ℕ
  pub data_points_sent : ℕ
  pub bodies : List (List (ℕ × V))
  pub net : Net

abbrev pub is_capped : Option ℕ → ℕ → Bool
is_capped none attempted = false
is_capped (some max_events) attempted = leb max_events attempted

abbrev pub points : {V : Type 0} → Row V → List (ℕ × V)
points r = map (λ v. (r.time, v)) r.values

abbrev pub start_of : Option ℕ → ℕ → ℕ
start_of none time = time
start_of (some start) time = start

module _ {V : Type 0} where
  -- A batch that is posted, whether it is accepted or not. The fuel of the post never ends.
  abbrev pub count_post : Gauges V → Option (Bool × Net) → Gauges V
  count_post g none = g
  count_post g (some (sent, net)) = record g {
    requests_sent = if sent then g.requests_sent + 1 else g.requests_sent;
    data_points_sent = if sent then g.data_points_sent + length g.batch else g.data_points_sent;
    net = net;
  }

  abbrev pub posted : ℕ → Gauges V → Gauges V
  posted max_retries g = record (count_post g (post_with_retries max_retries g.net)) {
    batch = [];
    batch_start = none;
    requests_attempted = g.requests_attempted + 1;
    bodies = g.bodies ++ g.batch ∷ [];
  }

  abbrev pub flush_of : Option ℕ → ℕ → Gauges V → List (ℕ × V) → Bool × Gauges V
  flush_of max_events max_retries g [] = (true, g)
  flush_of max_events max_retries g (_ ∷ _) =
      let h = posted max_retries g in
      if is_capped max_events g.requests_attempted
      then (false, g)
      else (not (is_capped max_events h.requests_attempted), h)

  -- `_flush`: whether to go on, and what is left.
  unfoldable pub flush : Option ℕ → ℕ → Gauges V → Bool × Gauges V
  flush max_events max_retries g = flush_of max_events max_retries g g.batch

  abbrev pub restarted : ℕ → Bool × Gauges V → Bool × Gauges V
  restarted time (true, g) = (true, record g { batch_start = some time })
  restarted time (false, g) = (false, g)

  abbrev pub extended : Row V → Bool × Gauges V → Bool × Gauges V
  extended r (true, g) = (true, record g { batch = g.batch ++ points r })
  extended r (false, g) = (false, g)

  abbrev pub started : Row V → Gauges V → Gauges V
  started r g = record g { batch_start = some (start_of g.batch_start r.time) }

  abbrev pub turn_of : Option ℕ → ℕ → ℕ → Row V → Gauges V → List V → Bool × Gauges V
  turn_of max_events max_retries span r g [] = (true, g)
  turn_of max_events max_retries span r g (_ ∷ _) = extended r (
      if leb (start_of g.batch_start r.time + span) r.time
      then restarted r.time (flush max_events max_retries (started r g))
      else (true, started r g))

  -- A turn of the loop over the merged rows, whose span is in microseconds: a row that would stretch
  -- the batch to the span flushes it first.
  unfoldable pub turn : Option ℕ → ℕ → ℕ → Row V → Gauges V → Bool × Gauges V
  unfolding flush
  turn max_events max_retries span r g = turn_of max_events max_retries span r g r.values

  unfoldable pub stream_rows : Option ℕ → ℕ → ℕ → List (Row V) → Gauges V → Gauges V
  unfolding flush turn
  stream_rows max_events max_retries span [] g = (flush max_events max_retries g).1
  stream_rows max_events max_retries span (r ∷ rows) g =
      let (go, h) = turn max_events max_retries span r g in
      let rest = stream_rows max_events max_retries span rows h in if go then rest else h

  abbrev pub new_gauges : Net → Gauges V
  new_gauges net = record {
    batch = [];
    batch_start = none;
    requests_sent = 0;
    requests_attempted = 0;
    data_points_sent = 0;
    bodies = [];
    net = net;
  }

  unfoldable pub stream_otel_gauges : Option ℕ → ℕ → ℕ → List (Row V) → Net → Gauges V
  unfolding stream_rows
  stream_otel_gauges max_events max_retries batch_seconds rows net =
      stream_rows max_events max_retries (batch_seconds * 1_000_000) rows (new_gauges net)
