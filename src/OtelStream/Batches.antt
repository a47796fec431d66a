-- ===== src/OtelStream/Batches.antt =====
-- What `stream_otel_gauges` posts: every point once and in order, and never more requests than allowed.
use anomaly_metric_creator.Base.{
  joined, ℕ, ◌+◌, ◌≡◌, refl, ap, sym, ◌∙◌, append_assoc, append-nil, Bool, true, false, List, [],
  ◌∷◌, ◌++◌, none, leb, if-elim, map,
}
use anomaly_metric_creator.OtelStream.{
  Row, Gauges, Net, points, posted, flush, flush_of, turn_of, start_of, restarted, extended,
  started, turn, stream_rows, new_gauges, stream_otel_gauges,
}

joined-append {ℓ} :
    {A : Type ℓ} (ls : List (List A)) (l : List A) → joined (ls ++ l ∷ []) ≡ joined ls ++ l
joined-append [] l = append-nil l
joined-append (m ∷ ls) l =
    ap (λ x. m ++ x) (joined-append ls l) ∙ sym (append_assoc m (joined ls) l)

module _ {V : Type 0} where
  -- All that was read so far: posted or still in the batch.
  abbrev gathered : Gauges V → List (ℕ × V)
  gathered g = joined g.bodies ++ g.batch

  posted-gathered : (max_retries : ℕ) (g : Gauges V) → gathered (posted max_retries g) ≡ gathered g
  posted-gathered max_retries g = append-nil _ ∙ joined-append g.bodies g.batch

  -- With no limit a flush always goes on, loses nothing, and leaves nothing in the batch.
  record IsFlushed (g : Gauges V) (x : Bool × Gauges V) : Type 0 where
    pub goes_on : x.0 ≡ true
    pub same : gathered x.1 ≡ gathered g
    pub emptied : x.1.batch ≡ []

  flush_of-IsFlushed :
      (max_retries : ℕ) (g : Gauges V) (batch : List (ℕ × V))
      → g.batch ≡ batch
      → IsFlushed g (flush_of none max_retries g batch)
  flush_of-IsFlushed max_retries g [] e = record { goes_on = refl; same = refl; emptied = e }
  flush_of-IsFlushed max_retries g (_ ∷ _) e = record {
    goes_on = refl;
    same = posted-gathered max_retries g;
    emptied = refl;
  }

  flush-IsFlushed : (max_retries : ℕ) (g : Gauges V) → IsFlushed g (flush none max_retries g)
  unfolding flush
  flush-IsFlushed max_retries g = flush_of-IsFlushed max_retries g g.batch refl

  -- A turn goes on and gathers the points of its row.
  record IsTurned (r : Row V) (g : Gauges V) (x : Bool × Gauges V) : Type 0 where
    pub goes_on : x.0 ≡ true
    pub same : gathered x.1 ≡ gathered g ++ points r

  extended-IsTurned :
      (r : Row V) (g : Gauges V) (x : Bool × Gauges V)
      → x.0 ≡ true
      → gathered x.1 ≡ gathered g
      → IsTurned r g (extended r x)
  extended-IsTurned r g (true, h) e same = record {
    goes_on = refl;
    same = sym (append_assoc (joined h.bodies) h.batch (points r)) ∙ ap (λ l. l ++ points r) same;
  }
  extended-IsTurned r g (false, h) e same = absurd (cc)

  restarted-goes_on : (time : ℕ) (x : Bool × Gauges V) → x.0 ≡ true → (restarted time x).0 ≡ true
  restarted-goes_on time (true, h) e = refl
  restarted-goes_on time (false, h) e = e

  restarted-gathered :
      (time : ℕ) (x : Bool × Gauges V) → gathered (restarted time x).1 ≡ gathered x.1
  restarted-gathered time (true, h) = refl
  restarted-gathered time (false, h) = refl

  turn_of-IsTurned :
      (max_retries span : ℕ) (r : Row V) (g : Gauges V) (values : List V)
      → r.values ≡ values
      → IsTurned r g (turn_of none max_retries span r g values)
  turn_of-IsTurned max_retries span r g [] e = record {
    goes_on = refl;
    same =
        sym (append-nil (gathered g)) ∙ ap (λ vs. gathered g ++ map (λ v. (r.time, v)) vs) (sym e);
  }
  turn_of-IsTurned max_retries span r g (_ ∷ _) e =
      let f = flush none max_retries (started r g) in
      let h = flush-IsFlushed max_retries (started r g) in
      if-elim (λ x. IsTurned r g (extended r x)) (leb (start_of g.batch_start r.time + span) r.time)
        {x = restarted r.time f} {y = (true, started r g)}
        (λ _.
          extended-IsTurned r g (restarted r.time f) (restarted-goes_on r.time f h.goes_on)
            (restarted-gathered r.time f ∙ h.same))
        (λ _. extended-IsTurned r g (true, started r g) refl refl)

  turn-IsTurned :
      (max_retries span : ℕ) (r : Row V) (g : Gauges V)
      → IsTurned r g (turn none max_retries span r g)
  unfolding turn
  turn-IsTurned max_retries span r g = turn_of-IsTurned max_retries span r g r.values refl

  joined-stream_rows :
      (max_retries span : ℕ) (rows : List (Row V)) (g : Gauges V)
      → joined (stream_rows none max_retries span rows g).bodies
        ≡ gathered g ++ joined (map points rows)
  unfolding stream_rows
  joined-stream_rows max_retries span [] g =
      let h = flush-IsFlushed max_retries g in
      let last = (flush none max_retries g).1 in
      sym (append-nil (joined last.bodies))
      ∙ ap (λ b. joined last.bodies ++ b) (sym h.emptied)
      ∙ h.same
      ∙ sym (append-nil (gathered g))
  joined-stream_rows max_retries span (r ∷ rows) g =
      let h = turn-IsTurned max_retries span r g in
      rw
        (
          h.goes_on,
          joined-stream_rows max_retries span rows (turn none max_retries span r g).1,
          h.same,
        )
        (append_assoc (gathered g) (points r) (joined (map points rows)))

  -- With no limit on the requests, the bodies of all requests in a row are the points of all rows in
  -- a row: no point is lost, sent in two batches or moved before another, whatever is refused.
  pub stream_otel_gauges-bodies :
      (max_retries batch_seconds : ℕ) (rows : List (Row V)) (net : Net)
      → joined (stream_otel_gauges none max_retries batch_seconds rows net).bodies
        ≡ joined (map points rows)
  unfolding stream_otel_gauges
  stream_otel_gauges-bodies max_retries batch_seconds rows net =
      joined-stream_rows max_retries _ rows (new_gauges net)
