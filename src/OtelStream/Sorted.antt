-- ===== src/OtelStream/Sorted.antt =====
-- What `sorted` makes of the anomalies in `stream_otel_signals`.
use anomaly_metric_creator.Base.{
  String, ◌≡◌, refl, ap, ◌∙◌, false, List, [], ◌∷◌, if◌then◌else◌, if-elim, ◌==◌, string_eq, arith,
}
use anomaly_metric_creator.Base.Dict.{text_lt, text_lt_irrefl}
use anomaly_metric_creator.Base.TextOrder.{text_lt_asym}
use anomaly_metric_creator.OtelStream.Signals.{Anomaly, sorted_rows, insert_by_time}

module _ {R : Type 0} where
  abbrev Starts : Anomaly R → List (Anomaly R) → Type 0
  Starts a [] = Unit
  Starts a (b ∷ l) = text_lt b.timestamp a.timestamp ≡ false

  -- No anomaly is earlier than the one before it.
  abbrev pub IsSorted : List (Anomaly R) → Type 0
  IsSorted [] = Unit
  IsSorted (a ∷ l) = Starts a l × IsSorted l

  -- The anomalies of one time.
  abbrev pub at : String → List (Anomaly R) → List (Anomaly R)
  at time [] = []
  at time (a ∷ l) = let rest = at time l in if a.timestamp == time then a ∷ rest else rest

  Starts-insert_by_time :
      (a b : Anomaly R) (l : List (Anomaly R))
      → text_lt a.timestamp b.timestamp ≡ false
      → Starts b l
      → Starts b (insert_by_time a l)
  unfolding insert_by_time
  Starts-insert_by_time a b [] h s = h
  Starts-insert_by_time a b (c ∷ l) h s =
      if-elim (Starts b) (text_lt c.timestamp a.timestamp) (λ _. s) (λ _. h)

  insert_by_time-IsSorted :
      (a : Anomaly R) (l : List (Anomaly R)) → IsSorted l → IsSorted (insert_by_time a l)
  unfolding insert_by_time
  insert_by_time-IsSorted a [] h = (tt, tt)
  insert_by_time-IsSorted a (b ∷ l) h =
      if-elim IsSorted (text_lt b.timestamp a.timestamp)
        (λ e. (
          Starts-insert_by_time a b l (text_lt_asym b.timestamp a.timestamp e) h.0,
          insert_by_time-IsSorted a l h.1,
        ))
        (λ e. (e, h))

  at-insert_by_time :
      (time : String) (a : Anomaly R) (l : List (Anomaly R))
      → at time (insert_by_time a l) ≡ at time (a ∷ l)
  unfolding insert_by_time
  at-insert_by_time time a [] = refl
  at-insert_by_time time a (b ∷ l) =
      ground (arith, at-insert_by_time time a l, text_lt_irrefl b.timestamp)

  sorted_rows-IsSorted : (l : List (Anomaly R)) → IsSorted (sorted_rows l)
  unfolding sorted_rows
  sorted_rows-IsSorted [] = tt
  sorted_rows-IsSorted (a ∷ l) = insert_by_time-IsSorted a (sorted_rows l) (sorted_rows-IsSorted l)

  at-sorted_rows : (time : String) (l : List (Anomaly R)) → at time (sorted_rows l) ≡ at time l
  unfolding sorted_rows
  at-sorted_rows time [] = refl
  at-sorted_rows time (a ∷ l) =
      at-insert_by_time time a (sorted_rows l)
      ∙ ap (λ rest. if a.timestamp == time then a ∷ rest else rest) (at-sorted_rows time l)

-- The anomalies are replayed in the order of time, none earlier than the one before it, and of each
-- time they are those that were given, in the order they were given in.
pub sorted_rows_lem :
    {R : Type 0} (anomaly_rows : List (Anomaly R))
    → let sorted = sorted_rows anomaly_rows in
      IsSorted sorted × ((time : String) → at time sorted ≡ at time anomaly_rows)
sorted_rows_lem anomaly_rows =
    (sorted_rows-IsSorted anomaly_rows, λ time. at-sorted_rows time anomaly_rows)
