-- ===== src/Traces/Newest.antt =====
-- The ring against the history of all traces that were recorded.
use mathlib.Core.List.{reverse}
use anomaly_metric_creator.Base.{
  ℕ, zero, suc, ◌≡◌, refl, sym, ap, ap₂, ◌∙◌, false, List, [], ◌∷◌, ◌++◌, append_assoc, append-nil,
  length, length-append, take, ℤ, Option, none, some, ◌==◌, nat_eq, if◌then◌else◌, arith,
}
use anomaly_metric_creator.Base.Last.{take_all, reverse-last, take-cons-take, reverse-concat}
use anomaly_metric_creator.Traces.Trace.{CommandTrace}
use anomaly_metric_creator.Traces.Ring.{
  Ring, new_ring, record_trace, list_traces, newest_items, slice_from_end, with_version, clamp,
}

-- Traces recorded one after the other.
unfoldable pub record_ring : List CommandTrace → Ring → Ring
record_ring [] r = r
record_ring (t ∷ ts) r = record_ring ts (record_trace t r)

-- The first ones of the traces, newest first, that a listing with a limit asks for.
abbrev pub first : Option ℤ → List CommandTrace → List CommandTrace
first none newest = newest
first (some limit) newest = take (clamp limit) newest

record Holds (limit : ℕ) (seen : List CommandTrace) (r : Ring) : Type 0 where
  pub bound : r.limit ≡ limit
  pub version : r.version ≡ length seen
  pub newest : reverse r.items ≡ take limit (reverse seen)

record_trace-Holds :
    (limit : ℕ) (seen : List CommandTrace) (t : CommandTrace) (r : Ring)
    → Holds limit seen r
    → Holds limit (seen ++ t ∷ []) (record_trace t r)
unfolding record_trace
record_trace-Holds limit seen t r h = record {
  bound = h.bound;
  version = omega (arith, h.version, length-append seen (t ∷ []));
  newest =
      reverse-last r.limit (r.items ++ t ∷ [])
      ∙ ap₂ take h.bound (reverse-concat r.items t ∙ ap (λ l. t ∷ l) h.newest)
      ∙ take-cons-take limit t (reverse seen)
      ∙ ap (take limit) (sym (reverse-concat seen t));
}

record_ring-Holds :
    (limit : ℕ) (ts seen : List CommandTrace) (r : Ring)
    → Holds limit seen r
    → Holds limit (seen ++ ts) (record_ring ts r)
unfolding record_ring
record_ring-Holds limit [] seen r h = rw (append-nil seen) h
record_ring-Holds limit (t ∷ ts) seen r h =
    rw (← append_assoc seen (t ∷ []) ts)
      (record_ring-Holds limit ts (seen ++ t ∷ []) _ (record_trace-Holds limit seen t r h))

reverse-newest_items :
    (k : Option ℤ) (items : List CommandTrace)
    → reverse (newest_items k items) ≡ first k (reverse items)
unfolding nat_eq
reverse-newest_items none items = refl
reverse-newest_items (some k) items = by_size (clamp k)
  where
    by_size :
        (n : ℕ) → reverse (if n == 0 then [] else slice_from_end n items) ≡ take n (reverse items)
    by_size zero = refl
    by_size (suc n) =
        let e : (suc n == 0) ≡ false = ground arith in rw e (reverse-last (suc n) items)

-- After any traces were recorded, the ring lists the newest of them, newest first, as many as its
-- limit holds and the request asks for, with the number of all that were recorded as the version.
pub list_traces-record_ring :
    (limit : ℕ) (k : Option ℤ) (traces : List CommandTrace)
    → list_traces k (record_ring traces (new_ring limit))
      ≡ with_version (length traces) (first k (take limit (reverse traces)))
unfolding list_traces
list_traces-record_ring limit k traces =
    let h =
      record_ring-Holds limit traces [] (new_ring limit)
        (record { bound = refl; version = refl; newest = sym (take_all limit [] (omega arith)) }) in
    ap₂ with_version h.version (reverse-newest_items k _ ∙ ap (first k) h.newest)
