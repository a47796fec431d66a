-- ===== src/Traces/Polls.antt =====
-- Threads that share a ring: `unsupported_summary` computes between its two halves without the lock,
-- so that other calls come in between. The cache never answers for other traces than the ring's.
use anomaly_metric_creator.Base.{
  ℕ, ◌≤◌, ◌<◌, ◌≡◌, refl, ap, List, [], ◌∷◌, ◌++◌, Option, none, some, keep, All, arith, Bool-cases,
  Option-cases, inl, inr, nat_eq, if-elim,
}
use anomaly_metric_creator.Traces.Trace.{CommandTrace, is_unsupported}
use anomaly_metric_creator.Traces.Summary.{Group, summary_of_traces}
use anomaly_metric_creator.Traces.Ring.{
  Ring, compute, new_ring, take_id, record_trace, import_traces, begin_summary, end_summary,
  unsupported_summary, may_cache, cached_at,
}

-- The ring, and the summaries that are being computed: the version and the traces of each.
pub record System : Type 0 where
  pub ring : Ring
  pub polls : List (ℕ × List CommandTrace)

pub data Step (s t : System) : Type 0 where
  take : t ≡ record s { ring = (take_id s.ring).1 } → Step s t
  note : (trace : CommandTrace) → t ≡ record s { ring = record_trace trace s.ring } → Step s t
  replace :
      (traces : List CommandTrace) → t ≡ record s { ring = import_traces traces s.ring } → Step s t
  begin :
      (version : ℕ) (traces : List CommandTrace)
      → begin_summary s.ring ≡ compute version traces
      → t ≡ record s { polls = (version, traces) ∷ s.polls }
      → Step s t
  finish :
      (before after : List (ℕ × List CommandTrace)) (version : ℕ) (traces : List CommandTrace)
      → s.polls ≡ before ++ (version, traces) ∷ after
      → t ≡ record {
        ring = end_summary version (summary_of_traces traces) s.ring;
        polls = before ++ after;
      }
      → Step s t

pub data Reach (limit : ℕ) : System → Type 0 where
  start : Reach limit (record { ring = new_ring limit; polls = [] })
  next : {s t : System} → Reach limit s → Step s t → Reach limit t

abbrev pub unsupported_now : Ring → List CommandTrace
unsupported_now r = keep is_unsupported r.items

-- What a poll holds is of an earlier version, or of the traces that the ring has.
abbrev IsCurrent : Ring → ℕ × List CommandTrace → Type 0
IsCurrent r (version, traces) =
    (version ≤ r.version) × (version ≡ r.version → traces ≡ unsupported_now r)

abbrev IsFresh : Ring → Option (ℕ × List Group) → Type 0
IsFresh r none = Unit
IsFresh r (some (version, summary)) =
    (version ≤ r.version) × (version ≡ r.version → summary ≡ summary_of_traces (unsupported_now r))

record IsValid (s : System) : Type 0 where
  pub fresh : IsFresh s.ring s.ring.summary_cache
  pub current : All (IsCurrent s.ring) s.polls

-- A later version makes what is held old.
IsFresh-later :
    (r q : Ring) (c : Option (ℕ × List Group)) → r.version < q.version → IsFresh r c → IsFresh q c
IsFresh-later r q none h f = tt
IsFresh-later r q (some (version, summary)) h f = (omega arith, λ e. absurd (omega arith))

All-IsCurrent_later :
    (r q : Ring) (polls : List (ℕ × List CommandTrace))
    → r.version < q.version
    → All (IsCurrent r) polls
    → All (IsCurrent q) polls
All-IsCurrent_later r q [] h f = tt
All-IsCurrent_later r q ((version, traces) ∷ polls) h f =
    ((omega arith, λ e. absurd (omega arith)), All-IsCurrent_later r q polls h f.1)

IsValid-later :
    (s : System) (q : Ring)
    → s.ring.version < q.version
    → q.summary_cache ≡ s.ring.summary_cache
    → IsValid s
    → IsValid (record s { ring = q })
IsValid-later s q h e v = record {
  fresh = rw e (IsFresh-later s.ring q s.ring.summary_cache h v.fresh);
  current = All-IsCurrent_later s.ring q s.polls h v.current;
}

-- An answer from the cache is of the traces that the ring has.
cached_at-IsFresh :
    (r : Ring) (c : Option (ℕ × List Group)) (summary : List Group)
    → IsFresh r c
    → cached_at r.version c ≡ some summary
    → summary ≡ summary_of_traces (unsupported_now r)
cached_at-IsFresh r none summary f h = cc
cached_at-IsFresh r (some (version, held)) summary f h = ground (arith, f.1)

-- A computed summary goes to the cache as what its poll was current for.
IsFresh-end_summary :
    (r : Ring) (version : ℕ) (traces : List CommandTrace)
    → IsFresh r r.summary_cache
    → IsCurrent r (version, traces)
    → IsFresh r (end_summary version (summary_of_traces traces) r).summary_cache
unfolding end_summary
IsFresh-end_summary r version traces f c = elim (Bool-cases (may_cache version r.summary_cache)) [
  | inl e ↦ rw e (c.0, λ h. ap summary_of_traces (c.1 h))
  | inr e ↦ rw e f
]

All-split :
    (r : Ring) (before after : List (ℕ × List CommandTrace)) (poll : ℕ × List CommandTrace)
    → All (IsCurrent r) (before ++ poll ∷ after)
    → IsCurrent r poll × All (IsCurrent r) (before ++ after)
All-split r [] after poll h = h
All-split r (p ∷ before) after poll h =
    let (c, rest) = All-split r before after poll h.1 in (c, (h.0, rest))

-- All but the cache is left alone by the second half.
record SameTraces (r q : Ring) : Type 0 where
  pub version : q.version ≡ r.version
  pub items : q.items ≡ r.items

SameTraces-end_summary :
    (version : ℕ) (summary : List Group) (r : Ring) → SameTraces r (end_summary version summary r)
unfolding end_summary
SameTraces-end_summary version summary r =
    if-elim (SameTraces r) (may_cache version r.summary_cache)
      (λ _. record { version = refl; items = refl }) (λ _. record { version = refl; items = refl })

IsFresh-same :
    (r q : Ring) (c : Option (ℕ × List Group)) → SameTraces r q → IsFresh r c → IsFresh q c
IsFresh-same r q none e f = tt
IsFresh-same r q (some (version, summary)) e f = rw (e.version, e.items) f

All-IsCurrent_same :
    (r q : Ring) (polls : List (ℕ × List CommandTrace))
    → SameTraces r q
    → All (IsCurrent r) polls
    → All (IsCurrent q) polls
All-IsCurrent_same r q [] e f = tt
All-IsCurrent_same r q ((version, traces) ∷ polls) e f =
    (rw (e.version, e.items) f.0, All-IsCurrent_same r q polls e f.1)

begin_summary-IsCurrent :
    (r : Ring) (version : ℕ) (traces : List CommandTrace)
    → begin_summary r ≡ compute version traces
    → IsCurrent r (version, traces)
unfolding begin_summary
begin_summary-IsCurrent r version traces h = (ground arith, λ e. ground arith)

Step-IsValid : {s t : System} → Step s t → IsValid s → IsValid t
unfolding take_id record_trace import_traces
Step-IsValid {s} (take e) v = rw e (record { fresh = v.fresh; current = v.current })
Step-IsValid {s} (note trace e) v =
    rw e (IsValid-later s (record_trace trace s.ring) (omega arith) refl v)
Step-IsValid {s} (replace traces e) v =
    rw e (IsValid-later s (import_traces traces s.ring) (omega arith) refl v)
Step-IsValid {s} (begin version traces h e) v = rw e (record {
  fresh = v.fresh;
  current = (begin_summary-IsCurrent s.ring version traces h, v.current);
})
Step-IsValid {s} (finish before after version traces h e) v =
    let same = SameTraces-end_summary version (summary_of_traces traces) s.ring in
    let parts = All-split s.ring before after (version, traces) (rw h at v.current) in
    rw e (record {
      fresh =
          IsFresh-same s.ring _ _ same (IsFresh-end_summary s.ring version traces v.fresh parts.0);
      current = All-IsCurrent_same s.ring _ (before ++ after) same parts.1;
    })

Reach-IsValid : {limit : ℕ} {s : System} → Reach limit s → IsValid s
Reach-IsValid start = record { fresh = tt; current = tt }
Reach-IsValid (next r step) = Step-IsValid step (Reach-IsValid r)

-- However threads record, import and summarise between one another's steps, the summary that the ring
-- answers is the one computed afresh from the unsupported traces that it holds.
pub unsupported_summary_fresh :
    {limit : ℕ} {s : System}
    → Reach limit s
    → (unsupported_summary s.ring).0 ≡ summary_of_traces (unsupported_now s.ring)
unfolding unsupported_summary begin_summary
unsupported_summary_fresh {s} r =
    elim (Option-cases (cached_at s.ring.version s.ring.summary_cache)) [
      | inl e ↦ rw (e, unsupported_summary) refl
      | inr (summary, e) ↦
          rw (e, unsupported_summary)
            (cached_at-IsFresh s.ring s.ring.summary_cache summary (Reach-IsValid r).fresh e)
    ]
