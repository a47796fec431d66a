-- ===== src/Traces/Counts.antt =====
-- The numbers of a summary: one group for each fingerprint, and in a group what its traces come to.
use anomaly_metric_creator.Base.{
  String, ℕ, zero, suc, ◌+◌, ◌≡◌, refl, sym, ap, ◌∙◌, List, [], ◌∷◌, ◌++◌, map, append-nil,
  append_assoc, length, length-append, take, keep, Option, none, some, ltb, ◌==◌, string_eq,
  if◌then◌else◌, arith, Bool-cases, inl, inr,
}
use anomaly_metric_creator.Base.Dict.{lookup, get_or, get_or-insert}
use anomaly_metric_creator.Traces.Trace.{CommandTrace}
use anomaly_metric_creator.Traces.Summary.{Group, example_of, new_group, counted, summary_of_traces}
use anomaly_metric_creator.Traces.Ring.{unsupported_fingerprint_count, unsupported_summary}
use anomaly_metric_creator.Traces.Polls.{System, Reach, unsupported_now, unsupported_summary_fresh}
use anomaly_metric_creator.Traces.Groups.{
  of_fingerprint, grouped, group_for, group_for-summary_of_traces, length-summary_of_traces,
}

-- In every state that threads reach, the count of fingerprints for the state poll is the length of
-- the summary that the ring answers, from the cache or not.
pub unsupported_fingerprint_count-length :
    {limit : ℕ} {s : System}
    → Reach limit s
    → unsupported_fingerprint_count s.ring ≡ length (unsupported_summary s.ring).0
unfolding unsupported_fingerprint_count
unsupported_fingerprint_count-length {s} r =
    sym
      (ap length (unsupported_summary_fresh r) ∙ length-summary_of_traces (unsupported_now s.ring))

abbrev pub of_status : String → List CommandTrace → List CommandTrace
of_status status = keep (λ t. t.support_status == status)

-- A group of the traces `seen`: their number, the first five as examples, and how many have each
-- status.
pub record IsGroupOf (seen : List CommandTrace) (g : Group) : Type 0 where
  pub count : g.count ≡ length seen
  pub examples : g.examples ≡ take 5 (map example_of seen)
  pub statuses : (s : String) → get_or s 0 g.support_statuses ≡ length (of_status s seen)

take-concat {ℓ} :
    {A : Type ℓ} (n : ℕ) (xs : List A) (x : A)
    → take n (xs ++ x ∷ [])
      ≡ (if ltb (length (take n xs)) n then take n xs ++ x ∷ [] else take n xs)
take-concat zero xs x = refl
take-concat (suc zero) [] x = ground arith
take-concat (suc (suc n)) [] x = ground arith
take-concat (suc n) (y ∷ xs) x = elim (Bool-cases (ltb (length (take n xs)) n)) [
  | inl e ↦ ground (arith, take-concat n xs x)
  | inr e ↦ ground (arith, take-concat n xs x)
]

map-concat :
    (ts : List CommandTrace) (t : CommandTrace)
    → map example_of (ts ++ t ∷ []) ≡ map example_of ts ++ example_of t ∷ []
map-concat [] t = refl
map-concat (u ∷ ts) t = ap (λ l. example_of u ∷ l) (map-concat ts t)

length-of_status-concat :
    (s : String) (ts : List CommandTrace) (t : CommandTrace)
    → length (of_status s (ts ++ t ∷ []))
      ≡ (if t.support_status == s then length (of_status s ts) + 1 else length (of_status s ts))
length-of_status-concat s [] t = ground arith
length-of_status-concat s (u ∷ ts) t = ground (arith, length-of_status-concat s ts t)

counted-IsGroupOf :
    (seen : List CommandTrace) (t : CommandTrace) (g : Group)
    → IsGroupOf seen g
    → IsGroupOf (seen ++ t ∷ []) (counted t g)
counted-IsGroupOf seen t g h = record {
  count = omega (arith, h.count, length-append seen (t ∷ []));
  examples =
      rw h.examples (
        sym (ap (take 5) (map-concat seen t) ∙ take-concat 5 (map example_of seen) (example_of t)));
  statuses = λ s.
      get_or-insert s t.support_status 0 _ g.support_statuses
      ∙ (ground (arith, h.statuses s, h.statuses t.support_status))
      ∙ sym (length-of_status-concat s seen t);
}

-- What the traces make of a group, of which `seen` went before.
grouped-IsGroupOf :
    (ts seen : List CommandTrace) (g : Group)
    → IsGroupOf seen g
    → (h : Group) × (grouped ts (some g) ≡ some h) × IsGroupOf (seen ++ ts) h
grouped-IsGroupOf [] seen g h = (g, refl, rw (append-nil seen) h)
grouped-IsGroupOf (t ∷ ts) seen g h =
    let (i, e, k) =
      grouped-IsGroupOf ts (seen ++ t ∷ []) (counted t g) (counted-IsGroupOf seen t g h) in
    (i, e, rw (← append_assoc seen (t ∷ []) ts) k)

-- What the summary says of one fingerprint where the traces of it are as given: none where there are
-- none.
abbrev pub Described : List CommandTrace → Option Group → Type 0
Described [] o = o ≡ none
Described (t ∷ ts) o = (g : Group) × (o ≡ some g) × IsGroupOf (t ∷ ts) g

grouped-Described : (ts : List CommandTrace) → Described ts (grouped ts none)
unfolding get_or lookup
grouped-Described [] = refl
grouped-Described (t ∷ ts) =
    let start : IsGroupOf [] (new_group t) = record {
      count = refl;
      examples = refl;
      statuses = λ s. refl;
    } in
    grouped-IsGroupOf ts (t ∷ []) (counted t (new_group t))
      (counted-IsGroupOf [] t (new_group t) start)

-- For each fingerprint the summary has a group exactly where a trace has it; the group's count is the
-- number of those traces, its examples are the first five of them, and its statuses say how many of
-- them have each status.
pub group_for-Described :
    (f : String) (traces : List CommandTrace)
    → Described (of_fingerprint f traces) (group_for f (summary_of_traces traces))
group_for-Described f traces =
    rw (group_for-summary_of_traces f traces) (grouped-Described (of_fingerprint f traces))
