-- ===== src/Traces/Groups.antt =====
-- What the groups of `_unsupported_summary_from_traces` say of the traces.
use anomaly_metric_creator.Base.{
  String, suc, ◌≡◌, refl, sym, ap, ◌∙◌, false, List, [], ◌∷◌, map, length, keep, Option, none, some,
  ◌==◌, string_eq, if◌then◌else◌, arith, Bool-cases, inl, inr,
}
use anomaly_metric_creator.Base.Dict.{Dict, lookup, insert, get_or, set_add, lookup-insert}
use anomaly_metric_creator.Traces.Trace.{CommandTrace}
use anomaly_metric_creator.Traces.Summary.{
  Group, new_group, counted, group_traces, insert_group, sorted_groups, sorts_before, group_values,
  summary_of_traces,
}
use anomaly_metric_creator.Traces.Ring.{fingerprints}

-- The traces of one fingerprint, in their order.
abbrev pub of_fingerprint : String → List CommandTrace → List CommandTrace
of_fingerprint f = keep (λ t. t.fingerprint == f)

abbrev pub or_new : CommandTrace → Option Group → Group
or_new t none = new_group t
or_new t (some g) = g

-- A group, and what the traces add to it one after the other.
abbrev pub grouped : List CommandTrace → Option Group → Option Group
grouped [] o = o
grouped (t ∷ ts) o = grouped ts (some (counted t (or_new t o)))

get_or-or_new :
    (t : CommandTrace) (d : Dict Group)
    → get_or t.fingerprint (new_group t) d ≡ or_new t (lookup t.fingerprint d)
unfolding get_or
get_or-or_new t d = ground arith

lookup-group_traces :
    (f : String) (ts : List CommandTrace) (d : Dict Group)
    → lookup f (group_traces ts d) ≡ grouped (of_fingerprint f ts) (lookup f d)
unfolding group_traces
lookup-group_traces f [] d = refl
lookup-group_traces f (t ∷ ts) d =
    let g = counted t (get_or t.fingerprint (new_group t) d) in
    let h = lookup-group_traces f ts (insert t.fingerprint g d) in
    let k = lookup-insert f t.fingerprint g d in
    elim (Bool-cases (t.fingerprint == f)) [
      | inl e ↦
          let same : t.fingerprint ≡ f = ground arith in
          let found = get_or-or_new t d ∙ ap (λ i. or_new t (lookup i d)) same in
          rw e (
            h
            ∙ ap (grouped (of_fingerprint f ts)) ((rw e at k) ∙ ap (λ o. some (counted t o)) found))
      | inr e ↦ rw e (h ∙ ap (grouped (of_fingerprint f ts)) (rw e at k))
    ]

-- The groups stand under their own fingerprints, each once.
abbrev IsKeyed : Dict Group → Type 0
IsKeyed [] = Unit
IsKeyed ((k, g) ∷ d) = (lookup k d ≡ none) × (g.fingerprint ≡ k) × IsKeyed d

insert-IsKeyed :
    (k : String) (g : Group) (d : Dict Group)
    → g.fingerprint ≡ k
    → IsKeyed d
    → IsKeyed (insert k g d)
unfolding insert lookup
insert-IsKeyed k g [] e h = (refl, e, tt)
insert-IsKeyed k g ((j, i) ∷ d) e h = elim (Bool-cases (j == k)) [
  | inl same ↦ rw same (h.0, ground arith, h.2)
  | inr differ ↦
      rw differ (lookup-insert j k g d ∙ ground (arith, h.0), h.1, insert-IsKeyed k g d e h.2)
]

fingerprint-or_new :
    (t : CommandTrace) (d : Dict Group)
    → IsKeyed d
    → (get_or t.fingerprint (new_group t) d).fingerprint ≡ t.fingerprint
unfolding get_or lookup
fingerprint-or_new t [] h = refl
fingerprint-or_new t ((k, g) ∷ d) h = ground (arith, fingerprint-or_new t d h.2)

group_traces-IsKeyed :
    (ts : List CommandTrace) (d : Dict Group) → IsKeyed d → IsKeyed (group_traces ts d)
unfolding group_traces
group_traces-IsKeyed [] d h = h
group_traces-IsKeyed (t ∷ ts) d h =
    group_traces-IsKeyed ts _ (insert-IsKeyed t.fingerprint _ d (fingerprint-or_new t d h) h)

-- The first group of a summary with the fingerprint.
abbrev pub group_for : String → List Group → Option Group
group_for f [] = none
group_for f (g ∷ gs) = if g.fingerprint == f then some g else group_for f gs

group_for-insert_group :
    (f : String) (g : Group) (gs : List Group)
    → group_for g.fingerprint gs ≡ none
    → group_for f (insert_group g gs) ≡ (if g.fingerprint == f then some g else group_for f gs)
unfolding insert_group
group_for-insert_group f g [] h = refl
group_for-insert_group f g (i ∷ gs) h = elim (Bool-cases (sorts_before i g)) [
  | inl e ↦ rw e (ground (arith, group_for-insert_group f g gs))
  | inr e ↦ rw e refl
]

group_for-sorted_groups :
    (f : String) (d : Dict Group)
    → IsKeyed d
    → group_for f (sorted_groups (group_values d)) ≡ lookup f d
unfolding sorted_groups lookup
group_for-sorted_groups f [] h = refl
group_for-sorted_groups f ((k, g) ∷ d) h =
    let gs = sorted_groups (group_values d) in
    let absent = group_for-sorted_groups g.fingerprint d h.2 ∙ ap (λ i. lookup i d) h.1 ∙ h.0 in
    group_for-insert_group f g gs absent ∙ ground (arith, h.1, group_for-sorted_groups f d h.2)

-- The summary has for each fingerprint the group of its traces, counted one after the other, and none
-- for a fingerprint that no trace has.
pub group_for-summary_of_traces :
    (f : String) (traces : List CommandTrace)
    → group_for f (summary_of_traces traces) ≡ grouped (of_fingerprint f traces) none
unfolding summary_of_traces lookup
group_for-summary_of_traces f traces =
    group_for-sorted_groups f (group_traces traces []) (group_traces-IsKeyed traces [] tt)
    ∙ lookup-group_traces f traces []

length-insert_group : (g : Group) (gs : List Group) → length (insert_group g gs) ≡ suc (length gs)
unfolding insert_group
length-insert_group g [] = refl
length-insert_group g (h ∷ gs) = elim (Bool-cases (sorts_before h g)) [
  | inl e ↦ rw e (ap suc (length-insert_group g gs))
  | inr e ↦ rw e refl
]

length-sorted_groups : (gs : List Group) → length (sorted_groups gs) ≡ length gs
unfolding sorted_groups
length-sorted_groups [] = refl
length-sorted_groups (g ∷ gs) =
    length-insert_group g (sorted_groups gs) ∙ ap suc (length-sorted_groups gs)

abbrev keys : Dict Group → List String
keys = map (λ e. e.0)

set_add-cons :
    (k j : String) (ks : List String) → (j == k) ≡ false → set_add k (j ∷ ks) ≡ j ∷ set_add k ks
unfolding set_add
set_add-cons k j ks h = ground arith

keys-insert : (k : String) (g : Group) (d : Dict Group) → keys (insert k g d) ≡ set_add k (keys d)
unfolding insert set_add
keys-insert k g [] = refl
keys-insert k g ((j, i) ∷ d) = elim (Bool-cases (j == k)) [
  | inl e ↦ ground arith
  | inr e ↦ rw e (ap (λ ks. j ∷ ks) (keys-insert k g d) ∙ sym (set_add-cons k j (keys d) e))
]

keys-group_traces :
    (ts : List CommandTrace) (d : Dict Group) → keys (group_traces ts d) ≡ fingerprints ts (keys d)
unfolding group_traces fingerprints
keys-group_traces [] d = refl
keys-group_traces (t ∷ ts) d =
    keys-group_traces ts _ ∙ ap (fingerprints ts) (keys-insert t.fingerprint _ d)

length-keys : (d : Dict Group) → length (group_values d) ≡ length (keys d)
length-keys [] = refl
length-keys (e ∷ d) = ap suc (length-keys d)

pub length-summary_of_traces :
    (ts : List CommandTrace) → length (summary_of_traces ts) ≡ length (fingerprints ts [])
unfolding summary_of_traces
length-summary_of_traces ts =
    length-sorted_groups (group_values (group_traces ts []))
    ∙ length-keys (group_traces ts [])
    ∙ ap length (keys-group_traces ts [])
