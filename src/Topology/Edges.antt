-- ===== src/Topology/Edges.antt =====
-- The edges of the topology, and the sets of sources that the two functions build from them.
use anomaly_metric_creator.Base.{
  String, ◌≡◌, refl, ap, Bool, false, not, ◌&&◌, ◌||◌, List, [], ◌∷◌, Option, none, some, contains,
  ◌==◌, string_eq, arith, Bool-cases, inl, inr,
}
use anomaly_metric_creator.Base.Dict.{
  lookup, get_or, get_or-insert, insert, set_add, contains-set_add,
}
use anomaly_metric_creator.Topology.{
  Topology, Incoming, nodes, with_node, add_source, add_edges, incoming_of, empty_incoming,
  add_active_edges, active_incoming,
}
use anomaly_metric_creator.Topology.Rounds.{has_dep, Distinct}

abbrev pub has_edge : String → String → Topology → Bool
has_edge u v [] = false
has_edge u v ((source, targets) ∷ g) = (u == source && contains v targets) || has_edge u v g

pub contains-nodes-insert :
    (n k : String) (deps : List String) (r : Incoming)
    → contains n (nodes (insert k deps r)) ≡ (n == k || contains n (nodes r))
unfolding insert
contains-nodes-insert n k deps [] = refl
contains-nodes-insert n k deps ((m, _) ∷ r) = ground (arith, contains-nodes-insert n k deps r)

Distinct-insert :
    (k : String) (deps : List String) (r : Incoming)
    → Distinct (nodes r)
    → Distinct (nodes (insert k deps r))
unfolding insert
Distinct-insert k deps [] d = (refl, tt)
Distinct-insert k deps ((m, old) ∷ r) d = elim (Bool-cases (m == k)) [
  | inl e ↦ rw e d
  | inr e ↦
      rw e (ground (arith, e, d.0, contains-nodes-insert m k deps r), Distinct-insert k deps r d.1)
]

has_dep-add_source :
    (u v source target : String) (r : Incoming)
    → has_dep u v (add_source source target r) ≡ ((u == source && v == target) || has_dep u v r)
has_dep-add_source u v source target r =
    rw (get_or-insert v target [] (set_add source (get_or target [] r)) r)
      (ground (arith, contains-set_add source u (get_or target [] r)))

has_dep-with_node : (u v n : String) (r : Incoming) → has_dep u v (with_node n r) ≡ has_dep u v r
unfolding get_or
has_dep-with_node u v n r = ground (arith, get_or-insert v n [] [] r)

has_dep-add_edges :
    (u v source : String) (targets : List String) (r : Incoming)
    → has_dep u v (add_edges source targets r)
      ≡ ((u == source && contains v targets) || has_dep u v r)
unfolding add_edges
has_dep-add_edges u v source [] r = ground arith
has_dep-add_edges u v source (t ∷ ts) r = ground (
  arith,
  has_dep-add_edges u v source ts (add_source source t r),
  has_dep-add_source u v source t r,
)

pub has_dep-incoming_of :
    (u v : String) (g : Topology) (r : Incoming)
    → has_dep u v (incoming_of g r) ≡ (has_edge u v g || has_dep u v r)
unfolding incoming_of
has_dep-incoming_of u v [] r = refl
has_dep-incoming_of u v ((source, targets) ∷ g) r = ground (
  arith,
  has_dep-incoming_of u v g (add_edges source targets (with_node source r)),
  has_dep-add_edges u v source targets (with_node source r),
  has_dep-with_node u v source r,
)

Distinct-with_node :
    (n : String) (r : Incoming) → Distinct (nodes r) → Distinct (nodes (with_node n r))
Distinct-with_node n r d = by_case (lookup n r)
  where
    by_case :
        (o : Option (List String)) → Distinct (nodes (elim o [ none ↦ insert n [] r | some _ ↦ r ]))
    by_case none = Distinct-insert n [] r d
    by_case (some _) = d

Distinct-add_edges :
    (source : String) (targets : List String) (r : Incoming)
    → Distinct (nodes r)
    → Distinct (nodes (add_edges source targets r))
unfolding add_edges
Distinct-add_edges source [] r d = d
Distinct-add_edges source (t ∷ ts) r d =
    Distinct-add_edges source ts (add_source source t r) (Distinct-insert t _ r d)

pub Distinct-incoming_of :
    (g : Topology) (r : Incoming) → Distinct (nodes r) → Distinct (nodes (incoming_of g r))
unfolding incoming_of
Distinct-incoming_of [] r d = d
Distinct-incoming_of ((source, targets) ∷ g) r d =
    Distinct-incoming_of g (add_edges source targets (with_node source r))
      (Distinct-add_edges source targets (with_node source r) (Distinct-with_node source r d))

contains-nodes-add_active_edges :
    (n source : String) (targets : List String) (r : Incoming)
    → contains n (nodes (add_active_edges source targets r)) ≡ contains n (nodes r)
unfolding add_active_edges
contains-nodes-add_active_edges n source [] r = refl
contains-nodes-add_active_edges n source (t ∷ ts) r = ground (
  arith,
  contains-nodes-add_active_edges n source ts (add_source source t r),
  contains-nodes-add_active_edges n source ts r,
  contains-nodes-insert n t (set_add source (get_or t [] r)) r,
)

has_dep-add_active_edges :
    (u v source : String) (targets : List String) (r : Incoming)
    → has_dep u v (add_active_edges source targets r) ≡ (
        (u == source && (contains v targets && (contains v (nodes r) && not (v == source))))
        || has_dep u v r)
unfolding add_active_edges
has_dep-add_active_edges u v source [] r = ground arith
has_dep-add_active_edges u v source (t ∷ ts) r = ground (
  arith,
  has_dep-add_active_edges u v source ts (add_source source t r),
  has_dep-add_active_edges u v source ts r,
  has_dep-add_source u v source t r,
  contains-nodes-insert v t (set_add source (get_or t [] r)) r,
)

Distinct-add_active_edges :
    (source : String) (targets : List String) (r : Incoming)
    → Distinct (nodes r)
    → Distinct (nodes (add_active_edges source targets r))
unfolding add_active_edges
Distinct-add_active_edges source [] r d = d
Distinct-add_active_edges source (t ∷ ts) r d =
    elim (Bool-cases (contains t (nodes r) && not (t == source))) [
      | inl e ↦
          rw e
            (Distinct-add_active_edges source ts (add_source source t r) (Distinct-insert t _ r d))
      | inr e ↦ rw e (Distinct-add_active_edges source ts r d)
    ]

pub contains-nodes-active_incoming :
    (n : String) (active : List String) (g : Topology) (r : Incoming)
    → contains n (nodes (active_incoming active g r)) ≡ contains n (nodes r)
unfolding active_incoming
contains-nodes-active_incoming n active [] r = refl
contains-nodes-active_incoming n active ((source, targets) ∷ g) r = ground (
  arith,
  contains-nodes-active_incoming n active g (add_active_edges source targets r),
  contains-nodes-active_incoming n active g r,
  contains-nodes-add_active_edges n source targets r,
)

pub has_dep-active_incoming :
    (u v : String) (active : List String) (g : Topology) (r : Incoming)
    → has_dep u v (active_incoming active g r) ≡ (
        (contains u active && (has_edge u v g && (contains v (nodes r) && not (v == u))))
        || has_dep u v r)
unfolding active_incoming
has_dep-active_incoming u v active [] r = ground arith
has_dep-active_incoming u v active ((source, targets) ∷ g) r = ground (
  arith,
  has_dep-active_incoming u v active g (add_active_edges source targets r),
  has_dep-active_incoming u v active g r,
  has_dep-add_active_edges u v source targets r,
  contains-nodes-add_active_edges v source targets r,
)

pub Distinct-active_incoming :
    (active : List String) (g : Topology) (r : Incoming)
    → Distinct (nodes r)
    → Distinct (nodes (active_incoming active g r))
unfolding active_incoming
Distinct-active_incoming active [] r d = d
Distinct-active_incoming active ((source, targets) ∷ g) r d =
    elim (Bool-cases (contains source active)) [
      | inl e ↦
          rw e (Distinct-active_incoming active g _ (Distinct-add_active_edges source targets r d))
      | inr e ↦ rw e (Distinct-active_incoming active g r d)
    ]

pub nodes-empty_incoming : (active : List String) → nodes (empty_incoming active) ≡ active
nodes-empty_incoming [] = refl
nodes-empty_incoming (c ∷ cs) = ap (λ l. c ∷ l) (nodes-empty_incoming cs)

pub has_dep-empty_incoming :
    (u v : String) (active : List String) → has_dep u v (empty_incoming active) ≡ false
unfolding get_or lookup
has_dep-empty_incoming u v [] = refl
has_dep-empty_incoming u v (c ∷ cs) = ground (arith, has_dep-empty_incoming u v cs)
