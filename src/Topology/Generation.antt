-- ===== src/Topology/Generation.antt =====
-- The order in which the components are generated.
use mathlib.Core.Bool.{true≢false}
use anomaly_metric_creator.Base.{
  String, ◌≡◌, sym, ap, subst, ◌∙◌, true, false, not, ◌&&◌, List, [], none, contains, ◌==◌,
  string_eq, arith, Bool-cases, inl, inr,
}
use anomaly_metric_creator.Base.Dict.{get_or-nil}
use anomaly_metric_creator.Exec.{ok}
use anomaly_metric_creator.Topology.{
  Topology, Incoming, nodes, incoming_of, find_cycle, empty_incoming, active_incoming,
  topology_generation_order,
}
use anomaly_metric_creator.Topology.Rounds.{has_dep, Distinct}
use anomaly_metric_creator.Topology.Acyclic.{Acyclic, Acyclic-fewer, Acyclic-cycle_loop}
use anomaly_metric_creator.Topology.Sorting.{Known}
use anomaly_metric_creator.Topology.Order.{before, Closed}
use anomaly_metric_creator.Topology.Kahn.{IsOrder, order_loop-IsOrder}
use anomaly_metric_creator.Topology.Edges.{
  has_edge, has_dep-incoming_of, Distinct-incoming_of, contains-nodes-active_incoming,
  has_dep-active_incoming, Distinct-active_incoming, nodes-empty_incoming, has_dep-empty_incoming,
}

abbrev pub active_edges : Topology → List String → Incoming
active_edges g active = active_incoming active g (empty_incoming active)

contains-nodes-active :
    (g : Topology) (active : List String) (n : String)
    → contains n (nodes (active_edges g active)) ≡ contains n active
contains-nodes-active g active n =
    contains-nodes-active_incoming n active g (empty_incoming active)
    ∙ ap (contains n) (nodes-empty_incoming active)

has_dep-active :
    (g : Topology) (active : List String) (u v : String)
    → has_dep u v (active_edges g active)
      ≡ (contains u active && (has_edge u v g && (contains v active && not (v == u))))
has_dep-active g active u v = ground (
  arith,
  has_dep-active_incoming u v active g (empty_incoming active),
  has_dep-empty_incoming u v active,
  ap (contains v) (nodes-empty_incoming active),
)

Closed-active : (g : Topology) (active : List String) → Closed (active_edges g active)
Closed-active g active u v h =
    ground (arith, h, has_dep-active g active u v, contains-nodes-active g active u)

topology_generation_order-IsOrder :
    (g : Topology) (components active : List String)
    → Distinct active
    → Known components active
    → (order : List String) × (topology_generation_order g components active ≡ ok order)
      × IsOrder (active_edges g active) order
unfolding topology_generation_order
topology_generation_order-IsOrder g components active d k =
    order_loop-IsOrder _ components (active_edges g active)
      (Distinct-active_incoming active g (empty_incoming active)
        (subst Distinct (sym (nodes-empty_incoming active)) d))
      (λ c h. k c (sym (contains-nodes-active g active c) ∙ h)) (Closed-active g active)
      (omega arith)

-- The order of active components, each of which is a component, is given without an error: each of them
-- stands in it once, and nothing else, whatever the edges.
pub topology_generation_order-Distinct :
    (g : Topology) (components active : List String)
    → Distinct active
    → Known components active
    → (order : List String) × (topology_generation_order g components active ≡ ok order)
      × ((c : String) → contains c order ≡ contains c active)
      × Distinct order
topology_generation_order-Distinct g components active d k =
    let (order, e, o) = topology_generation_order-IsOrder g components active d k in
    (order, e, (λ c. o.same c ∙ contains-nodes-active g active c), o.distinct)

Acyclic-incoming_of : (g : Topology) → find_cycle g ≡ none → Acyclic (incoming_of g [])
unfolding find_cycle
Acyclic-incoming_of g h =
    Acyclic-cycle_loop _ (incoming_of g []) (Distinct-incoming_of g [] tt) (omega arith) h

has_dep-edge : (g : Topology) (u v : String) → has_dep u v (incoming_of g []) ≡ has_edge u v g
has_dep-edge g u v = ground (arith, has_dep-incoming_of u v g [], get_or-nil {V = List String} v [])

-- No edge from a node to itself.
edge-ne :
    (g : Topology) (u v : String) → find_cycle g ≡ none → has_edge u v g ≡ true → (v == u) ≡ false
edge-ne g u v h e = elim (Bool-cases (v == u)) [
  | inr i ↦ i
  | inl i ↦
      let same : (u == u) ≡ true = ground arith in
      absurd (
        true≢false (
          sym same
          ∙ Acyclic-incoming_of g h (λ n. n == u)
              (λ n j. (u, ground arith, ground (arith, i, j, e, has_dep-edge g u n))) u))
]

-- Where the check found no cycle in the topology, the order of active components puts the source of an
-- edge between two of them ahead of its target.
pub topology_generation_order-before :
    (g : Topology) (components active order : List String) (u v : String)
    → Distinct active
    → Known components active
    → topology_generation_order g components active ≡ ok order
    → find_cycle g ≡ none
    → has_edge u v g ≡ true
    → contains u active ≡ true
    → contains v active ≡ true
    → before u v order ≡ true
topology_generation_order-before g components active order u v d k e h i a b =
    let (found, f, o) = topology_generation_order-IsOrder g components active d k in
    let acyclic =
      Acyclic-fewer (incoming_of g []) (active_edges g active)
        (λ x y j. ground (arith, j, has_dep-active g active x y, has_dep-edge g x y))
        (Acyclic-incoming_of g h) in
    subst (λ l. before u v l ≡ true) (cc (sym f, e))
      (o.ahead acyclic u v
        (ground (arith, i, a, b, edge-ne g u v h i, has_dep-active g active u v)))
