-- ===== src/Topology/Cycles.antt =====
-- What the check refuses does have a cycle.
use mathlib.Core.Option.{none-ne-some}
use anomaly_metric_creator.Base.{
  String, ℕ, zero, suc, ◌≡◌, refl, ap, Bool, true, ◌||◌, List, [], ◌∷◌, Option, none, some,
  contains, ◌==◌, string_eq, arith,
}
use anomaly_metric_creator.Base.Dict.{lookup, get_or, get_or-nil, insert, set_add, sorted_texts}
use anomaly_metric_creator.Topology.{
  Topology, Incoming, nodes, ready_of, take_all_out, with_node, add_source, add_edges, incoming_of,
  cycle_loop, find_cycle,
}
use anomaly_metric_creator.Topology.Rounds.{has_dep-take_all_out}
use anomaly_metric_creator.Topology.Acyclic.{Blocked}
use anomaly_metric_creator.Topology.Order.{Closed, waits}
use anomaly_metric_creator.Topology.Kahn.{Closed-take_all_out}
use anomaly_metric_creator.Topology.Edges.{has_edge, contains-nodes-insert, has_dep-incoming_of}

contains-nodes-lookup :
    (n : String) (r : Incoming) (deps : List String)
    → lookup n r ≡ some deps
    → contains n (nodes r) ≡ true
unfolding lookup
contains-nodes-lookup n [] deps h = absurd (none-ne-some _ h)
contains-nodes-lookup n ((m, _) ∷ r) deps h = ground (arith, h, contains-nodes-lookup n r deps)

contains-nodes-with_node :
    (n source : String) (r : Incoming)
    → contains n (nodes (with_node source r)) ≡ (n == source || contains n (nodes r))
contains-nodes-with_node n source r = by_case (lookup source r) refl
  where
    by_case :
        (o : Option (List String))
        → lookup source r ≡ o
        → contains n (nodes (elim o [ none ↦ insert source [] r | some _ ↦ r ]))
          ≡ (n == source || contains n (nodes r))
    by_case none e = contains-nodes-insert n source [] r
    by_case (some deps) e = ground (arith, contains-nodes-lookup source r deps e)

contains-nodes-add_edges :
    (n source : String) (targets : List String) (r : Incoming)
    → contains n (nodes r) ≡ true
    → contains n (nodes (add_edges source targets r)) ≡ true
unfolding add_edges
contains-nodes-add_edges n source [] r h = h
contains-nodes-add_edges n source (t ∷ ts) r h =
    contains-nodes-add_edges n source ts (add_source source t r)
      (ground (arith, h, contains-nodes-insert n t (set_add source (get_or t [] r)) r))

contains-nodes-incoming_of :
    (n v : String) (g : Topology) (r : Incoming)
    → (has_edge n v g || contains n (nodes r)) ≡ true
    → contains n (nodes (incoming_of g r)) ≡ true
unfolding incoming_of
contains-nodes-incoming_of n v [] r h = h
contains-nodes-incoming_of n v ((source, targets) ∷ g) r h =
    contains-nodes-incoming_of n v g (add_edges source targets (with_node source r)) (
      ground (
        arith,
        h,
        contains-nodes-add_edges n source targets (with_node source r),
        contains-nodes-with_node n source r,
      ))

Closed-incoming_of : (g : Topology) → Closed (incoming_of g [])
Closed-incoming_of g u v h =
    contains-nodes-incoming_of u v g []
      (ground (arith, h, has_dep-incoming_of u v g [], get_or-nil {V = List String} v []))

Blocked-more :
    (s : String → Bool) (cs : List String) (r : Incoming)
    → Blocked s (take_all_out cs r)
    → Blocked s r
Blocked-more s cs r b n h =
    let (u, i, j) = b n h in (u, i, ground (arith, j, has_dep-take_all_out u n cs r))

-- A set of nodes that wait for one another, and one of them.
abbrev pub IsBlocking : Incoming → Type 0
IsBlocking r = (s : String → Bool) × Blocked s r × (n : String) × (s n ≡ true)

IsBlocking-cycle_loop :
    (bound : ℕ) (r : Incoming) (left : List String)
    → Closed r
    → cycle_loop bound r ≡ some left
    → IsBlocking r
unfolding cycle_loop
IsBlocking-cycle_loop zero r left k h = absurd (none-ne-some _ h)
IsBlocking-cycle_loop (suc bound) [] left k h = absurd (none-ne-some _ h)
IsBlocking-cycle_loop (suc bound) ((m, deps) ∷ r) left k h =
    by_ready (IsBlocking-cycle_loop bound) (ready_of ((m, deps) ∷ r)) refl h
  where
    by_ready :
        ((r' : Incoming) (l : List String)
          → Closed r'
          → cycle_loop bound r' ≡ some l
          → IsBlocking r')
        → (ready : List String) → ready_of ((m, deps) ∷ r) ≡ ready
        → (elim ready [
          | [] ↦ some (sorted_texts (nodes ((m, deps) ∷ r)))
          | c ∷ cs ↦ cycle_loop bound (take_all_out (c ∷ cs) ((m, deps) ∷ r))
        ])
          ≡ some left
        → IsBlocking ((m, deps) ∷ r)
    by_ready again [] e h = (
      (λ n. contains n (nodes ((m, deps) ∷ r))),
      (λ n i. let (u, j) = waits n ((m, deps) ∷ r) i (ap (contains n) e) in (u, k u n j, j)),
      m,
      ground arith,
    )
    by_ready again (c ∷ cs) e h =
        let all = (m, deps) ∷ r in
        let (s, b, n, i) =
          again (take_all_out (c ∷ cs) all) left (Closed-take_all_out (c ∷ cs) all k) h in
        (s, Blocked-more s (c ∷ cs) all b, n, i)

-- Each node of the set has an edge from a node of it.
abbrev pub IsCyclic : (String → Bool) → Topology → Type 0
IsCyclic s g = (v : String) → s v ≡ true → (u : String) × (s u ≡ true) × (has_edge u v g ≡ true)

-- Where the check finds a cycle, there is one: a set of nodes, not empty, each of which has an edge from
-- a node of the set.
pub find_cycle-IsCyclic :
    (g : Topology) (left : List String)
    → find_cycle g ≡ some left
    → (s : String → Bool) × IsCyclic s g × (n : String) × (s n ≡ true)
unfolding find_cycle
find_cycle-IsCyclic g left h =
    let (s, b, n, i) = IsBlocking-cycle_loop _ (incoming_of g []) left (Closed-incoming_of g) h in
    (
      s,
      (λ v j.
          let (u, p, q) = b v j in
          (
            u,
            p,
            ground (arith, q, has_dep-incoming_of u v g [], get_or-nil {V = List String} v []),
          )),
      n,
      i,
    )
