-- ===== src/Topology/Kahn.antt =====
-- The loop of the order: every node once, and each after those that it waits for.
use mathlib.Core.Bool.{true≢false}
use anomaly_metric_creator.Base.{
  String, ℕ, zero, suc, ◌≤◌, ◌≡◌, refl, sym, ap, ◌∙◌, true, false, List, [], ◌∷◌, ◌++◌, length,
  contains, string_eq, arith, Bool-cases, inl, inr,
}
use anomaly_metric_creator.Exec.{ok, bind_result}
use anomaly_metric_creator.Topology.{
  Incoming, nodes, ready_of, take_all_out, names_of, chosen, sorted_pairs, order_loop,
}
use anomaly_metric_creator.Topology.Rounds.{
  has_dep, Distinct, contains-nodes-take_all_out, has_dep-take_all_out, Distinct-take_all_out,
  length-take_all_out, has_dep-absent, has_dep-ready_of,
}
use anomaly_metric_creator.Topology.Acyclic.{Acyclic, Acyclic-fewer}
use anomaly_metric_creator.Topology.Sorting.{Known, sorted_pairs-Known}
use anomaly_metric_creator.Topology.Order.{
  before, contains-append, before-append, Distinct-append, Closed, contains-chosen, Distinct-chosen,
  chosen-some, chosen-Acyclic,
}

-- Every node once; and without a cycle each after the nodes that it waits for.
pub record IsOrder (r : Incoming) (order : List String) : Type 0 where
  pub same : (n : String) → contains n order ≡ contains n (nodes r)
  pub distinct : Distinct order
  pub ahead : Acyclic r → (u n : String) → has_dep u n r ≡ true → before u n order ≡ true

-- A round takes out a node of the graph.
length-round :
    (c : String) (cs : List String) (r : Incoming)
    → contains c cs ≡ true
    → ((n : String) → contains n cs ≡ true → contains n (nodes r) ≡ true)
    → suc (length (take_all_out cs r)) ≤ length r
length-round c [] r h k = absurd (true≢false (sym h))
length-round c (x ∷ xs) r h k = length-take_all_out x xs r (k x (ground arith))

pub Closed-take_all_out : (cs : List String) (r : Incoming) → Closed r → Closed (take_all_out cs r)
Closed-take_all_out cs r k u n h =
    ground (arith, h, k u n, has_dep-take_all_out u n cs r, contains-nodes-take_all_out u cs r)

Known-take_all_out :
    (components cs : List String) (r : Incoming)
    → Known components (nodes r)
    → Known components (nodes (take_all_out cs r))
Known-take_all_out components cs r k c h =
    ground (arith, h, k c, contains-nodes-take_all_out c cs r)

-- The chosen nodes, and then an order of the rest.
IsOrder-append :
    (ready later : List String) (r : Incoming)
    → Distinct (nodes r)
    → Closed r
    → ((n : String) → contains n ready ≡ contains n (chosen r))
    → Distinct ready
    → IsOrder (take_all_out ready r) later
    → IsOrder r (ready ++ later)
IsOrder-append ready later r d k same distinct o = record {
  same = λ n. ground (
    arith,
    contains-append n ready later,
    o.same n,
    contains-nodes-take_all_out n ready r,
    same n,
    contains-chosen n r,
  );
  distinct =
      Distinct-append ready later distinct o.distinct
        (λ n h. ground (arith, h, o.same n, contains-nodes-take_all_out n ready r));
  ahead = λ a u n h.
      let waiting : contains n ready ≡ false =
        same n ∙ ap (contains n) (chosen-Acyclic r a k) ∙ not_ready u n h in
      let rest =
        o.ahead
          (Acyclic-fewer r (take_all_out ready r)
            (λ u n h. ground (arith, h, has_dep-take_all_out u n ready r)) a)
          u n in
      ground (
        arith,
        h,
        waiting,
        rest,
        before-append u n ready later waiting,
        o.same n,
        contains-nodes-take_all_out n ready r,
        has_dep-take_all_out u n ready r,
        has_dep-absent u n r,
      );
}
  where
    not_ready : (u n : String) → has_dep u n r ≡ true → contains n (ready_of r) ≡ false
    not_ready u n h = elim (Bool-cases (contains n (ready_of r))) [
      | inl i ↦ absurd (true≢false (sym h ∙ has_dep-ready_of u n r d i))
      | inr i ↦ i
    ]

order_loop-step :
    (bound : ℕ) (components : List String) (m : String) (deps : List String) (r : Incoming)
    {l : List (ℕ × String)} {later : List String}
    → sorted_pairs components (chosen ((m, deps) ∷ r)) ≡ ok l
    → order_loop bound components (take_all_out (names_of l) ((m, deps) ∷ r)) ≡ ok later
    → order_loop (suc bound) components ((m, deps) ∷ r) ≡ ok (names_of l ++ later)
unfolding order_loop bind_result
order_loop-step bound components m deps r e f = rw (e, f) refl

pub order_loop-IsOrder :
    (bound : ℕ) (components : List String) (r : Incoming)
    → Distinct (nodes r)
    → Known components (nodes r)
    → Closed r
    → length r ≤ bound
    → (order : List String) × (order_loop bound components r ≡ ok order) × IsOrder r order
unfolding order_loop
order_loop-IsOrder zero components [] d known k l = (
  [],
  refl,
  record {
    same = λ n. refl;
    distinct = tt;
    ahead = λ a u n h. absurd (true≢false (sym h ∙ has_dep-absent u n [] refl));
  },
)
order_loop-IsOrder (suc bound) components [] d known k l = (
  [],
  refl,
  record {
    same = λ n. refl;
    distinct = tt;
    ahead = λ a u n h. absurd (true≢false (sym h ∙ has_dep-absent u n [] refl));
  },
)
order_loop-IsOrder zero components (e ∷ r) d known k l = ground arith
order_loop-IsOrder (suc bound) components ((m, deps) ∷ r) d known k b =
    let all = (m, deps) ∷ r in
    let (l, e, same, distinct) =
      sorted_pairs-Known components (chosen all) (λ n h. known n (contains-chosen n all h))
        (Distinct-chosen all d) in
    let (c, i) = chosen-some m deps r in
    let shorter =
      length-round c (names_of l) all (same c ∙ i)
        (λ n h. contains-chosen n all (sym (same n) ∙ h)) in
    let (later, f, o) =
      order_loop-IsOrder bound components (take_all_out (names_of l) all)
        (Distinct-take_all_out (names_of l) all d)
        (Known-take_all_out components (names_of l) all known)
        (Closed-take_all_out (names_of l) all k) (omega (arith, shorter, b)) in
    (
      names_of l ++ later,
      order_loop-step bound components m deps r e f,
      IsOrder-append (names_of l) later all d k same distinct o,
    )
