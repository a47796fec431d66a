-- ===== src/Topology/Order.antt =====
-- Which node stands ahead of which in a list, and which nodes a round chooses.
use mathlib.Core.Bool.{true≢false}
use anomaly_metric_creator.Base.{
  String, ◌≡◌, refl, sym, ap, Bool, true, false, not, ◌&&◌, ◌||◌, List, [], ◌∷◌, ◌++◌, contains,
  ◌==◌, string_eq, if◌then◌else◌, arith, Bool-cases, inl, inr,
}
use anomaly_metric_creator.Topology.{Incoming, nodes, ready_of, chosen}
use anomaly_metric_creator.Topology.Rounds.{
  has_dep, Distinct, get_or-entry, contains-ready_of, Distinct-ready_of,
}
use anomaly_metric_creator.Topology.Acyclic.{Acyclic}

-- The first `u` stands ahead of an `n`, and no `n` ahead of it.
abbrev pub before : String → String → List String → Bool
before u n [] = false
before u n (x ∷ xs) = if x == u then contains n xs else (not (x == n) && before u n xs)

pub contains-append :
    (n : String) (xs ys : List String) → contains n (xs ++ ys) ≡ (contains n xs || contains n ys)
contains-append n [] ys = refl
contains-append n (x ∷ xs) ys = ground (arith, contains-append n xs ys)

pub before-append :
    (u n : String) (xs ys : List String)
    → contains n xs ≡ false
    → before u n (xs ++ ys) ≡ (if contains u xs then contains n ys else before u n ys)
before-append u n [] ys h = refl
before-append u n (x ∷ xs) ys h =
    ground (arith, h, before-append u n xs ys, contains-append n xs ys)

pub Distinct-append :
    (xs ys : List String)
    → Distinct xs
    → Distinct ys
    → ((n : String) → contains n xs ≡ true → contains n ys ≡ false)
    → Distinct (xs ++ ys)
Distinct-append [] ys d e k = e
Distinct-append (x ∷ xs) ys d e k = (
  ground (arith, d.0, contains-append x xs ys, k x (ground arith)),
  Distinct-append xs ys d.1 e (λ n h. k n (ground (arith, h))),
)

-- A node that is not ready waits for some node.
pub waits :
    (n : String) (r : Incoming)
    → contains n (nodes r) ≡ true
    → contains n (ready_of r) ≡ false
    → (u : String) × (has_dep u n r ≡ true)
unfolding ready_of
waits n [] h g = absurd (true≢false (sym h))
waits n ((m, []) ∷ r) h g =
    let (u, e) = waits n r (ground (arith, h, g)) (ground (arith, g)) in
    (u, ground (arith, g, e, get_or-entry n m [] r))
waits n ((m, x ∷ xs) ∷ r) h g = elim (Bool-cases (m == n)) [
  | inl e ↦ (x, ground (arith, e, get_or-entry n m (x ∷ xs) r))
  | inr e ↦
      let (u, f) = waits n r (ground (arith, h, e)) g in
      (u, ground (arith, e, f, get_or-entry n m (x ∷ xs) r))
]

-- A node waits for nodes of the graph only.
abbrev pub Closed : Incoming → Type 0
Closed r = (u n : String) → has_dep u n r ≡ true → contains u (nodes r) ≡ true

pub contains-chosen :
    (n : String) (r : Incoming) → contains n (chosen r) ≡ true → contains n (nodes r) ≡ true
contains-chosen n r h = by_ready (ready_of r) (contains-ready_of n r) h
  where
    by_ready :
        (ready : List String)
        → (contains n ready ≡ true → contains n (nodes r) ≡ true)
        → contains n (elim ready [ [] ↦ nodes r | c ∷ cs ↦ c ∷ cs ]) ≡ true
        → contains n (nodes r) ≡ true
    by_ready [] k h = h
    by_ready (c ∷ cs) k h = k h

pub Distinct-chosen : (r : Incoming) → Distinct (nodes r) → Distinct (chosen r)
Distinct-chosen r d = by_ready (ready_of r) (Distinct-ready_of r d)
  where
    by_ready :
        (ready : List String)
        → Distinct ready
        → Distinct (elim ready [ [] ↦ nodes r | c ∷ cs ↦ c ∷ cs ])
    by_ready [] k = d
    by_ready (c ∷ cs) k = k

-- Something is always chosen.
pub chosen-some :
    (m : String) (deps : List String) (r : Incoming)
    → (c : String) × (contains c (chosen ((m, deps) ∷ r)) ≡ true)
chosen-some m deps r = by_ready (ready_of ((m, deps) ∷ r))
  where
    by_ready :
        (ready : List String)
        → (c : String) × (contains c (elim ready [ [] ↦ nodes ((m, deps) ∷ r) | c ∷ cs ↦ c ∷ cs ])
            ≡ true)
    by_ready [] = (m, ground arith)
    by_ready (c ∷ cs) = (c, ground arith)

-- Without a cycle the chosen nodes are the ready ones.
pub chosen-Acyclic : (r : Incoming) → Acyclic r → Closed r → chosen r ≡ ready_of r
chosen-Acyclic r a k = by_ready (ready_of r) refl
  where
    none_left : (r' : Incoming) → ((n : String) → contains n (nodes r') ≡ false) → nodes r' ≡ []
    none_left [] h = refl
    none_left ((m, _) ∷ r') h = absurd (true≢false (ground (arith, h m)))

    by_ready :
        (ready : List String)
        → ready_of r ≡ ready
        → (elim ready [ [] ↦ nodes r | c ∷ cs ↦ c ∷ cs ]) ≡ ready
    by_ready (c ∷ cs) e = refl
    by_ready [] e = none_left r (
        a (λ n. contains n (nodes r))
          (λ n h. let (u, i) = waits n r h (ap (contains n) e) in (u, k u n i, i)))
