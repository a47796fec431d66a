-- ===== src/Topology/Acyclic.antt =====
-- A graph whose check finds no cycle blocks no set of nodes that wait for one another.
use mathlib.Core.Option.{some-ne-none}
use mathlib.Core.Bool.{true≢false}
use anomaly_metric_creator.Base.{
  String, ℕ, zero, suc, ◌≤◌, ◌≡◌, refl, sym, ap, subst, ◌∙◌, Bool, true, false, List, [], ◌∷◌,
  length, none, some, contains, string_eq, arith, Bool-cases, inl, inr,
}
use anomaly_metric_creator.Base.Dict.{sorted_texts}
use anomaly_metric_creator.Topology.{Incoming, nodes, ready_of, take_all_out, cycle_loop}
use anomaly_metric_creator.Topology.Rounds.{
  has_dep, Distinct, has_dep-take_all_out, Distinct-take_all_out, length-take_all_out,
  contains-ready_of, has_dep-absent, has_dep-ready_of,
}

-- Each node of the set waits for a node of it.
abbrev pub Blocked : (String → Bool) → Incoming → Type 0
Blocked s r = (n : String) → s n ≡ true → (u : String) × (s u ≡ true) × (has_dep u n r ≡ true)

abbrev pub Acyclic : Incoming → Type 0
Acyclic r = (s : String → Bool) → Blocked s r → (n : String) → s n ≡ false

-- It stays so with fewer edges.
pub Acyclic-fewer :
    (r r' : Incoming)
    → ((u n : String) → has_dep u n r' ≡ true → has_dep u n r ≡ true)
    → Acyclic r
    → Acyclic r'
Acyclic-fewer r r' k a s b = a s (λ n h. let (u, i, j) = b n h in (u, i, k u n j))

-- A node that waits is not ready.
not-ready :
    (s : String → Bool) (r : Incoming)
    → Distinct (nodes r)
    → Blocked s r
    → (n : String) → s n ≡ true
    → contains n (ready_of r) ≡ false
not-ready s r d b n h =
    let (u, i, j) = b n h in
    elim (Bool-cases (contains n (ready_of r))) [
      | inl e ↦ absurd (true≢false (sym j ∙ has_dep-ready_of u n r d e))
      | inr e ↦ e
    ]

Blocked-take_all_out :
    (s : String → Bool) (r : Incoming)
    → Distinct (nodes r)
    → Blocked s r
    → Blocked s (take_all_out (ready_of r) r)
Blocked-take_all_out s r d b n h =
    let (u, i, j) = b n h in
    (
      u,
      i,
      rw (has_dep-take_all_out u n (ready_of r) r, not-ready s r d b n h, not-ready s r d b u i, j)
          refl,
    )

pub Acyclic-cycle_loop :
    (bound : ℕ) (r : Incoming)
    → Distinct (nodes r)
    → length r ≤ bound
    → cycle_loop bound r ≡ none
    → Acyclic r
unfolding cycle_loop
Acyclic-cycle_loop bound [] d l h = λ s b n. elim (Bool-cases (s n)) [
  | inl e ↦ let (u, i, j) = b n e in absurd (true≢false (sym j ∙ has_dep-absent u n [] refl))
  | inr e ↦ e
]
Acyclic-cycle_loop zero (e ∷ r) d l h = ground arith
Acyclic-cycle_loop (suc bound) (e ∷ r) d l h =
    by_ready (Acyclic-cycle_loop bound) (ready_of (e ∷ r)) refl h
  where
    by_ready :
        ((r' : Incoming)
          → Distinct (nodes r')
          → length r' ≤ bound
          → cycle_loop bound r' ≡ none
          → Acyclic r')
        → (ready : List String) → ready_of (e ∷ r) ≡ ready
        → (elim ready [
          | [] ↦ some (sorted_texts (nodes (e ∷ r)))
          | c ∷ cs ↦ cycle_loop bound (take_all_out (c ∷ cs) (e ∷ r))
        ])
          ≡ none
        → Acyclic (e ∷ r)
    by_ready again [] i h = absurd (some-ne-none _ h)
    by_ready again (c ∷ cs) i h =
        let ready = c ∷ cs in
        let found : contains c (nodes (e ∷ r)) ≡ true =
          contains-ready_of c (e ∷ r) (ap (contains c) i ∙ ground arith) in
        let left =
          again (take_all_out ready (e ∷ r)) (Distinct-take_all_out ready (e ∷ r) d)
            (omega (arith, l, length-take_all_out c cs (e ∷ r) found)) h in
        λ s b.
          left s
            (subst (λ x. Blocked s (take_all_out x (e ∷ r))) i (Blocked-take_all_out s (e ∷ r) d b))
