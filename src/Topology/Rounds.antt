-- ===== src/Topology/Rounds.antt =====
-- What a round leaves of the nodes and of the edges between them.
use anomaly_metric_creator.Base.{
  String, suc, ◌≤◌, ◌≡◌, refl, Bool, true, false, not, ◌&&◌, List, [], ◌∷◌, length, contains, ◌==◌,
  string_eq, if◌then◌else◌, arith, Bool-cases, inl, inr,
}
use anomaly_metric_creator.Base.Dict.{lookup, get_or, get_or-nil, set_discard, contains-set_discard}
use anomaly_metric_creator.Topology.{Incoming, nodes, ready_of, take_out, take_all_out}

-- The edge from `u` to `n` remains.
abbrev pub has_dep : String → String → Incoming → Bool
has_dep u n r = contains u (get_or n [] r)

abbrev pub Distinct : List String → Type 0
Distinct [] = Unit
Distinct (x ∷ xs) = (contains x xs ≡ false) × Distinct xs

pub get_or-entry :
    (n m : String) (deps : List String) (r : Incoming)
    → get_or n [] ((m, deps) ∷ r) ≡ (if m == n then deps else get_or n [] r)
unfolding get_or lookup
get_or-entry n m deps r = ground arith

contains-nodes-take_out :
    (n c : String) (r : Incoming)
    → contains n (nodes (take_out c r)) ≡ (not (n == c) && contains n (nodes r))
unfolding take_out
contains-nodes-take_out n c [] = ground arith
contains-nodes-take_out n c ((m, deps) ∷ r) = ground (arith, contains-nodes-take_out n c r)

has_dep-take_out :
    (u n c : String) (r : Incoming)
    → has_dep u n (take_out c r) ≡ (not (n == c) && (not (u == c) && has_dep u n r))
unfolding take_out
has_dep-take_out u n c [] = rw (get_or-nil {V = List String} n []) (ground arith)
has_dep-take_out u n c ((m, deps) ∷ r) = ground (
  arith,
  has_dep-take_out u n c r,
  get_or-entry n m deps r,
  get_or-entry n m (set_discard c deps) (take_out c r),
  contains-set_discard c u deps,
)

pub contains-nodes-take_all_out :
    (n : String) (cs : List String) (r : Incoming)
    → contains n (nodes (take_all_out cs r)) ≡ (not (contains n cs) && contains n (nodes r))
unfolding take_all_out
contains-nodes-take_all_out n [] r = ground arith
contains-nodes-take_all_out n (c ∷ cs) r =
    ground (arith, contains-nodes-take_all_out n cs (take_out c r), contains-nodes-take_out n c r)

pub has_dep-take_all_out :
    (u n : String) (cs : List String) (r : Incoming)
    → has_dep u n (take_all_out cs r)
      ≡ (not (contains n cs) && (not (contains u cs) && has_dep u n r))
unfolding take_all_out
has_dep-take_all_out u n [] r = ground arith
has_dep-take_all_out u n (c ∷ cs) r =
    ground (arith, has_dep-take_all_out u n cs (take_out c r), has_dep-take_out u n c r)

Distinct-take_out :
    (c : String) (r : Incoming) → Distinct (nodes r) → Distinct (nodes (take_out c r))
unfolding take_out
Distinct-take_out c [] d = tt
Distinct-take_out c ((m, deps) ∷ r) d = elim (Bool-cases (m == c)) [
  | inl e ↦ rw e (Distinct-take_out c r d.1)
  | inr e ↦ rw e (ground (arith, contains-nodes-take_out m c r), Distinct-take_out c r d.1)
]

pub Distinct-take_all_out :
    (cs : List String) (r : Incoming) → Distinct (nodes r) → Distinct (nodes (take_all_out cs r))
unfolding take_all_out
Distinct-take_all_out [] r d = d
Distinct-take_all_out (c ∷ cs) r d =
    Distinct-take_all_out cs (take_out c r) (Distinct-take_out c r d)

length-take_out-le : (c : String) (r : Incoming) → length (take_out c r) ≤ length r
unfolding take_out
length-take_out-le c [] = omega arith
length-take_out-le c ((m, deps) ∷ r) = elim (Bool-cases (m == c)) [
  | inl e ↦ rw e (omega (arith, length-take_out-le c r))
  | inr e ↦ rw e (omega (arith, length-take_out-le c r))
]

length-take_out :
    (c : String) (r : Incoming)
    → contains c (nodes r) ≡ true
    → suc (length (take_out c r)) ≤ length r
unfolding take_out
length-take_out c [] h = ground arith
length-take_out c ((m, deps) ∷ r) h = elim (Bool-cases (m == c)) [
  | inl e ↦ rw e (omega (arith, length-take_out-le c r))
  | inr e ↦ rw e (omega (arith, length-take_out c r (ground (arith, e))))
]

length-take_all_out-le : (cs : List String) (r : Incoming) → length (take_all_out cs r) ≤ length r
unfolding take_all_out
length-take_all_out-le [] r = omega arith
length-take_all_out-le (c ∷ cs) r =
    omega (arith, length-take_all_out-le cs (take_out c r), length-take_out-le c r)

-- A round is never idle.
pub length-take_all_out :
    (c : String) (cs : List String) (r : Incoming)
    → contains c (nodes r) ≡ true
    → suc (length (take_all_out (c ∷ cs) r)) ≤ length r
unfolding take_all_out
length-take_all_out c cs r h =
    omega (arith, length-take_all_out-le cs (take_out c r), length-take_out c r h)

pub contains-ready_of :
    (n : String) (r : Incoming) → contains n (ready_of r) ≡ true → contains n (nodes r) ≡ true
unfolding ready_of
contains-ready_of n ((m, []) ∷ r) h = ground (arith, contains-ready_of n r)
contains-ready_of n ((m, _ ∷ _) ∷ r) h = ground (arith, contains-ready_of n r)
contains-ready_of n [] h = h

pub Distinct-ready_of : (r : Incoming) → Distinct (nodes r) → Distinct (ready_of r)
unfolding ready_of
Distinct-ready_of [] d = tt
Distinct-ready_of ((m, []) ∷ r) d = (ground (arith, contains-ready_of m r), Distinct-ready_of r d.1)
Distinct-ready_of ((m, _ ∷ _) ∷ r) d = Distinct-ready_of r d.1

pub has_dep-absent :
    (u n : String) (r : Incoming) → contains n (nodes r) ≡ false → has_dep u n r ≡ false
has_dep-absent u n [] h = rw (get_or-nil {V = List String} n []) refl
has_dep-absent u n ((m, deps) ∷ r) h = ground (arith, get_or-entry n m deps r, has_dep-absent u n r)

-- A ready node waits for nothing.
pub has_dep-ready_of :
    (u n : String) (r : Incoming)
    → Distinct (nodes r)
    → contains n (ready_of r) ≡ true
    → has_dep u n r ≡ false
unfolding ready_of
has_dep-ready_of u n ((m, []) ∷ r) d h =
    ground (arith, get_or-entry n m [] r, has_dep-ready_of u n r d.1)
has_dep-ready_of u n ((m, x ∷ xs) ∷ r) d h =
    ground (arith, get_or-entry n m (x ∷ xs) r, has_dep-ready_of u n r d.1, contains-ready_of n r)
has_dep-ready_of u n [] d h = ground arith
