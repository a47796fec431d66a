-- ===== src/Topology.antt =====
-- The graph of topology_impl.py: the check that it has no cycle, and the order in which the components
-- are generated. An edge is its target; the checks of its weight, its signal and its saturation are
-- left out. `bound` is the number of nodes, and each round of a loop takes one out.
pub mod Rounds
pub mod Acyclic
pub mod Sorting
pub mod Order
pub mod Kahn
pub mod Edges
pub mod Cycles
pub mod Generation
pub mod Tests
use anomaly_metric_creator.Base.{
  String, ℕ, zero, suc, ◌+◌, Bool, true, false, not, ◌&&◌, List, [], ◌∷◌, ◌++◌, map, length, Option,
  none, some, contains, ltb, ◌==◌, string_eq, if◌then◌else◌,
}
use anomaly_metric_creator.Base.Dict.{
  Dict, lookup, get_or, insert, set_add, set_discard, sorted_texts,
}
use anomaly_metric_creator.Exec.{Result, ok, err, key_error, bind_result}

-- TOPOLOGY: the targets of the edges of each source.
abbrev pub Topology : Type 0
Topology = Dict (List String)

-- The sources of the edges into each node, as sets.
abbrev pub Incoming : Type 0
Incoming = Dict (List String)

abbrev pub nodes : Incoming → List String
nodes [] = []
nodes ((n, _) ∷ r) = n ∷ nodes r

-- `[n for n, deps in remaining.items() if not deps]`.
unfoldable pub ready_of : Incoming → List String
ready_of [] = []
ready_of ((n, deps) ∷ r) = let rest = ready_of r in elim deps [ [] ↦ n ∷ rest | _ ∷ _ ↦ rest ]

-- `del remaining[n]`, and `deps.discard(n)` for each of the others.
unfoldable pub take_out : String → Incoming → Incoming
unfolding set_discard
take_out c [] = []
take_out c ((n, deps) ∷ r) =
    let rest = take_out c r in if n == c then rest else (n, set_discard c deps) ∷ rest

unfoldable pub take_all_out : List String → Incoming → Incoming
unfolding take_out
take_all_out [] r = r
take_all_out (c ∷ cs) r = take_all_out cs (take_out c r)

-- `incoming.setdefault(key, set())`.
abbrev pub with_node : String → Incoming → Incoming
with_node n r = elim (lookup n r) [ none ↦ insert n [] r | some _ ↦ r ]

abbrev pub add_source : String → String → Incoming → Incoming
add_source source target r = insert target (set_add source (get_or target [] r)) r

unfoldable pub add_edges : String → List String → Incoming → Incoming
unfolding set_add
add_edges source [] r = r
add_edges source (target ∷ targets) r = add_edges source targets (add_source source target r)

unfoldable pub incoming_of : Topology → Incoming → Incoming
unfolding add_edges
incoming_of [] r = r
incoming_of ((source, targets) ∷ g) r =
    incoming_of g (add_edges source targets (with_node source r))

-- The nodes that a cycle leaves, of which the ValueError tells.
unfoldable pub cycle_loop : ℕ → Incoming → Option (List String)
unfolding ready_of take_all_out
cycle_loop zero r = none
cycle_loop (suc bound) [] = none
cycle_loop (suc bound) (e ∷ r) = elim (ready_of (e ∷ r)) [
  | [] ↦ some (sorted_texts (nodes (e ∷ r)))
  | c ∷ cs ↦ cycle_loop bound (take_all_out (c ∷ cs) (e ∷ r))
]

unfoldable pub find_cycle : Topology → Option (List String)
unfolding incoming_of cycle_loop
find_cycle g = let r = incoming_of g [] in cycle_loop (length r) r

abbrev pub empty_incoming : List String → Incoming
empty_incoming = map (λ c. (c, []))

-- The edges between two active components; those to itself are left out.
unfoldable pub add_active_edges : String → List String → Incoming → Incoming
unfolding set_add
add_active_edges source [] r = r
add_active_edges source (target ∷ targets) r =
    let added = add_active_edges source targets (add_source source target r) in
    let skipped = add_active_edges source targets r in
    if contains target (nodes r) && not (target == source) then added else skipped

unfoldable pub active_incoming : List String → Topology → Incoming → Incoming
unfolding add_active_edges
active_incoming active [] r = r
active_incoming active ((source, targets) ∷ g) r =
    let added = active_incoming active g (add_active_edges source targets r) in
    let skipped = active_incoming active g r in if contains source active then added else skipped

-- `component_index`.
unfoldable pub index_of : String → List String → Option ℕ
index_of c [] = none
index_of c (x ∷ xs) =
    let later : Option ℕ = elim (index_of c xs) [ none ↦ none | some i ↦ some (suc i) ] in
    if x == c then some 0 else later

unfoldable pub insert_by_index : ℕ × String → List (ℕ × String) → List (ℕ × String)
insert_by_index x [] = x ∷ []
insert_by_index x (y ∷ ys) =
    let later = y ∷ insert_by_index x ys in if ltb y.0 x.0 then later else x ∷ y ∷ ys

-- `sorted(names, key=lambda c: component_index[c])`: a KeyError for a name that is no component.
unfoldable pub sorted_pairs : List String → List String → Result (List (ℕ × String))
unfolding index_of insert_by_index
sorted_pairs components [] = ok []
sorted_pairs components (c ∷ cs) = elim (index_of c components) [
  | none ↦ err (key_error c)
  | some i ↦ bind_result (sorted_pairs components cs) (λ l. ok (insert_by_index (i, c) l))
]

abbrev pub names_of : List (ℕ × String) → List String
names_of [] = []
names_of ((_, c) ∷ l) = c ∷ names_of l

-- The ready nodes, or all that remain where a cycle leaves none.
abbrev pub chosen : Incoming → List String
chosen r = elim (ready_of r) [ [] ↦ nodes r | c ∷ cs ↦ c ∷ cs ]

unfoldable pub order_loop : ℕ → List String → Incoming → Result (List String)
unfolding ready_of take_all_out sorted_pairs
order_loop zero components r = ok []
order_loop (suc bound) components [] = ok []
order_loop (suc bound) components (e ∷ r) =
    bind_result (sorted_pairs components (chosen (e ∷ r))) (λ ready.
      bind_result (order_loop bound components (take_all_out (names_of ready) (e ∷ r)))
        (λ later. ok (names_of ready ++ later)))

-- `_topology_generation_order` of the active components, which are a set.
unfoldable pub topology_generation_order :
    Topology → List String → List String → Result (List String)
unfolding active_incoming order_loop
topology_generation_order g components active =
    let r = active_incoming active g (empty_incoming active) in order_loop (length r) components r
