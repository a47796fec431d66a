-- ===== src/Topology/Tests.antt =====
-- Three components in a row, and two that wait for each other.
use anomaly_metric_creator.Base.{
  String, ◌≡◌, refl, Bool, true, List, [], ◌∷◌, none, some, contains, string_eq, nat_eq, arith,
}
use anomaly_metric_creator.Base.Dict.{
  lookup, get_or, insert, set_add, set_discard, sorted_texts, text_lt,
}
use anomaly_metric_creator.Exec.{ok, err, key_error, bind_result}
use anomaly_metric_creator.Topology.{
  Topology, ready_of, take_out, take_all_out, incoming_of, add_edges, cycle_loop, find_cycle,
  active_incoming, add_active_edges, index_of, insert_by_index, sorted_pairs, order_loop,
  topology_generation_order,
}
use anomaly_metric_creator.Topology.Rounds.{Distinct}
use anomaly_metric_creator.Topology.Sorting.{Known}
use anomaly_metric_creator.Topology.Order.{before}
use anomaly_metric_creator.Topology.Cycles.{IsCyclic, find_cycle-IsCyclic}
use anomaly_metric_creator.Topology.Generation.{
  topology_generation_order-Distinct, topology_generation_order-before,
}

abbrev shop : Topology
shop = ("gateway", "auth" ∷ "db" ∷ []) ∷ ("auth", "db" ∷ []) ∷ []

abbrev components : List String
components = "db" ∷ "auth" ∷ "gateway" ∷ "queue" ∷ []

abbrev active : List String
active = "db" ∷ "gateway" ∷ "auth" ∷ []

abbrev ring : Topology
ring = ("a", "b" ∷ []) ∷ ("b", "a" ∷ []) ∷ []

in_order : topology_generation_order shop components active ≡ ok ("gateway" ∷ "auth" ∷ "db" ∷ [])
unfolding topology_generation_order active_incoming add_active_edges order_loop ready_of
    take_all_out take_out sorted_pairs index_of insert_by_index bind_result insert get_or lookup
    set_add set_discard string_eq nat_eq
in_order = refl

-- A name that is no component stops the order.
unknown : topology_generation_order shop components ("cache" ∷ []) ≡ err (key_error "cache")
unfolding topology_generation_order active_incoming add_active_edges order_loop ready_of
    take_all_out take_out sorted_pairs index_of insert_by_index bind_result insert get_or lookup
    set_add set_discard string_eq nat_eq
unknown = refl

no_cycle : find_cycle shop ≡ none
unfolding find_cycle incoming_of add_edges cycle_loop ready_of take_all_out take_out insert get_or
    lookup set_add set_discard string_eq
no_cycle = refl

a_cycle : find_cycle ring ≡ some ("a" ∷ "b" ∷ [])
unfolding find_cycle incoming_of add_edges cycle_loop ready_of take_all_out take_out insert get_or
    lookup set_add set_discard sorted_texts text_lt string_eq
a_cycle = refl

active-Distinct : Distinct active
unfolding string_eq
active-Distinct = (refl, (refl, (refl, tt)))

active-Known : Known components active
active-Known c h = ground (arith, h)

topology_generation_order-Distinct_example :
    (order : List String) × (topology_generation_order shop components active ≡ ok order)
    × ((c : String) → contains c order ≡ contains c active)
    × Distinct order
topology_generation_order-Distinct_example =
    topology_generation_order-Distinct shop components active active-Distinct active-Known

topology_generation_order-before_example :
    before "auth" "db" ("gateway" ∷ "auth" ∷ "db" ∷ []) ≡ true
unfolding string_eq
topology_generation_order-before_example =
    topology_generation_order-before shop components active ("gateway" ∷ "auth" ∷ "db" ∷ []) "auth"
      "db" active-Distinct active-Known in_order no_cycle refl refl refl

find_cycle-IsCyclic_example : (s : String → Bool) × IsCyclic s ring × (n : String) × (s n ≡ true)
find_cycle-IsCyclic_example = find_cycle-IsCyclic ring ("a" ∷ "b" ∷ []) a_cycle
