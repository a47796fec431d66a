-- ===== src/MutationsLoader/Loops.antt =====
-- The loader's loops over dicts and sets that `_persist_locked` wrote.
use mathlib.Core.Option
use anomaly_metric_creator.Base.{
  String, ◌≡◌, refl, ap, ◌∙◌, true, ◌||◌, List, [], ◌∷◌, Option, none, some, contains, string_eq,
  arith, All, Bool-cases, inl, inr,
}
use anomaly_metric_creator.Base.Dict.{
  Dict, lookup, lookup-insert, lookup-cons, insert, insert_sorted, insert_text, set_add,
  sorted_items, sorted_texts, text_lt, lookup-sorted_items, lookup-insert_sorted, contains-set_add,
}
use anomaly_metric_creator.Exec.{Result, ok, bind_result}
use anomaly_metric_creator.Json.{Json}
use anomaly_metric_creator.Mutations.{WorkloadMutation, map_values, component_from_pod_name}
use anomaly_metric_creator.MutationsLoader.Hydrate.{
  hydrate_workload, hydrate_workloads, hydrate_items, hydrate_pods, set_of,
}

-- Each item stored in turn.
pub insert_all : {V : Type 0} → Dict V → Dict V → Dict V
insert_all [] acc = acc
insert_all ((k, v) ∷ d) acc = insert_all d (insert k v acc)

hydrate_items-map_values :
    {V W : Type 0} (f : String → Json → Result W) (g : V → Json) (h : V → W)
    → ((k : String) (v : V) → f k (g v) ≡ ok (h v))
    → (d : Dict V) (acc : Dict W)
    → hydrate_items f (map_values g d) acc ≡ ok (insert_all (map_values h d) acc)
unfolding hydrate_items map_values insert_all bind_result
hydrate_items-map_values f g h e [] acc = refl
hydrate_items-map_values f g h e ((k, v) ∷ d) acc =
    rw (e k v) (hydrate_items-map_values f g h e d (insert k (h v) acc))

-- No key twice.
abbrev pub IsDict {ℓ} : {V : Type ℓ} → Dict V → Type ℓ
IsDict [] = Unit
IsDict ((k, v) ∷ d) = (lookup k d ≡ none) × IsDict d

over : {V : Type 0} → Option V → Option V → Option V
over none o = o
over (some v) o = some v

lookup-insert_all :
    {V : Type 0} (j : String) (d acc : Dict V)
    → IsDict d
    → lookup j (insert_all d acc) ≡ over (lookup j d) (lookup j acc)
unfolding insert_all over lookup
lookup-insert_all j [] acc h = refl
lookup-insert_all j ((k, v) ∷ d) acc (fresh, h) =
    ground (arith, fresh, lookup-insert_all j d (insert k v acc) h, lookup-insert j k v acc)

lookup-map_values :
    {V W : Type 0} (j : String) (f : V → W) (d : Dict V)
    → lookup j (map_values f d) ≡ Option.map f (lookup j d)
unfolding map_values lookup
lookup-map_values j f [] = refl
lookup-map_values j f ((k, v) ∷ d) = ground (arith, lookup-map_values j f d)

insert_sorted-map_values :
    {V W : Type 0} (f : V → W) (k : String) (v : V) (d : Dict V)
    → insert_sorted (k, f v) (map_values f d) ≡ map_values f (insert_sorted (k, v) d)
unfolding map_values insert_sorted
insert_sorted-map_values f k v [] = refl
insert_sorted-map_values f k v ((j, w) ∷ d) = ground (arith, insert_sorted-map_values f k v d)

pub sorted_items-map_values :
    {V W : Type 0} (f : V → W) (d : Dict V)
    → sorted_items (map_values f d) ≡ map_values f (sorted_items d)
unfolding map_values sorted_items
sorted_items-map_values f [] = refl
sorted_items-map_values f ((k, v) ∷ d) =
    rw (sorted_items-map_values f d) (insert_sorted-map_values f k v (sorted_items d))

IsDict-insert_sorted :
    {V : Type 0} (k : String) (v : V) (d : Dict V)
    → lookup k d ≡ none
    → IsDict d
    → IsDict (insert_sorted (k, v) d)
unfolding insert_sorted
IsDict-insert_sorted k v [] fresh h = (fresh, tt)
IsDict-insert_sorted k v ((j, w) ∷ d) fresh (fresh', h) = ground (
  arith,
  fresh,
  fresh',
  h,
  lookup-cons k j w d,
  lookup-insert_sorted j k v d,
  IsDict-insert_sorted k v d,
)

pub IsDict-sorted_items : {V : Type 0} (d : Dict V) → IsDict d → IsDict (sorted_items d)
unfolding sorted_items
IsDict-sorted_items [] h = tt
IsDict-sorted_items ((k, v) ∷ d) (fresh, h) =
    IsDict-insert_sorted k v (sorted_items d) (lookup-sorted_items k d ∙ fresh)
      (IsDict-sorted_items d h)

pub IsDict-map_values : {V W : Type 0} (f : V → W) (d : Dict V) → IsDict d → IsDict (map_values f d)
unfolding map_values
IsDict-map_values f [] h = tt
IsDict-map_values f ((k, v) ∷ d) (fresh, h) =
    (lookup-map_values k f d ∙ ap (Option.map f) fresh, IsDict-map_values f d h)

over-none : {V : Type 0} (o : Option V) → over o none ≡ o
unfolding over
over-none none = refl
over-none (some v) = refl

lookup-insert_all_nil :
    {V W : Type 0} (j : String) (h : V → W) (d : Dict V)
    → IsDict d
    → lookup j (insert_all (map_values h d) []) ≡ Option.map h (lookup j d)
unfolding lookup
lookup-insert_all_nil j h d u =
    lookup-insert_all j (map_values h d) [] (IsDict-map_values h d u)
    ∙ over-none (lookup j (map_values h d))
    ∙ lookup-map_values j h d

-- What a loop rebuilds of a dict that was sorted, written, and sorted again.
abbrev pub rebuilt : {V W : Type 0} → (V → W) → Dict V → Dict W
rebuilt h d = insert_all (map_values h (sorted_items (sorted_items d))) []

pub lookup-rebuilt :
    {V W : Type 0} (h : V → W) (d : Dict V) (j : String)
    → IsDict d
    → lookup j (rebuilt h d) ≡ Option.map h (lookup j d)
lookup-rebuilt h d j u =
    lookup-insert_all_nil j h (sorted_items (sorted_items d))
      (IsDict-sorted_items (sorted_items d) (IsDict-sorted_items d u))
    ∙ ap (Option.map h) (lookup-sorted_items j (sorted_items d) ∙ lookup-sorted_items j d)

pub hydrate_items-rebuilt :
    {V W : Type 0} (f : String → Json → Result W) (g : V → Json) (h : V → W)
    → ((k : String) (v : V) → f k (g v) ≡ ok (h v))
    → (d : Dict V)
    → hydrate_items f (sorted_items (map_values g (sorted_items d))) [] ≡ ok (rebuilt h d)
hydrate_items-rebuilt f g h same d =
    rw (sorted_items-map_values g (sorted_items d))
      (hydrate_items-map_values f g h same (sorted_items (sorted_items d)) [])

abbrev pub AllKeys {ℓ} : {V : Type ℓ} → (String → Type 0) → Dict V → Type 0
AllKeys P [] = Unit
AllKeys P ((k, v) ∷ d) = P k × AllKeys P d

AllKeys-insert_sorted :
    {V : Type 0} (P : String → Type 0) (k : String) (v : V) (d : Dict V)
    → P k
    → AllKeys P d
    → AllKeys P (insert_sorted (k, v) d)
unfolding insert_sorted
AllKeys-insert_sorted P k v [] p h = (p, tt)
AllKeys-insert_sorted P k v ((j, w) ∷ d) p (q, h) = elim (Bool-cases (text_lt j k)) [
  | inl e ↦ rw (e, insert_sorted) (q, AllKeys-insert_sorted P k v d p h)
  | inr e ↦ rw (e, insert_sorted) (p, (q, h))
]

AllKeys-sorted_items :
    {V : Type 0} (P : String → Type 0) (d : Dict V) → AllKeys P d → AllKeys P (sorted_items d)
unfolding sorted_items
AllKeys-sorted_items P [] h = tt
AllKeys-sorted_items P ((k, v) ∷ d) (p, h) =
    AllKeys-insert_sorted P k v (sorted_items d) p (AllKeys-sorted_items P d h)

abbrev pub IsKnown : List String → String → Type 0
IsKnown known component = contains component known ≡ true

module _ (path : String) (known : List String) where
  -- Where every component is known nothing is dropped.
  hydrate_workloads-map_values :
      {V : Type 0} (g : V → Json) (h : V → WorkloadMutation)
      → ((k : String) (v : V) → hydrate_workload path k (g v) ≡ ok (h v))
      → (d : Dict V) (acc : Dict WorkloadMutation) (dropped : List String)
      → AllKeys (IsKnown known) d
      → hydrate_workloads path known (map_values g d) acc dropped
        ≡ ok (insert_all (map_values h d) acc, dropped)
  unfolding hydrate_workloads map_values insert_all bind_result
  hydrate_workloads-map_values g h same [] acc dropped a = refl
  hydrate_workloads-map_values g h same ((k, v) ∷ d) acc dropped (p, a) =
      rw (p, same k v) (hydrate_workloads-map_values g h same d (insert k (h v) acc) dropped a)

  pub hydrate_workloads-rebuilt :
      {V : Type 0} (g : V → Json) (h : V → WorkloadMutation)
      → ((k : String) (v : V) → hydrate_workload path k (g v) ≡ ok (h v))
      → (d : Dict V) → AllKeys (IsKnown known) d
      → hydrate_workloads path known (sorted_items (map_values g (sorted_items d))) [] []
        ≡ ok (rebuilt h d, [])
  hydrate_workloads-rebuilt g h same d a = rw (sorted_items-map_values g (sorted_items d)) (
      hydrate_workloads-map_values g h same (sorted_items (sorted_items d)) [] [] (
        AllKeys-sorted_items (IsKnown known) (sorted_items d)
          (AllKeys-sorted_items (IsKnown known) d a)))

  pub hydrate_pods-known :
      (pods acc dropped : List String)
      → All (λ pod. IsKnown known (component_from_pod_name pod)) pods
      → hydrate_pods known pods acc dropped ≡ (set_of pods acc, dropped)
  unfolding hydrate_pods set_of
  hydrate_pods-known [] acc dropped a = refl
  hydrate_pods-known (pod ∷ pods) acc dropped (p, a) =
      rw p (hydrate_pods-known pods (set_add pod acc) dropped a)

pub contains-set_of :
    (j : String) (ys xs : List String)
    → contains j (set_of ys xs) ≡ (contains j ys || contains j xs)
unfolding set_of
contains-set_of j [] xs = refl
contains-set_of j (y ∷ ys) xs =
    ground (arith, contains-set_of j ys (set_add y xs), contains-set_add y j xs)

All-insert_text :
    (P : String → Type 0) (x : String) (xs : List String)
    → P x
    → All P xs
    → All P (insert_text x xs)
unfolding insert_text
All-insert_text P x [] p h = (p, tt)
All-insert_text P x (y ∷ ys) p (q, h) = elim (Bool-cases (text_lt y x)) [
  | inl e ↦ rw (e, insert_text) (q, All-insert_text P x ys p h)
  | inr e ↦ rw (e, insert_text) (p, (q, h))
]

pub All-sorted_texts : (P : String → Type 0) (xs : List String) → All P xs → All P (sorted_texts xs)
unfolding sorted_texts
All-sorted_texts P [] h = tt
All-sorted_texts P (x ∷ xs) (p, h) =
    All-insert_text P x (sorted_texts xs) p (All-sorted_texts P xs h)
