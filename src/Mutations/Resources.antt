-- ===== src/Mutations/Resources.antt =====
-- The created and the deleted resources of server_mutations.py.
use anomaly_metric_creator.Base.{
  String, ◌≡◌, ◌⊎◌, refl, Bool, true, false, List, [], Option, none, some, arith, contains, ◌==◌,
  string_eq, if◌then◌else◌, inl,
}
use anomaly_metric_creator.Base.Dict.{
  Dict, lookup, insert, erase, get_or, set_add, set_discard, lookup-insert, lookup-erase,
  contains-set_add, contains-set_discard,
}
use anomaly_metric_creator.Json.{Row}
use anomaly_metric_creator.Mutations.{World, SimulationMutations, Datetime}
use anomaly_metric_creator.Mutations.Methods.{put_pod, put_created, put_deleted}
use anomaly_metric_creator.Mutations.Commit.{Keeps-commit}
use anomaly_metric_creator.Mutations.Requests.{Request, serve}
use anomaly_metric_creator.Mutations.Closed.{Closed, serve-Keeps}

-- The row that the overlay shows for a key, and whether it hides the key.
abbrev pub created_row : SimulationMutations → String → String → Option Row
created_row o kind key = lookup key (get_or kind [] o.created_resources)

abbrev pub is_deleted : SimulationMutations → String → String → Bool
is_deleted o kind key = contains key (get_or kind [] o.deleted_resources)

get_or-insert {ℓ} :
    {V : Type ℓ} (j k : String) (v d : V) (m : Dict V)
    → get_or j d (insert k v m) ≡ (if k == j then v else get_or j d m)
unfolding get_or
get_or-insert j k v d m = ground (arith, lookup-insert j k v m)

-- What `put_resource` makes of every key: it shows the row under its own key and no longer hides
-- it, and leaves every other key of every kind as it was.
pub created_row-put_created :
    (kind key k j : String) (row : Row) (o : SimulationMutations)
    → created_row (put_created kind key row o) k j ≡ (
        if kind == k then (if key == j then some row else created_row o k j) else created_row o k j)
unfolding put_created
created_row-put_created kind key k j row o = ground (
  arith,
  get_or-insert k kind (insert key row (get_or kind [] o.created_resources)) [] o.created_resources,
  lookup-insert j key row (get_or kind [] o.created_resources),
)

pub is_deleted-put_created :
    (kind key k j : String) (row : Row) (o : SimulationMutations)
    → is_deleted (put_created kind key row o) k j
      ≡ (if kind == k then (if j == key then false else is_deleted o k j) else is_deleted o k j)
unfolding put_created
is_deleted-put_created kind key k j row o = ground (
  arith,
  get_or-insert k kind (set_discard key (get_or kind [] o.deleted_resources)) []
      o.deleted_resources,
  contains-set_discard key j (get_or kind [] o.deleted_resources),
)

pub created_row-put_deleted :
    (kind key k j : String) (o : SimulationMutations)
    → created_row (put_deleted kind key o) k j
      ≡ (if kind == k then (if key == j then none else created_row o k j) else created_row o k j)
unfolding put_deleted
created_row-put_deleted kind key k j o = ground (
  arith,
  get_or-insert k kind (erase key (get_or kind [] o.created_resources)) [] o.created_resources,
  lookup-erase j key (get_or kind [] o.created_resources),
)

pub is_deleted-put_deleted :
    (kind key k j : String) (o : SimulationMutations)
    → is_deleted (put_deleted kind key o) k j
      ≡ (if kind == k then (if j == key then true else is_deleted o k j) else is_deleted o k j)
unfolding put_deleted
is_deleted-put_deleted kind key k j o = ground (
  arith,
  get_or-insert k kind (set_add key (get_or kind [] o.deleted_resources)) [] o.deleted_resources,
  contains-set_add key j (get_or kind [] o.deleted_resources),
)

-- No key is both shown and hidden.
abbrev pub IsDisjoint : SimulationMutations → Type 0
IsDisjoint o =
    (kind key : String) → (created_row o kind key ≡ none) ⊎ (is_deleted o kind key ≡ false)

IsDisjoint-put_created :
    (kind key : String) (row : Row) (o : SimulationMutations)
    → IsDisjoint o
    → IsDisjoint (put_created kind key row o)
IsDisjoint-put_created kind key row o h k j = ground (
  arith,
  h k j,
  created_row-put_created kind key k j row o,
  is_deleted-put_created kind key k j row o,
)

IsDisjoint-put_deleted :
    (kind key : String) (o : SimulationMutations)
    → IsDisjoint o
    → IsDisjoint (put_deleted kind key o)
IsDisjoint-put_deleted kind key o h k j =
    ground
      (arith, h k j, created_row-put_deleted kind key k j o, is_deleted-put_deleted kind key k j o)

abbrev HasDisjoint : World → Type 0
HasDisjoint w = IsDisjoint w.overlay

HasDisjoint-Closed : Closed HasDisjoint
HasDisjoint-Closed = record {
  at_commit = Keeps-commit IsDisjoint (λ o h. h);
  at_new_event = λ k timestamp w h e. h;
  at_touched = λ k timestamp r touched w h e. h;
  at_workload = λ component c now w h. h;
  at_pod = λ pod w h. unfold put_pod in h;
  at_put = λ kind key row w. IsDisjoint-put_created kind key row w.overlay;
  at_delete = λ kind key w. IsDisjoint-put_deleted kind key w.overlay;
  at_reset = λ w h kind key. inl (unfold get_or lookup in refl);
  at_release = λ f w h. h;
}

-- Where no key of a kind is both created and deleted at first, none is whatever is asked of the
-- overlay. That of a file is not checked for it when it is read.
pub serve-IsDisjoint :
    (requests : List (Request × Datetime)) (w : World)
    → IsDisjoint w.overlay
    → IsDisjoint (serve requests w).overlay
serve-IsDisjoint = serve-Keeps HasDisjoint-Closed
