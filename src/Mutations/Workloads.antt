-- ===== src/Mutations/Workloads.antt =====
-- The workload mutations of server_mutations.py.
use anomaly_metric_creator.Base.{
  String, ℕ, ◌+◌, ◌≡◌, ◌≢◌, ◌⊎◌, refl, false, List, Option, none, some, arith, ◌==◌, string_eq,
  nat_eq, ℤ, pos, ◌+ℤ◌, ◌≤ℤ◌, ◌<ℤ◌, subst, inl, inr, Bool-cases, Option-cases, +ℤ_parts,
}
use anomaly_metric_creator.Base.Dict.{lookup, get_or, lookup-insert}
use anomaly_metric_creator.Exec.{Result, ok, err, continue, pure, ◌>>=◌}
use anomaly_metric_creator.Mutations.{
  World, update, commit, SimulationMutations, WorkloadMutation, new_workload, Datetime,
}
use anomaly_metric_creator.Mutations.Methods.{
  WorkloadChange, changed_workload, set_workload, put_pod, put_created, put_deleted,
}
use anomaly_metric_creator.Mutations.Commit.{Keeps-commit, bumped, overlay-commit}
use anomaly_metric_creator.Mutations.Requests.{Request, serve}
use anomaly_metric_creator.Mutations.Closed.{Closed, serve-Keeps, put_workload}

abbrev pub IsCount : Option ℤ → Type 0
IsCount none = Unit
IsCount (some n) = pos 0 ≤ℤ n

-- What the Kubernetes facade may rely on in a workload mutation.
pub record IsWorkload (m : WorkloadMutation) : Type 0 where
  pub observed : m.observed_generation ≡ m.generation
  pub replicas : IsCount m.replicas
  pub ready : IsCount m.ready_replicas
  pub generation : pos 1 ≤ℤ m.generation
  pub version : pos 1 ≤ℤ m.resource_version
  pub alive : m.deleted ≡ false → m.deletion_timestamp ≡ ""

changed_workload-IsWorkload :
    (c : WorkloadChange) (now : Datetime) (version : ℕ) (m : WorkloadMutation)
    → IsWorkload m
    → IsWorkload (changed_workload c now version m)
unfolding changed_workload
changed_workload-IsWorkload c now version m h = record {
  observed = refl;
  replicas = ground arith;
  ready = ground arith;
  generation = ground (arith, +ℤ_parts m.generation (pos 1));
  version = ground (arith, +ℤ_parts m.resource_version (pos 1));
  alive = ground arith;
}

-- The parts of the specification: how many replicas, and whether there are to be any.
abbrev pub SameSpec : WorkloadMutation → WorkloadMutation → Type 0
SameSpec m n = (m.replicas ≡ n.replicas) × (m.deleted ≡ n.deleted)

resource_version_grows :
    (c : WorkloadChange) (now : Datetime) (version : ℕ) (m : WorkloadMutation)
    → (m.resource_version <ℤ (changed_workload c now version m).resource_version)
      × (pos (version + 1) <ℤ (changed_workload c now version m).resource_version)
unfolding changed_workload
resource_version_grows c now version m = ground (arith, +ℤ_parts m.resource_version (pos 1))

generation_counts :
    (c : WorkloadChange) (now : Datetime) (version : ℕ) (m : WorkloadMutation)
    → let n = changed_workload c now version m in
      (SameSpec m n × (n.generation ≡ m.generation))
      ⊎ ((¬ SameSpec m n) × (n.generation ≡ m.generation +ℤ pos 1))
unfolding changed_workload
generation_counts c now version m = ground arith

returned_with :
    {A : Type 0} (a b : A) (x : Result (Unit {0}) × World) (t : World)
    → continue x.0 (λ _. pure a) x.1 ≡ (ok b, t)
    → (b ≡ a) × (t ≡ x.1)
unfolding ◌>>=◌
returned_with a b (ok _, u) t e = ground (arith, e)
returned_with a b (err _, u) t e = absurd (cc)

-- What a `set_workload` that returns has done, in terms of the overlay that it found.
set_workload_result :
    (component : String) (c : WorkloadChange) (now : Datetime) (w t : World) (m : WorkloadMutation)
    → set_workload component c now w ≡ (ok m, t)
    → (m
        ≡ changed_workload c now w.overlay.version
            (get_or component new_workload w.overlay.workloads))
      × (t.overlay ≡ bumped (put_workload component c now w.overlay))
unfolding set_workload ◌>>=◌
set_workload_result component c now w t m e =
    let found =
      changed_workload c now w.overlay.version
        (get_or component new_workload w.overlay.workloads) in
    let v = update (put_workload component c now) w in
    let (same, after) = returned_with found m (commit v) t e in (same, rw after (overlay-commit v))

-- A `set_workload` that returns hands back what it stored. Its resource version has grown and is
-- past the overlay's version, its generation has grown by one if its replicas or its deletion mark
-- changed and is the same if not, and no other component's mutation changed.
pub set_workload_grows :
    (component : String) (c : WorkloadChange) (now : Datetime) (w t : World) (m : WorkloadMutation)
    → set_workload component c now w ≡ (ok m, t)
    → let old = get_or component new_workload w.overlay.workloads in
      (lookup component t.overlay.workloads ≡ some m)
      × (old.resource_version <ℤ m.resource_version)
      × (pos t.overlay.version <ℤ m.resource_version)
      × ((SameSpec old m × (m.generation ≡ old.generation))
          ⊎ ((¬ SameSpec old m) × (m.generation ≡ old.generation +ℤ pos 1)))
      × ((other : String)
          → component ≢ other
          → lookup other t.overlay.workloads ≡ lookup other w.overlay.workloads)
set_workload_grows component c now w t m e =
    let (same, after) = set_workload_result component c now w t m e in
    let old = get_or component new_workload w.overlay.workloads in
    let (grows, passes) = resource_version_grows c now w.overlay.version old in
    let at = λ (k : String).
      lookup-insert k component (changed_workload c now w.overlay.version old)
        w.overlay.workloads in
    (
      ground (arith, same, after, at component),
      rw same grows,
      rw (same, after) passes,
      rw same (generation_counts c now w.overlay.version old),
      λ other ne. ground (arith, after, at other),
    )

abbrev pub AllWorkloads : SimulationMutations → Type 0
AllWorkloads o = (k : String) (m : WorkloadMutation) → lookup k o.workloads ≡ some m → IsWorkload m

new_workload-IsWorkload : IsWorkload new_workload
new_workload-IsWorkload = record {
  observed = refl;
  replicas = tt;
  ready = tt;
  generation = omega arith;
  version = omega arith;
  alive = λ e. refl;
}

get_or-IsWorkload :
    (k : String) (o : SimulationMutations)
    → AllWorkloads o
    → IsWorkload (get_or k new_workload o.workloads)
unfolding get_or
get_or-IsWorkload k o h = elim (Option-cases (lookup k o.workloads)) [
  | inl e ↦ rw (e, get_or) new_workload-IsWorkload
  | inr (m, e) ↦ rw (e, get_or) (h k m e)
]

AllWorkloads-put_workload :
    (component : String) (c : WorkloadChange) (now : Datetime) (o : SimulationMutations)
    → AllWorkloads o
    → AllWorkloads (put_workload component c now o)
AllWorkloads-put_workload component c now o h k m e =
    let old = get_or component new_workload o.workloads in
    let new = changed_workload c now o.version old in
    let at = lookup-insert k component new o.workloads in
    elim (Bool-cases (component == k)) [
      | inl same ↦
          let p : new ≡ m = ground (arith, same, at, e) in
          subst IsWorkload p
            (changed_workload-IsWorkload c now o.version old (get_or-IsWorkload component o h))
      | inr other ↦ h k m (ground (arith, other, at, e))
    ]

abbrev HasWorkloads : World → Type 0
HasWorkloads w = AllWorkloads w.overlay

HasWorkloads-Closed : Closed HasWorkloads
HasWorkloads-Closed = record {
  at_commit = Keeps-commit AllWorkloads (λ o h. h);
  at_new_event = λ k timestamp w h e. h;
  at_touched = λ k timestamp r touched w h e. h;
  at_workload = λ component c now w. AllWorkloads-put_workload component c now w.overlay;
  at_pod = λ pod w h. unfold put_pod in h;
  at_put = λ kind key row w h. unfold put_created in h;
  at_delete = λ kind key w h. unfold put_deleted in h;
  at_reset = λ w h k m e. unfold lookup in cc;
  at_release = λ f w h. h;
}

-- Where at first every workload mutation has observed its generation, has counts of zero or more and
-- versions of one or more, and bears no deletion time unless it is deleted, so it is whatever is asked
-- of the overlay. The mutations of a file are not checked for it when they are read.
pub serve-AllWorkloads :
    (requests : List (Request × Datetime)) (w : World)
    → AllWorkloads w.overlay
    → AllWorkloads (serve requests w).overlay
serve-AllWorkloads = serve-Keeps HasWorkloads-Closed
