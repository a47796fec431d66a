-- ===== src/Mutations/Versions.antt =====
-- The overlay's version, which server_mutations.py raises with each commit.
use anomaly_metric_creator.Base.{String, ℕ, ◌+◌, ◌≤◌, ◌≡◌, refl, List, Option, none, some, arith}
use anomaly_metric_creator.Exec.{Result, ok, err, continue, pure, lift, modify, get_state, ◌>>=◌}
use anomaly_metric_creator.Json.{Row}
use anomaly_metric_creator.Mutations.{World, Method, SimulationMutations, Datetime, commit, update}
use anomaly_metric_creator.Mutations.Methods.{
  EventKey, WorkloadChange, finish_event, record_event, set_workload, put_pod, delete_pod,
  put_created, put_deleted, put_resource, delete_resource, reset, set_revisions, set_release_values,
  replace_release_values,
}
use anomaly_metric_creator.Mutations.Commit.{Keeps-commit, overlay-commit}
use anomaly_metric_creator.Mutations.Requests.{Request, apply, serve}
use anomaly_metric_creator.Mutations.Closed.{Closed, serve-Keeps}

-- A return of `m` leaves the version `n` higher.
record Raises {A : Type 0} (n : ℕ) (m : Method A) : Type 0 where
  at : (s t : World) {a : A} → m s ≡ (ok a, t) → t.overlay.version ≡ s.overlay.version + n

Raises-commit : Raises 1 commit
Raises-commit = record { at = λ s t e. ground (arith, e, overlay-commit s) }

Raises-pure : {A : Type 0} (a : A) → Raises 0 (pure a)
unfolding ◌>>=◌
Raises-pure a = record { at = λ s t e. ground (arith, e) }

Raises-lift : {A : Type 0} (r : Result A) → Raises 0 (lift r)
unfolding ◌>>=◌
Raises-lift r = record { at = λ s t e. ground (arith, e) }

Raises-get_state : Raises 0 get_state
unfolding ◌>>=◌
Raises-get_state = record { at = λ s t e. ground (arith, e) }

Raises-update :
    (f : SimulationMutations → SimulationMutations)
    → ((o : SimulationMutations) → (f o).version ≡ o.version)
    → Raises 0 (modify (update f))
unfolding ◌>>=◌
Raises-update f same = record { at = λ s t e. ground (arith, e, same s.overlay) }

Raises-continue :
    {A B : Type 0} (n k : ℕ) (f : A → Method B)
    → ((a : A) → Raises k (f a))
    → (r : Result A) (s s' t : World) (b : B)
    → ((a : A) → r ≡ ok a → s'.overlay.version ≡ s.overlay.version + n)
    → continue r f s' ≡ (ok b, t)
    → t.overlay.version ≡ s.overlay.version + (n + k)
Raises-continue n k f kf (ok a) s s' t b h e = omega (arith, h a refl, (kf a).at s' t e)
Raises-continue n k f kf (err x) s s' t b h e = absurd (cc)

Raises-bind :
    {A B : Type 0} (n k : ℕ) (m : Method A) (f : A → Method B)
    → Raises n m
    → ((a : A) → Raises k (f a))
    → Raises (n + k) (m >>= f)
unfolding ◌>>=◌
Raises-bind n k m f km kf = record {
  at = λ s t {a = b} e.
      Raises-continue n k f kf (m s).0 s (m s).1 t b (λ a p. km.at s (m s).1 {a = a} (cc p)) e;
}

finish_event-Raises :
    (k : EventKey) (timestamp : String) (o : Option (Result (Unit {0}) × List Row))
    → Raises 1 (finish_event k timestamp o)
unfolding finish_event
finish_event-Raises k timestamp none = record { at = λ s t e. Raises-commit.at _ t e }
finish_event-Raises k timestamp (some (ok _, touched)) = record {
  at = λ s t e. Raises-commit.at _ t e;
}
finish_event-Raises k timestamp (some (err x, touched)) = record { at = λ s t e. absurd (cc) }

record_event-Raises : (k : EventKey) (now : Datetime) → Raises 1 (record_event k now)
unfolding record_event
record_event-Raises k now = record { at = λ s t e. (finish_event-Raises _ _ _).at s t e }

set_workload-Raises :
    (component : String) (c : WorkloadChange) (now : Datetime)
    → Raises 1 (set_workload component c now)
unfolding set_workload
set_workload-Raises component c now = record {
  at = λ s t e. (Raises-bind 1 0 commit _ Raises-commit (λ _. Raises-pure _)).at _ t e;
}

-- How many commits a request makes.
abbrev pub commits : Request → ℕ
commits (Request.delete_pod _) = 3
commits (Request.put_resource _ _ _ _) = 2
commits (Request.delete_resource _ _ _) = 2
commits _ = 1

pod-Raises : (pod : String) → Raises 0 (modify (update (put_pod pod)))
pod-Raises pod = Raises-update (put_pod pod) (λ o. unfold put_pod in refl)

put-Raises : (kind key : String) (row : Row) → Raises 0 (modify (update (put_created kind key row)))
put-Raises kind key row = Raises-update (put_created kind key row) (λ o. unfold put_created in refl)

delete-Raises : (kind key : String) → Raises 0 (modify (update (put_deleted kind key)))
delete-Raises kind key = Raises-update (put_deleted kind key) (λ o. unfold put_deleted in refl)

apply-Raises : (r : Request) (now : Datetime) → Raises (commits r) (apply r now)
unfolding apply delete_pod put_resource delete_resource reset set_revisions set_release_values
    replace_release_values
apply-Raises (Request.record_event k) now = record_event-Raises k now
apply-Raises (Request.set_workload component c) now =
    Raises-bind 1 0 _ _ (set_workload-Raises component c now) (λ _. Raises-pure tt)
apply-Raises (Request.delete_pod pod) now = Raises-bind 0 3 _ _ (pod-Raises pod) (λ _.
    Raises-bind 1 2 _ _ Raises-commit
      (λ _. Raises-bind 1 1 _ _ (set_workload-Raises _ _ now) (λ _. record_event-Raises _ now)))
apply-Raises (Request.put_resource kind name row namespace) now =
    Raises-bind 0 2 _ _ Raises-get_state (λ w. Raises-bind 0 2 _ _ (Raises-lift _) (λ rv.
      Raises-bind 0 2 _ _ (put-Raises _ _ _)
        (λ _. Raises-bind 1 1 _ _ Raises-commit (λ _. record_event-Raises _ now))))
apply-Raises (Request.delete_resource kind name namespace) now =
    Raises-bind 0 2 _ _ (delete-Raises _ _)
      (λ _. Raises-bind 1 1 _ _ Raises-commit (λ _. record_event-Raises _ now))
apply-Raises _ now = record { at = λ s t e. Raises-commit.at _ t e }

-- A mutator that returns has raised the version by the number of its commits: three for a deleted
-- pod, two for a resource, one for the others, `reset` among them.
pub version-apply :
    (r : Request) (now : Datetime) (w t : World)
    → apply r now w ≡ (ok tt, t)
    → t.overlay.version ≡ w.overlay.version + commits r
version-apply r now w t e = (apply-Raises r now).at w t e

abbrev AtLeast : ℕ → World → Type 0
AtLeast n w = n ≤ w.overlay.version

AtLeast-Closed : (n : ℕ) → Closed (AtLeast n)
AtLeast-Closed n = record {
  at_commit = Keeps-commit (λ o. n ≤ o.version) (λ o h. omega arith);
  at_new_event = λ k timestamp w h e. h;
  at_touched = λ k timestamp r touched w h e. h;
  at_workload = λ component c now w h. h;
  at_pod = λ pod w h. unfold put_pod in h;
  at_put = λ kind key row w h. unfold put_created in h;
  at_delete = λ kind key w h. unfold put_deleted in h;
  at_reset = λ w h. h;
  at_release = λ f w h. h;
}

-- The version never goes back, also across requests that raise.
pub version-serve :
    (requests : List (Request × Datetime)) (w : World)
    → w.overlay.version ≤ (serve requests w).overlay.version
version-serve requests w = serve-Keeps (AtLeast-Closed w.overlay.version) requests w (omega arith)
