-- ===== src/KubeApi/Effects.antt =====
-- What the overlay says after a request of the Kubernetes API that succeeded.
use anomaly_metric_creator.Base.{
  String, ◌≡◌, refl, ap, sym, ◌∙◌, subst, true, false, List, Option, none, some, ◌==◌, string_eq,
  arith,
}
use anomaly_metric_creator.Exec.{Result, ok, err, ◌>>=◌, modify, pure}
use anomaly_metric_creator.Exec.Keeps.{
  Keeps, Keeps-continue, Keeps-pure, Keeps-bind, Ensures, Ensures-bind, Ensures-pure, Ensures-if,
}
use anomaly_metric_creator.Json.{Row}
use anomaly_metric_creator.Mutations.{
  World, Method, SimulationMutations, Datetime, commit, update, mutation_resource_key,
}
use anomaly_metric_creator.Mutations.Methods.{
  EventKey, finish_event, record_event, put_deleted, delete_resource,
}
use anomaly_metric_creator.Mutations.Commit.{Keeps-commit}
use anomaly_metric_creator.Mutations.Resources.{
  created_row, is_deleted, created_row-put_deleted, is_deleted-put_deleted,
}
use anomaly_metric_creator.KubeApi.{
  KubernetesApiResponse, status_response, read_only_response, MutationTarget, mutation_target,
  mutation_snapshot_kind, is_update,
}
use anomaly_metric_creator.KubeApi.Mutating.{
  Views, delete_found, mutate, answer_target, mutating_response,
}
use anomaly_metric_creator.KubeApi.Succeeds.{succeeds}

-- The overlay hides a key, and shows no created row for it.
abbrev pub IsHidden : SimulationMutations → String → String → Type 0
IsHidden o kind key = (is_deleted o kind key ≡ true) × (created_row o kind key ≡ none)

IsHidden-put_deleted :
    (kind key : String) (o : SimulationMutations) → IsHidden (put_deleted kind key o) kind key
IsHidden-put_deleted kind key o =
    ground (
      arith,
      created_row-put_deleted kind key kind key o,
      is_deleted-put_deleted kind key kind key o,
    )

module _ (kind key : String) where
  Hides : World → Type 0
  Hides w = IsHidden w.overlay kind key

  Keeps-Hides-commit : Keeps Hides commit
  unfolding Hides
  Keeps-Hides-commit = Keeps-commit (λ o. IsHidden o kind key) (λ o h. h)

  Keeps-Hides-event : (k : EventKey) (now : Datetime) → Keeps Hides (record_event k now)
  unfolding record_event Hides
  Keeps-Hides-event k now = record { at = λ w h. go _ _ _ w h }
    where
      go :
          (q : EventKey) (timestamp : String) (o : Option (Result (Unit {0}) × List Row))
          (w : World)
          → Hides w
          → Hides (finish_event q timestamp o w).1
      go q timestamp none w h = Keeps-Hides-commit.at _ h
      go q timestamp (some (ok _, l)) w h = Keeps-Hides-commit.at _ h
      go q timestamp (some (err _, l)) w h = h

  -- Whatever stood before, `m` ends where the key is hidden.
  record Leaves {A : Type 0} (m : Method A) : Type 0 where
    pub at : (w : World) → Hides (m w).1

  Leaves-bind :
      {A B : Type 0} (m : Method A) (f : A → Method B)
      → Leaves m
      → ((a : A) → Keeps Hides (f a))
      → Leaves (m >>= f)
  unfolding ◌>>=◌
  Leaves-bind m f l k = record { at = λ w. Keeps-continue f k (m w).0 (m w).1 (l.at w) }

  Leaves-modify : Leaves (modify (update (put_deleted kind key)))
  unfolding ◌>>=◌ Hides
  Leaves-modify = record { at = λ w. IsHidden-put_deleted kind key w.overlay }

module _ (v : Views) (now : Datetime) (kind : String) (t : MutationTarget) where
  abbrev target_key : String
  target_key = mutation_resource_key t.namespace t.name

  Leaves-delete_resource : Leaves kind target_key (delete_resource kind t.name now t.namespace)
  unfolding delete_resource
  Leaves-delete_resource = Leaves-bind kind target_key _ _ (Leaves-modify kind target_key) (λ _.
      Keeps-bind commit _ (Keeps-Hides-commit kind target_key)
        (λ _. Keeps-Hides-event kind target_key _ now))

  Meets : KubernetesApiResponse → World → Type 0
  Meets a w = succeeds a ≡ true → IsHidden w.overlay kind target_key

  Meets-read_only : (method path : String) → Ensures Meets (pure (read_only_response method path))
  unfolding Meets read_only_response status_response
  Meets-read_only method path = Ensures-pure _ (λ w h. absurd (cc))

  Meets-delete_found : (o : Option Row) → Ensures Meets (delete_found v now t kind o)
  unfolding delete_found Meets status_response Hides
  Meets-delete_found none = Ensures-pure _ (λ w h. absurd (cc))
  Meets-delete_found (some _) = record {
    at = λ w w' a e h.
        subst (Hides kind target_key) (ap (λ x. x.1) e)
          ((Leaves-bind kind target_key _ _ Leaves-delete_resource (λ _. Keeps-pure _)).at w);
  }

  method_tests :
      (is_update "DELETE" ≡ false)
      × (◌==◌ {A = String} "DELETE" "DELETE" ≡ true)
      × (◌==◌ {A = String} "DELETE" "POST" ≡ false)
  unfolding is_update string_eq
  method_tests = (refl, refl, refl)

  Meets-mutate :
      (path : String) (payload : Row)
      → (t.resource == "pods") ≡ false
      → (t.resource == "deployments") ≡ false
      → Ensures Meets (mutate v now "DELETE" path t kind payload)
  unfolding mutate
  Meets-mutate path payload p d =
      let (update_no, delete_yes, post_no) = method_tests in
      rw (update_no, delete_yes, post_no, p, d)
        (Ensures-if _ _ _ (Ensures-bind _ _ Meets-delete_found) (Meets-read_only "DELETE" path))

-- A deletion of an object other than a pod or a deployment that succeeds leaves the overlay hiding
-- the object's key in its kind, without a created row under it.
pub mutating_response-deletes :
    (v : Views) (now : Datetime) (w w' : World) (path : String) (payload : Row) (t : MutationTarget)
    (a : KubernetesApiResponse)
    → mutation_target path ≡ some t
    → (t.resource == "pods") ≡ false
    → (t.resource == "deployments") ≡ false
    → mutating_response v now "DELETE" path payload w ≡ (ok a, w')
    → succeeds a ≡ true
    → IsHidden w'.overlay
        (mutation_snapshot_kind t.resource)
        (mutation_resource_key t.namespace t.name)
unfolding mutating_response answer_target Meets
mutating_response-deletes v now w w' path payload t a found p d e h =
    let kind = mutation_snapshot_kind t.resource in
    (Ensures-if _ _ _ (Meets-mutate v now kind t path payload p d)
        (Meets-read_only v now kind t "DELETE" path)).at
      w w' a (ap (λ o. answer_target v now "DELETE" path o payload w) (sym found) ∙ e) h
