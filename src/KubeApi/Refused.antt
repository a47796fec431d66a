-- ===== src/KubeApi/Refused.antt =====
-- What a refused request of the Kubernetes API leaves.
use anomaly_metric_creator.Base.{
  String, ◌≡◌, ◌⊎◌, inl, inr, refl, ap, sym, ◌∙◌, subst, Bool, true, false, List, Option, none,
  some, if◌then◌else◌, Option-cases,
}
use anomaly_metric_creator.Exec.{Result, ok, err, continue, pure, ◌>>=◌}
use anomaly_metric_creator.Exec.Keeps.{Ensures, Ensures-bind}
use anomaly_metric_creator.Json.{Row}
use anomaly_metric_creator.Mutations.{World, Datetime}
use anomaly_metric_creator.KubeApi.{KubernetesApiResponse, MutationTarget, find_named}
use anomaly_metric_creator.KubeApi.Mutating.{
  Views, Answer, snapshot_row, deployment_answer, update_found, update_deployment, delete_found_pod,
  delete_found_deployment, delete_found,
}
use anomaly_metric_creator.KubeApi.Answers.{missing_deployment}
use anomaly_metric_creator.KubeApi.Succeeds.{
  succeeds, Success, Success-delete_pod, Success-delete_deployment, Success-delete, Success-create,
  Success-update_resource, Success-answer,
}

module _ (v : Views) (now : Datetime) where
  -- What the snapshot shows of a deployment.
  abbrev Shown : String → Option Row → World → Type 0
  Shown name o w =
      (rows : String → List Row) × (v.resource_snapshot now w ≡ ok rows)
      × (find_named (rows "deployments") name ≡ o)

  -- The snapshot is read first, and reading it changes nothing.
  pub after_read :
      (kind name : String) (f : Option Row → Answer) (w w' : World) (a : KubernetesApiResponse)
      → (snapshot_row v now kind name >>= f) w ≡ (ok a, w')
      → (rows : String → List Row) × (v.resource_snapshot now w ≡ ok rows)
        × (f (find_named (rows kind) name) w ≡ (ok a, w'))
  unfolding snapshot_row ◌>>=◌
  after_read kind name f w w' a e = go (v.resource_snapshot now w) refl e
    where
      go :
          (r : Result (String → List Row))
          → v.resource_snapshot now w ≡ r
          → continue
              (continue r (λ rows. pure (find_named (rows kind) name)) w).0
              f
              (continue r (λ rows. pure (find_named (rows kind) name)) w).1
            ≡ (ok a, w')
          → (rows : String → List Row) × (v.resource_snapshot now w ≡ ok rows)
            × (f (find_named (rows kind) name) w ≡ (ok a, w'))
      go (ok rows) p e = (rows, p, e)
      go (err x) p e = absurd (cc)

  -- A refusal leaves the world as it was, or the deployment was shown and is gone.
  abbrev pub Undone : Option MutationTarget → World → World → Type 0
  Undone o w w' =
      (w' ≡ w)
      ⊎ ((t : MutationTarget) × (o ≡ some t)
          × ((row : Row) × Shown t.name (some row) w)
          × Shown t.name none w')

  -- Started in `w`, a refusal of `m` leaves no trace.
  record Careful (o : Option MutationTarget) (w : World) (m : Answer) : Type 0 where
    pub at :
        (w' : World) (a : KubernetesApiResponse)
        → m w ≡ (ok a, w')
        → succeeds a ≡ false
        → Undone o w w'

  Careful-Success :
      (o : Option MutationTarget) (w : World) (m : Answer) → Ensures Success m → Careful o w m
  unfolding Success
  Careful-Success o w m s = record { at = λ w' a e h. absurd (cc (s.at w w' a e, h)) }

  end_of_pure :
      (w w' : World) (a response : KubernetesApiResponse) → pure response w ≡ (ok a, w') → w ≡ w'
  unfolding ◌>>=◌
  end_of_pure w w' a response e = ap (λ x. x.1) e

  Careful-pure :
      (o : Option MutationTarget) (w : World) (response : KubernetesApiResponse)
      → Careful o w (pure response)
  Careful-pure o w response = record { at = λ w' a e h. inl (sym (end_of_pure w w' a response e)) }

  Careful-if :
      (o : Option MutationTarget) (w : World) (b : Bool) (m k : Answer)
      → Careful o w m
      → Careful o w k
      → Careful o w (if b then m else k)
  Careful-if o w true m k cm ck = cm
  Careful-if o w false m k cm ck = ck

  -- A deletion of what the snapshot may show.
  Careful-delete :
      (o : Option MutationTarget) (w : World) (kind name : String) (f : Option Row → Answer)
      (response : KubernetesApiResponse)
      → f none ≡ pure response
      → ((row : Row) → Ensures Success (f (some row)))
      → Careful o w (snapshot_row v now kind name >>= f)
  Careful-delete o w kind name f response p s = record {
    at = λ w' a e.
        let (rows, _, q) = after_read kind name f w w' a e in
        elim (Option-cases (find_named (rows kind) name)) [
          | inl n ↦ (Careful-pure o w response).at w' a (ap (λ m. m w) (sym (ap f n ∙ p)) ∙ q)
          | inr (row, n) ↦
              (Careful-Success o w (f (some row)) (s row)).at w' a (ap (λ x. f x w) (sym n) ∙ q)
        ];
  }

  -- After the replicas are set, a refusal means that the deployment is no longer shown.
  Loses : MutationTarget → KubernetesApiResponse → World → Type 0
  Loses t a w = succeeds a ≡ false → Shown t.name none w

  Loses-answer :
      (method : String) (t : MutationTarget)
      → Ensures
          (Loses t)
          (snapshot_row v now "deployments" t.name >>= deployment_answer v now method t)
  unfolding Loses deployment_answer Success
  Loses-answer method t = record {
    at = λ w w' a e h.
        let (rows, p, q) =
          after_read "deployments" t.name (deployment_answer v now method t) w w' a e in
        elim (Option-cases (find_named (rows "deployments") t.name)) [
          | inl n ↦
              subst (Shown t.name none)
                (end_of_pure w w' a (missing_deployment t.name)
                  (ap (λ o. deployment_answer v now method t o w) (sym n) ∙ q))
                (rows, p, n)
          | inr (row, n) ↦ absurd (
              cc (
                (Success-answer v now method t row).at w w' a
                    (ap (λ o. deployment_answer v now method t o w) (sym n) ∙ q),
                h,
              ))
        ];
  }

  Loses-update_found :
      (method : String) (t : MutationTarget) (payload row : Row)
      → Ensures (Loses t) (update_found v now method t payload (some row))
  unfolding update_found
  Loses-update_found method t payload row =
      Ensures-bind _ _ (λ n. Ensures-bind _ _ (λ u. Loses-answer method t))

  Careful-update :
      (w : World) (method : String) (t : MutationTarget) (payload : Row)
      → Careful (some t) w (update_deployment v now method t payload)
  unfolding update_deployment update_found Loses
  Careful-update w method t payload = record {
    at = λ w' a e h.
        let f = update_found v now method t payload in
        let (rows, p, q) = after_read "deployments" t.name f w w' a e in
        elim (Option-cases (find_named (rows "deployments") t.name)) [
          | inl n ↦
              inl
                (sym (end_of_pure w w' a (missing_deployment t.name) (ap (λ o. f o w) (sym n) ∙ q)))
          | inr (row, n) ↦ inr (
            t,
            refl,
            (row, (rows, p, n)),
            (Loses-update_found method t payload row).at w w' a (ap (λ o. f o w) (sym n) ∙ q) h,
          )
        ];
  }

  Careful-pod :
      (o : Option MutationTarget) (w : World) (t : MutationTarget)
      → Careful o w (snapshot_row v now "pods" t.name >>= delete_found_pod v now t)
  unfolding delete_found_pod
  Careful-pod o w t = Careful-delete o w "pods" t.name _ _ refl (Success-delete_pod v now t)

  Careful-deployment :
      (o : Option MutationTarget) (w : World) (t : MutationTarget)
      → Careful o w (snapshot_row v now "deployments" t.name >>= delete_found_deployment v now t)
  unfolding delete_found_deployment
  Careful-deployment o w t =
      Careful-delete o w "deployments" t.name _ _ refl (Success-delete_deployment v now t)

  Careful-resource :
      (o : Option MutationTarget) (w : World) (t : MutationTarget) (kind : String)
      → Careful o w (snapshot_row v now kind t.name >>= delete_found v now t kind)
  unfolding delete_found
  Careful-resource o w t kind =
      Careful-delete o w kind t.name _ _ refl (Success-delete v now t kind)

  ruleset careful_rules = (
    Careful-if, Careful-pure, Careful-pod, Careful-deployment, Careful-resource, Careful-update,
    Careful-Success, Success-create, Success-update_resource,
  )
