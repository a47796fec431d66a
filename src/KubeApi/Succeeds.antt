-- ===== src/KubeApi/Succeeds.antt =====
-- The handlers of the Kubernetes API that answer with a success wherever they return.
use anomaly_metric_creator.Base.{String, ◌≡◌, refl, Bool, true, Option, none, some, ltb}
use anomaly_metric_creator.Exec.Keeps.{Ensures, Ensures-bind, Ensures-pure, Ensures-if}
use anomaly_metric_creator.Json.{Json, Row}
use anomaly_metric_creator.Mutations.{World, Datetime}
use anomaly_metric_creator.KubeApi.{
  KubernetesApiResponse, status_response, json_response, MutationTarget,
}
use anomaly_metric_creator.KubeApi.Mutating.{
  Views, deployment_answer, update_resource, delete_found_pod, delete_found_deployment,
  delete_found, accept_create, create,
}
use anomaly_metric_creator.KubeApi.Answers.{created_name, updated}

abbrev pub succeeds : KubernetesApiResponse → Bool
succeeds response = ltb response.status 400

unfoldable pub Success : KubernetesApiResponse → World → Type 0
Success response w = succeeds response ≡ true

module _ (v : Views) (now : Datetime) where
  pub Success-delete_pod :
      (t : MutationTarget) (row : Row) → Ensures Success (delete_found_pod v now t (some row))
  unfolding delete_found_pod status_response Success
  Success-delete_pod t row = Ensures-bind _ _ (λ u. Ensures-pure _ (λ w. refl))

  pub Success-delete_deployment :
      (t : MutationTarget) (row : Row)
      → Ensures Success (delete_found_deployment v now t (some row))
  unfolding delete_found_deployment status_response Success
  Success-delete_deployment t row =
      Ensures-bind _ _ (λ u. Ensures-bind _ _ (λ x. Ensures-pure _ (λ w. refl)))

  pub Success-delete :
      (t : MutationTarget) (kind : String) (row : Row)
      → Ensures Success (delete_found v now t kind (some row))
  unfolding delete_found status_response Success
  Success-delete t kind row = Ensures-bind _ _ (λ u. Ensures-pure _ (λ w. refl))

  pub Success-accept_create :
      (t : MutationTarget) (name : String) (o : Option Json)
      → Ensures Success (accept_create v now t name o)
  unfolding accept_create status_response Success
  Success-accept_create t name none = Ensures-bind _ _ (λ u. Ensures-pure _ (λ w. refl))
  Success-accept_create t name (some body) = Ensures-pure _ (λ w. refl)

  pub Success-create :
      (t : MutationTarget) (kind : String) (payload : Row)
      → Ensures Success (create v now t kind payload)
  unfolding create
  Success-create t kind payload =
      Ensures-if _ _ _ (Success-accept_create t (created_name t payload) none)
        (Ensures-bind _ _ (Success-accept_create t (created_name t payload)))

  succeeds-updated :
      (method : String) (t : MutationTarget) (o : Option Json)
      → succeeds (updated method t o) ≡ true
  unfolding updated status_response json_response
  succeeds-updated method t none = refl
  succeeds-updated method t (some _) = refl

  pub Success-update_resource :
      (method : String) (t : MutationTarget) (kind : String) (payload : Row)
      → Ensures Success (update_resource v now method t kind payload)
  unfolding update_resource Success
  Success-update_resource method t kind payload =
      Ensures-bind _ _ (λ o. Ensures-pure _ (λ w. succeeds-updated method t o))

  pub Success-answer :
      (method : String) (t : MutationTarget) (row : Row)
      → Ensures Success (deployment_answer v now method t (some row))
  unfolding deployment_answer json_response Success
  Success-answer method t row =
      Ensures-bind _ _ (λ w. Ensures-bind _ _ (λ body. Ensures-pure _ (λ w'. refl)))
