-- ===== src/SecurityConfig/Update/Forgets.antt =====
-- What a retry leaves in the status of the component.
use opensearch_k8s_operator.Prelude.{◌≡◌, refl, ap, ◌∙◌, true, false, some, inr, List, ◌∷◌, String}
use opensearch_k8s_operator.Text.{atoi}
use opensearch_k8s_operator.Api.{ClusterStatus, ComponentStatus}
use opensearch_k8s_operator.Api.Objects.{Job, job_created}
use opensearch_k8s_operator.Exec.{read, status_put, written, History, World, ok}
use opensearch_k8s_operator.SecurityConfig.{SecurityServices}
use opensearch_k8s_operator.SecurityConfig.Retry.{
  status_with, component_status, conditions_of, first_read, retry_count, last_retry, or_zero,
  or_never, current_retry_conditions,
}
use opensearch_k8s_operator.SecurityConfig.Update.{has_checksum, reconcile_job}
use opensearch_k8s_operator.SecurityConfig.Update.Starts.{Accepts, conditions_for}
use opensearch_k8s_operator.SecurityConfig.Update.Due.{Expired, Due, resets, reconcile_job-starts}

module _ (sv : SecurityServices) where
  -- The same count of retries and the same time of the last one.
  abbrev pub SameRetry : List ComponentStatus → List ComponentStatus → Type 0
  SameRetry vs us = (retry_count vs ≡ retry_count us) × (last_retry sv vs ≡ last_retry sv us)

  current-SameRetry :
      (status description : String) (vs us : List ComponentStatus)
      → component_status vs ≡ some (status_with status description (current_retry_conditions us))
      → SameRetry vs us
  unfolding retry_count last_retry current_retry_conditions
  current-SameRetry status description vs us e = (
    ap (λ o. or_zero (first_read "retry:" atoi (conditions_of o))) e,
    ap (λ o. or_never (first_read "lastRetry:" sv.parse (conditions_of o))) e,
  )

  -- If the job for the wanted checksum failed and its delay is over, the cluster can be read and every
  -- write is accepted, then the last status that the run writes before it makes the job again holds
  -- the count and the time of the retry that the run began with.
  pub reconcile_job-forgets :
      Accepts sv
      → (checksum : String) (wanted job : Job) (w : World)
      → sv.get_job w.history wanted.name ≡ ok job
      → has_checksum checksum job.checksum_annotation ≡ true
      → Expired sv job w.components
      → (s : ClusterStatus) × (below : History) × ((reconcile_job sv checksum wanted w).0.history
          ≡ written (job_created wanted) true
            ∷ read "SetControllerReference"
            ∷ status_put s true
            ∷ read "GetOpenSearchCluster"
            ∷ below)
        × SameRetry s.components_status w.components
  reconcile_job-forgets accepts checksum wanted job w g c x =
      let due : Due sv checksum w.components (sv.get_job w.history wanted.name) =
        rw g (inr (c, x)) in
      let kept : resets sv checksum (sv.get_job w.history wanted.name) ≡ false = rw g (rw c refl) in
      let same =
        ap (λ b. some (status_with "Running" "" (conditions_for sv b w.components))) kept in
      let (h, (r, (s, e, k)), d) = reconcile_job-starts sv accepts checksum wanted w due in
      (s, h, e, current-SameRetry "Running" "" s.components_status w.components (k ∙ same))
