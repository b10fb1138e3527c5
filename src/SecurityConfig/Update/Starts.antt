-- ===== src/SecurityConfig/Update/Starts.antt =====
-- When the job is made again.
use opensearch_k8s_operator.Prelude.{
  ◌≡◌, refl, ap, ◌∙◌, Bool, true, Option, none, some, List, ◌∷◌, String, if◌then◌else◌,
}
use opensearch_k8s_operator.Prelude.Int.{pos}
use opensearch_k8s_operator.Api.{Error, Cluster, ClusterStatus, ComponentStatus, Outcome}
use opensearch_k8s_operator.Api.Objects.{Job, job_created}
use opensearch_k8s_operator.Exec.{
  read, status_put, written, History, World, Result, ok, continue, pure, log, accepted, unless,
}
use opensearch_k8s_operator.Services.Status.{after_note, update_status-accepted}
use opensearch_k8s_operator.Util.{done}
use opensearch_k8s_operator.Scaler.Node.{with_components}
use opensearch_k8s_operator.Restart.Run.{update_component_status}
use opensearch_k8s_operator.SecurityConfig.{SecurityServices}
use opensearch_k8s_operator.SecurityConfig.Retry.{
  status_with, component_status, retry_conditions, current_retry_conditions,
}
use opensearch_k8s_operator.SecurityConfig.Retry.Conditions.{
  component_status-update_component_status,
}
use opensearch_k8s_operator.SecurityConfig.Update.{update_security_status, start_job}

-- The cluster can be read, and every write is accepted.
pub record Accepts (sv : SecurityServices) : Type 0 where
  pub fresh : History → Cluster
  pub get_cluster : (h : History) → sv.core.get_cluster h ≡ ok (fresh h)
  pub put_status : (h : History) (s : ClusterStatus) → sv.core.put_status h s ≡ none
  pub set_controller_reference : (h : History) → sv.set_controller_reference h ≡ none
  pub create_job : (h : History) (j : Job) → sv.create_job h j ≡ none
  pub delete_job : (h : History) (n : String) → sv.delete_job h n ≡ none

-- The job was made, and below that in the history stands a status with the conditions.
abbrev pub Started : Job → List String → History → World × Result Error Outcome → Type 0
Started wanted conditions below p =
    (p.1 ≡ ok done)
    × ((s : ClusterStatus) × (p.0.history
          ≡ written (job_created wanted) true
            ∷ read "SetControllerReference"
            ∷ status_put s true
            ∷ read "GetOpenSearchCluster"
            ∷ below)
        × (component_status s.components_status ≡ some (status_with "Running" "" conditions)))

module _ (sv : SecurityServices) where
  -- The conditions that the component gets as the job is made.
  abbrev pub conditions_for : Bool → List ComponentStatus → List String
  conditions_for reset vs =
      if reset then retry_conditions sv (pos 0) 0 else current_retry_conditions vs

module _ (sv : SecurityServices) (accepts : Accepts sv) where
  abbrev pub noted : String → String → List String → History → ClusterStatus
  noted status description cs h =
      (with_components (update_component_status (status_with status description cs))
        (accepts.fresh h)).status

  pub update_security_status-accepted :
      (status description : String) (cs : List String) (w : World)
      → update_security_status sv status description cs w
        ≡ (after_note (noted status description cs w.history) w, ok tt)
  unfolding update_security_status
  update_security_status-accepted status description cs w =
      update_status-accepted sv.core accepts.fresh accepts.get_cluster accepts.put_status _ w

  abbrev created : Job → World → Option Error → World × Result Error Outcome
  created wanted w o =
      continue (log w (written (job_created wanted) (accepted o)), unless o) (λ _. pure done)

  abbrev owned : Job → World → Option Error → World × Result Error Outcome
  owned wanted w o =
      continue (log w (read "SetControllerReference"), unless o)
        (λ _ v. created wanted v (sv.create_job v.history wanted))

  start_job-accepted :
      (wanted : Job) (reset : Bool) (w : World)
      → start_job sv wanted reset w ≡ (
        log
            (log
              (after_note (noted "Running" "" (conditions_for sv reset w.components) w.history) w)
              (read "SetControllerReference"))
            (written (job_created wanted) true),
        ok done,
      )
  unfolding start_job
  start_job-accepted wanted reset w =
      let cs = conditions_for sv reset w.components in
      let v = after_note (noted "Running" "" cs w.history) w in
      let u = log v (read "SetControllerReference") in
      ap (λ p. continue p (λ _ x. owned wanted x (sv.set_controller_reference x.history)))
        (update_security_status-accepted "Running" "" cs w)
      ∙ ap (owned wanted v) (accepts.set_controller_reference v.history)
      ∙ ap (created wanted u) (accepts.create_job u.history wanted)

  pub start_job-Started :
      (wanted : Job) (reset : Bool) (w : World)
      → Started wanted
          (conditions_for sv reset w.components)
          w.history
          (start_job sv wanted reset w)
  start_job-Started wanted reset w =
      let cs = conditions_for sv reset w.components in
      rw (start_job-accepted wanted reset w) (
        refl,
        (
          noted "Running" "" cs w.history,
          refl,
          component_status-update_component_status (status_with "Running" "" cs)
              (accepts.fresh w.history).status.components_status refl,
        ),
      )
