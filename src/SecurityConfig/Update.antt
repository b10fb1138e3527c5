-- ===== src/SecurityConfig/Update.antt =====
-- The job that applies the security configuration: what becomes of the one that is there, and when a
-- new one is made (pkg/reconcilers/securityconfig.go). Events for the recorder are left out.
pub mod Found
pub mod Settled
pub mod Starts
pub mod Due
pub mod Forgets
use opensearch_k8s_operator.Prelude.{
  ℕ, ◌+◌, ◌-◌, Bool, true, false, Option, none, some, List, [], String, ◌==◌, ltb, nat_eq,
  if◌then◌else◌,
}
use opensearch_k8s_operator.Prelude.Int.{ℤ, pos, ◌<ℤ◌}
use opensearch_k8s_operator.Api.{Error, Outcome}
use opensearch_k8s_operator.Api.Objects.{Job}
use opensearch_k8s_operator.Exec.{Result, ok, err, M, pure, ◌>>=◌, ◌>>◌, attempt}
use opensearch_k8s_operator.Services.Calls.{update_status}
use opensearch_k8s_operator.Util.{done, requeue_in}
use opensearch_k8s_operator.Scaler.Node.{with_components}
use opensearch_k8s_operator.Scaler.Pool.{held}
use opensearch_k8s_operator.Restart.Run.{update_component_status}
use opensearch_k8s_operator.SecurityConfig.{
  SecurityServices, get_job, create_job, delete_job, set_controller_reference, now,
}
use opensearch_k8s_operator.SecurityConfig.Retry.{
  status_with, retry_delay, next_count, retry_count, last_retry, retry_conditions,
  current_retry_conditions,
}

abbrev pub has_checksum : String → Option String → Bool
has_checksum checksum none = false
has_checksum checksum (some c) = c == checksum

-- Whether the run is over, or the job is to be made, and then whether the count starts again.
pub data Next : Type 0 where
  stop : Outcome → Next
  create : Bool → Next

module _ (sv : SecurityServices) where
  unfoldable pub update_security_status : String → String → List String → M (Unit {0})
  update_security_status status description conditions =
      update_status sv.core
        (with_components (update_component_status (status_with status description conditions)))

  -- Whether there was a retry, less than the delay ago. The clock is read only if there was one.
  unfoldable pub in_backoff : ℕ → ℕ → M Bool
  in_backoff last delay =
      if nat_eq last 0 then pure false else (do t ← now sv; pure (ltb t (delay + last)))

  -- The clock is read again for what is left of the delay. Go's negative delay is 0 here; both mean
  -- that the result asks for the next run without a delay.
  unfoldable pub wait_backoff : ℤ → ℕ → M (Option Outcome)
  wait_backoff count last = do
    t ← now sv
    update_security_status "Failed" "securityconfig update job failed"
        (retry_conditions sv count last)
    pure (some (requeue_in (retry_delay count + last - t)))

  unfoldable pub note_retry : ℤ → M (Option Outcome)
  note_retry count = do
    t ← now sv
    update_security_status "Failed" "securityconfig update job failed"
        (retry_conditions sv (next_count count) t)
    pure none

  unfoldable pub handle_failed : M (Option Outcome)
  handle_failed = do
    components ← held
    waits ← in_backoff (last_retry sv components) (retry_delay (retry_count components))
    if waits
        then wait_backoff (retry_count components) (last_retry sv components)
        else note_retry (retry_count components)

  -- handleExistingSecurityConfigJob; `none` means that the job is to be made again.
  unfoldable pub handle_existing : Job → M (Option Outcome)
  handle_existing job =
      if pos 0 <ℤ job.succeeded
      then (do update_security_status "Ready" "" []; pure (some done))
      else if pos 0 <ℤ job.active
      then (do update_security_status "Running" "" []; pure (some (requeue_in 30)))
      else if pos 0 <ℤ job.failed
      then handle_failed
      else (do update_security_status "Running" "" []; pure (some (requeue_in 10)))

  abbrev pub remove_old : Job → Bool → M Next
  remove_old job reset = do delete_job sv job.name; pure (create reset)

  abbrev pub after_existing : Job → Option Outcome → M Next
  after_existing job (some result) = pure (stop result)
  after_existing job none = remove_old job false

  -- Any error of GetJob is taken for a job that is not there.
  abbrev pub examine : String → Result Error Job → M Next
  examine checksum (err e) = pure (create false)
  examine checksum (ok job) =
      if has_checksum checksum job.checksum_annotation
      then (do result ← handle_existing job; after_existing job result)
      else remove_old job true

  unfoldable pub start_job : Job → Bool → M Outcome
  start_job job reset = do
    components ← held
    update_security_status "Running" ""
        (if reset then retry_conditions sv (pos 0) 0 else current_retry_conditions components)
    set_controller_reference sv
    create_job sv job
    pure done

  abbrev pub proceed : Job → Next → M Outcome
  proceed job (stop result) = pure result
  proceed job (create reset) = start_job job reset

  -- The part of Reconcile from GetJob on; `job` is the one that is wanted.
  unfoldable pub reconcile_job : String → Job → M Outcome
  reconcile_job checksum job = do
    found ← attempt (get_job sv job.name)
    next ← examine checksum found
    proceed job next
