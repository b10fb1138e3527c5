-- ===== src/SecurityConfig/Update/Settled.antt =====
-- When the job is left as it is.
use opensearch_k8s_operator.Prelude.{
  ℕ, ◌+◌, ◌-◌, ◌<◌, ◌≡◌, refl, true, false, ◌⊎◌, inl, inr, Option, none, some, List, [], ◌∷◌,
  String, nat_eq, ltb, lt→ltb, Bool-cases,
}
use opensearch_k8s_operator.Prelude.Int.{ℤ, pos, ◌<ℤ◌}
use opensearch_k8s_operator.Api.{Error, ComponentStatus, Outcome}
use opensearch_k8s_operator.Api.Objects.{
  Job, object_put, object_removed, object_status_put, secret_put, job_created, job_removed,
}
use opensearch_k8s_operator.Exec.{
  Event, read, pod_deleted, sts_applied, sts_removed, sts_status_put, status_put, settings_put,
  written, History, World, Result, continue, ok, err, pure, ◌>>◌, log,
}
use opensearch_k8s_operator.Exec.Emits.{
  Emits, Extends, Extends-trans, Emits-pure, Emits-if, Emits-bind, Emits-query,
}
use opensearch_k8s_operator.Exec.Returns.{Post, Returns, Returns-pure, Returns-bind}
use opensearch_k8s_operator.Util.{done, requeue_in}
use opensearch_k8s_operator.Scaler.Pool.{held}
use opensearch_k8s_operator.Services.Status.{update_status_held-Emits}
use opensearch_k8s_operator.SecurityConfig.{SecurityServices, now}
use opensearch_k8s_operator.SecurityConfig.Retry.{
  retry_delay, retry_count, last_retry, retry_conditions, next_count,
}
use opensearch_k8s_operator.SecurityConfig.Update.{
  has_checksum, update_security_status, in_backoff, wait_backoff, note_retry, handle_failed,
  handle_existing, after_existing, proceed, reconcile_job,
}
use opensearch_k8s_operator.SecurityConfig.Update.Found.{reconcile_job-resume}

-- No job is made and none is removed.
abbrev pub KeepsJobs : Event → Type 0
KeepsJobs (read s) = Unit {0}
KeepsJobs (pod_deleted n b) = Unit {0}
KeepsJobs (sts_applied s b) = Unit {0}
KeepsJobs (sts_removed n b) = Unit {0}
KeepsJobs (sts_status_put s b) = Unit {0}
KeepsJobs (status_put s b) = Unit {0}
KeepsJobs (settings_put p t b) = Unit {0}
KeepsJobs (written (object_put r n x) b) = Unit {0}
KeepsJobs (written (object_removed r n) b) = Unit {0}
KeepsJobs (written (object_status_put s) b) = Unit {0}
KeepsJobs (written (secret_put s) b) = Unit {0}
KeepsJobs (written (job_created j) b) = ⊥
KeepsJobs (written (job_removed n) b) = ⊥

abbrev Kept : Option Outcome → Type 0
Kept (some r) = Unit {0}
Kept none = ⊥

module _ (sv : SecurityServices) where
  -- A job that has succeeded, that runs, that has not come to an end, or that failed and whose delay
  -- since the last retry is not over, whatever the clock shows during the run.
  abbrev pub Settled : Job → List ComponentStatus → Type 0
  Settled job components =
      ((pos 0 <ℤ job.succeeded) ≡ true)
      ⊎ ((pos 0 <ℤ job.active) ≡ true)
      ⊎ ((pos 0 <ℤ job.failed) ≡ false)
      ⊎ ((nat_eq (last_retry sv components) 0 ≡ false)
          × ((h : History)
              → sv.now h < retry_delay (retry_count components) + last_retry sv components))

  update-Emits :
      (status description : String) (cs : List String)
      → Emits KeepsJobs (update_security_status sv status description cs)
  unfolding update_security_status
  update-Emits status description cs = update_status_held-Emits (λ c. tt) sv.core (λ s b. tt) _

  kept :
      (status description : String) (cs : List String) (r : Outcome)
      → Returns Kept (do update_security_status sv status description cs; pure (some r))
  kept status description cs r =
      Returns-bind (update_security_status sv status description cs) _
        (λ _. Returns-pure (some r) tt)

  held-Emits : Emits {E = Error} KeepsJobs held
  held-Emits = record { at = λ w. ([], refl, tt) }

  now-Emits : Emits KeepsJobs (now sv)
  now-Emits = Emits-query "time.Now" (λ h. ok (sv.now h)) tt

  in_backoff-Emits : (last delay : ℕ) → Emits KeepsJobs (in_backoff sv last delay)
  unfolding in_backoff
  in_backoff-Emits last delay =
      Emits-if (nat_eq last 0) _ _ (λ _. Emits-pure false)
        (λ _. Emits-bind _ _ now-Emits (λ t. Emits-pure (ltb t (delay + last))))

  noted-Emits :
      (status description : String) (cs : List String) (o : Option Outcome)
      → Emits KeepsJobs (do update_security_status sv status description cs; pure o)
  noted-Emits status description cs o =
      Emits-bind _ _ (update-Emits status description cs) (λ _. Emits-pure o)

  wait_backoff-Emits : (n : ℤ) (last : ℕ) → Emits KeepsJobs (wait_backoff sv n last)
  unfolding wait_backoff
  wait_backoff-Emits n last = Emits-bind _ _ now-Emits (λ t.
      noted-Emits "Failed" "securityconfig update job failed" (retry_conditions sv n last)
        (some (requeue_in (retry_delay n + last - t))))

  note_retry-Emits : (n : ℤ) → Emits KeepsJobs (note_retry sv n)
  unfolding note_retry
  note_retry-Emits n = Emits-bind _ _ now-Emits (λ t.
      noted-Emits "Failed" "securityconfig update job failed" (retry_conditions sv (next_count n) t)
        none)

  handle_failed-Emits : Emits KeepsJobs (handle_failed sv)
  unfolding handle_failed
  handle_failed-Emits = Emits-bind _ _ held-Emits (λ vs.
      Emits-bind _ _ (in_backoff-Emits (last_retry sv vs) (retry_delay (retry_count vs)))
        (λ b. Emits-if b _ _ (λ _. wait_backoff-Emits _ _) (λ _. note_retry-Emits _)))

  pub handle_existing-Emits : (job : Job) → Emits KeepsJobs (handle_existing sv job)
  unfolding handle_existing
  handle_existing-Emits job =
      Emits-if (pos 0 <ℤ job.succeeded) _ _ (λ _. noted-Emits _ _ _ _)
        (λ _.
          Emits-if (pos 0 <ℤ job.active) _ _ (λ _. noted-Emits _ _ _ _)
            (λ _.
              Emits-if (pos 0 <ℤ job.failed) _ _ (λ _. handle_failed-Emits)
                (λ _. noted-Emits _ _ _ _)))

  handle_failed-Kept :
      (w : World)
      → nat_eq (last_retry sv w.components) 0 ≡ false
      → ((h : History)
          → sv.now h < retry_delay (retry_count w.components) + last_retry sv w.components)
      → Post Kept (handle_failed sv w)
  unfolding handle_failed in_backoff wait_backoff
  handle_failed-Kept w z c = rw z (rw (lt→ltb _ _ (c w.history)) ((kept _ _ _ _).at _))

  handle_existing-Kept :
      (job : Job) (w : World) → Settled job w.components → Post Kept (handle_existing sv job w)
  unfolding handle_existing
  handle_existing-Kept job w s = elim (Bool-cases (pos 0 <ℤ job.succeeded)) [
    | inl e ↦ rw e ((kept "Ready" "" [] done).at w)
    | inr e ↦ rw e (elim (Bool-cases (pos 0 <ℤ job.active)) [
      | inl a ↦ rw a ((kept "Running" "" [] (requeue_in 30)).at w)
      | inr a ↦ rw a (elim (Bool-cases (pos 0 <ℤ job.failed)) [
        | inr f ↦ rw f ((kept "Running" "" [] (requeue_in 10)).at w)
        | inl f ↦ rw f (elim s [
          | inl x ↦ absurd (cc)
          | inr (inl x) ↦ absurd (cc)
          | inr (inr (inl x)) ↦ absurd (cc)
          | inr (inr (inr (z, c))) ↦ handle_failed-Kept w z c
        ])
      ])
    ])
  ]

  kept-Extends :
      (job wanted : Job) (h : History) (p : World × Result Error (Option Outcome))
      → Extends KeepsJobs h p.0.history
      → Post Kept p
      → Extends KeepsJobs h
          (continue (continue p (after_existing sv job)) (proceed sv wanted)).0.history
  unfolding Post
  kept-Extends job wanted h (w, ok (some r)) x k = x
  kept-Extends job wanted h (w, ok none) x k = absurd k
  kept-Extends job wanted h (w, err e) x k = x

  -- A job that was made for the same checksum is neither removed nor replaced while it has succeeded,
  -- is active, or has not come to an end, nor while it failed and the delay since the last retry is
  -- not over at any reading of the clock. Whatever the other calls answer, no job is made.
  pub reconcile_job-Settled :
      (checksum : String) (wanted job : Job) (w : World)
      → sv.get_job w.history wanted.name ≡ ok job
      → has_checksum checksum job.checksum_annotation ≡ true
      → Settled job w.components
      → Extends KeepsJobs w.history (reconcile_job sv checksum wanted w).0.history
  reconcile_job-Settled checksum wanted job w g c s =
      let v = log w (read "GetJob") in
      rw (reconcile_job-resume sv checksum wanted w (ok job) g) (
        rw c (
          kept-Extends job wanted w.history (handle_existing sv job v)
            (Extends-trans (read "GetJob" ∷ [], refl, (tt, tt)) ((handle_existing-Emits job).at v))
            (handle_existing-Kept job v s)))
