-- ===== src/SecurityConfig/Update/Due.antt =====
-- The jobs that are made again, and that they are.
use opensearch_k8s_operator.Prelude.{
  ℕ, ◌+◌, ◌≤◌, ◌≡◌, refl, ap, Bool, true, false, not, ◌⊎◌, inl, inr, Option, none, List, ◌∷◌,
  String, nat_eq, ltb, Bool-cases, arith,
}
use opensearch_k8s_operator.Prelude.Int.{pos, ◌<ℤ◌}
use opensearch_k8s_operator.Api.{
  Error, not_found, conflict, panic, api, failed, ComponentStatus, Outcome,
}
use opensearch_k8s_operator.Api.Objects.{Job, job_removed}
use opensearch_k8s_operator.Exec.{
  read, written, History, World, Result, ok, err, continue, pure, log, accepted, unless,
}
use opensearch_k8s_operator.Services.Status.{after_note}
use opensearch_k8s_operator.SecurityConfig.{SecurityServices}
use opensearch_k8s_operator.SecurityConfig.Retry.{
  retry_delay, next_count, retry_count, last_retry, retry_conditions,
}
use opensearch_k8s_operator.SecurityConfig.Update.{
  create, has_checksum, in_backoff, note_retry, handle_failed, handle_existing, remove_old, proceed,
  reconcile_job,
}
use opensearch_k8s_operator.SecurityConfig.Update.Found.{resume, reconcile_job-resume}
use opensearch_k8s_operator.SecurityConfig.Update.Starts.{
  Accepts, Started, noted, update_security_status-accepted, conditions_for, start_job-Started,
}

late : (t limit : ℕ) → limit ≤ t → ltb t limit ≡ false
late t limit h = ground arith

module _ (sv : SecurityServices) where
  -- A job that failed, and that was not tried again before, or whose delay since then is over at
  -- any reading of the clock.
  abbrev pub Expired : Job → List ComponentStatus → Type 0
  Expired job vs =
      ((pos 0 <ℤ job.succeeded) ≡ false)
      × ((pos 0 <ℤ job.active) ≡ false)
      × ((pos 0 <ℤ job.failed) ≡ true)
      × ((nat_eq (last_retry sv vs) 0 ≡ true)
          ⊎ ((h : History) → retry_delay (retry_count vs) + last_retry sv vs ≤ sv.now h))

  -- What GetJob answers when the job is to be made: an error, a job for another checksum, or one
  -- that failed and has waited.
  abbrev pub Due : String → List ComponentStatus → Result Error Job → Type 0
  Due checksum vs (err panic) = ⊥
  Due checksum vs (err not_found) = Unit {0}
  Due checksum vs (err conflict) = Unit {0}
  Due checksum vs (err (api s)) = Unit {0}
  Due checksum vs (err (failed s)) = Unit {0}
  Due checksum vs (ok job) =
      (has_checksum checksum job.checksum_annotation ≡ false)
      ⊎ ((has_checksum checksum job.checksum_annotation ≡ true) × Expired job vs)

  -- Whether the count of retries starts again.
  abbrev pub resets : String → Result Error Job → Bool
  resets checksum (err e) = false
  resets checksum (ok job) = not (has_checksum checksum job.checksum_annotation)

  -- A job that is there is removed before anything else that the new one needs.
  abbrev pub RemovedFirst : Result Error Job → History → Type 0
  RemovedFirst (err e) below = Unit {0}
  RemovedFirst (ok job) below = (h : History) × (below ≡ written (job_removed job.name) true ∷ h)

  module _ (accepts : Accepts sv) where
    -- The run up to the point where the job is made anew.
    abbrev Clears : World × Result Error (Option Outcome) → World → Type 0
    Clears p w = (v : World) × (p ≡ (v, ok none)) × (v.components ≡ w.components)

    note_retry-Clears : (w : World) → Clears (note_retry sv (retry_count w.components) w) w
    unfolding note_retry
    note_retry-Clears w =
        let v = log w (read "time.Now") in
        let cs = retry_conditions sv (next_count (retry_count w.components)) (sv.now w.history) in
        let failure : String = "securityconfig update job failed" in
        (
          after_note (noted sv accepts "Failed" failure cs v.history) v,
          ap (λ p. continue p (λ _. pure none))
              (update_security_status-accepted sv accepts "Failed" failure cs v),
          refl,
        )

    handle_failed-Clears :
        (w : World)
        → (nat_eq (last_retry sv w.components) 0 ≡ true)
          ⊎ ((h : History)
              → retry_delay (retry_count w.components) + last_retry sv w.components ≤ sv.now h)
        → Clears (handle_failed sv w) w
    unfolding handle_failed in_backoff
    handle_failed-Clears w s = elim (Bool-cases (nat_eq (last_retry sv w.components) 0)) [
      | inl z ↦ rw z (note_retry-Clears w)
      | inr z ↦ rw z (elim s [
        | inl x ↦ absurd (cc)
        | inr t ↦ rw (late _ _ (t w.history)) (note_retry-Clears (log w (read "time.Now")))
      ])
    ]

    handle_existing-Clears :
        (job : Job) (w : World) → Expired job w.components → Clears (handle_existing sv job w) w
    unfolding handle_existing
    handle_existing-Clears job w (s, a, f, t) = rw s (rw a (rw f (handle_failed-Clears w t)))

    abbrev removing : Job → Job → Bool → World → Option Error → World × Result Error Outcome
    removing job wanted reset v o =
        continue
          (continue (log v (written (job_removed job.name) (accepted o)), unless o)
            (λ _. pure (create reset)))
          (proceed sv wanted)

    remove_old-Started :
        (job wanted : Job) (reset : Bool) (v : World)
        → (h : History) × Started wanted
            (conditions_for sv reset v.components)
            h
            (continue (remove_old sv job reset v) (proceed sv wanted))
          × RemovedFirst (ok job) h
    remove_old-Started job wanted reset v =
        let u = log v (written (job_removed job.name) true) in
        rw (ap (removing job wanted reset v) (accepts.delete_job v.history job.name))
          (u.history, start_job-Started sv accepts wanted reset u, (v.history, refl))

    resume-Started :
        (checksum : String) (wanted : Job) (w : World) (r : Result Error Job)
        → Due checksum w.components r
        → (h : History) × Started wanted
            (conditions_for sv (resets checksum r) w.components)
            h
            (resume sv checksum wanted w r)
          × RemovedFirst r h
    resume-Started checksum wanted w (err panic) d = absurd d
    resume-Started checksum wanted w (err not_found) d =
        (_, start_job-Started sv accepts wanted false (log w (read "GetJob")), tt)
    resume-Started checksum wanted w (err conflict) d =
        (_, start_job-Started sv accepts wanted false (log w (read "GetJob")), tt)
    resume-Started checksum wanted w (err (api s)) d =
        (_, start_job-Started sv accepts wanted false (log w (read "GetJob")), tt)
    resume-Started checksum wanted w (err (failed s)) d =
        (_, start_job-Started sv accepts wanted false (log w (read "GetJob")), tt)
    resume-Started checksum wanted w (ok job) (inl c) =
        rw c (remove_old-Started job wanted true (log w (read "GetJob")))
    resume-Started checksum wanted w (ok job) (inr (c, x)) =
        let (v, e, k) = handle_existing-Clears job (log w (read "GetJob")) x in
        rw (c, e, ← k) (remove_old-Started job wanted false v)

    -- If GetJob answers an error that is no panic, or a job for another checksum, or one that failed
    -- and whose delay is over, and the cluster can be read and every write is accepted, then the run
    -- succeeds and makes the wanted job: a job that is there is removed, then the component is set to
    -- Running, with its earlier conditions or, for another checksum, with a count of zero, then the
    -- job is made.
    pub reconcile_job-starts :
        (checksum : String) (wanted : Job) (w : World)
        → Due checksum w.components (sv.get_job w.history wanted.name)
        → (h : History) × Started wanted
            (conditions_for sv (resets checksum (sv.get_job w.history wanted.name)) w.components)
            h
            (reconcile_job sv checksum wanted w)
          × RemovedFirst (sv.get_job w.history wanted.name) h
    reconcile_job-starts checksum wanted w d =
        let r = sv.get_job w.history wanted.name in
        rw (reconcile_job-resume sv checksum wanted w r refl) (resume-Started checksum wanted w r d)
