-- ===== src/SecurityConfig/Update/Found.antt =====
-- The run of the job's part from the answer of GetJob on.
use opensearch_k8s_operator.Prelude.{◌≡◌, ap, String}
use opensearch_k8s_operator.Api.{Error, Outcome}
use opensearch_k8s_operator.Api.Objects.{Job}
use opensearch_k8s_operator.Exec.{read, World, Result, continue, ◌>>=◌, caught, log}
use opensearch_k8s_operator.SecurityConfig.{SecurityServices}
use opensearch_k8s_operator.SecurityConfig.Update.{examine, proceed, reconcile_job}

module _ (sv : SecurityServices) (checksum : String) (wanted : Job) where
  abbrev pub resume : World → Result Error Job → World × Result Error Outcome
  resume w r =
      continue (caught (log w (read "GetJob"), r))
        (λ found. examine sv checksum found >>= proceed sv wanted)

  pub reconcile_job-resume :
      (w : World) (r : Result Error Job)
      → sv.get_job w.history wanted.name ≡ r
      → reconcile_job sv checksum wanted w ≡ resume w r
  unfolding reconcile_job
  reconcile_job-resume w r g = ap (resume w) g
