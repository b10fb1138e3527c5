-- ===== src/SecurityConfig.antt =====
-- The security configuration (pkg/reconcilers/securityconfig.go): the secrets that it stands on, the
-- command that applies it, and the job that runs the command.
pub mod Retry
pub mod Secrets
pub mod Command
pub mod Update
pub mod Reconcile
use opensearch_k8s_operator.Prelude.{ℕ, Bool, Option, List, String}
use opensearch_k8s_operator.Prelude.Int.{ℤ}
use opensearch_k8s_operator.Api.{Error}
use opensearch_k8s_operator.Api.Objects.{Secret, Job, secret_put, job_created, job_removed}
use opensearch_k8s_operator.Exec.{written, History, Result, ok, M, query, command, unless}
use opensearch_k8s_operator.Services.{Services}
use opensearch_k8s_operator.Helpers.Security.{Versions}

-- What internal_users.yml is decoded into.
pub record UserEntry : Type 0 where
  pub hash : String
  pub reserved : Bool
  pub backend_roles : List String
  pub description : String

pub record InternalUserConfig : Type 0 where
  pub kind : String
  pub config_version : ℤ
  pub admin : UserEntry
  pub kibanaserver : Option UserEntry

-- The calls, and the libraries: the two for versions, YAML and bcrypt, whose hashes are salted.
-- A time is counted in whole seconds from the zero value of time.Time, as RFC 3339 has it in the
-- conditions; `format` and `parse` are those of package time at that layout.
pub record SecurityServices : Type 0 where
  pub core : Services
  pub versions : Versions
  pub get_secret : History → String → Result Error Secret
  -- CreateSecret and ReconcileResource, which apply the secret
  pub put_secret : History → Secret → Option Error
  pub set_controller_reference : History → Option Error
  pub get_job : History → String → Result Error Job
  pub create_job : History → Job → Option Error
  pub delete_job : History → String → Option Error
  pub now : History → ℕ
  pub random_text : History → String
  pub format : ℕ → String
  pub parse : String → Option ℕ
  pub dns_base : Option String
  -- base64 of sha1
  pub digest : String → String
  pub unmarshal : String → Result Error InternalUserConfig
  pub marshal : InternalUserConfig → Result Error String
  pub matches : String → String → Bool
  pub hash_password : History → String → Result Error String

module _ (sv : SecurityServices) where
  abbrev pub get_secret : String → M Secret
  get_secret name = query "GetSecret" (λ h. sv.get_secret h name)

  abbrev pub put_secret : Secret → M (Unit {0})
  put_secret s = command (written (secret_put s)) (λ h. sv.put_secret h s)

  abbrev pub set_controller_reference : M (Unit {0})
  set_controller_reference =
      query "SetControllerReference" (λ h. unless (sv.set_controller_reference h))

  abbrev pub get_job : String → M Job
  get_job name = query "GetJob" (λ h. sv.get_job h name)

  abbrev pub create_job : Job → M (Unit {0})
  create_job j = command (written (job_created j)) (λ h. sv.create_job h j)

  -- DeleteJob waits until the job is gone.
  abbrev pub delete_job : String → M (Unit {0})
  delete_job name = command (written (job_removed name)) (λ h. sv.delete_job h name)

  abbrev pub now : M ℕ
  now = query "time.Now" (λ h. ok (sv.now h))

  abbrev pub random_text : M String
  random_text = query "rand.Text" (λ h. ok (sv.random_text h))

  abbrev pub hash_password : String → M String
  hash_password p = query "bcrypt.GenerateFromPassword" (λ h. sv.hash_password h p)
