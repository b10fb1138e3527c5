-- ===== src/Tests/SecurityConfig.antt =====
-- The security configuration: a job that failed before.
use mathlib.Core.List.{Permᴰ}
use opensearch_k8s_operator.Prelude.{
  ℕ, ◌*◌, ◌^◌, ◌≤◌, ◌<◌, ◌≡◌, refl, true, Option, none, some, inl, inr, List, [], ◌∷◌, String,
  arith, ◌==◌, Bool-cases, eq_iff, if◌then◌else◌,
}
use opensearch_k8s_operator.Prelude.Int.{ℤ, pos, negsuc}
use opensearch_k8s_operator.Text.{show_ℕ, atoi, digit, digits_value}
use opensearch_k8s_operator.Text.Prefix.{strip_prefix}
use opensearch_k8s_operator.Api.{Error, not_found, ClusterStatus}
use opensearch_k8s_operator.Api.Objects.{Secret, Job, job_created}
use opensearch_k8s_operator.Exec.{read, status_put, written, World, Result, ok, err, History}
use opensearch_k8s_operator.Exec.Emits.{Extends}
use opensearch_k8s_operator.Exec.Yields.{Yields}
use opensearch_k8s_operator.Restart.Run.{update_component_status}
use opensearch_k8s_operator.SecurityConfig.{InternalUserConfig, SecurityServices}
use opensearch_k8s_operator.SecurityConfig.Retry.{
  status_with, retry_delay, retry_count, last_retry, retry_conditions,
}
use opensearch_k8s_operator.SecurityConfig.Retry.Delay.{retry_delay-closed_form}
use opensearch_k8s_operator.SecurityConfig.Retry.Conditions.{retry_conditions-round_trip}
use opensearch_k8s_operator.SecurityConfig.Update.{reconcile_job}
use opensearch_k8s_operator.SecurityConfig.Update.Settled.{
  KeepsJobs, Settled, reconcile_job-Settled,
}
use opensearch_k8s_operator.SecurityConfig.Update.Starts.{Accepts, Started, conditions_for}
use opensearch_k8s_operator.SecurityConfig.Update.Due.{
  Expired, resets, RemovedFirst, reconcile_job-starts,
}
use opensearch_k8s_operator.SecurityConfig.Update.Forgets.{SameRetry, reconcile_job-forgets}
use opensearch_k8s_operator.Objects.User.{value_at, with_value}
use opensearch_k8s_operator.SecurityConfig.Command.{
  keys, ReconcilerContext, build_cmd_arg, checksum, securityconfig_subpaths,
}
use opensearch_k8s_operator.SecurityConfig.Command.Order.{SameMap, build_cmd_arg-order}
use opensearch_k8s_operator.Helpers.Security.{
  generated_security_config_secret_name, generated_dashboards_credentials_secret_name,
}
use opensearch_k8s_operator.SecurityConfig.Secrets.{
  default_internal_users, default_securityconfig_data, secret_of, with_hashes,
  build_generated_security_config_secret,
}
use opensearch_k8s_operator.SecurityConfig.Secrets.Kept.{Steady, build_generated-kept}
use opensearch_k8s_operator.Tests.Data.{cluster, services}

abbrev nat_of : Option ℤ → Option ℕ
nat_of (some (pos n)) = some n
nat_of _ = none

abbrev job_of : Job
job_of = record {
  name = "os-securityconfig-update";
  checksum_annotation = some "sum";
  admin_secret = "os-admin-cert";
  admin_ca_secret = "";
  command = "run";
  volumes = [];
  mounts = [];
  active = pos 0;
  succeeded = pos 0;
  failed = pos 1;
}

abbrev no_users : InternalUserConfig
no_users = record {
  kind = "internalusers";
  config_version = pos 2;
  admin = record { hash = ""; reserved = true; backend_roles = []; description = "" };
  kibanaserver = none;
}

-- The clock stands still. A time is formatted as its number.
abbrev at_time : ℕ → SecurityServices
at_time t = record {
  core = services;
  versions = record {
    semver_check = λ c v. some true;
    segments = λ v. some (pos 2 ∷ []);
    version_check = λ c v. some true;
  };
  get_secret = λ h n. err not_found;
  put_secret = λ h s. none;
  set_controller_reference = λ h. none;
  get_job = λ h n. ok job_of;
  create_job = λ h j. none;
  delete_job = λ h n. none;
  now = λ h. t;
  random_text = λ h. "random";
  format = show_ℕ;
  parse = λ s. nat_of (atoi s);
  dns_base = none;
  digest = λ s. s;
  unmarshal = λ s. ok no_users;
  marshal = λ c. ok "users";
  matches = λ h p. true;
  hash_password = λ h p. ok "hash";
}

abbrev retried_twice : World
retried_twice = record {
  history = [];
  components =
      status_with "Failed" "securityconfig update job failed" ("retry:2" ∷ "lastRetry:5000" ∷ [])
      ∷ [];
}

reads_retry :
    (t : ℕ)
    → (retry_count retried_twice.components ≡ pos 2)
      × (last_retry (at_time t) retried_twice.components ≡ 5000)
unfolding retry_count last_retry strip_prefix atoi digits_value
reads_retry t = (refl, refl)

delay_twice : retry_delay (pos 2) ≡ 120
unfolding retry_delay
delay_twice = refl

waits : Settled (at_time 5060) job_of retried_twice.components
waits = inr (
    inr (
      inr (
        rw (reads_retry 5060).1 refl,
        λ h. rw ((reads_retry 5060).1, (reads_retry 5060).0, delay_twice) (omega arith),
      )))

-- 60 seconds after the second retry the job is left alone.
reconcile_job-Settled_example :
    Extends KeepsJobs [] (reconcile_job (at_time 5060) "sum" job_of retried_twice).0.history
reconcile_job-Settled_example =
    reconcile_job-Settled (at_time 5060) "sum" job_of job_of retried_twice refl refl waits

-- A thousand seconds after it, the job is made again.
expired : Expired (at_time 6000) job_of retried_twice.components
expired = (
  refl,
  refl,
  refl,
  inr (λ h. rw ((reads_retry 6000).1, (reads_retry 6000).0, delay_twice) (omega arith)),
)

accepting : Accepts (at_time 6000)
accepting = record {
  fresh = λ h. cluster;
  get_cluster = λ h. refl;
  put_status = λ h s. refl;
  set_controller_reference = λ h. refl;
  create_job = λ h j. refl;
  delete_job = λ h n. refl;
}

reconcile_job-starts_example :
    (h : History) × Started job_of
      (conditions_for
        (at_time 6000)
        (resets (at_time 6000) "sum" (ok job_of))
        retried_twice.components)
      h
      (reconcile_job (at_time 6000) "sum" job_of retried_twice)
    × RemovedFirst (at_time 6000) (ok job_of) h
reconcile_job-starts_example =
    reconcile_job-starts (at_time 6000) accepting "sum" job_of retried_twice (inr (refl, expired))

reconcile_job-forgets_example :
    (s : ClusterStatus) × (below : History) × ((reconcile_job
        (at_time 6000)
        "sum"
        job_of
        retried_twice).0.history
      ≡ written (job_created job_of) true
        ∷ read "SetControllerReference"
        ∷ status_put s true
        ∷ read "GetOpenSearchCluster"
        ∷ below)
    × SameRetry (at_time 6000) s.components_status retried_twice.components
reconcile_job-forgets_example =
    reconcile_job-forgets (at_time 6000) accepting "sum" job_of job_of retried_twice refl refl
      expired

retry_conditions-round_trip_example :
    let vs =
      update_component_status
        (status_with "Failed" "" (retry_conditions (at_time 0) (pos 3) 7000))
        retried_twice.components in
    (retry_count vs ≡ pos 3) × (last_retry (at_time 0) vs ≡ 7000)
unfolding atoi digits_value show_ℕ digit
retry_conditions-round_trip_example =
    retry_conditions-round_trip (at_time 0) "Failed" "" 3 7000 retried_twice.components
      (omega arith) refl

retry_delay-closed_form_example :
    (30 * 2 ^ 3 < 900 → retry_delay (pos 3) ≡ 30 * 2 ^ 3)
    × (900 ≤ 30 * 2 ^ 3 → retry_delay (pos 3) ≡ 900)
    × (30 ≤ retry_delay (negsuc 4))
    × (retry_delay (negsuc 4) ≤ 900)
retry_delay-closed_form_example = retry_delay-closed_form (negsuc 4) 3

abbrev files_secret : List (String × String) → Secret
files_secret entries = record {
  name = "os-security-config-generated";
  resource_version = "";
  annotations = [];
  entries = entries;
}

abbrev two_files : List (String × String)
two_files = ("roles.yml", "a") ∷ ("config.yml", "b") ∷ []

abbrev two_files_swapped : List (String × String)
two_files_swapped = ("config.yml", "b") ∷ ("roles.yml", "a") ∷ []

two_files-SameMap : SameMap two_files two_files_swapped
unfolding keys value_at
two_files-SameMap = (
  Permᴰ.swap refl refl,
  λ k. elim (Bool-cases ("roles.yml" == k)) [
    | inl e ↦ rw (← (eq_iff "roles.yml" k).0 e) refl
    | inr e ↦ rw e refl
  ],
)

abbrev no_context : ReconcilerContext
no_context = record { volumes = []; mounts = [] }

build_cmd_arg-order_example :
    (build_cmd_arg (at_time 0) cluster (files_secret two_files)
      ≡ build_cmd_arg (at_time 0) cluster (files_secret two_files_swapped))
    × (checksum (at_time 0) two_files ≡ checksum (at_time 0) two_files_swapped)
    × (securityconfig_subpaths (at_time 0) cluster (files_secret two_files) no_context
        ≡ securityconfig_subpaths (at_time 0) cluster (files_secret two_files_swapped) no_context)
build_cmd_arg-order_example =
    build_cmd_arg-order (at_time 0) cluster no_context (files_secret two_files)
      (files_secret two_files_swapped) refl two_files-SameMap

-- The text of the users is the one of the two hashes.
abbrev hashed_users : InternalUserConfig
hashed_users = with_hashes "hash" "hash" no_users

-- One secret holds the two passwords, another what was generated.
abbrev passwords : Secret
passwords = record {
  name = "os-admin-password";
  resource_version = "";
  annotations = [];
  entries = ("password", "secret") ∷ [];
}

abbrev generated_before : Secret
generated_before = files_secret (("internal_users.yml", "hashed") ∷ [])

abbrev secret_at : String → Result Error Secret
secret_at n = if n == "os-security-config-generated" then ok generated_before else ok passwords

abbrev decoded : String → Result Error InternalUserConfig
decoded s = if s == "hashed" then ok hashed_users else ok no_users

abbrev steady_services : SecurityServices
steady_services = record (at_time 0) {
  get_secret = λ h n. secret_at n;
  unmarshal = decoded;
  marshal = λ c. ok "hashed";
}

steady :
    Steady steady_services cluster passwords passwords passwords generated_before no_users "secret"
      "secret" "hash" "hash" "hashed"
unfolding default_securityconfig_data value_at with_value generated_security_config_secret_name
    generated_dashboards_credentials_secret_name
steady = record {
  get_user = λ h e. absurd (cc);
  get_dashboards = λ h. refl;
  get_generated = λ h. refl;
  has_admin = refl;
  has_dashboards = refl;
  not_empty = refl;
  source = default_internal_users;
  has_source = refl;
  decoded = refl;
  was = refl;
  encoded = refl;
  read_back = refl;
  admin_hashed = refl;
  dashboards_hashed = refl;
  admin_matches = refl;
  dashboards_matches = refl;
}

build_generated-kept_example :
    Yields
      (secret_of (generated_security_config_secret_name cluster) generated_before.entries)
      (build_generated_security_config_secret steady_services cluster passwords)
build_generated-kept_example = build_generated-kept steady
