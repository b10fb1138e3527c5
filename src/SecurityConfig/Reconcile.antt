-- ===== src/SecurityConfig/Reconcile.antt =====
-- Reconcile of the security configuration (pkg/reconcilers/securityconfig.go). Events for the recorder
-- are left out.
use opensearch_k8s_operator.Prelude.{
  Bool, true, false, not, ◌||◌, Option, none, some, [], ◌∷◌, ◌++◌, String, ◌<>◌, ◌==◌,
  if◌then◌else◌,
}
use opensearch_k8s_operator.Prelude.Int.{pos}
use opensearch_k8s_operator.Api.{Error, not_found, failed, Cluster, ClusterStatus, Outcome}
use opensearch_k8s_operator.Api.Tls.{SecurityConfig}
use opensearch_k8s_operator.Api.Objects.{Secret, Job}
use opensearch_k8s_operator.Exec.{
  Result, ok, err, Exec, M, pure, raise, ◌>>=◌, ◌>>◌, attempt, failing,
}
use opensearch_k8s_operator.Services.Calls.{update_status}
use opensearch_k8s_operator.Util.{done, requeue_in}
use opensearch_k8s_operator.Helpers.Security.{
  is_security_plugin_enabled, tls_ca_secret_ref, generated_security_config_secret_name,
}
use opensearch_k8s_operator.Restart.Run.{Reconcile}
use opensearch_k8s_operator.SecurityConfig.{
  SecurityServices, get_secret, put_secret, set_controller_reference,
}
use opensearch_k8s_operator.SecurityConfig.Secrets.{
  config_of, ensure_admin_credentials_secret, build_generated_security_config_secret,
}
use opensearch_k8s_operator.SecurityConfig.Command.{
  ReconcilerContext, build_cmd_arg, build_full_command, checksum, securityconfig_subpaths,
}
use opensearch_k8s_operator.SecurityConfig.Update.{reconcile_job}

abbrev pub admin_secret_of : Option SecurityConfig → String
admin_secret_of none = ""
admin_secret_of (some c) = c.admin_secret

-- NewSecurityconfigUpdateJob (pkg/builders/cluster.go), without the settings of the pod that are
-- copied from the spec.
unfoldable pub new_securityconfig_update_job :
    String → String → String → String → String → ReconcilerContext → Job
new_securityconfig_update_job job_name checksum admin_cert_name admin_ca_secret_name cmd_arg
      context =
    record {
      name = job_name;
      checksum_annotation = some checksum;
      admin_secret = admin_cert_name;
      admin_ca_secret = admin_ca_secret_name;
      command = cmd_arg;
      volumes = context.volumes ++ (record { name = "admin-cert"; secret = admin_cert_name } ∷ []);
      mounts =
          context.mounts ++ (record { name = "admin-cert"; path = "/certs"; sub_path = "" } ∷ []);
      active = pos 0;
      succeeded = pos 0;
      failed = pos 0;
    }

module _ (sv : SecurityServices) (instance' : Cluster) where
  unfoldable pub determine_admin_secret : String
  determine_admin_secret =
      let given = admin_secret_of (config_of instance'.security) in
      if not (given == "")
      then given
      else if is_security_plugin_enabled sv.versions instance'
      then instance'.name <> "-admin-cert"
      else ""

  unfoldable pub determine_admin_ca_secret : String → String
  determine_admin_ca_secret admin_secret_name =
      let name = tls_ca_secret_ref sv.versions instance' in
      if name == "" || name == admin_secret_name then "" else name

  -- The change of a flag of the status, made only if it differs.
  unfoldable pub set_flag : Bool → (ClusterStatus → ClusterStatus) → M (Unit {0})
  set_flag needed f =
      if needed then update_status sv.core (λ c. record c { status = f c.status }) else pure tt

  abbrev differ : Bool → Bool → Bool
  differ true b = not b
  differ false b = b

  -- The secret that holds the configuration, generated anew.
  unfoldable pub apply_generated : Exec (Outcome × Error) (Unit {0})
  apply_generated = do
    (admin_credentials, managed) ←
        failing (requeue_in 30) (ensure_admin_credentials_secret sv instance')
    failing done (
        set_flag (differ managed instance'.status.admin_secret_created)
          (λ s. record s { admin_secret_created = managed }))
    generated ←
        failing (requeue_in 30)
          (build_generated_security_config_secret sv instance' admin_credentials)
    failing done (set_controller_reference sv)
    failing done (put_secret sv generated)
    failing done (
        set_flag (not instance'.status.context_secret_created)
          (λ s. record s { context_secret_created = true }))

  abbrev wanted_command : Secret → String
  wanted_command secret =
      let cmd_arg = build_cmd_arg sv instance' secret in
      if not instance'.status.initialized || cmd_arg == ""
      then build_full_command sv instance'
      else cmd_arg

  unfoldable pub wanted_job : ReconcilerContext → Secret → Job
  wanted_job context secret =
      new_securityconfig_update_job (instance'.name <> "-securityconfig-update")
        (checksum sv secret.entries) determine_admin_secret
        (determine_admin_ca_secret determine_admin_secret) (wanted_command secret)
        (securityconfig_subpaths sv instance' secret context)

  -- The part from the generated secret on, as it was read.
  abbrev pub on_config : ReconcilerContext → Result Error Secret → Reconcile
  on_config context (ok secret) =
      failing done (reconcile_job sv (checksum sv secret.entries) (wanted_job context secret))
  on_config context (err e) = elim e [
    | not_found ↦ pure (requeue_in 10)
    | e ↦ raise (requeue_in 10, e)
  ]

  unfoldable pub reconcile_security : ReconcilerContext → Reconcile
  reconcile_security context =
      if not (is_security_plugin_enabled sv.versions instance')
      then pure done
      else if determine_admin_secret == ""
      then raise (done, failed "admin certificate neither provided nor generation is enabled")
      else (do
        apply_generated
        config ←
            failing (requeue_in 10)
              (attempt (get_secret sv (generated_security_config_secret_name instance')))
        on_config context config)
