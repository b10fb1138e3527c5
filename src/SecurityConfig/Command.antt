-- ===== src/SecurityConfig/Command.antt =====
-- The command of the job, the files that it applies, and the checksum of the configuration
-- (pkg/reconcilers/securityconfig.go). Log lines are left out.
pub mod Order
use opensearch_k8s_operator.Prelude.{
  Bool, true, false, not, Option, none, some, List, [], ◌∷◌, ◌++◌, String, ◌<>◌, ◌==◌, map,
  if◌then◌else◌,
}
use opensearch_k8s_operator.Prelude.Int.{ℤ, pos}
use opensearch_k8s_operator.Text.{show_ℤ}
use opensearch_k8s_operator.Text.Order.{sort_strings}
use opensearch_k8s_operator.Api.{Cluster}
use opensearch_k8s_operator.Api.Objects.{Secret, Volume, Mount}
use opensearch_k8s_operator.Helpers.Security.{
  get_opensearch_home, dns_of_service, cluster_dns_base, version_check,
}
use opensearch_k8s_operator.Objects.User.{value_at}
use opensearch_k8s_operator.SecurityConfig.{SecurityServices}

-- The keys of a map, in the order of Go's iteration, which may be any.
unfoldable pub keys : List (String × String) → List String
keys [] = []
keys ((k, v) ∷ kvs) = k ∷ keys kvs

abbrev or_empty : Option String → String
or_empty none = ""
or_empty (some v) = v

-- What stands at a key, "" if nothing does.
abbrev pub text_at : String → List (String × String) → String
text_at k kvs = or_empty (value_at k kvs)

-- SecurityAdminBaseCmdTmpl
unfoldable pub base_command : String → String → ℤ → String
base_command home host port =
    "ADMIN="
    <> (home
        <> ("/plugins/opensearch-security/tools/securityadmin.sh;\nchmod +x $ADMIN;\nwait_count=0;\nuntil curl -k --silent https://"
            <> (host
                <> (":"
                    <> (show_ℤ port
                        <> ";\ndo\n  if (( wait_count++ >= 60 )); then\n    echo \"Failed to connect to cluster after 60 attempts\";\n    exit 1;\n  fi;\n  echo 'Waiting to connect to the cluster'; sleep 20;\ndone;")))))

abbrev certificates : String
certificates = "-cacert /certs/ca.crt -cert /certs/tls.crt -key /certs/tls.key"

abbrev attempts_tail : String
attempts_tail =
    "; do\n  if (( count++ >= 20 )); then\n    echo \"Failed to apply securityconfig after 20 attempts\";\n    exit 1;\n  fi;\n  sleep 20;\ndone;"

abbrev address : String → ℤ → String
address host port = " -icl -nhnv -h " <> (host <> (" -p " <> show_ℤ port))

-- ApplyAllYmlCmdTmpl
unfoldable pub apply_all : String → String → ℤ → String
apply_all path host port =
    "count=0;\nuntil $ADMIN "
    <> (certificates <> (" -cd " <> (path <> (address host port <> attempts_tail))))

-- ApplySingleYmlCmdTmpl
unfoldable pub apply_single : String → String → String → ℤ → String
apply_single path kind host port =
    "count=0;\nuntil $ADMIN "
    <> (certificates
        <> (" -f " <> (path <> (" -t " <> (kind <> (address host port <> attempts_tail))))))

abbrev yml_kinds : List (String × String)
yml_kinds =
    ("internal_users.yml", "internalusers")
    ∷ ("roles.yml", "roles")
    ∷ ("roles_mapping.yml", "rolesmapping")
    ∷ ("action_groups.yml", "actiongroups")
    ∷ ("tenants.yml", "tenants")
    ∷ ("nodes_dn.yml", "nodesdn")
    ∷ ("whitelist.yml", "allowlist")
    ∷ ("audit.yml", "audit")
    ∷ ("allowlist.yml", "allowlist")
    ∷ ("config.yml", "config")
    ∷ []

unfoldable pub yml_to_file_type : String → Option String
yml_to_file_type k = value_at k yml_kinds

-- The concatenation of all keys and values, in the order of the keys, which is then hashed.
unfoldable pub digest_text : List (String × String) → List String → String
digest_text data' [] = ""
digest_text data' (k ∷ ks) = (k <> text_at k data') <> digest_text data' ks

-- The mounts of the files of a secret.
unfoldable pub mounts_of : String → List String → List Mount
mounts_of path [] = []
mounts_of path (k ∷ ks) =
    record { name = "securityconfig"; path = path <> ("/" <> k); sub_path = k } ∷ mounts_of path ks

-- The volumes and mounts that the reconcilers share.
pub record ReconcilerContext : Type 0 where
  pub volumes : List Volume
  pub mounts : List Mount

module _ (sv : SecurityServices) where
  unfoldable pub build_cluster_svc_host_name : Cluster → String
  build_cluster_svc_host_name instance' =
      dns_of_service instance' <> (".svc." <> cluster_dns_base sv.dns_base)

  abbrev host : Cluster → String
  host instance' = build_cluster_svc_host_name instance'

  -- One turn of the loop, with what stands at the key and what the later turns add: a file of no
  -- known kind is skipped, and so is an empty one.
  unfoldable pub single_command : Cluster → String → String → String → String
  single_command instance' k text rest =
      let (_, port, path) = version_check sv.versions instance' in
      elim (yml_to_file_type k) [
        | none ↦ rest
        | some kind ↦
            if not (text == "")
            then apply_single (path <> ("/" <> k)) kind (host instance') port <> rest
            else rest
      ]

  -- The loop over the sorted keys.
  unfoldable pub single_commands : Cluster → List (String × String) → List String → String
  unfolding single_command
  single_commands instance' data' [] = ""
  single_commands instance' data' (k ∷ ks) =
      single_command instance' k (text_at k data') (single_commands instance' data' ks)

  unfoldable pub build_cmd_arg : Cluster → Secret → String
  build_cmd_arg instance' secret =
      let (http_port, _, _) = version_check sv.versions instance' in
      base_command (get_opensearch_home instance') (host instance') http_port
      <> single_commands instance' secret.entries (sort_strings (keys secret.entries))

  -- The command that applies all files of the folder.
  unfoldable pub build_full_command : Cluster → String
  build_full_command instance' =
      let (http_port, port, path) = version_check sv.versions instance' in
      base_command (get_opensearch_home instance') (host instance') http_port
      <> apply_all path (host instance') port

  -- sha1 takes each write as it is, so its error is never returned.
  unfoldable pub checksum : List (String × String) → String
  checksum data' = sv.digest (digest_text data' (sort_strings (keys data')))

  unfoldable pub securityconfig_subpaths : Cluster → Secret → ReconcilerContext → ReconcilerContext
  securityconfig_subpaths instance' secret context =
      let (_, _, path) = version_check sv.versions instance' in
      record {
        volumes =
            context.volumes ++ (record { name = "securityconfig"; secret = secret.name } ∷ []);
        mounts = context.mounts ++ mounts_of path (sort_strings (keys secret.entries));
      }
