-- ===== src/Gateway/Exclusion.antt =====
-- The list of nodes that get no shards, which OpenSearch keeps as one text with commas.
pub mod Names
pub mod Effect
use opensearch_k8s_operator.Prelude.{
  Bool, true, false, not, ◌&&◌, Option, none, some, List, [], ◌∷◌, ◌++◌, map, String, ◌==◌,
  if◌then◌else◌,
}
use opensearch_k8s_operator.Text.{split, join, trim_space}
use opensearch_k8s_operator.Api.{panic}
use opensearch_k8s_operator.Api.Json.{Value, null, text, other, object, Fields, end}
use opensearch_k8s_operator.Exec.{M, pure, raise, ◌>>=◌, ◌>>◌}
use opensearch_k8s_operator.Services.{Services}
use opensearch_k8s_operator.Services.Calls.{get_cluster_settings, put_cluster_settings}
use opensearch_k8s_operator.Gateway.Settings.{
  find_by_path, exclude_path, create_cluster_settings_response_with_exclude_name,
}
use opensearch_k8s_operator.Helpers.Roles.{contains_string}

-- The current value, `none` if it is missing or empty. The type assertion `val.(string)` panics on
-- what is no text.
abbrev pub current_exclusion : Option Value → M (Option String)
current_exclusion none = pure none
current_exclusion (some (text String.[])) = pure none
current_exclusion (some (text (String.◌∷◌ c s))) = pure (some (String.◌∷◌ c s))
current_exclusion (some null) = raise panic
current_exclusion (some other) = raise panic
current_exclusion (some (object fs)) = raise panic

-- The value that AppendExcludeNodeHost writes.
unfoldable pub append_name : Option String → String → String
append_name none name = name
append_name (some val) name =
    let parts = split 44 val in
    join "," (if contains_string parts name then parts else parts ++ (name ∷ []))

-- The trimmed parts that are not empty.
unfoldable pub trimmed_names : List String → List String
trimmed_names [] = []
trimmed_names (p ∷ ps) =
    let rest = trimmed_names ps in
    let trimmed = trim_space p in if not (trimmed == "") then trimmed ∷ rest else rest

-- The trimmed parts that are neither empty nor the given name.
unfoldable pub other_names : String → List String → List String
other_names name [] = []
other_names name (p ∷ ps) =
    let rest = other_names name ps in
    let trimmed = trim_space p in
    if not (trimmed == "") && not (trimmed == name) then trimmed ∷ rest else rest

-- What GetExcludedNodeNames reads from a value.
unfoldable pub excluded_names : Option String → List String
excluded_names none = []
excluded_names (some val) = trimmed_names (split 44 val)

-- The value that RemoveExcludeNodeHost writes.
unfoldable pub remove_name : String → String → String
remove_name val name = join "," (other_names name (split 44 val))

module _ (sv : Services) where
  unfoldable pub append_exclude_node_host : String → M Bool
  append_exclude_node_host name = do
    transient ← get_cluster_settings sv
    val ← current_exclusion (find_by_path transient exclude_path)
    put_cluster_settings sv end
        (create_cluster_settings_response_with_exclude_name (append_name val name))
    pure true

  unfoldable pub get_excluded_node_names : M (List String)
  get_excluded_node_names = do
    transient ← get_cluster_settings sv
    val ← current_exclusion (find_by_path transient exclude_path)
    pure (excluded_names val)

  abbrev pub write_without : String → Option String → M Bool
  write_without name none = pure true
  write_without name (some val) = do
    put_cluster_settings sv end
        (create_cluster_settings_response_with_exclude_name (remove_name val name))
    pure true

  unfoldable pub remove_exclude_node_host : String → M Bool
  remove_exclude_node_host name = do
    transient ← get_cluster_settings sv
    val ← current_exclusion (find_by_path transient exclude_path)
    write_without name val
