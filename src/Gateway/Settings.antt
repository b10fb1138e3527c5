-- ===== src/Gateway/Settings.antt =====
-- The settings objects: FindByPath (pkg/helpers/helpers.go) and the two makers of updates.
use opensearch_k8s_operator.Prelude.{Option, none, some, List, [], ◌∷◌, String}
use opensearch_k8s_operator.Api.Json.{Value, null, text, other, object, Fields, end, field, lookup}
use opensearch_k8s_operator.Exec.{M}
use opensearch_k8s_operator.Services.{Services}
use opensearch_k8s_operator.Services.Calls.{put_cluster_settings}

-- A missing key on the way is skipped; a value on the way that is no object ends the search.
unfoldable pub find_by_path : Fields → List String → Option Value
find_by_path mobj [] = none
find_by_path mobj (k ∷ []) = lookup k mobj
find_by_path mobj (k ∷ l ∷ ks) = elim (lookup k mobj) [
  | none ↦ find_by_path mobj (l ∷ ks)
  | some v ↦ elim v [
    | object sub ↦ find_by_path sub (l ∷ ks)
    | null ↦ none
    | text s ↦ none
    | other ↦ none
  ]
]

abbrev pub exclude_path : List String
exclude_path = "cluster" ∷ "routing" ∷ "allocation" ∷ "exclude" ∷ "_name" ∷ []

abbrev single : String → Value → Fields
single k v = field k v end

abbrev allocation : Fields → Fields
allocation fs =
    single "cluster" (object (single "routing" (object (single "allocation" (object fs)))))

-- The empty list of names is sent as null, which removes the setting.
unfoldable pub create_cluster_settings_response_with_exclude_name : String → Fields
create_cluster_settings_response_with_exclude_name String.[] =
    allocation (single "exclude" (object (single "_name" null)))
create_cluster_settings_response_with_exclude_name (String.◌∷◌ c s) =
    allocation (single "exclude" (object (single "_name" (text (String.◌∷◌ c s)))))

pub data ClusterSettingsAllocation : Type 0 where
  primaries all no_allocation : ClusterSettingsAllocation

unfoldable pub allocation_text : ClusterSettingsAllocation → String
allocation_text primaries = "primaries"
allocation_text all = "all"
allocation_text no_allocation = "none"

unfoldable pub create_cluster_settings_allocation_enable : ClusterSettingsAllocation → Fields
unfolding allocation_text
create_cluster_settings_allocation_enable enable =
    allocation (single "enable" (text (allocation_text enable)))

module _ (sv : Services) where
  unfoldable pub set_cluster_shard_allocation : ClusterSettingsAllocation → M (Unit {0})
  set_cluster_shard_allocation enable =
      put_cluster_settings sv end (create_cluster_settings_allocation_enable enable)
