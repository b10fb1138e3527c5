-- ===== src/Helpers/Roles.antt =====
-- Roles of node pools, and the string slices that hold them.
use opensearch_k8s_operator.Prelude.{
  Bool, true, false, ◌||◌, List, [], ◌∷◌, String, ◌<>◌, ◌==◌, if◌then◌else◌,
}
use opensearch_k8s_operator.Api.{Cluster, NodePool, StatefulSet}

unfoldable pub contains_string : List String → String → Bool
contains_string [] s = false
contains_string (item ∷ slice) s =
    let rest = contains_string slice s in if item == s then true else rest

unfoldable pub has_data_role : NodePool → Bool
unfolding contains_string
has_data_role node_pool = contains_string node_pool.roles "data"

unfoldable pub has_manager_role : NodePool → Bool
unfolding contains_string
has_manager_role node_pool =
    contains_string node_pool.roles "master" || contains_string node_pool.roles "cluster_manager"

-- Get the strings of the left slice that are not in the right one.
unfoldable pub diff_slice : List String → List String → List String
diff_slice [] right = []
diff_slice (s ∷ left) right =
    let rest = diff_slice left right in if contains_string right s then rest else s ∷ rest

-- `seen` stands for the keys of the map, `list` for the result so far.
remove_duplicates_from : List String → List String → List String
remove_duplicates_from seen [] = []
remove_duplicates_from seen (item ∷ items) = elim (contains_string seen item) [
  | true ↦ remove_duplicates_from seen items
  | false ↦ item ∷ remove_duplicates_from (item ∷ seen) items
]

unfoldable pub remove_duplicate_strings : List String → List String
unfolding remove_duplicates_from
remove_duplicate_strings slice = remove_duplicates_from [] slice

-- pkg/builders/cluster.go
unfoldable pub sts_name : Cluster → NodePool → String
sts_name cr node_pool = cr.name <> ("-" <> node_pool.component)

unfoldable pub sts_in_node_pools : StatefulSet → List NodePool → Bool
sts_in_node_pools sts [] = false
sts_in_node_pools sts (np ∷ nps) =
    let rest = sts_in_node_pools sts nps in if sts.pool_label == np.component then true else rest
