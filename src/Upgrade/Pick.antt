-- ===== src/Upgrade/Pick.antt =====
-- findNextNodePoolForUpgrade: which pool is worked on next.
pub mod Order
pub mod Sorting
use opensearch_k8s_operator.Prelude.{
  Bool, true, false, not, ◌&&◌, Option, none, some, List, [], ◌∷◌, ◌++◌, String, ◌==◌,
  if◌then◌else◌,
}
use opensearch_k8s_operator.Prelude.Int.{pos}
use opensearch_k8s_operator.Api.{ComponentStatus, NodePool}
use opensearch_k8s_operator.Helpers.Status.{
  status_of, find_first_partial, get_by_description_and_component,
}
use opensearch_k8s_operator.Helpers.Roles.{has_data_role, has_manager_role}

-- The three lists of the sorting loop.
pub record Sorted : Type 0 where
  pub data_nodes : List NodePool
  pub data_and_master_nodes : List NodePool
  pub other_nodes : List NodePool

abbrev add_pool : NodePool → Sorted → Sorted
add_pool np s =
    if has_data_role np
    then (if has_manager_role np
        then record s { data_and_master_nodes = np ∷ s.data_and_master_nodes }
        else record s { data_nodes = np ∷ s.data_nodes })
    else record s { other_nodes = np ∷ s.other_nodes }

-- Appending in order of the pools gives each list in that order.
unfoldable pub sort_pools : List NodePool → Sorted
sort_pools [] = record { data_nodes = []; data_and_master_nodes = []; other_nodes = [] }
sort_pools (np ∷ nps) = add_pool np (sort_pools nps)

-- The status of the upgrade of a pool, with the flag that there is one.
unfoldable pub upgrade_status : List ComponentStatus → String → ComponentStatus × Bool
unfolding find_first_partial get_by_description_and_component
upgrade_status components group =
    find_first_partial get_by_description_and_component components (status_of "Upgrader" "" group)

unfoldable pub in_progress : List ComponentStatus → NodePool → Bool
in_progress components np =
    let (current_status, found) = upgrade_status components np.component in
    found && current_status.status == "Upgrading"

unfoldable pub untouched : List ComponentStatus → NodePool → Bool
untouched components np =
    let (current_status, found) = upgrade_status components np.component in not found

module _ (components : List ComponentStatus) where
  unfoldable pub find_in_progress : List NodePool → Option NodePool
  find_in_progress [] = none
  find_in_progress (np ∷ nps) =
      let rest = find_in_progress nps in if in_progress components np then some np else rest

  unfoldable pub find_next_pool : List NodePool → Option NodePool
  find_next_pool [] = none
  find_next_pool (np ∷ nps) =
      let rest = find_next_pool nps in if untouched components np then some np else rest

  -- A group of pools: one in progress first, then one that no status names.
  unfoldable pub pick_in : List NodePool → Option (NodePool × String)
  pick_in pools = elim (find_in_progress pools) [
    | some np ↦ some (np, "Upgrading")
    | none ↦ elim (find_next_pool pools) [ some np ↦ some (np, "Pending") | none ↦ none ]
  ]

  -- The pool and its status; `none` stands for the status Finished with an empty pool.
  unfoldable pub find_next_node_pool_for_upgrade : List NodePool → Option (NodePool × String)
  find_next_node_pool_for_upgrade pools =
      let s = sort_pools pools in
      elim (pick_in s.data_nodes) [
        | some p ↦ some p
        | none ↦ elim (pick_in s.data_and_master_nodes) [
          | some p ↦ some p
          | none ↦ pick_in s.other_nodes
        ]
      ]
