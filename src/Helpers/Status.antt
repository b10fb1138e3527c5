-- ===== src/Helpers/Status.antt =====
-- The list of component statuses, which the reconcilers use as their memory between two runs.
pub mod Laws
use opensearch_k8s_operator.Prelude.{
  Bool, true, false, not, ◌&&◌, List, [], ◌∷◌, ◌++◌, String, ◌==◌, if◌then◌else◌,
}
use opensearch_k8s_operator.Api.{ComponentStatus, ClusterStatus}

-- A status with no conditions, as most composite literals of the source are.
abbrev pub status_of : String → String → String → ComponentStatus
status_of component status description = record {
  component = component;
  status = status;
  description = description;
  conditions = [];
}

unfoldable pub component_status_equal : ComponentStatus → ComponentStatus → Bool
component_status_equal left right =
    left.component == right.component
    && left.description == right.description
    && left.status == right.status

-- RemoveIt drops the first status that is equal; the conditions are not compared.
unfoldable pub remove_it : ComponentStatus → List ComponentStatus → List ComponentStatus
remove_it ss [] = []
remove_it ss (v ∷ vs) =
    let rest = remove_it ss vs in if component_status_equal v ss then vs else v ∷ rest

unfoldable pub replace :
    ComponentStatus → ComponentStatus → List ComponentStatus → List ComponentStatus
unfolding remove_it
replace remove add statuses = remove_it remove statuses ++ (add ∷ [])

abbrev shifted : ComponentStatus → List ComponentStatus → List ComponentStatus
shifted fill [] = fill ∷ []
shifted fill (v ∷ vs) = v ∷ shifted fill vs

abbrev last_status : ComponentStatus → List ComponentStatus → ComponentStatus
last_status d [] = d
last_status d (v ∷ vs) = last_status v vs

-- `append(s[0:i], s[i+1:]...)` moves the rest one place to the left within the array of `s`. The
-- slice of the caller keeps its length and so ends in its last status twice.
unfoldable pub remove_it_held : ComponentStatus → List ComponentStatus → List ComponentStatus
remove_it_held ss [] = []
remove_it_held ss (v ∷ vs) =
    let rest = remove_it_held ss vs in
    if component_status_equal v ss then shifted (last_status v vs) vs else v ∷ rest

-- The `append` of Replace then writes into the place that became free.
unfoldable pub replace_held :
    ComponentStatus → ComponentStatus → List ComponentStatus → List ComponentStatus
replace_held remove add [] = []
replace_held remove add (v ∷ vs) =
    let rest = replace_held remove add vs in
    if component_status_equal v remove then shifted add vs else v ∷ rest

unfoldable pub get_by_description_and_component :
    ComponentStatus → ComponentStatus → ComponentStatus × Bool
get_by_description_and_component left right =
    if left.description == right.description && left.component == right.component
    then (left, true)
    else (right, false)

unfoldable pub get_by_component : ComponentStatus → ComponentStatus → ComponentStatus × Bool
get_by_component left right =
    if left.component == right.component then (left, true) else (right, false)

module _ (predicator : ComponentStatus → ComponentStatus → ComponentStatus × Bool) where
  unfoldable pub find_first_partial :
      List ComponentStatus → ComponentStatus → ComponentStatus × Bool
  find_first_partial [] item = (item, false)
  find_first_partial (v ∷ vs) item =
      let rest = find_first_partial vs item in
      let found = predicator v item in if found.1 then found else rest

  unfoldable pub find_all_partial : List ComponentStatus → ComponentStatus → List ComponentStatus
  find_all_partial [] item = []
  find_all_partial (v ∷ vs) item =
      let rest = find_all_partial vs item in
      let found = predicator v item in if found.1 then found.0 ∷ rest else rest

-- The loop over the found statuses raises a flag.
unfoldable pub in_progress_from : Bool → List ComponentStatus → Bool
in_progress_from flag [] = flag
in_progress_from flag (s ∷ ss) =
    in_progress_from
      (if not (s.status == "Upgraded") && not (s.status == "Finished") then true else flag) ss

unfoldable pub is_upgrade_in_progress : ClusterStatus → Bool
unfolding in_progress_from find_all_partial get_by_component
is_upgrade_in_progress status =
    in_progress_from false
      (find_all_partial get_by_component status.components_status (status_of "Upgrader" "" ""))
