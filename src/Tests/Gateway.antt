-- ===== src/Tests/Gateway.antt =====
-- The gateway at concrete inputs.
use opensearch_k8s_operator.Prelude.{◌≡◌, ◌↔◌, ◌⊎◌, refl, true, some, List, [], String, In, arith}
use opensearch_k8s_operator.Text.{trim_space, trim_left, trim_right, is_space}
use opensearch_k8s_operator.Api.Json.{lookup}
use opensearch_k8s_operator.Exec.{World, History, ok}
use opensearch_k8s_operator.Gateway.Settings.{
  find_by_path, create_cluster_settings_response_with_exclude_name,
}
use opensearch_k8s_operator.Gateway.Exclusion.{
  append_exclude_node_host, remove_exclude_node_host, get_excluded_node_names,
}
use opensearch_k8s_operator.Gateway.Exclusion.Names.{IsName, without}
use opensearch_k8s_operator.Gateway.Exclusion.Effect.{
  Holds, kept, changed, ReadsBack, append_exclude_node_host-read, remove_exclude_node_host-read,
}
use opensearch_k8s_operator.Tests.Data.{services, last_settings, cleaned, start}

second-IsName : IsName "os-data-2"
unfolding trim_space trim_left trim_right is_space
second-IsName = record {
  not_empty = cc;
  no_comma = (
    omega arith,
    (
      omega arith,
      (
        omega arith,
        (
          omega arith,
          (omega arith, (omega arith, (omega arith, (omega arith, (omega arith, tt))))),
        ),
      ),
    ),
  );
  trimmed = refl;
}

last_settings-Holds :
    (names : String) (h : History) → Holds (last_settings (changed names h)) (kept names)
unfolding last_settings cleaned create_cluster_settings_response_with_exclude_name find_by_path
    lookup kept
last_settings-Holds String.[] h w = refl
last_settings-Holds (String.◌∷◌ c s) h w = refl

services-ReadsBack : ReadsBack services
services-ReadsBack = record {
  kept_settings = λ names h. last_settings (changed names h);
  answer = λ names h. refl;
  holds = last_settings-Holds;
}

-- One name is excluded.
abbrev one_excluded : World
one_excluded = record start { history = changed "os-data-1" [] }

one-Holds : Holds (last_settings one_excluded.history) (some "os-data-1")
unfolding kept
one-Holds = last_settings-Holds "os-data-1" []

append_exclude_node_host-read_example :
    ((append_exclude_node_host services "os-data-2" one_excluded).1 ≡ ok true)
    × ((before after : List String) × ((get_excluded_node_names services one_excluded).1
          ≡ ok before)
        × ((get_excluded_node_names services
              (append_exclude_node_host services "os-data-2" one_excluded).0).1
            ≡ ok after)
        × ((m : String) → In m after ↔ ((m ≡ "os-data-2") ⊎ In m before)))
append_exclude_node_host-read_example =
    append_exclude_node_host-read services (last_settings one_excluded.history) one_excluded
      "os-data-2" services-ReadsBack (some "os-data-1") second-IsName refl one-Holds refl

remove_exclude_node_host-read_example :
    ((remove_exclude_node_host services "os-data-1" one_excluded).1 ≡ ok true)
    × ((before : List String) × ((get_excluded_node_names services one_excluded).1 ≡ ok before)
        × ((get_excluded_node_names services
              (remove_exclude_node_host services "os-data-1" one_excluded).0).1
            ≡ ok (without "os-data-1" before)))
remove_exclude_node_host-read_example =
    remove_exclude_node_host-read services (last_settings one_excluded.history) one_excluded
      "os-data-1" services-ReadsBack "os-data-1" refl one-Holds refl
