-- ===== src/Gateway/Exclusion/Effect.antt =====
-- Appending and removing an exclusion, as the next reader of the settings sees them.
use opensearch_k8s_operator.Prelude.{
  ◌≡◌, ◌∙◌, ◌↔◌, ◌⊎◌, refl, ap, true, Option, none, some, List, ◌∷◌, String, In,
}
use opensearch_k8s_operator.Text.{split, trim_space}
use opensearch_k8s_operator.Api.Json.{Fields, end}
use opensearch_k8s_operator.Exec.{read, settings_put, History, World, ok, log}
use opensearch_k8s_operator.Services.{Services}
use opensearch_k8s_operator.Gateway.Settings.{
  find_by_path, exclude_path, create_cluster_settings_response_with_exclude_name,
}
use opensearch_k8s_operator.Gateway.Exclusion.{
  current_exclusion, append_name, remove_name, excluded_names, append_exclude_node_host,
  remove_exclude_node_host, get_excluded_node_names, trimmed_names,
}
use opensearch_k8s_operator.Gateway.Exclusion.Names.{
  IsName, without, excluded_names-append_name, excluded_names-remove_name,
}

-- The settings hold this list of exclusions, `none` if they hold none.
abbrev pub Holds : Fields → Option String → Type 0
Holds fs current =
    (w : World) → current_exclusion (find_by_path fs exclude_path) w ≡ (w, ok current)

-- Setting the list to null removes it.
unfoldable pub kept : String → Option String
kept String.[] = none
kept (String.◌∷◌ c s) = some (String.◌∷◌ c s)

-- The event of an accepted change of the list.
abbrev pub changed : String → History → History
changed names h =
    settings_put end (create_cluster_settings_response_with_exclude_name names) true ∷ h

-- OpenSearch gives back, directly after an accepted change of the list of exclusions, the list that
-- was sent.
pub record ReadsBack (sv : Services) : Type 0 where
  pub kept_settings : String → History → Fields
  pub answer :
      (names : String) (h : History)
      → sv.get_cluster_settings (changed names h) ≡ ok (kept_settings names h)
  pub holds : (names : String) (h : History) → Holds (kept_settings names h) (kept names)

excluded_names-kept : (s : String) → excluded_names (kept s) ≡ excluded_names (some s)
unfolding kept excluded_names trimmed_names split trim_space
excluded_names-kept String.[] = refl
excluded_names-kept (String.◌∷◌ c s) = refl

module _ (sv : Services) where
  excluded_by :
      (fs : Fields) (current : Option String) (w : World)
      → sv.get_cluster_settings w.history ≡ ok fs
      → Holds fs current
      → (get_excluded_node_names sv w).1 ≡ ok (excluded_names current)
  unfolding get_excluded_node_names
  excluded_by fs current w e h = simp (e, h (log w (read "GetClusterSettings")))

  excluded_after :
      (reads_back : ReadsBack sv) (names : String) (h : History) (w : World)
      → w.history ≡ changed names h
      → (get_excluded_node_names sv w).1 ≡ ok (excluded_names (some names))
  excluded_after reads_back names h w e =
      excluded_by (reads_back.kept_settings names h) (kept names) w
        (ap sv.get_cluster_settings e ∙ reads_back.answer names h) (reads_back.holds names h)
      ∙ ap ok (excluded_names-kept names)

  module _ (fs : Fields) (w : World) (name : String) where
    -- The history behind the read of the settings.
    abbrev pub seen : History
    seen = read "GetClusterSettings" ∷ w.history

    appended :
        (current : Option String)
        → sv.get_cluster_settings w.history ≡ ok fs
        → Holds fs current
        → sv.put_cluster_settings seen end
            (create_cluster_settings_response_with_exclude_name (append_name current name))
          ≡ none
        → ((append_exclude_node_host sv name w).1 ≡ ok true)
          × ((append_exclude_node_host sv name w).0.history
              ≡ changed (append_name current name) seen)
    unfolding append_exclude_node_host
    appended current e h p = (
      simp (e, h (log w (read "GetClusterSettings")), p),
      simp (e, h (log w (read "GetClusterSettings")), p),
    )

    removed :
        (val : String)
        → sv.get_cluster_settings w.history ≡ ok fs
        → Holds fs (some val)
        → sv.put_cluster_settings seen end
            (create_cluster_settings_response_with_exclude_name (remove_name val name))
          ≡ none
        → ((remove_exclude_node_host sv name w).1 ≡ ok true)
          × ((remove_exclude_node_host sv name w).0.history ≡ changed (remove_name val name) seen)
    unfolding remove_exclude_node_host
    removed val e h p = (
      simp (e, h (log w (read "GetClusterSettings")), p),
      simp (e, h (log w (read "GetClusterSettings")), p),
    )

    -- Let OpenSearch accept the change and give it back to the next reader. After
    -- AppendExcludeNodeHost, GetExcludedNodeNames reads the name and exactly the names that it read
    -- before, whatever the list was.
    pub append_exclude_node_host-read :
        (reads_back : ReadsBack sv) (current : Option String)
        → IsName name
        → sv.get_cluster_settings w.history ≡ ok fs
        → Holds fs current
        → sv.put_cluster_settings seen end
            (create_cluster_settings_response_with_exclude_name (append_name current name))
          ≡ none
        → ((append_exclude_node_host sv name w).1 ≡ ok true)
          × ((before after : List String) × ((get_excluded_node_names sv w).1 ≡ ok before)
              × ((get_excluded_node_names sv (append_exclude_node_host sv name w).0).1 ≡ ok after)
              × ((m : String) → In m after ↔ ((m ≡ name) ⊎ In m before)))
    append_exclude_node_host-read reads_back current n e h p =
        let (done, history) = appended current e h p in
        (
          done,
          (
            excluded_names current,
            excluded_names (some (append_name current name)),
            excluded_by fs current w e h,
            excluded_after reads_back (append_name current name) seen _ history,
            (λ m. excluded_names-append_name current name m n),
          ),
        )

    -- Let OpenSearch accept the change and give it back to the next reader. After
    -- RemoveExcludeNodeHost, GetExcludedNodeNames reads the names that it read before, in their
    -- order, without the name.
    pub remove_exclude_node_host-read :
        (reads_back : ReadsBack sv) (val : String)
        → sv.get_cluster_settings w.history ≡ ok fs
        → Holds fs (some val)
        → sv.put_cluster_settings seen end
            (create_cluster_settings_response_with_exclude_name (remove_name val name))
          ≡ none
        → ((remove_exclude_node_host sv name w).1 ≡ ok true)
          × ((before : List String) × ((get_excluded_node_names sv w).1 ≡ ok before)
              × ((get_excluded_node_names sv (remove_exclude_node_host sv name w).0).1
                  ≡ ok (without name before)))
    remove_exclude_node_host-read reads_back val e h p =
        let (done, history) = removed val e h p in
        (
          done,
          (
            excluded_names (some val),
            excluded_by fs (some val) w e h,
            excluded_after reads_back (remove_name val name) seen _ history
                ∙ ap ok (excluded_names-remove_name val name),
          ),
        )
