-- ===== src/Upgrade/Run/Finish.antt =====
-- What is left of the statuses of the upgrade once it is finished.
use mathlib.Core.Path.{subst}
use opensearch_k8s_operator.Prelude.{
  ◌≤◌, ◌≡◌, ◌∙◌, refl, sym, ap, inl, inr, Bool, true, false, not, List, [], ◌∷◌, String, Bool-cases,
  In, arith, if◌then◌else◌,
}
use opensearch_k8s_operator.Api.{ComponentStatus, Cluster, NodePool}
use opensearch_k8s_operator.Helpers.Status.{status_of, remove_it}
use opensearch_k8s_operator.Helpers.Status.Laws.{
  find, count, count-remove_it, count-remove_it_le, find-none, none-find,
}
use opensearch_k8s_operator.Upgrade.Pick.{upgrade_status, untouched}
use opensearch_k8s_operator.Upgrade.Run.{drop_statuses, finished}

abbrev pub key : String → ComponentStatus
key group = status_of "Upgrader" "" group

upgrade_status_lem :
    (statuses : List ComponentStatus) (group : String)
    → upgrade_status statuses group ≡ find statuses (key group)
unfolding upgrade_status
upgrade_status_lem statuses group = refl

dropped : NodePool → List ComponentStatus → List ComponentStatus
dropped np statuses =
    let (current_status, found) = upgrade_status statuses np.component in
    if found then remove_it current_status statuses else statuses

drop_step :
    (np : NodePool) (nps : List NodePool) (statuses : List ComponentStatus)
    → drop_statuses (np ∷ nps) statuses ≡ drop_statuses nps (dropped np statuses)
unfolding drop_statuses dropped
drop_step np nps statuses = refl

dropped_at :
    (np : NodePool) (statuses : List ComponentStatus)
    → (upgrade_status statuses np.component).1 ≡ true
    → dropped np statuses ≡ remove_it (upgrade_status statuses np.component).0 statuses
unfolding dropped
dropped_at np statuses e = rw e

dropped_past :
    (np : NodePool) (statuses : List ComponentStatus)
    → (upgrade_status statuses np.component).1 ≡ false
    → dropped np statuses ≡ statuses
unfolding dropped
dropped_past np statuses e = rw e

dropped_le :
    (item : ComponentStatus) (np : NodePool) (statuses : List ComponentStatus)
    → count item (dropped np statuses) ≤ count item statuses
dropped_le item np statuses = elim (Bool-cases (upgrade_status statuses np.component).1) [
  | inl e ↦ rw (dropped_at np statuses e) (count-remove_it_le item _ statuses)
  | inr e ↦ rw (dropped_past np statuses e) (omega arith)
]

drop_le :
    (item : ComponentStatus) (nps : List NodePool) (statuses : List ComponentStatus)
    → count item (drop_statuses nps statuses) ≤ count item statuses
drop_le item [] statuses = unfold drop_statuses in omega arith
drop_le item (np ∷ nps) statuses =
    rw (drop_step np nps statuses)
      (omega (arith, drop_le item nps (dropped np statuses), dropped_le item np statuses))

dropped_own :
    (np : NodePool) (statuses : List ComponentStatus)
    → count (key np.component) statuses ≤ 1
    → count (key np.component) (dropped np statuses) ≡ 0
dropped_own np statuses h = elim (Bool-cases (upgrade_status statuses np.component).1) [
  | inl e ↦
      let old = (upgrade_status statuses np.component).0 in
      let found : ◌≡◌ {A = ComponentStatus × Bool} (find statuses (key np.component)) (old, true) =
        sym (upgrade_status_lem statuses np.component)
        ∙ ap (λ b. ((upgrade_status statuses np.component).0, b)) e in
      rw (dropped_at np statuses e)
        (omega (arith, h, count-remove_it (key np.component) old statuses found))
  | inr e ↦ rw (dropped_past np statuses e) (
      none-find (key np.component) statuses
        (ap (λ p. p.1) (sym (upgrade_status_lem statuses np.component)) ∙ e))
]

drop_own :
    (np : NodePool) (nps : List NodePool) (statuses : List ComponentStatus)
    → In np nps
    → count (key np.component) statuses ≤ 1
    → count (key np.component) (drop_statuses nps statuses) ≡ 0
drop_own np [] statuses i h = absurd i
drop_own np (mp ∷ nps) statuses (inl e) h = rw (drop_step mp nps statuses) (
    omega (
      arith,
      drop_le (key np.component) nps (dropped mp statuses),
      subst
          (λ p.
            count (key p.component) statuses ≤ 1
            → count (key p.component) (dropped mp statuses) ≡ 0)
          e (dropped_own mp statuses) h,
    ))
drop_own np (mp ∷ nps) statuses (inr i) h = rw (drop_step mp nps statuses) (
    drop_own np nps (dropped mp statuses) i
      (omega (arith, h, dropped_le (key np.component) mp statuses)))

-- Let at most one status name the upgrade of a pool. After the end of the upgrade, which drops the
-- statuses for each pool of the cluster, no status names the upgrade of that pool, so the next
-- upgrade finds it untouched; the version of the status is that of the spec, and the phase RUNNING.
pub finished-untouched :
    (c : Cluster) (np : NodePool)
    → In np c.node_pools
    → count (key np.component) c.status.components_status ≤ 1
    → (untouched (finished c).status.components_status np ≡ true)
      × ((finished c).status.version ≡ c.version)
      × ((finished c).status.phase ≡ "RUNNING")
unfolding finished untouched
finished-untouched c np i h =
    let none_left =
      ap (λ p. p.1)
        (upgrade_status_lem (drop_statuses c.node_pools c.status.components_status) np.component)
      ∙ find-none (key np.component) (drop_statuses c.node_pools c.status.components_status)
          (drop_own np c.node_pools c.status.components_status i h) in
    (ap not none_left, refl, refl)
