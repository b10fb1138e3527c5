-- ===== src/Objects/Binding/Whole.antt =====
-- A whole run of the reconciler of role bindings.
use mathlib.Core.Path.{subst}
use opensearch_k8s_operator.Prelude.{
  ◌≡◌, refl, sym, ◌∙◌, ap, ◌↔◌, inl, inr, Bool, true, Option, none, some, List, [], ◌∷◌, String,
  ◌==◌, eq_refl, Bool-cases, In, if◌then◌else◌,
}
use opensearch_k8s_operator.Api.{Cluster}
use opensearch_k8s_operator.Api.Objects.{Body, RoleMapping, BindingSpec, ObjectStatus, Object}
use opensearch_k8s_operator.Exec.{
  read, History, World, log, Result, ok, err, Exec, M, continue, pure, ◌>>◌, attempt,
}
use opensearch_k8s_operator.Exec.Emits.{Emits, Emits-pure, Emits-bind, Emits-attempt, Emits-if}
use opensearch_k8s_operator.Helpers.Roles.{contains_string, diff_slice}
use opensearch_k8s_operator.Helpers.Slices.{In-diff_slice}
use opensearch_k8s_operator.Objects.{ObjectServices, update_object_status}
use opensearch_k8s_operator.Objects.Finish.{Finish, settled, leave, again_in}
use opensearch_k8s_operator.Objects.Statuses.{update_object_status-Emits}
use opensearch_k8s_operator.Objects.Managed.Untouched.{KeepsObjects}
use opensearch_k8s_operator.Objects.Managed.Stored.{
  Store, stored, stored-keeps, stored-read, Remembers,
}
use opensearch_k8s_operator.Objects.Binding.{
  for_each, mapping_of, reduced, removed_roles, binding_state, clear_role, bind_role,
  check_binding_managed, reconcile_binding_in, reconcile_binding_body, reconcile_binding,
}
use opensearch_k8s_operator.Objects.Binding.Stored.{
  held_mapping, AcceptsMappings, exists_of-answer, remove_objects_from_mapping-Sets,
}
use opensearch_k8s_operator.Objects.Binding.Each.{at, Steps, for_each-Steps}
use opensearch_k8s_operator.Objects.Binding.Bound.{Bound, Bound-again, bind_role-Bound}

abbrev pub Without : (provisioned before after : List String) → Type 0
Without provisioned before after = (n : String) → In n after ↔ (In n before × ¬ In n provisioned)

-- What is left in the mapping of a role that the spec no longer names.
pub record Cleared (s : ObjectStatus) (before after : RoleMapping) : Type 0 where
  pub users : Without s.provisioned_users before.users after.users
  pub backend_roles : Without s.provisioned_backend_roles before.backend_roles after.backend_roles
  pub hosts : after.hosts ≡ before.hosts

Without-again : (p a b c : List String) → Without p a b → Without p b c → Without p a c
Without-again p a b c f g n = (λ i. (f n).0 ((g n).0 i).0, λ (i, q). (g n).1 ((f n).1 (i, q), q))

Cleared-again :
    (s : ObjectStatus) (a b c : RoleMapping) → Cleared s a b → Cleared s b c → Cleared s a c
Cleared-again s a b c f g = record {
  users = Without-again s.provisioned_users a.users b.users c.users f.users g.users;
  backend_roles =
      Without-again s.provisioned_backend_roles a.backend_roles b.backend_roles c.backend_roles
        f.backend_roles g.backend_roles;
  hosts = g.hosts ∙ f.hosts;
}

reduced-Cleared :
    (s : ObjectStatus) (m : RoleMapping)
    → Cleared s m (reduced s.provisioned_users s.provisioned_backend_roles m)
unfolding reduced
reduced-Cleared s m = record {
  users = λ n. In-diff_slice n m.users s.provisioned_users;
  backend_roles = λ n. In-diff_slice n m.backend_roles s.provisioned_backend_roles;
  hosts = refl;
}

empty-Cleared : (s : ObjectStatus) → Cleared s (held_mapping none) (held_mapping none)
empty-Cleared s = record {
  users = λ n. (λ i. absurd i, λ p. p.0);
  backend_roles = λ n. (λ i. absurd i, λ p. p.0);
  hosts = refl;
}

removed_roles-diff :
    (roles provisioned : List String)
    → removed_roles roles provisioned ≡ diff_slice provisioned roles
unfolding removed_roles diff_slice
removed_roles-diff roles [] = refl
removed_roles-diff roles (r ∷ rs) = elim (Bool-cases (contains_string roles r)) [
  | inl e ↦ rw e (removed_roles-diff roles rs)
  | inr e ↦ rw e (ap (λ x. r ∷ x) (removed_roles-diff roles rs))
]

module _ (sv : ObjectServices BindingSpec) where
  deferred : Bool → Finish → M Finish
  deferred u f =
      if u then (do attempt (update_object_status sv (binding_state f)); pure f) else pure f

  deferred-Emits : (u : Bool) (f : Finish) → Emits KeepsObjects (deferred u f)
  unfolding deferred
  deferred-Emits u f =
      Emits-if u _ _
        (λ _.
          Emits-bind _ _
            (Emits-attempt (update_object_status sv (binding_state f)) (
              update_object_status-Emits sv KeepsObjects (λ _. Unit {0}) _ tt (λ h o e. tt)
                (λ o q b. tt)))
            (λ _. Emits-pure f))
        (λ _. Emits-pure f)

  settled-stored :
      (base : Store) (u : Bool) (p : World × Result Finish Finish)
      → stored base (continue (settled p) (deferred u)).0.history ≡ stored base p.0.history
  settled-stored base u (w, ok f) =
      let (es, e, q) = (deferred-Emits u f).at w in rw e (stored-keeps base es w.history q)
  settled-stored base u (w, err f) =
      let (es, e, q) = (deferred-Emits u f).at w in rw e (stored-keeps base es w.history q)

  reconcile_binding-body :
      (base : Store) (u : Bool) (o : Object BindingSpec) (w : World)
      → stored base (reconcile_binding sv u o w).0.history
        ≡ stored base (reconcile_binding_body sv u o w).0.history
  unfolding reconcile_binding deferred
  reconcile_binding-body base u o w = settled-stored base u (reconcile_binding_body sv u o w)

  check_binding_managed-same :
      (u : Bool) (o : Object BindingSpec) (c : Cluster)
      → o.status.managed_cluster ≡ some c.uid
      → check_binding_managed sv u o c ≡ pure o
  unfolding check_binding_managed
  check_binding_managed-same u o c e = rw e (rw (eq_refl c.uid) refl)

  -- The two loops.
  loops : Object BindingSpec → Exec Finish Finish
  loops o = do
    for_each (clear_role sv o.status) (removed_roles o.spec.roles o.status.provisioned_roles)
    for_each (bind_role sv o) o.spec.roles
    leave "" (again_in 30)

  body-loops :
      (u : Bool) (o : Object BindingSpec) (c : Cluster) (w : World)
      → sv.get_cluster w.history o.opensearch_ref ≡ ok c
      → ((h : History) → sv.create_client h ≡ none)
      → o.status.managed_cluster ≡ some c.uid
      → c.status.phase == "RUNNING" ≡ true
      → reconcile_binding_body sv u o w
        ≡ loops o (log (log w (read "GetOpenSearchCluster")) (read "CreateClientForCluster"))
  unfolding reconcile_binding_body reconcile_binding_in loops
  body-loops u o c w found client managed running =
      rw found (rw (check_binding_managed-same u o c managed) (rw running (rw (client _) refl)))

  module _ (base : Store) (remembers : Remembers sv base) (accepts : AcceptsMappings sv) where
    clear_role-at :
        (s : ObjectStatus) (r : String) (w : World) (x : Option Body)
        → at base w r ≡ x
        → Steps base (Cleared s) r w (clear_role sv s r w)
    unfolding clear_role
    clear_role-at s r w none e = rw (remembers w.history "rolesmapping" r) (
        rw e (
          rw (exists_of-answer none r) (
            log w (read "GetSecurityResource"),
            refl,
            rw (stored-read base "GetSecurityResource" w.history) (rw e (empty-Cleared s)),
            λ n d. ap (λ s. s "rolesmapping" n) (stored-read base "GetSecurityResource" w.history),
          )))
    clear_role-at s r w (some b) e =
        let (w', p, q, f) =
          remove_objects_from_mapping-Sets sv base remembers accepts r s.provisioned_users
            s.provisioned_backend_roles b (log w (read "GetSecurityResource"))
            (ap (λ s. s "rolesmapping" r) (stored-read base "GetSecurityResource" w.history) ∙ e) in
        (
          w',
          rw (remembers w.history "rolesmapping" r)
              (rw e (rw (exists_of-answer (some b) r) (rw p refl))),
          rw q (rw e (reduced-Cleared s (mapping_of b))),
          λ n d.
              f n d
              ∙ ap (λ s. s "rolesmapping" n) (stored-read base "GetSecurityResource" w.history),
        )

-- What the mapping of each role is after a run, in terms of what it was.
pub record Binds (o : Object BindingSpec) (before after : String → Option Body) : Type 0 where
  pub bound :
      (r : String) → In r o.spec.roles → Bound o (held_mapping (before r)) (held_mapping (after r))
  pub cleared :
      (r : String)
      → In r o.status.provisioned_roles
      → ¬ In r o.spec.roles
      → Cleared o.status (held_mapping (before r)) (held_mapping (after r))
  pub others :
      (r : String) → ¬ In r o.status.provisioned_roles → ¬ In r o.spec.roles → after r ≡ before r

module _ (sv : ObjectServices BindingSpec) (base : Store) (remembers : Remembers sv base)
    (accepts : AcceptsMappings sv) (o : Object BindingSpec) where
  Gone : String → Type 0
  Gone r = In r (removed_roles o.spec.roles o.status.provisioned_roles)

  Gone-iff : (r : String) → Gone r ↔ (In r o.status.provisioned_roles × ¬ In r o.spec.roles)
  unfolding Gone
  Gone-iff r =
      rw (removed_roles-diff o.spec.roles o.status.provisioned_roles)
        (In-diff_slice r o.status.provisioned_roles o.spec.roles)

  loops-Binds : (w : World) → Binds o (at base w) (at base (loops sv o w).0)
  unfolding loops Gone
  loops-Binds w =
      let (w1, p1, b1, k1) =
        for_each-Steps base (Cleared o.status) (Cleared-again o.status) (clear_role sv o.status)
          (λ r w. clear_role-at sv base remembers accepts o.status r w (at base w r) refl)
          (removed_roles o.spec.roles o.status.provisioned_roles) w in
      let (w2, p2, b2, k2) =
        for_each-Steps base (Bound o) (Bound-again o) (bind_role sv o)
          (bind_role-Bound sv base remembers accepts o) o.spec.roles w1 in
      rw p1 (
        rw p2 (record {
          bound = λ r i. rw (← k1 r (λ g. ((Gone-iff r).0 g).1 i)) (b2 r i);
          cleared = λ r p i. rw (k2 r i) (b1 r ((Gone-iff r).1 (p, i)));
          others = λ r p i. k2 r i ∙ k1 r (λ g. p ((Gone-iff r).0 g).0);
        }))

-- Suppose that OpenSearch answers with what was written and accepts each write of a mapping, that the
-- cluster of the binding is found, is the one of the status and is running, and that a client can be
-- made. Then after a run the users and the backend roles in the mapping of a role of the spec are
-- those of the spec, and those that were there and were not put there by an earlier run; a role that
-- only an earlier run bound keeps those that were not put there by it; the hosts of both, and the
-- mappings of all other roles, are what they were.
pub reconcile_binding-Binds :
    (sv : ObjectServices BindingSpec) (base : Store) (u : Bool) (o : Object BindingSpec)
    (c : Cluster) (w : World)
    → Remembers sv base
    → AcceptsMappings sv
    → ((h : History) → sv.get_cluster h o.opensearch_ref ≡ ok c)
    → ((h : History) → sv.create_client h ≡ none)
    → o.status.managed_cluster ≡ some c.uid
    → c.status.phase == "RUNNING" ≡ true
    → Binds o (at base w) (at base (reconcile_binding sv u o w).0)
reconcile_binding-Binds sv base u o c w remembers accepts found client managed running =
    subst (λ (s : Store). Binds o (at base w) (λ r. s "rolesmapping" r))
      (sym (
        reconcile_binding-body sv base u o w
        ∙ ap (λ p. stored base p.0.history)
            (body-loops sv u o c w (found w.history) client managed running)))
      (from_start (
        loops-Binds sv base remembers accepts o
          (log (log w (read "GetOpenSearchCluster")) (read "CreateClientForCluster"))))
  where
    from_start :
        {after : String → Option Body}
        → Binds o
            (at base (log (log w (read "GetOpenSearchCluster")) (read "CreateClientForCluster")))
            after
        → Binds o (at base w) after
    from_start {after} b =
        subst (λ (s : Store). Binds o (λ r. s "rolesmapping" r) after)
          (stored-read base "CreateClientForCluster" (read "GetOpenSearchCluster" ∷ w.history)
            ∙ stored-read base "GetOpenSearchCluster" w.history)
          b
