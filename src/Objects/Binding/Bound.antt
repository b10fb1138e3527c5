-- ===== src/Objects/Binding/Bound.antt =====
-- One role of a binding, against what a binding means.
use opensearch_k8s_operator.Prelude.{
  ◌≡◌, refl, ◌∙◌, ap, ◌↔◌, ◌⊎◌, inl, inr, true, Option, none, some, List, [], ◌∷◌, String, ◌==◌,
  eq_iff, In,
}
use opensearch_k8s_operator.Api.Objects.{
  Body, mapping, RoleMapping, BindingSpec, Object, object_put,
}
use opensearch_k8s_operator.Exec.{read, written, World, log}
use opensearch_k8s_operator.Helpers.Roles.{diff_slice}
use opensearch_k8s_operator.Objects.{ObjectServices}
use opensearch_k8s_operator.Objects.Managed.Stored.{Store, stored, stored-read, Remembers}
use opensearch_k8s_operator.Objects.Binding.{mapping_of, extended, bind_role}
use opensearch_k8s_operator.Objects.Binding.Each.{at, Steps}
use opensearch_k8s_operator.Objects.Binding.Members.{In-renewed}
use opensearch_k8s_operator.Objects.Binding.Stored.{
  held_mapping, AcceptsMappings, Sets, exists_of-answer, put-at, other_name,
  reconcile_existing_mapping-Sets,
}

-- One list of names: the wanted ones, and those that were there and are not from an earlier run.
abbrev pub Renewed : (wanted provisioned before after : List String) → Type 0
Renewed wanted provisioned before after =
    (n : String) → In n after ↔ (In n wanted ⊎ (In n before × ¬ In n provisioned))

-- What a binding means for the mapping of one of its roles.
pub record Bound (o : Object BindingSpec) (before after : RoleMapping) : Type 0 where
  pub users : Renewed o.spec.users o.status.provisioned_users before.users after.users
  pub backend_roles :
      Renewed o.spec.backend_roles o.status.provisioned_backend_roles before.backend_roles
        after.backend_roles
  pub hosts : after.hosts ≡ before.hosts

Renewed-again :
    (wanted provisioned a b c : List String)
    → Renewed wanted provisioned a b
    → Renewed wanted provisioned b c
    → Renewed wanted provisioned a c
Renewed-again wanted provisioned a b c f g n = (
  λ i. elim ((g n).0 i) [ inl w ↦ inl w | inr (j, p) ↦ (f n).0 j ],
  λ i. elim i [ inl w ↦ (g n).1 (inl w) | inr (j, p) ↦ (g n).1 (inr ((f n).1 (inr (j, p)), p)) ],
)

pub Bound-again :
    (o : Object BindingSpec) (a b c : RoleMapping) → Bound o a b → Bound o b c → Bound o a c
Bound-again o a b c f g = record {
  users =
      Renewed-again o.spec.users o.status.provisioned_users a.users b.users c.users f.users g.users;
  backend_roles =
      Renewed-again o.spec.backend_roles o.status.provisioned_backend_roles a.backend_roles
        b.backend_roles c.backend_roles f.backend_roles g.backend_roles;
  hosts = g.hosts ∙ f.hosts;
}

-- The mapping that one step leaves.
pub target : Object BindingSpec → Option Body → RoleMapping
target o none = record { users = o.spec.users; hosts = []; backend_roles = o.spec.backend_roles }
target o (some b) =
    extended o.spec (diff_slice o.status.provisioned_users o.spec.users)
      (diff_slice o.status.provisioned_backend_roles o.spec.backend_roles) (mapping_of b)

Renewed-empty : (wanted provisioned : List String) → Renewed wanted provisioned [] wanted
Renewed-empty wanted provisioned n = (λ i. inl i, λ i. elim i [ inl w ↦ w | inr (j, p) ↦ absurd j ])

pub target-Bound :
    (o : Object BindingSpec) (x : Option Body) → Bound o (held_mapping x) (target o x)
unfolding target extended
target-Bound o none = record {
  users = Renewed-empty o.spec.users o.status.provisioned_users;
  backend_roles = Renewed-empty o.spec.backend_roles o.status.provisioned_backend_roles;
  hosts = refl;
}
target-Bound o (some b) = record {
  users = λ n. In-renewed n o.spec.users o.status.provisioned_users (mapping_of b).users;
  backend_roles = λ n.
      In-renewed n o.spec.backend_roles o.status.provisioned_backend_roles
        (mapping_of b).backend_roles;
  hosts = refl;
}

module _ (sv : ObjectServices BindingSpec) (base : Store) (remembers : Remembers sv base)
    (accepts : AcceptsMappings sv) (o : Object BindingSpec) where
  pub bind_role-Sets :
      (r : String) (w : World) (x : Option Body)
      → stored base w.history "rolesmapping" r ≡ x
      → Sets base r (target o x) w (bind_role sv o r w)
  unfolding bind_role target mapping_of
  bind_role-Sets r w none e = rw (remembers w.history "rolesmapping" r) (
      rw e (
        rw (exists_of-answer none r) (
          log (log w (read "GetSecurityResource"))
              (written (object_put "rolesmapping" r (mapping (target o none))) true),
          rw (accepts.puts (log w (read "GetSecurityResource")).history r (mapping (target o none)))
              refl,
          rw (put-at base (read "GetSecurityResource" ∷ w.history) r r (mapping (target o none)))
              (rw (same r) refl),
          λ n d.
              rw
                (put-at base (read "GetSecurityResource" ∷ w.history) r n (mapping (target o none)))
                (rw (other_name r n d) (
                  ap (λ s. s "rolesmapping" n) (stored-read base "GetSecurityResource" w.history))),
        )))
    where
      same : (r : String) → r == r ≡ true
      same r = (eq_iff r r).1 refl
  bind_role-Sets r w (some b) e =
      let (w', p, q, f) =
        reconcile_existing_mapping-Sets sv base remembers accepts o.spec r
          (diff_slice o.status.provisioned_users o.spec.users)
          (diff_slice o.status.provisioned_backend_roles o.spec.backend_roles) b
          (log w (read "GetSecurityResource"))
          (ap (λ s. s "rolesmapping" r) (stored-read base "GetSecurityResource" w.history) ∙ e) in
      (
        w',
        rw (remembers w.history "rolesmapping" r)
            (rw e (rw (exists_of-answer (some b) r) (rw p refl))),
        q,
        λ n d.
            f n d ∙ ap (λ s. s "rolesmapping" n) (stored-read base "GetSecurityResource" w.history),
      )

  -- One step binds its role.
  pub bind_role-Bound : (r : String) (w : World) → Steps base (Bound o) r w (bind_role sv o r w)
  bind_role-Bound r w =
      let (w', p, q, f) = bind_role-Sets r w (at base w r) refl in
      (w', p, rw q (target-Bound o (at base w r)), f)
