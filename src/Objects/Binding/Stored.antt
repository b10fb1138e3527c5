-- ===== src/Objects/Binding/Stored.antt =====
-- What a run of the reconciler of role bindings makes of the mappings that OpenSearch holds.
use opensearch_k8s_operator.Prelude.{
  ◌≡◌, ◌≢◌, refl, sym, ◌∙◌, ap, inl, inr, Bool, true, false, not, ◌&&◌, ◌||◌, Option, none, some,
  List, [], ◌∷◌, String, ◌==◌, eq_refl, eq_iff, nat_eq, Bool-cases, append-nil, length, arith,
  if◌then◌else◌,
}
use opensearch_k8s_operator.Api.Objects.{
  Body, mapping, RoleMapping, BindingSpec, object_put, object_removed,
}
use opensearch_k8s_operator.Exec.{read, written, History, World, log, Result, ok}
use opensearch_k8s_operator.Helpers.Roles.{diff_slice}
use opensearch_k8s_operator.Helpers.Slices.{diff_slice-same_length}
use opensearch_k8s_operator.Objects.{ObjectServices, exists_of, write_error, named}
use opensearch_k8s_operator.Objects.Managed.Stored.{Store, stored, stored-read, answer, Remembers}
use opensearch_k8s_operator.Objects.Binding.{
  no_mapping, mapping_of, mapping_answer, is_empty, some_left, extended, unchanged, save_mapping,
  remove_objects_from_mapping, reduced, untouched_by, reconcile_existing_mapping,
}

-- The mapping that an entry stands for: a missing one is empty.
abbrev pub held_mapping : Option Body → RoleMapping
held_mapping none = no_mapping
held_mapping (some b) = mapping_of b

-- Every write of a mapping is accepted.
pub record AcceptsMappings (sv : ObjectServices BindingSpec) : Type 0 where
  pub puts :
      (h : History) (n : String) (b : Body)
      → write_error (sv.put_security h "rolesmapping" n b) ≡ none
  pub removals :
      (h : History) (n : String) → write_error (sv.delete_security h "rolesmapping" n) ≡ none

pub exists_of-answer :
    (x : Option Body) (n : String)
    → exists_of (ok (answer x n)) ≡ ok (elim x [ none ↦ false | some b ↦ true ])
unfolding exists_of answer
exists_of-answer none n = refl
exists_of-answer (some b) n = refl

mapping_answer-answer :
    (b : Body) (n : String) → mapping_answer n (ok (answer (some b) n)) ≡ ok (mapping_of b)
unfolding mapping_answer answer named
mapping_answer-answer b n = rw (eq_refl n) refl

is_empty-nil : (xs : List String) → is_empty xs ≡ true → xs ≡ []
is_empty-nil [] e = refl
is_empty-nil (x ∷ xs) e = cc

four :
    (a b c d : Bool) → (a && b && c && d) ≡ true → (a ≡ true) × (b ≡ true) × (c ≡ true) × (d ≡ true)
four true true true d e = (refl, refl, refl, e)
four true true false d e = cc
four true false c d e = cc
four false b c d e = cc

nat_eq-eq : (a b : _) → nat_eq a b ≡ true → a ≡ b
nat_eq-eq a b h = ground arith

-- Where the test finds nothing to do, the new mapping is the old one.
extended-unchanged :
    (spec : BindingSpec) (us bs : List String) (old : RoleMapping)
    → unchanged spec us bs old ≡ true
    → extended spec us bs old ≡ old
unfolding unchanged extended
extended-unchanged spec us bs old e =
    let (e1, e2, e3, e4) =
      four (is_empty (diff_slice spec.users old.users))
        (is_empty (diff_slice spec.backend_roles old.backend_roles))
        (nat_eq (length (diff_slice old.users us)) (length old.users))
        (nat_eq (length (diff_slice old.backend_roles bs)) (length old.backend_roles)) e in
    rw (is_empty-nil (diff_slice spec.users old.users) e1) (
      rw (is_empty-nil (diff_slice spec.backend_roles old.backend_roles) e2) (
        rw (diff_slice-same_length old.users us (nat_eq-eq _ _ e3)) (
          rw (diff_slice-same_length old.backend_roles bs (nat_eq-eq _ _ e4))
            (rw (append-nil old.users, append-nil old.backend_roles) refl))))

reduced-untouched :
    (us bs : List String) (old : RoleMapping)
    → untouched_by us bs old ≡ true
    → reduced us bs old ≡ old
unfolding untouched_by reduced
reduced-untouched us bs old e =
    let (e1, e2, e3, e4) =
      four (nat_eq (length (diff_slice old.users us)) (length old.users))
        (not (is_empty (diff_slice old.users us)))
        (nat_eq (length (diff_slice old.backend_roles bs)) (length old.backend_roles))
        (not (is_empty (diff_slice old.backend_roles bs))) e in
    rw (diff_slice-same_length old.users us (nat_eq-eq _ _ e1))
      (rw (diff_slice-same_length old.backend_roles bs (nat_eq-eq _ _ e3)) refl)

-- A mapping with nothing left is the empty one.
nothing_left : (m : RoleMapping) → some_left m ≡ false → m ≡ no_mapping
nothing_left m e = empty m.users m.hosts m.backend_roles e
  where
    empty :
        (us hs bs : List String)
        → (not (is_empty us) || not (is_empty hs) || not (is_empty bs)) ≡ false
        → ◌≡◌ {A = RoleMapping} (record { users = us; hosts = hs; backend_roles = bs }) no_mapping
    empty [] [] [] e = refl
    empty (u ∷ us) hs bs e = cc
    empty [] (h ∷ hs) bs e = cc
    empty [] [] (b ∷ bs) e = cc

module _ (base : Store) (h : History) (name n : String) where
  pub put-at :
      (b : Body)
      → stored base (written (object_put "rolesmapping" name b) true ∷ h) "rolesmapping" n
        ≡ (if name == n then some b else stored base h "rolesmapping" n)
  unfolding stored
  put-at b = refl

  removed-at :
      stored base (written (object_removed "rolesmapping" name) true ∷ h) "rolesmapping" n
      ≡ (if name == n then none else stored base h "rolesmapping" n)
  unfolding stored
  removed-at = refl

-- What an action that ends well does to the mappings: one entry, and none of the others.
abbrev pub Sets :
    {E : Type 0} → Store → String → RoleMapping → World → World × Result E (Unit {0}) → Type 0
Sets {E} base r m w p =
    (w' : World) × (p ≡ (w', ok tt))
    × (held_mapping (stored base w'.history "rolesmapping" r) ≡ m)
    × ((n : String)
        → r ≢ n
        → stored base w'.history "rolesmapping" n ≡ stored base w.history "rolesmapping" n)

pub other_name : (r n : String) → r ≢ n → r == n ≡ false
other_name r n d = elim (Bool-cases (r == n)) [ inl e ↦ absurd (d ((eq_iff r n).0 e)) | inr e ↦ e ]

module _ (sv : ObjectServices BindingSpec) (base : Store) (remembers : Remembers sv base)
    (accepts : AcceptsMappings sv) where
  save_mapping-Sets :
      (r : String) (m : RoleMapping) (w : World) → Sets base r m w (save_mapping sv r m w)
  unfolding save_mapping mapping_of
  save_mapping-Sets r m w = elim (Bool-cases (some_left m)) [
    | inl e ↦ (
      log w (written (object_put "rolesmapping" r (mapping m)) true),
      rw e (rw (accepts.puts w.history r (mapping m)) refl),
      rw (put-at base w.history r r (mapping m)) (rw (eq_refl r) refl),
      λ n d. rw (put-at base w.history r n (mapping m)) (rw (other_name r n d) refl),
    )
    | inr e ↦ (
      log w (written (object_removed "rolesmapping" r) true),
      rw e (rw (accepts.removals w.history r) refl),
      rw (removed-at base w.history r r) (rw (eq_refl r) (sym (nothing_left m e))),
      λ n d. rw (removed-at base w.history r n) (rw (other_name r n d) refl),
    )
  ]

  pub reconcile_existing_mapping-Sets :
      (spec : BindingSpec) (r : String) (us bs : List String) (b : Body) (w : World)
      → stored base w.history "rolesmapping" r ≡ some b
      → Sets base r
          (extended spec us bs (mapping_of b))
          w
          (reconcile_existing_mapping sv spec r us bs w)
  unfolding reconcile_existing_mapping
  reconcile_existing_mapping-Sets spec r us bs b w e = rw (remembers w.history "rolesmapping" r) (
      rw e (
        rw (mapping_answer-answer b r) (elim (Bool-cases (unchanged spec us bs (mapping_of b))) [
          | inl u ↦ rw u (
            log w (read "GetSecurityResource"),
            refl,
            rw (stored-read base "GetSecurityResource" w.history)
                (rw e (sym (extended-unchanged spec us bs (mapping_of b) u))),
            λ n d. ap (λ s. s "rolesmapping" n) (stored-read base "GetSecurityResource" w.history),
          )
          | inr u ↦ rw u (
              let (w', p, q, f) =
                save_mapping-Sets r (extended spec us bs (mapping_of b))
                  (log w (read "GetSecurityResource")) in
              (
                w',
                p,
                q,
                λ n d.
                    f n d
                    ∙ ap (λ s. s "rolesmapping" n)
                        (stored-read base "GetSecurityResource" w.history),
              ))
        ])))

  pub remove_objects_from_mapping-Sets :
      (r : String) (us bs : List String) (b : Body) (w : World)
      → stored base w.history "rolesmapping" r ≡ some b
      → Sets base r (reduced us bs (mapping_of b)) w (remove_objects_from_mapping sv r us bs w)
  unfolding remove_objects_from_mapping
  remove_objects_from_mapping-Sets r us bs b w e = rw (remembers w.history "rolesmapping" r) (
      rw e (
        rw (mapping_answer-answer b r) (elim (Bool-cases (untouched_by us bs (mapping_of b))) [
          | inl u ↦ rw u (
            log w (read "GetSecurityResource"),
            refl,
            rw (stored-read base "GetSecurityResource" w.history)
                (rw e (sym (reduced-untouched us bs (mapping_of b) u))),
            λ n d. ap (λ s. s "rolesmapping" n) (stored-read base "GetSecurityResource" w.history),
          )
          | inr u ↦ rw u (
              let (w', p, q, f) =
                save_mapping-Sets r (reduced us bs (mapping_of b))
                  (log w (read "GetSecurityResource")) in
              (
                w',
                p,
                q,
                λ n d.
                    f n d
                    ∙ ap (λ s. s "rolesmapping" n)
                        (stored-read base "GetSecurityResource" w.history),
              ))
        ])))
