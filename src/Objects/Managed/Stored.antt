-- ===== src/Objects/Managed/Stored.antt =====
-- The security API as a map from resources and names to bodies, and what a run makes of the map.
use mathlib.Core.Path.{◌∙◌}
use opensearch_k8s_operator.Prelude.{
  ◌≡◌, refl, Bool, true, false, not, ◌&&◌, Option, none, some, [], ◌∷◌, ◌++◌, String, ◌==◌, eq_refl,
  eq_iff, ◌⊎◌, Bool-cases, inl, inr, All, if◌then◌else◌,
}
use opensearch_k8s_operator.Api.Objects.{
  Body, Object, object_put, object_removed, object_status_put, secret_put, job_created, job_removed,
}
use opensearch_k8s_operator.Exec.{
  Event, read, pod_deleted, sts_applied, sts_removed, sts_status_put, status_put, settings_put,
  written, History, World, ok,
}
use opensearch_k8s_operator.Objects.{Response, ObjectServices, named, should_update_of, write_error}
use opensearch_k8s_operator.Objects.Managed.{Kind, sync_object}
use opensearch_k8s_operator.Objects.Managed.Untouched.{KeepsObjects}

abbrev pub Store : Type 0
Store = String → String → Option Body

-- The entry that an event changes, and what stands there afterwards.
abbrev pub effect : Event → Option (String × String × Option Body)
effect (written (object_put r n b) true) = some (r, n, some b)
effect (written (object_removed r n) true) = some (r, n, none)
effect (written (object_put r n b) false) = none
effect (written (object_removed r n) false) = none
effect (written (object_status_put s) b) = none
effect (written (secret_put s) b) = none
effect (written (job_created j) b) = none
effect (written (job_removed n) b) = none
effect (read s) = none
effect (pod_deleted n b) = none
effect (sts_applied s b) = none
effect (sts_removed n b) = none
effect (sts_status_put s b) = none
effect (status_put s b) = none
effect (settings_put p t b) = none

abbrev pub changed : Option (String × String × Option Body) → Store → Store
changed none s r n = s r n
changed (some (r', n', x)) s r n = if r' == r && n' == n then x else s r n

-- What the accepted writes make of the entries that were there at first.
unfoldable pub stored : Store → History → Store
stored base [] = base
stored base (e ∷ h) = changed (effect e) (stored base h)

unfoldable pub answer : Option Body → String → Response
answer none n = record { status_code = 404; bodies = ok [] }
answer (some b) n = record { status_code = 200; bodies = ok ((n, b) ∷ []) }

-- OpenSearch answers with what was written.
abbrev pub Remembers : {S : Type 0} → ObjectServices S → Store → Type 0
Remembers sv base =
    (h : History) (r n : String) → sv.get_security h r n ≡ ok (answer (stored base h r n) n)

-- The specification: an entry that differs is replaced, a missing one is made.
unfoldable pub ensured : (Body → Body → Bool) → Body → Option Body → Option Body
ensured equal b none = some b
ensured equal b (some x) = if equal b x then some x else some b

needs : (Body → Body → Bool) → Body → Option Body → Bool
needs equal b none = true
needs equal b (some x) = not (equal b x)

should_update_of-answer :
    (equal : Body → Body → Bool) (z b : Body) (n : String) (x : Option Body)
    → should_update_of equal z n b (ok (answer x n)) ≡ ok (needs equal b x)
unfolding should_update_of answer needs named
should_update_of-answer equal z b n none = refl
should_update_of-answer equal z b n (some x) = rw (eq_refl n) refl

pub stored-read :
    (base : Store) (c : String) (h : History) → stored base (read c ∷ h) ≡ stored base h
unfolding stored
stored-read base c h = refl

-- Events that leave OpenSearch alone leave the map alone.
pub stored-keeps :
    (base : Store) (es h : History) → All KeepsObjects es → stored base (es ++ h) ≡ stored base h
unfolding stored
stored-keeps base [] h u = refl
stored-keeps base (e ∷ es) h u = unchanged e u.0 ∙ stored-keeps base es h u.1
  where
    unchanged :
        (e : Event)
        → KeepsObjects e
        → changed (effect e) (stored base (es ++ h)) ≡ stored base (es ++ h)
    unchanged (read s) k = refl
    unchanged (written (object_status_put s) b) k = refl
    unchanged (written (object_put r n x) b) k = absurd k
    unchanged (written (object_removed r n) b) k = absurd k
    unchanged (written (secret_put s) b) k = absurd k
    unchanged (written (job_created j) b) k = absurd k
    unchanged (written (job_removed n) b) k = absurd k
    unchanged (pod_deleted n b) k = absurd k
    unchanged (sts_applied s b) k = absurd k
    unchanged (sts_removed n b) k = absurd k
    unchanged (sts_status_put s b) k = absurd k
    unchanged (status_put s b) k = absurd k
    unchanged (settings_put p t b) k = absurd k

needs_cases :
    (equal : Body → Body → Bool) (b : Body) (x : Option Body)
    → ((needs equal b x ≡ true) × (ensured equal b x ≡ some b))
      ⊎ ((needs equal b x ≡ false) × (ensured equal b x ≡ x))
unfolding needs ensured
needs_cases equal b none = inl (refl, refl)
needs_cases equal b (some x) = elim (Bool-cases (equal b x)) [
  | inl e ↦ inr (rw e refl, rw e refl)
  | inr e ↦ inl (rw e refl, rw e refl)
]

-- Every write of the kind's resource is accepted.
abbrev pub Accepts : {S : Type 0} → Kind S → ObjectServices S → Type 0
Accepts k sv =
    (h : History) (n : String) (b : Body) → write_error (sv.put_security h k.resource n b) ≡ none

-- What the specification makes of a map: the entry of the object is ensured, the others stay.
unfoldable pub ensured_at : {S : Type 0} → Kind S → (Body → Body → Bool) → Object S → Store → Store
ensured_at k equal o s r n =
    if k.resource == r && o.name == n
    then ensured equal (k.request o.spec) (s k.resource o.name)
    else s r n

both_eq : (a b c d : String) → (a == b && c == d) ≡ true → (a ≡ b) × (c ≡ d)
both_eq a b c d e = elim (Bool-cases (a == b)) [
  | inl p ↦ ((eq_iff a b).0 p, (eq_iff c d).0 (let q = e in rw p at q))
  | inr p ↦ absurd (let q = e in let q' = rw p at q in cc)
]

module _ {S : Type 0} (k : Kind S) (sv : ObjectServices S) (base : Store)
    (remembers : Remembers sv base) (accepts : Accepts k sv) (o : Object S) (w : World) where
  sync_object-history : (sync_object k sv o w).0.history ≡ (
      if needs sv.equal (k.request o.spec) (stored base w.history k.resource o.name)
      then written (object_put k.resource o.name (k.request o.spec)) true
        ∷ read "GetSecurityResource"
        ∷ w.history
      else read "GetSecurityResource" ∷ w.history)
  unfolding sync_object
  sync_object-history = rw (remembers w.history k.resource o.name) (
      rw
        (should_update_of-answer sv.equal k.zero_body (k.request o.spec) o.name
          (stored base w.history k.resource o.name))
        (elim (Bool-cases
          (needs sv.equal (k.request o.spec) (stored base w.history k.resource o.name))) [
            | inl e ↦ rw e (rw (accepts _ o.name (k.request o.spec)) refl)
            | inr e ↦ rw e refl
          ]))

  -- One run of the last part of the reconciler does to the map what the specification says.
  pub sync_object-stored :
      (r n : String)
      → stored base (sync_object k sv o w).0.history r n
        ≡ ensured_at k sv.equal o (stored base w.history) r n
  unfolding stored ensured_at
  sync_object-stored r n =
      rw sync_object-history
        (elim (needs_cases sv.equal (k.request o.spec) (stored base w.history k.resource o.name)) [
          | inl (e, f) ↦ rw (e, f) refl
          | inr (e, f) ↦
              rw (e, f)
                (elim (Bool-cases (k.resource == r && o.name == n)) [
                  | inl own ↦
                      let (p, q) = both_eq k.resource r o.name n own in rw own (rw (p, q) refl)
                  | inr other ↦ rw other refl
                ])
        ])
