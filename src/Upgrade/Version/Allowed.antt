-- ===== src/Upgrade/Version/Allowed.antt =====
-- Which upgrades validateUpgrade lets through.
use mathlib.Core.Bool.{false≢true}
use opensearch_k8s_operator.Prelude.{
  ◌≡◌, ◌↔◌, refl, ap, inl, inr, Bool, true, false, some, String, ◌<>◌, Bool-cases, eq_iff,
}
use opensearch_k8s_operator.Api.{Error, failed}
use opensearch_k8s_operator.Exec.{Result, ok, err}
use opensearch_k8s_operator.Upgrade.Version.{
  Semver, validate_upgrade, version_downgrade, major_version_jump,
}

-- What the documentation of the library says of the constraint "< v": it parses, and it holds of
-- the releases that come before v. A version that is a pre-release meets no such constraint, so
-- nothing is said of it here.
pub record Documented (semver : Semver) : Type 1 where
  pub IsRelease : semver.Version → Type 0
  pub below :
      (bound v : semver.Version)
      → IsRelease v
      → semver.check ("< " <> semver.to_string bound) v ≡ some (semver.less_than v bound)

verdict : Bool → Bool → Result Error (Unit {0})
verdict true next = err version_downgrade
verdict false true = ok tt
verdict false false = err major_version_jump

message : Result Error (Unit {0}) → String
message (err (failed s)) = s
message _ = ""

jump-down : ◌≡◌ {A = Result Error (Unit {0})} (err major_version_jump) (err version_downgrade) → ⊥
unfolding message
jump-down e = false≢true ((eq_iff _ _).1 (ap message e))

verdict_iff :
    (down next : Bool)
    → ((verdict down next ≡ ok tt) ↔ ((down ≡ false) × (next ≡ true)))
      × ((verdict down next ≡ err version_downgrade) ↔ (down ≡ true))
unfolding verdict
verdict_iff true next = (((λ e. cc), (λ (e, f). cc)), ((λ e. refl), (λ e. refl)))
verdict_iff false true = (((λ e. (refl, refl)), (λ e. refl)), ((λ e. cc), (λ e. cc)))
verdict_iff false false = (((λ e. cc), (λ (e, f). cc)), ((λ e. absurd (jump-down e)), (λ e. cc)))

module _ (semver : Semver) (current requested : String) (existing new : semver.Version) where
  abbrev next_but_one : semver.Version
  next_but_one = semver.inc_major (semver.inc_major existing)

  validate_upgrade-verdict :
      semver.new_version current ≡ some existing
      → semver.new_version requested ≡ some new
      → semver.check ("< " <> semver.to_string next_but_one) new
        ≡ some (semver.less_than new next_but_one)
      → validate_upgrade semver current requested
        ≡ verdict (semver.less_than new existing) (semver.less_than new next_but_one)
  unfolding validate_upgrade verdict
  validate_upgrade-verdict e f law = elim (Bool-cases (semver.less_than new existing)) [
    | inl b ↦ rw (e, f, b)
    | inr b ↦ elim (Bool-cases (semver.less_than new next_but_one)) [
      | inl c ↦ rw (e, f, b, law, c)
      | inr c ↦ rw (e, f, b, law, c)
    ]
  ]

  -- For versions that parse, where the new one is a release: the upgrade is allowed exactly if the
  -- new version is not before the existing one and is before the major release after the next; it
  -- is refused as a downgrade exactly if it is before the existing one.
  pub validate_upgrade-allowed :
      (documented : Documented semver)
      → documented.IsRelease new
      → semver.new_version current ≡ some existing
      → semver.new_version requested ≡ some new
      → ((validate_upgrade semver current requested ≡ ok tt) ↔ (
          (semver.less_than new existing ≡ false)
          × (semver.less_than new (semver.inc_major (semver.inc_major existing)) ≡ true)))
        × ((validate_upgrade semver current requested ≡ err version_downgrade)
            ↔ (semver.less_than new existing ≡ true))
  validate_upgrade-allowed documented release e f =
      rw (validate_upgrade-verdict e f (documented.below next_but_one new release))
        (verdict_iff (semver.less_than new existing) (semver.less_than new next_but_one))
