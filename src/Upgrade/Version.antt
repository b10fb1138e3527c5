-- ===== src/Upgrade/Version.antt =====
-- validateUpgrade, over the library for semantic versions.
pub mod Allowed
use opensearch_k8s_operator.Prelude.{
  Bool, true, false, Option, none, some, List, [], ◌∷◌, String, ◌<>◌, if◌then◌else◌,
}
use opensearch_k8s_operator.Api.{Error, failed}
use opensearch_k8s_operator.Exec.{Result, ok, err}

-- github.com/Masterminds/semver. `none` of a parser is its error; a constraint is a text.
pub record Semver : Type 1 where
  pub Version : Type 0
  pub new_version : String → Option Version
  pub less_than : Version → Version → Bool
  pub inc_major : Version → Version
  pub to_string : Version → String
  pub check : String → Version → Option Bool

abbrev pub version_downgrade : Error
version_downgrade = failed "version requested is downgrade"

abbrev pub major_version_jump : Error
major_version_jump = failed "version request is more than 1 major version ahead"

abbrev pub bad_version : Error
bad_version = failed "Invalid Semantic Version"

module _ (semver : Semver) where
  abbrev checked : Option Bool → Result Error (Unit {0})
  checked none = err bad_version
  checked (some true) = ok tt
  checked (some false) = err major_version_jump

  abbrev pub validate : semver.Version → semver.Version → Result Error (Unit {0})
  validate existing new =
      let next_major = semver.inc_major (semver.inc_major existing) in
      if semver.less_than new existing
      then err version_downgrade
      else checked (semver.check ("< " <> semver.to_string next_major) new)

  abbrev validate_new : semver.Version → Option semver.Version → Result Error (Unit {0})
  validate_new existing none = err bad_version
  validate_new existing (some new) = validate existing new

  abbrev validate_parsed : Option semver.Version → Option semver.Version → Result Error (Unit {0})
  validate_parsed none new = err bad_version
  validate_parsed (some existing) new = validate_new existing new

  -- The versions of the status and of the spec.
  unfoldable pub validate_upgrade : String → String → Result Error (Unit {0})
  validate_upgrade current requested =
      validate_parsed (semver.new_version current) (semver.new_version requested)
