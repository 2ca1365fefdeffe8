-- ===== src/Version/Tests.antt =====
-- Runs of the version checks.
use roost_codegen.Prelude.{none, some, ◌≡◌, ◌↔◌, refl}
use roost_codegen.Prelude.Text.{codes, cut_prefix, cut_at, trim_space, trim_left, is_space}
use roost_codegen.Version.{
  span_digits, number_from, match_digits, match_release, release_version, release_prefix,
  equal_fold, is_latest, version_at_least, validate_version_policy, wrong_major, too_old,
  not_a_release, resolved_module_version,
}
use roost_codegen.Version.Grammar.{
  StandsFor, IsDigits, release_text, release_version-StandsFor, match_release_iff,
}
use roost_codegen.Version.Order.{IsAccepted, validate_version_policy_iff}
use roost_codegen.Version.Minimum.{minimum_core}

reads : release_version (codes " v1.15.7 ") ≡ some (1, 15, 7)
unfolding release_version match_release match_digits span_digits number_from cut_prefix trim_space
    trim_left is_space
reads = refl

overflows : release_version (codes "v9223372036854775808.0.0") ≡ none
unfolding release_version match_release match_digits span_digits number_from cut_prefix trim_space
    trim_left is_space
overflows = refl

policies :
    (validate_version_policy (codes "LATEST") (codes "v1.15.7") ≡ none)
    × (validate_version_policy (codes "v1.15.7-alpha.4") (codes "v1.15.7") ≡ none)
    × (validate_version_policy (codes "v1.14.9") (codes "v1.15.7") ≡ some too_old)
    × (validate_version_policy (codes "v2.0.0") (codes "v1.15.7") ≡ some wrong_major)
    × (validate_version_policy (codes "v1.15") (codes "v1.15.7") ≡ some not_a_release)
unfolding validate_version_policy version_at_least release_version release_prefix match_release
    match_digits span_digits number_from cut_prefix cut_at trim_space trim_left is_space is_latest
    equal_fold
policies = (refl, refl, refl, refl, refl)

resolves : resolved_module_version (codes "latest") (codes "v1.15.7") ≡ codes "v1.15.7"
unfolding resolved_module_version is_latest equal_fold trim_space trim_left is_space
resolves = refl

release_version-StandsFor_example : StandsFor (trim_space (codes " v1.15.7 ")) (1, 15, 7)
release_version-StandsFor_example = release_version-StandsFor (codes " v1.15.7 ") (1, 15, 7) reads

match_release_iff_example :
    (match_release (codes "v1.2.3") ≡ some (codes "1", codes "2", codes "3")) ↔ (
      (codes "v1.2.3" ≡ release_text (codes "1") (codes "2") (codes "3"))
      × IsDigits (codes "1")
      × IsDigits (codes "2")
      × IsDigits (codes "3"))
match_release_iff_example = match_release_iff (codes "v1.2.3") (codes "1") (codes "2") (codes "3")

validate_version_policy_iff_example :
    (validate_version_policy (codes "v1.15.7-alpha.4") (codes "v1.15.7") ≡ none)
    ↔ IsAccepted (codes "v1.15.7-alpha.4") (1, 15, 7)
validate_version_policy_iff_example =
    validate_version_policy_iff (codes "v1.15.7-alpha.4") (codes "v1.15.7") (1, 15, 7) minimum_core
