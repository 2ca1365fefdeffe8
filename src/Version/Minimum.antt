-- ===== src/Version/Minimum.antt =====
-- internal/roost/manifest.go: the minimum versions as releases.
use roost_codegen.Prelude.{some, ◌≡◌, refl}
use roost_codegen.Prelude.Text.{codes, cut_prefix, trim_space, trim_left, is_space}
use roost_codegen.Version.{span_digits, number_from, match_digits, match_release, release_version}

pub minimum_core : release_version (codes "v1.15.7") ≡ some (1, 15, 7)
unfolding release_version match_release match_digits span_digits number_from cut_prefix trim_space
    trim_left is_space
minimum_core = refl

pub minimum_kit : release_version (codes "v1.14.8") ≡ some (1, 14, 8)
unfolding release_version match_release match_digits span_digits number_from cut_prefix trim_space
    trim_left is_space
minimum_kit = refl

pub minimum_codegen : release_version (codes "v1.15.0") ≡ some (1, 15, 0)
unfolding release_version match_release match_digits span_digits number_from cut_prefix trim_space
    trim_left is_space
minimum_codegen = refl
