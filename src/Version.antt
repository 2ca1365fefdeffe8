-- ===== src/Version.antt =====
-- internal/roost/manifest.go: release versions and the version policies of the manifest. A policy is
-- the word "latest" in any case, or a release, perhaps with a pre-release suffix.
pub mod Grammar
pub mod Order
pub mod Minimum
pub mod Tests
use roost_codegen.Prelude.{
  ℕ, zero, suc, ◌+◌, ◌-◌, ◌*◌, ◌^◌, ◌≤◌, ◌<◌, Bool, true, false, not, ◌&&◌, ◌||◌, List, [], ◌∷◌,
  ◌++◌, Option, none, some, ◌==◌, ltb, leb, if◌then◌else◌, all,
}
use roost_codegen.Prelude.Text.{Text, codes, text_eq, cut_prefix, cut_at, trim_space}

-- The numbers of a release.
abbrev pub Release : Type 0
Release = ℕ × ℕ × ℕ

abbrev pub is_digit : ℕ → Bool
is_digit c = leb b'0' c && leb c b'9'

-- The longest run of digits, and what is behind it.
unfoldable pub span_digits : Text → Text × Text
span_digits [] = ([], [])
span_digits (c ∷ s) =
    let rest = span_digits s in if is_digit c then (c ∷ rest.0, rest.1) else ([], c ∷ s)

unfoldable pub number_from : ℕ → Text → ℕ
number_from acc [] = acc
number_from acc (c ∷ s) = number_from (acc * 10 + (c - b'0')) s

-- The scan of a decimal number into Go's int, which fails where the number is too large.
abbrev pub int_limit : ℕ
int_limit = 2 ^ 63

abbrev pub scan_int : Text → Option ℕ
scan_int digits = if ltb (number_from 0 digits) int_limit then some (number_from 0 digits) else none

abbrev pub release_of : Option ℕ → Option ℕ → Option ℕ → Option Release
release_of (some major) (some minor) (some patch) = some (major, minor, patch)
release_of _ _ _ = none

abbrev pub scan_release : Text → Text → Text → Option Release
scan_release a b c = release_of (scan_int a) (scan_int b) (scan_int c)

-- `([0-9]+)`, with what is behind it.
abbrev pub run_of : Text × Text → Option (Text × Text)
run_of ([], rest) = none
run_of (c ∷ digits, rest) = some (c ∷ digits, rest)

unfoldable pub match_digits : Text → Option (Text × Text)
match_digits s = run_of (span_digits s)

abbrev pub after_dot : Text → Option Text
after_dot s = cut_prefix s (codes ".")

abbrev pub match_end : Text → Text → Option (Text × Text) → Option (Text × Text × Text)
match_end a b none = none
match_end a b (some (c, [])) = some (a, b, c)
match_end a b (some (c, d ∷ rest)) = none

abbrev pub match_third : Text → Text → Option Text → Option (Text × Text × Text)
match_third a b none = none
match_third a b (some s) = match_end a b (match_digits s)

abbrev pub match_second : Text → Option (Text × Text) → Option (Text × Text × Text)
match_second a none = none
match_second a (some (b, rest)) = match_third a b (after_dot rest)

abbrev pub match_rest : Text → Option Text → Option (Text × Text × Text)
match_rest a none = none
match_rest a (some s) = match_second a (match_digits s)

abbrev pub match_first : Option (Text × Text) → Option (Text × Text × Text)
match_first none = none
match_first (some (a, rest)) = match_rest a (after_dot rest)

abbrev pub match_number : Option Text → Option (Text × Text × Text)
match_number none = none
match_number (some s) = match_first (match_digits s)

-- `releaseVersionPattern`.
unfoldable pub match_release : Text → Option (Text × Text × Text)
match_release s = match_number (cut_prefix s (codes "v"))

abbrev pub scan_match : Option (Text × Text × Text) → Option Release
scan_match none = none
scan_match (some (a, b, c)) = scan_release a b c

unfoldable pub release_version : Text → Option Release
release_version version = scan_match (match_release (trim_space version))

abbrev pub is_alnum : ℕ → Bool
is_alnum c = is_digit c || ((leb b'A' c && leb c b'Z') || (leb b'a' c && leb c b'z'))

abbrev pub is_suffix_char : ℕ → Bool
is_suffix_char c = is_alnum c || (c == b'.' || c == b'-')

-- `preReleaseSuffix`, behind the dash.
abbrev pub is_suffix : Text → Bool
is_suffix [] = false
is_suffix (c ∷ s) = is_alnum c && all is_suffix_char s

abbrev pub prefix_of : Text → Option (Text × Text) → Text
prefix_of version none = version
prefix_of version (some ([], suffix)) = version
prefix_of version (some (c ∷ before, suffix)) = if is_suffix suffix then c ∷ before else version

unfoldable pub release_prefix : Text → Text
release_prefix version = prefix_of (trim_space version) (cut_at b'-' (trim_space version))

-- `strings.EqualFold` with an ASCII word in lower case: two characters beyond ASCII fold onto letters.
abbrev pub fold_char : ℕ → ℕ
fold_char c =
    if leb b'A' c && leb c b'Z'
    then c + 32
    else if c == 0x17F
    then b's'
    else if c == 0x212A
    then b'k'
    else c

unfoldable pub equal_fold : Text → Text → Bool
equal_fold [] [] = true
equal_fold (c ∷ s) (d ∷ t) = fold_char c == d && equal_fold s t
equal_fold _ _ = false

unfoldable pub is_latest : Text → Bool
is_latest policy = equal_fold (trim_space policy) (codes "latest")

-- The comparison at the end of `versionAtLeast`.
abbrev pub release_at_least : Release → Release → Bool
release_at_least (major, minor, patch) (major', minor', patch') =
    if not (major == major')
    then ltb major' major
    else if not (minor == minor')
    then ltb minor' minor
    else leb patch' patch

abbrev pub at_least_of : Option Release → Release → Bool
at_least_of none floor = false
at_least_of (some release) floor = release_at_least release floor

unfoldable pub version_at_least : Text → Release → Bool
version_at_least version floor =
    if is_latest version then true else at_least_of (release_version (release_prefix version)) floor

pub data PolicyError : Type 0 where
  not_a_release : PolicyError
  wrong_major : PolicyError
  too_old : PolicyError

abbrev pub zero_or : Option Release → Release
zero_or none = (0, 0, 0)
zero_or (some release) = release

abbrev pub judge_policy : Text → Release → Option Release → Option PolicyError
judge_policy release floor none = some not_a_release
judge_policy release floor (some (major, _, _)) =
    if not (major == floor.0)
    then some wrong_major
    else if not (version_at_least release floor)
    then some too_old
    else none

unfoldable pub validate_version_policy : Text → Text → Option PolicyError
validate_version_policy value minimum =
    if is_latest value
    then none
    else judge_policy (release_prefix (trim_space value)) (zero_or (release_version minimum))
        (release_version (release_prefix (trim_space value)))

-- `resolvedModuleVersion`.
unfoldable pub resolved_module_version : Text → Text → Text
resolved_module_version policy minimum = if is_latest policy then minimum else trim_space policy
