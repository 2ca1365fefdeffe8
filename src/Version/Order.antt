-- ===== src/Version/Order.antt =====
-- The order of releases, and the policies that the manifest accepts.
use roost_codegen.Prelude.{
  ℕ, ◌≤◌, ◌<◌, true, false, none, some, ◌≡◌, ◌↔◌, ◌⊎◌, inl, inr, refl, sym, arith, ==_iff, ◌==◌,
  ==_iff, if◌then◌else◌, Bool-cases, Option-cases, [], ◌∷◌, ◌++◌, all, and-true, ap, ◌∙◌, subst,
}
use roost_codegen.Prelude.Text.{Text, codes, trim_space, cut_at}
use roost_codegen.Prelude.Trim.{trim_space-trim_space}
use roost_codegen.Version.Grammar.{IsDigits, release_text, release_version-StandsFor}
use roost_codegen.Version.{
  Release, is_digit, release_version, release_prefix, is_latest, release_at_least, at_least_of,
  version_at_least, equal_fold, scan_match, match_release, prefix_of, not_a_release, wrong_major,
  too_old, zero_or, judge_policy, validate_version_policy,
}

-- The lexicographic order.
infix 20 ◌⊒◌
abbrev pub ◌⊒◌ : Release → Release → Type 0
(a, b, c) ⊒ (x, y, z) = (x < a) ⊎ ((a ≡ x) × ((y < b) ⊎ ((b ≡ y) × (z ≤ c))))

release_at_least_iff : (r s : Release) → (release_at_least r s ≡ true) ↔ (r ⊒ s)
release_at_least_iff (a, b, c) (x, y, z) = ground arith

-- A version is at least a release exactly when it is "latest" in some case, or its release is not
-- before it in the lexicographic order.
version_at_least_iff :
    (version : Text) (floor : Release)
    → (version_at_least version floor ≡ true) ↔ (
        (is_latest version ≡ true)
        ⊎ ((r : Release) × (release_version (release_prefix version) ≡ some r) × (r ⊒ floor)))
unfolding version_at_least
version_at_least_iff version floor = (to, from)
  where
    to :
        (if is_latest version
            then true
            else at_least_of (release_version (release_prefix version)) floor)
          ≡ true
        → (is_latest version ≡ true)
          ⊎ ((r : Release) × (release_version (release_prefix version) ≡ some r) × (r ⊒ floor))
    to h = elim (Bool-cases (is_latest version)) [
      | inl latest ↦ inl latest
      | inr pinned ↦ elim (Option-cases (release_version (release_prefix version))) [
        | inl unread ↦ let stuck : false ≡ true = rw (pinned, unread) at h in cc
        | inr (r, read) ↦
            let enough : release_at_least r floor ≡ true = rw (pinned, read) at h in
            inr (r, read, (release_at_least_iff r floor).0 enough)
      ]
    ]

    from :
        ((is_latest version ≡ true)
          ⊎ ((r : Release) × (release_version (release_prefix version) ≡ some r) × (r ⊒ floor)))
        → (if is_latest version
            then true
            else at_least_of (release_version (release_prefix version)) floor)
          ≡ true
    from (inl latest) = rw latest refl
    from (inr (r, read, enough)) = elim (Bool-cases (is_latest version)) [
      | inl latest ↦ rw latest refl
      | inr pinned ↦ rw (pinned, read) ((release_at_least_iff r floor).1 enough)
    ]

-- A text without a dash has no suffix to cut off.
no_dash : (c : ℕ) → is_digit c ≡ true → (c == b'-') ≡ false
no_dash c h = ground arith

cut_at-append_none :
    (sep : ℕ) (s t : Text) → cut_at sep s ≡ none → cut_at sep t ≡ none → cut_at sep (s ++ t) ≡ none
unfolding cut_at
cut_at-append_none sep [] t hs ht = ht
cut_at-append_none sep (c ∷ s) t hs ht = elim (Bool-cases (c == sep)) [
  | inl found ↦ let stuck : some ([], s) ≡ none = rw (cut_at, found) at hs in cc
  | inr other ↦ elim (Option-cases (cut_at sep s)) [
    | inl uncut ↦ rw (cut_at, other, cut_at-append_none sep s t uncut ht) refl
    | inr ((b, a), cut) ↦ let stuck : some (c ∷ b, a) ≡ none = rw (cut_at, other, cut) at hs in cc
  ]
]

digits-cut_at : (s : Text) → all is_digit s ≡ true → cut_at b'-' s ≡ none
unfolding cut_at
digits-cut_at [] h = refl
digits-cut_at (c ∷ s) h =
    let (digit, digits) = and-true (is_digit c) (all is_digit s) h in
    rw (cut_at, no_dash c digit, digits-cut_at s digits) refl

-- The prefix of a release is taken once: the text of a release has no dash, and no white space round
-- it.
release_text-cut_at :
    (a b c : Text) → IsDigits a → IsDigits b → IsDigits c → cut_at b'-' (release_text a b c) ≡ none
unfolding cut_at
release_text-cut_at a b c (_, is_a) (_, is_b) (_, is_c) =
    cut_at-append_none b'-' (codes "v") (a ++ (codes "." ++ (b ++ (codes "." ++ c)))) refl (
      cut_at-append_none b'-' a (codes "." ++ (b ++ (codes "." ++ c))) (digits-cut_at a is_a) (
        cut_at-append_none b'-' (codes ".") (b ++ (codes "." ++ c)) refl (
          cut_at-append_none b'-' b (codes "." ++ c) (digits-cut_at b is_b)
            (cut_at-append_none b'-' (codes ".") c refl (digits-cut_at c is_c)))))

release_prefix-release :
    (s : Text) (r : Release)
    → release_version s ≡ some r
    → release_version (release_prefix s) ≡ some r
unfolding release_prefix release_version
release_prefix-release s r e =
    let (a, b, c, is_text, (is_a, is_b, is_c), _, _) = release_version-StandsFor s r e in
    let uncut : cut_at b'-' (trim_space s) ≡ none =
      subst (λ t. cut_at b'-' t ≡ none) (sym is_text) (release_text-cut_at a b c is_a is_b is_c) in
    ap (λ o. scan_match (match_release (trim_space (prefix_of (trim_space s) o)))) uncut
    ∙ ap (λ t. scan_match (match_release t)) (trim_space-trim_space s)
    ∙ e

-- The text of a release is not "latest".
release-is_latest : (s : Text) (r : Release) → release_version s ≡ some r → is_latest s ≡ false
unfolding is_latest equal_fold
release-is_latest s r e =
    let (a, b, c, is_text, _, _, _) = release_version-StandsFor s r e in
    subst (λ t. equal_fold t (codes "latest") ≡ false) (sym is_text) refl

-- What `validateVersionPolicy` accepts.
abbrev pub IsAccepted : Text → Release → Type 0
IsAccepted value floor =
    (is_latest value ≡ true)
    ⊎ ((r : Release) × (release_version (release_prefix (trim_space value)) ≡ some r)
        × (r.0 ≡ floor.0)
        × (r ⊒ floor))

judge_policy_sound :
    (release : Text) (floor : Release)
    → judge_policy release floor (release_version release) ≡ none
    → (r : Release) × (release_version release ≡ some r) × (r.0 ≡ floor.0) × (r ⊒ floor)
judge_policy_sound release floor e = elim (Option-cases (release_version release)) [
  | inl unread ↦ let stuck : some not_a_release ≡ none = rw unread at e in cc
  | inr ((major, minor, patch), read) ↦ elim (Bool-cases (major == floor.0)) [
    | inr other ↦ let stuck : some wrong_major ≡ none = rw (read, other) at e in cc
    | inl same ↦ elim (Bool-cases (version_at_least release floor)) [
      | inr older ↦ let stuck : some too_old ≡ none = rw (read, same, older) at e in cc
      | inl enough ↦
          let is_major : major ≡ floor.0 = (==_iff major floor.0).0 same in
          (
            (major, minor, patch),
            read,
            is_major,
            after (major, minor, patch) read ((version_at_least_iff release floor).0 enough),
          )
    ]
  ]
]
  where
    after :
        (r : Release)
        → release_version release ≡ some r
        → (is_latest release ≡ true)
          ⊎ ((r' : Release) × (release_version (release_prefix release) ≡ some r') × (r' ⊒ floor))
        → r ⊒ floor
    after r read (inl latest) =
        let pinned = release-is_latest release r read in
        let stuck : true ≡ false = sym latest ∙ pinned in cc
    after r read (inr (r', read', enough)) =
        let same : some r' ≡ some r = sym read' ∙ release_prefix-release release r read in
        let is_r : ◌≡◌ {A = Release} r' r = cc in subst (λ (x : Release). x ⊒ floor) is_r enough

judge_policy_complete :
    (release : Text) (floor r : Release)
    → release_version release ≡ some r
    → r.0 ≡ floor.0
    → r ⊒ floor
    → judge_policy release floor (release_version release) ≡ none
judge_policy_complete release floor (major, minor, patch) read same enough =
    let is_major : (major == floor.0) ≡ true = (==_iff major floor.0).1 same in
    let at_least : version_at_least release floor ≡ true = (version_at_least_iff release floor).1 (
      inr (
        (major, minor, patch),
        release_prefix-release release (major, minor, patch) read,
        enough,
      )) in
    rw (read, is_major, at_least) refl

-- With a minimum that is a release: `validateVersionPolicy` accepts exactly the policies that are
-- "latest" in some case, and those whose release, without the pre-release suffix, has the minimum's
-- major number and is not before the minimum in the lexicographic order.
pub validate_version_policy_iff :
    (value minimum : Text) (floor : Release)
    → release_version minimum ≡ some floor
    → (validate_version_policy value minimum ≡ none) ↔ IsAccepted value floor
unfolding validate_version_policy
validate_version_policy_iff value minimum floor is_floor = (to, from)
  where
    release : Text
    release = release_prefix (trim_space value)

    Judged : Type 0
    Judged =
        (if is_latest value
          then none
          else judge_policy (release_prefix (trim_space value)) (zero_or (release_version minimum))
              (release_version (release_prefix (trim_space value))))
        ≡ none

    to : Judged → IsAccepted value floor
    to h = elim (Bool-cases (is_latest value)) [
      | inl latest ↦ inl latest
      | inr pinned ↦
          let judged : judge_policy (release_prefix (trim_space value)) floor
                (release_version (release_prefix (trim_space value)))
              ≡ none =
            rw (pinned, is_floor) at h in
          inr (judge_policy_sound (release_prefix (trim_space value)) floor judged)
    ]

    from : IsAccepted value floor → Judged
    from (inl latest) = rw latest refl
    from (inr (r, read, same, enough)) = elim (Bool-cases (is_latest value)) [
      | inl latest ↦ rw latest refl
      | inr pinned ↦
          rw (pinned, is_floor)
            (judge_policy_complete (release_prefix (trim_space value)) floor r read same enough)
    ]
