-- ===== src/Manifest/Ids.antt =====
-- internal/roost/manifest.go: the id spaces that `Validate` accepts, and the ids that are given out
-- in them.
use roost_codegen.Prelude.{
  String, Bool, true, false, not, ◌&&◌, ◌||◌, [], ◌++◌, Option, none, some, str_eq, str_eq_iff,
  if◌then◌else◌, ◌≡◌, ◌↔◌, ◌⊎◌, inl, inr, refl, sym, ◌∙◌, arith, All, Bool-cases, and-true,
}
use roost_codegen.Prelude.Text.{codes}
use roost_codegen.Prelude.Int.{ℤ, pos, negsuc, ◌≤ℤ◌, leb_ℤ, leb_ℤ_iff}
use roost_codegen.Ids.{IdSpace, IdRange, lookup}
use roost_codegen.Manifest.{Manifest}
use roost_codegen.Manifest.Names.{valid_name}
use roost_codegen.Manifest.Errors.{
  error_if, bad_range, over_limit, bad_group, group_over_limit, error_if_iff, join_iff, each_iff,
  All-map,
}
use roost_codegen.Manifest.Validate.{
  encoding_limits, exceeds, is_zero, is_bad_range, validate_group, validate_space, validate_ids,
}

-- A range of positive numbers.
abbrev pub IsRange : ℤ → ℤ → Type 0
IsRange min max = (pos 1 ≤ℤ min) × (min ≤ℤ max)

is_bad_range_iff : (min max : ℤ) → (is_bad_range min max ≡ false) ↔ IsRange min max
unfolding leb_ℤ
is_bad_range_iff (pos a) (pos b) = ground arith
is_bad_range_iff (pos a) (negsuc b) = ground arith
is_bad_range_iff (negsuc a) max = ground arith

abbrev pub WithinLimit : Option ℤ → ℤ → Type 0
WithinLimit none max = Unit
WithinLimit (some limit) max = max ≤ℤ limit

exceeds_iff : (limit : Option ℤ) (max : ℤ) → (exceeds limit max ≡ false) ↔ WithinLimit limit max
exceeds_iff none max = ((λ h. tt), λ h. refl)
exceeds_iff (some limit) max = ground (arith, leb_ℤ_iff max limit)

is_zero_iff : (n : ℤ) → (is_zero n ≡ true) ↔ (n ≡ pos 0)
unfolding leb_ℤ
is_zero_iff (pos a) = ground arith
is_zero_iff (negsuc a) = ground arith

abbrev pub GroupIsValid : String → String × IdRange → Type 0
GroupIsValid kind (group, r) =
    (valid_name (codes group) ≡ true)
    × IsRange r.min r.max
    × (kind ≡ "protocol" → r.max ≤ℤ pos 4294967295)

-- What a space has to be: unset, or a range within the limit of the framework's encoding of the kind;
-- and its groups.
abbrev pub SpaceIsValid : String → IdSpace → Type 0
SpaceIsValid kind space =
    (((space.min ≡ pos 0) × (space.max ≡ pos 0))
      ⊎ (IsRange space.min space.max × WithinLimit (lookup kind encoding_limits) space.max))
    × All (GroupIsValid kind) space.groups

neither : (a b : Bool) → (not a || b) ≡ false → (a ≡ true) × (b ≡ false)
neither a b h = ground arith

not_both : (a b : Bool) → (a && not b) ≡ false → a ≡ true → b ≡ true
not_both a b h ha = ground arith

group_iff :
    (kind : String) (entry : String × IdRange)
    → (validate_group kind entry ≡ []) ↔ GroupIsValid kind entry
unfolding validate_group
group_iff kind (group, r) = (to, from)
  where
    bad : Bool
    bad = not (valid_name (codes group)) || is_bad_range r.min r.max

    over : Bool
    over = str_eq kind "protocol" && not (leb_ℤ r.max (pos 4294967295))

    to :
        error_if (not (valid_name (codes group)) || is_bad_range r.min r.max) (bad_group kind group)
            ++ error_if
                (str_eq kind "protocol" && not (leb_ℤ r.max (pos 4294967295)))
                (group_over_limit kind group)
          ≡ []
        → GroupIsValid kind (group, r)
    to h =
        let (h1, h2) = (join_iff _ _).0 h in
        let good =
          (error_if_iff (not (valid_name (codes group)) || is_bad_range r.min r.max)
              (bad_group kind group)).0
            h1 in
        let below =
          (error_if_iff (str_eq kind "protocol" && not (leb_ℤ r.max (pos 4294967295)))
              (group_over_limit kind group)).0
            h2 in
        let (named, ranged) = neither (valid_name (codes group)) (is_bad_range r.min r.max) good in
        (
          named,
          (is_bad_range_iff r.min r.max).0 ranged,
          (λ same. (leb_ℤ_iff r.max (pos 4294967295)).0 (
              not_both (str_eq kind "protocol") (leb_ℤ r.max (pos 4294967295)) below
                ((str_eq_iff kind "protocol").1 same))),
        )

    from :
        GroupIsValid kind (group, r)
        → error_if
              (not (valid_name (codes group)) || is_bad_range r.min r.max)
              (bad_group kind group)
            ++ error_if
                (str_eq kind "protocol" && not (leb_ℤ r.max (pos 4294967295)))
                (group_over_limit kind group)
          ≡ []
    from (named, ranged, limited) =
        let fits : (str_eq kind "protocol" && not (leb_ℤ r.max (pos 4294967295))) ≡ false =
          elim (Bool-cases (str_eq kind "protocol")) [
            | inl same ↦
                let low =
                  (leb_ℤ_iff r.max (pos 4294967295)).1
                    (limited ((str_eq_iff kind "protocol").0 same)) in
                rw (same, low) refl
            | inr other ↦ rw other refl
          ] in
        rw (named, (is_bad_range_iff r.min r.max).1 ranged, fits) refl

main_iff :
    (kind : String) (min max : ℤ)
    → ((if is_zero min && is_zero max
          then []
          else (error_if (is_bad_range min max) (bad_range kind)
              ++ error_if (exceeds (lookup kind encoding_limits) max) (over_limit kind)))
        ≡ [])
      ↔ (((min ≡ pos 0) × (max ≡ pos 0))
          ⊎ (IsRange min max × WithinLimit (lookup kind encoding_limits) max))
main_iff kind min max = elim (Bool-cases (is_zero min && is_zero max)) [
  | inl unset ↦
      let (a, b) = and-true (is_zero min) (is_zero max) unset in
      rw unset ((λ h. inl ((is_zero_iff min).0 a, (is_zero_iff max).0 b)), (λ h. refl))
  | inr given ↦ rw given (
    (λ h.
        let (h1, h2) = (join_iff _ _).0 h in
        let ranged = (error_if_iff (is_bad_range min max) (bad_range kind)).0 h1 in
        let below =
          (error_if_iff (exceeds (lookup kind encoding_limits) max) (over_limit kind)).0 h2 in
        inr (
          (is_bad_range_iff min max).0 ranged,
          (exceeds_iff (lookup kind encoding_limits) max).0 below,
        )),
    (λ h. elim h [
      | inl (a, b) ↦
          let unset : (is_zero min && is_zero max) ≡ true =
            rw ((is_zero_iff min).1 a, (is_zero_iff max).1 b) refl in
          let clash : true ≡ false = sym unset ∙ given in cc
      | inr (ranged, below) ↦
          rw
            (
              (is_bad_range_iff min max).1 ranged,
              (exceeds_iff (lookup kind encoding_limits) max).1 below,
            )
            refl
    ]),
  )
]

pub space_iff :
    (kind : String) (space : IdSpace) → (validate_space kind space ≡ []) ↔ SpaceIsValid kind space
unfolding validate_space
space_iff kind space = (
  (λ h.
      let (h1, h2) = (join_iff _ _).0 h in
      (
        (main_iff kind space.min space.max).0 h1,
        All-map (λ entry. (group_iff kind entry).0) space.groups
            ((each_iff (validate_group kind) space.groups).0 h2),
      )),
  (λ (main, groups). (join_iff _ _).1 (
    (main_iff kind space.min space.max).1 main,
    (each_iff (validate_group kind) space.groups).1
        (All-map (λ entry. (group_iff kind entry).1) space.groups groups),
  )),
)

-- `Validate` reports no error of the id spaces exactly when each space is unset or a range of positive
-- numbers within the limit of the framework's encoding (255 for entities, 65535 for components,
-- 4294967295 for protocol messages), and each of its groups has a valid name and a range of positive
-- numbers, for protocol messages within the limit.
pub validate_ids_iff :
    (m : Manifest) → (validate_ids m ≡ []) ↔ All (λ entry. SpaceIsValid entry.0 entry.1) m.ids
unfolding validate_ids
validate_ids_iff m = (
  (λ h.
      All-map (λ entry. (space_iff entry.0 entry.1).0) m.ids
        ((each_iff (λ (entry : String × IdSpace). validate_space entry.0 entry.1) m.ids).0 h)),
  (λ valid.
      (each_iff (λ (entry : String × IdSpace). validate_space entry.0 entry.1) m.ids).1
        (All-map (λ entry. (space_iff entry.0 entry.1).1) m.ids valid)),
)
