-- ===== src/Manifest/Given.antt =====
-- internal/roost/manifest.go and id.go: the ids that `NextID` gives out in the spaces of a manifest
-- that `Validate` accepts.
use roost_codegen.Prelude.{
  ℕ, zero, suc, ◌+◌, ◌-◌, ◌≤◌, String, Bool, true, false, not, ◌||◌, List, [], ◌∷◌, none, some,
  str_eq, str_eq_iff, ◌≡◌, ◌≢◌, ◌⊎◌, inl, inr, refl, sym, ap, ◌∙◌, subst, arith, All, Bool-cases,
  leb,
}
use roost_codegen.Prelude.Int.{ℤ, pos, negsuc, ◌≤ℤ◌, leb_ℤ}
use roost_codegen.Ids.{
  IdSpace, IdRange, IdUse, lookup, Choice, next, no_range, not_configured, no_group, exhausted,
  out_of_fuel, int_max, on_int, next_id, is_used, next_from, next_between, next_in_space,
}
use roost_codegen.Ids.Next.{
  Names, main, of_group, Chosen, next_between-Chosen, Answers, next_id-Answers,
}
use roost_codegen.Manifest.{Manifest}
use roost_codegen.Prelude.Text.{trim_space}
use roost_codegen.Manifest.Names.{valid_name}
use roost_codegen.Manifest.Validate.{encoding_limits, validate_space, validate_ids}
use roost_codegen.Manifest.Ids.{
  IsRange, WithinLimit, GroupIsValid, SpaceIsValid, space_iff, validate_ids_iff,
}

All-lookup :
    {V : Type 0} (P : String × V → Type 0) (key : String) (value : V) (entries : List (String × V))
    → All P entries
    → lookup key entries ≡ some value
    → P (key, value)
unfolding lookup
All-lookup P key value [] _ h = cc
All-lookup P key value ((k, v) ∷ rest) (here, later) h = elim (Bool-cases (str_eq k key)) [
  | inl same ↦
      let found : some v ≡ some value = rw same at h in
      let values : v ≡ value = cc in
      subst (λ w. P (key, w)) values (subst (λ l. P (l, v)) ((str_eq_iff k key).0 same) here)
  | inr other ↦ All-lookup P key value rest later (rw other at h)
]

not_zero : (n : ℤ) → pos 1 ≤ℤ n → ¬ (n ≡ pos 0)
not_zero n h e = let low : 1 ≤ 0 = subst (λ x. pos 1 ≤ℤ x) e h in omega arith

≤ℤ-trans : (a b c : ℤ) → a ≤ℤ b → b ≤ℤ c → a ≤ℤ c
≤ℤ-trans (pos a) (pos b) (pos c) h k = omega arith
≤ℤ-trans (pos a) (pos b) (negsuc c) h k = absurd k
≤ℤ-trans (pos a) (negsuc b) c h k = absurd h
≤ℤ-trans (negsuc a) b (pos c) h k = tt
≤ℤ-trans (negsuc a) (pos b) (negsuc c) h k = absurd k
≤ℤ-trans (negsuc a) (negsuc b) (negsuc c) h k = omega arith

protocol_limit :
    (limit : ℤ) → lookup "protocol" encoding_limits ≡ some limit → pos 4294967295 ≤ℤ limit
unfolding lookup
protocol_limit limit h =
    let same : pos 4294967295 ≡ limit = cc in subst (λ x. pos 4294967295 ≤ℤ x) same (omega arith)

limit-below :
    (kind : String) (limit : ℤ) → lookup kind encoding_limits ≡ some limit → limit ≤ℤ pos 4294967295
unfolding lookup
limit-below kind limit h = elim (Bool-cases (str_eq "entity" kind)) [
  | inl entity ↦
      let got : some (pos 255) ≡ some limit = rw entity at h in
      let same : pos 255 ≡ limit = cc in subst (λ x. x ≤ℤ pos 4294967295) same (omega arith)
  | inr not_entity ↦ elim (Bool-cases (str_eq "component" kind)) [
    | inl component ↦
        let got : some (pos 65535) ≡ some limit = rw (not_entity, component) at h in
        let same : pos 65535 ≡ limit = cc in subst (λ x. x ≤ℤ pos 4294967295) same (omega arith)
    | inr not_component ↦ elim (Bool-cases (str_eq "protocol" kind)) [
      | inl protocol ↦
          let got : some (pos 4294967295) ≡ some limit =
            rw (not_entity, not_component, protocol) at h in
          let same : pos 4294967295 ≡ limit = cc in
          subst (λ x. x ≤ℤ pos 4294967295) same (omega arith)
      | inr not_protocol ↦
          let got : none ≡ some limit = rw (not_entity, not_component, not_protocol) at h in cc
    ]
  ]
]

module _ (m : Manifest) (uses : List IdUse) (kind group : String)
    (valid : validate_ids m ≡ []) where
  space-IsValid : (space : IdSpace) → lookup kind m.ids ≡ some space → SpaceIsValid kind space
  space-IsValid space found =
      All-lookup (λ entry. SpaceIsValid entry.0 entry.1) kind space m.ids
        ((validate_ids_iff m).0 valid) found

  group-IsValid :
      (space : IdSpace) (r : IdRange)
      → lookup kind m.ids ≡ some space
      → lookup group space.groups ≡ some r
      → GroupIsValid kind (group, r)
  group-IsValid space r found in_groups =
      All-lookup (GroupIsValid kind) group r space.groups (space-IsValid space found).1 in_groups

  -- Where the framework's encoding of a kind has a limit, what `NextID` gives out in the spaces of a
  -- valid manifest is positive and within it, in the main range of the kind and in every group of
  -- protocol messages.
  pub next_id-WithinLimit :
      (id limit : ℤ)
      → lookup kind encoding_limits ≡ some limit
      → (group ≡ "") ⊎ (kind ≡ "protocol")
      → next_id m.ids uses kind group ≡ next id
      → (pos 1 ≤ℤ id) × (id ≤ℤ limit)
  next_id-WithinLimit id limit has_limit given e =
      let (min, max, names, chosen) =
        subst (Answers m.ids uses kind group) e (next_id-Answers m.ids uses kind group) in
      bounded id min max (limited min max names (positive id min max chosen)) chosen
    where
      positive : (id min max : ℤ) → Chosen (is_used kind uses) min max (next id) → pos 1 ≤ℤ min
      positive (pos n) min max chosen = chosen.positive
      positive (negsuc n) min max chosen = chosen.positive

      limited : (min max : ℤ) → Names m.ids kind group min max → pos 1 ≤ℤ min → max ≤ℤ limit
      limited min max (main space found same low high) starts = elim (space-IsValid space found).0 [
        | inl (unset, _) ↦ absurd (not_zero min starts (low ∙ unset))
        | inr (_, below) ↦
            let fits : WithinLimit (some limit) space.max =
              subst (λ l. WithinLimit l space.max) has_limit below in
            subst (λ x. x ≤ℤ limit) (sym high) fits
      ]
      limited min max (of_group space r found other in_group low high) starts = elim given [
        | inl same ↦ absurd (other same)
        | inr at_protocol ↦
            let (_, _, below) = group-IsValid space r found in_group in
            subst (λ x. x ≤ℤ limit) (sym high)
              (≤ℤ-trans r.max (pos 4294967295) limit (below at_protocol) (
                protocol_limit limit
                  (subst (λ k. lookup k encoding_limits ≡ some limit) at_protocol has_limit)))
      ]

      bounded :
          (id min max : ℤ)
          → max ≤ℤ limit
          → Chosen (is_used kind uses) min max (next id)
          → (pos 1 ≤ℤ id) × (id ≤ℤ limit)
      bounded (pos n) min max below chosen = (
        ≤ℤ-trans (pos 1) min (pos n) chosen.positive chosen.above,
        ≤ℤ-trans (pos n) max limit chosen.below below,
      )
      bounded (negsuc n) min max below chosen =
          let over : pos int_max ≤ℤ pos 4294967295 =
            ≤ℤ-trans (pos int_max) max (pos 4294967295) chosen.ends
              (≤ℤ-trans max limit (pos 4294967295) below (limit-below kind limit has_limit)) in
          absurd (omega arith)

  -- In a valid manifest the answer "no usable range" of `NextID` means that no group was named and the
  -- kind's main range is not set.
  pub next_id-unset :
      next_id m.ids uses kind group ≡ no_range
      → (group ≡ "")
        × ((space : IdSpace) × (lookup kind m.ids ≡ some space)
            × (space.min ≡ pos 0)
            × (space.max ≡ pos 0))
  next_id-unset e =
      let (min, max, names, unusable) =
        subst (Answers m.ids uses kind group) e (next_id-Answers m.ids uses kind group) in
      unset min max names unusable
    where
      unset :
          (min max : ℤ)
          → Names m.ids kind group min max
          → ¬ IsRange min max
          → (group ≡ "")
            × ((space : IdSpace) × (lookup kind m.ids ≡ some space)
                × (space.min ≡ pos 0)
                × (space.max ≡ pos 0))
      unset min max (main space found same low high) unusable = elim (space-IsValid space found).0 [
        | inl (at_min, at_max) ↦ (same, (space, found, at_min, at_max))
        | inr (ranged, _) ↦ absurd (
            unusable (
              subst (λ x. IsRange x max) (sym low)
                (subst (λ x. IsRange space.min x) (sym high) ranged)))
      ]
      unset min max (of_group space r found other in_group low high) unusable =
          let (_, ranged, _) = group-IsValid space r found in_group in
          absurd (
            unusable (
              subst (λ x. IsRange x max) (sym low)
                (subst (λ x. IsRange r.min x) (sym high) ranged)))

next_from-first :
    (used : ℤ → Bool) (left : ℕ) (max id : ℤ)
    → 1 ≤ left
    → leb_ℤ id max ≡ true
    → used id ≡ false
    → next_from used left max id ≡ next id
unfolding next_from
next_from-first used zero max id h inside free = absurd (omega (arith, h))
next_from-first used (suc left) max id h inside free = rw (inside, free) refl

next_between-first :
    (kind : String) (min max : ℕ)
    → 1 ≤ min
    → min ≤ max
    → next_between kind [] (pos min) (pos max) ≡ next (pos min)
unfolding next_between leb_ℤ is_used
next_between-first kind min max low high =
    let usable : (leb min 0 || not (leb min max)) ≡ false = ground arith in
    rw usable (
      next_from-first (on_int (is_used kind [])) (max + 2 - min) (pos max) (pos min)
        (omega (arith, high)) (ground arith) refl)

lookup-first : {V : Type 0} (key : String) (value : V) → lookup key ((key, value) ∷ []) ≡ some value
unfolding lookup
lookup-first key value = rw ((str_eq_iff key key).1 refl) refl

abbrev pub in_group : ℕ → ℕ → IdSpace
in_group min max = record {
  min = pos 0;
  max = pos 0;
  groups = ("main", record { min = pos min; max = pos max }) ∷ [];
}

-- For a kind other than protocol messages, the limit of the encoding does not apply to groups: a group
-- of any range of positive numbers is accepted, and `NextID` gives out the least of them.
pub groups-unlimited :
    (kind : String) (min max : ℕ)
    → kind ≢ "protocol"
    → 1 ≤ min
    → min ≤ max
    → (validate_space kind (in_group min max) ≡ [])
      × (next_id ((kind, in_group min max) ∷ []) [] kind "main" ≡ next (pos min))
unfolding valid_name trim_space next_between lookup next_id
groups-unlimited kind min max other low high = (
  (space_iff kind (in_group min max)).1
      (inl (refl, refl), ((refl, (low, high), (λ same. absurd (other same))), tt)),
  ap (λ found. next_in_space kind "main" [] found) (lookup-first kind (in_group min max))
      ∙ next_between-first kind min max low high,
)

abbrev pub to_the_end : ℕ → IdSpace
to_the_end min = record { min = pos min; max = pos int_max; groups = [] }

-- A kind that has no limit, whose main range ends at the greatest int64, is accepted; and when every
-- id of the range is used, `NextID` does not say so but gives out the least int64, -(2 ^ 63).
pub next_id-wraps :
    (kind : String) (uses : List IdUse) (min : ℕ)
    → lookup kind encoding_limits ≡ none
    → 1 ≤ min
    → min ≤ int_max
    → ((k : ℕ) → min ≤ k → k ≤ int_max → is_used kind uses k ≡ true)
    → (validate_space kind (to_the_end min) ≡ [])
      × (next_id ((kind, to_the_end min) ∷ []) uses kind "" ≡ next (negsuc int_max))
unfolding next_id
next_id-wraps kind uses min unlimited low high all = (
  (space_iff kind (to_the_end min)).1
      (inr ((low, high), subst (λ l. WithinLimit l (pos int_max)) (sym unlimited) tt), tt),
  ap (λ found. next_in_space kind "" uses found) (lookup-first kind (to_the_end min))
      ∙ chosen _ (next_between-Chosen kind uses (pos min) (pos int_max)),
)
  where
    chosen :
        (r : Choice)
        → Chosen (is_used kind uses) (pos min) (pos int_max) r
        → r ≡ next (negsuc int_max)
    chosen (next (pos n)) h = let used = all n h.above h.below in let free = h.free in cc
    chosen (next (negsuc n)) h = ap (λ k. next (negsuc k)) h.least_int
    chosen exhausted (_, _, _, short) = absurd (short (high, omega arith))
    chosen no_range h = absurd (h (low, high))
    chosen not_configured h = absurd h
    chosen no_group h = absurd h
    chosen out_of_fuel h = absurd h
