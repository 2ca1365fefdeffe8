-- ===== src/Ids/Clean.antt =====
-- What `CheckIDs` decides: no id of a kind is used twice, and every id lies in its kind's space.
use roost_codegen.Prelude.{
  ℕ, String, Bool, true, false, List, [], ◌∷◌, ◌++◌, Option, none, some, ◌≡◌, refl, ◌↔◌, ◌⊎◌, inl,
  inr, arith, str_eq_iff, ◌&&◌, ◌||◌, All, Bool-cases,
}
use roost_codegen.Prelude.Int.{ℤ, pos, leb_ℤ, leb_ℤ_iff, ◌≤ℤ◌}
use roost_codegen.Ids.{
  IdUse, IdRange, IdSpace, lookup, within, in_some_group, in_configured_space, same_key, find_use,
  duplicate_errors, outside_errors, check_from, check_ids,
}

abbrev pub Within : ℤ → ℤ → ℕ → Type 0
Within low high id = (low ≤ℤ pos id) × (pos id ≤ℤ high)

abbrev pub GroupCovers : List (String × IdRange) → ℕ → Type 0
GroupCovers [] id = ⊥
GroupCovers ((name, r) ∷ rest) id = Within r.min r.max id ⊎ GroupCovers rest id

-- An id lies in a space: in its main range, which counts if it starts above 0, or in a group's.
abbrev pub Covers : IdSpace → ℕ → Type 0
Covers space id = (pos 1 ≤ℤ space.min) × Within space.min space.max id ⊎ GroupCovers space.groups id

within_iff : (low high : ℤ) (id : ℕ) → (within low high id ≡ true) ↔ Within low high id
within_iff low high id = (
  λ h. ((leb_ℤ_iff low (pos id)).0 (ground arith), (leb_ℤ_iff (pos id) high).0 (ground arith)),
  λ h. rw ((leb_ℤ_iff low (pos id)).1 h.0, (leb_ℤ_iff (pos id) high).1 h.1) refl,
)

or-cases : (a b : Bool) → (a || b) ≡ true → (a ≡ true) ⊎ (b ≡ true)
or-cases true b h = inl refl
or-cases false b h = inr h

in_some_group_sound :
    (groups : List (String × IdRange)) (id : ℕ)
    → in_some_group groups id ≡ true
    → GroupCovers groups id
unfolding in_some_group
in_some_group_sound [] id h = cc
in_some_group_sound ((name, r) ∷ rest) id h =
    elim (or-cases (within r.min r.max id) (in_some_group rest id) h) [
      | inl here ↦ inl ((within_iff r.min r.max id).0 here)
      | inr later ↦ inr (in_some_group_sound rest id later)
    ]

in_some_group_complete :
    (groups : List (String × IdRange)) (id : ℕ)
    → GroupCovers groups id
    → in_some_group groups id ≡ true
unfolding in_some_group
in_some_group_complete [] id h = absurd h
in_some_group_complete ((name, r) ∷ rest) id (inl here) =
    rw ((within_iff r.min r.max id).1 here) refl
in_some_group_complete ((name, r) ∷ rest) id (inr later) =
    ground (arith, in_some_group_complete rest id later)

pub in_configured_space_iff :
    (space : IdSpace) (id : ℕ) → (in_configured_space space id ≡ true) ↔ Covers space id
unfolding in_configured_space
in_configured_space_iff space id = (to, from)
  where
    to : in_configured_space space id ≡ true → Covers space id
    to h =
        elim (or-cases (leb_ℤ (pos 1) space.min && within space.min space.max id)
          (in_some_group space.groups id) h) [
            | inl main ↦ inl (
              (leb_ℤ_iff (pos 1) space.min).0 (ground arith),
              (within_iff space.min space.max id).0 (ground arith),
            )
            | inr group ↦ inr (in_some_group_sound space.groups id group)
          ]

    from : Covers space id → in_configured_space space id ≡ true
    from (inl main) =
        rw ((leb_ℤ_iff (pos 1) space.min).1 main.0, (within_iff space.min space.max id).1 main.1)
          refl
    from (inr group) = ground (arith, in_some_group_complete space.groups id group)

-- An id whose kind has no space may be any number.
abbrev pub Fits : Option IdSpace → ℕ → Type 0
Fits none id = Unit
Fits (some space) id = Covers space id

abbrev pub IsInSpace : List (String × IdSpace) → IdUse → Type 0
IsInSpace spaces u = Fits (lookup u.kind spaces) u.id

abbrev pub Apart : IdUse → IdUse → Type 0
Apart u v = ¬ ((u.kind ≡ v.kind) × (u.id ≡ v.id))

abbrev pub AllApart : List IdUse → Type 0
AllApart [] = Unit
AllApart (u ∷ uses) = All (Apart u) uses × AllApart uses

same_key-false_iff : (u v : IdUse) → (same_key u v ≡ false) ↔ Apart u v
same_key-false_iff u v = (
  λ h both. ground (arith, str_eq_iff u.kind v.kind, both.0, both.1),
  λ h. elim (Bool-cases (same_key u v)) [
    | inl same ↦ absurd (h (ground (arith, str_eq_iff u.kind v.kind), ground arith))
    | inr other ↦ other
  ],
)

append-nil_left {ℓ} : {A : Type ℓ} (xs ys : List A) → xs ++ ys ≡ [] → (xs ≡ []) × (ys ≡ [])
append-nil_left [] ys h = (refl, h)
append-nil_left (x ∷ xs) ys h = cc

duplicate_errors_nil : (o : Option IdUse) (u : IdUse) → duplicate_errors o u ≡ [] → o ≡ none
duplicate_errors_nil none u h = refl
duplicate_errors_nil (some v) u h = cc

outside_errors_iff : (o : Option IdSpace) (u : IdUse) → (outside_errors o u ≡ []) ↔ Fits o u.id
outside_errors_iff none u = (λ h. tt, λ h. refl)
outside_errors_iff (some space) u = (
  λ h. (in_configured_space_iff space u.id).0 (ground arith),
  λ h. rw ((in_configured_space_iff space u.id).1 h) refl,
)

-- No earlier use has the key of `u`.
abbrev New : List IdUse → IdUse → Type 0
New seen u = find_use seen u ≡ none

New-cons : (v : IdUse) (seen : List IdUse) (u : IdUse) → New (v ∷ seen) u ↔ (Apart v u × New seen u)
unfolding find_use
New-cons v seen u = (
  λ h. ((same_key-false_iff v u).0 (ground arith), ground arith),
  λ h. rw ((same_key-false_iff v u).1 h.0) h.1,
)

All-New-cons :
    (v : IdUse) (seen uses : List IdUse)
    → All (New (v ∷ seen)) uses ↔ (All (Apart v) uses × All (New seen) uses)
All-New-cons v seen [] = (λ h. (tt, tt), λ h. tt)
All-New-cons v seen (u ∷ uses) = (
  λ h.
      let (a, n) = (New-cons v seen u).0 h.0 in
      let (aps, ns) = (All-New-cons v seen uses).0 h.1 in ((a, aps), (n, ns)),
  λ h. ((New-cons v seen u).1 (h.0.0, h.1.0), (All-New-cons v seen uses).1 (h.0.1, h.1.1)),
)

module _ (spaces : List (String × IdSpace)) where
  check_from_sound :
      (seen uses : List IdUse)
      → check_from spaces seen uses ≡ []
      → All (New seen) uses × AllApart uses × All (IsInSpace spaces) uses
  unfolding check_from
  check_from_sound seen [] h = (tt, tt, tt)
  check_from_sound seen (u ∷ uses) h =
      let (dup, rest) = append-nil_left (duplicate_errors (find_use seen u) u) _ h in
      let (out, later) = append-nil_left (outside_errors (lookup u.kind spaces) u) _ rest in
      let new = duplicate_errors_nil (find_use seen u) u dup in
      let (news, apart, fits) = check_from_sound (u ∷ seen) uses (rw new at later) in
      let (from_u, news') = (All-New-cons u seen uses).0 news in
      ((new, news'), (from_u, apart), ((outside_errors_iff (lookup u.kind spaces) u).0 out, fits))

  check_from_complete :
      (seen uses : List IdUse)
      → All (New seen) uses
      → AllApart uses
      → All (IsInSpace spaces) uses
      → check_from spaces seen uses ≡ []
  unfolding check_from
  check_from_complete seen [] _ _ _ = refl
  check_from_complete seen (u ∷ uses) (new, news) (from_u, apart) (fit, fits) =
      rw (new, (outside_errors_iff (lookup u.kind spaces) u).1 fit)
        (check_from_complete (u ∷ seen) uses ((All-New-cons u seen uses).1 (from_u, news)) apart
          fits)

  All-New-nil : (uses : List IdUse) → All (New []) uses
  unfolding find_use
  All-New-nil [] = tt
  All-New-nil (u ∷ uses) = (refl, All-New-nil uses)

  -- `CheckIDs` reports no error exactly when no two uses share kind and id and every use whose kind
  -- has a configured space has its id in the space's main range, if that starts above 0, or in the
  -- range of one of its groups.
  pub check_ids_iff :
      (uses : List IdUse)
      → (check_ids spaces uses ≡ []) ↔ (AllApart uses × All (IsInSpace spaces) uses)
  unfolding check_ids
  check_ids_iff uses = (
    λ h. let (news, apart, fits) = check_from_sound [] uses h in (apart, fits),
    λ h. check_from_complete [] uses (All-New-nil uses) h.0 h.1,
  )
