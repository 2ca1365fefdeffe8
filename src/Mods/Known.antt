-- ===== src/Mods/Known.antt =====
-- The catalogue that ships, `modCatalog`: its dependencies stand in it and have no cycle, so every
-- request of mods that stand in it is resolved.
use roost_codegen.Prelude.{
  ℕ, ◌<◌, String, Bool, true, false, List, [], ◌∷◌, ◌++◌, Option, none, some, ◌≡◌, refl, sym, subst,
  inl, inr, arith, str_eq, str_eq_iff, Mem, Mem-cases, ◌⊎◌, if◌then◌else◌, Bool-cases, ltb, ◌&&◌,
  ◌||◌, and-true,
}
use roost_codegen.Mods.{
  Catalog, depends, Walk, Outcome, ok, unknown, cycle, out_of_fuel, with_persistence, resolve_in,
  mod_catalog, resolve_mods,
}
use roost_codegen.Mods.Order.{Needs, asked, dependency, IsResolution}
use roost_codegen.Mods.Fuel.{Below, direct, further, Explained, resolve_in-Explained}

abbrev pub IsKnown : Catalog → String → Type 0
IsKnown catalog name = (deps : List String) × (depends catalog name ≡ some deps)

-- The length of the longest chain of dependencies below a mod.
rank : String → ℕ
rank name =
    if str_eq name "remote_entity"
    then 2
    else if str_eq name "room" || (str_eq name "dataengine" || str_eq name "saga")
    then 1
    else 0

is_known : Option (List String) → Bool
is_known none = false
is_known (some deps) = true

deps_descend : Catalog → String → List String → Bool
deps_descend catalog key [] = true
deps_descend catalog key (d ∷ deps) =
    (is_known (depends catalog d) && ltb (rank d) (rank key)) && deps_descend catalog key deps

descends : Catalog → Catalog → Bool
descends catalog [] = true
descends catalog ((key, deps) ∷ rest) = deps_descend catalog key deps && descends catalog rest

mod_catalog-descends : descends mod_catalog mod_catalog ≡ true
unfolding descends deps_descend is_known rank mod_catalog depends
mod_catalog-descends = refl

deps_descend_sound :
    (catalog : Catalog) (key d : String) (deps : List String)
    → deps_descend catalog key deps ≡ true
    → Mem d deps
    → (is_known (depends catalog d) ≡ true) × (rank d < rank key)
unfolding deps_descend
deps_descend_sound catalog key d [] h m = absurd m
deps_descend_sound catalog key d (x ∷ deps) h (inl e) =
    rw e (ground (arith, and-true (is_known (depends catalog x)) (ltb (rank x) (rank key))))
deps_descend_sound catalog key d (x ∷ deps) h (inr m) =
    deps_descend_sound catalog key d deps (ground arith) m

descends_sound :
    (catalog rest : Catalog) (name d : String) (deps : List String)
    → descends catalog rest ≡ true
    → depends rest name ≡ some deps
    → Mem d deps
    → (is_known (depends catalog d) ≡ true) × (rank d < rank name)
unfolding descends depends
descends_sound catalog [] name d deps h known m = cc
descends_sound catalog ((key, ds) ∷ rest) name d deps h known m =
    elim (Bool-cases (str_eq key name)) [
      | inl same ↦
          let e : key ≡ name = (str_eq_iff key name).0 same in
          let same_deps : ds ≡ deps = ground arith in
          rw (← e)
            (deps_descend_sound catalog key d ds (ground arith) (subst (Mem d) (sym same_deps) m))
      | inr other ↦ descends_sound catalog rest name d deps (ground arith) (rw other at known) m
    ]

is_known-IsKnown :
    (catalog : Catalog) (name : String)
    → is_known (depends catalog name) ≡ true
    → IsKnown catalog name
is_known-IsKnown catalog name h = go (depends catalog name) refl h
  where
    go :
        (found : Option (List String))
        → depends catalog name ≡ found
        → is_known found ≡ true
        → IsKnown catalog name
    go none e h = unfold is_known in cc
    go (some deps) e h = (deps, e)

module _ (catalog : Catalog) (sound : descends catalog catalog ≡ true) where
  Below-rank : {a b : String} → Below catalog a b → rank b < rank a
  Below-rank {a} (direct {b} {deps} e m) = (descends_sound catalog catalog a b deps sound e m).1
  Below-rank (further {b} {c} {deps} below e m) =
      omega (arith, Below-rank below, (descends_sound catalog catalog b c deps sound e m).1)

  Needs-IsKnown :
      {requested : List String} {name : String}
      → ((n : String) → Mem n requested → IsKnown catalog n)
      → Needs catalog requested name
      → IsKnown catalog name
  Needs-IsKnown known (asked {name} m) = known name m
  Needs-IsKnown known (dependency {name} {d} {deps} need e m) =
      is_known-IsKnown catalog d (descends_sound catalog catalog name d deps sound e m).0

Mem-if_append :
    (test : Bool) (xs ys : List String) (n : String)
    → Mem n (if test then xs ++ ys else xs)
    → Mem n xs ⊎ Mem n ys
Mem-if_append true xs ys n m = Mem-cases xs ys n m
Mem-if_append false xs ys n m = inl m

dataengine-IsKnown : IsKnown mod_catalog "dataengine"
unfolding mod_catalog depends
dataengine-IsKnown = ("mongo" ∷ "nats" ∷ [], refl)

Mem-with_persistence :
    (requested : List String) (n : String)
    → ((k : String) → Mem k requested → IsKnown mod_catalog k)
    → Mem n (with_persistence requested)
    → IsKnown mod_catalog n
unfolding with_persistence
Mem-with_persistence requested n known m =
    elim (Mem-if_append _ requested ("dataengine" ∷ []) n m) [
      | inl asked_for ↦ known n asked_for
      | inr (inl e) ↦ subst (IsKnown mod_catalog) (sym e) dataengine-IsKnown
      | inr (inr none_left) ↦ absurd none_left
    ]

-- If every mod asked for stands in the catalogue that ships, then `resolveMods` returns a list (no
-- error), and the list is a resolution of the request.
pub resolve_mods-known :
    (requested : List String)
    → ((name : String) → Mem name requested → IsKnown mod_catalog name)
    → (s : Walk) × (resolve_mods requested ≡ ok s)
      × IsResolution mod_catalog (with_persistence requested) s.out
unfolding resolve_mods
resolve_mods-known requested known =
    go (resolve_in mod_catalog requested) refl (resolve_in-Explained mod_catalog requested)
  where
    asked_for : List String
    asked_for = with_persistence requested

    all_known : (n : String) → Mem n asked_for → IsKnown mod_catalog n
    all_known n m = Mem-with_persistence requested n known m

    go :
        (r : Outcome)
        → resolve_in mod_catalog requested ≡ r
        → Explained mod_catalog asked_for r
        → (s : Walk) × (resolve_in mod_catalog requested ≡ ok s)
          × IsResolution mod_catalog asked_for s.out
    go (ok s) e why = (s, e, why)
    go (unknown n) e (need, absent) =
        let (deps, found) = Needs-IsKnown mod_catalog mod_catalog-descends all_known need in cc
    go (cycle n) e (need, below) =
        absurd (omega (arith, Below-rank mod_catalog mod_catalog-descends below))
    go out_of_fuel e why = absurd why
