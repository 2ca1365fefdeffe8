-- ===== src/Mods/Tests.antt =====
-- Runs of the resolution, and the theorems at concrete requests.
use roost_codegen.Prelude.{String, List, [], ◌∷◌, ◌≡◌, refl, inl, inr, sym, subst, Mem}
use roost_codegen.Mods.{
  Catalog, depends, Walk, Outcome, ok, unknown, cycle, with_persistence, resolve_in, mod_catalog,
  resolve_mods,
}
use roost_codegen.Mods.Order.{IsResolution}
use roost_codegen.Mods.Fuel.{Explained, resolve_in-Explained}
use roost_codegen.Mods.Known.{IsKnown, resolve_mods-known}

abbrev looping : Catalog
looping = ("a", "b" ∷ []) ∷ ("b", "a" ∷ []) ∷ []

looping_request : resolve_in looping ("a" ∷ []) ≡ cycle "a"
unfolding resolve_in
looping_request = refl

unknown_request : resolve_mods ("lock" ∷ "sync" ∷ []) ≡ unknown "sync"
unfolding resolve_mods
unknown_request = refl

abbrev outcome_list : Outcome → List String
outcome_list (ok s) = s.out
outcome_list _ = []

remote_request :
    outcome_list (resolve_mods ("nest" ∷ "remote_entity" ∷ []))
    ≡ "nest" ∷ "redis" ∷ "mongo" ∷ "nats" ∷ "room" ∷ "remote_entity" ∷ "dataengine" ∷ []
unfolding resolve_mods
remote_request = refl

resolve_in-Explained_example :
    Explained mod_catalog (with_persistence ("saga" ∷ [])) (resolve_in mod_catalog ("saga" ∷ []))
resolve_in-Explained_example = resolve_in-Explained mod_catalog ("saga" ∷ [])

saga-IsKnown : (name : String) → Mem name ("saga" ∷ []) → IsKnown mod_catalog name
unfolding mod_catalog depends
saga-IsKnown name (inl e) = subst (IsKnown mod_catalog) (sym e) ("mongo" ∷ "nats" ∷ [], refl)
saga-IsKnown name (inr m) = absurd m

resolve_mods-known_example :
    (s : Walk) × (resolve_mods ("saga" ∷ []) ≡ ok s)
    × IsResolution mod_catalog (with_persistence ("saga" ∷ [])) s.out
resolve_mods-known_example = resolve_mods-known ("saga" ∷ []) saga-IsKnown
