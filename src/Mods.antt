-- ===== src/Mods.antt =====
-- internal/roost/catalog.go: the catalogue of kit mods and `resolveMods`, which orders the
-- requested mods behind the mods they depend on. A catalogue is an association list that keeps,
-- of each `modSpec`, what the resolution reads: its `Depends`.
pub mod Order
pub mod Fuel
pub mod Known
pub mod Tests
use roost_codegen.Prelude.{
  ℕ, zero, suc, String, Bool, true, false, List, [], ◌∷◌, ◌++◌, Option, none, some, str_eq, not,
  ◌&&◌, ◌||◌, contains, length, if◌then◌else◌,
}

abbrev pub Catalog : Type 0
Catalog = List (String × List String)

-- `modCatalog[name]`, the `Depends` field.
unfoldable pub depends : Catalog → String → Option (List String)
depends [] name = none
depends ((key, deps) ∷ rest) name = if str_eq key name then some deps else depends rest name

-- The variables that the closure `visit` captures.
pub record Walk : Type 0 where
  pub seen : String → Bool
  pub visiting : String → Bool
  pub out : List String

pub data Outcome : Type 0 where
  ok : Walk → Outcome
  unknown : String → Outcome
  cycle : String → Outcome
  out_of_fuel : Outcome

infixl 5 ◌>>=◌
abbrev pub ◌>>=◌ : Outcome → (Walk → Outcome) → Outcome
ok s >>= f = f s
unknown name >>= f = unknown name
cycle name >>= f = cycle name
out_of_fuel >>= f = out_of_fuel

-- A write to a map from texts to Booleans.
abbrev pub put : (String → Bool) → String → Bool → String → Bool
put m key value j = if str_eq key j then value else m j

abbrev pub enter : String → Walk → Walk
enter name s = record s { visiting = put s.visiting name true }

abbrev pub leave : String → Walk → Walk
leave name s = record {
  seen = put s.seen name true;
  visiting = put s.visiting name false;
  out = s.out ++ name ∷ [];
}

-- The loop over `spec.Depends`, and the one over `requested`.
unfoldable pub visit_each : (String → Walk → Outcome) → List String → Walk → Outcome
visit_each visit_one [] s = ok s
visit_each visit_one (name ∷ names) s = visit_one name s >>= visit_each visit_one names

-- The body of the closure `visit`, behind the lookup in the catalogue.
unfoldable pub visit_found :
    (String → Walk → Outcome) → String → Option (List String) → Walk → Outcome
visit_found visit_one name none s = unknown name
visit_found visit_one name (some deps) s =
    if s.seen name
    then ok s
    else if s.visiting name
    then cycle name
    else (visit_each visit_one deps (enter name s) >>= λ t. ok (leave name t))

unfoldable pub visit : Catalog → ℕ → String → Walk → Outcome
visit catalog zero name s = out_of_fuel
visit catalog (suc fuel) name s = visit_found (visit catalog fuel) name (depends catalog name) s

abbrev pub start : Walk
start = record { seen = λ _. false; visiting = λ _. false; out = [] }

-- What `resolveMods` adds to the request: `nest` and `saga` need persistence.
unfoldable pub with_persistence : List String → List String
unfolding contains
with_persistence requested =
    if (contains requested "nest" || contains requested "saga")
      && not (contains requested "dataengine")
    then requested ++ "dataengine" ∷ []
    else requested

unfoldable pub resolve_in : Catalog → List String → Outcome
unfolding visit_each visit_found visit depends with_persistence
resolve_in catalog requested =
    visit_each (visit catalog (suc (length catalog))) (with_persistence requested) start

unfoldable pub mod_catalog : Catalog
mod_catalog =
    ("lock", [])
    ∷ ("ops", [])
    ∷ ("statslog", [])
    ∷ ("configdata", [])
    ∷ ("etcd", [])
    ∷ ("redis", [])
    ∷ ("mongo", [])
    ∷ ("nats", [])
    ∷ ("room", "nats" ∷ [])
    ∷ ("remote_entity", "redis" ∷ "mongo" ∷ "room" ∷ [])
    ∷ ("dataengine", "mongo" ∷ "nats" ∷ [])
    ∷ ("manager", [])
    ∷ ("nest", [])
    ∷ ("saga", "mongo" ∷ "nats" ∷ [])
    ∷ []

unfoldable pub resolve_mods : List String → Outcome
unfolding resolve_in mod_catalog
resolve_mods requested = resolve_in mod_catalog requested
