-- ===== src/Manifest.antt =====
-- internal/roost/manifest.go, with the parts of catalog.go and framework_services.go that it asks: the
-- manifest, its legacy names, and its validation. The errors that the source joins are a list, in
-- order; a map is a list of entries, in the order of its iteration.
pub mod Names
pub mod Errors
pub mod Services
pub mod Validate
pub mod Sound
pub mod Canonical
pub mod Owning
pub mod Rpcs
pub mod Given
pub mod Ids
pub mod Tests
use roost_codegen.Prelude.{
  ℕ, ◌≤◌, String, Bool, true, false, not, ◌&&◌, ◌||◌, List, [], ◌∷◌, ◌++◌, map, Option, none, some,
  str_eq, ◌==◌, if◌then◌else◌, contains,
}
use roost_codegen.Prelude.Text.{Text, codes, text_eq, trim_space}
use roost_codegen.Prelude.Int.{ℤ}
use roost_codegen.Ids.{IdSpace, IdRange, lookup}
use roost_codegen.Mods.{Outcome, ok, unknown, cycle, out_of_fuel, resolve_mods}
use roost_codegen.Version.{Release, version_at_least}

pub record VersionSpec : Type 0 where
  pub core : String
  pub kit : String
  pub codegen : String

pub record CicdSpec : Type 0 where
  pub provider : String
  pub registry : String
  pub environments : List String
  pub deploy : List String

pub record ServiceSpec : Type 0 where
  pub mods : List String
  pub framework : String
  pub uses : List String
  pub rpcs : List String
  pub uses_rpcs : List String

pub record AccessSpec : Type 0 where
  pub service : String
  pub transports : List String

pub record Manifest : Type 0 where
  pub schema : ℤ
  pub name : String
  pub module_path : String
  pub versions : VersionSpec
  pub cicd : CicdSpec
  pub shared_mods : List String
  pub services : List (String × ServiceSpec)
  pub access : List (String × AccessSpec)
  pub features : List String
  pub sagas : List String
  pub ids : List (String × IdSpace)

abbrev pub minimum_versions : VersionSpec
minimum_versions = record { core = "v1.15.7"; kit = "v1.14.8"; codegen = "v1.15.0" }

abbrev pub legacy_mod_names : List (String × String)
legacy_mod_names = ("sync", "room") ∷ []

abbrev pub legacy_feature_names : List (String × String)
legacy_feature_names =
    ("replication-quic", "nettransport-quic")
    ∷ ("replication-kcp", "nettransport-kcp")
    ∷ ("replication-udp", "nettransport-udp")
    ∷ []

abbrev pub known_features : List String
known_features =
    "protocol" ∷ "config" ∷ "entity" ∷ "nest" ∷ "event" ∷ "dao" ∷ "attribute" ∷ "webroute" ∷ "rpc"
    ∷ "errcode" ∷ "saga" ∷ "nettransport-quic" ∷ "nettransport-kcp" ∷ "nettransport-udp" ∷ []

-- The names of `frameworkCatalog`, with what each depends on.
abbrev pub framework_catalog : List (String × List String)
framework_catalog =
    ("account", "redis" ∷ "nats" ∷ [])
    ∷ ("mail", "redis" ∷ "nats" ∷ [])
    ∷ ("match", "redis" ∷ "nats" ∷ [])
    ∷ ("platform", "redis" ∷ "nats" ∷ [])
    ∷ ("global", "redis" ∷ "nats" ∷ [])
    ∷ ("activity", "redis" ∷ "nats" ∷ [])
    ∷ ("rank", "redis" ∷ "nats" ∷ [])
    ∷ ("session", "redis" ∷ "nats" ∷ [])
    ∷ ("chat", "redis" ∷ "nats" ∷ [])
    ∷ []

-- The closure `rename` of `canonicalizeLegacyNames`.
abbrev pub renamed : String → Option String → String
renamed value none = value
renamed value (some canonical) = canonical

unfoldable pub rename_all : List (String × String) → List String → List String
rename_all table [] = []
rename_all table (value ∷ values) = renamed value (lookup value table) ∷ rename_all table values

unfoldable pub rename_mods : List (String × ServiceSpec) → List (String × ServiceSpec)
rename_mods [] = []
rename_mods ((name, service) ∷ services) =
    (name, record service { mods = rename_all legacy_mod_names service.mods })
    ∷ rename_mods services

-- `canonicalizeLegacyNames`, whose change the caller sees.
unfoldable pub canonicalize : Manifest → Manifest
canonicalize m = record m {
  shared_mods = rename_all legacy_mod_names m.shared_mods;
  services = rename_mods m.services;
  features = rename_all legacy_feature_names m.features;
}

-- `strings.TrimSpace(value) != ""`.
abbrev pub is_given : Text → Bool
is_given [] = false
is_given (c ∷ s) = true

unfoldable pub is_framework : ServiceSpec → Bool
is_framework service = is_given (trim_space (codes service.framework))

unfoldable pub framework_named : Option ServiceSpec → Bool
framework_named none = false
framework_named (some service) = is_framework service

-- `isFrameworkService`.
abbrev pub is_framework_service : Manifest → String → Bool
is_framework_service m name = framework_named (lookup name m.services)

unfoldable pub has_net_transport_feature : Manifest → Bool
has_net_transport_feature m =
    contains m.features "nettransport-quic"
    || contains m.features "nettransport-kcp"
    || contains m.features "nettransport-udp"

-- `frameworkCatalog[framework]`.
unfoldable pub lookup_framework : Text → List (String × List String) → Option (List String)
lookup_framework framework [] = none
lookup_framework framework ((name, depends) ∷ rest) =
    if text_eq (codes name) framework then some depends else lookup_framework framework rest

abbrev pub or_empty : Option (List String) → List String
or_empty none = []
or_empty (some names) = names

abbrev pub is_nonempty : List String → Bool
is_nonempty [] = false
is_nonempty (x ∷ xs) = true

-- `effectiveServiceMods`.
unfoldable pub effective_service_mods : ServiceSpec → List String
effective_service_mods service =
    service.mods
    ++ (or_empty (lookup_framework (trim_space (codes service.framework)) framework_catalog)
        ++ (if is_nonempty service.uses || is_nonempty service.rpcs || is_nonempty service.uses_rpcs
            then "nats" ∷ []
            else []))

-- The request of `allProjectMods`.
unfoldable pub service_mods : List (String × ServiceSpec) → List String
service_mods [] = []
service_mods ((name, service) ∷ services) = effective_service_mods service ++ service_mods services

abbrev pub resolved_or : List String → Outcome → List String
resolved_or requested (ok walk) = walk.out
resolved_or requested (unknown name) = requested
resolved_or requested (cycle name) = requested
resolved_or requested out_of_fuel = requested

-- `allProjectMods`, seen as a set: where the request cannot be resolved, it is given back without its
-- order and repetitions, which a test of membership does not see.
unfoldable pub all_project_mods : Manifest → List String
all_project_mods m =
    let requested = m.shared_mods ++ service_mods m.services in
    resolved_or requested (resolve_mods requested)
