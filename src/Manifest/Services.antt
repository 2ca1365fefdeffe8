-- ===== src/Manifest/Services.antt =====
-- internal/roost/manifest.go and framework_services.go: what `Validate` checks of services, of the
-- framework services that they host and use, of access layers, and of remote procedures.
use roost_codegen.Prelude.{
  String, Bool, true, false, not, ◌&&◌, List, [], ◌∷◌, ◌++◌, Option, none, some, str_eq,
  if◌then◌else◌, contains,
}
use roost_codegen.Prelude.Text.{codes, trim_space, is_some}
use roost_codegen.Prelude.Sort.{sort_strings}
use roost_codegen.Ids.{lookup}
use roost_codegen.Mods.{Outcome, ok, unknown, cycle, out_of_fuel, resolve_mods}
use roost_codegen.Manifest.{
  Manifest, ServiceSpec, AccessSpec, framework_catalog, lookup_framework, is_framework,
  is_framework_service, is_nonempty,
}
use roost_codegen.Manifest.Names.{valid_name}
use roost_codegen.Manifest.Errors.{
  Errors, error_if, each, bad_service_name, unresolved_mods, repeats_shared, unknown_framework,
  framework_uses, access_framework, repeats_uses, uses_no_framework, unsupported_access,
  bad_access_service, unknown_access_service, bad_transport, repeats_transport, access_no_protocol,
  access_no_nest, bad_rpc, framework_rpc, owned_twice, unowned_rpc, own_rpc, framework_uses_rpc,
  no_rpc_feature,
}

abbrev pub is_resolved : Outcome → Bool
is_resolved (ok walk) = true
is_resolved (unknown name) = false
is_resolved (cycle name) = false
is_resolved out_of_fuel = false

-- The loop over `m.Services`.
unfoldable pub validate_service : Manifest → String × ServiceSpec → Errors
validate_service m (name, service) =
    error_if (not (valid_name (codes name))) (bad_service_name name)
    ++ (error_if (not (is_resolved (resolve_mods service.mods))) (unresolved_mods name)
        ++ each
            (λ mod_name. error_if (contains m.shared_mods mod_name) (repeats_shared name mod_name))
            service.mods)

abbrev pub empty_service : ServiceSpec
empty_service = record { mods = []; framework = ""; uses = []; rpcs = []; uses_rpcs = [] }

abbrev pub service_or : Option ServiceSpec → ServiceSpec
service_or none = empty_service
service_or (some service) = service

-- `m.Services[name]`.
abbrev pub service_of : Manifest → String → ServiceSpec
service_of m name = service_or (lookup name m.services)

abbrev pub keys : {V : Type 0} → List (String × V) → List String
keys [] = []
keys ((key, value) ∷ rest) = key ∷ keys rest

unfoldable pub sorted_service_names : Manifest → List String
sorted_service_names m = sort_strings (keys m.services)

abbrev pub access_targets : Option AccessSpec → String → Bool
access_targets none name = false
access_targets (some access) name = str_eq access.service name

-- The loop over `service.Uses`; `seen` has those before.
unfoldable pub validate_uses : Manifest → String → List String → List String → Errors
validate_uses m name seen [] = []
validate_uses m name seen (used ∷ uses) =
    error_if (contains seen used) (repeats_uses name used)
    ++ (error_if (not (is_framework_service m used)) (uses_no_framework name used)
        ++ validate_uses m name (used ∷ seen) uses)

unfoldable pub validate_hosted : Manifest → String → ServiceSpec → Errors
validate_hosted m name service =
    error_if
      (not (is_some (lookup_framework (trim_space (codes service.framework)) framework_catalog)))
      (unknown_framework name)
    ++ (error_if (is_nonempty service.uses) (framework_uses name)
        ++ error_if (access_targets (lookup "player" m.access) name) (access_framework name))

-- One round of `validateFrameworkServices`.
unfoldable pub validate_framework : Manifest → String → Errors
validate_framework m name =
    (if is_framework (service_of m name) then validate_hosted m name (service_of m name) else [])
    ++ validate_uses m name [] (service_of m name).uses

unfoldable pub validate_transports : String → List String → List String → Errors
validate_transports name seen [] = []
validate_transports name seen (transport ∷ transports) =
    error_if (not (str_eq transport "tcp")) (bad_transport name transport)
    ++ (error_if (contains seen transport) (repeats_transport name transport)
        ++ validate_transports name (transport ∷ seen) transports)

-- The loop over `m.Access`.
unfoldable pub validate_access : Manifest → String × AccessSpec → Errors
validate_access m (name, access) =
    error_if (not (str_eq name "player")) (unsupported_access name)
    ++ ((if not (valid_name (codes access.service))
          then bad_access_service name ∷ []
          else error_if (not (is_some (lookup access.service m.services)))
              (unknown_access_service name))
        ++ validate_transports name [] access.transports)

abbrev pub lacks_nest : Outcome → Bool
lacks_nest (ok walk) = not (contains walk.out "nest")
lacks_nest (unknown name) = false
lacks_nest (cycle name) = false
lacks_nest out_of_fuel = false

abbrev pub player_nest : Option ServiceSpec → Errors
player_nest none = []
player_nest (some service) = error_if (lacks_nest (resolve_mods service.mods)) access_no_nest

-- The two checks of `access.player`.
unfoldable pub validate_player : Manifest → Option AccessSpec → Errors
validate_player m none = []
validate_player m (some access) =
    error_if (not (contains m.features "protocol")) access_no_protocol
    ++ player_nest (lookup access.service m.services)

-- The owners of remote procedures, the entry written last at the head.
abbrev pub Owners : Type 0
Owners = List (String × String)

abbrev pub twice_error : String → String → Option String → Errors
twice_error rpc name none = []
twice_error rpc name (some other) = owned_twice rpc other name ∷ []

-- The loop over the remote procedures of one service.
unfoldable pub own_rpcs : String → Bool → Owners → List String → Errors × Owners
own_rpcs name framework owners [] = ([], owners)
own_rpcs name framework owners (rpc ∷ rpcs) = elim (valid_name (codes rpc)) [
  | false ↦ let rest = own_rpcs name framework owners rpcs in (bad_rpc name rpc ∷ rest.0, rest.1)
  | true ↦
      let rest = own_rpcs name framework ((rpc, name) ∷ owners) rpcs in
      (
        error_if framework (framework_rpc name rpc)
            ++ (twice_error rpc name (lookup rpc owners) ++ rest.0),
        rest.1,
      )
]

unfoldable pub own_all : Manifest → Owners → List String → Errors × Owners
own_all m owners [] = ([], owners)
own_all m owners (name ∷ names) =
    let here = own_rpcs name (is_framework_service m name) owners (service_of m name).rpcs in
    let later = own_all m here.1 names in (here.0 ++ later.0, later.1)

abbrev pub owner_error : String → String → Option String → Errors
owner_error name rpc none = unowned_rpc name rpc ∷ []
owner_error name rpc (some owner) = error_if (str_eq owner name) (own_rpc name rpc)

unfoldable pub use_rpcs : Manifest → Owners → String → Errors
use_rpcs m owners name =
    each
      (λ rpc.
        owner_error name rpc (lookup rpc owners)
        ++ error_if (is_framework_service m name) (framework_uses_rpc name rpc))
      (service_of m name).uses_rpcs

abbrev pub is_owned : Owners → Bool
is_owned [] = false
is_owned (entry ∷ owners) = true

-- The two loops over the sorted names, and the check of the feature.
unfoldable pub validate_rpcs : Manifest → Errors
validate_rpcs m =
    let (errors, owners) = own_all m [] (sorted_service_names m) in
    errors
    ++ (each (use_rpcs m owners) (sorted_service_names m)
        ++ error_if (is_owned owners && not (contains m.features "rpc")) no_rpc_feature)
