-- ===== src/Manifest/Validate.antt =====
-- internal/roost/manifest.go: `Validate`, and what it checks of versions, delivery and ids.
use roost_codegen.Prelude.{
  String, Bool, true, false, not, ◌&&◌, ◌||◌, List, [], ◌∷◌, ◌++◌, Option, none, some, str_eq,
  if◌then◌else◌, contains,
}
use roost_codegen.Prelude.Text.{codes}
use roost_codegen.Prelude.Int.{ℤ, pos, leb_ℤ}
use roost_codegen.Ids.{IdSpace, IdRange, lookup}
use roost_codegen.Mods.{Outcome, ok, unknown, cycle, out_of_fuel, resolve_mods}
use roost_codegen.Version.{PolicyError, version_at_least, validate_version_policy}
use roost_codegen.Manifest.{
  Manifest, ServiceSpec, minimum_versions, known_features, canonicalize, has_net_transport_feature,
  all_project_mods,
}
use roost_codegen.Manifest.Names.{valid_name, valid_module_path}
use roost_codegen.Manifest.Errors.{
  Errors, error_if, each, bad_schema, bad_project_name, bad_module, no_service, unresolved_shared,
  shared_manager, unknown_feature, bad_version, bad_provider, bad_registry, no_environment,
  no_deploy, bad_environment, bad_deploy, bad_saga, no_saga_mod, old_transport_kit, old_saga,
  bad_range, over_limit, bad_group, group_over_limit,
}
use roost_codegen.Manifest.Services.{
  validate_service, sorted_service_names, validate_framework, validate_access, validate_player,
  validate_rpcs,
}

abbrev pub is_one : ℤ → Bool
is_one n = leb_ℤ n (pos 1) && leb_ℤ (pos 1) n

abbrev pub no_entries : {A : Type 0} → List A → Bool
no_entries [] = true
no_entries (x ∷ xs) = false

unfoldable pub validate_project : Manifest → Errors
validate_project m =
    error_if (not (is_one m.schema)) bad_schema
    ++ (error_if (not (valid_name (codes m.name))) bad_project_name
        ++ (error_if (not (valid_module_path (codes m.module_path))) bad_module
            ++ error_if (no_entries m.services) no_service))

abbrev pub shared_errors : Outcome → Errors
shared_errors (ok walk) = error_if (contains walk.out "manager") shared_manager
shared_errors (unknown name) = unresolved_shared ∷ []
shared_errors (cycle name) = unresolved_shared ∷ []
shared_errors out_of_fuel = unresolved_shared ∷ []

abbrev pub policy_error : String → Option PolicyError → Errors
policy_error name none = []
policy_error name (some e) = bad_version name e ∷ []

abbrev pub check_version : String → String → String → Errors
check_version name value minimum =
    policy_error name (validate_version_policy (codes value) (codes minimum))

unfoldable pub validate_versions : Manifest → Errors
validate_versions m =
    check_version "core" m.versions.core minimum_versions.core
    ++ (check_version "kit" m.versions.kit minimum_versions.kit
        ++ check_version "codegen" m.versions.codegen minimum_versions.codegen)

unfoldable pub validate_cicd : Manifest → Errors
validate_cicd m =
    error_if (not (str_eq m.cicd.provider "github")) bad_provider
    ++ (error_if (not (str_eq m.cicd.registry "ghcr")) bad_registry
        ++ (each (λ name. error_if (not (contains m.cicd.environments name)) (no_environment name))
              ("staging" ∷ "production" ∷ [])
            ++ (each (λ name. error_if (not (contains m.cicd.deploy name)) (no_deploy name))
                  ("shell" ∷ "docker" ∷ "k8s" ∷ [])
                ++ (each (λ name. error_if (not (valid_name (codes name))) (bad_environment name))
                      m.cicd.environments
                    ++ each
                        (λ name.
                          error_if
                            (not (str_eq name "shell")
                              && (not (str_eq name "docker") && not (str_eq name "k8s")))
                            (bad_deploy name))
                        m.cicd.deploy))))

abbrev pub any_saga : List (String × ServiceSpec) → Bool
any_saga [] = false
any_saga ((name, service) ∷ services) = contains service.mods "saga" || any_saga services

unfoldable pub validate_sagas : Manifest → Errors
validate_sagas m = error_if (not (no_entries m.sagas) && not (any_saga m.services)) no_saga_mod

unfoldable pub validate_floors : Manifest → Errors
validate_floors m =
    error_if
      (has_net_transport_feature m && not (version_at_least (codes m.versions.kit) (1, 1, 0)))
      old_transport_kit
    ++ error_if
        (contains (all_project_mods m) "saga"
          && (not (version_at_least (codes m.versions.core) (1, 4, 0))
              || not (version_at_least (codes m.versions.kit) (1, 4, 0))))
        old_saga

-- The limits of the framework's encodings.
abbrev pub encoding_limits : List (String × ℤ)
encoding_limits = ("entity", pos 255) ∷ ("component", pos 65535) ∷ ("protocol", pos 4294967295) ∷ []

abbrev pub exceeds : Option ℤ → ℤ → Bool
exceeds none max = false
exceeds (some limit) max = not (leb_ℤ max limit)

abbrev pub is_zero : ℤ → Bool
is_zero n = leb_ℤ n (pos 0) && leb_ℤ (pos 0) n

-- `Min <= 0 || Max < Min`.
abbrev pub is_bad_range : ℤ → ℤ → Bool
is_bad_range min max = leb_ℤ min (pos 0) || not (leb_ℤ min max)

unfoldable pub validate_group : String → String × IdRange → Errors
validate_group kind (group, r) =
    error_if (not (valid_name (codes group)) || is_bad_range r.min r.max) (bad_group kind group)
    ++ error_if (str_eq kind "protocol" && not (leb_ℤ r.max (pos 4294967295)))
        (group_over_limit kind group)

unfoldable pub validate_space : String → IdSpace → Errors
validate_space kind space =
    (if is_zero space.min && is_zero space.max
      then []
      else (error_if (is_bad_range space.min space.max) (bad_range kind)
          ++ error_if (exceeds (lookup kind encoding_limits) space.max) (over_limit kind)))
    ++ each (validate_group kind) space.groups

unfoldable pub validate_ids : Manifest → Errors
validate_ids m = each (λ entry. validate_space entry.0 entry.1) m.ids

-- `Validate`, behind the rewriting of legacy names.
unfoldable pub validate_canonical : Manifest → Errors
validate_canonical m =
    validate_project m
    ++ (each (validate_service m) m.services
        ++ (each (validate_framework m) (sorted_service_names m)
            ++ (each (validate_access m) m.access
                ++ (validate_player m (lookup "player" m.access)
                    ++ (shared_errors (resolve_mods m.shared_mods)
                        ++ (each
                              (λ feature.
                                error_if (not (contains known_features feature))
                                  (unknown_feature feature))
                              m.features
                            ++ (validate_versions m
                                ++ (validate_cicd m
                                    ++ (each
                                          (λ saga.
                                            error_if (not (valid_name (codes saga)))
                                              (bad_saga saga))
                                          m.sagas
                                        ++ (validate_rpcs m
                                            ++ (validate_sagas m
                                                ++ (validate_floors m ++ validate_ids m))))))))))))

-- `Validate`: its errors, and the manifest that the caller has afterwards.
unfoldable pub validate : Manifest → Errors × Manifest
validate m = (validate_canonical (canonicalize m), canonicalize m)
