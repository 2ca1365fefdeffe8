-- ===== src/Manifest/Sound.antt =====
-- internal/roost/manifest.go: what a manifest without errors satisfies.
use roost_codegen.Prelude.{
  String, Bool, true, false, not, [], Option, none, some, ◌≡◌, ◌↔◌, refl, ap, ◌∙◌, arith, All,
  contains,
}
use roost_codegen.Prelude.Text.{codes}
use roost_codegen.Ids.{lookup}
use roost_codegen.Mods.{Outcome, ok, unknown, cycle, out_of_fuel, Walk, resolve_mods}
use roost_codegen.Version.{Release, PolicyError, release_version, validate_version_policy}
use roost_codegen.Version.Minimum.{minimum_core, minimum_kit, minimum_codegen}
use roost_codegen.Version.Order.{IsAccepted, validate_version_policy_iff}
use roost_codegen.Manifest.{
  Manifest, ServiceSpec, VersionSpec, minimum_versions, known_features, canonicalize,
}
use roost_codegen.Manifest.Names.{valid_name, valid_module_path}
use roost_codegen.Manifest.Errors.{
  Errors, error_if, each, bad_service_name, unresolved_mods, repeats_shared, unknown_feature,
  shared_manager, bad_schema, bad_project_name, bad_module, no_service, bad_saga, error_if_iff,
  join_iff, each_iff, All-map,
}
use roost_codegen.Manifest.Services.{
  is_resolved, validate_service, sorted_service_names, validate_framework, validate_access,
  validate_player, validate_rpcs,
}
use roost_codegen.Manifest.Validate.{
  validate_project, shared_errors, policy_error, check_version, validate_versions, validate_cicd,
  validate_sagas, validate_floors, no_entries, is_one, validate_canonical, validate,
}
use roost_codegen.Prelude.Int.{ℤ, pos, negsuc, leb_ℤ}
use roost_codegen.Manifest.Ids.{SpaceIsValid, validate_ids_iff}
use roost_codegen.Manifest.Rpcs.{RpcsAreOwned, validate_rpcs-Owned}

-- A service whose mods resolve, none of them shared.
abbrev pub ServiceIsValid : Manifest → String × ServiceSpec → Type 0
ServiceIsValid m (name, service) =
    (valid_name (codes name) ≡ true)
    × ((walk : Walk) × (resolve_mods service.mods ≡ ok walk))
    × All (λ mod_name. contains m.shared_mods mod_name ≡ false) service.mods

abbrev pub VersionsAreAccepted : VersionSpec → Type 0
VersionsAreAccepted versions =
    IsAccepted (codes versions.core) (1, 15, 7)
    × IsAccepted (codes versions.kit) (1, 14, 8)
    × IsAccepted (codes versions.codegen) (1, 15, 0)

-- Shared mods that resolve, the manager of a service not among them.
abbrev pub SharedIsValid : Manifest → Type 0
SharedIsValid m =
    (walk : Walk) × (resolve_mods m.shared_mods ≡ ok walk) × (contains walk.out "manager" ≡ false)

is_resolved-ok : (r : Outcome) → is_resolved r ≡ true → (walk : Walk) × (r ≡ ok walk)
is_resolved-ok (ok walk) h = (walk, refl)
is_resolved-ok (unknown name) h = cc
is_resolved-ok (cycle name) h = cc
is_resolved-ok out_of_fuel h = cc

ok-is_resolved : (r : Outcome) (walk : Walk) → r ≡ ok walk → is_resolved r ≡ true
ok-is_resolved r walk h = ap is_resolved h

not-false : (b : Bool) → (not b ≡ false) ↔ (b ≡ true)
not-false b = ground arith

service_iff :
    (m : Manifest) (entry : String × ServiceSpec)
    → (validate_service m entry ≡ []) ↔ ServiceIsValid m entry
unfolding validate_service
service_iff m (name, service) = (
  (λ h.
      let (named, rest) =
        (join_iff (error_if (not (valid_name (codes name))) (bad_service_name name)) _).0 h in
      let (resolved, apart) =
        (join_iff (error_if (not (is_resolved (resolve_mods service.mods))) (unresolved_mods name))
            _).0
          rest in
      (
        (not-false (valid_name (codes name))).0 ((error_if_iff _ (bad_service_name name)).0 named),
        is_resolved-ok (resolve_mods service.mods) (
            (not-false (is_resolved (resolve_mods service.mods))).0
              ((error_if_iff _ (unresolved_mods name)).0 resolved)),
        All-map (λ k. (error_if_iff (contains m.shared_mods k) (repeats_shared name k)).0)
            service.mods
            ((each_iff (λ k. error_if (contains m.shared_mods k) (repeats_shared name k))
                service.mods).0
              apart),
      )),
  (λ (named, (walk, resolved), apart).
      (join_iff (error_if (not (valid_name (codes name))) (bad_service_name name)) _).1 (
        rw named refl,
        (join_iff (error_if (not (is_resolved (resolve_mods service.mods))) (unresolved_mods name))
              _).1
            (
              rw resolved refl,
              (each_iff (λ k. error_if (contains m.shared_mods k) (repeats_shared name k))
                    service.mods).1
                  (All-map
                    (λ k. (error_if_iff (contains m.shared_mods k) (repeats_shared name k)).1)
                    service.mods apart),
            ),
      )),
)

check_version_iff :
    (name value minimum : String) (floor : Release)
    → release_version (codes minimum) ≡ some floor
    → (check_version name value minimum ≡ []) ↔ IsAccepted (codes value) floor
check_version_iff name value minimum floor is_floor =
    let accepted = validate_version_policy_iff (codes value) (codes minimum) floor is_floor in
    (
      (λ h. accepted.0 (to (validate_version_policy (codes value) (codes minimum)) h)),
      (λ h. ap (policy_error name) (accepted.1 h)),
    )
  where
    to : (e : Option PolicyError) → policy_error name e ≡ [] → e ≡ none
    to none h = refl
    to (some e) h = cc

shared_iff : (m : Manifest) → (shared_errors (resolve_mods m.shared_mods) ≡ []) ↔ SharedIsValid m
shared_iff m = (to (resolve_mods m.shared_mods), from)
  where
    to :
        (r : Outcome)
        → shared_errors r ≡ []
        → (walk : Walk) × (r ≡ ok walk) × (contains walk.out "manager" ≡ false)
    to (ok walk) h = (walk, refl, (error_if_iff (contains walk.out "manager") shared_manager).0 h)
    to (unknown name) h = cc
    to (cycle name) h = cc
    to out_of_fuel h = cc

    from : SharedIsValid m → shared_errors (resolve_mods m.shared_mods) ≡ []
    from (walk, resolved, apart) =
        ap shared_errors resolved
        ∙ (error_if_iff (contains walk.out "manager") shared_manager).1 apart

is_one_sound : (n : ℤ) → is_one n ≡ true → n ≡ pos 1
unfolding leb_ℤ
is_one_sound (pos n) h = ap pos (ground arith)
is_one_sound (negsuc n) h = cc

abbrev feature_errors : String → Errors
feature_errors feature = error_if (not (contains known_features feature)) (unknown_feature feature)

abbrev saga_errors : String → Errors
saga_errors saga = error_if (not (valid_name (codes saga))) (bad_saga saga)

versions_iff : (m : Manifest) → (validate_versions m ≡ []) ↔ VersionsAreAccepted m.versions
unfolding validate_versions
versions_iff m =
    let core =
      check_version_iff "core" m.versions.core minimum_versions.core (1, 15, 7) minimum_core in
    let kit = check_version_iff "kit" m.versions.kit minimum_versions.kit (1, 14, 8) minimum_kit in
    let codegen =
      check_version_iff "codegen" m.versions.codegen minimum_versions.codegen (1, 15, 0)
        minimum_codegen in
    (
      (λ h.
          let (first, rest) =
            (join_iff (check_version "core" m.versions.core minimum_versions.core) _).0 h in
          let (second, third) =
            (join_iff (check_version "kit" m.versions.kit minimum_versions.kit) _).0 rest in
          (core.0 first, kit.0 second, codegen.0 third)),
      (λ (first, second, third).
          (join_iff (check_version "core" m.versions.core minimum_versions.core) _).1 (
            core.1 first,
            (join_iff (check_version "kit" m.versions.kit minimum_versions.kit) _).1
                (kit.1 second, codegen.1 third),
          )),
    )

-- What a validated manifest satisfies.
pub record IsValid (m : Manifest) : Type 0 where
  pub schema : m.schema ≡ pos 1
  pub name : valid_name (codes m.name) ≡ true
  pub module_path : valid_module_path (codes m.module_path) ≡ true
  pub some_service : no_entries m.services ≡ false
  pub services : All (ServiceIsValid m) m.services
  pub shared : SharedIsValid m
  pub features : All (λ feature. contains known_features feature ≡ true) m.features
  pub versions : VersionsAreAccepted m.versions
  pub rpcs : RpcsAreOwned m
  pub ids : All (λ entry. SpaceIsValid entry.0 entry.1) m.ids

project_sound :
    (m : Manifest)
    → validate_project m ≡ []
    → (m.schema ≡ pos 1)
      × (valid_name (codes m.name) ≡ true)
      × (valid_module_path (codes m.module_path) ≡ true)
      × (no_entries m.services ≡ false)
unfolding validate_project
project_sound m h =
    let (a, rest1) = (join_iff (error_if (not (is_one m.schema)) bad_schema) _).0 h in
    let (b, rest2) =
      (join_iff (error_if (not (valid_name (codes m.name))) bad_project_name) _).0 rest1 in
    let (c, d) =
      (join_iff (error_if (not (valid_module_path (codes m.module_path))) bad_module) _).0 rest2 in
    (
      is_one_sound m.schema ((not-false (is_one m.schema)).0 ((error_if_iff _ bad_schema).0 a)),
      (not-false (valid_name (codes m.name))).0 ((error_if_iff _ bad_project_name).0 b),
      (not-false (valid_module_path (codes m.module_path))).0 ((error_if_iff _ bad_module).0 c),
      (error_if_iff (no_entries m.services) no_service).0 d,
    )

canonical-IsValid : (m : Manifest) → validate_canonical m ≡ [] → IsValid m
unfolding validate_canonical
canonical-IsValid m h =
    let (project, r1) = (join_iff (validate_project m) _).0 h in
    let (services, r2) = (join_iff (each (validate_service m) m.services) _).0 r1 in
    let (_, r3) = (join_iff (each (validate_framework m) (sorted_service_names m)) _).0 r2 in
    let (_, r4) = (join_iff (each (validate_access m) m.access) _).0 r3 in
    let (_, r5) = (join_iff (validate_player m (lookup "player" m.access)) _).0 r4 in
    let (shared, r6) = (join_iff (shared_errors (resolve_mods m.shared_mods)) _).0 r5 in
    let (features, r7) = (join_iff (each (feature_errors) m.features) _).0 r6 in
    let (versions, r8) = (join_iff (validate_versions m) _).0 r7 in
    let (_, r9) = (join_iff (validate_cicd m) _).0 r8 in
    let (_, r10) = (join_iff (each saga_errors m.sagas) _).0 r9 in
    let (rpcs, r11) = (join_iff (validate_rpcs m) _).0 r10 in
    let (_, r12) = (join_iff (validate_sagas m) _).0 r11 in
    let (_, ids) = (join_iff (validate_floors m) _).0 r12 in
    let (at_one, named, path, some_service) = project_sound m project in
    record {
      schema = at_one;
      name = named;
      module_path = path;
      some_service = some_service;
      services =
          All-map (λ entry. (service_iff m entry).0) m.services
            ((each_iff (validate_service m) m.services).0 services);
      shared = (shared_iff m).0 shared;
      features =
          All-map
            (λ k e.
              (not-false (contains known_features k)).0
                ((error_if_iff (not (contains known_features k)) (unknown_feature k)).0 e))
            m.features ((each_iff feature_errors m.features).0 features);
      versions = (versions_iff m).0 versions;
      rpcs = validate_rpcs-Owned m rpcs;
      ids = (validate_ids_iff m).0 ids;
    }

-- A manifest that `Validate` reports no error of is left to the caller valid: the schema is 1, names and
-- the module path are well-formed, there is a service; the mods of each service and the shared ones
-- resolve, no service repeats a shared mod, and the manager is not shared; the features are known; each
-- version is "latest" or a release of the minimum's major number that is not before the minimum; every
-- remote procedure has one owner and is used by others only; and the id spaces are within their limits.
pub validate-IsValid : (m : Manifest) → (validate m).0 ≡ [] → IsValid (validate m).1
unfolding validate
validate-IsValid m h = canonical-IsValid (canonicalize m) h
