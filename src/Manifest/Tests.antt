-- ===== src/Manifest/Tests.antt =====
-- Runs of the validation, and the theorems at concrete manifests.
use roost_codegen.Prelude.{
  ℕ, ◌≤◌, String, true, false, List, [], ◌∷◌, some, ◌≡◌, ◌↔◌, ◌≢◌, inr, refl, arith, All, contains,
}
use roost_codegen.Prelude.Int.{pos, negsuc, ◌≤ℤ◌, leb_ℤ}
use roost_codegen.Ids.{IdSpace, lookup, next, no_range, next_id}
use roost_codegen.Manifest.{
  Manifest, ServiceSpec, canonicalize, rename_mods, all_project_mods, effective_service_mods,
  framework_named, has_net_transport_feature, is_framework, lookup_framework, rename_all,
  service_mods,
}
use roost_codegen.Manifest.Validate.{
  validate, validate_ids, validate_canonical, validate_project, validate_cicd, validate_floors,
  validate_group, validate_sagas, validate_space, validate_versions,
}
use roost_codegen.Manifest.Names.{
  valid_name, valid_module_path, byte_length, valid_segments, split_on,
}
use roost_codegen.Prelude.Text.{
  trim_space, text_eq, contains_text, has_suffix, cut_at, cut_prefix, is_space, trim_left,
}
use roost_codegen.Manifest.Services.{
  validate_service, own_all, own_rpcs, sorted_service_names, use_rpcs, validate_access,
  validate_framework, validate_hosted, validate_player, validate_rpcs, validate_transports,
  validate_uses,
}
use roost_codegen.Mods.{
  resolve_mods, depends, mod_catalog, resolve_in, visit, visit_each, visit_found, with_persistence,
}
use roost_codegen.Prelude.Sort.{insert, sort_strings, text_leb}
use roost_codegen.Version.{
  equal_fold, is_latest, match_digits, match_release, number_from, release_prefix, release_version,
  span_digits, validate_version_policy, version_at_least,
}
use roost_codegen.Manifest.Canonical.{Rewritten, validate-validate}
use roost_codegen.Manifest.Ids.{SpaceIsValid, validate_ids_iff}
use roost_codegen.Manifest.Rpcs.{RpcsAreOwned, validate_rpcs-Owned}
use roost_codegen.Manifest.Sound.{IsValid, validate-IsValid}
use roost_codegen.Manifest.Given.{
  in_group, to_the_end, next_id-WithinLimit, next_id-unset, next_id-wraps, groups-unlimited,
}
use roost_codegen.Ids.{IdUse, int_max, next_between, next_from, is_used}
use roost_codegen.Prelude.{sym, str_eq_iff}

abbrev world_service : ServiceSpec
world_service = record {
  mods = "nest" ∷ [];
  framework = "";
  uses = "accounts" ∷ [];
  rpcs = "enter" ∷ [];
  uses_rpcs = [];
}

abbrev gate_service : ServiceSpec
gate_service = record { mods = []; framework = ""; uses = []; rpcs = []; uses_rpcs = "enter" ∷ [] }

abbrev account_service : ServiceSpec
account_service = record { mods = []; framework = "account"; uses = []; rpcs = []; uses_rpcs = [] }

abbrev protocol_space : IdSpace
protocol_space = record {
  min = pos 1000;
  max = pos 1999;
  groups = ("world", record { min = pos 2000; max = pos 2999 }) ∷ [];
}

abbrev unset_space : IdSpace
unset_space = record { min = pos 0; max = pos 0; groups = [] }

abbrev game : Manifest
game = record {
  schema = pos 1;
  name = "game";
  module_path = "example.com/game";
  versions = record { core = "latest"; kit = "v1.14.8"; codegen = "v1.15.0-alpha.2" };
  cicd = record {
    provider = "github";
    registry = "ghcr";
    environments = "staging" ∷ "production" ∷ [];
    deploy = "shell" ∷ "docker" ∷ "k8s" ∷ [];
  };
  shared_mods = "sync" ∷ [];
  services = ("world", world_service) ∷ ("accounts", account_service) ∷ ("gate", gate_service) ∷ [];
  access = ("player", record { service = "world"; transports = "tcp" ∷ [] }) ∷ [];
  features = "protocol" ∷ "rpc" ∷ "replication-kcp" ∷ [];
  sagas = [];
  ids = ("protocol", protocol_space) ∷ ("component", unset_space) ∷ [];
}

valid_run : (validate game).0 ≡ []
unfolding validate validate_canonical validate_project leb_ℤ canonicalize valid_name trim_space
    valid_module_path text_eq byte_length contains_text valid_segments split_on has_suffix
    rename_mods validate_service resolve_mods lookup own_all own_rpcs sorted_service_names use_rpcs
    validate_access validate_framework validate_hosted validate_player validate_rpcs
    validate_transports validate_uses validate_cicd validate_floors validate_group validate_ids
    validate_sagas validate_space validate_versions all_project_mods effective_service_mods
    framework_named has_net_transport_feature is_framework lookup_framework rename_all service_mods
    depends mod_catalog resolve_in visit visit_each visit_found with_persistence contains insert
    sort_strings text_leb cut_at cut_prefix is_space trim_left equal_fold is_latest match_digits
    match_release number_from release_prefix release_version span_digits validate_version_policy
    version_at_least
valid_run = refl

game_rpcs : validate_rpcs game ≡ []
unfolding validate_rpcs own_all own_rpcs sorted_service_names use_rpcs valid_name trim_space
    trim_left is_space framework_named is_framework lookup contains sort_strings insert text_leb
game_rpcs = refl

game_ids : validate_ids game ≡ []
unfolding validate_ids validate_space validate_group leb_ℤ lookup valid_name trim_space trim_left
    is_space
game_ids = refl

given_in_world : next_id game.ids [] "protocol" "world" ≡ next (pos 2000)
unfolding next_id next_between next_from is_used leb_ℤ lookup
given_in_world = refl

unset_component : next_id game.ids [] "component" "" ≡ no_range
unfolding next_id next_between next_from is_used leb_ℤ lookup
unset_component = refl

abbrev world_group : String
world_group = "world"

abbrev main_group : String
main_group = ""

abbrev protocol_kind : String
protocol_kind = "protocol"

abbrev entity_kind : String
entity_kind = "entity"

validate-validate_example :
    Rewritten game (validate game).1 × (validate (validate game).1 ≡ validate game)
validate-validate_example = validate-validate game

validate_ids_iff_example :
    (validate_ids game ≡ []) ↔ All (λ entry. SpaceIsValid entry.0 entry.1) game.ids
validate_ids_iff_example = validate_ids_iff game

validate-IsValid_example : IsValid (validate game).1
validate-IsValid_example = validate-IsValid game valid_run

validate_rpcs-Owned_example : RpcsAreOwned game
validate_rpcs-Owned_example = validate_rpcs-Owned game game_rpcs

next_id-WithinLimit_example : (pos 1 ≤ℤ pos 2000) × (pos 2000 ≤ℤ pos 4294967295)
unfolding lookup
next_id-WithinLimit_example =
    next_id-WithinLimit game [] "protocol" "world" game_ids (pos 2000) (pos 4294967295) refl
      (inr refl) given_in_world

next_id-unset_example :
    (main_group ≡ "")
    × ((space : IdSpace) × (lookup "component" game.ids ≡ some space)
        × (space.min ≡ pos 0)
        × (space.max ≡ pos 0))
next_id-unset_example = next_id-unset game [] "component" "" game_ids unset_component

groups-unlimited_example :
    (validate_space "entity" (in_group 1000 2000) ≡ [])
    × (next_id (("entity", in_group 1000 2000) ∷ []) [] "entity" "main" ≡ next (pos 1000))
groups-unlimited_example =
    groups-unlimited "entity" 1000 2000 (λ same. not_protocol same) (omega arith) (omega arith)
  where
    not_protocol : entity_kind ≢ "protocol"
    not_protocol same =
        let apart : true ≡ false = sym ((str_eq_iff "entity" "protocol").1 same) in cc

abbrev last_error : List IdUse
last_error = record { kind = "errcode"; id = int_max; file = "errors.go" } ∷ []

last_used : (k : ℕ) → int_max ≤ k → k ≤ int_max → is_used "errcode" last_error k ≡ true
unfolding is_used
last_used k low high = let last : k ≡ int_max = omega arith in rw last refl

next_id-wraps_example :
    (validate_space "errcode" (to_the_end int_max) ≡ [])
    × (next_id (("errcode", to_the_end int_max) ∷ []) last_error "errcode" ""
        ≡ next (negsuc int_max))
unfolding lookup
next_id-wraps_example =
    next_id-wraps "errcode" last_error int_max refl (omega arith) (omega arith) last_used
