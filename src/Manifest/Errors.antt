-- ===== src/Manifest/Errors.antt =====
-- The errors of the validation, and the lists in which they are joined.
use roost_codegen.Prelude.{String, Bool, true, false, List, [], ◌∷◌, ◌++◌, ◌≡◌, ◌↔◌, refl, All}
use roost_codegen.Version.{PolicyError}

pub data ManifestError : Type 0 where
  bad_schema : ManifestError
  bad_project_name : ManifestError
  bad_module : ManifestError
  no_service : ManifestError
  bad_service_name : (name : String) → ManifestError
  unresolved_mods : (name : String) → ManifestError
  repeats_shared : (name mod_name : String) → ManifestError
  unknown_framework : (name : String) → ManifestError
  framework_uses : (name : String) → ManifestError
  access_framework : (name : String) → ManifestError
  repeats_uses : (name used : String) → ManifestError
  uses_no_framework : (name used : String) → ManifestError
  unsupported_access : (name : String) → ManifestError
  bad_access_service : (name : String) → ManifestError
  unknown_access_service : (name : String) → ManifestError
  bad_transport : (name transport : String) → ManifestError
  repeats_transport : (name transport : String) → ManifestError
  access_no_protocol : ManifestError
  access_no_nest : ManifestError
  unresolved_shared : ManifestError
  shared_manager : ManifestError
  unknown_feature : (feature : String) → ManifestError
  bad_version : (name : String) → PolicyError → ManifestError
  bad_provider : ManifestError
  bad_registry : ManifestError
  no_environment : (name : String) → ManifestError
  no_deploy : (name : String) → ManifestError
  bad_environment : (name : String) → ManifestError
  bad_deploy : (name : String) → ManifestError
  bad_saga : (name : String) → ManifestError
  bad_rpc : (service rpc : String) → ManifestError
  framework_rpc : (service rpc : String) → ManifestError
  owned_twice : (rpc first second : String) → ManifestError
  unowned_rpc : (service rpc : String) → ManifestError
  own_rpc : (service rpc : String) → ManifestError
  framework_uses_rpc : (service rpc : String) → ManifestError
  no_rpc_feature : ManifestError
  no_saga_mod : ManifestError
  old_transport_kit : ManifestError
  old_saga : ManifestError
  bad_range : (kind : String) → ManifestError
  over_limit : (kind : String) → ManifestError
  bad_group : (kind group : String) → ManifestError
  group_over_limit : (kind group : String) → ManifestError

abbrev pub Errors : Type 0
Errors = List ManifestError

abbrev pub error_if : Bool → ManifestError → Errors
error_if true e = e ∷ []
error_if false e = []

abbrev pub each : {A : Type 0} → (A → Errors) → List A → Errors
each f [] = []
each f (x ∷ xs) = f x ++ each f xs

pub error_if_iff : (b : Bool) (e : ManifestError) → (error_if b e ≡ []) ↔ (b ≡ false)
error_if_iff true e = ((λ h. cc), λ h. cc)
error_if_iff false e = ((λ h. refl), λ h. refl)

pub join_iff : (xs ys : Errors) → (xs ++ ys ≡ []) ↔ ((xs ≡ []) × (ys ≡ []))
join_iff [] ys = ((λ h. (refl, h)), λ (_, h). h)
join_iff (x ∷ xs) ys = ((λ h. cc), λ (h, _). cc)

pub each_iff :
    {A : Type 0} (f : A → Errors) (xs : List A) → (each f xs ≡ []) ↔ All (λ x. f x ≡ []) xs
each_iff f [] = ((λ h. tt), λ h. refl)
each_iff f (x ∷ xs) = (
  (λ h. let (here, later) = (join_iff (f x) (each f xs)).0 h in (here, (each_iff f xs).0 later)),
  (λ (here, later). (join_iff (f x) (each f xs)).1 (here, (each_iff f xs).1 later)),
)

pub All-map :
    {A : Type 0} {P Q : A → Type 0} → ((x : A) → P x → Q x) → (xs : List A) → All P xs → All Q xs
All-map f [] h = tt
All-map f (x ∷ xs) (h, hs) = (f x h, All-map f xs hs)
