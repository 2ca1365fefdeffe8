-- ===== src/Rpc/Service.antt =====
-- internal/servicerpc/validate.go: `buildService`, which turns a marked interface into the service
-- whose transport is generated, or refuses it.
pub mod Affinity
pub mod Accepted
pub mod Tests
use roost_codegen.Prelude.{
  ℕ, Bool, true, false, not, ◌&&◌, ◌||◌, List, [], ◌∷◌, ◌++◌, Option, none, some, ◌==◌,
  if◌then◌else◌,
}
use roost_codegen.Prelude.Result.{Result, ok, err, ◌>>=◌, ◌>>◌, require}
use roost_codegen.Prelude.Text.{
  Text, codes, text_eq, cut_at, has_suffix, lookup_text, get_or, is_some,
}
use roost_codegen.Rpc.{
  AstField, Field, flatten, Refusal, no_context, first_not_context, unnamed_parameter, no_error,
  unnamed_result, no_service_type, no_capability, embeds, declared_twice, no_methods,
  no_request_invalid, collision, affinity_unknown, affinity_no_string, affinity_form,
}
use roost_codegen.Rpc.Wire.{TypeIndex, text_mem, Check, check_wire_safe}

-- The options of a marker: a map from names to values.
abbrev pub Options : Type 0
Options = List (Text × Text)

abbrev pub PkgFacts : Type 0
PkgFacts = TypeIndex × Options × Bool

-- An entry of an interface: its names (none where it embeds), the parameters and results of a
-- function type, and the options of the marker on it.
pub record Item : Type 0 where
  pub names : List Text
  pub signature : Option (List AstField × List AstField)
  pub options : Option Options

pub record Method : Type 0 where
  pub name : Text
  pub params : List Field
  pub results : List Field
  pub affinity : Text
  pub reliable : Bool

pub record Service : Type 0 where
  pub pkg_name : Text
  pub interface_name : Text
  pub service_type : Text
  pub capability : Text
  pub methods : List Method
  pub file : Text

-- `options[key]`, which is empty where the key is missing.
abbrev pub option_of : Text → Options → Text
option_of key options = get_or (lookup_text key options) []

abbrev pub affinity_of : Option Options → Text
affinity_of none = []
affinity_of (some options) = option_of (codes "affinity") options

abbrev pub reliable_of : Option Options → Bool
reliable_of none = false
reliable_of (some options) = is_some (lookup_text (codes "reliable") options)

abbrev pub is_unnamed : Text → Bool
is_unnamed name = text_eq name [] || text_eq name (codes "_")

abbrev pub front_and_last : Field → List Field → List Field × Field
front_and_last f [] = ([], f)
front_and_last f (g ∷ fs) = (f ∷ (front_and_last g fs).0, (front_and_last g fs).1)

module _ (is_upper : ℕ → Bool) where
  -- The loop over the parameters behind the context, and that over the results before the error;
  -- `refuse` is the answer to a field without a name.
  unfoldable pub check_each : (Text → Refusal) → TypeIndex → Text → List Field → Check
  check_each refuse types method [] = ok tt
  check_each refuse types method (f ∷ fs) =
      if is_unnamed f.name
      then err (refuse f.type)
      else (check_wire_safe is_upper types method f.name f.type
          >> check_each refuse types method fs)

  abbrev pub check_params : TypeIndex → Text → List Field → Result Refusal (List Field)
  check_params types method [] = err (no_context method)
  check_params types method (first ∷ params) =
      if text_eq first.type (codes "context.Context")
      then (check_each (unnamed_parameter method) types method params >> ok params)
      else err (first_not_context method first.type)

  abbrev pub check_results : TypeIndex → Text → List Field → Result Refusal (List Field)
  check_results types method [] = err (no_error method)
  check_results types method (result ∷ results) =
      let (front, last) = front_and_last result results in
      if text_eq last.type (codes "error")
      then (check_each (unnamed_result method) types method front >> ok front)
      else err (no_error method)

  unfoldable pub build_method :
      TypeIndex → Text → Option Options → List AstField → List AstField → Result Refusal Method
  build_method types name options params results =
      check_params types name (flatten params) >>= λ ps.
      check_results types name (flatten results) >>= λ rs. ok record {
        name = name;
        params = ps;
        results = rs;
        affinity = affinity_of options;
        reliable = reliable_of options;
      }

  module _ (types : TypeIndex) (seen : List Text) (options : Option Options)
      (next : List Text → Result Refusal (List Method)) where
    abbrev pub build_signature :
        Text → Option (List AstField × List AstField) → Result Refusal (List Method)
    build_signature name none = next seen
    build_signature name (some (params, results)) =
        build_method types name options params results >>= λ m.
        if text_mem m.name seen
        then err (declared_twice m.name)
        else (next (m.name ∷ seen) >>= λ ms. ok (m ∷ ms))

    abbrev pub build_item :
        Option (List AstField × List AstField) → List Text → Result Refusal (List Method)
    build_item signature [] = err embeds
    build_item signature (name ∷ _) = build_signature name signature

  -- The loop over `iface.Methods.List`; `seen` has the names of the methods so far.
  unfoldable pub build_methods : TypeIndex → List Text → List Item → Result Refusal (List Method)
  build_methods types seen [] = ok []
  build_methods types seen (item ∷ items) =
      build_item types seen item.options (λ names. build_methods types names items) item.signature
        item.names

abbrev pub fixed_names : List Text
fixed_names =
    codes "ServiceType"
    ∷ codes "Methods"
    ∷ codes "rpcStatus"
    ∷ codes "statusOf"
    ∷ codes "RegisterHandlers"
    ∷ codes "DefaultCallTimeout"
    ∷ codes "BusClient"
    ∷ codes "NewBusClient"
    ∷ codes "capability"
    ∷ codes "Capability"
    ∷ codes "OwnerCapabilities"
    ∷ codes "CapabilityName"
    ∷ codes "LocalCapabilityName"
    ∷ codes "Server"
    ∷ codes "NewServer"
    ∷ codes "ClientMod"
    ∷ codes "NewClientMod"
    ∷ []

abbrev pub method_names : List Method → List Text
method_names [] = []
method_names (m ∷ ms) =
    (codes "Method" ++ m.name)
    ∷ (codes "rpc" ++ (m.name ++ codes "Request"))
    ∷ (codes "rpc" ++ (m.name ++ codes "Response"))
    ∷ method_names ms

abbrev pub emitted_names : List Method → List Text
emitted_names ms = fixed_names ++ method_names ms

-- The loop over the emitted names; `declared` has what holds each name of the package.
unfoldable pub check_emitted : Options → List Text → Check
check_emitted declared [] = ok tt
check_emitted declared (name ∷ names) = elim (lookup_text name declared) [
  | none ↦ check_emitted declared names
  | some kind ↦ err (collision name kind)
]

unfoldable pub find_param : Text → List Field → Option Field
find_param name [] = none
find_param name (f ∷ fs) = if text_eq f.name name then some f else find_param name fs

-- `strings.ContainsAny(call, " (")`.
abbrev pub has_space_or_paren : Text → Bool
has_space_or_paren call = is_some (cut_at b' ' call) || is_some (cut_at b'(' call)

abbrev pub bool_ne : Bool → Bool → Bool
bool_ne a b = if a then not b else b

-- The parameter's name and, where there is a dot, what is behind it.
abbrev pub split_affinity : Text → Option (Text × Text) → Text × Option Text
split_affinity affinity none = (affinity, none)
split_affinity affinity (some (before, after)) = (before, some after)

abbrev pub check_key : Text → Text → Field → Option Text → Check
check_key method affinity found none =
    require (text_eq found.type (codes "string"))
      (affinity_no_string method affinity found.name found.type)
check_key method affinity found (some call) =
    if not (has_suffix call (codes "()"))
      || bool_ne (has_space_or_paren call) (has_suffix call (codes "()"))
    then err (affinity_form method affinity)
    else ok tt

abbrev pub check_found : Text → Text → Text → Option Field → Option Text → Check
check_found method affinity name none call = err (affinity_unknown method affinity name)
check_found method affinity name (some found) call = check_key method affinity found call

unfoldable pub check_affinity : Method → Check
check_affinity m =
    if text_eq m.affinity []
    then ok tt
    else let (name, call) = split_affinity m.affinity (cut_at b'.' m.affinity) in
      check_found m.name m.affinity name (find_param name m.params) call

unfoldable pub check_affinities : List Method → Check
check_affinities [] = ok tt
check_affinities (m ∷ ms) = check_affinity m >> check_affinities ms

abbrev pub has_methods : List Method → Bool
has_methods [] = false
has_methods (m ∷ ms) = true

module _ (is_upper : ℕ → Bool) where
  unfoldable pub build_service :
      PkgFacts → (pkg path name : Text) → Options → List Item → Result Refusal Service
  build_service (types, declared, has_request_invalid) pkg path name options items =
      require (not (text_eq (option_of (codes "service_type") options) [])) no_service_type
      >> require (not (text_eq (option_of (codes "capability") options) [])) no_capability
      >> build_methods is_upper types [] items
      >>= λ ms.
          require (has_methods ms) no_methods
          >> require has_request_invalid no_request_invalid
          >> check_emitted declared (emitted_names ms)
          >> check_affinities ms
          >> ok record {
            pkg_name = pkg;
            interface_name = name;
            service_type = option_of (codes "service_type") options;
            capability = option_of (codes "capability") options;
            methods = ms;
            file = path;
          }
