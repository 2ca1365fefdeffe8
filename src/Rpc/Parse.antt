-- ===== src/Rpc/Parse.antt =====
-- internal/servicerpc/parse.go: how the marked interfaces of a package are found in its syntax trees,
-- and what is gathered about the package first. The files of a package come in the order of their
-- sorted paths.
pub mod Declared
pub mod Package
pub mod Tests
use roost_codegen.Prelude.{
  ℕ, Bool, true, false, ◌||◌, List, [], ◌∷◌, ◌++◌, Option, none, some, if◌then◌else◌,
}
use roost_codegen.Prelude.Result.{Result, ok, err, ◌>>=◌}
use roost_codegen.Prelude.Text.{Text, codes, text_eq, cut_at, fields, lookup_text}
use roost_codegen.Marker.{cut}
use roost_codegen.Rpc.{AstField, Refusal, two_interfaces}
use roost_codegen.Rpc.Wire.{TypeIndex, text_mem}
use roost_codegen.Rpc.Service.{Options, PkgFacts, Item, Service, build_service}

-- A comment group that may be absent, as the texts of its comments.
abbrev pub Comments : Type 0
Comments = Option (List Text)

-- An entry of an interface's method list with its comments.
pub record RawItem : Type 0 where
  pub names : List Text
  pub signature : Option (List AstField × List AstField)
  pub doc : Comments
  pub comment : Comments

pub data TypeBody : Type 0 where
  struct_body : List AstField → TypeBody
  interface_body : List RawItem → TypeBody
  other_body : TypeBody

pub data Spec : Type 0 where
  type_spec : (name : Text) (doc : Comments) (body : TypeBody) → Spec
  value_spec : (names : List Text) → Spec
  import_spec : Spec

pub data Tok : Type 0 where
  type_tok : Tok
  const_tok : Tok
  var_tok : Tok
  import_tok : Tok

pub data Decl : Type 0 where
  func_decl : (has_receiver : Bool) (name : Text) → Decl
  gen_decl : (tok : Tok) (doc : Comments) (specs : List Spec) → Decl
  bad_decl : Decl

-- A file, with its path and its declarations.
abbrev pub File : Type 0
File = Text × List Decl

abbrev pub token_option : Text → Option (Text × Text) → Text × Text
token_option token none = (token, [])
token_option token (some (key, value)) = (key, value)

-- The loop over the tokens; the entry written last stands first, where a lookup finds it.
unfoldable pub note_options : Options → List Text → Options
note_options options [] = options
note_options options (token ∷ tokens) =
    note_options (token_option token (cut_at b'=' token) ∷ options) tokens

unfoldable pub parse_options : Text → Options
parse_options text = note_options [] (fields text)

unfoldable pub marked_in : List Text → Option Options
marked_in [] = none
marked_in (comment ∷ comments) = elim (cut comment (codes "rpc")) [
  | none ↦ marked_in comments
  | some rest ↦ some (parse_options rest)
]

unfoldable pub interface_marker : List Comments → Option Options
interface_marker [] = none
interface_marker (none ∷ groups) = interface_marker groups
interface_marker (some group ∷ groups) = elim (marked_in group) [
  | none ↦ interface_marker groups
  | some options ↦ some options
]

-- The entries of `buildTypeIndex`; the one written last stands first.
abbrev pub index_specs : TypeIndex → List Spec → TypeIndex
index_specs index [] = index
index_specs index (type_spec name doc (struct_body fs) ∷ specs) =
    index_specs ((name, fs) ∷ index) specs
index_specs index (spec ∷ specs) = index_specs index specs

abbrev pub index_decls : TypeIndex → List Decl → TypeIndex
index_decls index [] = index
index_decls index (gen_decl type_tok doc specs ∷ decls) =
    index_decls (index_specs index specs) decls
index_decls index (decl ∷ decls) = index_decls index decls

unfoldable pub index_files : TypeIndex → List File → TypeIndex
index_files index [] = index
index_files index ((path, decls) ∷ files) = index_files (index_decls index decls) files

unfoldable pub build_type_index : List File → TypeIndex
build_type_index files = index_files [] files

-- The closure `note` of `declaredNames`; the first kind of a name is kept.
unfoldable pub note : Options → Text → Text → Options
note names name kind =
    if text_eq name (codes "_")
    then names
    else elim (lookup_text name names) [ none ↦ (name, kind) ∷ names | some _ ↦ names ]

unfoldable pub note_each : Text → Options → List Text → Options
note_each kind names [] = names
note_each kind names (name ∷ rest) = note_each kind (note names name kind) rest

abbrev pub spec_names : Spec → List Text
spec_names (type_spec name doc body) = name ∷ []
spec_names (value_spec names) = names
spec_names import_spec = []

unfoldable pub note_specs : Text → Options → List Spec → Options
note_specs kind names [] = names
note_specs kind names (spec ∷ specs) =
    note_specs kind (note_each kind names (spec_names spec)) specs

abbrev pub note_decl : Options → Decl → Options
note_decl names (func_decl true name) = names
note_decl names (func_decl false name) = note names name (codes "a function")
note_decl names (gen_decl type_tok doc specs) = note_specs (codes "a type") names specs
note_decl names (gen_decl const_tok doc specs) = note_specs (codes "a constant") names specs
note_decl names (gen_decl var_tok doc specs) = note_specs (codes "a variable") names specs
note_decl names (gen_decl import_tok doc specs) = names
note_decl names bad_decl = names

unfoldable pub note_decls : Options → List Decl → Options
note_decls names [] = names
note_decls names (decl ∷ decls) = note_decls (note_decl names decl) decls

unfoldable pub note_files : Options → List File → Options
note_files names [] = names
note_files names ((path, decls) ∷ files) = note_files (note_decls names decls) files

unfoldable pub declared_names : List File → Options
declared_names files = note_files [] files

abbrev pub has_request_in : List Spec → Bool
has_request_in [] = false
has_request_in (value_spec names ∷ specs) =
    text_mem (codes "ErrRequestInvalid") names || has_request_in specs
has_request_in (spec ∷ specs) = has_request_in specs

abbrev pub decls_request : List Decl → Bool
decls_request [] = false
decls_request (gen_decl var_tok doc specs ∷ decls) = has_request_in specs || decls_request decls
decls_request (decl ∷ decls) = decls_request decls

unfoldable pub declares_request_invalid : List File → Bool
declares_request_invalid [] = false
declares_request_invalid ((path, decls) ∷ files) =
    decls_request decls || declares_request_invalid files

abbrev pub item_of : RawItem → Item
item_of raw = record {
  names = raw.names;
  signature = raw.signature;
  options = interface_marker (raw.doc ∷ raw.comment ∷ []);
}

abbrev pub items_of : List RawItem → List Item
items_of [] = []
items_of (raw ∷ raws) = item_of raw ∷ items_of raws

module _ (is_upper : ℕ → Bool) (facts : PkgFacts) (pkg path : Text) where
  abbrev pub parse_marked : Text → List RawItem → Option Options → Result Refusal (List Service)
  parse_marked name raws none = ok []
  parse_marked name raws (some options) =
      build_service is_upper facts pkg path name options (items_of raws) >>= λ service.
      ok (service ∷ [])

  abbrev pub parse_spec : Comments → Spec → Result Refusal (List Service)
  parse_spec doc (type_spec name own_doc (interface_body raws)) =
      parse_marked name raws (interface_marker (doc ∷ own_doc ∷ []))
  parse_spec doc spec = ok []

  unfoldable pub parse_specs : Comments → List Spec → Result Refusal (List Service)
  parse_specs doc [] = ok []
  parse_specs doc (spec ∷ specs) =
      parse_spec doc spec >>= λ found. parse_specs doc specs >>= λ rest. ok (found ++ rest)

  abbrev pub parse_decl : Decl → Result Refusal (List Service)
  parse_decl (gen_decl type_tok doc specs) = parse_specs doc specs
  parse_decl decl = ok []

  unfoldable pub parse_file : List Decl → Result Refusal (List Service)
  parse_file [] = ok []
  parse_file (decl ∷ decls) =
      parse_decl decl >>= λ found. parse_file decls >>= λ rest. ok (found ++ rest)

module _ (is_upper : ℕ → Bool) where
  unfoldable pub parse_files : PkgFacts → Text → List File → Result Refusal (List Service)
  parse_files facts pkg [] = ok []
  parse_files facts pkg ((path, decls) ∷ files) =
      parse_file is_upper facts pkg path decls >>= λ found.
      parse_files facts pkg files >>= λ rest. ok (found ++ rest)

  abbrev pub at_most_one : List Service → Result Refusal (List Service)
  at_most_one (first ∷ second ∷ more) =
      err (two_interfaces first.interface_name second.interface_name)
  at_most_one services = ok services

  abbrev pub pkg_facts : List File → PkgFacts
  pkg_facts files = (build_type_index files, declared_names files, declares_request_invalid files)

  -- What `ParseDir` does with one package.
  unfoldable pub parse_package : Text → List File → Result Refusal (List Service)
  parse_package pkg files = parse_files (pkg_facts files) pkg files >>= at_most_one
