-- ===== src/Rpc.antt =====
-- internal/servicerpc: the generator of bus transports from annotated interfaces. This module has
-- the parts of a parsed source that it reads (go/ast), how it renders a type, and its refusals.
pub mod Wire
pub mod Service
pub mod Parse
pub mod Tests
use roost_codegen.Prelude.{ℕ, String, Bool, true, false, List, [], ◌∷◌, ◌++◌, Option, none, some}
use roost_codegen.Prelude.Text.{Text, codes}

-- The type expressions, with what `renderType` tells apart.
pub data Expr : Type 0 where
  ident : Text → Expr
  selector : Expr → Text → Expr
  star : Expr → Expr
  slice : Expr → Expr
  sized_array : Expr
  map_type : Expr → Expr → Expr
  empty_interface : Expr
  other_interface : Expr
  chan_type : Expr → Expr
  func_type : Expr
  other_expr : Expr

unfoldable pub render_type : Expr → Text
render_type (ident name) = name
render_type (selector x sel) = render_type x ++ (codes "." ++ sel)
render_type (star x) = codes "*" ++ render_type x
render_type (slice elt) = codes "[]" ++ render_type elt
render_type sized_array = codes "?"
render_type (map_type key value) =
    codes "map[" ++ (render_type key ++ (codes "]" ++ render_type value))
render_type empty_interface = codes "interface{}"
render_type other_interface = codes "?"
render_type (chan_type value) = codes "chan " ++ render_type value
render_type func_type = codes "func("
render_type other_expr = codes "?"

-- A field list's entry: `a, b int`; an entry with no names is an embedded field, or one parameter.
pub record AstField : Type 0 where
  pub names : List Text
  pub type : Expr

pub record Field : Type 0 where
  pub name : Text
  pub type : Text

abbrev pub named_fields : Text → List Text → List Field
named_fields rendered [] = []
named_fields rendered (name ∷ names) =
    record { name = name; type = rendered } ∷ named_fields rendered names

abbrev pub expand : AstField → List Field
expand f = elim f.names [
  | [] ↦ record { name = []; type = render_type f.type } ∷ []
  | name ∷ names ↦ named_fields (render_type f.type) (name ∷ names)
]

unfoldable pub flatten : List AstField → List Field
unfolding render_type
flatten [] = []
flatten (f ∷ fs) = expand f ++ flatten fs

-- Why an interface is refused. The path of the file and the interface's name, which each message
-- begins with, are left out.
pub data Refusal : Type 0 where
  too_deep : (method path : Text) → Refusal
  wire_unsafe : (method path type : Text) → Refusal
  no_crossing : (method path type : Text) → Refusal
  unexported_type : (method path type : Text) → Refusal
  unexported_field : (method path name : Text) → Refusal
  nothing_exported : (method path type : Text) → Refusal
  no_context : (method : Text) → Refusal
  first_not_context : (method type : Text) → Refusal
  unnamed_parameter : (method type : Text) → Refusal
  no_error : (method : Text) → Refusal
  unnamed_result : (method type : Text) → Refusal
  no_service_type : Refusal
  no_capability : Refusal
  embeds : Refusal
  declared_twice : (method : Text) → Refusal
  no_methods : Refusal
  no_request_invalid : Refusal
  collision : (name kind : Text) → Refusal
  affinity_unknown : (method affinity param : Text) → Refusal
  affinity_no_string : (method affinity param type : Text) → Refusal
  affinity_form : (method affinity : Text) → Refusal
  two_interfaces : (first second : Text) → Refusal
