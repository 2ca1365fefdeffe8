-- ===== src/Rpc/Tests.antt =====
-- Runs of the check of wire types and of what it is made of.
use roost_codegen.Prelude.{ℕ, String, Bool, ◌&&◌, leb, [], ◌∷◌, some, ◌≡◌, ◌↔◌, refl}
use roost_codegen.Prelude.Result.{ok, err}
use roost_codegen.Prelude.Text.{codes, text_eq, cut_prefix, cut_at, lookup_text}
use roost_codegen.Rpc.{
  Expr, ident, selector, slice, sized_array, map_type, render_type, AstField, unexported_field,
  wire_unsafe, too_deep,
}
use roost_codegen.Rpc.Wire.{
  TypeIndex, text_mem, is_wire_unsafe, is_unexported_named, cut_from, cut_map, base_name,
  check_names, check_named, check_fields, check_level, check_deep, check_wire_safe,
}
use roost_codegen.Rpc.Wire.Reach.{WireSafe, check_wire_safe_iff}
use roost_codegen.Rpc.Wire.Maps.{
  cut_map-render_type, slices_pass, Plain, plain_text-Plain, unsupported_pass,
}

abbrev upper : ℕ → Bool
upper c = leb b'A' c && leb c b'Z'

abbrev int : Expr
int = ident (codes "int")

abbrev duration : Expr
duration = selector (ident (codes "time")) (codes "Duration")

abbrev one_field : String → Expr → AstField
one_field name type = record { names = codes name ∷ []; type = type }

-- `Good` crosses; `Token` hides its field; `Mail` has a duration two levels down; `Node` holds itself.
abbrev types : TypeIndex
types =
    (codes "Good", one_field "Count" int ∷ [])
    ∷ (codes "Token", one_field "system" int ∷ [])
    ∷ (codes "Mail", one_field "Expires" (map_type int duration) ∷ [])
    ∷ (codes "Node", one_field "Next" (ident (codes "Node")) ∷ [])
    ∷ []

good_passes : check_wire_safe upper types (codes "M") (codes "req") (codes "[]Good") ≡ ok tt
unfolding check_wire_safe check_deep check_level is_wire_unsafe text_mem text_eq base_name
    cut_prefix is_unexported_named cut_at lookup_text check_fields check_named check_names
    render_type
good_passes = refl

token_hides :
    check_wire_safe upper types (codes "M") (codes "req") (codes "*Token")
    ≡ err (unexported_field (codes "M") (codes "req") (codes "system"))
unfolding check_wire_safe check_deep check_level is_wire_unsafe text_mem text_eq base_name
    cut_prefix is_unexported_named cut_at lookup_text check_fields check_named check_names
    render_type
token_hides = refl

mail_fails :
    check_wire_safe upper types (codes "M") (codes "req") (codes "Mail")
    ≡ err (wire_unsafe (codes "M") (codes "req.Expires[]") (codes "time.Duration"))
unfolding check_wire_safe check_deep check_level is_wire_unsafe text_mem text_eq base_name
    cut_prefix is_unexported_named cut_at lookup_text check_fields check_named check_names
    render_type cut_map cut_from
mail_fails = refl

node_is_too_deep :
    check_wire_safe upper types (codes "M") (codes "n") (codes "Node")
    ≡ err (too_deep (codes "M") (codes "n.Next.Next.Next.Next.Next.Next.Next.Next.Next"))
unfolding check_wire_safe check_deep check_level is_wire_unsafe text_mem text_eq base_name
    cut_prefix is_unexported_named cut_at lookup_text check_fields check_named check_names
    render_type
node_is_too_deep = refl

check_wire_safe_iff_example :
    (check_wire_safe upper types (codes "M") (codes "req") (codes "[]Good") ≡ ok tt)
    ↔ WireSafe upper types 9 (codes "[]Good")
check_wire_safe_iff_example =
    check_wire_safe_iff upper types (codes "M") (codes "req") (codes "[]Good")

int-Plain : Plain (codes "int")
int-Plain = plain_text-Plain (codes "int") refl

cut_map-render_type_example :
    cut_map (render_type (map_type (map_type int int) (slice int)))
    ≡ some (render_type (map_type int int), render_type (slice int))
cut_map-render_type_example =
    cut_map-render_type (map_type int int) (slice int) (int-Plain, int-Plain)

slices_pass_example :
    check_wire_safe upper types (codes "M") (codes "d") (render_type (slice (slice duration)))
    ≡ ok tt
unfolding lookup_text text_eq render_type
slices_pass_example = slices_pass upper types (codes "M") (codes "d") duration refl

unsupported_pass_example :
    check_wire_safe upper types (codes "M") (codes "a") (render_type sized_array) ≡ ok tt
unfolding lookup_text text_eq render_type
unsupported_pass_example =
    unsupported_pass upper types (codes "M") (codes "a") sized_array refl refl
