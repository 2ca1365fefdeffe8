-- ===== src/Attribute/Profile.antt =====
-- internal/attribute/parse.go: the fields of a marked struct as a numbered profile.
use roost_codegen.Prelude.{
  ℕ, ◌+◌, ◌%◌, ◌^◌, Bool, true, false, not, ◌&&◌, ◌||◌, List, [], ◌∷◌, ◌++◌, Option, leb,
  if◌then◌else◌, length, any,
}
use roost_codegen.Prelude.Text.{Text, codes, text_eq, lookup_text, get_or}
use roost_codegen.Prelude.Result.{Result, ok, err, ◌>>=◌}
use roost_codegen.Attribute.Tag.{to_snake, parse_positive_int, attr_tag}

-- A type expression, with the cases that `exprString` tells apart.
pub data TypeExpr : Type 0 where
  ident : Text → TypeExpr
  star : TypeExpr → TypeExpr
  selector : TypeExpr → Text → TypeExpr
  slice : TypeExpr → TypeExpr
  array : TypeExpr → TypeExpr → TypeExpr
  basic : Text → TypeExpr
  other : TypeExpr

unfoldable pub expr_string : TypeExpr → Text
expr_string (ident name) = name
expr_string (star x) = b'*' ∷ expr_string x
expr_string (selector x name) = expr_string x ++ b'.' ∷ name
expr_string (slice elt) = codes "[]" ++ expr_string elt
expr_string (array len elt) = b'[' ∷ expr_string len ++ b']' ∷ expr_string elt
expr_string (basic value) = value
expr_string other = codes "any"

-- One entry of the list of fields, with the names that it declares.
pub record FieldDecl : Type 0 where
  pub names : List Text
  pub type_expr : TypeExpr
  pub tag : Option Text

pub record AttributeField : Type 0 where
  pub name : Text
  pub type_text : Text
  pub attr_name : Text
  pub id : ℕ
  pub bit : ℕ
  pub derived : Bool
  pub const_name : Text
  pub mask_name : Text

pub record ProfileDef : Type 0 where
  pub name : Text
  pub package_name : Text
  pub index_begin : ℕ
  pub max_count : ℕ
  pub fields : List AttributeField

pub data ProfileError : Type 0 where
  bad_number : Text → ProfileError
  too_many_fields : (max_count : ℕ) → ProfileError
  duplicate_field : Text → ProfileError
  no_dirty_mask : ProfileError

abbrev pub number_or : Result Text ℕ → Result ProfileError ℕ
number_or (err s) = err (bad_number s)
number_or (ok n) = ok n

-- Whether `fieldMap` has a name, which is that of a field so far.
unfoldable pub has_field : Text → List AttributeField → Bool
has_field name [] = false
has_field name (f ∷ fields) = text_eq f.name name || has_field name fields

-- The first loop: the field into which the generated setters write.
abbrev pub declares_mask : FieldDecl → Bool
declares_mask field =
    text_eq (expr_string field.type_expr) (codes "uint64")
    && any (λ name. text_eq name (codes "dirtyMask")) field.names

abbrev pub put_field : AttributeField → ProfileDef → ProfileDef
put_field f def = record def { fields = def.fields ++ f ∷ [] }

abbrev pub check_mask : Bool → ProfileDef → Result ProfileError ProfileDef
check_mask true def = ok def
check_mask false def = err no_dirty_mask

abbrev pub param : Text → List (Text × Text) → Text
param key params = get_or (lookup_text key params) []

-- `ast.IsExported`.
abbrev pub starts_upper : (ℕ → Bool) → Text → Bool
starts_upper is_upper [] = false
starts_upper is_upper (c ∷ name) = is_upper c

module _ (is_upper : ℕ → Bool) (to_lower : ℕ → ℕ) (unquote : Text → Option Text) where
  abbrev pub attr_name_or : Text → Text → Text
  attr_name_or [] name = to_snake is_upper to_lower name
  attr_name_or (c ∷ attr_name) name = c ∷ attr_name

  -- A new field; its id is a word of Go's int.
  unfoldable pub new_field : ProfileDef → Text → Text → Text → AttributeField
  new_field def type_text attr_name name = record {
    name = name;
    type_text = type_text;
    attr_name = attr_name_or attr_name name;
    id = (def.index_begin + length def.fields) % 2 ^ 64;
    bit = length def.fields;
    derived = false;
    const_name = codes "Attr" ++ name;
    mask_name = codes "AttrMask" ++ name;
  }

  -- The body of the inner loop, behind the tag.
  unfoldable pub add_field : Text → Text × Bool → Text → ProfileDef → Result ProfileError ProfileDef
  add_field type_text tag name def =
      if not (starts_upper is_upper name) || tag.1
      then ok def
      else if leb def.max_count (length def.fields)
      then err (too_many_fields def.max_count)
      else if has_field name def.fields
      then err (duplicate_field name)
      else ok (put_field (new_field def type_text tag.0 name) def)

  unfoldable pub add_names :
      Text → Text × Bool → List Text → ProfileDef → Result ProfileError ProfileDef
  add_names type_text tag [] def = ok def
  add_names type_text tag (name ∷ names) def =
      add_field type_text tag name def >>= λ later. add_names type_text tag names later

  unfoldable pub add_fields : List FieldDecl → ProfileDef → Result ProfileError ProfileDef
  add_fields [] def = ok def
  add_fields (field ∷ decls) def =
      add_names (expr_string field.type_expr) (attr_tag unquote field.tag) field.names def
      >>= λ later. add_fields decls later

  -- `buildProfile`.
  unfoldable pub build_profile :
      Text → Text → List FieldDecl → List (Text × Text) → Result ProfileError ProfileDef
  build_profile name pkg decls params =
      number_or (parse_positive_int (param (codes "index") params) 1) >>= λ index_begin.
      number_or (parse_positive_int (param (codes "max") params) 64) >>= λ max_count.
      add_fields decls (record {
        name = name;
        package_name = pkg;
        index_begin = index_begin;
        max_count = max_count;
        fields = [];
      })
      >>= λ def. check_mask (any declares_mask decls) def
