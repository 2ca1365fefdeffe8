-- ===== src/Rpc/Wire.antt =====
-- internal/servicerpc/wiresafe.go: which types may cross the bus. Unicode's table of upper-case
-- letters, which decides what Go exports, is a parameter.
pub mod Reach
pub mod Maps
use roost_codegen.Prelude.{
  ℕ, zero, suc, ◌+◌, ◌-◌, Bool, true, false, not, List, [], ◌∷◌, ◌++◌, Option, none, some, ◌==◌,
  leb, ◌&&◌, ◌||◌, if◌then◌else◌, any,
}
use roost_codegen.Prelude.Result.{Result, ok, err, ◌>>=◌, ◌>>◌}
use roost_codegen.Prelude.Text.{
  Text, codes, text_eq, cut_prefix, has_prefix, trim_prefix, cut_at, is_some, lookup_text,
}
use roost_codegen.Rpc.{
  Expr, render_type, AstField, Refusal, too_deep, wire_unsafe, no_crossing, unexported_type,
  unexported_field, nothing_exported,
}

-- `typeIndex`: the fields of the package's struct types, by name.
abbrev pub TypeIndex : Type 0
TypeIndex = List (Text × List AstField)

unfoldable pub text_mem : Text → List Text → Bool
unfolding text_eq
text_mem s [] = false
text_mem s (t ∷ ts) = text_eq t s || text_mem s ts

-- The keys of `wireUnsafe`.
abbrev pub unsafe_names : List Text
unsafe_names =
    codes "time.Duration"
    ∷ codes "time.Time"
    ∷ codes "error"
    ∷ codes "context.Context"
    ∷ codes "any"
    ∷ codes "interface{}"
    ∷ []

abbrev pub basic_names : List Text
basic_names =
    codes "bool"
    ∷ codes "string"
    ∷ codes "int"
    ∷ codes "int8"
    ∷ codes "int16"
    ∷ codes "int32"
    ∷ codes "int64"
    ∷ codes "uint"
    ∷ codes "uint8"
    ∷ codes "uint16"
    ∷ codes "uint32"
    ∷ codes "uint64"
    ∷ codes "byte"
    ∷ codes "rune"
    ∷ codes "float32"
    ∷ codes "float64"
    ∷ []

unfoldable pub is_wire_unsafe : Text → Bool
unfolding text_mem
is_wire_unsafe base = text_mem base unsafe_names

abbrev pub starts_lower : Text → Bool
starts_lower [] = false
starts_lower (c ∷ s) = leb b'a' c && leb c b'z'

unfoldable pub is_unexported_named : Text → Bool
unfolding text_mem cut_at cut_prefix
is_unexported_named [] = false
is_unexported_named (c ∷ s) =
    if is_some (cut_at b'.' (c ∷ s))
      || (text_mem (c ∷ s) basic_names || has_prefix (c ∷ s) (codes "map["))
    then false
    else starts_lower (c ∷ s)

-- The loop of `cutMap`, behind the first bracket; `depth` is the source's, and `key` what was read.
unfoldable pub cut_from : ℕ → Text → Text → Option (Text × Text)
cut_from depth key [] = none
cut_from depth key (c ∷ rest) = elim (c == b'[') [
  | true ↦ cut_from (depth + 1) (key ++ c ∷ []) rest
  | false ↦ elim (c == b']') [
    | true ↦ elim (depth - 1 == 0) [
      | true ↦ some (key, rest)
      | false ↦ cut_from (depth - 1) (key ++ c ∷ []) rest
    ]
    | false ↦ cut_from depth (key ++ c ∷ []) rest
  ]
]

abbrev pub cut_after : Option Text → Option (Text × Text)
cut_after none = none
cut_after (some rest) = cut_from 1 [] rest

unfoldable pub cut_map : Text → Option (Text × Text)
unfolding cut_from cut_prefix
cut_map type_name = cut_after (cut_prefix type_name (codes "map["))

-- The name under one slice and one pointer.
unfoldable pub base_name : Text → Text
unfolding cut_prefix
base_name type_name = trim_prefix (trim_prefix type_name (codes "[]")) (codes "*")

abbrev pub Check : Type 0
Check = Result Refusal (Unit {0})

module _ (is_upper : ℕ → Bool) where
  abbrev pub is_exported : Text → Bool
  is_exported [] = false
  is_exported (c ∷ name) = is_upper c

  module _ (method : Text) (check : Text → Text → Check) (path : Text) where
    -- The loop over `field.Names`; the result is the new value of `exported`.
    unfoldable pub check_names : Text → ℕ → List Text → Result Refusal ℕ
    check_names rendered exported [] = ok exported
    check_names rendered exported (name ∷ names) =
        if is_exported name
        then (check (path ++ (codes "." ++ name)) rendered >>= λ _.
            check_names rendered (exported + 1) names)
        else err (unexported_field method path name)

    unfoldable pub check_named : Text → ℕ → List Text → Result Refusal ℕ
    check_named rendered exported [] =
        check (path ++ (codes "." ++ rendered)) rendered >>= λ _. ok (exported + 1)
    check_named rendered exported (name ∷ names) = check_names rendered exported (name ∷ names)

    abbrev pub check_field : ℕ → AstField → Result Refusal ℕ
    check_field exported f = check_named (render_type f.type) exported f.names

    -- The loop over `structType.Fields.List`.
    unfoldable pub check_fields : ℕ → List AstField → Result Refusal ℕ
    check_fields exported [] = ok exported
    check_fields exported (f ∷ fs) = check_field exported f >>= λ n. check_fields n fs

  abbrev pub check_struct :
      (Text → Text → Check) → Text → Text → Text → Option (List AstField) → Check
  check_struct check method path type_name none = ok tt
  check_struct check method path type_name (some fs) =
      check_fields method check path 0 fs >>= λ exported.
      if exported == 0 then err (nothing_exported method path type_name) else ok tt

  abbrev pub check_value : (Text → Text → Check) → Text → Option (Text × Text) → Check
  check_value check path none = ok tt
  check_value check path (some (key, value)) = check (path ++ codes "[]") value

  -- One level of `checkWireSafeDeep`; `check` is its call one level below.
  unfoldable pub check_level : TypeIndex → Text → (Text → Text → Check) → Text → Text → Check
  check_level index method check path type_name =
      let base = base_name type_name in
      if is_wire_unsafe base
      then err (wire_unsafe method path type_name)
      else if has_prefix base (codes "chan ") || has_prefix base (codes "func(")
      then err (no_crossing method path type_name)
      else if is_unexported_named base
      then err (unexported_type method path type_name)
      else if has_prefix base (codes "map[")
      then check_value check path (cut_map base)
      else check_struct check method path type_name (lookup_text base index)

  -- `checkWireSafeDeep`, with 9 less the source's `depth` for the levels left.
  unfoldable pub check_deep : TypeIndex → Text → ℕ → Text → Text → Check
  check_deep index method zero path type_name = err (too_deep method path)
  check_deep index method (suc left) path type_name =
      check_level index method (check_deep index method left) path type_name

  unfoldable pub check_wire_safe : TypeIndex → Text → Text → Text → Check
  check_wire_safe index method path type_name = check_deep index method 9 path type_name
