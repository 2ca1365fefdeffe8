-- ===== src/Attribute/Fields.antt =====
-- internal/attribute/parse.go: which fields of a struct stand in its profile.
use roost_codegen.Prelude.{
  ℕ, Bool, true, false, not, ◌||◌, List, [], ◌∷◌, ◌++◌, Option, ◌≡◌, refl, subst, append_assoc,
  append-nil, leb, length, any, if◌then◌else◌, Bool-cases, inl, inr, Pointwise, Pointwise-append,
}
use roost_codegen.Prelude.Text.{Text, codes}
use roost_codegen.Prelude.Result.{ok, err, >>=-eq-ok}
use roost_codegen.Attribute.Tag.{attr_tag, parse_positive_int}
use roost_codegen.Attribute.Profile.{
  FieldDecl, AttributeField, ProfileDef, too_many_fields, duplicate_field, number_or, has_field,
  declares_mask, starts_upper, attr_name_or, new_field, put_field, add_field, add_names, add_fields,
  check_mask, param, expr_string, build_profile,
}
use roost_codegen.Attribute.Numbers.{IsProfile, build_profile-IsProfile}

-- A field that a profile has to have: its name, the text of its type, and the attribute's name.
pub record Wanted : Type 0 where
  pub name : Text
  pub type_text : Text
  pub attr_name : Text

abbrev pub TakenAs : Wanted → AttributeField → Type 0
TakenAs x f =
    (f.name ≡ x.name)
    × (f.type_text ≡ x.type_text)
    × (f.attr_name ≡ x.attr_name)
    × (f.const_name ≡ codes "Attr" ++ x.name)
    × (f.mask_name ≡ codes "AttrMask" ++ x.name)
    × (f.derived ≡ false)

module _ (is_upper : ℕ → Bool) (to_lower : ℕ → ℕ) (unquote : Text → Option Text) where
  -- The exported names of an entry whose tag does not skip it.
  abbrev pub wanted_names : Text → Text × Bool → List Text → List Wanted
  wanted_names type_text tag [] = []
  wanted_names type_text tag (name ∷ names) =
      (if not (starts_upper is_upper name) || tag.1
        then []
        else record {
          name = name;
          type_text = type_text;
          attr_name = attr_name_or is_upper to_lower unquote tag.0 name;
        }
          ∷ [])
      ++ wanted_names type_text tag names

  abbrev pub wanted_fields : List FieldDecl → List Wanted
  wanted_fields [] = []
  wanted_fields (field ∷ decls) =
      wanted_names (expr_string field.type_expr) (attr_tag unquote field.tag) field.names
      ++ wanted_fields decls

  abbrev Holds : List Wanted → ProfileDef → Type 0
  Holds xs def = Pointwise TakenAs xs def.fields

  add_field-Holds :
      (type_text : Text) (tag : Text × Bool) (name : Text) (xs : List Wanted)
      (def later : ProfileDef)
      → Holds xs def
      → add_field is_upper to_lower unquote type_text tag name def ≡ ok later
      → Holds
          (xs
            ++ (if not (starts_upper is_upper name) || tag.1
                then []
                else record {
                  name = name;
                  type_text = type_text;
                  attr_name = attr_name_or is_upper to_lower unquote tag.0 name;
                }
                  ∷ []))
          later
  unfolding add_field new_field
  add_field-Holds type_text tag name xs def later held h =
      elim (Bool-cases (not (starts_upper is_upper name) || tag.1)) [
        | inl skip ↦
            let same : ok def ≡ ok later = rw skip at h in
            let def_is : def ≡ later = cc in rw (skip, append-nil xs) (subst (Holds xs) def_is held)
        | inr take ↦ elim (Bool-cases (leb def.max_count (length def.fields))) [
          | inl full ↦
              let stuck : err (too_many_fields def.max_count) ≡ ok later = rw (take, full) at h in
              cc
          | inr room ↦ elim (Bool-cases (has_field name def.fields)) [
            | inl twice ↦
                let stuck : err (duplicate_field name) ≡ ok later = rw (take, room, twice) at h in
                cc
            | inr fresh ↦
                let made : ok
                      (put_field (new_field is_upper to_lower unquote def type_text tag.0 name) def)
                    ≡ ok later =
                  rw (take, room, fresh) at h in
                let def_is : put_field
                      (new_field is_upper to_lower unquote def type_text tag.0 name) def
                    ≡ later =
                  cc in
                rw take (
                  subst (Holds (xs ++ _ ∷ [])) def_is (
                    Pointwise-append TakenAs xs (_ ∷ []) def.fields (_ ∷ []) held
                      ((refl, refl, refl, refl, refl, refl), tt)))
          ]
        ]
      ]

  add_names-Holds :
      (type_text : Text) (tag : Text × Bool) (names : List Text) (xs : List Wanted)
      (def later : ProfileDef)
      → Holds xs def
      → add_names is_upper to_lower unquote type_text tag names def ≡ ok later
      → Holds (xs ++ wanted_names type_text tag names) later
  unfolding add_names
  add_names-Holds type_text tag [] xs def later held h =
      let def_is : def ≡ later = cc in rw (append-nil xs) (subst (Holds xs) def_is held)
  add_names-Holds type_text tag (name ∷ names) xs def later held h =
      let (between, first, rest) =
        >>=-eq-ok (add_field is_upper to_lower unquote type_text tag name def) _ h in
      rw (← append_assoc xs _ (wanted_names type_text tag names)) (
        add_names-Holds type_text tag names _ between later
          (add_field-Holds type_text tag name xs def between held first) rest)

  add_fields-Holds :
      (decls : List FieldDecl) (xs : List Wanted) (def later : ProfileDef)
      → Holds xs def
      → add_fields is_upper to_lower unquote decls def ≡ ok later
      → Holds (xs ++ wanted_fields decls) later
  unfolding add_fields
  add_fields-Holds [] xs def later held h =
      let def_is : def ≡ later = cc in rw (append-nil xs) (subst (Holds xs) def_is held)
  add_fields-Holds (field ∷ decls) xs def later held h =
      let type_text = expr_string field.type_expr in
      let tag = attr_tag unquote field.tag in
      let (between, first, rest) =
        >>=-eq-ok (add_names is_upper to_lower unquote type_text tag field.names def) _ h in
      rw (← append_assoc xs (wanted_names type_text tag field.names) (wanted_fields decls)) (
        add_fields-Holds decls (xs ++ wanted_names type_text tag field.names) between later
          (add_names-Holds type_text tag field.names xs def between held first) rest)

  check_mask_same :
      (found : Bool) (filled def : ProfileDef) → check_mask found filled ≡ ok def → filled ≡ def
  check_mask_same true filled def h = cc
  check_mask_same false filled def h = cc

  -- A profile that `buildProfile` accepts: the first id and the number of allowed fields are positive,
  -- there are at most that many fields, the bits count up from 0 and the ids from the first id (as
  -- words of 64 bits), no two fields have the same name, and the struct declares the field `dirtyMask`
  -- of type uint64; and the fields are, in order, those of the struct that are exported and not
  -- skipped by their tag, each with the text of its type, the attribute's name (that of the tag, or
  -- the field's in snake case) and the names of its constants.
  pub build_profile-Fields :
      (name pkg : Text) (decls : List FieldDecl) (params : List (Text × Text)) (def : ProfileDef)
      → build_profile is_upper to_lower unquote name pkg decls params ≡ ok def
      → IsProfile def
        × (any declares_mask decls ≡ true)
        × Pointwise TakenAs (wanted_fields decls) def.fields
  unfolding build_profile
  build_profile-Fields name pkg decls params def h =
      let (is_profile, has_mask) =
        build_profile-IsProfile is_upper to_lower unquote name pkg decls params def h in
      let (begin, is_begin, h1) =
        >>=-eq-ok (number_or (parse_positive_int (param (codes "index") params) 1)) _ h in
      let (max, is_max, h2) =
        >>=-eq-ok (number_or (parse_positive_int (param (codes "max") params) 64)) _ h1 in
      let start : ProfileDef = record {
        name = name;
        package_name = pkg;
        index_begin = begin;
        max_count = max;
        fields = [];
      } in
      let (filled, is_filled, h3) =
        >>=-eq-ok (add_fields is_upper to_lower unquote decls start) _ h2 in
      (
        is_profile,
        has_mask,
        subst (λ d. Pointwise TakenAs (wanted_fields decls) d.fields)
            (check_mask_same (any declares_mask decls) filled def h3)
            (add_fields-Holds decls [] start filled tt is_filled),
      )
