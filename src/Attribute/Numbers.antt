-- ===== src/Attribute/Numbers.antt =====
-- internal/attribute/parse.go: the numbers of the fields of a profile.
use roost_codegen.Prelude.{
  ℕ, zero, suc, ◌+◌, ◌%◌, ◌^◌, ◌≤◌, Bool, true, false, not, ◌||◌, List, [], ◌∷◌, ◌++◌, Option, none,
  some, ◌≡◌, refl, ap, subst, ◌∙◌, leb, length, length-append, any, arith, Bool-cases, Option-cases,
  inl, inr,
}
use roost_codegen.Prelude.Text.{Text, codes, text_eq, text_eq_iff, get_or, cut_prefix}
use roost_codegen.Version.{scan_int}
use roost_codegen.Prelude.Result.{Result, ok, err, >>=-eq-ok}
use roost_codegen.Attribute.Tag.{
  attr_tag, parse_positive_int, positive_only, positive_atoi, is_number,
}
use roost_codegen.Attribute.Profile.{
  expr_string, FieldDecl, AttributeField, ProfileDef, ProfileError, bad_number, too_many_fields,
  duplicate_field, number_or, has_field, declares_mask, starts_upper, new_field, put_field,
  add_field, add_names, add_fields, check_mask, param, build_profile,
}

-- Fields that are numbered in order: the bit counts from `from`, the id from the first id.
abbrev pub Numbered : ℕ → ℕ → List AttributeField → Type 0
Numbered begin from [] = Unit
Numbered begin from (f ∷ fields) =
    (f.bit ≡ from) × (f.id ≡ (begin + from) % 2 ^ 64) × Numbered begin (suc from) fields

abbrev pub Distinct : List AttributeField → Type 0
Distinct [] = Unit
Distinct (f ∷ fields) = (has_field f.name fields ≡ false) × Distinct fields

-- A well-formed profile: at most as many fields as allowed, numbered from 0, with distinct names.
pub record IsProfile (def : ProfileDef) : Type 0 where
  pub begins : 1 ≤ def.index_begin
  pub allows : 1 ≤ def.max_count
  pub count : length def.fields ≤ def.max_count
  pub numbered : Numbered def.index_begin 0 def.fields
  pub distinct : Distinct def.fields

Numbered-append :
    (begin from : ℕ) (fields : List AttributeField) (f : AttributeField)
    → Numbered begin from fields
    → f.bit ≡ from + length fields
    → f.id ≡ (begin + (from + length fields)) % 2 ^ 64
    → Numbered begin from (fields ++ f ∷ [])
Numbered-append begin from [] f _ bit id =
    (bit ∙ omega arith, id ∙ ap (λ n. (begin + n) % 2 ^ 64) (omega arith), tt)
Numbered-append begin from (g ∷ fields) f (at_bit, at_id, rest) bit id = (
  at_bit,
  at_id,
  Numbered-append begin (suc from) fields f rest (bit ∙ omega arith)
      (id ∙ ap (λ n. (begin + n) % 2 ^ 64) (omega arith)),
)

has_field-append :
    (name : Text) (fields : List AttributeField) (f : AttributeField)
    → has_field name (fields ++ f ∷ []) ≡ (has_field name fields || text_eq f.name name)
unfolding has_field
has_field-append name [] f = ground arith
has_field-append name (g ∷ fields) f = ground (arith, has_field-append name fields f)

Distinct-append :
    (fields : List AttributeField) (f : AttributeField)
    → Distinct fields
    → has_field f.name fields ≡ false
    → Distinct (fields ++ f ∷ [])
unfolding has_field
Distinct-append [] f _ new = (refl, tt)
Distinct-append (g ∷ fields) f (apart, rest) new = (
  ground (
    arith,
    has_field-append g.name fields f,
    apart,
    new,
    text_eq_iff g.name f.name,
    text_eq_iff f.name g.name,
  ),
  Distinct-append fields f rest (ground (arith, new)),
)

ok-injective : {a b : ProfileDef} → ◌≡◌ {A = Result ProfileError ProfileDef} (ok a) (ok b) → a ≡ b
ok-injective h = cc

positive_above : (found : Option ℕ) (n : ℕ) → positive_only found ≡ some n → 1 ≤ n
positive_above none n h = cc
positive_above (some zero) n h = cc
positive_above (some (suc k)) n h = let same : suc k ≡ n = cc in omega (arith, same)

atoi_above : (s : Text) (n : ℕ) → positive_atoi s ≡ some n → 1 ≤ n
unfolding positive_atoi
atoi_above s n h = elim (Bool-cases (is_number (get_or (cut_prefix s (codes "+")) s))) [
  | inl number ↦ positive_above (scan_int (get_or (cut_prefix s (codes "+")) s)) n (rw number at h)
  | inr unread ↦ let stuck : none ≡ some n = rw unread at h in cc
]

number_above :
    (s : Text) (fallback n : ℕ)
    → 1 ≤ fallback
    → number_or (parse_positive_int s fallback) ≡ ok n
    → 1 ≤ n
unfolding parse_positive_int
number_above [] fallback n h e = let same : fallback ≡ n = cc in omega (arith, same, h)
number_above (c ∷ s) fallback n h e = elim (Option-cases (positive_atoi (c ∷ s))) [
  | inl unread ↦ let stuck : err (bad_number (c ∷ s)) ≡ ok n = rw unread at e in cc
  | inr (k, read) ↦
      let found : ok k ≡ ok n = rw read at e in
      let same : k ≡ n = cc in omega (arith, same, atoi_above (c ∷ s) k read)
]

check_mask_ok :
    (b : Bool) (def end : ProfileDef) → check_mask b def ≡ ok end → (b ≡ true) × (def ≡ end)
check_mask_ok true def end h = (refl, ok-injective h)
check_mask_ok false def end h = cc

module _ (is_upper : ℕ → Bool) (to_lower : ℕ → ℕ) (unquote : Text → Option Text) where
  put_field-IsProfile :
      (def : ProfileDef) (type_text attr_name name : Text)
      → IsProfile def
      → leb def.max_count (length def.fields) ≡ false
      → has_field name def.fields ≡ false
      → IsProfile (put_field (new_field is_upper to_lower unquote def type_text attr_name name) def)
  unfolding new_field
  put_field-IsProfile def type_text attr_name name is_profile room new = record {
    begins = is_profile.begins;
    allows = is_profile.allows;
    count =
        let grown =
          length-append def.fields
            (new_field is_upper to_lower unquote def type_text attr_name name ∷ []) in
        ground (arith, grown);
    numbered =
        Numbered-append def.index_begin 0 def.fields
          (new_field is_upper to_lower unquote def type_text attr_name name) is_profile.numbered
          (omega arith) (ap (λ n. (def.index_begin + n) % 2 ^ 64) (omega arith));
    distinct =
        Distinct-append def.fields
          (new_field is_upper to_lower unquote def type_text attr_name name) is_profile.distinct
          new;
  }

  add_field-IsProfile :
      (type_text : Text) (tag : Text × Bool) (name : Text) (def later : ProfileDef)
      → IsProfile def
      → add_field is_upper to_lower unquote type_text tag name def ≡ ok later
      → IsProfile later
  unfolding add_field
  add_field-IsProfile type_text tag name def later is_profile h =
      elim (Bool-cases (not (starts_upper is_upper name) || tag.1)) [
        | inl skipped ↦ subst IsProfile (ok-injective (rw (add_field, skipped) at h)) is_profile
        | inr taken ↦ elim (Bool-cases (leb def.max_count (length def.fields))) [
          | inl full ↦
              let stuck : err (too_many_fields def.max_count) ≡ ok later =
                rw (add_field, taken, full) at h in
              cc
          | inr room ↦ elim (Bool-cases (has_field name def.fields)) [
            | inl known ↦
                let stuck : err (duplicate_field name) ≡ ok later =
                  rw (add_field, taken, room, known) at h in
                cc
            | inr new ↦
                subst IsProfile (ok-injective (rw (add_field, taken, room, new) at h))
                  (put_field-IsProfile def type_text tag.0 name is_profile room new)
          ]
        ]
      ]

  add_names-IsProfile :
      (type_text : Text) (tag : Text × Bool) (names : List Text) (def later : ProfileDef)
      → IsProfile def
      → add_names is_upper to_lower unquote type_text tag names def ≡ ok later
      → IsProfile later
  unfolding add_names
  add_names-IsProfile type_text tag [] def later is_profile h =
      subst IsProfile (ok-injective h) is_profile
  add_names-IsProfile type_text tag (name ∷ names) def later is_profile h =
      let (between, first, rest) =
        >>=-eq-ok (add_field is_upper to_lower unquote type_text tag name def) _ h in
      add_names-IsProfile type_text tag names between later
        (add_field-IsProfile type_text tag name def between is_profile first) rest

  add_fields-IsProfile :
      (decls : List FieldDecl) (def later : ProfileDef)
      → IsProfile def
      → add_fields is_upper to_lower unquote decls def ≡ ok later
      → IsProfile later
  unfolding add_fields
  add_fields-IsProfile [] def later is_profile h = subst IsProfile (ok-injective h) is_profile
  add_fields-IsProfile (field ∷ decls) def later is_profile h =
      let tag = attr_tag unquote field.tag in
      let type_text = expr_string field.type_expr in
      let (between, first, rest) =
        >>=-eq-ok (add_names is_upper to_lower unquote type_text tag field.names def) _ h in
      add_fields-IsProfile decls between later
        (add_names-IsProfile type_text tag field.names def between is_profile first) rest

  -- A profile that `buildProfile` accepts: the first id and the number of allowed fields are positive, there
  -- are at most that many fields, the bits count up from 0 and the ids from the first id (as words of
  -- 64 bits), no two fields have the same name, and the struct declares the field `dirtyMask` of type
  -- uint64 that the generated setters write.
  pub build_profile-IsProfile :
      (name pkg : Text) (decls : List FieldDecl) (params : List (Text × Text)) (def : ProfileDef)
      → build_profile is_upper to_lower unquote name pkg decls params ≡ ok def
      → IsProfile def × (any (declares_mask) decls ≡ true)
  unfolding build_profile
  build_profile-IsProfile name pkg decls params def h =
      let (begin, is_begin, h1) =
        >>=-eq-ok (number_or (parse_positive_int (param (codes "index") params) 1)) _ h in
      let (max, is_max, h2) =
        >>=-eq-ok (number_or (parse_positive_int (param (codes "max") params) 64)) _ h1 in
      let start : ProfileDef = record {
        name = name;
        package_name = pkg;
        index_begin = begin;
        max_count = max;
        fields = [];
      } in
      let (filled, is_filled, h3) =
        >>=-eq-ok (add_fields is_upper to_lower unquote decls start) _ h2 in
      let (has_mask, same) = check_mask_ok (any declares_mask decls) filled def h3 in
      let started : IsProfile start = record {
        begins = number_above (param (codes "index") params) 1 begin (omega arith) is_begin;
        allows = number_above (param (codes "max") params) 64 max (omega arith) is_max;
        count = omega arith;
        numbered = tt;
        distinct = tt;
      } in
      (subst IsProfile same (add_fields-IsProfile decls start filled started is_filled), has_mask)
