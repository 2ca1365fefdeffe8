-- ===== src/Attribute/Tests.antt =====
-- Runs of the compiler of profiles, and the theorems at concrete inputs. The tables are those of ASCII.
use roost_codegen.Prelude.{
  Pointwise, ℕ, ◌+◌, Bool, true, false, ◌&&◌, List, [], ◌∷◌, ◌++◌, Option, none, some, ◌≡◌, refl,
  ap, leb, if◌then◌else◌, All, any,
}
use roost_codegen.Prelude.Text.{
  Text, codes, lookup_text, get_or, fields, cut_at, cut_prefix, fields_from, is_space, text_eq,
  trim_left, trim_space,
}
use roost_codegen.Prelude.Result.{Result, ok}
use roost_codegen.Attribute.Tag.{
  to_snake, snake_from, parse_kv, get, drop_char, parse_positive_int, parse_kv_from, trim_char,
  positive_atoi, attr_tag, get_from, next_entry, scan_body, scan_quoted, span_key,
  trim_leading_space,
}
use roost_codegen.Attribute.TagLaws.{IsPlain, tag_text, UnquotesPlain, get-tag_text}
use roost_codegen.Attribute.Profile.{
  ident, star, FieldDecl, ProfileDef, ProfileError, AttributeField, declares_mask, build_profile,
  add_fields, add_names, add_field, has_field, expr_string, new_field,
}
use roost_codegen.Attribute.Numbers.{IsProfile}
use roost_codegen.Attribute.Formulas.{MethodDecl, State}
use roost_codegen.Attribute.Fields.{TakenAs, wanted_fields, build_profile-Fields}
use roost_codegen.Version.{number_from}

abbrev is_ascii_upper : ℕ → Bool
is_ascii_upper c = leb b'A' c && leb c b'Z'

abbrev to_ascii_lower : ℕ → ℕ
to_ascii_lower c = if is_ascii_upper c then c + 32 else c

-- A quoted text without its quotes, as `strconv.Unquote` gives it where there is no escape.
abbrev without_last : Text → Text
without_last [] = []
without_last (c ∷ []) = []
without_last (c ∷ d ∷ s) = c ∷ without_last (d ∷ s)

abbrev unquote_plain : Text → Option Text
unquote_plain [] = none
unquote_plain (c ∷ s) = some (without_last s)

snakes : to_snake is_ascii_upper to_ascii_lower (codes "MaxHPValue") ≡ codes "max_hpvalue"
unfolding to_snake snake_from
snakes = refl

abbrev player_params : List (Text × Text)
player_params = parse_kv (codes "index=100 max=8")

abbrev player_decls : List FieldDecl
player_decls =
    record {
      names = codes "MaxHp" ∷ codes "Attack" ∷ [];
      type_expr = ident (codes "int64");
      tag = none;
    }
    ∷ record { names = codes "dirtyMask" ∷ []; type_expr = ident (codes "uint64"); tag = none }
    ∷ record {
      names = codes "Speed" ∷ [];
      type_expr = ident (codes "int32");
      tag = some (codes "`json:\"x\" attr:\"move_speed\"`");
    }
    ∷ []

abbrev built : Result ProfileError ProfileDef
built =
    build_profile is_ascii_upper to_ascii_lower unquote_plain (codes "Player") (codes "game")
      player_decls player_params

abbrev field : Text → Text → Text → ℕ → AttributeField
field name type_text attr_name bit = record {
  name = name;
  type_text = type_text;
  attr_name = attr_name;
  id = 100 + bit;
  bit = bit;
  derived = false;
  const_name = codes "Attr" ++ name;
  mask_name = codes "AttrMask" ++ name;
}

abbrev player : ProfileDef
player = record {
  name = codes "Player";
  package_name = codes "game";
  index_begin = 100;
  max_count = 8;
  fields =
      field (codes "MaxHp") (codes "int64") (codes "max_hp") 0
      ∷ field (codes "Attack") (codes "int64") (codes "attack") 1
      ∷ field (codes "Speed") (codes "int32") (codes "move_speed") 2
      ∷ [];
}

player_builds :
    build_profile is_ascii_upper to_ascii_lower unquote_plain
      (codes "Player")
      (codes "game")
      player_decls
      player_params
    ≡ ok player
unfolding build_profile parse_positive_int lookup_text parse_kv parse_kv_from fields cut_at
    trim_char drop_char positive_atoi cut_prefix number_from add_fields add_names add_field attr_tag
    has_field expr_string new_field get get_from next_entry scan_body scan_quoted snake_from
    span_key to_snake trim_leading_space fields_from is_space text_eq trim_left trim_space
player_builds = refl

build_profile-Fields_example :
    IsProfile player
    × (any declares_mask player_decls ≡ true)
    × Pointwise TakenAs
        (wanted_fields is_ascii_upper to_ascii_lower unquote_plain player_decls)
        player.fields
build_profile-Fields_example =
    build_profile-Fields is_ascii_upper to_ascii_lower unquote_plain (codes "Player") (codes "game")
      player_decls player_params player player_builds

without_last-append : (c : ℕ) (s : Text) → without_last (s ++ c ∷ []) ≡ s
without_last-append c [] = refl
without_last-append c (d ∷ []) = refl
without_last-append c (d ∷ e ∷ s) = ap (λ t. d ∷ t) (without_last-append c (e ∷ s))

unquotes_plain : UnquotesPlain unquote_plain (codes "attr")
unquotes_plain value plain = ap some (without_last-append b'"' value)

abbrev entries : List (Text × Text)
entries = (codes "json", codes "hp,omitempty") ∷ (codes "attr", codes "max_hp") ∷ []

entries-IsPlain : All IsPlain entries
entries-IsPlain = (((λ e. cc), refl, refl), (((λ e. cc), refl, refl), tt))

get-tag_text_example :
    get unquote_plain (codes "attr") (tag_text 1 entries)
    ≡ get_or (lookup_text (codes "attr") entries) []
get-tag_text_example =
    get-tag_text unquote_plain (codes "attr") 1 entries unquotes_plain entries-IsPlain

abbrev total_method : MethodDecl
total_method = record {
  receivers = star (ident (codes "P")) ∷ [];
  name = codes "_Total";
  results = ident (codes "int64") ∷ [];
  params = record { names = codes "Hp" ∷ []; type_expr = ident (codes "int64") } ∷ [];
}

abbrev raw_fields : List AttributeField
raw_fields =
    field (codes "Hp") (codes "int64") (codes "hp") 0
    ∷ field (codes "Total") (codes "int64") (codes "total") 1
    ∷ []

abbrev attached : State
attached = (
  field (codes "Hp") (codes "int64") (codes "hp") 0
      ∷ record (field (codes "Total") (codes "int64") (codes "total") 1) { derived = true }
      ∷ [],
  record { method = codes "_Total"; output = 1; inputs = 0 ∷ [] } ∷ [],
)
