-- ===== src/Manifest/Names.antt =====
-- internal/roost/manifest.go: `validName` and `validModulePath`.
use roost_codegen.Prelude.{
  ℕ, ◌+◌, Bool, true, false, not, ◌&&◌, ◌||◌, List, [], ◌∷◌, ◌==◌, ltb, leb, if◌then◌else◌, any,
  all,
}
use roost_codegen.Prelude.Text.{
  Text, codes, text_eq, trim_space, contains_text, has_prefix, has_suffix,
}

abbrev pub is_lower : ℕ → Bool
is_lower c = leb b'a' c && leb c b'z'

abbrev pub is_upper : ℕ → Bool
is_upper c = leb b'A' c && leb c b'Z'

abbrev pub is_decimal : ℕ → Bool
is_decimal c = leb b'0' c && leb c b'9'

abbrev pub is_name_char : ℕ → Bool
is_name_char c = is_lower c || (is_decimal c || c == b'_')

-- `namePattern`.
abbrev pub matches_name : Text → Bool
matches_name [] = false
matches_name (c ∷ s) = is_lower c && all is_name_char s

unfoldable pub valid_name : Text → Bool
valid_name name = matches_name (trim_space name)

-- `len(value)`: the bytes of the text in UTF-8.
abbrev pub bytes_of : ℕ → ℕ
bytes_of c = if ltb c 0x80 then 1 else if ltb c 0x800 then 2 else if ltb c 0x10000 then 3 else 4

unfoldable pub byte_length : Text → ℕ
byte_length [] = 0
byte_length (c ∷ s) = bytes_of c + byte_length s

-- `strings.Split(value, "/")`.
abbrev pub first_part : ℕ → List Text → List Text
first_part c [] = (c ∷ []) ∷ []
first_part c (part ∷ parts) = (c ∷ part) ∷ parts

unfoldable pub split_on : ℕ → Text → List Text
split_on sep [] = [] ∷ []
split_on sep (c ∷ s) =
    let rest = split_on sep s in if c == sep then [] ∷ rest else first_part c rest

abbrev pub is_bad_char : ℕ → Bool
is_bad_char c = leb c b' ' || (c == b'\\' || (c == b':' || (c == b'"' || c == b'\'')))

abbrev pub is_path_char : ℕ → Bool
is_path_char c =
    is_lower c
    || (is_upper c || (is_decimal c || (c == b'-' || (c == b'.' || (c == b'_' || c == b'~')))))

abbrev pub is_bad_segment : Text → Bool
is_bad_segment segment =
    text_eq segment []
    || (text_eq segment (codes ".")
        || (text_eq segment (codes "..")
            || (has_prefix segment (codes ".") || has_suffix segment (codes "."))))

unfoldable pub valid_segments : List Text → Bool
valid_segments [] = true
valid_segments (segment ∷ segments) =
    not (is_bad_segment segment) && all is_path_char segment && valid_segments segments

unfoldable pub valid_module_path : Text → Bool
valid_module_path value =
    not (
      text_eq value []
      || (not (text_eq value (trim_space value))
          || (ltb 1024 (byte_length value) || contains_text value (codes "//"))))
    && (not (any is_bad_char value) && valid_segments (split_on b'/' value))
