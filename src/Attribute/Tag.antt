-- ===== src/Attribute/Tag.antt =====
-- internal/attribute/util.go: the texts that the compiler reads.
use roost_codegen.Prelude.{
  ℕ, zero, suc, ◌+◌, ◌%◌, Bool, true, false, not, ◌&&◌, ◌||◌, List, [], ◌∷◌, reverse, Option, none,
  some, ◌==◌, ltb, if◌then◌else◌, all, length,
}
use roost_codegen.Prelude.Text.{
  Text, codes, text_eq, cut_at, cut_prefix, fields, get_or, trim_space,
}
use roost_codegen.Prelude.Result.{Result, ok, err}
use roost_codegen.Version.{is_digit, scan_int}

-- The last byte of a character in UTF-8, which `rune(s[i-1])` reads as a character.
abbrev pub last_byte : ℕ → ℕ
last_byte c = if ltb c 0x80 then c else 0x80 + c % 64

-- `toSnake`, behind its first character; `previous` is the one before.
module _ (is_upper : ℕ → Bool) (to_lower : ℕ → ℕ) where
  unfoldable pub snake_from : ℕ → Text → Text
  snake_from previous [] = []
  snake_from previous (c ∷ s) =
      let rest = snake_from c s in
      if is_upper c
      then (if not (is_upper (last_byte previous))
          then b'_' ∷ to_lower c ∷ rest
          else to_lower c ∷ rest)
      else c ∷ rest

  unfoldable pub to_snake : Text → Text
  to_snake [] = []
  to_snake (c ∷ s) = (if is_upper c then to_lower c else c) ∷ snake_from c s

-- `strings.Trim(s, "\"")` and ``strings.Trim(s, "`")``.
unfoldable pub drop_char : ℕ → Text → Text
drop_char mark [] = []
drop_char mark (c ∷ s) = let rest = drop_char mark s in if c == mark then rest else c ∷ s

unfoldable pub trim_char : ℕ → Text → Text
trim_char mark s = reverse (drop_char mark (reverse (drop_char mark s)))

abbrev pub put_param : Option (Text × Text) → List (Text × Text) → List (Text × Text)
put_param none params = params
put_param (some (key, value)) params = (key, trim_char b'"' value) ∷ params

-- The loop of `parseKV`; the entry written last is at the head.
unfoldable pub parse_kv_from : List (Text × Text) → List Text → List (Text × Text)
parse_kv_from params [] = params
parse_kv_from params (part ∷ parts) = parse_kv_from (put_param (cut_at b'=' part) params) parts

unfoldable pub parse_kv : Text → List (Text × Text)
parse_kv s = parse_kv_from [] (fields s)

-- `strconv.Atoi`, where it gives a positive number.
abbrev pub positive_only : Option ℕ → Option ℕ
positive_only none = none
positive_only (some zero) = none
positive_only (some (suc n)) = some (suc n)

abbrev pub is_number : Text → Bool
is_number [] = false
is_number (c ∷ s) = all is_digit (c ∷ s)

unfoldable pub positive_atoi : Text → Option ℕ
positive_atoi s =
    let digits = get_or (cut_prefix s (codes "+")) s in
    if is_number digits then positive_only (scan_int digits) else none

abbrev pub or_bad : Text → Option ℕ → Result Text ℕ
or_bad s none = err s
or_bad s (some n) = ok n

unfoldable pub parse_positive_int : Text → ℕ → Result Text ℕ
parse_positive_int [] fallback = ok fallback
parse_positive_int (c ∷ s) fallback = or_bad (c ∷ s) (positive_atoi (c ∷ s))

-- The characters of a key in a struct tag.
abbrev pub is_key_char : ℕ → Bool
is_key_char c = ltb 32 c && not (c == b':' || (c == b'"' || c == 0x7f))

unfoldable pub span_key : Text → Text × Text
span_key [] = ([], [])
span_key (c ∷ s) =
    let rest = span_key s in if is_key_char c then (c ∷ rest.0, rest.1) else ([], c ∷ s)

-- `trimLeadingSpace`.
unfoldable pub trim_leading_space : Text → Text
trim_leading_space s = drop_char 32 s

abbrev pub keep : ℕ → Option (Text × Text) → Option (Text × Text)
keep c none = none
keep c (some (quoted, rest)) = some (c ∷ quoted, rest)

-- The loop of `scanQuoted`, behind the quote; an escaped character is passed over.
unfoldable pub scan_body : Bool → Text → Option (Text × Text)
scan_body escaped [] = none
scan_body true (c ∷ s) = keep c (scan_body false s)
scan_body false (c ∷ s) =
    let after_escape = keep c (scan_body true s) in
    let plainly = keep c (scan_body false s) in
    if c == b'\\' then after_escape else if c == b'"' then some (c ∷ [], s) else plainly

unfoldable pub scan_quoted : Text → Option (Text × Text)
scan_quoted [] = none
scan_quoted (c ∷ s) = if c == b'"' then keep c (scan_body false s) else none

abbrev pub entry_of : Text → Option (Text × Text) → Option (Text × Text × Text)
entry_of name none = none
entry_of name (some (quoted, rest)) = some (name, quoted, rest)

-- The tests on the key and what is behind it, and the scan of the value.
abbrev pub entry_after : Text → Text → Option (Text × Text × Text)
entry_after [] s = none
entry_after (k ∷ key) [] = none
entry_after (k ∷ key) (c ∷ []) = none
entry_after (k ∷ key) (c ∷ d ∷ s) =
    if c == b':' && d == b'"' then entry_of (k ∷ key) (scan_quoted (d ∷ s)) else none

-- One round of the loop of `Get`: the key, the quoted value and what is left; `none` where it breaks.
unfoldable pub next_entry : Text → Option (Text × Text × Text)
next_entry tag = let split = span_key (trim_leading_space tag) in entry_after split.0 split.1

module _ (unquote : Text → Option Text) where
  unfoldable pub get_from : ℕ → Text → Text → Text
  get_from zero key tag = []
  get_from (suc fuel) key tag = elim (next_entry tag) [
    | none ↦ []
    | some (name, quoted, rest) ↦
        let later = get_from fuel key rest in
        if text_eq key name then get_or (unquote quoted) [] else later
  ]

  -- `Get`, with a round for each character at most.
  unfoldable pub get : Text → Text → Text
  get key tag = get_from (length tag) key tag

  -- `attrTag`: the name, and whether the field is skipped.
  abbrev pub name_part : Text → Text
  name_part s = elim (cut_at b',' s) [ none ↦ s | some (before, after) ↦ before ]

  unfoldable pub attr_tag : Option Text → Text × Bool
  attr_tag none = ([], false)
  attr_tag (some value) =
      let st = get (codes "attr") (trim_char b'`' value) in
      if text_eq st []
      then ([], false)
      else if text_eq (trim_space (name_part st)) (codes "-")
      then ([], true)
      else (trim_space (name_part st), false)
