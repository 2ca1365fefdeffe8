-- ===== src/Attribute/TagLaws.antt =====
-- internal/attribute/util.go: the entries of a struct tag that is written in the conventional form.
use roost_codegen.Prelude.{
  ℕ, zero, suc, ◌≤◌, Bool, true, false, not, ◌||◌, List, [], ◌∷◌, ◌++◌, Option, some, ◌≡◌, ◌≢◌,
  refl, ◌∙◌, sym, ◌==◌, if◌then◌else◌, all, All, length, length-append, arith, Bool-cases, inl, inr,
  and-true,
}
use roost_codegen.Prelude.Text.{Text, text_eq, text_eq_iff, lookup_text, get_or}
use roost_codegen.Attribute.Tag.{
  is_key_char, span_key, drop_char, trim_leading_space, scan_body, scan_quoted, next_entry,
  get_from, get,
}

-- A character of a value that stands for itself between quotes.
abbrev pub is_plain : ℕ → Bool
is_plain c = not (c == b'"' || (c == b'\\' || c == 10))

-- A key and a value that are written without an escape.
abbrev pub IsPlain : Text × Text → Type 0
IsPlain (key, value) = (key ≢ []) × (all is_key_char key ≡ true) × (all is_plain value ≡ true)

abbrev pub spaces : ℕ → Text
spaces zero = []
spaces (suc gap) = b' ' ∷ spaces gap

-- The conventional form `key:"value" key:"value"`, with a gap of spaces before each entry.
abbrev pub tag_text : ℕ → List (Text × Text) → Text
tag_text gap [] = []
tag_text gap ((key, value) ∷ entries) =
    spaces gap ++ (key ++ (b':' ∷ (b'"' ∷ (value ++ (b'"' ∷ tag_text gap entries)))))

span_key-plain :
    (key s : Text) → all is_key_char key ≡ true → span_key (key ++ b':' ∷ s) ≡ (key, b':' ∷ s)
unfolding span_key
span_key-plain [] s h = refl
span_key-plain (c ∷ key) s h =
    let (here, later) = and-true (is_key_char c) (all is_key_char key) h in
    rw (here, span_key-plain key s later) refl

scan_body-plain :
    (value s : Text)
    → all is_plain value ≡ true
    → scan_body false (value ++ b'"' ∷ s) ≡ some (value ++ b'"' ∷ [], s)
unfolding scan_body
scan_body-plain [] s h = refl
scan_body-plain (c ∷ value) s h =
    let (here, later) = and-true (is_plain c) (all is_plain value) h in
    let quote : (c == b'"') ≡ false = ground arith in
    let escape : (c == b'\\') ≡ false = ground arith in
    rw (quote, escape, scan_body-plain value s later) refl

drop-spaces :
    (gap c : ℕ) (s : Text) → (c == 32) ≡ false → drop_char 32 (spaces gap ++ c ∷ s) ≡ c ∷ s
unfolding drop_char
drop-spaces zero c s h = rw h refl
drop-spaces (suc gap) c s h = drop-spaces gap c s h

no_space : (c : ℕ) → is_key_char c ≡ true → (c == 32) ≡ false
no_space c h = ground arith

next_entry-plain :
    (gap : ℕ) (key value s : Text)
    → IsPlain (key, value)
    → next_entry (spaces gap ++ (key ++ (b':' ∷ (b'"' ∷ (value ++ (b'"' ∷ s))))))
      ≡ some (key, b'"' ∷ (value ++ b'"' ∷ []), s)
unfolding next_entry trim_leading_space scan_quoted
next_entry-plain gap [] value s (given, _, _) = absurd (given refl)
next_entry-plain gap (c ∷ key) value s (given, keyed, plain) =
    let (here, later) = and-true (is_key_char c) (all is_key_char key) keyed in
    let behind : Text = b'"' ∷ (value ++ (b'"' ∷ s)) in
    let split : span_key (c ∷ (key ++ (b':' ∷ behind))) ≡ (c ∷ key, b':' ∷ behind) =
      span_key-plain (c ∷ key) behind keyed in
    rw
      (
        drop-spaces gap c (key ++ (b':' ∷ behind)) (no_space c here),
        split,
        scan_body-plain value s plain,
      )
      refl

length-tag_text :
    (gap : ℕ) (entries : List (Text × Text)) → length entries ≤ length (tag_text gap entries)
length-tag_text gap [] = omega arith
length-tag_text gap ((key, value) ∷ entries) = omega (
  arith,
  length-tag_text gap entries,
  length-append (spaces gap) (key ++ (b':' ∷ (b'"' ∷ (value ++ (b'"' ∷ tag_text gap entries))))),
  length-append key (b':' ∷ (b'"' ∷ (value ++ (b'"' ∷ tag_text gap entries)))),
  length-append value (b'"' ∷ tag_text gap entries),
)

module _ (unquote : Text → Option Text) (key : Text) where
  -- What `strconv.Unquote` documents of a text in double quotes that has no escape and no line break.
  abbrev pub UnquotesPlain : Type 0
  UnquotesPlain =
      (value : Text) → all is_plain value ≡ true → unquote (b'"' ∷ value ++ b'"' ∷ []) ≡ some value

  get_from_end : (fuel : ℕ) → get_from unquote fuel key [] ≡ []
  unfolding get_from next_entry trim_leading_space drop_char span_key
  get_from_end zero = refl
  get_from_end (suc fuel) = refl

  get_from_entry :
      (fuel : ℕ) (tag name quoted rest : Text)
      → next_entry tag ≡ some (name, quoted, rest)
      → get_from unquote (suc fuel) key tag
        ≡ (if text_eq key name then get_or (unquote quoted) [] else get_from unquote fuel key rest)
  unfolding get_from
  get_from_entry fuel tag name quoted rest h = rw (get_from, h) refl

  text_eq_sym : (a b : Text) → text_eq a b ≡ text_eq b a
  text_eq_sym a b = ground (arith, text_eq_iff a b, text_eq_iff b a)

  get_from-tag_text :
      (gap fuel : ℕ) (entries : List (Text × Text))
      → UnquotesPlain
      → All IsPlain entries
      → length entries ≤ fuel
      → get_from unquote fuel key (tag_text gap entries) ≡ get_or (lookup_text key entries) []
  unfolding lookup_text
  get_from-tag_text gap fuel [] unquotes plain enough = get_from_end fuel
  get_from-tag_text gap zero ((name, value) ∷ entries) unquotes plain enough =
      absurd (omega (arith, enough))
  get_from-tag_text gap (suc fuel) ((name, value) ∷ entries) unquotes
        ((given, keyed, is_plain_value), plains) enough =
      let later = get_from-tag_text gap fuel entries unquotes plains (omega (arith, enough)) in
      get_from_entry fuel (tag_text gap ((name, value) ∷ entries)) name
        (b'"' ∷ (value ++ b'"' ∷ [])) (tag_text gap entries)
        (next_entry-plain gap name value (tag_text gap entries) (given, keyed, is_plain_value))
      ∙ elim (Bool-cases (text_eq key name)) [
        | inl same ↦
            rw (same, sym (text_eq_sym key name) ∙ same, unquotes value is_plain_value) refl
        | inr other ↦ rw (other, sym (text_eq_sym key name) ∙ other) later
      ]

  -- For every key and every list of keys with plain values: `Get` reads from the text of the tag what the
  -- list has first under the key, and the empty text where it has nothing. The hypothesis is what
  -- `strconv.Unquote` does with a quoted text that has no escape and no line break.
  pub get-tag_text :
      (gap : ℕ) (entries : List (Text × Text))
      → UnquotesPlain
      → All IsPlain entries
      → get unquote key (tag_text gap entries) ≡ get_or (lookup_text key entries) []
  unfolding get
  get-tag_text gap entries unquotes plain =
      get_from-tag_text gap (length (tag_text gap entries)) entries unquotes plain
        (length-tag_text gap entries)
