-- ===== src/Rpc/Wire/Maps.antt =====
-- The texts that the check of wire types takes apart: the halves of a map type, and the types whose
-- text the check does not take apart.
use roost_codegen.Prelude.{
  ℕ, ◌+◌, ◌-◌, ◌≤◌, Bool, true, false, not, ◌&&◌, [], ◌∷◌, ◌++◌, none, some, ◌≡◌, ◌≢◌, refl, ap,
  ◌∙◌, arith, ◌==◌, All, append_assoc, append-nil,
}
use roost_codegen.Prelude.Result.{ok}
use roost_codegen.Prelude.Text.{Text, codes, lookup_text}
use roost_codegen.Rpc.{
  Expr, ident, selector, star, slice, sized_array, map_type, empty_interface, other_interface,
  chan_type, func_type, other_expr, render_type,
}
use roost_codegen.Rpc.Wire.{
  TypeIndex, cut_from, cut_map, base_name, is_unexported_named, is_wire_unsafe, check_deep,
  check_level, check_wire_safe,
}

abbrev pub Plain : Text → Type 0
Plain s = All (λ c. (c ≢ b'[') × (c ≢ b']')) s

-- The names of the type hold no bracket, as Go's identifiers.
abbrev pub PlainNames : Expr → Type 0
PlainNames (ident name) = Plain name
PlainNames (selector x sel) = PlainNames x × Plain sel
PlainNames (star x) = PlainNames x
PlainNames (slice elt) = PlainNames elt
PlainNames (map_type key value) = PlainNames key × PlainNames value
PlainNames (chan_type value) = PlainNames value
PlainNames _ = Unit

-- A text with its brackets in pairs: the loop of `cutMap` goes over it at any depth.
abbrev Crossed : Text → Type 0
Crossed s =
    (depth : ℕ) (key rest : Text)
    → 1 ≤ depth
    → cut_from depth key (s ++ rest) ≡ cut_from depth (key ++ s) rest

skip_plain :
    (c depth : ℕ) (key rest : Text)
    → c ≢ b'['
    → c ≢ b']'
    → cut_from depth key (c ∷ rest) ≡ cut_from depth (key ++ c ∷ []) rest
unfolding cut_from
skip_plain c depth key rest no_open no_close =
    let not_open : (c == b'[') ≡ false = ground arith in
    let not_close : (c == b']') ≡ false = ground arith in rw (not_open, not_close, cut_from) refl

skip_close :
    (depth : ℕ) (key rest : Text)
    → 1 ≤ depth
    → cut_from (depth + 1) key (b']' ∷ rest) ≡ cut_from depth (key ++ b']' ∷ []) rest
unfolding cut_from
skip_close depth key rest h =
    let more : (depth + 1 - 1 == 0) ≡ false = ground arith in
    let less : depth + 1 - 1 ≡ depth = omega arith in
    rw (cut_from, more) (ap (λ d. cut_from d (key ++ b']' ∷ []) rest) less)

-- A text that is written out.
abbrev pub plain_text : Text → Bool
plain_text [] = true
plain_text (c ∷ s) = not (c == b'[') && (not (c == b']') && plain_text s)

pub plain_text-Plain : (s : Text) → plain_text s ≡ true → Plain s
plain_text-Plain [] h = tt
plain_text-Plain (c ∷ s) h = ((ground arith, ground arith), plain_text-Plain s (ground arith))

Plain-Crossed : (s : Text) → Plain s → Crossed s
Plain-Crossed [] _ depth key rest h = rw (append-nil key) refl
Plain-Crossed (c ∷ s) ((no_open, no_close), hs) depth key rest h =
    skip_plain c depth key (s ++ rest) no_open no_close
    ∙ Plain-Crossed s hs depth (key ++ c ∷ []) rest h
    ∙ ap (λ k. cut_from depth k rest) (append_assoc key (c ∷ []) s)

word-Crossed : (s : Text) → plain_text s ≡ true → Crossed s
word-Crossed s h = Plain-Crossed s (plain_text-Plain s h)

append-Crossed : (s t : Text) → Crossed s → Crossed t → Crossed (s ++ t)
append-Crossed s t hs ht depth key rest h =
    ap (λ r. cut_from depth key r) (append_assoc s t rest)
    ∙ hs depth key (t ++ rest) h
    ∙ ht depth (key ++ s) rest h
    ∙ ap (λ k. cut_from depth k rest) (append_assoc key s t)

bracket-Crossed : (s : Text) → Crossed s → Crossed (codes "[" ++ (s ++ codes "]"))
unfolding cut_from
bracket-Crossed s hs depth key rest h =
    ap (λ r. cut_from (depth + 1) (key ++ b'[' ∷ []) r) (append_assoc s (codes "]") rest)
    ∙ hs (depth + 1) (key ++ b'[' ∷ []) (b']' ∷ rest) (omega arith)
    ∙ skip_close depth ((key ++ b'[' ∷ []) ++ s) rest h
    ∙ ap (λ k. cut_from depth k rest)
        (append_assoc (key ++ b'[' ∷ []) s (codes "]")
          ∙ append_assoc key (codes "[") (s ++ codes "]"))

empty-Crossed : Crossed []
empty-Crossed depth key rest h = rw (append-nil key) refl

render_type-Crossed : (e : Expr) → PlainNames e → Crossed (render_type e)
unfolding render_type
render_type-Crossed (ident name) h = Plain-Crossed name h
render_type-Crossed (selector x sel) (hx, hs) =
    append-Crossed (render_type x) (codes "." ++ sel) (render_type-Crossed x hx)
      (append-Crossed (codes ".") sel (word-Crossed (codes ".") refl) (Plain-Crossed sel hs))
render_type-Crossed (star x) h =
    append-Crossed (codes "*") (render_type x) (word-Crossed (codes "*") refl)
      (render_type-Crossed x h)
render_type-Crossed (slice elt) h =
    append-Crossed (codes "[]") (render_type elt) (bracket-Crossed [] empty-Crossed)
      (render_type-Crossed elt h)
render_type-Crossed sized_array h = word-Crossed (codes "?") refl
render_type-Crossed (map_type key value) (hk, hv) =
    let in_brackets : Crossed (codes "[" ++ (render_type key ++ codes "]")) =
      bracket-Crossed (render_type key) (render_type-Crossed key hk) in
    let behind : Crossed (codes "[" ++ (render_type key ++ codes "]") ++ render_type value) =
      append-Crossed (codes "[" ++ (render_type key ++ codes "]")) (render_type value) in_brackets
        (render_type-Crossed value hv) in
    append-Crossed (codes "map")
      (codes "[" ++ (render_type key ++ (codes "]" ++ render_type value)))
      (word-Crossed (codes "map") refl)
      (rw (append_assoc (render_type key) (codes "]") (render_type value)) at behind)
render_type-Crossed empty_interface h = word-Crossed (codes "interface{}") refl
render_type-Crossed other_interface h = word-Crossed (codes "?") refl
render_type-Crossed (chan_type value) h =
    append-Crossed (codes "chan ") (render_type value) (word-Crossed (codes "chan ") refl)
      (render_type-Crossed value h)
render_type-Crossed func_type h = word-Crossed (codes "func(") refl
render_type-Crossed other_expr h = word-Crossed (codes "?") refl

-- `cutMap` takes the text of a map type apart into the texts of its key and its value, whatever types
-- these are, as long as no identifier holds a bracket.
pub cut_map-render_type :
    (key value : Expr)
    → PlainNames key
    → cut_map (render_type (map_type key value)) ≡ some (render_type key, render_type value)
unfolding cut_map render_type cut_from
cut_map-render_type key value h =
    render_type-Crossed key h 1 [] (b']' ∷ render_type value) (omega arith)

bracket-is_unexported_named : (s : Text) → is_unexported_named (b'[' ∷ s) ≡ false
unfolding is_unexported_named
bracket-is_unexported_named s = ground arith

-- A slice of slices is let through whatever its elements are, unless a struct is known under that text.
pub slices_pass :
    (is_upper : ℕ → Bool) (index : TypeIndex) (method path : Text) (elt : Expr)
    → lookup_text (render_type (slice elt)) index ≡ none
    → check_wire_safe is_upper index method path (render_type (slice (slice elt))) ≡ ok tt
unfolding check_wire_safe check_deep check_level is_wire_unsafe base_name render_type
slices_pass is_upper index method path elt h =
    rw (bracket-is_unexported_named (b']' ∷ render_type elt), h) refl

-- A type that is rendered as a question mark, as arrays of a fixed length and interfaces with methods
-- are, is let through, unless a struct is known under that text.
pub unsupported_pass :
    (is_upper : ℕ → Bool) (index : TypeIndex) (method path : Text) (e : Expr)
    → render_type e ≡ codes "?"
    → lookup_text (codes "?") index ≡ none
    → check_wire_safe is_upper index method path (render_type e) ≡ ok tt
unfolding check_wire_safe check_deep check_level is_wire_unsafe base_name is_unexported_named
unsupported_pass is_upper index method path e shown h = rw (shown, h) refl
