-- ===== src/Marker.antt =====
-- internal/marker: the comment markers, under their present prefix and the one they had before.
use roost_codegen.Prelude.{
  Bool, ◌||◌, List, [], ◌∷◌, ◌++◌, Option, none, some, ◌≡◌, ◌↔◌, ◌⊎◌, inl, inr, refl, Option-cases,
}
use roost_codegen.Prelude.Text.{
  Text, codes, cut_prefix, cut_prefix-append, cut_prefix_sound, contains_text,
}

abbrev pub prefixes : List Text
prefixes = codes "//roost:" ∷ codes "//cube:" ∷ []

-- The loop of `Cut` over the prefixes.
unfoldable pub cut_each : List Text → Text → Text → Option Text
cut_each [] line kind = none
cut_each (prefix ∷ rest) line kind = elim (cut_prefix line (prefix ++ kind)) [
  | some after ↦ some after
  | none ↦ cut_each rest line kind
]

unfoldable pub cut : Text → Text → Option Text
unfolding cut_each
cut line kind = cut_each prefixes line kind

unfoldable pub has : Text → Text → Bool
has text body =
    contains_text text (codes "//roost:" ++ body) || contains_text text (codes "//cube:" ++ body)

unfoldable pub has_provenance : Text → Bool
has_provenance line =
    contains_text line (codes "roost:source=go_def")
    || contains_text line (codes "cube:source=go_def")

unfoldable pub both : Text → List Text
both body = (codes "//roost:" ++ body) ∷ (codes "//cube:" ++ body) ∷ []

-- What `Cut` answers for a line: the text behind the marker, under either prefix.
abbrev pub Carries : Text → Text → Text → Type 0
Carries line kind rest =
    (line ≡ codes "//roost:" ++ (kind ++ rest)) ⊎ (line ≡ codes "//cube:" ++ (kind ++ rest))

cut_sound : (line kind rest : Text) → cut line kind ≡ some rest → Carries line kind rest
unfolding cut
cut_sound line kind rest e = elim (Option-cases (cut_prefix line (codes "//roost:" ++ kind))) [
  | inl other ↦ elim (Option-cases (cut_prefix line (codes "//cube:" ++ kind))) [
    | inl neither ↦ let stuck : none ≡ some rest = rw (cut, cut_each, other, neither) at e in cc
    | inr (after, legacy) ↦
        let same : some after ≡ some rest = rw (cut, cut_each, other, legacy) at e in
        let whole : line ≡ codes "//cube:" ++ (kind ++ after) =
          cut_prefix_sound line (codes "//cube:" ++ kind) after legacy in
        inr cc
  ]
  | inr (after, found) ↦
      let same : some after ≡ some rest = rw (cut, cut_each, found) at e in
      let whole : line ≡ codes "//roost:" ++ (kind ++ after) =
        cut_prefix_sound line (codes "//roost:" ++ kind) after found in
      inl cc
]

apart :
    (kind rest : Text)
    → cut_prefix (codes "//cube:" ++ (kind ++ rest)) (codes "//roost:" ++ kind) ≡ none
unfolding cut_prefix
apart kind rest = refl

cut-present : (kind rest : Text) → cut (codes "//roost:" ++ (kind ++ rest)) kind ≡ some rest
unfolding cut
cut-present kind rest =
    let found : cut_prefix (codes "//roost:" ++ (kind ++ rest)) (codes "//roost:" ++ kind)
        ≡ some rest =
      cut_prefix-append (codes "//roost:" ++ kind) rest in
    rw (cut, cut_each, found) refl

cut-legacy : (kind rest : Text) → cut (codes "//cube:" ++ (kind ++ rest)) kind ≡ some rest
unfolding cut
cut-legacy kind rest =
    let other : cut_prefix (codes "//cube:" ++ (kind ++ rest)) (codes "//roost:" ++ kind) ≡ none =
      apart kind rest in
    let found : cut_prefix (codes "//cube:" ++ (kind ++ rest)) (codes "//cube:" ++ kind)
        ≡ some rest =
      cut_prefix-append (codes "//cube:" ++ kind) rest in
    rw (cut, cut_each, other, found) refl

cut_complete : (line kind rest : Text) → Carries line kind rest → cut line kind ≡ some rest
cut_complete line kind rest (inl e) = rw e (cut-present kind rest)
cut_complete line kind rest (inr e) = rw e (cut-legacy kind rest)

-- `Cut` answers a text exactly when the line is one of the two prefixes, the kind and that text, with
-- nothing in between: the text may begin with a letter.
pub cut_iff : (line kind rest : Text) → (cut line kind ≡ some rest) ↔ Carries line kind rest
cut_iff line kind rest = (cut_sound line kind rest, cut_complete line kind rest)
