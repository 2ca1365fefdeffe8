-- ===== src/Prelude/Trim.antt =====
-- Laws of `strings.TrimSpace`.
use mathlib.Core.Path.{◌≡◌, refl, sym, ap, ◌∙◌, subst}
use mathlib.Core.Logic.{inl, inr}
use mathlib.Core.Bool.{false}
use mathlib.Core.List.{[], ◌∷◌, ◌++◌, reverse, reverse-append, reverse-reverse}
use roost_codegen.Prelude.Tests.{Bool-cases}
use roost_codegen.Prelude.Text.{Text, is_space, trim_left, trim_space}

-- A text that does not begin with white space.
abbrev pub NoLead : Text → Type 0
NoLead [] = Unit
NoLead (c ∷ s) = is_space c ≡ false

trim_left-NoLead : (s : Text) → NoLead (trim_left s)
unfolding trim_left
trim_left-NoLead [] = tt
trim_left-NoLead (c ∷ s) = elim (Bool-cases (is_space c)) [
  | inl space ↦ rw (trim_left, space) (trim_left-NoLead s)
  | inr other ↦ rw (trim_left, other) other
]

trim_left_same : (s : Text) → NoLead s → trim_left s ≡ s
unfolding trim_left
trim_left_same [] h = refl
trim_left_same (c ∷ s) h = rw (trim_left, h) refl

trim_left-suffix : (s : Text) → (x : Text) × (s ≡ x ++ trim_left s)
unfolding trim_left
trim_left-suffix [] = ([], refl)
trim_left-suffix (c ∷ s) = elim (Bool-cases (is_space c)) [
  | inl space ↦
      let (x, e) = trim_left-suffix s in (c ∷ x, rw (trim_left, space) (ap (λ t. c ∷ t) e))
  | inr other ↦ ([], rw (trim_left, other) refl)
]

-- A text with no white space at its ends.
pub trim_space_same : (s : Text) → NoLead s → NoLead (reverse s) → trim_space s ≡ s
unfolding trim_space
trim_space_same s front back =
    ap (λ t. reverse (trim_left (reverse t))) (trim_left_same s front)
    ∙ ap reverse (trim_left_same (reverse s) back)
    ∙ reverse-reverse s

NoLead-front : (x y : Text) → NoLead (x ++ y) → NoLead x
NoLead-front [] y h = tt
NoLead-front (c ∷ x) y h = h

-- What is left has no white space at its ends.
pub trim_space-NoLead : (s : Text) → NoLead (trim_space s) × NoLead (reverse (trim_space s))
unfolding trim_space
trim_space-NoLead s =
    let left = trim_left s in
    let back = trim_left (reverse left) in
    let (x, e) = trim_left-suffix (reverse left) in
    let whole : left ≡ reverse back ++ reverse x =
      sym (reverse-reverse left) ∙ ap reverse e ∙ reverse-append x back in
    (
      NoLead-front (reverse back) (reverse x) (subst NoLead whole (trim_left-NoLead s)),
      subst NoLead (sym (reverse-reverse back)) (trim_left-NoLead (reverse left)),
    )

pub trim_space-trim_space : (s : Text) → trim_space (trim_space s) ≡ trim_space s
trim_space-trim_space s =
    let (front, back) = trim_space-NoLead s in trim_space_same (trim_space s) front back
