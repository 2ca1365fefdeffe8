-- ===== src/Prelude/Text.antt =====
-- Text that the code walks: a list of code points. The functions of Go's `strings` that it uses keep
-- their argument order.
use Prim.Native.Nat.{ℕ}
use Prim.Native.Char.{code}
use Prim.Native.String.{String}
use mathlib.Core.Path.{◌≡◌, refl}
use mathlib.Core.Logic.{◌↔◌}
use mathlib.Core.Bool.{Bool, true, false, ◌&&◌, ◌||◌}
use mathlib.Core.Option.{Option, none, some}
use mathlib.Core.List.{List, [], ◌∷◌, ◌++◌, reverse}
use native.Mathlib.Omega.{arith}
use roost_codegen.Prelude.Tests.{◌==◌, if◌then◌else◌}

abbrev pub Text : Type 0
Text = List ℕ

abbrev pub codes : String → Text
codes String.[] = []
codes (String.◌∷◌ c s) = code c ∷ codes s

unfoldable pub text_eq : Text → Text → Bool
text_eq [] [] = true
text_eq (c ∷ s) (d ∷ t) = c == d && text_eq s t
text_eq _ _ = false

pub text_eq_refl : (s : Text) → text_eq s s ≡ true
unfolding text_eq
text_eq_refl [] = refl
text_eq_refl (c ∷ s) = ground (arith, text_eq_refl s)

text_eq_sound : (s t : Text) → text_eq s t ≡ true → s ≡ t
unfolding text_eq
text_eq_sound [] [] h = refl
text_eq_sound (c ∷ s) (d ∷ t) h = ground (arith, text_eq_sound s t)
text_eq_sound _ _ h = cc

pub text_eq_iff : (s t : Text) → (text_eq s t ≡ true) ↔ (s ≡ t)
text_eq_iff s t = (text_eq_sound s t, λ e. rw (← e) (text_eq_refl s))

-- `strings.CutPrefix(s, prefix)`; `none` where `s` does not begin so.
unfoldable pub cut_prefix : Text → Text → Option Text
cut_prefix s [] = some s
cut_prefix [] (d ∷ prefix) = none
cut_prefix (c ∷ s) (d ∷ prefix) = if c == d then cut_prefix s prefix else none

abbrev pub is_some {ℓ} : {A : Type ℓ} → Option A → Bool
is_some none = false
is_some (some a) = true

abbrev pub get_or {ℓ} : {A : Type ℓ} → Option A → A → A
get_or none d = d
get_or (some a) d = a

abbrev pub has_prefix : Text → Text → Bool
has_prefix s prefix = is_some (cut_prefix s prefix)

abbrev pub trim_prefix : Text → Text → Text
trim_prefix s prefix = get_or (cut_prefix s prefix) s

pub cut_prefix-append : (prefix s : Text) → cut_prefix (prefix ++ s) prefix ≡ some s
unfolding cut_prefix
cut_prefix-append [] s = refl
cut_prefix-append (c ∷ prefix) s = ground (arith, cut_prefix-append prefix s)

pub cut_prefix_sound : (s prefix rest : Text) → cut_prefix s prefix ≡ some rest → s ≡ prefix ++ rest
unfolding cut_prefix
cut_prefix_sound s [] rest h = ground arith
cut_prefix_sound [] (d ∷ prefix) rest h = cc
cut_prefix_sound (c ∷ s) (d ∷ prefix) rest h = ground (arith, cut_prefix_sound s prefix rest)

-- `strings.Contains(s, sub)`.
unfoldable pub contains_text : Text → Text → Bool
unfolding cut_prefix
contains_text [] sub = has_prefix [] sub
contains_text (c ∷ s) sub = has_prefix (c ∷ s) sub || contains_text s sub

-- `strings.HasSuffix(s, suffix)`.
unfoldable pub has_suffix : Text → Text → Bool
unfolding text_eq
has_suffix [] suffix = text_eq [] suffix
has_suffix (c ∷ s) suffix = text_eq (c ∷ s) suffix || has_suffix s suffix

-- `strings.Cut(s, sep)` for one character: before and behind its first occurrence.
unfoldable pub cut_at : ℕ → Text → Option (Text × Text)
cut_at sep [] = none
cut_at sep (c ∷ s) =
    if c == sep
    then some ([], s)
    else elim (cut_at sep s) [ none ↦ none | some (before, after) ↦ some (c ∷ before, after) ]

-- The white space of `unicode.IsSpace`.
unfoldable pub is_space : ℕ → Bool
is_space c =
    (c == 9
      || (c == 10 || (c == 11 || (c == 12 || (c == 13 || (c == 32 || (c == 0x85 || c == 0xA0)))))))
    || (c == 0x1680
        || (c == 0x2000
            || (c == 0x2001
                || (c == 0x2002
                    || (c == 0x2003
                        || (c == 0x2004
                            || (c == 0x2005
                                || (c == 0x2006
                                    || (c == 0x2007
                                        || (c == 0x2008
                                            || (c == 0x2009
                                                || (c == 0x200A
                                                    || (c == 0x2028
                                                        || (c == 0x2029
                                                            || (c == 0x202F
                                                            || (c == 0x205F
                                                            || c == 0x3000))))))))))))))))

unfoldable pub trim_left : Text → Text
unfolding is_space
trim_left [] = []
trim_left (c ∷ s) = elim (is_space c) [ true ↦ trim_left s | false ↦ c ∷ s ]

-- `strings.TrimSpace(s)`.
unfoldable pub trim_space : Text → Text
unfolding trim_left
trim_space s = reverse (trim_left (reverse (trim_left s)))

-- `strings.Fields(s)`: the runs of characters that are no white space; `word` is the run so far.
unfoldable pub fields_from : Text → Text → List Text
unfolding is_space
fields_from [] [] = []
fields_from (w ∷ word) [] = (w ∷ word) ∷ []
fields_from [] (c ∷ s) = fields_from (if is_space c then [] else c ∷ []) s
fields_from (w ∷ word) (c ∷ s) = elim (is_space c) [
  | true ↦ (w ∷ word) ∷ fields_from [] s
  | false ↦ fields_from ((w ∷ word) ++ c ∷ []) s
]

unfoldable pub fields : Text → List Text
unfolding fields_from
fields s = fields_from [] s

unfoldable pub lookup_text {ℓ} : {V : Type ℓ} → Text → List (Text × V) → Option V
unfolding text_eq
lookup_text key [] = none
lookup_text key ((k, v) ∷ rest) = if text_eq k key then some v else lookup_text key rest
