-- ===== src/Prelude/Sort.antt =====
-- `sort.Strings`: strings in the order of their code points, which is that of their bytes.

use Prim.Native.String.{String}
use mathlib.Core.Path.{◌≡◌, refl, ◌∙◌, ap}
use mathlib.Core.Bool.{Bool, true, false, ◌||◌, ◌&&◌}
use mathlib.Core.List.{List, [], ◌∷◌}
use native.Mathlib.Omega.{arith}
use text.Mathlib.Text.{◌==◌ as str_eq}
use roost_codegen.Prelude.Tests.{◌==◌, ltb, if◌then◌else◌}
use roost_codegen.Prelude.Members.{contains}
use roost_codegen.Prelude.Text.{Text, codes}

unfoldable pub text_leb : Text → Text → Bool
text_leb [] t = true
text_leb (c ∷ s) [] = false
text_leb (c ∷ s) (d ∷ t) = ltb c d || (c == d && text_leb s t)

unfoldable pub insert : String → List String → List String
insert s [] = s ∷ []
insert s (t ∷ ts) =
    let rest = insert s ts in if text_leb (codes s) (codes t) then s ∷ t ∷ ts else t ∷ rest

unfoldable pub sort_strings : List String → List String
sort_strings [] = []
sort_strings (s ∷ ss) = insert s (sort_strings ss)

contains-insert :
    (s a : String) (ts : List String) → contains (insert s ts) a ≡ (str_eq s a || contains ts a)
unfolding contains insert
contains-insert s a [] = refl
contains-insert s a (t ∷ ts) = ground (arith, contains-insert s a ts)

-- Sorting keeps the members.
pub contains-sort_strings :
    (ss : List String) (a : String) → contains (sort_strings ss) a ≡ contains ss a
unfolding contains sort_strings
contains-sort_strings [] a = refl
contains-sort_strings (s ∷ ss) a =
    contains-insert s a (sort_strings ss) ∙ ap (λ b. str_eq s a || b) (contains-sort_strings ss a)
