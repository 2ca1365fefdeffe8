-- ===== src/Prelude/Members.antt =====
-- Membership of a text in a list of texts, as the source's `contains` computes it, and lists of
-- texts without repetition.
use Prim.Native.String.{String}
use mathlib.Core.Path.{◌≡◌, refl}
use mathlib.Core.Logic.{◌⊎◌, inl, inr}
use mathlib.Core.Bool.{Bool, true, false, ◌||◌}
use mathlib.Core.List.{List, [], ◌∷◌, ◌++◌}
use native.Mathlib.Omega.{arith}
use text.Mathlib.Text.{◌==◌ as str_eq}
use text.Mathlib.TextEquality.{eq_iff as str_eq_iff}

abbrev pub Mem : String → List String → Type 0
Mem a [] = ⊥
Mem a (x ∷ xs) = (a ≡ x) ⊎ Mem a xs

-- The loop of the source's `contains`.
unfoldable pub contains : List String → String → Bool
contains [] target = false
contains (x ∷ xs) target = str_eq x target || contains xs target

pub contains-Mem : (xs : List String) (a : String) → contains xs a ≡ true → Mem a xs
unfolding contains
contains-Mem [] a h = cc
contains-Mem (x ∷ xs) a h = ground (arith, contains-Mem xs a, str_eq_iff x a)

pub Mem-contains : (xs : List String) (a : String) → Mem a xs → contains xs a ≡ true
unfolding contains
Mem-contains [] a h = absurd h
Mem-contains (x ∷ xs) a (inl e) = ground (arith, str_eq_iff x a)
Mem-contains (x ∷ xs) a (inr m) = ground (arith, Mem-contains xs a m)

pub contains-append :
    (xs ys : List String) (a : String) → contains (xs ++ ys) a ≡ (contains xs a || contains ys a)
unfolding contains
contains-append [] ys a = refl
contains-append (x ∷ xs) ys a = ground (arith, contains-append xs ys a)

pub Mem-left : (xs ys : List String) (a : String) → Mem a xs → Mem a (xs ++ ys)
Mem-left [] ys a h = absurd h
Mem-left (x ∷ xs) ys a (inl e) = inl e
Mem-left (x ∷ xs) ys a (inr m) = inr (Mem-left xs ys a m)

pub Mem-right : (xs ys : List String) (a : String) → Mem a ys → Mem a (xs ++ ys)
Mem-right [] ys a h = h
Mem-right (x ∷ xs) ys a h = inr (Mem-right xs ys a h)

abbrev pub Nodup : List String → Type 0
Nodup [] = Unit
Nodup (x ∷ xs) = (contains xs x ≡ false) × Nodup xs

pub Nodup-concat :
    (xs : List String) (a : String) → Nodup xs → contains xs a ≡ false → Nodup (xs ++ a ∷ [])
unfolding contains
Nodup-concat [] a _ _ = (refl, tt)
Nodup-concat (x ∷ xs) a (fresh, distinct) h = (
  ground (arith, contains-append xs (a ∷ []) x, str_eq_iff x a, str_eq_iff a x),
  Nodup-concat xs a distinct (ground arith),
)

pub Mem-cases : (xs ys : List String) (a : String) → Mem a (xs ++ ys) → Mem a xs ⊎ Mem a ys
Mem-cases [] ys a m = inr m
Mem-cases (x ∷ xs) ys a (inl e) = inl (inl e)
Mem-cases (x ∷ xs) ys a (inr m) = elim (Mem-cases xs ys a m) [
  | inl here ↦ inl (inr here)
  | inr later ↦ inr later
]
