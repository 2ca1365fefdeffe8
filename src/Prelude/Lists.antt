-- ===== src/Prelude/Lists.antt =====
-- Lists measured by native numbers, and predicates on all members by recursion.
use Prim.Native.Nat.{ℕ, suc, ◌+◌}
use mathlib.Core.Path.{◌≡◌, refl}
use mathlib.Core.Bool.{Bool, true, false, ◌&&◌, ◌||◌}
use mathlib.Core.List.{List, [], ◌∷◌, ◌++◌}
use native.Mathlib.Omega.{arith}

module _ {ℓ} {A : Type ℓ} where
  abbrev pub length : List A → ℕ
  length [] = 0
  length (x ∷ xs) = suc (length xs)

  pub length-append : (xs ys : List A) → length (xs ++ ys) ≡ length xs + length ys
  length-append [] ys = omega arith
  length-append (x ∷ xs) ys = omega (arith, length-append xs ys)

  abbrev pub all : (A → Bool) → List A → Bool
  all p [] = true
  all p (x ∷ xs) = p x && all p xs

  abbrev pub any : (A → Bool) → List A → Bool
  any p [] = false
  any p (x ∷ xs) = p x || any p xs

module _ {ℓ κ} {A : Type ℓ} (P : A → Type κ) where
  abbrev pub All : List A → Type κ
  All [] = Unit
  All (x ∷ xs) = P x × All xs

  pub All-append : (xs ys : List A) → All xs → All ys → All (xs ++ ys)
  All-append [] ys hx hy = hy
  All-append (x ∷ xs) ys hx hy = (hx.0, All-append xs ys hx.1 hy)

  pub All-left : (xs ys : List A) → All (xs ++ ys) → All xs
  All-left [] ys h = tt
  All-left (x ∷ xs) ys h = (h.0, All-left xs ys h.1)

  pub All-right : (xs ys : List A) → All (xs ++ ys) → All ys
  All-right [] ys h = h
  All-right (x ∷ xs) ys h = All-right xs ys h.1

-- Two lists whose entries stand in a relation, one by one.
module _ {ℓ κ} {A : Type ℓ} {B : Type κ} (R : A → B → Type 0) where
  abbrev pub Pointwise : List A → List B → Type 0
  Pointwise [] [] = Unit
  Pointwise [] (y ∷ ys) = ⊥
  Pointwise (x ∷ xs) [] = ⊥
  Pointwise (x ∷ xs) (y ∷ ys) = R x y × Pointwise xs ys

  pub Pointwise-append :
      (xs xs' : List A) (ys ys' : List B)
      → Pointwise xs ys
      → Pointwise xs' ys'
      → Pointwise (xs ++ xs') (ys ++ ys')
  Pointwise-append [] xs' [] ys' h h' = h'
  Pointwise-append [] xs' (y ∷ ys) ys' h h' = absurd h
  Pointwise-append (x ∷ xs) xs' [] ys' h h' = absurd h
  Pointwise-append (x ∷ xs) xs' (y ∷ ys) ys' h h' = (h.0, Pointwise-append xs xs' ys ys' h.1 h')

  pub Pointwise-length : (xs : List A) (ys : List B) → Pointwise xs ys → length xs ≡ length ys
  Pointwise-length [] [] h = refl
  Pointwise-length [] (y ∷ ys) h = absurd h
  Pointwise-length (x ∷ xs) [] h = absurd h
  Pointwise-length (x ∷ xs) (y ∷ ys) h = omega (arith, Pointwise-length xs ys h.1)
