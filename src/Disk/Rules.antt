-- ===== src/Disk/Rules.antt =====
-- Triples for programs on a world, seen from one path `p` that the other processes spare: an
-- assertion on the store before, and one on the result and the store after.
use roost_codegen.Prelude.{String, Bool, true, false, List, [], ◌∷◌, Option, ◌≡◌, ◌≢◌, All}
use roost_codegen.Disk.{
  FilePath, Store, Turn, World, Io, Result, ok, err, OsError, failure, Effect, apply_edits, no_name,
  run, call_with, call,
}
use roost_codegen.Disk.Names.{IsPlain, Spares, Alone, apply_edits_spares, apply_edits_scratch}

abbrev pub Assertion : Type 1
Assertion = Store → Type 0

-- The sequence of programs whose errors are of one type.
infixl 5 ◌>>=◌ ◌>>◌
abbrev pub continue : {E A B : Type 0} → Result E A → (A → Io E B) → World → Result E B × World
continue (ok a) f w = f a w
continue (err e) f w = (err e, w)

unfoldable pub ◌>>=◌ : {E A B : Type 0} → Io E A → (A → Io E B) → Io E B
◌>>=◌ m f w = let (r, w') = m w in continue r f w'

abbrev pub ◌>>◌ : {E A B : Type 0} → Io E A → Io E B → Io E B
m >> n = m >>= λ _. n

module _ (p : FilePath) where
  -- What the other processes cannot break.
  abbrev pub Stable : Assertion → Type 0
  Stable A =
      (edits : List (FilePath × Option String)) (files : Store)
      → All (λ e. IsPlain e.0.base × (e.0 ≢ p)) edits
      → A files
      → A (apply_edits edits files)

  abbrev pub Triple : {E X : Type 0} → Assertion → Io E X → (Result E X → Assertion) → Type 0
  Triple A m Q = (w : World) → Alone p w → A w.files → Alone p (m w).1 × Q (m w).0 (m w).1.files

  pub run-rule :
      {X : Type 0} (effect : Effect X) (A : Assertion) (Q : Result OsError X → Assertion)
      → ((files : Store) → A files → Q (err failure) files)
      → ((name : String) (files : Store) → A files → Q (effect name files).0 (effect name files).1)
      → (fault : Bool) (name : String) (files : Store) (turns : List Turn) → All (Spares p) turns
      → A files
      → Alone p (run effect fault name files turns).1
        × Q (run effect fault name files turns).0 (run effect fault name files turns).1.files
  run-rule effect A Q bad good true name files turns alone a = (alone, bad files a)
  run-rule effect A Q bad good false name files turns alone a = (alone, good name files a)

  pub call-rule :
      {X : Type 0} (effect : Effect X) (A : Assertion) (Q : Result OsError X → Assertion)
      → Stable A
      → ((files : Store) → A files → Q (err failure) files)
      → ((name : String) (files : Store) → A files → Q (effect name files).0 (effect name files).1)
      → Triple A (call effect) Q
  unfolding call
  call-rule effect A Q stable bad good w alone a = go w.turns alone
    where
      go :
          (turns : List Turn)
          → All (Spares p) turns
          → Alone p (call_with effect w.files turns).1
            × Q (call_with effect w.files turns).0 (call_with effect w.files turns).1.files
      go [] alone = run-rule effect A Q bad good false no_name w.files [] tt a
      go (t ∷ turns) (spared, rest) =
          run-rule effect A Q bad good t.fault t.name (apply_edits t.edits w.files) turns rest
            (stable t.edits w.files spared a)

  pub bind-rule :
      {E X Y : Type 0} (A : Assertion) (m : Io E X) (Q : Result E X → Assertion) (f : X → Io E Y)
      (R : Result E Y → Assertion)
      → Triple A m Q
      → ((x : X) → Triple (Q (ok x)) (f x) R)
      → ((e : E) (files : Store) → Q (err e) files → R (err e) files)
      → Triple A (m >>= f) R
  unfolding ◌>>=◌
  bind-rule {E} {X} {Y} A m Q f R first later failed w alone a =
      let (alone', q) = first w alone a in go (m w).0 (m w).1 alone' q
    where
      go :
          (r : Result E X) (w' : World)
          → Alone p w'
          → Q r w'.files
          → Alone p (continue r f w').1 × R (continue r f w').0 (continue r f w').1.files
      go (ok x) w' alone' q = later x w' alone' q
      go (err e) w' alone' q = (alone', failed e w'.files q)

  -- The content of `p` itself is stable, and so is that of a scratch file.
  pub Stable-at : (v : Option String) → Stable (λ files. files p ≡ v)
  Stable-at v edits files spared e = rw (apply_edits_spares p edits files spared) e

  pub Stable-scratch :
      (s : FilePath) (v : Option String) → ¬ IsPlain s.base → Stable (λ files. files s ≡ v)
  Stable-scratch s v scratch edits files spared e =
      rw (apply_edits_scratch p s edits files scratch spared) e

  pub Stable-both : (A B : Assertion) → Stable A → Stable B → Stable (λ files. A files × B files)
  Stable-both A B sa sb edits files spared (a, b) =
      (sa edits files spared a, sb edits files spared b)
