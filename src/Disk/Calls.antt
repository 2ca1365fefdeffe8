-- ===== src/Disk/Calls.antt =====
-- What each call does to what is known of the store, seen from a spared path.
use roost_codegen.Prelude.{String, Option, none, some, ◌≡◌, ◌≢◌, refl, arith}
use roost_codegen.Disk.{
  FilePath, FileName, Store, put, Result, ok, err, OsError, failure, not_exist, read_effect,
  read_file, remove_effect, remove, pass, create_effect, create_temp, write_effect, write,
  stat_effect, stat, rename_effect, rename,
}
use roost_codegen.Disk.Names.{path_eq_iff, put_other}
use roost_codegen.Disk.Rules.{Assertion, Stable, Triple, call-rule, Stable-at}

-- What the result of a read says of the store.
abbrev pub ReadSays : FilePath → Result OsError String → Assertion
ReadSays q (ok content) files = files q ≡ some content
ReadSays q (err not_exist) files = files q ≡ none
ReadSays q (err failure) files = Unit

abbrev pub Created : String → (String → FileName) → Result OsError FilePath → Assertion
Created dir scratch (ok t) files =
    ((name : String) × (t ≡ record { dir = dir; base = scratch name })) × (files t ≡ some "")
Created dir scratch (err e) files = Unit

abbrev pub Written : FilePath → String → Result OsError (Unit {0}) → Assertion
Written t body (ok _) files = files t ≡ some body
Written t body (err e) files = Unit

pub put_self :
    (files : Store) (p : FilePath) (content : Option String) → put files p content p ≡ content
put_self files p content = ground (arith, path_eq_iff p p)

-- An assertion that a write to `q` does not change.
abbrev pub Ignores : FilePath → Assertion → Type 0
Ignores q A = (files : Store) (content : Option String) → A files → A (put files q content)

pub Ignores-at : (q s : FilePath) (v : Option String) → q ≢ s → Ignores q (λ files. files s ≡ v)
Ignores-at q s v other files content e = rw (put_other files q s content other) e

module _ (p : FilePath) (A : Assertion) (stable : Stable p A) where
  pub pass-rule : Triple p A pass (λ r. A)
  unfolding pass
  pass-rule =
      call-rule p (λ name files. (ok tt, files)) A (λ r. A) stable (λ files a. a)
        (λ name files a. a)

  pub stat-rule : (q : FilePath) → Triple p A (stat q) (λ r. A)
  unfolding stat
  stat-rule q =
      call-rule p (λ name files. stat_effect (files q) files) A (λ r. A) stable (λ files a. a)
        (λ name files a. go files (files q) a)
    where
      go : (files : Store) (o : Option String) → A files → A (stat_effect o files).1
      go files none a = a
      go files (some c) a = a

  pub read_file-rule :
      (q : FilePath) → Triple p A (read_file q) (λ r files. A files × ReadSays q r files)
  unfolding read_file
  read_file-rule q =
      call-rule p _ A (λ r files. A files × ReadSays q r files) stable (λ files a. (a, tt))
        (λ name files a. go files (files q) refl a)
    where
      go :
          (files : Store) (o : Option String)
          → files q ≡ o
          → A files
          → A (read_effect o files).1 × ReadSays q (read_effect o files).0 (read_effect o files).1
      go files none e a = (a, e)
      go files (some c) e a = (a, e)

  pub remove-rule : (q : FilePath) → Ignores q A → Triple p A (remove q) (λ r. A)
  unfolding remove
  remove-rule q ignores =
      call-rule p (λ name files. remove_effect q (files q) files) A (λ r. A) stable (λ files a. a)
        (λ name files a. go files (files q) a)
    where
      go : (files : Store) (o : Option String) → A files → A (remove_effect q o files).1
      go files none a = a
      go files (some c) a = ignores files none a

  pub write_any-rule :
      (q : FilePath) (body : String) → Ignores q A → Triple p A (write q body) (λ r. A)
  unfolding write
  write_any-rule q body ignores =
      call-rule p (λ name files. write_effect q body (files q) files) A (λ r. A) stable
        (λ files a. a) (λ name files a. go files (files q) a)
    where
      go : (files : Store) (o : Option String) → A files → A (write_effect q body o files).1
      go files none a = a
      go files (some c) a = ignores files (some body) a

  pub create_temp-rule :
      (dir : String) (scratch : String → FileName)
      → ((name : String) (files : Store)
          → files (record { dir = dir; base = scratch name }) ≡ none
          → A files
          → A (put files (record { dir = dir; base = scratch name }) (some "")))
      → Triple p A (create_temp dir scratch) (λ r files. A files × Created dir scratch r files)
  unfolding create_temp
  create_temp-rule dir scratch ignores =
      call-rule p _ A (λ r files. A files × Created dir scratch r files) stable (λ files a. (a, tt))
        (λ name files a. go name files (files (record { dir = dir; base = scratch name })) refl a)
    where
      go :
          (name : String) (files : Store) (o : Option String)
          → files (record { dir = dir; base = scratch name }) ≡ o
          → A files
          → A (create_effect (record { dir = dir; base = scratch name }) o files).1
            × Created dir scratch
                (create_effect (record { dir = dir; base = scratch name }) o files).0
                (create_effect (record { dir = dir; base = scratch name }) o files).1
      go name files none e a = (ignores name files e a, ((name, refl), put_self files _ _))
      go name files (some c) e a = (a, tt)

  pub rename-rule :
      (q t : FilePath) (Q : Result OsError (Unit {0}) → Assertion)
      → ((files : Store) (e : OsError) → A files → Q (err e) files)
      → ((files : Store) (content : String)
          → files q ≡ some content
          → A files
          → Q (ok tt) (put (put files q none) t (some content)))
      → Triple p A (rename q t) Q
  unfolding rename
  rename-rule q t Q bad good =
      call-rule p _ A Q stable (λ files a. bad files failure a)
        (λ name files a. go files (files q) refl a)
    where
      go :
          (files : Store) (o : Option String)
          → files q ≡ o
          → A files
          → Q (rename_effect q t o files).0 (rename_effect q t o files).1
      go files none e a = bad files not_exist a
      go files (some c) e a = good files c e a

module _ (p : FilePath) (A : Assertion) (t : FilePath) (c : String) where
  abbrev pub With : Assertion
  With files = A files × (files t ≡ some c)

  pub write-rule :
      (body : String)
      → Stable p With
      → Ignores t A
      → Triple p With (write t body) (λ r files. A files × Written t body r files)
  unfolding write
  write-rule body stable ignores =
      call-rule p _ With (λ r files. A files × Written t body r files) stable (λ files a. (a.0, tt))
        (λ name files a. go files (files t) refl a)
    where
      go :
          (files : Store) (o : Option String)
          → files t ≡ o
          → With files
          → A (write_effect t body o files).1
            × Written t body (write_effect t body o files).0 (write_effect t body o files).1
      go files none e (a, known) = absurd (ground arith)
      go files (some x) e (a, known) = (ignores files (some body) a, put_self files t (some body))

module _ (p : FilePath) (v : Option String) where
  abbrev pub Removed : Result OsError (Unit {0}) → Store → Type 0
  Removed (ok _) files = files p ≡ none
  Removed (err not_exist) files = (files p ≡ none) × (files p ≡ v)
  Removed (err failure) files = files p ≡ v

  pub remove-Removed : Triple p (λ files. files p ≡ v) (remove p) Removed
  unfolding remove
  remove-Removed =
      call-rule p (λ name files. remove_effect p (files p) files) (λ files. files p ≡ v) Removed
        (Stable-at p v) (λ files a. a) (λ name files a. go files (files p) refl a)
    where
      go :
          (files : Store) (o : Option String)
          → files p ≡ o
          → files p ≡ v
          → Removed (remove_effect p o files).0 (remove_effect p o files).1
      go files none e a = (e, a)
      go files (some c) e a = put_self files p none
