-- ===== src/Sync/Rules.antt =====
-- Triples for the ways in which `writeAtomic` handles the error of a call.
use roost_codegen.Prelude.{List, [], ◌∷◌}
use roost_codegen.Disk.{FilePath, Store, World, Io, Result, ok, err, OsError}
use roost_codegen.Disk.Names.{Alone}
use roost_codegen.Disk.Rules.{Assertion, Triple}
use roost_codegen.Sync.{WriteError, os, Write, raise, handled, handle, lift, ignore, deferred}

module _ (p : FilePath) where
  pub weaken-rule :
      {E X : Type 0} (A B : Assertion) (m : Io E X) (Q : Result E X → Assertion)
      → ((files : Store) → A files → B files)
      → Triple p B m Q
      → Triple p A m Q
  weaken-rule A B m Q h t w alone a = t w alone (h w.files a)

  pub raise-rule :
      {E X : Type 0} (A : Assertion) (e : E) (R : Result E X → Assertion)
      → ((files : Store) → A files → R (err e) files)
      → Triple p A (raise e) R
  unfolding raise
  raise-rule A e R h w alone a = (alone, h w.files a)

  pub handle-rule :
      {X : Type 0} (A : Assertion) (m : Io OsError X) (Q : Result OsError X → Assertion)
      (h : OsError → Write X) (R : Result (List WriteError) X → Assertion)
      → Triple p A m Q
      → ((e : OsError) → Triple p (Q (err e)) (h e) R)
      → ((x : X) (files : Store) → Q (ok x) files → R (ok x) files)
      → Triple p A (handle m h) R
  unfolding handle
  handle-rule {X} A m Q h R first failed done w alone a =
      let (alone', q) = first w alone a in go (m w).0 (m w).1 alone' q
    where
      go :
          (r : Result OsError X) (w' : World)
          → Alone p w'
          → Q r w'.files
          → Alone p (handled h r w').1 × R (handled h r w').0 (handled h r w').1.files
      go (ok x) w' alone' q = (alone', done x w'.files q)
      go (err e) w' alone' q = failed e w' alone' q

  pub lift-rule :
      {X : Type 0} (A : Assertion) (m : Io OsError X) (Q : Result OsError X → Assertion)
      (R : Result (List WriteError) X → Assertion)
      → Triple p A m Q
      → ((e : OsError) (files : Store) → Q (err e) files → R (err (os e ∷ [])) files)
      → ((x : X) (files : Store) → Q (ok x) files → R (ok x) files)
      → Triple p A (lift m) R
  unfolding lift
  lift-rule A m Q R first failed done =
      handle-rule A m Q (λ e. raise (os e ∷ [])) R first
        (λ e. raise-rule (Q (err e)) (os e ∷ []) R (failed e)) done

  pub ignore-rule :
      (A : Assertion) (m : Io OsError (Unit {0}))
      (R : Result (List WriteError) (Unit {0}) → Assertion)
      → Triple p A m (λ r. R (ok tt))
      → Triple p A (ignore m) R
  unfolding ignore
  ignore-rule A m R first w alone a = first w alone a

  pub deferred-rule :
      (A : Assertion) (cleanup : Io OsError (Unit {0})) (m : Write (Unit {0}))
      (R : Result (List WriteError) (Unit {0}) → Assertion)
      → Triple p A m R
      → ((r : Result (List WriteError) (Unit {0})) → Triple p (R r) cleanup (λ _. R r))
      → Triple p A (deferred cleanup m) R
  unfolding deferred
  deferred-rule A cleanup m R first last w alone a =
      let (alone', q) = first w alone a in last (m w).0 (m w).1 alone' q
