-- ===== src/Sync/Others.antt =====
-- `writeAtomic` leaves every plain file but its target alone.
use roost_codegen.Prelude.{String, List, [], ◌∷◌, Option, none, some, ◌≡◌, ◌≢◌, sym, subst}
use roost_codegen.Disk.{
  FilePath, FileName, write_scratch, backup_scratch, Store, put, Io, Result, ok, err, OsError,
  remove, pass, create_temp, write, stat, rename,
}
use roost_codegen.Disk.Names.{IsPlain}
use roost_codegen.Disk.Rules.{Triple, bind-rule, Stable-at, ◌>>=◌}
use roost_codegen.Disk.Calls.{
  Ignores-at, Created, pass-rule, stat-rule, remove-rule, create_temp-rule, rename-rule,
  write_any-rule,
}
use roost_codegen.Sync.{
  WriteError, os, Write, raise, handle, lift, ignore, deferred, recover, swap, replace, fill,
  write_atomic,
}
use roost_codegen.Sync.Rules.{raise-rule, handle-rule, lift-rule, ignore-rule, deferred-rule}

abbrev pub IsScratch : FilePath → Type 0
IsScratch t = ¬ IsPlain t.base

pub scratch-ne-plain : (t q : FilePath) → IsScratch t → IsPlain q.base → t ≢ q
scratch-ne-plain t q s p e = s (subst (λ x. IsPlain x.base) (sym e) p)

module _ (q : FilePath) (v : Option String) where
  abbrev Here : Store → Type 0
  Here files = files q ≡ v

  -- The program leaves the content of `q`.
  pub record Keeps {E X : Type 0} (m : Io E X) : Type 0 where
    pub at : Triple q Here m (λ r. Here)

  pub bind-Keeps :
      {E X Y : Type 0} {m : Io E X} {f : X → Io E Y}
      → Keeps m
      → ((x : X) → Keeps (f x))
      → Keeps (m >>= f)
  bind-Keeps {m} {f} k h = record {
    at = bind-rule q Here m (λ r. Here) f (λ r. Here) k.at (λ x. (h x).at) (λ e files a. a);
  }

  pub raise-Keeps : {E X : Type 0} (e : E) → Keeps {E = E} {X = X} (raise e)
  raise-Keeps e = record { at = raise-rule q Here e (λ r. Here) (λ files a. a) }

  pub handle-Keeps :
      {X : Type 0} {m : Io OsError X} {h : OsError → Write X}
      → Keeps m
      → ((e : OsError) → Keeps (h e))
      → Keeps (handle m h)
  handle-Keeps {m} {h} k f = record {
    at = handle-rule q Here m (λ r. Here) h (λ r. Here) k.at (λ e. (f e).at) (λ x files a. a);
  }

  pub lift-Keeps : {X : Type 0} {m : Io OsError X} → Keeps m → Keeps (lift m)
  lift-Keeps {m} k = record {
    at = lift-rule q Here m (λ r. Here) (λ r. Here) k.at (λ e files a. a) (λ x files a. a);
  }

  pub ignore-Keeps : {m : Io OsError (Unit {0})} → Keeps m → Keeps (ignore m)
  ignore-Keeps {m} k = record { at = ignore-rule q Here m (λ r. Here) k.at }

  pub deferred-Keeps :
      {c : Io OsError (Unit {0})} {m : Write (Unit {0})} → Keeps c → Keeps m → Keeps (deferred c m)
  deferred-Keeps {c} {m} k l = record { at = deferred-rule q Here c m (λ r. Here) l.at (λ r. k.at) }

  pub pass-Keeps : Keeps pass
  pass-Keeps = record { at = pass-rule q Here (Stable-at q v) }

  pub stat-Keeps : (p : FilePath) → Keeps (stat p)
  stat-Keeps p = record { at = stat-rule q Here (Stable-at q v) p }

  pub remove-Keeps : {p : FilePath} → p ≢ q → Keeps (remove p)
  remove-Keeps {p} other = record {
    at = remove-rule q Here (Stable-at q v) p (Ignores-at p q v other);
  }

  pub write-Keeps : {p : FilePath} (body : String) → p ≢ q → Keeps (write p body)
  write-Keeps {p} body other = record {
    at = write_any-rule q Here (Stable-at q v) p body (Ignores-at p q v other);
  }

  pub rename-Keeps : {p t : FilePath} → p ≢ q → t ≢ q → Keeps (rename p t)
  rename-Keeps {p} {t} other other' = record {
    at =
        rename-rule q Here (Stable-at q v) p t (λ r. Here) (λ files e a. a)
          (λ files c found a.
            Ignores-at t q v other' (put files p none) (some c)
              (Ignores-at p q v other files none a));
  }

  -- After `CreateTemp`, the name is a scratch one.
  pub create-Keeps :
      {Y : Type 0} (dir : String) (scratch : String → FileName) (es : OsError → List WriteError)
      {f : FilePath → Write Y}
      → IsPlain q.base
      → ((name : String) → ¬ IsPlain (scratch name))
      → ((t : FilePath) → IsScratch t → Keeps (f t))
      → Keeps (handle (create_temp dir scratch) (λ e. raise (es e)) >>= f)
  create-Keeps dir scratch es {f} isplain hidden later = record {
    at =
        bind-rule q Here (handle (create_temp dir scratch) (λ e. raise (es e))) Named f (λ r. Here)
          (handle-rule q Here (create_temp dir scratch)
            (λ r files. Here files × Created dir scratch r files) (λ e. raise (es e)) Named
            (create_temp-rule q Here (Stable-at q v) dir scratch (λ name files absent a.
              Ignores-at (record { dir = dir; base = scratch name }) q v
                (scratch-ne-plain (record { dir = dir; base = scratch name }) q (hidden name)
                  isplain)
                files (some "") a))
            (λ e.
              raise-rule q (λ files. Here files × Created dir scratch (err e) files) (es e) Named
                (λ files a. a.0))
            (λ x files a. (a.0, rename_shape x a.1.0)))
          (λ t w alone a. (later t a.1).at w alone a.0) (λ e files a. a);
  }
    where
      Named : Result (List WriteError) FilePath → Store → Type 0
      Named (ok t) files = Here files × IsScratch t
      Named (err e) files = Here files

      rename_shape :
          (t : FilePath)
          → ((name : String) × (t ≡ record { dir = dir; base = scratch name }))
          → IsScratch t
      rename_shape t (name, e) = rw e (hidden name)

  ruleset keep_rules = (
    bind-Keeps, raise-Keeps, handle-Keeps, lift-Keeps, ignore-Keeps, deferred-Keeps, pass-Keeps,
    stat-Keeps, remove-Keeps, write-Keeps, rename-Keeps,
  )

  module _ (path : FilePath) (isplain : IsPlain q.base) (other : path ≢ q) where
    replace-Keeps : (e : OsError) (tmp : FilePath) → tmp ≢ q → Keeps (replace e tmp path)
    unfolding replace swap recover
    replace-Keeps e tmp apart =
        bind-Keeps (handle-Keeps (stat-Keeps path) (λ _. raise-Keeps _)) (λ _.
          create-Keeps path.dir (backup_scratch path.base) (λ b. os e ∷ os b ∷ []) isplain
            (λ name h. h)
            (λ backup scratch.
              let apart' = scratch-ne-plain backup q scratch isplain in search keep_rules depth 16))

    fill-Keeps : (tmp : FilePath) (body : String) → tmp ≢ q → Keeps (fill tmp path body)
    unfolding fill
    fill-Keeps tmp body apart = search (keep_rules, replace-Keeps) depth 12

    pub write_atomic-Keeps : (body : String) → Keeps (write_atomic path body)
    unfolding write_atomic lift
    write_atomic-Keeps body = bind-Keeps (lift-Keeps pass-Keeps) (λ _.
        create-Keeps path.dir write_scratch (λ e. os e ∷ []) isplain (λ name h. h)
          (λ tmp scratch.
            let apart = scratch-ne-plain tmp q scratch isplain in
            deferred-Keeps (remove-Keeps apart) (fill-Keeps tmp body apart)))
