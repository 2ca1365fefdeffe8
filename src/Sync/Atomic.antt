-- ===== src/Sync/Atomic.antt =====
-- What `writeAtomic` does to its target, whichever calls fail.
use roost_codegen.Prelude.{String, List, [], ◌∷◌, Option, none, some, ◌≡◌, ◌≢◌, sym, ap, ◌∙◌}
use roost_codegen.Disk.{
  FilePath, write_scratch, backup_scratch, Store, put, Io, Result, ok, err, OsError, remove, pass,
  create_temp, write, stat, rename,
}
use roost_codegen.Disk.Names.{IsPlain}
use roost_codegen.Disk.Rules.{
  Assertion, Stable, Triple, bind-rule, Stable-at, Stable-scratch, Stable-both, ◌>>=◌, ◌>>◌,
}
use roost_codegen.Disk.Calls.{
  Ignores, Ignores-at, Created, With, Written, pass-rule, stat-rule, remove-rule, create_temp-rule,
  rename-rule, write-rule, put_self,
}
use roost_codegen.Sync.{
  WriteError, os, restore, Write, raise, handle, lift, ignore, deferred, recover, swap, replace,
  fill, write_atomic,
}
use roost_codegen.Sync.Rules.{
  weaken-rule, raise-rule, handle-rule, lift-rule, ignore-rule, deferred-rule,
}
use roost_codegen.Sync.Others.{IsScratch, scratch-ne-plain}

-- No error says that the original could not be restored.
abbrev pub IsClean : List WriteError → Type 0
IsClean [] = Unit
IsClean (os e ∷ es) = IsClean es
IsClean (restore p e ∷ es) = ⊥

abbrev pub WriteResult : Type 0
WriteResult = Result (List WriteError) (Unit {0})

module _ (path : FilePath) (isplain : IsPlain path.base) (v : Option String) (body : String) where
  -- The target holds the new content if all went well, and what it held if not, but for an error
  -- that says otherwise.
  abbrev pub Settled : WriteResult → Store → Type 0
  Settled (ok _) files = files path ≡ some body
  Settled (err es) files = IsClean es → files path ≡ v

  abbrev Old : Store → Type 0
  Old files = files path ≡ v

  module _ (tmp : FilePath) (scratch : IsScratch tmp) where
    -- The target is as it was, and the temporary file is complete.
    abbrev Ready : Store → Type 0
    Ready files = Old files × (files tmp ≡ some body)

    Ready-stable : Stable path Ready
    Ready-stable =
        Stable-both path Old (λ files. files tmp ≡ some body) (Stable-at path v)
          (Stable-scratch path tmp (some body) scratch)

    Ready-Ignores : (s : FilePath) → IsScratch s → s ≢ tmp → Ignores s Ready
    Ready-Ignores s hidden apart files content (a, b) = (
      Ignores-at s path v (scratch-ne-plain s path hidden isplain) files content a,
      Ignores-at s tmp (some body) apart files content b,
    )

    install-Settled :
        (A : Assertion) (Q : Result OsError (Unit {0}) → Assertion)
        → ((files : Store) → A files → files tmp ≡ some body)
        → Stable path A
        → ((files : Store) → files path ≡ some body → Q (ok tt) files)
        → ((e : OsError) (files : Store) → A files → Q (err e) files)
        → Triple path A (rename tmp path) Q
    install-Settled A Q known stable done failed =
        rename-rule path A stable tmp path Q (λ files e a. failed e files a)
          (λ files c found a.
            done (put (put files tmp none) path (some c))
              (put_self (put files tmp none) path (some c) ∙ sym found ∙ known files a))

    module _ (backup : FilePath) (hidden : IsScratch backup) (apart : backup ≢ tmp) where
      -- The original was moved to the backup.
      abbrev Moved : Store → Type 0
      Moved files = (files backup ≡ v) × (files tmp ≡ some body)

      Moved-stable : Stable path Moved
      Moved-stable =
          Stable-both path (λ files. files backup ≡ v) (λ files. files tmp ≡ some body)
            (Stable-scratch path backup v hidden) (Stable-scratch path tmp (some body) scratch)

      abbrev AfterMove : Result OsError (Unit {0}) → Store → Type 0
      AfterMove (ok _) files = Moved files
      AfterMove (err e) files = Ready files

      move_away : Triple path Ready (rename path backup) AfterMove
      move_away =
          rename-rule path Ready Ready-stable path backup AfterMove (λ files e a. a)
            (λ files c found a. (
              put_self (put files path none) backup (some c) ∙ sym found ∙ a.0,
              Ignores-at backup tmp (some body) apart (put files path none) (some c) (
                  Ignores-at path tmp (some body)
                    (λ e. scratch-ne-plain tmp path scratch isplain (sym e)) files none a.1),
            ))

      abbrev AfterBack : Result OsError (Unit {0}) → Store → Type 0
      AfterBack (ok _) files = Old files
      AfterBack (err e) files = Unit

      move_back : Triple path Moved (rename backup path) AfterBack
      move_back =
          rename-rule path Moved Moved-stable backup path AfterBack (λ files e a. tt)
            (λ files c found a. put_self (put files backup none) path (some c) ∙ sym found ∙ a.0)

      abbrev OldOr : WriteResult → Store → Type 0
      OldOr (ok _) files = Old files
      OldOr (err es) files = IsClean es → Old files

      recover-Settled : (e : OsError) → Triple path Moved (recover backup path e) Settled
      unfolding recover
      recover-Settled e =
          bind-rule path Moved
            (handle (rename backup path) (λ r. raise (os e ∷ restore backup r ∷ []))) OldOr
            (λ _. raise (os e ∷ [])) Settled
            (handle-rule path Moved (rename backup path) AfterBack
              (λ r. raise (os e ∷ restore backup r ∷ [])) OldOr move_back
              (λ r.
                raise-rule path (AfterBack (err r)) (os e ∷ restore backup r ∷ []) OldOr
                  (λ files a clean. absurd clean))
              (λ x files a. a))
            (λ _. raise-rule path Old (os e ∷ []) Settled (λ files a clean. a)) (λ es files a. a)

      abbrev New : Store → Type 0
      New files = files path ≡ some body

      abbrev MovedOr : WriteResult → Store → Type 0
      MovedOr (ok _) files = Moved files
      MovedOr (err es) files = IsClean es → Old files

      abbrev Installed : Result OsError (Unit {0}) → Store → Type 0
      Installed (ok _) files = New files
      Installed (err e) files = Moved files

      swap-Settled : (e : OsError) → Triple path Ready (swap e tmp path backup) Settled
      unfolding swap
      swap-Settled e =
          bind-rule path Ready (handle (rename path backup) (λ _. raise (os e ∷ []))) MovedOr
            (λ _. handle (rename tmp path) (recover backup path) >>= λ _. ignore (remove backup))
            Settled
            (handle-rule path Ready (rename path backup) AfterMove (λ _. raise (os e ∷ [])) MovedOr
              move_away (λ _. raise-rule path Ready (os e ∷ []) MovedOr (λ files a clean. a.0))
              (λ x files a. a))
            (λ _.
              bind-rule path Moved (handle (rename tmp path) (recover backup path)) Settled
                (λ _. ignore (remove backup)) Settled
                (handle-rule path Moved (rename tmp path) Installed (recover backup path) Settled
                  (install-Settled Moved Installed (λ files a. a.1) Moved-stable (λ files a. a)
                    (λ e files a. a))
                  recover-Settled (λ x files a. a))
                (λ _. ignore-rule path New (remove backup) Settled (
                  remove-rule path New (Stable-at path (some body)) backup (
                    Ignores-at backup path (some body)
                      (scratch-ne-plain backup path hidden isplain))))
                (λ es files a. a))
            (λ es files a. a)

    -- The temporary file's name is not one of a backup.
    module _
        (named : (n : String)
          → (record { dir = path.dir; base = backup_scratch path.base n }) ≢ tmp) where
      abbrev ReadyOr : WriteResult → Store → Type 0
      ReadyOr (ok _) files = Ready files
      ReadyOr (err es) files = Old files

      abbrev BackupOr : Result (List WriteError) FilePath → Store → Type 0
      BackupOr (ok b) files = Ready files × (IsScratch b × (b ≢ tmp))
      BackupOr (err es) files = Old files

      keep-ReadyOr :
          (m : Io OsError (Unit {0})) (h : OsError → Write (Unit {0}))
          → Triple path Ready m (λ r. Ready)
          → ((e : OsError) → Triple path Ready (h e) ReadyOr)
          → Triple path Ready (handle m h) ReadyOr
      keep-ReadyOr m h kept failed =
          handle-rule path Ready m (λ r. Ready) h ReadyOr kept failed (λ x files a. a)

      raise-ReadyOr : (es : List WriteError) → Triple path Ready (raise es) ReadyOr
      raise-ReadyOr es = raise-rule path Ready es ReadyOr (λ files a. a.0)

      -- A call whose error is dropped, and the error that is returned.
      give_up-ReadyOr :
          (m : Io OsError (Unit {0})) (es : List WriteError)
          → Triple path Old m (λ r. Old)
          → Triple path Old (ignore m >> raise es) ReadyOr
      give_up-ReadyOr m es kept =
          bind-rule path Old (ignore m) (λ r. Old) (λ _. raise es) ReadyOr
            (ignore-rule path Old m (λ r. Old) kept)
            (λ _. raise-rule path Old es ReadyOr (λ files a. a)) (λ e files a. a)

      pass-Ready : Triple path Ready pass (λ r. Ready)
      pass-Ready = pass-rule path Ready Ready-stable

      pass-Old : Triple path Old pass (λ r. Old)
      pass-Old = pass-rule path Old (Stable-at path v)

      remove-Old : (b : FilePath) → IsScratch b → Triple path Old (remove b) (λ r. Old)
      remove-Old b hidden =
          remove-rule path Old (Stable-at path v) b
            (Ignores-at b path v (scratch-ne-plain b path hidden isplain))

      then-Settled :
          (m : Write (Unit {0})) (rest : Write (Unit {0}))
          → Triple path Ready m ReadyOr
          → Triple path Ready rest Settled
          → Triple path Ready (m >>= λ _. rest) Settled
      then-Settled m rest first last =
          bind-rule path Ready m ReadyOr (λ _. rest) Settled first (λ _. last)
            (λ es files a clean. a)

      with_backup-Settled :
          (e : OsError) (b : FilePath)
          → IsScratch b
          → b ≢ tmp
          → Triple path Ready
              (handle pass (λ c. ignore (remove b) >> raise (os e ∷ os c ∷ [])) >>= λ _.
                handle (remove b) (λ r. raise (os e ∷ os r ∷ [])) >>= λ _. swap e tmp path b)
              Settled
      with_backup-Settled e b hidden apart =
          then-Settled _ _
            (keep-ReadyOr pass (λ c. ignore (remove b) >> raise (os e ∷ os c ∷ [])) pass-Ready
              (λ c.
                weaken-rule path Ready Old _ ReadyOr (λ files a. a.0)
                  (give_up-ReadyOr (remove b) (os e ∷ os c ∷ []) (remove-Old b hidden))))
            (then-Settled _ _
              (keep-ReadyOr (remove b) (λ r. raise (os e ∷ os r ∷ []))
                (remove-rule path Ready Ready-stable b (Ready-Ignores b hidden apart))
                (λ r. raise-ReadyOr _))
              (swap-Settled b hidden apart e))

      replace-Settled : (e : OsError) → Triple path Ready (replace e tmp path) Settled
      unfolding replace
      replace-Settled e =
          then-Settled _ _
            (keep-ReadyOr (stat path) (λ _. raise (os e ∷ []))
              (stat-rule path Ready Ready-stable path) (λ _. raise-ReadyOr _))
            (bind-rule path Ready
              (handle (create_temp path.dir (backup_scratch path.base))
                (λ b. raise (os e ∷ os b ∷ [])))
              BackupOr _ Settled
              (handle-rule path Ready (create_temp path.dir (backup_scratch path.base))
                (λ r files. Ready files × Created path.dir (backup_scratch path.base) r files)
                (λ b. raise (os e ∷ os b ∷ [])) BackupOr
                (create_temp-rule path Ready Ready-stable path.dir (backup_scratch path.base)
                  (λ n files absent a. Ready-Ignores _ (λ h. h) (named n) files (some "") a))
                (λ b.
                  raise-rule path
                    (λ files.
                      Ready files × Created path.dir (backup_scratch path.base) (err b) files)
                    (os e ∷ os b ∷ []) BackupOr (λ files a. a.0.0))
                (λ b files a. (a.0, backup_shape b a.1.0)))
              (λ b w alone a. with_backup-Settled e b a.1.0 a.1.1 w alone a.0)
              (λ es files a clean. a))
        where
          backup_shape :
              (b : FilePath)
              → ((n : String) × (b ≡ record { dir = path.dir; base = backup_scratch path.base n }))
              → IsScratch b × (b ≢ tmp)
          backup_shape b (n, same) = rw same ((λ h. h), named n)

      fill-Settled : Triple path (With path Old tmp "") (fill tmp path body) Settled
      unfolding fill
      fill-Settled =
          bind-rule path (With path Old tmp "")
            (handle (write tmp body) (λ e. ignore pass >> raise (os e ∷ []))) ReadyOr _ Settled
            (handle-rule path (With path Old tmp "") (write tmp body)
              (λ r files. Old files × Written tmp body r files)
              (λ e. ignore pass >> raise (os e ∷ [])) ReadyOr
              (write-rule path Old tmp "" body
                (Stable-both path Old (λ files. files tmp ≡ some "") (Stable-at path v)
                  (Stable-scratch path tmp (some "") scratch))
                (Ignores-at tmp path v (scratch-ne-plain tmp path scratch isplain)))
              (λ e.
                weaken-rule path (λ files. Old files × Written tmp body (err e) files) Old _ ReadyOr
                  (λ files a. a.0) (give_up-ReadyOr pass (os e ∷ []) pass-Old))
              (λ x files a. a))
            (λ _.
              then-Settled _ _
                (keep-ReadyOr pass (λ e. ignore pass >> raise (os e ∷ [])) pass-Ready
                  (λ e.
                    weaken-rule path Ready Old _ ReadyOr (λ files a. a.0)
                      (give_up-ReadyOr pass (os e ∷ []) pass-Old)))
                (then-Settled _ _ (lift-ReadyOr pass pass-Ready) (
                  then-Settled _ _ (lift-ReadyOr (stat tmp) (stat-rule path Ready Ready-stable tmp))
                    (handle-rule path Ready (rename tmp path) InstalledOr (λ e. replace e tmp path)
                      Settled
                      (install-Settled Ready InstalledOr (λ files a. a.1) Ready-stable
                        (λ files a. a) (λ e files a. a))
                      replace-Settled (λ x files a. a)))))
            (λ es files a clean. a)
        where
          InstalledOr : Result OsError (Unit {0}) → Store → Type 0
          InstalledOr (ok _) files = files path ≡ some body
          InstalledOr (err e) files = Ready files

          lift-ReadyOr :
              (m : Io OsError (Unit {0}))
              → Triple path Ready m (λ r. Ready)
              → Triple path Ready (lift m) ReadyOr
          lift-ReadyOr m kept =
              lift-rule path Ready m (λ r. Ready) ReadyOr kept (λ e files a. a.0) (λ x files a. a)

  Settled-stable : (r : WriteResult) → Stable path (Settled r)
  Settled-stable (ok _) = Stable-at path (some body)
  Settled-stable (err es) =
      λ edits files spared h clean. Stable-at path v edits files spared (h clean)

  Settled-Ignores : (t : FilePath) → IsScratch t → (r : WriteResult) → Ignores t (Settled r)
  Settled-Ignores t hidden (ok _) =
      Ignores-at t path (some body) (scratch-ne-plain t path hidden isplain)
  Settled-Ignores t hidden (err es) = λ files c h clean.
      Ignores-at t path v (scratch-ne-plain t path hidden isplain) files c (h clean)

  abbrev TempOr : Result (List WriteError) FilePath → Store → Type 0
  TempOr (ok t) files =
      With path Old t "" files
      × ((n : String) × (t ≡ record { dir = path.dir; base = write_scratch n }))
  TempOr (err es) files = Old files

  with_temp-Settled :
      (t : FilePath)
      → ((n : String) × (t ≡ record { dir = path.dir; base = write_scratch n }))
      → Triple path (With path Old t "") (deferred (remove t) (fill t path body)) Settled
  with_temp-Settled t (n, same) =
      let hidden : IsScratch t = rw same (λ h. h) in
      let apart : (m : String)
          → (record { dir = path.dir; base = backup_scratch path.base m }) ≢ t =
        λ m e. not_temp m (e ∙ same) in
      deferred-rule path (With path Old t "") (remove t) (fill t path body) Settled
        (fill-Settled t hidden apart)
        (λ r. remove-rule path (Settled r) (Settled-stable r) t (Settled-Ignores t hidden r))
    where
      not_temp :
          (m : String)
          → ◌≢◌ {A = FilePath}
              (record { dir = path.dir; base = backup_scratch path.base m })
              (record { dir = path.dir; base = write_scratch n })
      not_temp m e =
          let bases : backup_scratch path.base m ≡ write_scratch n =
            ap (λ (f : FilePath). f.base) e in
          cc

  -- For a plain target that the other processes leave alone, whichever calls fail: `writeAtomic`
  -- leaves the new content where it succeeds, and what the target held before (a content, or no
  -- file) where it fails, unless the error says that the original could not be restored.
  pub write_atomic-Settled : Triple path Old (write_atomic path body) Settled
  unfolding write_atomic
  write_atomic-Settled =
      bind-rule path Old (lift pass) (λ r. Old) _ Settled
        (lift-rule path Old pass (λ r. Old) (λ r. Old) (pass-rule path Old (Stable-at path v))
          (λ e files a. a) (λ x files a. a))
        (λ _.
          bind-rule path Old (lift (create_temp path.dir write_scratch)) TempOr _ Settled
            (lift-rule path Old (create_temp path.dir write_scratch)
              (λ r files. Old files × Created path.dir write_scratch r files) TempOr
              (create_temp-rule path Old (Stable-at path v) path.dir write_scratch
                (λ n files absent a.
                  Ignores-at (record { dir = path.dir; base = write_scratch n }) path v
                    (scratch-ne-plain (record { dir = path.dir; base = write_scratch n }) path
                      (λ h. h) isplain)
                    files (some "") a))
              (λ e files a. a.0) (λ t files a. ((a.0, a.1.1), a.1.0)))
            (λ t w alone a. with_temp-Settled t a.1 w alone a.0) (λ es files a clean. a))
        (λ es files a clean. a)
