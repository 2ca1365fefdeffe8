-- ===== src/Sync.antt =====
-- internal/roost/project.go, the commit of staged changes: `writeAtomic`, `verifySyncChangeCurrent`,
-- `rollbackSync` and `commitSyncChanges`, call by call. The errors that the source joins are kept as
-- a list, in order.
mod Rules
pub mod Others
pub mod Atomic
pub mod Rollback
pub mod Commit
pub mod Tests
use roost_codegen.Prelude.{
  String, Bool, true, false, List, [], ◌∷◌, ◌++◌, map, reverse, Option, none, some, str_eq, not,
  ◌&&◌, ◌||◌, if◌then◌else◌,
}
use roost_codegen.Disk.{
  FilePath, FileName, write_scratch, backup_scratch, World, Io, Result, ok, err, OsError, not_exist,
  failure, read_file, remove, pass, create_temp, write, stat, rename,
}
use roost_codegen.Disk.Rules.{◌>>=◌, ◌>>◌}

-- An error of `writeAtomic`: one of a call, or "restore original from", which names the backup.
pub data WriteError : Type 0 where
  os : OsError → WriteError
  restore : FilePath → OsError → WriteError

abbrev pub Write : Type 0 → Type 0
Write A = Io (List WriteError) A

unfoldable pub raise : {E A : Type 0} → E → Io E A
raise e w = (err e, w)

-- A call, and what is done where it fails.
abbrev pub handled : {A : Type 0} → (OsError → Write A) → Result OsError A → Write A
handled h (ok a) w = (ok a, w)
handled h (err e) w = h e w

unfoldable pub handle : {A : Type 0} → Io OsError A → (OsError → Write A) → Write A
handle m h w = let (r, w') = m w in handled h r w'

-- A call whose error is returned as it is.
unfoldable pub lift : {A : Type 0} → Io OsError A → Write A
lift m = handle m (λ e. raise (os e ∷ []))

-- A call whose error is dropped.
unfoldable pub ignore : Io OsError (Unit {0}) → Write (Unit {0})
ignore m w = (ok tt, (m w).1)

-- `defer`: the cleanup runs last, and its error is dropped.
unfoldable pub deferred : Io OsError (Unit {0}) → Write (Unit {0}) → Write (Unit {0})
deferred cleanup m w = let (r, w') = m w in (r, (cleanup w').1)

-- The branches of `writeAtomic` for a file system that cannot rename onto an existing file: the
-- restore of the original where the second rename fails, the two renames, and the whole.
unfoldable pub recover : FilePath → FilePath → OsError → Write (Unit {0})
recover backup path m =
    handle (rename backup path) (λ r. raise (os m ∷ restore backup r ∷ [])) >> raise (os m ∷ [])

unfoldable pub swap : OsError → FilePath → FilePath → FilePath → Write (Unit {0})
swap e tmp path backup = do
  handle (rename path backup) (λ _. raise (os e ∷ []))
  handle (rename tmp path) (recover backup path)
  ignore (remove backup)

unfoldable pub replace : OsError → FilePath → FilePath → Write (Unit {0})
replace e tmp path = do
  handle (stat path) (λ _. raise (os e ∷ []))
  backup ← handle (create_temp path.dir (backup_scratch path.base)) (λ b. raise (os e ∷ os b ∷ []))
  handle pass (λ c. ignore (remove backup) >> raise (os e ∷ os c ∷ []))
  handle (remove backup) (λ r. raise (os e ∷ os r ∷ []))
  swap e tmp path backup

-- From the write of the temporary file to the rename.
unfoldable pub fill : FilePath → FilePath → String → Write (Unit {0})
fill tmp path body = do
  handle (write tmp body) (λ e. ignore pass >> raise (os e ∷ []))
  handle pass (λ e. ignore pass >> raise (os e ∷ []))
  lift pass
  lift (stat tmp)
  handle (rename tmp path) (λ e. replace e tmp path)

unfoldable pub write_atomic : FilePath → String → Write (Unit {0})
write_atomic path body = do
  lift pass
  tmp ← lift (create_temp path.dir write_scratch)
  deferred (remove tmp) (fill tmp path body)

pub record SyncChange : Type 0 where
  pub rel : String
  pub path : FilePath
  pub body : String
  pub before : String
  pub existed : Bool
  pub removes : Bool

pub data CommitError : Type 0 where
  verify_failed : String → OsError → CommitError
  concurrently_changed : String → CommitError
  commit_failed : String → WriteError → CommitError
  inspect_failed : String → OsError → CommitError
  rollback_skipped : String → CommitError
  rollback_failed : String → WriteError → CommitError
  rollback_new_failed : String → OsError → CommitError

-- The switch of `verifySyncChangeCurrent` on what it read.
unfoldable pub judge : SyncChange → Result OsError String → Result (List CommitError) (Unit {0})
judge c (ok current) =
    if c.existed && str_eq current c.before then ok tt else err (concurrently_changed c.rel ∷ [])
judge c (err not_exist) = if c.existed then err (concurrently_changed c.rel ∷ []) else ok tt
judge c (err failure) = err (verify_failed c.rel failure ∷ [])

unfoldable pub verify_current : SyncChange → Io (List CommitError) (Unit {0})
verify_current c w = let (r, w') = read_file c.path w in (judge c r, w')

abbrev pub wrap_remove :
    SyncChange → Result OsError (Unit {0}) → Result (List CommitError) (Unit {0})
wrap_remove c (ok _) = ok tt
wrap_remove c (err e) = err (commit_failed c.rel (os e) ∷ [])

abbrev pub wrap_write :
    SyncChange → Result (List WriteError) (Unit {0}) → Result (List CommitError) (Unit {0})
wrap_write c (ok _) = ok tt
wrap_write c (err es) = err (map (commit_failed c.rel) es)

unfoldable pub apply_remove : SyncChange → Io (List CommitError) (Unit {0})
apply_remove c w = let (r, w') = remove c.path w in (wrap_remove c r, w')

unfoldable pub apply_write : SyncChange → Io (List CommitError) (Unit {0})
apply_write c w = let (r, w') = write_atomic c.path c.body w in (wrap_write c r, w')

unfoldable pub apply_change : SyncChange → Io (List CommitError) (Unit {0})
apply_change c w = if c.removes then apply_remove c w else apply_write c w

abbrev pub undo_write_errors : SyncChange → Result (List WriteError) (Unit {0}) → List CommitError
undo_write_errors c (ok _) = []
undo_write_errors c (err []) = rollback_failed c.rel (os failure) ∷ []
undo_write_errors c (err (e ∷ es)) = rollback_failed c.rel e ∷ map (rollback_failed c.rel) es

abbrev pub undo_create_errors : SyncChange → Result OsError (Unit {0}) → List CommitError
undo_create_errors c (ok _) = []
undo_create_errors c (err not_exist) = []
undo_create_errors c (err failure) = rollback_new_failed c.rel failure ∷ []

unfoldable pub undo_write : SyncChange → World → List CommitError × World
undo_write c w = let (r, w') = write_atomic c.path c.before w in (undo_write_errors c r, w')

unfoldable pub undo_create : SyncChange → World → List CommitError × World
undo_create c w = let (r, w') = remove c.path w in (undo_create_errors c r, w')

unfoldable pub undo : SyncChange → World → List CommitError × World
undo c w = if c.existed then undo_write c w else undo_create c w

-- One round of the loop of `rollbackSync`, behind the read.
unfoldable pub undo_read : SyncChange → Result OsError String → World → List CommitError × World
undo_read c (ok current) w =
    if c.removes || not (str_eq current c.body) then (rollback_skipped c.rel ∷ [], w) else undo c w
undo_read c (err not_exist) w = undo c w
undo_read c (err failure) w = (inspect_failed c.rel failure ∷ [], w)

unfoldable pub rollback_one : SyncChange → World → List CommitError × World
rollback_one c w = let (r, w') = read_file c.path w in undo_read c r w'

-- `rollbackSync`; the list is in the order of its loop, the change applied last at the head.
unfoldable pub rollback : List SyncChange → World → List CommitError × World
rollback [] w = ([], w)
rollback (c ∷ applied) w =
    let (es, w') = rollback_one c w in let (fs, w'') = rollback applied w' in (es ++ fs, w'')

-- `errors.Join(err, rollbackSync(changes[:index]))`.
unfoldable pub fail_with : List CommitError → List SyncChange → Io (List CommitError) (Unit {0})
fail_with es applied w = let (fs, w') = rollback applied w in (err (es ++ fs), w')

abbrev pub after :
    Result (List CommitError) (Unit {0})
    → List SyncChange
    → Io (List CommitError) (Unit {0})
    → Io (List CommitError) (Unit {0})
after (ok _) applied next w = next w
after (err es) applied next w = fail_with es applied w

-- The loop of `commitSyncChanges`; `applied` is `changes[:index]`, the last at the head.
unfoldable pub commit_from : List SyncChange → List SyncChange → Io (List CommitError) (Unit {0})
commit_from applied [] w = (ok tt, w)
commit_from applied (c ∷ changes) w =
    let (r, w1) = verify_current c w in
    after r applied
      (λ w2.
        let (r', w3) = apply_change c w2 in after r' applied (commit_from (c ∷ applied) changes) w3)
      w1

unfoldable pub commit : List SyncChange → Io (List CommitError) (Unit {0})
commit changes = commit_from [] changes
