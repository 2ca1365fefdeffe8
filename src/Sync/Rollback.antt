-- ===== src/Sync/Rollback.antt =====
-- What `rollbackSync` does to one path that the other processes spare.
use roost_codegen.Prelude.{
  String, List, [], ◌∷◌, Option, none, some, ◌≡◌, ◌≢◌, str_eq, not, ◌||◌, if◌then◌else◌, inl, inr,
  All, Bool-cases,
}
use roost_codegen.Disk.{
  FilePath, World, Result, ok, err, OsError, not_exist, failure, read_file, remove,
}
use roost_codegen.Disk.Names.{IsPlain, Alone}
use roost_codegen.Disk.Rules.{Stable-at}
use roost_codegen.Disk.Calls.{ReadSays, read_file-rule, Removed, remove-Removed}
use roost_codegen.Sync.{
  WriteError, write_atomic, SyncChange, rollback_skipped, undo_write_errors, undo_create_errors,
  undo_write, undo_create, undo, undo_read, rollback_one, rollback,
}
use roost_codegen.Sync.Others.{remove-Keeps, write_atomic-Keeps}
use roost_codegen.Sync.Atomic.{Settled, write_atomic-Settled}

-- What a change makes of its file, and what it expects there.
abbrev pub target : SyncChange → Option String
target c = if c.removes then none else some c.body

abbrev pub expected : SyncChange → Option String
expected c = if c.existed then some c.before else none

-- The read of the spared path itself, and its removal.
module _ (p : FilePath) (v : Option String) where
  abbrev pub At : World → Type 0
  At w = Alone p w × (w.files p ≡ v)

  pub read_file-At :
      (q : FilePath) (w : World)
      → At w
      → At (read_file q w).1 × ReadSays q (read_file q w).0 (read_file q w).1.files
  read_file-At q w (alone, e) =
      let (alone', found) = read_file-rule p (λ files. files p ≡ v) (Stable-at p v) q w alone e in
      ((alone', found.0), found.1)

-- A rollback of changes of other files leaves the path alone.
module _ (p : FilePath) (isplain : IsPlain p.base) (v : Option String) where
  undo-At : (c : SyncChange) (w : World) → c.path ≢ p → At p v w → At p v (undo c w).1
  unfolding undo undo_write undo_create
  undo-At c w other (alone, e) = elim (Bool-cases c.existed) [
    | inl old ↦ rw old ((write_atomic-Keeps p v c.path isplain other c.before).at w alone e)
    | inr new ↦ rw new ((remove-Keeps p v other).at w alone e)
  ]

  undo_read-At :
      (c : SyncChange) (r : Result OsError String) (w : World)
      → c.path ≢ p
      → At p v w
      → At p v (undo_read c r w).1
  unfolding undo_read
  undo_read-At c (ok current) w other h =
      elim (Bool-cases (c.removes || not (str_eq current c.body))) [
        | inl skip ↦ rw skip h
        | inr same ↦ rw same (undo-At c w other h)
      ]
  undo_read-At c (err not_exist) w other h = undo-At c w other h
  undo_read-At c (err failure) w other h = h

  pub rollback_one-At :
      (c : SyncChange) (w : World) → c.path ≢ p → At p v w → At p v (rollback_one c w).1
  unfolding rollback_one
  rollback_one-At c w other h =
      undo_read-At c (read_file c.path w).0 (read_file c.path w).1 other
        (read_file-At p v c.path w h).0

  pub rollback-At :
      (applied : List SyncChange) (w : World)
      → All (λ c. c.path ≢ p) applied
      → At p v w
      → At p v (rollback applied w).1
  unfolding rollback
  rollback-At [] w others h = h
  rollback-At (c ∷ applied) w (other, others) h =
      rollback-At applied (rollback_one c w).1 others (rollback_one-At c w other h)

-- A rollback of the change of the path itself, where it reports no error.
module _ (c : SyncChange) (isplain : IsPlain c.path.base) where
  undo_self :
      (w : World) (v : Option String)
      → At c.path v w
      → (undo c w).0 ≡ []
      → At c.path (expected c) (undo c w).1
  unfolding undo undo_write undo_create
  undo_self w v (alone, e) quiet = elim (Bool-cases c.existed) [
    | inl old ↦
        let (alone', settled) = write_atomic-Settled c.path isplain v c.before w alone e in
        rw old (
          alone',
          wrote (write_atomic c.path c.before w).0 (write_atomic c.path c.before w).1 settled
              (rw old at quiet),
        )
    | inr new ↦
        let (alone', gone) = remove-Removed c.path v w alone e in
        rw new (alone', removed (remove c.path w).0 (remove c.path w).1 gone (rw new at quiet))
  ]
    where
      wrote :
          (r : Result (List WriteError) (Unit {0})) (w' : World)
          → Settled c.path isplain v c.before r w'.files
          → undo_write_errors c r ≡ []
          → w'.files c.path ≡ some c.before
      wrote (ok _) w' settled quiet = settled
      wrote (err []) w' settled quiet = cc
      wrote (err (x ∷ es)) w' settled quiet = cc

      removed :
          (r : Result OsError (Unit {0})) (w' : World)
          → Removed c.path v r w'.files
          → undo_create_errors c r ≡ []
          → w'.files c.path ≡ none
      removed (ok _) w' gone quiet = gone
      removed (err not_exist) w' gone quiet = gone.0
      removed (err failure) w' gone quiet = cc

  pub rollback_one_self :
      (w : World)
      → At c.path (target c) w
      → (rollback_one c w).0 ≡ []
      → At c.path (expected c) (rollback_one c w).1
  unfolding rollback_one
  rollback_one_self w h quiet =
      let (h', says) = read_file-At c.path (target c) c.path w h in
      go (read_file c.path w).0 (read_file c.path w).1 h' quiet
    where
      go :
          (r : Result OsError String) (w' : World)
          → At c.path (target c) w'
          → (undo_read c r w').0 ≡ []
          → At c.path (expected c) (undo_read c r w').1
      go (ok current) w' h' quiet =
          unfold undo_read in
          elim (Bool-cases (c.removes || not (str_eq current c.body))) [
            | inl skip ↦ let stuck : rollback_skipped c.rel ∷ [] ≡ [] = rw skip at quiet in cc
            | inr same ↦ rw same (undo_self w' (target c) h' (rw same at quiet))
          ]
      go (err not_exist) w' h' quiet = unfold undo_read in undo_self w' (target c) h' quiet
      go (err failure) w' h' quiet = unfold undo_read in cc
