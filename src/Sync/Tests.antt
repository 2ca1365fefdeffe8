-- ===== src/Sync/Tests.antt =====
-- Runs of a commit: to the end, with a failing call, with a concurrent edit, and on a file system
-- that cannot rename onto an existing file; and the theorems at them.
use roost_codegen.Prelude.{
  String, Bool, true, false, [], ◌∷◌, none, some, ◌≡◌, ◌≢◌, refl, ap, if◌then◌else◌, arith,
  str_eq_iff,
}
use roost_codegen.Disk.{
  FilePath, plain, path_eq, Store, Turn, World, ok, err, failure, read_file, remove, pass,
  create_temp, write, stat, rename,
}
use roost_codegen.Disk.Names.{Alone}
use roost_codegen.Disk.Rules.{◌>>=◌}
use roost_codegen.Sync.{
  os, raise, handle, lift, deferred, fill, write_atomic, SyncChange, commit_failed,
  concurrently_changed, judge, verify_current, apply_write, apply_change, undo_write, undo,
  undo_read, rollback_one, rollback, fail_with, commit_from, commit,
}
use roost_codegen.Sync.Atomic.{Settled, write_atomic-Settled}
use roost_codegen.Sync.Commit.{Commits, commit-Commits}

abbrev file : String → FilePath
file name = record { dir = "/p"; base = plain name }

abbrev update_a : SyncChange
update_a = record {
  rel = "a";
  path = file "a";
  body = "new";
  before = "old";
  existed = true;
  removes = false;
}

abbrev create_b : SyncChange
create_b = record {
  rel = "b";
  path = file "b";
  body = "made";
  before = "";
  existed = false;
  removes = false;
}

abbrev old_files : Store
old_files p = if path_eq p (file "a") then some "old" else none

abbrev turn : Bool → Turn
turn fault = record { edits = []; fault = fault; name = "1" }

abbrev quiet : World
quiet = record { files = old_files; turns = [] }

-- The eleventh call fails: the `MkdirAll` of the second change.
abbrev one_fails : World
one_fails = record {
  files = old_files;
  turns =
      turn false
      ∷ turn false
      ∷ turn false
      ∷ turn false
      ∷ turn false
      ∷ turn false
      ∷ turn false
      ∷ turn false
      ∷ turn false
      ∷ turn false
      ∷ turn true
      ∷ [];
}

commits :
    ((commit (update_a ∷ create_b ∷ []) quiet).0 ≡ ok tt)
    × ((commit (update_a ∷ create_b ∷ []) quiet).1.files (file "a") ≡ some "new")
    × ((commit (update_a ∷ create_b ∷ []) quiet).1.files (file "b") ≡ some "made")
unfolding commit commit_from verify_current judge apply_change apply_write write_atomic lift handle
    deferred fill ◌>>=◌ read_file pass create_temp write stat rename remove path_eq
commits = (refl, refl, refl)

rolls_back :
    ((commit (update_a ∷ create_b ∷ []) one_fails).0 ≡ err (commit_failed "b" (os failure) ∷ []))
    × ((commit (update_a ∷ create_b ∷ []) one_fails).1.files (file "a") ≡ some "old")
    × ((commit (update_a ∷ create_b ∷ []) one_fails).1.files (file "b") ≡ none)
unfolding commit commit_from verify_current judge apply_change apply_write write_atomic lift handle
    deferred fill ◌>>=◌ read_file pass create_temp write stat rename remove path_eq fail_with
    rollback rollback_one undo_read undo undo_write raise
rolls_back = (refl, refl, refl)

abbrev edited : World
edited = record {
  files = old_files;
  turns = record { edits = (file "a", some "mine") ∷ []; fault = false; name = "" } ∷ [];
}

keeps_edit :
    ((commit (update_a ∷ []) edited).0 ≡ err (concurrently_changed "a" ∷ []))
    × ((commit (update_a ∷ []) edited).1.files (file "a") ≡ some "mine")
unfolding commit commit_from verify_current judge fail_with rollback read_file path_eq
keeps_edit = (refl, refl)

distinct : ◌≢◌ {A = FilePath} (file "b") (file "a")
distinct e =
    let bases : plain "b" ≡ plain "a" = ap (λ (p : FilePath). p.base) e in
    ground (arith, str_eq_iff "b" "a")

commit-Commits_example :
    Commits
      (update_a ∷ create_b ∷ [])
      (file "a")
      (some "old")
      (commit (update_a ∷ create_b ∷ []) one_fails).0
      (commit (update_a ∷ create_b ∷ []) one_fails).1.files
unfolding path_eq
commit-Commits_example =
    commit-Commits (file "a") (some "old") (update_a ∷ create_b ∷ []) one_fails tt
      ((distinct, tt), (tt, tt))
      (tt, (tt, (tt, (tt, (tt, (tt, (tt, (tt, (tt, (tt, (tt, tt))))))))))) refl

write_atomic-Settled_example :
    Alone (file "a") (write_atomic (file "a") "new" one_fails).1
    × Settled
        (file "a")
        tt
        (some "old")
        "new"
        (write_atomic (file "a") "new" one_fails).0
        (write_atomic (file "a") "new" one_fails).1.files
unfolding path_eq
write_atomic-Settled_example =
    write_atomic-Settled (file "a") tt (some "old") "new" one_fails
      (tt, (tt, (tt, (tt, (tt, (tt, (tt, (tt, (tt, (tt, (tt, tt))))))))))) refl
