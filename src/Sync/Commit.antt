-- ===== src/Sync/Commit.antt =====
-- `commitSyncChanges` is all or nothing at every path that the other processes spare.
use roost_codegen.Prelude.{
  String, Bool, true, false, List, [], ◌∷◌, ◌++◌, map, Option, ◌≡◌, ◌≢◌, refl, sym, subst, arith,
  ◌∙◌, str_eq, str_eq_iff, not, ◌||◌, if◌then◌else◌, inl, inr, All, Bool-cases,
}
use roost_codegen.Disk.{
  FilePath, path_eq, Store, World, Io, Result, ok, err, OsError, not_exist, failure, read_file,
  remove,
}
use roost_codegen.Disk.Names.{IsPlain, Alone, path_eq_iff}
use roost_codegen.Disk.Calls.{ReadSays, Removed, remove-Removed}
use roost_codegen.Sync.{
  WriteError, os, restore, write_atomic, SyncChange, CommitError, verify_failed,
  concurrently_changed, commit_failed, inspect_failed, rollback_skipped, rollback_failed,
  rollback_new_failed, judge, verify_current, wrap_remove, wrap_write, apply_remove, apply_write,
  apply_change, undo_write_errors, undo_create_errors, undo_write, undo_create, undo, undo_read,
  rollback_one, rollback, fail_with, after, commit_from, commit,
}
use roost_codegen.Sync.Others.{remove-Keeps, write_atomic-Keeps}
use roost_codegen.Sync.Atomic.{IsClean, Settled, write_atomic-Settled}
use roost_codegen.Sync.Rollback.{
  target, expected, At, read_file-At, rollback-At, rollback_one-At, rollback_one_self,
}

-- The errors say of no file that it could not be put back.
abbrev pub SaysRestored : List CommitError → Type 0
SaysRestored [] = Unit
SaysRestored (verify_failed rel e ∷ es) = SaysRestored es
SaysRestored (concurrently_changed rel ∷ es) = SaysRestored es
SaysRestored (commit_failed rel (os e) ∷ es) = SaysRestored es
SaysRestored (commit_failed rel (restore p e) ∷ es) = ⊥
SaysRestored (inspect_failed rel e ∷ es) = ⊥
SaysRestored (rollback_skipped rel ∷ es) = ⊥
SaysRestored (rollback_failed rel e ∷ es) = ⊥
SaysRestored (rollback_new_failed rel e ∷ es) = ⊥

SaysRestored-append :
    (es fs : List CommitError) → SaysRestored (es ++ fs) → SaysRestored es × SaysRestored fs
SaysRestored-append [] fs h = (tt, h)
SaysRestored-append (verify_failed rel e ∷ es) fs h = SaysRestored-append es fs h
SaysRestored-append (concurrently_changed rel ∷ es) fs h = SaysRestored-append es fs h
SaysRestored-append (commit_failed rel (os e) ∷ es) fs h = SaysRestored-append es fs h
SaysRestored-append (commit_failed rel (restore p e) ∷ es) fs h = absurd h
SaysRestored-append (inspect_failed rel e ∷ es) fs h = absurd h
SaysRestored-append (rollback_skipped rel ∷ es) fs h = absurd h
SaysRestored-append (rollback_failed rel e ∷ es) fs h = absurd h
SaysRestored-append (rollback_new_failed rel e ∷ es) fs h = absurd h

wrap_write-IsClean :
    (c : SyncChange) (es : List WriteError)
    → SaysRestored (map (commit_failed c.rel) es)
    → IsClean es
wrap_write-IsClean c [] h = tt
wrap_write-IsClean c (os e ∷ es) h = wrap_write-IsClean c es h
wrap_write-IsClean c (restore p e ∷ es) h = h

-- Every error of a rollback says that a file could not be put back.
undo-quiet : (c : SyncChange) (w : World) → SaysRestored (undo c w).0 → (undo c w).0 ≡ []
unfolding undo undo_write undo_create
undo-quiet c w h = elim (Bool-cases c.existed) [
  | inl old ↦ rw old (wrote (write_atomic c.path c.before w).0 (rw old at h))
  | inr new ↦ rw new (removed (remove c.path w).0 (rw new at h))
]
  where
    wrote :
        (r : Result (List WriteError) (Unit {0}))
        → SaysRestored (undo_write_errors c r)
        → undo_write_errors c r ≡ []
    wrote (ok _) h = refl
    wrote (err []) h = absurd h
    wrote (err (e ∷ es)) h = absurd h

    removed :
        (r : Result OsError (Unit {0}))
        → SaysRestored (undo_create_errors c r)
        → undo_create_errors c r ≡ []
    removed (ok _) h = refl
    removed (err not_exist) h = refl
    removed (err failure) h = absurd h

undo_read-quiet :
    (c : SyncChange) (r : Result OsError String) (w : World)
    → SaysRestored (undo_read c r w).0
    → (undo_read c r w).0 ≡ []
unfolding undo_read
undo_read-quiet c (ok current) w h = elim (Bool-cases (c.removes || not (str_eq current c.body))) [
  | inl skip ↦ absurd (rw skip at h)
  | inr same ↦ rw same (undo-quiet c w (rw same at h))
]
undo_read-quiet c (err not_exist) w h = undo-quiet c w h
undo_read-quiet c (err failure) w h = absurd h

rollback_one-quiet :
    (c : SyncChange) (w : World) → SaysRestored (rollback_one c w).0 → (rollback_one c w).0 ≡ []
unfolding rollback_one
rollback_one-quiet c w h = undo_read-quiet c (read_file c.path w).0 (read_file c.path w).1 h

module _ (c : SyncChange) (isplain : IsPlain c.path.base) where
  -- A rollback that goes through the change of a path and reports nothing puts it back.
  rollback-through :
      (later earlier : List SyncChange) (w : World)
      → All (λ d. d.path ≢ c.path) later
      → All (λ d. d.path ≢ c.path) earlier
      → At c.path (target c) w
      → SaysRestored (rollback (later ++ c ∷ earlier) w).0
      → At c.path (expected c) (rollback (later ++ c ∷ earlier) w).1
  unfolding rollback
  rollback-through [] earlier w _ others h quiet =
      let (one, rest) = SaysRestored-append (rollback_one c w).0 _ quiet in
      rollback-At c.path isplain (expected c) earlier (rollback_one c w).1 others
        (rollback_one_self c isplain w h (rollback_one-quiet c w one))
  rollback-through (d ∷ later) earlier w (other, more) others h quiet =
      let (one, rest) = SaysRestored-append (rollback_one d w).0 _ quiet in
      rollback-through later earlier (rollback_one d w).1 more others
        (rollback_one-At c.path isplain (target c) d w other h) rest

-- What a failing step leaves, where the path holds `v` and no applied change is of the path.
fail_with-At :
    (p : FilePath) (isplain : IsPlain p.base) (v : Option String) (es : List CommitError)
    (applied : List SyncChange) (w : World)
    → All (λ d. d.path ≢ p) applied
    → At p v w
    → At p v (fail_with es applied w).1
unfolding fail_with
fail_with-At p isplain v es applied w others h = rollback-At p isplain v applied w others h

verify_current-At :
    (p : FilePath) (v : Option String) (c : SyncChange) (w : World)
    → At p v w
    → At p v (verify_current c w).1
unfolding verify_current
verify_current-At p v c w h = (read_file-At p v c.path w h).0

apply_change-At :
    (p : FilePath) (isplain : IsPlain p.base) (v : Option String) (c : SyncChange) (w : World)
    → c.path ≢ p
    → At p v w
    → At p v (apply_change c w).1
unfolding apply_change apply_remove apply_write
apply_change-At p isplain v c w other (alone, e) = elim (Bool-cases c.removes) [
  | inl gone ↦ rw gone ((remove-Keeps p v other).at w alone e)
  | inr kept ↦ rw kept ((write_atomic-Keeps p v c.path isplain other c.body).at w alone e)
]

-- The check of a change's own path compares it with what the plan saw there.
verify_current_self :
    (c : SyncChange) (v : Option String) (w : World)
    → At c.path v w
    → (verify_current c w).0 ≡ ok tt
    → v ≡ expected c
unfolding verify_current
verify_current_self c v w h passed =
    let (h', says) = read_file-At c.path v c.path w h in
    go (read_file c.path w).0 (read_file c.path w).1 h'.1 says passed
  where
    go :
        (r : Result OsError String) (w' : World)
        → w'.files c.path ≡ v
        → ReadSays c.path r w'.files
        → judge c r ≡ ok tt
        → v ≡ expected c
    go (ok current) w' same says passed =
        unfold judge in ground (arith, str_eq_iff current c.before)
    go (err not_exist) w' same says passed = unfold judge in ground arith
    go (err failure) w' same says passed = unfold judge in cc

-- Applying a change makes its file the target, or leaves it, unless the error says otherwise.
abbrev Applied : SyncChange → Option String → Result (List CommitError) (Unit {0}) → Store → Type 0
Applied c v (ok _) files = files c.path ≡ target c
Applied c v (err es) files = SaysRestored es → files c.path ≡ v

apply_change_self :
    (c : SyncChange) (isplain : IsPlain c.path.base) (v : Option String) (w : World)
    → At c.path v w
    → Alone c.path (apply_change c w).1
      × Applied c v (apply_change c w).0 (apply_change c w).1.files
unfolding apply_change apply_remove apply_write
apply_change_self c isplain v w (alone, e) = chosen c.removes refl
  where
    removed :
        (r : Result OsError (Unit {0})) (files : Store)
        → c.removes ≡ true
        → Removed c.path v r files
        → Applied c v (wrap_remove c r) files
    removed (ok _) files gone end = rw gone end
    removed (err not_exist) files gone end = λ says. end.1
    removed (err failure) files gone end = λ says. end

    wrote :
        (r : Result (List WriteError) (Unit {0})) (files : Store)
        → c.removes ≡ false
        → Settled c.path isplain v c.body r files
        → Applied c v (wrap_write c r) files
    wrote (ok _) files kept end = rw kept end
    wrote (err es) files kept end = λ says. end (wrap_write-IsClean c es says)

    chosen :
        (removes : Bool)
        → c.removes ≡ removes
        → Alone c.path (if removes then apply_remove c w else apply_write c w).1
          × Applied c v
              (if removes then apply_remove c w else apply_write c w).0
              (if removes then apply_remove c w else apply_write c w).1.files
    chosen true gone =
        let (alone', end) = remove-Removed c.path v w alone e in
        (alone', removed (remove c.path w).0 (remove c.path w).1.files gone end)
    chosen false kept =
        let (alone', end) = write_atomic-Settled c.path isplain v c.body w alone e in
        (
          alone',
          wrote (write_atomic c.path c.body w).0 (write_atomic c.path c.body w).1.files kept end,
        )

-- What a commit that goes on from a path with its change applied, or not yet seen, does to it.
abbrev Done : SyncChange → Option String → Result (List CommitError) (Unit {0}) → Store → Type 0
Done c v (ok _) files = files c.path ≡ target c
Done c v (err es) files = SaysRestored es → files c.path ≡ v

-- The same, with what the check of the path's own change has shown.
abbrev Own : SyncChange → Option String → Result (List CommitError) (Unit {0}) → Store → Type 0
Own c v (ok _) files = (files c.path ≡ target c) × (v ≡ expected c)
Own c v (err es) files = SaysRestored es → files c.path ≡ v

Own-of_Done :
    (c : SyncChange) (v : Option String) (r : Result (List CommitError) (Unit {0})) (files : Store)
    → v ≡ expected c
    → Done c (expected c) r files
    → Own c v r files
Own-of_Done c v (ok _) files same done = (done, same)
Own-of_Done c v (err es) files same done = λ says. done says ∙ sym same

module _ (c : SyncChange) (isplain : IsPlain c.path.base) where
  abbrev Ends : Io (List CommitError) (Unit {0}) → World → Type 0
  Ends m w = Done c (expected c) (m w).0 (m w).1.files

  fail_through :
      (es : List CommitError) (later earlier : List SyncChange) (w : World)
      → All (λ d. d.path ≢ c.path) later
      → All (λ d. d.path ≢ c.path) earlier
      → At c.path (target c) w
      → Ends (fail_with es (later ++ c ∷ earlier)) w
  unfolding fail_with
  fail_through es later earlier w others others' h says =
      (rollback-through c isplain later earlier w others others' h
        (SaysRestored-append es _ says).1).1

  -- Once the change is applied.
  commit_from-after :
      (later earlier changes : List SyncChange) (w : World)
      → All (λ d. d.path ≢ c.path) later
      → All (λ d. d.path ≢ c.path) earlier
      → All (λ d. d.path ≢ c.path) changes
      → At c.path (target c) w
      → Ends (commit_from (later ++ c ∷ earlier) changes) w
  unfolding commit_from
  commit_from-after later earlier [] w l e _ h = h.1
  commit_from-after later earlier (d ∷ changes) w l e (other, more) h =
      verified (verify_current d w).0 (verify_current d w).1
        (verify_current-At c.path (target c) d w h)
        (λ w2 h2.
          applied (apply_change d w2).0 (apply_change d w2).1
            (apply_change-At c.path isplain (target c) d w2 other h2)
            (λ w3 h3. commit_from-after (d ∷ later) earlier changes w3 (other, l) e more h3))
    where
      applied :
          (r : Result (List CommitError) (Unit {0})) (w3 : World)
          → At c.path (target c) w3
          → ((w4 : World)
              → At c.path (target c) w4
              → Ends (commit_from (d ∷ later ++ c ∷ earlier) changes) w4)
          → Ends
              (after r (later ++ c ∷ earlier) (commit_from (d ∷ later ++ c ∷ earlier) changes))
              w3
      applied (ok _) w3 h3 next = next w3 h3
      applied (err es) w3 h3 next = fail_through es later earlier w3 l e h3

      verified :
          (r : Result (List CommitError) (Unit {0})) (w1 : World)
          → At c.path (target c) w1
          → ((w2 : World)
              → At c.path (target c) w2
              → Ends
                  (after
                    (apply_change d w2).0
                    (later ++ c ∷ earlier)
                    (commit_from (d ∷ later ++ c ∷ earlier) changes))
                  (apply_change d w2).1)
          → Ends
              (after r (later ++ c ∷ earlier) (λ w2.
                after
                  (apply_change d w2).0
                  (later ++ c ∷ earlier)
                  (commit_from (d ∷ later ++ c ∷ earlier) changes)
                  (apply_change d w2).1))
              w1
      verified (ok _) w1 h1 next = next w1 h1
      verified (err es) w1 h1 next = fail_through es later earlier w1 l e h1

  -- From the change of the path itself on, where none before it was of the path.
  commit_from_self :
      (v : Option String) (earlier changes : List SyncChange) (w : World)
      → All (λ d. d.path ≢ c.path) earlier
      → All (λ d. d.path ≢ c.path) changes
      → At c.path v w
      → Own c v
          (commit_from earlier (c ∷ changes) w).0
          (commit_from earlier (c ∷ changes) w).1.files
  unfolding commit_from fail_with
  commit_from_self v earlier changes w e others h =
      verified (verify_current c w).0 (verify_current c w).1 refl (verify_current-At c.path v c w h)
    where
      applied :
          (r : Result (List CommitError) (Unit {0})) (w3 : World)
          → v ≡ expected c
          → Alone c.path w3 × Applied c v r w3.files
          → Own c v
              (after r earlier (commit_from (c ∷ earlier) changes) w3).0
              (after r earlier (commit_from (c ∷ earlier) changes) w3).1.files
      applied (ok _) w3 same (alone, now) =
          Own-of_Done c v (commit_from (c ∷ earlier) changes w3).0
            (commit_from (c ∷ earlier) changes w3).1.files same
            (commit_from-after [] earlier changes w3 tt e others (alone, now))
      applied (err es) w3 same (alone, now) = λ says.
          (fail_with-At c.path isplain v es earlier w3 e
            (alone, now (SaysRestored-append es _ says).0)).1

      verified :
          (r : Result (List CommitError) (Unit {0})) (w1 : World)
          → (verify_current c w).0 ≡ r
          → At c.path v w1
          → Own c v
              (after r earlier
                (λ w2.
                  after
                    (apply_change c w2).0
                    earlier
                    (commit_from (c ∷ earlier) changes)
                    (apply_change c w2).1)
                w1).0
              (after r earlier
                (λ w2.
                  after
                    (apply_change c w2).0
                    earlier
                    (commit_from (c ∷ earlier) changes)
                    (apply_change c w2).1)
                w1).1.files
      verified (ok _) w1 passed h1 =
          applied (apply_change c w1).0 (apply_change c w1).1 (verify_current_self c v w h passed)
            (apply_change_self c isplain v w1 h1)
      verified (err es) w1 passed h1 = λ says. (fail_with-At c.path isplain v es earlier w1 e h1).1

-- What a commit does to a path that holds `v`: on success, what the plan says, and the plan saw what
-- the path held; on failure, nothing, unless an error says that a file could not be put back.
abbrev pub planned : List SyncChange → FilePath → Option String → Option String
planned [] p v = v
planned (c ∷ changes) p v = if path_eq c.path p then target c else planned changes p v

abbrev pub SawRight : List SyncChange → FilePath → Option String → Type 0
SawRight changes p v = All (λ c. c.path ≡ p → v ≡ expected c) changes

abbrev pub Commits :
    List SyncChange
    → FilePath
    → Option String
    → Result (List CommitError) (Unit {0})
    → Store
    → Type 0
Commits changes p v (ok _) files = (files p ≡ planned changes p v) × SawRight changes p v
Commits changes p v (err es) files = SaysRestored es → files p ≡ v

abbrev pub DistinctPaths : List SyncChange → Type 0
DistinctPaths [] = Unit
DistinctPaths (c ∷ changes) = All (λ d. d.path ≢ c.path) changes × DistinctPaths changes

Commits-of_Own :
    (c : SyncChange) (changes : List SyncChange) (v : Option String)
    (r : Result (List CommitError) (Unit {0})) (files : Store)
    → All (λ d. d.path ≢ c.path) changes
    → Own c v r files
    → Commits (c ∷ changes) c.path v r files
Commits-of_Own c changes v (ok _) files others (now, same) =
    (rw ((path_eq_iff c.path c.path).1 refl) now, ((λ e. same), All-absurd changes others))
  where
    All-absurd :
        (ds : List SyncChange)
        → All (λ d. d.path ≢ c.path) ds
        → All (λ d. d.path ≡ c.path → v ≡ expected d) ds
    All-absurd [] h = tt
    All-absurd (d ∷ ds) (h, hs) = ((λ e. absurd (h e)), All-absurd ds hs)
Commits-of_Own c changes v (err es) files others own = own

Commits-skip :
    (c : SyncChange) (changes : List SyncChange) (p : FilePath) (v : Option String)
    (r : Result (List CommitError) (Unit {0})) (files : Store)
    → c.path ≢ p
    → Commits changes p v r files
    → Commits (c ∷ changes) p v r files
Commits-skip c changes p v (ok _) files other (now, saw) =
    (ground (arith, path_eq_iff c.path p), ((λ e. absurd (other e)), saw))
Commits-skip c changes p v (err es) files other h = h

module _ (p : FilePath) (isplain : IsPlain p.base) (v : Option String) where
  abbrev Meets : List SyncChange → Io (List CommitError) (Unit {0}) → World → Type 0
  Meets changes m w = Commits changes p v (m w).0 (m w).1.files

  fail-Commits :
      (changes : List SyncChange) (es : List CommitError) (earlier : List SyncChange) (w : World)
      → All (λ d. d.path ≢ p) earlier
      → At p v w
      → Meets changes (fail_with es earlier) w
  unfolding fail_with
  fail-Commits changes es earlier w e h = λ says. (rollback-At p isplain v earlier w e h).1

  commit_from-Commits :
      (earlier changes : List SyncChange) (w : World)
      → All (λ d. d.path ≢ p) earlier
      → DistinctPaths changes
      → At p v w
      → Meets changes (commit_from earlier changes) w
  unfolding commit_from
  commit_from-Commits earlier [] w e _ h = (h.1, tt)
  commit_from-Commits earlier (c ∷ changes) w e (apart, distinct) h =
      elim (Bool-cases (path_eq c.path p)) [
        | inl own ↦
            subst
              (λ q.
                All (λ d. d.path ≢ q) earlier
                → At q v w
                → Commits (c ∷ changes) q v (commit_from earlier (c ∷ changes) w).0
                    (commit_from earlier (c ∷ changes) w).1.files)
              ((path_eq_iff c.path p).0 own)
              (at_own (subst (λ q. IsPlain q.base) (sym ((path_eq_iff c.path p).0 own)) isplain)) e
              h
        | inr other ↦
            let ne : c.path ≢ p = λ same. let clash = (path_eq_iff c.path p).1 same in cc in
            verified ne (verify_current c w).0 (verify_current c w).1 (verify_current-At p v c w h)
              (λ w4 h4. commit_from-Commits (c ∷ earlier) changes w4 (ne, e) distinct h4)
      ]
    where
      at_own :
          IsPlain c.path.base
          → All (λ d. d.path ≢ c.path) earlier
          → At c.path v w
          → Commits
              (c ∷ changes)
              c.path
              v
              (commit_from earlier (c ∷ changes) w).0
              (commit_from earlier (c ∷ changes) w).1.files
      at_own plain_own e' h' =
          Commits-of_Own c changes v _ _ apart
            (commit_from_self c plain_own v earlier changes w e' apart h')

      applied :
          c.path ≢ p
          → (r : Result (List CommitError) (Unit {0})) (w3 : World) → At p v w3
          → ((w4 : World) → At p v w4 → Meets changes (commit_from (c ∷ earlier) changes) w4)
          → Meets (c ∷ changes) (after r earlier (commit_from (c ∷ earlier) changes)) w3
      applied ne (ok _) w3 h3 next = Commits-skip c changes p v _ _ ne (next w3 h3)
      applied ne (err es) w3 h3 next = fail-Commits (c ∷ changes) es earlier w3 e h3

      verified :
          c.path ≢ p
          → (r : Result (List CommitError) (Unit {0})) (w1 : World) → At p v w1
          → ((w4 : World) → At p v w4 → Meets changes (commit_from (c ∷ earlier) changes) w4)
          → Meets
              (c ∷ changes)
              (after r earlier (λ w2.
                after
                  (apply_change c w2).0
                  earlier
                  (commit_from (c ∷ earlier) changes)
                  (apply_change c w2).1))
              w1
      verified ne (ok _) w1 h1 next =
          applied ne (apply_change c w1).0 (apply_change c w1).1
            (apply_change-At p isplain v c w1 ne h1) next
      verified ne (err es) w1 h1 next = fail-Commits (c ∷ changes) es earlier w1 e h1

-- For changes of distinct files, whatever calls fail and whatever the other processes write to
-- other files in between: at a path that they leave alone, which is no scratch file, a commit that
-- succeeds leaves what the plan wanted there (the new content, no file, or, where no change is of the
-- path, the content as it was), and the content before was what the plan had seen; and a commit that
-- fails leaves the content before, unless one of its errors says that a file was not put back.
pub commit-Commits :
    (p : FilePath) (v : Option String) (changes : List SyncChange) (w : World)
    → IsPlain p.base
    → DistinctPaths changes
    → Alone p w
    → w.files p ≡ v
    → Commits changes p v (commit changes w).0 (commit changes w).1.files
unfolding commit
commit-Commits p v changes w isplain distinct alone e =
    commit_from-Commits p isplain v [] changes w tt distinct (alone, e)
