-- ===== src/Plan/Manifest.antt =====
-- What a sync of the rendered files makes of one path, whatever calls fail and whatever is written to
-- other files meanwhile.
use roost_codegen.Prelude.{
  String, Bool, true, false, List, [], ◌∷◌, ◌++◌, Option, none, some, ◌≡◌, ◌⊎◌, inl, inr, refl, sym,
  subst, ap, ◌∙◌, if◌then◌else◌, arith, not, str_eq, All,
}
use roost_codegen.Disk.{
  FilePath, path_eq, Store, World, Result, ok, err, OsError, not_exist, failure, read_file,
}
use roost_codegen.Disk.Names.{IsPlain, Alone, path_eq_iff}
use roost_codegen.Disk.Calls.{ReadSays}
use roost_codegen.Sync.{SyncChange, CommitError, commit}
use roost_codegen.Sync.Rollback.{At, read_file-At}
use roost_codegen.Sync.Commit.{planned, Commits, SaysRestored, commit-Commits}
use roost_codegen.Plan.{
  PlannedFile, SyncResult, PlanError, not_generated, Entry, kept, replaced, added, changes_of,
  result_of, can_overwrite_generated, plan_entry, plan_file, plan_manifest_sync, to_create,
  to_update, SyncError, planning, verifying, committing, commit_result, commit_entries,
  sync_manifest,
}
use roost_codegen.Plan.Gather.{OnOk, Parts, gather-Parts, Own, wanted, DistinctAt, Rounds-planned}

-- What a rendered file makes of a path: a file that is missing is created, one that the project owns
-- stays, one that the generator owns is replaced.
abbrev pub rendered : String × PlannedFile → Option String → Option String
rendered (rel, file) none = some file.body
rendered (rel, file) (some current) =
    if str_eq current file.body
    then some current
    else if not file.owned
    then some current
    else some file.body

-- Whether a rendered file may take a path: nothing is there, or it changes nothing, or what is there
-- may be overwritten.
abbrev pub MayTake : String × PlannedFile → Option String → Type 0
MayTake (rel, file) v =
    (rendered (rel, file) v ≡ v)
    ⊎ ((v ≡ none)
        ⊎ ((current : String) × (v ≡ some current) × (can_overwrite_generated rel current ≡ true)))

changes_of-append : (es fs : List Entry) → changes_of (es ++ fs) ≡ changes_of es ++ changes_of fs
changes_of-append [] fs = refl
changes_of-append (kept rel ∷ es) fs = changes_of-append es fs
changes_of-append (replaced c ∷ es) fs = ap (λ cs. c ∷ cs) (changes_of-append es fs)
changes_of-append (added c ∷ es) fs = ap (λ cs. c ∷ cs) (changes_of-append es fs)

module _ (at_root : String → FilePath) (p : FilePath) (v : Option String) where
  abbrev At_item : String × PlannedFile → FilePath
  At_item x = at_root x.0

  abbrev EntryRound : String × PlannedFile → List Entry → Type 0
  EntryRound x es =
      Own (λ y. at_root y.0) rendered p v x (changes_of es) × (at_root x.0 ≡ p → MayTake x v)

  -- The content that was read is that of the path, if the path is the item's.
  abbrev Reads : String × PlannedFile → Option String → Type 0
  Reads x content = at_root x.0 ≡ p → content ≡ v

  pub planned_own :
      (c : SyncChange)
      → c.path ≡ p
      → planned (c ∷ []) p v ≡ (if c.removes then none else some c.body)
  planned_own c own =
      let yes : path_eq c.path p ≡ true = (path_eq_iff c.path p).1 own in rw yes refl

  stays :
      (x : String × PlannedFile) (current : String)
      → Reads x (some current)
      → rendered x (some current) ≡ some current
      → EntryRound x (kept x.0 ∷ [])
  stays x current found same =
      let still : at_root x.0 ≡ p → rendered x v ≡ v =
        λ own. subst (λ u. rendered x u ≡ u) (found own) same in
      ((inl refl, (λ own. sym (still own))), (λ own. inl (still own)))

  found-Round :
      (rel : String) (file : PlannedFile) (current : String) (same owned generated : Bool)
      → str_eq current file.body ≡ same
      → file.owned ≡ owned
      → can_overwrite_generated rel current ≡ generated
      → Reads (rel, file) (some current)
      → OnOk (EntryRound (rel, file)) (
          if same
          then ok (kept rel ∷ [])
          else if not owned
          then ok (kept rel ∷ [])
          else if not generated
          then err (not_generated rel)
          else ok (replaced (to_update at_root rel file.body current) ∷ []))
  found-Round rel file current true owned generated is_same is_owned is_generated found =
      stays (rel, file) current found (rw is_same refl)
  found-Round rel file current false false generated is_same is_owned is_generated found =
      stays (rel, file) current found (theirs is_owned)
    where
      theirs : file.owned ≡ false → rendered (rel, file) (some current) ≡ some current
      theirs e = ground (arith, is_same, e)
  found-Round rel file current false true false is_same is_owned is_generated found = tt
  found-Round rel file current false true true is_same is_owned is_generated found = (
    (
      inr (to_update at_root rel file.body current, refl, refl),
      (λ own.
          planned_own (to_update at_root rel file.body current) own
          ∙ subst (λ u. some file.body ≡ rendered (rel, file) u) (found own) ours),
    ),
    (λ own. inr (inr (current, sym (found own), is_generated))),
  )
    where
      ours : some file.body ≡ rendered (rel, file) (some current)
      ours = ground (arith, is_same, is_owned)

  entry-Round :
      (x : String × PlannedFile) (r : Result OsError String)
      → ((current : String) → r ≡ ok current → Reads x (some current))
      → (r ≡ err not_exist → Reads x none)
      → OnOk (EntryRound x) (plan_entry at_root x r)
  unfolding plan_entry
  entry-Round (rel, file) (err failure) found missing = tt
  entry-Round (rel, file) (err not_exist) found missing = (
    (
      inr (to_create at_root rel file.body, refl, refl),
      (λ own.
          planned_own (to_create at_root rel file.body) own
          ∙ ap (rendered (rel, file)) (missing refl own)),
    ),
    (λ own. inr (inl (sym (missing refl own)))),
  )
  entry-Round (rel, file) (ok current) found missing =
      found-Round rel file current _ _ _ refl refl refl (found current refl)

  -- What a read says of the path, where it is the path's own.
  pub read_own :
      (q : FilePath) (r : Result OsError String) (files : Store)
      → ReadSays q r files
      → files p ≡ v
      → ((current : String) → r ≡ ok current → q ≡ p → some current ≡ v)
        × (r ≡ err not_exist → q ≡ p → none ≡ v)
  read_own q (ok content) files says e = ((λ current is_ok own. cc), (λ is_err own. cc))
  read_own q (err not_exist) files says e = ((λ current is_ok own. cc), (λ is_err own. cc))
  read_own q (err failure) files says e = ((λ current is_ok own. cc), (λ is_err own. cc))

  plan_file-Round :
      (x : String × PlannedFile) (w : World)
      → At p v w
      → At p v (plan_file at_root x w).1 × OnOk (EntryRound x) (plan_file at_root x w).0
  unfolding plan_file
  plan_file-Round x w h =
      let (after, says) = read_file-At p v (at_root x.0) w h in
      let (found, missing) =
        read_own (at_root x.0) (read_file (at_root x.0) w).0 (read_file (at_root x.0) w).1.files
          says after.1 in
      (after, entry-Round x (read_file (at_root x.0) w).0 found missing)

  entries-Parts :
      (xs : List (String × PlannedFile)) (es : List Entry)
      → Parts EntryRound xs es
      → Parts (Own (λ y. at_root y.0) rendered p v) xs (changes_of es)
        × All (λ x. at_root x.0 ≡ p → MayTake x v) xs
  entries-Parts [] es none_found = (ap changes_of none_found, tt)
  entries-Parts (x ∷ xs) es (here, later, joined, (own, may), rest) =
      let (own_rest, may_rest) = entries-Parts xs later rest in
      (
        (
          changes_of here,
          changes_of later,
          sym (changes_of-append here later) ∙ ap changes_of joined,
          own,
          own_rest,
        ),
        (may, may_rest),
      )

  -- What a sync leaves at the path.
  abbrev pub Synced : List (String × PlannedFile) → Result SyncError SyncResult → Store → Type 0
  Synced plan (ok result) files =
      (files p ≡ wanted (λ x. at_root x.0) rendered p v plan)
      × All (λ x. at_root x.0 ≡ p → MayTake x v) plan
  Synced plan (err (planning e)) files = files p ≡ v
  Synced plan (err (verifying e)) files = ⊥
  Synced plan (err (committing es)) files = SaysRestored es → files p ≡ v

-- The sync of rendered files against its specification, at every path that the other processes leave
-- alone and that is no scratch file, whatever calls fail and whatever is written to other files: the
-- files of the plan standing at different paths, a sync that succeeds leaves there what the rendered
-- files ask for (a missing file is created, one that the plan does not own stays, one that it owns has
-- the rendered body; every other path is as it was), and a content that it replaced was one that
-- `canOverwriteGenerated` lets it replace, by a mark in the content or by the path alone; a sync that
-- fails leaves what was there, unless it says that a file was not put back.
pub sync_manifest-Synced :
    (at_root : String → FilePath) (plan : List (String × PlannedFile)) (p : FilePath)
    (v : Option String) (w : World)
    → DistinctAt (λ x. at_root x.0) plan
    → IsPlain p.base
    → Alone p w
    → w.files p ≡ v
    → Synced at_root p v plan
        (sync_manifest at_root plan w).0
        (sync_manifest at_root plan w).1.files
unfolding sync_manifest plan_manifest_sync
sync_manifest-Synced at_root plan p v w distinct isplain alone e =
    let (after, parts) =
      gather-Parts (plan_file at_root) (At p v) (EntryRound at_root p v)
        (plan_file-Round at_root p v) plan w (alone, e) in
    committed (plan_manifest_sync at_root plan w).0 (plan_manifest_sync at_root plan w).1 after
      parts
  where
    finished :
        (result : SyncResult) (r : Result (List CommitError) (Unit {0})) (files : Store)
        (cs : List SyncChange)
        → planned cs p v ≡ wanted (λ x. at_root x.0) rendered p v plan
        → All (λ x. at_root x.0 ≡ p → MayTake x v) plan
        → Commits cs p v r files
        → Synced at_root p v plan (commit_result result r) files
    finished result (ok _) files cs same may (now, _) = (now ∙ same, may)
    finished result (err es) files cs same may restored = restored

    committed :
        (r : Result PlanError (List Entry)) (w' : World)
        → At p v w'
        → OnOk (Parts (EntryRound at_root p v) plan) r
        → Synced at_root p v plan (commit_entries r w').0 (commit_entries r w').1.files
    committed (err reason) w' after parts = after.1
    committed (ok es) w' (alone', same) parts =
        let (rounds, may) = entries-Parts at_root p v plan es parts in
        let (distinct_changes, wants) =
          Rounds-planned (λ x. at_root x.0) rendered p v plan (changes_of es) distinct rounds in
        finished (result_of es) (commit (changes_of es) w').0 (commit (changes_of es) w').1.files
          (changes_of es) wants may
          (commit-Commits p v (changes_of es) w' isplain distinct_changes alone' same)
