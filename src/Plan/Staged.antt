-- ===== src/Plan/Staged.antt =====
-- What the commit of a staging directory makes of one path, whatever calls fail and whatever is
-- written to other files meanwhile.
use roost_codegen.Prelude.{
  String, Bool, true, false, List, [], ◌∷◌, Option, none, some, ◌≡◌, ◌⊎◌, inl, inr, refl, sym, ap,
  ◌∙◌, str_eq, str_eq_iff, Bool-cases,
}
use roost_codegen.Disk.{
  FilePath, Store, World, Result, ok, err, OsError, not_exist, failure, read_file,
}
use roost_codegen.Disk.Names.{IsPlain, Alone}
use roost_codegen.Sync.{SyncChange, CommitError, commit}
use roost_codegen.Sync.Rollback.{At, read_file-At}
use roost_codegen.Sync.Commit.{planned, Commits, SaysRestored, DistinctPaths, commit-Commits}
use roost_codegen.Inputs.{ProjectInputs, VerifyError, verify_project_inputs}
use roost_codegen.Inputs.Spared.{verify_project_inputs-At}
use roost_codegen.Plan.{
  PlanError, to_create, to_update, to_remove, mirror_found, mirror_missing, plan_update,
  plan_removal, plan_staged, plan_staged_file, plan_staged_paths, SyncError, planning, verifying,
  committing, commit_changes, commit_verified, commit_outcome, commit_staged,
}
use roost_codegen.Plan.Gather.{OnOk, Parts, gather-Parts, Own, wanted, DistinctAt, Rounds-planned}
use roost_codegen.Plan.Manifest.{planned_own, read_own}

-- What the staging directory asks for, where it holds `u` for the path.
abbrev pub mirrored : Option String → Bool → Option String → Option String
mirrored (some body) kept_on v = some body
mirrored none true v = v
mirrored none false v = none

module _ (at_root : String → FilePath) (p : FilePath) (v : Option String) where
  abbrev RootRound : String → Option String → List SyncChange → Type 0
  RootRound rel want cs =
      (([] ≡ cs) ⊎ ((c : SyncChange) × (c ∷ [] ≡ cs) × (c.path ≡ at_root rel)))
      × (at_root rel ≡ p → planned cs p v ≡ want)

  mirror_found-Round :
      (rel body : String) (before : Option String)
      → (at_root rel ≡ p → before ≡ v)
      → RootRound rel (some body) (mirror_found at_root rel body before)
  mirror_found-Round rel body none here = (
    inr (to_create at_root rel body, refl, refl),
    (λ own. planned_own at_root p v (to_create at_root rel body) own),
  )
  mirror_found-Round rel body (some before) here = elim (Bool-cases (str_eq before body)) [
    | inl same ↦
        let equal : before ≡ body = (str_eq_iff before body).0 same in
        rw same (inl refl, (λ own. sym (here own) ∙ ap (λ s. some s) equal))
    | inr differs ↦ rw differs (
      inr (to_update at_root rel body before, refl, refl),
      (λ own. planned_own at_root p v (to_update at_root rel body before) own),
    )
  ]

  mirror_missing-Round :
      (rel : String) (before : Option String)
      → (at_root rel ≡ p → before ≡ v)
      → RootRound rel none (mirror_missing at_root rel before)
  mirror_missing-Round rel none here = (inl refl, (λ own. sym (here own)))
  mirror_missing-Round rel (some before) here = (
    inr (to_remove at_root rel before, refl, refl),
    (λ own. planned_own at_root p v (to_remove at_root rel before) own),
  )

-- The path below the project's root, and the one that it is staged at.
module _ (at_root at_stage : String → FilePath) (p s : FilePath) (v u : Option String)
    (paired : (rel : String) → at_root rel ≡ p → at_stage rel ≡ s) where
  abbrev Both : World → Type 0
  Both w = At p v w × At s u w

  abbrev Saw : FilePath → Option String → FilePath → Result OsError String → Type 0
  Saw q o at r =
      ((current : String) → r ≡ ok current → at ≡ q → some current ≡ o)
      × (r ≡ err not_exist → at ≡ q → none ≡ o)

  read-Both :
      (q : FilePath) (w : World)
      → Both w
      → Both (read_file q w).1 × Saw p v q (read_file q w).0 × Saw s u q (read_file q w).0
  read-Both q w (at_p, at_s) =
      let (after_p, says) = read_file-At p v q w at_p in
      let (after_s, _) = read_file-At s u q w at_s in
      (
        (after_p, after_s),
        read_own at_root p v q (read_file q w).0 (read_file q w).1.files says after_p.1,
        read_own at_root s u q (read_file q w).0 (read_file q w).1.files says after_s.1,
      )

  -- What the staging directory asks for the path of an item, in the words of its own content.
  abbrev StagedRound : String → Bool → List SyncChange → Type 0
  StagedRound rel kept_on cs = RootRound at_root p v rel (mirrored u kept_on v) cs

  asks :
      (rel : String) (kept_on : Bool) (o : Option String) (cs : List SyncChange)
      → (at_root rel ≡ p → o ≡ u)
      → RootRound at_root p v rel (mirrored o kept_on v) cs
      → StagedRound rel kept_on cs
  asks rel kept_on o cs is_u (shape, plans) =
      (shape, (λ own. plans own ∙ ap (λ x. mirrored x kept_on v) (is_u own)))

  update-Round :
      (rel body : String) (kept_on : Bool) (r : Result OsError String)
      → (at_root rel ≡ p → some body ≡ u)
      → Saw p v (at_root rel) r
      → OnOk (StagedRound rel kept_on) (plan_update at_root at_stage rel body r)
  update-Round rel body kept_on (ok before) is_u (found, missing) =
      asks rel kept_on (some body) (mirror_found at_root rel body (some before)) is_u
        (mirror_found-Round at_root p v rel body (some before) (found before refl))
  update-Round rel body kept_on (err not_exist) is_u (found, missing) =
      asks rel kept_on (some body) (mirror_found at_root rel body none) is_u
        (mirror_found-Round at_root p v rel body none (missing refl))
  update-Round rel body kept_on (err failure) is_u saw = tt

  removal-Round :
      (rel : String) (r : Result OsError String)
      → (at_root rel ≡ p → none ≡ u)
      → Saw p v (at_root rel) r
      → OnOk (StagedRound rel false) (plan_removal at_root at_stage rel r)
  removal-Round rel (ok before) is_u (found, missing) =
      asks rel false none (to_remove at_root rel before ∷ []) is_u
        (mirror_missing-Round at_root p v rel (some before) (found before refl))
  removal-Round rel (err e) is_u saw = tt

  staged-Round :
      (rel : String) (kept_on : Bool) (body : Result OsError String) (w : World)
      → Both w
      → Saw s u (at_stage rel) body
      → Both (plan_staged at_root at_stage rel kept_on body w).1
        × OnOk (StagedRound rel kept_on) (plan_staged at_root at_stage rel kept_on body w).0
  unfolding plan_staged
  staged-Round rel kept_on (ok body) w both (found, missing) =
      let (after, saw, _) = read-Both (at_root rel) w both in
      (
        after,
        update-Round rel body kept_on (read_file (at_root rel) w).0
            (λ own. found body refl (paired rel own)) saw,
      )
  staged-Round rel true (err not_exist) w both (found, missing) =
      (both, asks rel true none [] (λ own. missing refl (paired rel own)) (inl refl, (λ own. refl)))
  staged-Round rel false (err not_exist) w both (found, missing) =
      let (after, saw, _) = read-Both (at_root rel) w both in
      (
        after,
        removal-Round rel (read_file (at_root rel) w).0 (λ own. missing refl (paired rel own)) saw,
      )
  staged-Round rel kept_on (err failure) w both saw = (both, tt)

  plan_staged_file-Round :
      (x : String × Bool) (w : World)
      → Both w
      → Both (plan_staged_file at_root at_stage x w).1
        × OnOk (StagedRound x.0 x.1) (plan_staged_file at_root at_stage x w).0
  unfolding plan_staged_file
  plan_staged_file-Round (rel, kept_on) w both =
      let (after, _, saw) = read-Both (at_stage rel) w both in
      staged-Round rel kept_on (read_file (at_stage rel) w).0 (read_file (at_stage rel) w).1 after
        saw

module _ (p : FilePath) (v : Option String) where
  -- What a commit leaves at the path: what is wanted there, or, on failure, what was there.
  abbrev pub Mirrors : Option String → Result SyncError (Unit {0}) → Store → Type 0
  Mirrors want (ok _) files = files p ≡ want
  Mirrors want (err (planning e)) files = files p ≡ v
  Mirrors want (err (verifying e)) files = files p ≡ v
  Mirrors want (err (committing es)) files = SaysRestored es → files p ≡ v

  verified-Mirrors :
      (want : Option String) (cs : List SyncChange) (r : Result VerifyError (Unit {0})) (w : World)
      → IsPlain p.base
      → DistinctPaths cs
      → planned cs p v ≡ want
      → At p v w
      → Mirrors want (commit_verified cs r w).0 (commit_verified cs r w).1.files
  verified-Mirrors want cs (err e) w isplain distinct wants (_, same) = same
  verified-Mirrors want cs (ok _) w isplain distinct wants (alone, same) =
      finished (commit cs w).0 (commit cs w).1.files
        (commit-Commits p v cs w isplain distinct alone same)
    where
      finished :
          (r : Result (List CommitError) (Unit {0})) (files : Store)
          → Commits cs p v r files
          → Mirrors want (commit_outcome r) files
      finished (ok _) files (now, _) = now ∙ wants
      finished (err es) files restored = restored

  committed-Mirrors :
      {X : Type 0} (at : X → FilePath) (want : X → Option String → Option String) (xs : List X)
      (inputs : ProjectInputs) (r : Result PlanError (List SyncChange)) (w : World)
      → DistinctAt at xs
      → IsPlain p.base
      → At p v w
      → OnOk (Parts (Own at want p v) xs) r
      → Mirrors
          (wanted at want p v xs)
          (commit_changes inputs r w).0
          (commit_changes inputs r w).1.files
  committed-Mirrors at want xs inputs (err e) w distinct isplain (_, same) parts = same
  committed-Mirrors at want xs inputs (ok cs) w distinct isplain at_p parts =
      let (distinct_changes, wants) = Rounds-planned at want p v xs cs distinct parts in
      verified-Mirrors (wanted at want p v xs) cs (verify_project_inputs inputs w).0
        (verify_project_inputs inputs w).1 isplain distinct_changes wants
        (verify_project_inputs-At p v inputs w at_p)

-- The commit of a staging directory, at every path that the other processes leave alone, and leave
-- alone where it is staged, and that is no scratch file; whatever calls fail and whatever is written
-- to other files, the inputs being verified between the plan and the commit. The paths of the items
-- being different, and the path staged at `s` alone: a commit that succeeds leaves there what is
-- staged at `s`, and nothing where nothing is staged, except that a path that is kept on
-- (`paths[rel]`) and not staged, or that is no item's, is as it was; one that fails leaves what was
-- there, unless it says that a file was not put back.
pub commit_staged-Mirrors :
    (inputs : ProjectInputs) (at_root at_stage : String → FilePath) (p s : FilePath)
    (v u : Option String) (ordered : List (String × Bool)) (w : World)
    → ((rel : String) → at_root rel ≡ p → at_stage rel ≡ s)
    → DistinctAt (λ x. at_root x.0) ordered
    → IsPlain p.base
    → Alone p w × (w.files p ≡ v)
    → Alone s w × (w.files s ≡ u)
    → Mirrors p v
        (wanted (λ x. at_root x.0) (λ x. mirrored u x.1) p v ordered)
        (commit_staged inputs at_root at_stage ordered w).0
        (commit_staged inputs at_root at_stage ordered w).1.files
unfolding commit_staged plan_staged_paths
commit_staged-Mirrors inputs at_root at_stage p s v u ordered w paired distinct isplain at_p at_s =
    let (after, parts) =
      gather-Parts (plan_staged_file at_root at_stage) (Both at_root at_stage p s v u paired)
        (λ x. StagedRound at_root at_stage p s v u paired x.0 x.1)
        (plan_staged_file-Round at_root at_stage p s v u paired) ordered w (at_p, at_s) in
    committed-Mirrors p v (λ x. at_root x.0) (λ x. mirrored u x.1) ordered inputs
      (plan_staged_paths at_root at_stage ordered w).0
      (plan_staged_paths at_root at_stage ordered w).1 distinct isplain after.0 parts
