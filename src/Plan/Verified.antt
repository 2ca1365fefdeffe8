-- ===== src/Plan/Verified.antt =====
-- What a commit that succeeds has made sure of before it: the files that the generators may have read
-- are the ones that were expected.
use roost_codegen.Prelude.{◌⊎◌, inl, inr, String, Bool, true, false, List, Option, some, ◌≡◌, refl}
use roost_codegen.Disk.{FilePath, World, Result, ok, err, OsError, not_exist, failure, read_file}
use roost_codegen.Sync.{SyncChange}
use roost_codegen.Sync.Rollback.{At, read_file-At}
use roost_codegen.Inputs.{Walked, ProjectInputs, VerifyError, sum_of, verify_project_inputs}
use roost_codegen.Inputs.Unchanged.{Reaches, IsInput, verify_project_inputs-Unchanged}
use roost_codegen.Plan.{
  PlanError, plan_staged, plan_staged_file, plan_staged_paths, plan_explicit_file,
  plan_explicit_staged_files, commit_verified, commit_changes, commit_explicit, commit_staged,
}
use roost_codegen.Plan.Gather.{OnOk, gather-Parts}

-- The planning leaves a spared path alone.
module _ (at_root at_stage : String → FilePath) (p : FilePath) (v : Option String) where
  plan_staged-At :
      (rel : String) (kept_on : Bool) (body : Result OsError String) (w : World)
      → At p v w
      → At p v (plan_staged at_root at_stage rel kept_on body w).1
  unfolding plan_staged
  plan_staged-At rel kept_on (ok body) w h = (read_file-At p v (at_root rel) w h).0
  plan_staged-At rel true (err not_exist) w h = h
  plan_staged-At rel false (err not_exist) w h = (read_file-At p v (at_root rel) w h).0
  plan_staged-At rel kept_on (err failure) w h = h

  anything : {A : Type 0} (r : Result PlanError A) → OnOk (λ _. Unit {0}) r
  anything (ok a) = tt
  anything (err e) = tt

  plan_staged_file-At :
      (x : String × Bool) (w : World)
      → At p v w
      → At p v (plan_staged_file at_root at_stage x w).1
        × OnOk (λ _. Unit {0}) (plan_staged_file at_root at_stage x w).0
  unfolding plan_staged_file
  plan_staged_file-At (rel, kept_on) w h = (
    plan_staged-At rel kept_on (read_file (at_stage rel) w).0 (read_file (at_stage rel) w).1
        (read_file-At p v (at_stage rel) w h).0,
    anything (plan_staged_file at_root at_stage (rel, kept_on) w).0,
  )

  plan_explicit_file-At :
      (rel : String) (w : World)
      → At p v w
      → At p v (plan_explicit_file at_root at_stage rel w).1
        × OnOk (λ _. Unit {0}) (plan_explicit_file at_root at_stage rel w).0
  unfolding plan_explicit_file
  plan_explicit_file-At rel w h = (
    (read_file-At p v (at_root rel) (read_file (at_stage rel) w).1
        (read_file-At p v (at_stage rel) w h).0).0,
    anything (plan_explicit_file at_root at_stage rel w).0,
  )

module _ (inputs : ProjectInputs) (file : Walked) (body : String) (input : IsInput inputs file body)
    (reached : Reaches inputs.walked file) where
  commit_changes-Verified :
      (r : Result PlanError (List SyncChange)) (w : World)
      → At file.path (some body) w
      → (commit_changes inputs r w).0 ≡ ok tt
      → sum_of inputs.zero_sum inputs.expected file.rel ≡ inputs.sum256 body
  commit_changes-Verified (err e) w at_file done = cc
  commit_changes-Verified (ok cs) w at_file done =
      verify_project_inputs-Unchanged inputs file body input w reached at_file
        (passed (verify_project_inputs inputs w).0 (verify_project_inputs inputs w).1 done)
    where
      passed :
          (r : Result VerifyError (Unit {0})) (w' : World)
          → (commit_verified cs r w').0 ≡ ok tt
          → r ≡ ok tt
      passed (ok _) w' h = refl
      passed (err e) w' h = cc

  -- Where the commit of a staging directory or that of named files succeeds, a file that the
  -- generators may read, that the walk of the verification reaches (and its relative path no later
  -- time), and that the other processes leave alone, has a content of the sum that is expected of it.
  pub commits-Verified :
      (at_root at_stage : String → FilePath) (ordered : List (String × Bool)) (rels : List String)
      (w : World)
      → At file.path (some body) w
      → ((commit_staged inputs at_root at_stage ordered w).0 ≡ ok tt)
        ⊎ ((commit_explicit inputs at_root at_stage rels w).0 ≡ ok tt)
      → sum_of inputs.zero_sum inputs.expected file.rel ≡ inputs.sum256 body
  unfolding commit_staged commit_explicit plan_staged_paths plan_explicit_staged_files
  commits-Verified at_root at_stage ordered rels w at_file (inl done) =
      commit_changes-Verified (plan_staged_paths at_root at_stage ordered w).0
        (plan_staged_paths at_root at_stage ordered w).1
        (gather-Parts (plan_staged_file at_root at_stage) (At file.path (some body))
          (λ _ _. Unit {0}) (plan_staged_file-At at_root at_stage file.path (some body)) ordered w
          at_file).0
        done
  commits-Verified at_root at_stage ordered rels w at_file (inr done) =
      commit_changes-Verified (plan_explicit_staged_files at_root at_stage rels w).0
        (plan_explicit_staged_files at_root at_stage rels w).1
        (gather-Parts (plan_explicit_file at_root at_stage) (At file.path (some body))
          (λ _ _. Unit {0}) (plan_explicit_file-At at_root at_stage file.path (some body)) rels w
          at_file).0
        done
