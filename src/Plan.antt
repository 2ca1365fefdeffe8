-- ===== src/Plan.antt =====
-- internal/roost/project.go, the plans of changes that are committed: `planManifestSync`,
-- `planExplicitStagedFiles`, the last loop of `planStagedProjectCommit`, `mergeSyncChanges` and
-- `mergeStagedChangesIntoResult`; and, from dependencies.go too, the commits of plans behind the
-- verification of the inputs. The files that the templates render are an argument, as are the
-- two functions that put a relative path below the project's root and below the staging directory
-- (`filepath.Join`).
pub mod Gather
pub mod Merge
pub mod Manifest
pub mod Staged
pub mod Verified
pub mod Tests
use roost_codegen.Prelude.{
  String, Bool, true, false, List, [], ◌∷◌, ◌++◌, Option, none, some, str_eq, not, ◌&&◌, ◌||◌,
  if◌then◌else◌, contains,
}
use roost_codegen.Prelude.Text.{codes, contains_text, has_prefix, has_suffix}
use roost_codegen.Prelude.Sort.{sort_strings}
use roost_codegen.Disk.{
  FilePath, World, Io, Result, ok, err, OsError, not_exist, failure, read_file, path_eq,
}
use roost_codegen.Disk.Rules.{◌>>=◌}
use roost_codegen.Sync.{SyncChange, CommitError, commit}
pub use roost_codegen.Inputs.{PlannedFile}
use roost_codegen.Inputs.{ProjectInputs, VerifyError, verify_project_inputs}

pub record SyncResult : Type 0 where
  pub created : List String
  pub updated : List String
  pub removed : List String
  pub unchanged : List String

pub data PlanError : Type 0 where
  not_generated : (rel : String) → PlanError
  unreadable : OsError → PlanError

abbrev pub text_has : String → String → Bool
text_has s sub = contains_text (codes s) (codes sub)

unfoldable pub can_overwrite_generated : String → String → Bool
can_overwrite_generated rel current =
    text_has current "Code generated by roost-codegen"
    || (str_eq rel "Dockerfile"
        && (text_has current "ARG GO_VERSION=1.25"
            && text_has current "gcr.io/distroless/static-debian12:nonroot"))
    || has_prefix (codes rel) (codes ".github/")
    || has_prefix (codes rel) (codes "deploy/dev/")
    || has_prefix (codes rel) (codes "deploy/shell/")
    || has_prefix (codes rel) (codes "deploy/docker/")
    || has_prefix (codes rel) (codes "deploy/k8s/")

-- What one round of a planning loop finds is joined to what the later ones find.
unfoldable pub gather :
    {X Y : Type 0} → (X → Io PlanError (List Y)) → List X → Io PlanError (List Y)
gather step [] w = (ok [], w)
gather step (x ∷ xs) w = (step x >>= λ ys. gather step xs >>= λ zs. λ w'. (ok (ys ++ zs), w')) w

-- One round of `planManifestSync`: what is added to the result, with the change.
pub data Entry : Type 0 where
  kept : (rel : String) → Entry
  replaced : SyncChange → Entry
  added : SyncChange → Entry

abbrev pub changes_of : List Entry → List SyncChange
changes_of [] = []
changes_of (kept rel ∷ es) = changes_of es
changes_of (replaced c ∷ es) = c ∷ changes_of es
changes_of (added c ∷ es) = c ∷ changes_of es

abbrev pub result_of : List Entry → SyncResult
result_of [] = record { created = []; updated = []; removed = []; unchanged = [] }
result_of (kept rel ∷ es) = record (result_of es) { unchanged = rel ∷ (result_of es).unchanged }
result_of (replaced c ∷ es) = record (result_of es) { updated = c.rel ∷ (result_of es).updated }
result_of (added c ∷ es) = record (result_of es) { created = c.rel ∷ (result_of es).created }

module _ (at_root : String → FilePath) where
  abbrev pub to_create : String → String → SyncChange
  to_create rel body = record {
    rel = rel;
    path = at_root rel;
    body = body;
    before = "";
    existed = false;
    removes = false;
  }

  abbrev pub to_update : String → String → String → SyncChange
  to_update rel body before = record {
    rel = rel;
    path = at_root rel;
    body = body;
    before = before;
    existed = true;
    removes = false;
  }

  abbrev pub to_remove : String → String → SyncChange
  to_remove rel before = record {
    rel = rel;
    path = at_root rel;
    body = "";
    before = before;
    existed = true;
    removes = true;
  }

  -- The switch of `planManifestSync` on what it read.
  unfoldable pub plan_entry :
      String × PlannedFile → Result OsError String → Result PlanError (List Entry)
  plan_entry (rel, file) (ok current) =
      if str_eq current file.body
      then ok (kept rel ∷ [])
      else if not file.owned
      then ok (kept rel ∷ [])
      else if not (can_overwrite_generated rel current)
      then err (not_generated rel)
      else ok (replaced (to_update rel file.body current) ∷ [])
  plan_entry (rel, file) (err not_exist) = ok (added (to_create rel file.body) ∷ [])
  plan_entry (rel, file) (err failure) = err (unreadable failure)

  unfoldable pub plan_file : String × PlannedFile → Io PlanError (List Entry)
  plan_file item w = let (r, w') = read_file (at_root item.0) w in (plan_entry item r, w')

  -- `planManifestSync`, on the rendered files in the order of their paths.
  unfoldable pub plan_manifest_sync : List (String × PlannedFile) → Io PlanError (List Entry)
  plan_manifest_sync plan = gather plan_file plan

  -- The switch on the staged file, where the project's own is there or not.
  abbrev pub mirror_found : String → String → Option String → List SyncChange
  mirror_found rel body none = to_create rel body ∷ []
  mirror_found rel body (some before) =
      if str_eq before body then [] else to_update rel body before ∷ []

  abbrev pub mirror_missing : String → Option String → List SyncChange
  mirror_missing rel none = []
  mirror_missing rel (some before) = to_remove rel before ∷ []

  -- The switch of `planExplicitStagedFiles`.
  unfoldable pub plan_explicit :
      String → Result OsError String → Result OsError String → Result PlanError (List SyncChange)
  plan_explicit rel (ok body) (ok before) = ok (mirror_found rel body (some before))
  plan_explicit rel (ok body) (err not_exist) = ok (mirror_found rel body none)
  plan_explicit rel (ok body) (err failure) = err (unreadable failure)
  plan_explicit rel (err not_exist) (ok before) = ok (mirror_missing rel (some before))
  plan_explicit rel (err not_exist) (err not_exist) = ok (mirror_missing rel none)
  plan_explicit rel (err not_exist) (err failure) = err (unreadable not_exist)
  plan_explicit rel (err failure) _ = err (unreadable failure)

  module _ (at_stage : String → FilePath) where
    unfoldable pub plan_explicit_file : String → Io PlanError (List SyncChange)
    plan_explicit_file rel w =
        let (body, w1) = read_file (at_stage rel) w in
        let (before, w2) = read_file (at_root rel) w1 in (plan_explicit rel body before, w2)

    unfoldable pub plan_explicit_staged_files : List String → Io PlanError (List SyncChange)
    plan_explicit_staged_files rels = gather plan_explicit_file rels

    -- The rounds of the last loop of `planStagedProjectCommit`, behind the read of the staged file;
    -- `kept_on` is `paths[rel]`, false where the file may be removed.
    abbrev pub plan_update :
        String → String → Result OsError String → Result PlanError (List SyncChange)
    plan_update rel body (ok before) = ok (mirror_found rel body (some before))
    plan_update rel body (err not_exist) = ok (mirror_found rel body none)
    plan_update rel body (err failure) = err (unreadable failure)

    abbrev pub plan_removal : String → Result OsError String → Result PlanError (List SyncChange)
    plan_removal rel (ok before) = ok (to_remove rel before ∷ [])
    plan_removal rel (err e) = err (unreadable e)

    unfoldable pub plan_staged :
        String → Bool → Result OsError String → Io PlanError (List SyncChange)
    plan_staged rel kept_on (ok body) w =
        let (before, w') = read_file (at_root rel) w in (plan_update rel body before, w')
    plan_staged rel true (err not_exist) w = (ok [], w)
    plan_staged rel false (err not_exist) w =
        let (before, w') = read_file (at_root rel) w in (plan_removal rel before, w')
    plan_staged rel kept_on (err failure) w = (err (unreadable failure), w)

    unfoldable pub plan_staged_file : String × Bool → Io PlanError (List SyncChange)
    plan_staged_file (rel, kept_on) w =
        let (body, w') = read_file (at_stage rel) w in plan_staged rel kept_on body w'

    unfoldable pub plan_staged_paths : List (String × Bool) → Io PlanError (List SyncChange)
    plan_staged_paths ordered = gather plan_staged_file ordered

-- The ways in which a sync fails.
pub data SyncError : Type 0 where
  planning : PlanError → SyncError
  verifying : VerifyError → SyncError
  committing : List CommitError → SyncError

abbrev pub commit_result :
    SyncResult → Result (List CommitError) (Unit {0}) → Result SyncError SyncResult
commit_result result (ok _) = ok result
commit_result result (err es) = err (committing es)

abbrev pub commit_outcome : Result (List CommitError) (Unit {0}) → Result SyncError (Unit {0})
commit_outcome (ok _) = ok tt
commit_outcome (err es) = err (committing es)

abbrev pub commit_entries : Result PlanError (List Entry) → Io SyncError SyncResult
commit_entries (err e) w = (err (planning e), w)
commit_entries (ok es) w =
    let (r, w') = commit (changes_of es) w in (commit_result (result_of es) r, w')

unfoldable pub sync_manifest :
    (String → FilePath) → List (String × PlannedFile) → Io SyncError SyncResult
sync_manifest at_root plan w =
    let (r, w') = plan_manifest_sync at_root plan w in commit_entries r w'

-- The guard on the inputs, which stands between the plan and the commit.
abbrev pub commit_verified :
    List SyncChange → Result VerifyError (Unit {0}) → Io SyncError (Unit {0})
commit_verified cs (err e) w = (err (verifying e), w)
commit_verified cs (ok _) w = let (r, w') = commit cs w in (commit_outcome r, w')

abbrev pub commit_changes :
    ProjectInputs → Result PlanError (List SyncChange) → Io SyncError (Unit {0})
commit_changes inputs (err e) w = (err (planning e), w)
commit_changes inputs (ok cs) w =
    let (checked, w') = verify_project_inputs inputs w in commit_verified cs checked w'

-- The last steps of `updateFrameworkDependenciesTransactional`, which names "go.mod" and "go.sum"; and
-- those of `SyncProject`, with the paths that the walks have found. What `SyncProject` reports, the
-- result into which the changes are merged, is `merge_staged_changes` below.
module _ (inputs : ProjectInputs) (at_root at_stage : String → FilePath) where
  unfoldable pub commit_explicit : List String → Io SyncError (Unit {0})
  commit_explicit rels w =
      let (r, w') = plan_explicit_staged_files at_root at_stage rels w in commit_changes inputs r w'

  unfoldable pub commit_staged : List (String × Bool) → Io SyncError (Unit {0})
  commit_staged ordered w =
      let (r, w') = plan_staged_paths at_root at_stage ordered w in commit_changes inputs r w'

abbrev pub concat : {A : Type 0} → List (List A) → List A
concat [] = []
concat (xs ∷ xss) = xs ++ concat xss

-- `mergeSyncChanges`, on the groups in sequence; the map `byPath` is a list in some order.
abbrev pub bool_eq : Bool → Bool → Bool
bool_eq a b = if a then b else not b

abbrev pub same_change : SyncChange → SyncChange → Bool
same_change c d =
    path_eq c.path d.path
    && (bool_eq c.existed d.existed
        && (bool_eq c.removes d.removes && (str_eq c.before d.before && str_eq c.body d.body)))

unfoldable pub find_change : String → List SyncChange → Option SyncChange
find_change rel [] = none
find_change rel (c ∷ changes) = if str_eq c.rel rel then some c else find_change rel changes

unfoldable pub merge_changes : List SyncChange → List SyncChange → Result String (List SyncChange)
merge_changes merged [] = ok merged
merge_changes merged (c ∷ changes) = elim (find_change c.rel merged) [
  | some existing ↦ elim (same_change existing c) [
    | true ↦ merge_changes merged changes
    | false ↦ err c.rel
  ]
  | none ↦ merge_changes (merged ++ c ∷ []) changes
]

unfoldable pub merge_sync_changes : List (List SyncChange) → Result String (List SyncChange)
merge_sync_changes groups = merge_changes [] (concat groups)

-- `mergeStagedChangesIntoResult`.
unfoldable pub drop_first : String → List String → List String
drop_first rel [] = []
drop_first rel (s ∷ ss) = if str_eq s rel then ss else s ∷ drop_first rel ss

abbrev pub is_known : SyncResult → String → Bool
is_known r rel = contains r.created rel || contains r.updated rel || contains r.removed rel

abbrev pub add_change : Bool → SyncChange → SyncResult → SyncResult
add_change known c r =
    if known
    then r
    else if c.removes
    then record r { removed = r.removed ++ c.rel ∷ [] }
    else if c.existed
    then record r { updated = r.updated ++ c.rel ∷ [] }
    else record r { created = r.created ++ c.rel ∷ [] }

unfoldable pub merge_staged : (String → Bool) → List SyncChange → SyncResult → SyncResult
merge_staged known [] r = r
merge_staged known (c ∷ changes) r =
    merge_staged known changes
      (add_change (known c.rel) c (record r { unchanged = drop_first c.rel r.unchanged }))

abbrev pub sorted : SyncResult → SyncResult
sorted r = record r {
  created = sort_strings r.created;
  updated = sort_strings r.updated;
  removed = sort_strings r.removed;
}

unfoldable pub merge_staged_changes : SyncResult → List SyncChange → SyncResult
merge_staged_changes r changes = sorted (merge_staged (is_known r) changes r)
