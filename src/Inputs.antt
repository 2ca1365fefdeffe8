-- ===== src/Inputs.antt =====
-- internal/roost/generate.go: `verifyProjectInputs`, the guard before a commit that no file has been
-- changed which the generators may have read. The regular files that the walk over the project reaches
-- are an argument, in their order, and so are the hash function of Go's crypto/sha256 and the sum of
-- zeros that a map answers for a missing key.
pub mod Spared
pub mod Same
pub mod Unchanged
use roost_codegen.Prelude.{
  String, Bool, false, List, [], ◌∷◌, ◌++◌, str_eq, not, ◌&&◌, ◌||◌, if◌then◌else◌, contains,
}
use roost_codegen.Prelude.Text.{codes, contains_text, has_suffix}
use roost_codegen.Prelude.Sort.{sort_strings}
use roost_codegen.Disk.{FilePath, Io, Result, ok, err, OsError, read_file}
use roost_codegen.Disk.Rules.{◌>>=◌}

pub record PlannedFile : Type 0 where
  pub body : String
  pub owned : Bool

-- A regular file that the walk reaches: its path below the root and its whole path, both with slashes.
pub record Walked : Type 0 where
  pub rel : String
  pub path : FilePath
  pub slashed : String

-- The sums of the files that the generators may read.
abbrev pub Snapshot : Type 0
Snapshot = List (String × String)

pub record ProjectInputs : Type 0 where
  pub plan : List (String × PlannedFile)
  pub sum256 : String → String
  pub zero_sum : String
  pub walked : List Walked
  pub expected : Snapshot

pub data VerifyError : Type 0 where
  unverified : OsError → VerifyError
  inputs_changed : (rels : List String) → VerifyError

-- `owned[rel]`.
unfoldable pub is_owned_path : List (String × PlannedFile) → String → Bool
is_owned_path [] rel = false
is_owned_path ((r, file) ∷ plan) rel = (str_eq r rel && file.owned) || is_owned_path plan rel

abbrev pub is_skipped : List (String × PlannedFile) → String → Bool
is_skipped plan rel = str_eq rel "go.mod" || (str_eq rel "go.sum" || is_owned_path plan rel)

unfoldable pub is_generated_data : String → Bool
is_generated_data slashed =
    (contains_text (codes slashed) (codes "/configs/data/")
      && has_suffix (codes slashed) (codes ".json"))
    || contains_text (codes slashed) (codes "/docs/generated/")

abbrev pub is_generated : String → String → Bool
is_generated slashed raw =
    contains_text (codes raw) (codes "Code generated") || is_generated_data slashed

-- What is noted of a file that was read.
abbrev pub note_input : (String → String) → Walked → Snapshot → String → Snapshot
note_input sum256 file out raw =
    if is_generated file.slashed raw then out else (file.rel, sum256 raw) ∷ out

unfoldable pub snapshot_file : ProjectInputs → Walked → Snapshot → Io OsError Snapshot
unfolding is_owned_path is_generated_data ◌>>=◌
snapshot_file inputs file out =
    if is_skipped inputs.plan file.rel
    then (λ w. (ok out, w))
    else (read_file file.path >>= λ raw. λ w. (ok (note_input inputs.sum256 file out raw), w))

-- The walk of `snapshotProjectInputs`; the entry written last stands first, where a lookup finds it.
unfoldable pub snapshot_from : ProjectInputs → Snapshot → List Walked → Io OsError Snapshot
unfolding snapshot_file ◌>>=◌
snapshot_from inputs out [] w = (ok out, w)
snapshot_from inputs out (file ∷ files) w =
    (snapshot_file inputs file out >>= λ noted. snapshot_from inputs noted files) w

-- `before[p]`, the sum of zeros where there is none.
unfoldable pub sum_of : String → Snapshot → String → String
sum_of zero_sum [] rel = zero_sum
sum_of zero_sum ((r, sum) ∷ snapshot) rel =
    if str_eq r rel then sum else sum_of zero_sum snapshot rel

-- The keys of a snapshot, joined to a set of keys.
unfoldable pub see_keys : List String → Snapshot → List String
unfolding contains
see_keys seen [] = seen
see_keys seen ((rel, sum) ∷ snapshot) =
    see_keys (if contains seen rel then seen else seen ++ rel ∷ []) snapshot

module _ (zero_sum : String) (before after : Snapshot) where
  abbrev pub differs : String → Bool
  differs rel = not (str_eq (sum_of zero_sum before rel) (sum_of zero_sum after rel))

  unfoldable pub differing : List String → List String
  unfolding sum_of
  differing [] = []
  differing (rel ∷ rels) = let rest = differing rels in if differs rel then rel ∷ rest else rest

  unfoldable pub diff_snapshot : List String
  unfolding differing see_keys
  diff_snapshot = sort_strings (differing (see_keys (see_keys [] before) after))

abbrev pub judge_changed : List String → Result VerifyError (Unit {0})
judge_changed [] = ok tt
judge_changed (rel ∷ rels) = err (inputs_changed (rel ∷ rels))

abbrev pub judge_snapshot : ProjectInputs → Result OsError Snapshot → Result VerifyError (Unit {0})
judge_snapshot inputs (err e) = err (unverified e)
judge_snapshot inputs (ok current) =
    judge_changed (diff_snapshot inputs.zero_sum inputs.expected current)

unfoldable pub verify_project_inputs : ProjectInputs → Io VerifyError (Unit {0})
unfolding snapshot_from diff_snapshot
verify_project_inputs inputs w =
    let (r, w') = snapshot_from inputs [] inputs.walked w in (judge_snapshot inputs r, w')
