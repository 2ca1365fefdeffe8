-- ===== src/Plan/Tests.antt =====
-- Runs of the planners, and the theorems at concrete worlds.
use roost_codegen.Prelude.{
  String, Bool, contains, true, false, List, [], ◌∷◌, none, some, ◌≡◌, ◌≢◌, ◌↔◌, inl, inr, refl, ap,
  arith, str_eq_iff, if◌then◌else◌,
}
use roost_codegen.Prelude.Text.{contains_text, cut_prefix, has_suffix, text_eq}
use roost_codegen.Prelude.Sort.{sort_strings, insert, text_leb}
use roost_codegen.Disk.{
  FilePath, plain, path_eq, Store, World, ok, err, read_file, remove, pass, create_temp, write,
  stat, rename,
}
use roost_codegen.Disk.Rules.{◌>>=◌}
use roost_codegen.Sync.{
  handle, lift, deferred, fill, write_atomic, SyncChange, judge, verify_current, apply_write,
  apply_remove, apply_change, commit_from, commit,
}
use roost_codegen.Inputs.{
  Walked, ProjectInputs, inputs_changed, verify_project_inputs, snapshot_from, snapshot_file,
  is_owned_path, is_generated_data, diff_snapshot, differing, see_keys, sum_of,
}
use roost_codegen.Plan.{
  PlannedFile, not_generated, planning, verifying, gather, can_overwrite_generated, plan_entry,
  plan_file, plan_manifest_sync, sync_manifest, commit_explicit, commit_staged, plan_explicit,
  plan_explicit_file, plan_explicit_staged_files, find_change, merge_changes, merge_sync_changes,
  to_create, to_remove, concat, drop_first, merge_staged, merge_staged_changes,
}
use roost_codegen.Inputs.Same.{diff_snapshot_iff}
use roost_codegen.Inputs.Unchanged.{IsInput}
use roost_codegen.Plan.Gather.{wanted}
use roost_codegen.Plan.Manifest.{Synced, sync_manifest-Synced}
use roost_codegen.Plan.Merge.{MergesTo, merge_sync_changes-Merged}
use roost_codegen.Plan.Staged.{Mirrors, mirrored, commit_staged-Mirrors}
use roost_codegen.Plan.Verified.{commits-Verified}

abbrev at_root : String → FilePath
at_root rel = record { dir = "/p"; base = plain rel }

abbrev at_stage : String → FilePath
at_stage rel = record { dir = "/stage"; base = plain rel }

abbrev generated : String
generated = "// Code generated by roost-codegen. DO NOT EDIT."

-- The project has a generated file `a` and one of its own, `b`; `a` is staged anew, and `c` is staged.
abbrev files : Store
files p =
    if path_eq p (at_root "a")
    then some generated
    else if path_eq p (at_root "b")
    then some "mine"
    else if path_eq p (at_stage "a")
    then some "new"
    else if path_eq p (at_stage "c")
    then some "made"
    else none

abbrev quiet : World
quiet = record { files = files; turns = [] }

-- One input, `b`, which nobody has changed; a sum is the text itself.
abbrev inputs : ProjectInputs
inputs = record {
  plan = [];
  sum256 = λ raw. raw;
  zero_sum = "";
  walked =
      record { rel = "a"; path = at_root "a"; slashed = "/p/a" }
      ∷ record { rel = "b"; path = at_root "b"; slashed = "/p/b" }
      ∷ [];
  expected = ("b", "mine") ∷ [];
}

abbrev own_file : Walked
own_file = record { rel = "b"; path = at_root "b"; slashed = "/p/b" }

abbrev stale : ProjectInputs
stale = record inputs { expected = ("b", "yours") ∷ [] }

abbrev one_fails : World
one_fails = record {
  files = files;
  turns =
      record { edits = []; fault = false; name = "1" }
      ∷ record { edits = []; fault = true; name = "1" }
      ∷ [];
}

abbrev owned_file : String → PlannedFile
owned_file body = record { body = body; owned = true }

syncs :
    ((sync_manifest at_root (("a", owned_file "new") ∷ ("c", owned_file "made") ∷ []) quiet).0
      ≡ ok record { created = "c" ∷ []; updated = "a" ∷ []; removed = []; unchanged = [] })
    × ((sync_manifest at_root
            (("a", owned_file "new") ∷ ("c", owned_file "made") ∷ [])
            quiet).1.files
          (at_root "a")
        ≡ some "new")
unfolding sync_manifest plan_manifest_sync gather plan_file plan_entry can_overwrite_generated
    contains_text cut_prefix commit commit_from verify_current judge apply_change apply_write
    write_atomic lift handle deferred fill ◌>>=◌ read_file pass create_temp write stat rename remove
    path_eq
syncs = (refl, refl)

refuses :
    ((sync_manifest at_root (("a", owned_file "new") ∷ ("b", owned_file "theirs") ∷ []) quiet).0
      ≡ err (planning (not_generated "b")))
    × ((sync_manifest at_root
            (("a", owned_file "new") ∷ ("b", owned_file "theirs") ∷ [])
            quiet).1.files
          (at_root "a")
        ≡ some generated)
unfolding sync_manifest plan_manifest_sync gather plan_file plan_entry can_overwrite_generated
    contains_text cut_prefix ◌>>=◌ read_file path_eq
refuses = (refl, refl)

mirrors :
    ((commit_explicit inputs at_root at_stage ("a" ∷ "b" ∷ []) quiet).0 ≡ ok tt)
    × ((commit_explicit inputs at_root at_stage ("a" ∷ "b" ∷ []) quiet).1.files (at_root "a")
        ≡ some "new")
    × ((commit_explicit inputs at_root at_stage ("a" ∷ "b" ∷ []) quiet).1.files (at_root "b")
        ≡ none)
unfolding commit_explicit plan_explicit_staged_files gather plan_explicit_file plan_explicit
    verify_project_inputs snapshot_from snapshot_file is_owned_path is_generated_data contains_text
    cut_prefix has_suffix text_eq diff_snapshot differing see_keys sum_of contains sort_strings
    insert text_leb commit commit_from verify_current judge apply_change apply_write apply_remove
    write_atomic lift handle deferred fill ◌>>=◌ read_file pass create_temp write stat rename remove
    path_eq
mirrors = (refl, refl, refl)

stops :
    ((commit_explicit stale at_root at_stage ("a" ∷ []) quiet).0
      ≡ err (verifying (inputs_changed ("b" ∷ []))))
    × ((commit_explicit stale at_root at_stage ("a" ∷ []) quiet).1.files (at_root "a")
        ≡ some generated)
unfolding commit_explicit plan_explicit_staged_files gather plan_explicit_file plan_explicit
    verify_project_inputs snapshot_from snapshot_file is_owned_path is_generated_data contains_text
    cut_prefix has_suffix text_eq diff_snapshot differing see_keys sum_of contains sort_strings
    insert text_leb ◌>>=◌ read_file path_eq
stops = (refl, refl)

conflict :
    merge_sync_changes ((to_create at_root "a" "x" ∷ []) ∷ (to_create at_root "a" "y" ∷ []) ∷ [])
    ≡ err "a"
unfolding merge_sync_changes merge_changes find_change path_eq
conflict = refl

reports :
    merge_staged_changes
      record { created = []; updated = "a" ∷ []; removed = []; unchanged = "b" ∷ "c" ∷ [] }
      (to_create at_root "a" "x" ∷ to_remove at_root "b" "y" ∷ [])
    ≡ record { created = []; updated = "a" ∷ []; removed = "b" ∷ []; unchanged = "c" ∷ [] }
unfolding merge_staged_changes merge_staged drop_first contains sort_strings insert text_leb
reports = refl

name_of : (a b : String) → at_root a ≡ at_root b → a ≡ b
name_of a b e = let bases : plain a ≡ plain b = ap (λ (p : FilePath). p.base) e in cc

abbrev plan : List (String × PlannedFile)
plan = ("a", owned_file "new") ∷ ("c", owned_file "made") ∷ []

distinct : ◌≢◌ {A = FilePath} (at_root "c") (at_root "a")
distinct e = let same = name_of "c" "a" e in ground (arith, str_eq_iff "c" "a")

sync_manifest-Synced_example :
    Synced at_root
      (at_root "a")
      (some generated)
      plan
      (sync_manifest at_root plan one_fails).0
      (sync_manifest at_root plan one_fails).1.files
unfolding path_eq
sync_manifest-Synced_example =
    sync_manifest-Synced at_root plan (at_root "a") (some generated) one_fails
      ((distinct, tt), (tt, tt)) tt (tt, (tt, tt)) refl

paired : (rel : String) → at_root rel ≡ at_root "a" → at_stage rel ≡ at_stage "a"
paired rel e = ap at_stage (name_of rel "a" e)

commit_staged-Mirrors_example :
    Mirrors
      (at_root "a")
      (some generated)
      (wanted
        (λ (x : String × Bool). at_root x.0)
        (λ x. mirrored (some "new") x.1)
        (at_root "a")
        (some generated)
        (("a", true) ∷ ("c", false) ∷ []))
      (commit_staged inputs at_root at_stage (("a", true) ∷ ("c", false) ∷ []) one_fails).0
      (commit_staged inputs at_root at_stage (("a", true) ∷ ("c", false) ∷ []) one_fails).1.files
unfolding path_eq
commit_staged-Mirrors_example =
    commit_staged-Mirrors inputs at_root at_stage (at_root "a") (at_stage "a") (some generated)
      (some "new") (("a", true) ∷ ("c", false) ∷ []) one_fails paired ((distinct, tt), (tt, tt)) tt
      ((tt, (tt, tt)), refl) ((tt, (tt, tt)), refl)

abbrev groups : List (List SyncChange)
groups =
    (to_create at_root "a" "x" ∷ [])
    ∷ (to_create at_root "a" "x" ∷ to_create at_root "b" "y" ∷ [])
    ∷ []

abbrev merged : List SyncChange
merged = to_create at_root "a" "x" ∷ to_create at_root "b" "y" ∷ []

merges : merge_sync_changes groups ≡ ok merged
unfolding merge_sync_changes merge_changes find_change path_eq
merges = refl

merge_sync_changes-Merged_example : MergesTo (concat groups) (merge_sync_changes groups)
merge_sync_changes-Merged_example = merge_sync_changes-Merged groups

own_file-IsInput : IsInput inputs own_file "mine"
unfolding is_owned_path is_generated_data contains_text cut_prefix has_suffix text_eq
own_file-IsInput = (refl, refl)

commits-Verified_example : sum_of "" (("b", "mine") ∷ []) "b" ≡ "mine"
unfolding path_eq
commits-Verified_example =
    commits-Verified inputs own_file "mine" own_file-IsInput (inr (inl (refl, tt))) at_root at_stage
      [] ("a" ∷ "b" ∷ []) quiet (tt, refl) (inr mirrors.0)

diff_snapshot_iff_example :
    (diff_snapshot "" (("b", "mine") ∷ []) (("b", "yours") ∷ []) ≡ [])
    ↔ ((rel : String) → sum_of "" (("b", "mine") ∷ []) rel ≡ sum_of "" (("b", "yours") ∷ []) rel)
diff_snapshot_iff_example = diff_snapshot_iff "" (("b", "mine") ∷ []) (("b", "yours") ∷ [])
