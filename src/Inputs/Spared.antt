-- ===== src/Inputs/Spared.antt =====
-- The verification of the inputs reads: it leaves a path that the other processes spare as it is.
use roost_codegen.Prelude.{String, List, [], ◌∷◌, Option, inl, inr, Bool-cases}
use roost_codegen.Disk.{FilePath, World, Result, ok, err, OsError, read_file}
use roost_codegen.Disk.Rules.{◌>>=◌, continue}
use roost_codegen.Sync.Rollback.{At, read_file-At}
use roost_codegen.Inputs.{
  Walked, Snapshot, ProjectInputs, is_skipped, note_input, snapshot_file, snapshot_from,
  verify_project_inputs,
}

module _ (p : FilePath) (v : Option String) (inputs : ProjectInputs) where
  pub snapshot_file-At :
      (file : Walked) (out : Snapshot) (w : World)
      → At p v w
      → At p v (snapshot_file inputs file out w).1
  unfolding snapshot_file ◌>>=◌
  snapshot_file-At file out w h = elim (Bool-cases (is_skipped inputs.plan file.rel)) [
    | inl skip ↦ rw skip h
    | inr input ↦ rw input (
        noted (read_file file.path w).0 (read_file file.path w).1
          (read_file-At p v file.path w h).0)
  ]
    where
      noted :
          (r : Result OsError String) (w' : World)
          → At p v w'
          → At p v
              (continue r (λ raw. λ w''. (ok (note_input inputs.sum256 file out raw), w'')) w').1
      noted (ok raw) w' h' = h'
      noted (err e) w' h' = h'

  snapshot_from-At :
      (files : List Walked) (out : Snapshot) (w : World)
      → At p v w
      → At p v (snapshot_from inputs out files w).1
  unfolding snapshot_from ◌>>=◌
  snapshot_from-At [] out w h = h
  snapshot_from-At (file ∷ files) out w h =
      later (snapshot_file inputs file out w).0 (snapshot_file inputs file out w).1
        (λ noted w'. snapshot_from-At files noted w') (snapshot_file-At file out w h)
    where
      later :
          (r : Result OsError Snapshot) (w' : World)
          → ((noted : Snapshot) (w'' : World)
              → At p v w''
              → At p v (snapshot_from inputs noted files w'').1)
          → At p v w'
          → At p v (continue r (λ noted. snapshot_from inputs noted files) w').1
      later (ok noted) w' rest h' = rest noted w' h'
      later (err e) w' rest h' = h'

  pub verify_project_inputs-At : (w : World) → At p v w → At p v (verify_project_inputs inputs w).1
  unfolding verify_project_inputs
  verify_project_inputs-At w h = snapshot_from-At inputs.walked [] w h
