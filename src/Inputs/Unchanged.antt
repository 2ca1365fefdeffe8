-- ===== src/Inputs/Unchanged.antt =====
-- internal/roost/generate.go: what `verifyProjectInputs` makes sure of, at an input that the other
-- processes spare while it runs.
use roost_codegen.Prelude.{
  String, true, false, List, [], ◌∷◌, some, ◌≡◌, ◌≢◌, ◌⊎◌, inl, inr, refl, sym, ap, ◌∙◌, subst,
  str_eq, str_eq_iff, All, Bool-cases,
}
use roost_codegen.Disk.{World, Result, ok, err, OsError, read_file}
use roost_codegen.Disk.Rules.{◌>>=◌, continue}
use roost_codegen.Disk.Calls.{ReadSays}
use roost_codegen.Sync.Rollback.{At, read_file-At}
use roost_codegen.Inputs.{
  Walked, Snapshot, ProjectInputs, is_skipped, is_generated, note_input, snapshot_file,
  snapshot_from, sum_of, judge_changed, judge_snapshot, verify_project_inputs,
}
use roost_codegen.Inputs.Spared.{snapshot_file-At}
use roost_codegen.Inputs.Same.{diff_snapshot_iff}

-- The walk reaches a file, and its path below the root no later time.
abbrev pub Reaches : List Walked → Walked → Type 0
Reaches [] file = ⊥
Reaches (f ∷ fs) file = ((f ≡ file) × All (λ g. g.rel ≢ file.rel) fs) ⊎ Reaches fs file

-- A file that the generators may read, with its content.
abbrev pub IsInput : ProjectInputs → Walked → String → Type 0
IsInput inputs file body =
    (is_skipped inputs.plan file.rel ≡ false) × (is_generated file.slashed body ≡ false)

module _ (inputs : ProjectInputs) where
  abbrev Noted : Walked → Snapshot → World → Snapshot → Type 0
  Noted file out w noted = (snapshot_file inputs file out w).0 ≡ ok noted

  -- The rounds of a walk that ends well.
  snapshot_from-eq-ok :
      (file : Walked) (files : List Walked) (out snapshot : Snapshot) (w : World)
      → (snapshot_from inputs out (file ∷ files) w).0 ≡ ok snapshot
      → (noted : Snapshot) × Noted file out w noted
        × ((snapshot_from inputs noted files (snapshot_file inputs file out w).1).0 ≡ ok snapshot)
  unfolding snapshot_from ◌>>=◌
  snapshot_from-eq-ok file files out snapshot w e =
      split (snapshot_file inputs file out w).0 (snapshot_file inputs file out w).1 e
    where
      split :
          (r : Result OsError Snapshot) (w' : World)
          → (continue r (λ noted. snapshot_from inputs noted files) w').0 ≡ ok snapshot
          → (noted : Snapshot) × (r ≡ ok noted)
            × ((snapshot_from inputs noted files w').0 ≡ ok snapshot)
      split (ok noted) w' h = (noted, refl, h)
      split (err e) w' h = cc

  snapshot_from-eq-none :
      (out snapshot : Snapshot) (w : World)
      → (snapshot_from inputs out [] w).0 ≡ ok snapshot
      → out ≡ snapshot
  unfolding snapshot_from
  snapshot_from-eq-none out snapshot w e = cc

  -- What is noted of one file does not touch another's sum.
  snapshot_file-apart :
      (file : Walked) (out noted : Snapshot) (w : World) (rel : String)
      → file.rel ≢ rel
      → Noted file out w noted
      → sum_of inputs.zero_sum noted rel ≡ sum_of inputs.zero_sum out rel
  unfolding snapshot_file ◌>>=◌ sum_of
  snapshot_file-apart file out noted w rel apart e =
      elim (Bool-cases (is_skipped inputs.plan file.rel)) [
        | inl skip ↦
            let same : ok out ≡ ok noted = rw skip at e in
            let out_is : out ≡ noted = cc in sym (ap (λ s. sum_of inputs.zero_sum s rel) out_is)
        | inr input ↦ split (read_file file.path w).0 (read_file file.path w).1 (rw input at e)
      ]
    where
      split :
          (r : Result OsError String) (w' : World)
          → (continue r (λ raw. λ w''. (ok (note_input inputs.sum256 file out raw), w'')) w').0
            ≡ ok noted
          → sum_of inputs.zero_sum noted rel ≡ sum_of inputs.zero_sum out rel
      split (err e) w' h = cc
      split (ok raw) w' h =
          let is_noted : note_input inputs.sum256 file out raw ≡ noted = cc in
          elim (Bool-cases (is_generated file.slashed raw)) [
            | inl generated ↦
                let out_is : out ≡ noted = rw generated at is_noted in
                sym (ap (λ s. sum_of inputs.zero_sum s rel) out_is)
            | inr input ↦
                let cons : (file.rel, inputs.sum256 raw) ∷ out ≡ noted = rw input at is_noted in
                elim (Bool-cases (str_eq file.rel rel)) [
                  | inl same ↦ absurd (apart ((str_eq_iff file.rel rel).0 same))
                  | inr other ↦
                      let skips : sum_of inputs.zero_sum ((file.rel, inputs.sum256 raw) ∷ out) rel
                          ≡ sum_of inputs.zero_sum out rel =
                        rw other refl in
                      sym (ap (λ s. sum_of inputs.zero_sum s rel) cons) ∙ skips
                ]
          ]

  snapshot_from-apart :
      (files : List Walked) (out snapshot : Snapshot) (w : World) (rel : String)
      → All (λ g. g.rel ≢ rel) files
      → (snapshot_from inputs out files w).0 ≡ ok snapshot
      → sum_of inputs.zero_sum snapshot rel ≡ sum_of inputs.zero_sum out rel
  snapshot_from-apart [] out snapshot w rel apart e =
      sym (ap (λ s. sum_of inputs.zero_sum s rel) (snapshot_from-eq-none out snapshot w e))
  snapshot_from-apart (file ∷ files) out snapshot w rel (here, later) e =
      let (noted, noted_here, rest) = snapshot_from-eq-ok file files out snapshot w e in
      snapshot_from-apart files noted snapshot (snapshot_file inputs file out w).1 rel later rest
      ∙ snapshot_file-apart file out noted w rel here noted_here

  module _ (file : Walked) (body : String) (input : IsInput inputs file body) where
    snapshot_file-sum :
        (out noted : Snapshot) (w : World)
        → At file.path (some body) w
        → Noted file out w noted
        → sum_of inputs.zero_sum noted file.rel ≡ inputs.sum256 body
    unfolding snapshot_file ◌>>=◌ sum_of
    snapshot_file-sum out noted w at_file e =
        let (after, says) = read_file-At file.path (some body) file.path w at_file in
        split (read_file file.path w).0 (read_file file.path w).1 says after.1 (rw input.0 at e)
      where
        split :
            (r : Result OsError String) (w' : World)
            → ReadSays file.path r w'.files
            → w'.files file.path ≡ some body
            → (continue r (λ raw. λ w''. (ok (note_input inputs.sum256 file out raw), w'')) w').0
              ≡ ok noted
            → sum_of inputs.zero_sum noted file.rel ≡ inputs.sum256 body
        split (err e) w' says here h = cc
        split (ok raw) w' says here h =
            let is_body : raw ≡ body = cc in
            let is_noted : note_input inputs.sum256 file out body ≡ noted =
              ap (λ t. note_input inputs.sum256 file out t) (sym is_body) ∙ (cc) in
            let cons : (file.rel, inputs.sum256 body) ∷ out ≡ noted = rw input.1 at is_noted in
            let own : str_eq file.rel file.rel ≡ true = (str_eq_iff file.rel file.rel).1 refl in
            let found : sum_of inputs.zero_sum ((file.rel, inputs.sum256 body) ∷ out) file.rel
                ≡ inputs.sum256 body =
              rw own refl in
            sym (ap (λ s. sum_of inputs.zero_sum s file.rel) cons) ∙ found

    snapshot_from-sum :
        (files : List Walked) (out snapshot : Snapshot) (w : World)
        → Reaches files file
        → At file.path (some body) w
        → (snapshot_from inputs out files w).0 ≡ ok snapshot
        → sum_of inputs.zero_sum snapshot file.rel ≡ inputs.sum256 body
    snapshot_from-sum [] out snapshot w reached at_file e = absurd reached
    snapshot_from-sum (f ∷ fs) out snapshot w (inl (same, later)) at_file e =
        let (noted, noted_here, rest) = snapshot_from-eq-ok f fs out snapshot w e in
        snapshot_from-apart fs noted snapshot (snapshot_file inputs f out w).1 file.rel later rest
        ∙ snapshot_file-sum out noted w at_file (subst (λ g. Noted g out w noted) same noted_here)
    snapshot_from-sum (f ∷ fs) out snapshot w (inr reached) at_file e =
        let (noted, noted_here, rest) = snapshot_from-eq-ok f fs out snapshot w e in
        snapshot_from-sum fs noted snapshot (snapshot_file inputs f out w).1 reached
          (snapshot_file-At file.path (some body) inputs f out w at_file) rest

    -- An input that the walk reaches, and that the other processes leave alone while it is verified:
    -- where `verifyProjectInputs` reports no error, the sum of its content is the one expected.
    pub verify_project_inputs-Unchanged :
        (w : World)
        → Reaches inputs.walked file
        → At file.path (some body) w
        → (verify_project_inputs inputs w).0 ≡ ok tt
        → sum_of inputs.zero_sum inputs.expected file.rel ≡ inputs.sum256 body
    unfolding verify_project_inputs
    verify_project_inputs-Unchanged w reached at_file e =
        judged (snapshot_from inputs [] inputs.walked w).0 e
          (λ snapshot s. snapshot_from-sum inputs.walked [] snapshot w reached at_file s)
      where
        agreed : (changed : List String) → judge_changed changed ≡ ok tt → changed ≡ []
        agreed [] h = refl
        agreed (rel ∷ rels) h = cc

        judged :
            (r : Result OsError Snapshot)
            → judge_snapshot inputs r ≡ ok tt
            → ((snapshot : Snapshot)
                → r ≡ ok snapshot
                → sum_of inputs.zero_sum snapshot file.rel ≡ inputs.sum256 body)
            → sum_of inputs.zero_sum inputs.expected file.rel ≡ inputs.sum256 body
        judged (err e) h sums = cc
        judged (ok current) h sums =
            (diff_snapshot_iff inputs.zero_sum inputs.expected current).0 (agreed _ h) file.rel
            ∙ sums current refl
