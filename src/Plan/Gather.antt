-- ===== src/Plan/Gather.antt =====
-- The loops that gather changes: what one round finds out about its own file holds of the whole plan.
use roost_codegen.Prelude.{
  String, List, [], ◌∷◌, ◌++◌, Option, ◌≡◌, ◌≢◌, ◌⊎◌, inl, inr, refl, sym, subst, ◌∙◌,
  if◌then◌else◌, All, All-append, Bool-cases,
}
use roost_codegen.Disk.{FilePath, path_eq, World, Io, Result, ok, err}
use roost_codegen.Disk.Names.{path_eq_iff}
use roost_codegen.Disk.Rules.{◌>>=◌, continue}
use roost_codegen.Sync.{SyncChange}
use roost_codegen.Sync.Commit.{planned, DistinctPaths}
use roost_codegen.Plan.{PlanError, gather}

-- What holds of a value that was returned.
abbrev pub OnOk : {E A : Type 0} → (A → Type 0) → Result E A → Type 0
OnOk P (ok a) = P a
OnOk P (err e) = Unit

-- The parts that the rounds of a loop have found, in order.
abbrev pub Parts : {X Y : Type 0} → (X → List Y → Type 0) → List X → List Y → Type 0
Parts Q [] ys = [] ≡ ys
Parts {Y = Y} Q (x ∷ xs) ys =
    (here later : List Y) × (here ++ later ≡ ys) × Q x here × Parts Q xs later

module _ {X Y : Type 0} (step : X → Io PlanError (List Y)) (Inv : World → Type 0)
    (Q : X → List Y → Type 0)
    (keeps : (x : X) (w : World) → Inv w → Inv (step x w).1 × OnOk (Q x) (step x w).0) where
  pub gather-Parts :
      (xs : List X) (w : World)
      → Inv w
      → Inv (gather step xs w).1 × OnOk (Parts Q xs) (gather step xs w).0
  unfolding gather ◌>>=◌
  gather-Parts [] w h = (h, refl)
  gather-Parts (x ∷ xs) w h =
      found (step x w).0 (step x w).1 (keeps x w h) λ w' h'. gather-Parts xs w' h'
    where
      joined :
          (ys : List Y) (r : Result PlanError (List Y)) (w' : World)
          → Q x ys
          → Inv w' × OnOk (Parts Q xs) r
          → Inv (continue r (λ zs. λ w''. (ok (ys ++ zs), w'')) w').1
            × OnOk (Parts Q (x ∷ xs)) (continue r (λ zs. λ w''. (ok (ys ++ zs), w'')) w').0
      joined ys (ok zs) w' q (h', parts) = (h', (ys, zs, refl, q, parts))
      joined ys (err e) w' q (h', _) = (h', tt)

      found :
          (r : Result PlanError (List Y)) (w' : World)
          → Inv w' × OnOk (Q x) r
          → ((w'' : World)
              → Inv w''
              → Inv (gather step xs w'').1 × OnOk (Parts Q xs) (gather step xs w'').0)
          → Inv (continue r (λ ys. gather step xs >>= λ zs. λ w''. (ok (ys ++ zs), w'')) w').1
            × OnOk
                (Parts Q (x ∷ xs))
                (continue r (λ ys. gather step xs >>= λ zs. λ w''. (ok (ys ++ zs), w'')) w').0
      found (ok ys) w' (h', q) rest =
          joined ys (gather step xs w').0 (gather step xs w').1 q (rest w' h')
      found (err e) w' (h', _) rest = (h', tt)

-- What a loop over items with paths of their own plans for one path, given what each item plans
-- for its own.
module _ {X : Type 0} (at : X → FilePath) (want : X → Option String → Option String) (p : FilePath)
    (v : Option String) where
  abbrev pub Own : X → List SyncChange → Type 0
  Own x cs =
      (([] ≡ cs) ⊎ ((c : SyncChange) × (c ∷ [] ≡ cs) × (c.path ≡ at x)))
      × (at x ≡ p → planned cs p v ≡ want x v)

  abbrev pub wanted : List X → Option String
  wanted [] = v
  wanted (x ∷ xs) = if path_eq (at x) p then want x v else wanted xs

abbrev pub DistinctAt : {X : Type 0} → (X → FilePath) → List X → Type 0
DistinctAt at [] = Unit
DistinctAt at (x ∷ xs) = All (λ y. at y ≢ at x) xs × DistinctAt at xs

module _ {X : Type 0} (at : X → FilePath) (want : X → Option String → Option String) (p : FilePath)
    (v : Option String) where
  planned_apart : (cs : List SyncChange) → All (λ c. c.path ≢ p) cs → planned cs p v ≡ v
  planned_apart [] h = refl
  planned_apart (c ∷ cs) (other, h) = elim (Bool-cases (path_eq c.path p)) [
    | inl same ↦ absurd (other ((path_eq_iff c.path p).0 same))
    | inr apart ↦ rw apart (planned_apart cs h)
  ]

  planned_skip :
      (cs ds : List SyncChange) → All (λ c. c.path ≢ p) cs → planned (cs ++ ds) p v ≡ planned ds p v
  planned_skip [] ds h = refl
  planned_skip (c ∷ cs) ds (other, h) = elim (Bool-cases (path_eq c.path p)) [
    | inl same ↦ absurd (other ((path_eq_iff c.path p).0 same))
    | inr apart ↦ rw apart (planned_skip cs ds h)
  ]

  planned_left :
      (cs ds : List SyncChange) → All (λ d. d.path ≢ p) ds → planned (cs ++ ds) p v ≡ planned cs p v
  planned_left [] ds h = planned_apart ds h
  planned_left (c ∷ cs) ds h = elim (Bool-cases (path_eq c.path p)) [
    | inl same ↦ rw same refl
    | inr apart ↦ rw apart (planned_left cs ds h)
  ]

  abbrev Rounds : List X → List SyncChange → Type 0
  Rounds = Parts (Own at want p v)

  Own-apart :
      (x : X) (q : FilePath) (cs : List SyncChange)
      → Own at want p v x cs
      → at x ≢ q
      → All (λ c. c.path ≢ q) cs
  Own-apart x q cs (inl none_found, _) other = subst (All (λ c. c.path ≢ q)) none_found tt
  Own-apart x q cs (inr (c, one, here), _) other =
      subst (All (λ d. d.path ≢ q)) one ((λ e. other (sym here ∙ e)), tt)

  Rounds-apart :
      (xs : List X) (q : FilePath) (cs : List SyncChange)
      → Rounds xs cs
      → All (λ y. at y ≢ q) xs
      → All (λ c. c.path ≢ q) cs
  Rounds-apart [] q cs none_found h = subst (All (λ c. c.path ≢ q)) none_found tt
  Rounds-apart (x ∷ xs) q cs (here, later, joined, own, rest) (other, h) =
      subst (All (λ c. c.path ≢ q)) joined (
        All-append (λ c. c.path ≢ q) here later (Own-apart x q here own other)
          (Rounds-apart xs q later rest h))

  Own-DistinctPaths :
      (x : X) (cs ds : List SyncChange)
      → Own at want p v x cs
      → All (λ d. d.path ≢ at x) ds
      → DistinctPaths ds
      → DistinctPaths (cs ++ ds)
  Own-DistinctPaths x cs ds (inl none_found, _) apart distinct =
      subst (λ all. DistinctPaths (all ++ ds)) none_found distinct
  Own-DistinctPaths x cs ds (inr (c, one, here), _) apart distinct =
      subst (λ all. DistinctPaths (all ++ ds)) one
        (subst (λ q. All (λ d. d.path ≢ q) ds) (sym here) apart, distinct)

  -- The whole plan has one change for a path at most, and plans for it what its item wants.
  pub Rounds-planned :
      (xs : List X) (cs : List SyncChange)
      → DistinctAt at xs
      → Rounds xs cs
      → DistinctPaths cs × (planned cs p v ≡ wanted at want p v xs)
  Rounds-planned [] cs distinct none_found =
      subst (λ all. DistinctPaths all × (planned all p v ≡ v)) none_found (tt, refl)
  Rounds-planned (x ∷ xs) cs (others, distinct) (here, later, joined, own, rest) =
      let (distinct_later, later_planned) = Rounds-planned xs later distinct rest in
      let apart = Rounds-apart xs (at x) later rest others in
      subst (λ all. DistinctPaths all × (planned all p v ≡ wanted at want p v (x ∷ xs))) joined
        (
          Own-DistinctPaths x here later own apart distinct_later,
          whole here own later_planned apart,
        )
    where
      whole :
          (here : List SyncChange)
          → Own at want p v x here
          → planned later p v ≡ wanted at want p v xs
          → All (λ d. d.path ≢ at x) later
          → planned (here ++ later) p v ≡ wanted at want p v (x ∷ xs)
      whole here own later_planned apart = elim (Bool-cases (path_eq (at x) p)) [
        | inl same ↦
            let at_p : at x ≡ p = (path_eq_iff (at x) p).0 same in
            rw same (
              planned_left here later (subst (λ q. All (λ d. d.path ≢ q) later) at_p apart)
              ∙ own.1 at_p)
        | inr other ↦
            let ne : at x ≢ p = λ e. let yes = (path_eq_iff (at x) p).1 e in cc in
            rw other (planned_skip here later (Own-apart x p here own ne) ∙ later_planned)
      ]
