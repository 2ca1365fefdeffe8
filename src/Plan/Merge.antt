-- ===== src/Plan/Merge.antt =====
-- What `mergeSyncChanges` makes of the groups of changes.
use roost_codegen.Prelude.{
  String, Bool, true, false, List, [], ◌∷◌, ◌++◌, none, some, ◌≡◌, ◌≢◌, ◌⊎◌, refl, ap, subst, ◌∙◌,
  arith, str_eq, str_eq_iff, inl, inr, All, All-append, Bool-cases, Option-cases, and-true,
  append_assoc,
}
use roost_codegen.Disk.{path_eq, Result, ok, err}
use roost_codegen.Disk.Names.{path_eq_iff}
use roost_codegen.Sync.{SyncChange}
use roost_codegen.Plan.{
  same_change, bool_eq, find_change, merge_changes, merge_sync_changes, concat,
}

bool_eq_sound : (a b : Bool) → bool_eq a b ≡ true → a ≡ b
bool_eq_sound a b h = ground arith

same_change_sound : (c d : SyncChange) → c.rel ≡ d.rel → same_change c d ≡ true → c ≡ d
same_change_sound c d rels h =
    let (paths, h1) = and-true (path_eq c.path d.path) _ h in
    let (existed, h2) = and-true (bool_eq c.existed d.existed) _ h1 in
    let (removes, h3) = and-true (bool_eq c.removes d.removes) _ h2 in
    let (before, body) = and-true (str_eq c.before d.before) (str_eq c.body d.body) h3 in
    let path_is = (path_eq_iff c.path d.path).0 paths in
    let existed_is = bool_eq_sound c.existed d.existed existed in
    let removes_is = bool_eq_sound c.removes d.removes removes in
    let before_is = (str_eq_iff c.before d.before).0 before in
    let body_is = (str_eq_iff c.body d.body).0 body in
    λ i. record {
      rel = rels i;
      path = path_is i;
      body = body_is i;
      before = before_is i;
      existed = existed_is i;
      removes = removes_is i;
    }

find_change-rel :
    (rel : String) (cs : List SyncChange) (c : SyncChange)
    → find_change rel cs ≡ some c
    → c.rel ≡ rel
unfolding find_change
find_change-rel rel [] c h = cc
find_change-rel rel (d ∷ cs) c h = elim (Bool-cases (str_eq d.rel rel)) [
  | inl same ↦
      let is_rel : d.rel ≡ rel = (str_eq_iff d.rel rel).0 same in
      let got : some d ≡ some c = rw (find_change, same) at h in cc
  | inr other ↦ find_change-rel rel cs c (rw (find_change, other) at h)
]

-- The relative paths are pairwise different.
abbrev pub DistinctRels : List SyncChange → Type 0
DistinctRels [] = Unit
DistinctRels (c ∷ cs) = (find_change c.rel cs ≡ none) × DistinctRels cs

find_change-append :
    (rel : String) (cs ds : List SyncChange)
    → ((c : SyncChange) → find_change rel cs ≡ some c → find_change rel (cs ++ ds) ≡ some c)
      × (find_change rel cs ≡ none → find_change rel (cs ++ ds) ≡ find_change rel ds)
unfolding find_change
find_change-append rel [] ds = ((λ c h. cc), (λ h. refl))
find_change-append rel (d ∷ cs) ds = elim (Bool-cases (str_eq d.rel rel)) [
  | inl same ↦ (
    (λ c h. let got : some d ≡ some c = rw (find_change, same) at h in rw (find_change, same) got),
    (λ h. let stuck : some d ≡ none = rw (find_change, same) at h in cc),
  )
  | inr other ↦
      let (found, missing) = find_change-append rel cs ds in
      (
        (λ c h. rw (find_change, other) (found c (rw (find_change, other) at h))),
        (λ h. rw (find_change, other) (missing (rw (find_change, other) at h))),
      )
]

DistinctRels-concat :
    (cs : List SyncChange) (c : SyncChange)
    → DistinctRels cs
    → find_change c.rel cs ≡ none
    → DistinctRels (cs ++ c ∷ [])
unfolding find_change
DistinctRels-concat [] c h fresh = (refl, tt)
DistinctRels-concat (d ∷ cs) c (h, distinct) fresh = elim (Bool-cases (str_eq d.rel c.rel)) [
  | inl same ↦ let stuck : some d ≡ none = rw (find_change, same) at fresh in cc
  | inr other ↦
      let back : str_eq c.rel d.rel ≡ false =
        ground (arith, str_eq_iff c.rel d.rel, str_eq_iff d.rel c.rel) in
      let last : find_change d.rel (c ∷ []) ≡ none = rw (find_change, back) refl in
      (
        (find_change-append d.rel cs (c ∷ [])).1 h ∙ last,
        DistinctRels-concat cs c distinct (rw (find_change, other) at fresh),
      )
]

-- What the loop keeps, and what it reaches.
abbrev Merged : List SyncChange → List SyncChange → List SyncChange → Type 0
Merged so_far changes merged =
    DistinctRels merged
    × ((rel : String) (c : SyncChange)
        → find_change rel so_far ≡ some c
        → find_change rel merged ≡ some c)
    × All (λ c. find_change c.rel merged ≡ some c) changes

merge_changes-Merged :
    (so_far changes merged : List SyncChange)
    → DistinctRels so_far
    → merge_changes so_far changes ≡ ok merged
    → Merged so_far changes merged
unfolding merge_changes find_change
merge_changes-Merged so_far [] merged distinct e =
    let same : so_far ≡ merged = cc in subst (Merged so_far []) same (distinct, (λ rel c h. h), tt)
merge_changes-Merged so_far (c ∷ changes) merged distinct e =
    elim (Option-cases (find_change c.rel so_far)) [
      | inr (existing, found) ↦ elim (Bool-cases (same_change existing c)) [
        | inr conflict ↦
            let stuck : err c.rel ≡ ok merged = rw (merge_changes, found, conflict) at e in cc
        | inl same ↦
            let (kept, keeps, all) =
              merge_changes-Merged so_far changes merged distinct
                (rw (merge_changes, found, same) at e) in
            let is_c : existing ≡ c =
              same_change_sound existing c (find_change-rel c.rel so_far existing found) same in
            (kept, keeps, (keeps c.rel existing found ∙ ap (λ d. some d) is_c, all))
      ]
      | inl fresh ↦
          let (kept, keeps, all) =
            merge_changes-Merged (so_far ++ c ∷ []) changes merged
              (DistinctRels-concat so_far c distinct fresh) (rw (merge_changes, fresh) at e) in
          let own : str_eq c.rel c.rel ≡ true = (str_eq_iff c.rel c.rel).1 refl in
          let here : find_change c.rel (c ∷ []) ≡ some c = rw (find_change, own) refl in
          let added = (find_change-append c.rel so_far (c ∷ [])).1 fresh ∙ here in
          (
            kept,
            (λ rel d h. keeps rel d ((find_change-append rel so_far (c ∷ [])).0 d h)),
            (keeps c.rel c added, all),
          )
    ]

merge_changes-All :
    (P : SyncChange → Type 0) (so_far changes merged : List SyncChange)
    → All P so_far
    → All P changes
    → merge_changes so_far changes ≡ ok merged
    → All P merged
unfolding merge_changes
merge_changes-All P so_far [] merged hs tt e =
    let same : so_far ≡ merged = cc in subst (All P) same hs
merge_changes-All P so_far (c ∷ changes) merged hs (h, later) e =
    elim (Option-cases (find_change c.rel so_far)) [
      | inr (existing, found) ↦ elim (Bool-cases (same_change existing c)) [
        | inr conflict ↦
            let stuck : err c.rel ≡ ok merged = rw (merge_changes, found, conflict) at e in cc
        | inl same ↦
            merge_changes-All P so_far changes merged hs later
              (rw (merge_changes, found, same) at e)
      ]
      | inl fresh ↦
          merge_changes-All P (so_far ++ c ∷ []) changes merged
            (All-append P so_far (c ∷ []) hs (h, tt)) later (rw (merge_changes, fresh) at e)
    ]

-- A member of a list of changes.
abbrev pub IsAmong : SyncChange → List SyncChange → Type 0
IsAmong c [] = ⊥
IsAmong c (d ∷ ds) = (c ≡ d) ⊎ IsAmong c ds

IsAmong-right : (cs ds : List SyncChange) (c : SyncChange) → IsAmong c ds → IsAmong c (cs ++ ds)
IsAmong-right [] ds c h = h
IsAmong-right (b ∷ cs) ds c h = inr (IsAmong-right cs ds c h)

IsAmong-left : (cs ds : List SyncChange) (c : SyncChange) → IsAmong c cs → IsAmong c (cs ++ ds)
IsAmong-left [] ds c h = absurd h
IsAmong-left (b ∷ cs) ds c (inl same) = inl same
IsAmong-left (b ∷ cs) ds c (inr h) = inr (IsAmong-left cs ds c h)

find_change-IsAmong :
    (rel : String) (cs : List SyncChange) (c : SyncChange)
    → find_change rel cs ≡ some c
    → IsAmong c cs
unfolding find_change
find_change-IsAmong rel [] c h = cc
find_change-IsAmong rel (d ∷ cs) c h = elim (Bool-cases (str_eq d.rel rel)) [
  | inl same ↦ let got : some d ≡ some c = rw (find_change, same) at h in inl (cc)
  | inr other ↦ inr (find_change-IsAmong rel cs c (rw (find_change, other) at h))
]

same_change_refl : (c : SyncChange) → same_change c c ≡ true
same_change_refl c =
    rw
      (
        (path_eq_iff c.path c.path).1 refl,
        (str_eq_iff c.before c.before).1 refl,
        (str_eq_iff c.body c.body).1 refl,
      )
      (ground arith)

-- Two changes of one relative path that are not the same.
abbrev pub Contradicts : String → List SyncChange → Type 0
Contradicts rel cs =
    (c : SyncChange) × (d : SyncChange) × IsAmong c cs
    × IsAmong d cs
    × (c.rel ≡ rel)
    × (d.rel ≡ rel)
    × (c ≢ d)

merge_changes-Contradicts :
    (so_far changes : List SyncChange) (rel : String)
    → merge_changes so_far changes ≡ err rel
    → Contradicts rel (so_far ++ changes)
unfolding merge_changes
merge_changes-Contradicts so_far [] rel e = cc
merge_changes-Contradicts so_far (c ∷ changes) rel e =
    elim (Option-cases (find_change c.rel so_far)) [
      | inr (existing, found) ↦ elim (Bool-cases (same_change existing c)) [
        | inr conflict ↦
            let named : err c.rel ≡ err rel = rw (merge_changes, found, conflict) at e in
            let is_rel : c.rel ≡ rel = cc in
            (
              existing,
              c,
              IsAmong-left so_far (c ∷ changes) existing
                  (find_change-IsAmong c.rel so_far existing found),
              IsAmong-right so_far (c ∷ changes) c (inl refl),
              find_change-rel c.rel so_far existing found ∙ is_rel,
              is_rel,
              (λ same.
                  let yes_same : same_change existing c ≡ true =
                    subst (λ d. same_change existing d ≡ true) same (same_change_refl existing) in
                  cc),
            )
        | inl same ↦
            let (a, b, among_a, among_b, rel_a, rel_b, differ) =
              merge_changes-Contradicts so_far changes rel (rw (merge_changes, found, same) at e) in
            (
              a,
              b,
              weaken so_far c changes a among_a,
              weaken so_far c changes b among_b,
              rel_a,
              rel_b,
              differ,
            )
      ]
      | inl fresh ↦
          let (a, b, among_a, among_b, rel_a, rel_b, differ) =
            merge_changes-Contradicts (so_far ++ c ∷ []) changes rel
              (rw (merge_changes, fresh) at e) in
          (
            a,
            b,
            rw (append_assoc so_far (c ∷ []) changes) at among_a,
            rw (append_assoc so_far (c ∷ []) changes) at among_b,
            rel_a,
            rel_b,
            differ,
          )
    ]
  where
    weaken :
        (so_far : List SyncChange) (c : SyncChange) (changes : List SyncChange) (a : SyncChange)
        → IsAmong a (so_far ++ changes)
        → IsAmong a (so_far ++ c ∷ changes)
    weaken [] c changes a h = inr h
    weaken (b ∷ so_far) c changes a (inl same) = inl same
    weaken (b ∷ so_far) c changes a (inr h) = inr (weaken so_far c changes a h)

All-IsAmong :
    (cs ds : List SyncChange)
    → ((c : SyncChange) → IsAmong c cs → IsAmong c ds)
    → All (λ c. IsAmong c ds) cs
All-IsAmong [] ds inside = tt
All-IsAmong (c ∷ cs) ds inside = (inside c (inl refl), All-IsAmong cs ds (λ d h. inside d (inr h)))

-- What a merge of changes may come to.
abbrev pub MergesTo : List SyncChange → Result String (List SyncChange) → Type 0
MergesTo changes (ok merged) =
    DistinctRels merged
    × All (λ c. find_change c.rel merged ≡ some c) changes
    × All (λ c. IsAmong c changes) merged
MergesTo changes (err rel) = Contradicts rel changes

-- Every merge of groups of changes, by its outcome. Where `mergeSyncChanges` returns a list, no two of
-- the merged changes are of the same relative path, each change of the groups stands in the result,
-- the one found under its path, and the result has no other than those. Where it reports a conflict, the groups hold two different
-- changes of the path that it names.
pub merge_sync_changes-Merged :
    (groups : List (List SyncChange)) → MergesTo (concat groups) (merge_sync_changes groups)
unfolding merge_sync_changes
merge_sync_changes-Merged groups = outcome (merge_changes [] (concat groups)) refl
  where
    outcome :
        (r : Result String (List SyncChange))
        → merge_changes [] (concat groups) ≡ r
        → MergesTo (concat groups) r
    outcome (ok merged) e =
        let (distinct, _, all) = merge_changes-Merged [] (concat groups) merged tt e in
        (
          distinct,
          all,
          merge_changes-All (λ c. IsAmong c (concat groups)) [] (concat groups) merged tt
              (All-IsAmong (concat groups) (concat groups) (λ c h. h)) e,
        )
    outcome (err rel) e = merge_changes-Contradicts [] (concat groups) rel e
