-- ===== src/Inputs/Same.antt =====
-- internal/roost/generate.go: what an empty difference of two snapshots says.
use roost_codegen.Prelude.{
  String, true, false, List, [], ◌∷◌, ◌++◌, ◌≡◌, ◌≢◌, ◌↔◌, inl, inr, refl, sym, ap, ◌∙◌, subst,
  arith, str_eq, str_eq_iff, not, if◌then◌else◌, contains, contains-append, Bool-cases,
}
use roost_codegen.Prelude.Sort.{sort_strings, contains-sort_strings}
use roost_codegen.Inputs.{Snapshot, sum_of, see_keys, differs, differing, diff_snapshot}

contains-concat : (seen : List String) (a : String) → contains (seen ++ a ∷ []) a ≡ true
unfolding contains
contains-concat seen a = ground (arith, contains-append seen (a ∷ []) a, str_eq_iff a a)

see-keeps :
    (seen : List String) (rel a : String)
    → contains seen a ≡ true
    → contains (if contains seen rel then seen else seen ++ rel ∷ []) a ≡ true
unfolding contains
see-keeps seen rel a h = ground (arith, contains-append seen (rel ∷ []) a)

see-adds :
    (seen : List String) (rel : String)
    → contains (if contains seen rel then seen else seen ++ rel ∷ []) rel ≡ true
see-adds seen rel = elim (Bool-cases (contains seen rel)) [
  | inl known ↦ rw known known
  | inr fresh ↦ rw fresh (contains-concat seen rel)
]

see_keys-keeps :
    (seen : List String) (snapshot : Snapshot) (a : String)
    → contains seen a ≡ true
    → contains (see_keys seen snapshot) a ≡ true
unfolding see_keys
see_keys-keeps seen [] a h = h
see_keys-keeps seen ((rel, sum) ∷ snapshot) a h =
    see_keys-keeps (if contains seen rel then seen else seen ++ rel ∷ []) snapshot a
      (see-keeps seen rel a h)

module _ (zero_sum : String) where
  -- A key whose sum is not that of zeros is seen.
  see_keys-adds :
      (seen : List String) (snapshot : Snapshot) (a : String)
      → sum_of zero_sum snapshot a ≢ zero_sum
      → contains (see_keys seen snapshot) a ≡ true
  unfolding see_keys sum_of
  see_keys-adds seen [] a h = absurd (h refl)
  see_keys-adds seen ((rel, sum) ∷ snapshot) a h = elim (Bool-cases (str_eq rel a)) [
    | inl same ↦ see_keys-keeps (if contains seen rel then seen else seen ++ rel ∷ []) snapshot a (
        subst (λ b. contains (if contains seen rel then seen else seen ++ rel ∷ []) b ≡ true)
          ((str_eq_iff rel a).0 same) (see-adds seen rel))
    | inr other ↦
        see_keys-adds (if contains seen rel then seen else seen ++ rel ∷ []) snapshot a
          (rw other at h)
  ]

  module _ (before after : Snapshot) where
    differing-contains :
        (rels : List String) (a : String)
        → contains rels a ≡ true
        → differs zero_sum before after a ≡ true
        → contains (differing zero_sum before after rels) a ≡ true
    unfolding differing contains
    differing-contains [] a h d = cc
    differing-contains (rel ∷ rels) a h d = elim (Bool-cases (str_eq rel a)) [
      | inl same ↦
          let is_a : rel ≡ a = (str_eq_iff rel a).0 same in
          let here : differs zero_sum before after rel ≡ true =
            subst (λ b. differs zero_sum before after b ≡ true) (sym is_a) d in
          rw here (rw same refl)
      | inr other ↦
          let rest = differing-contains rels a (rw other at h) d in
          elim (Bool-cases (differs zero_sum before after rel)) [
            | inl here ↦ rw here (rw other rest)
            | inr same ↦ rw same rest
          ]
    ]

    differing-none :
        (rels : List String)
        → ((rel : String) → sum_of zero_sum before rel ≡ sum_of zero_sum after rel)
        → differing zero_sum before after rels ≡ []
    unfolding differing
    differing-none [] same = refl
    differing-none (rel ∷ rels) same =
        let equal : str_eq (sum_of zero_sum before rel) (sum_of zero_sum after rel) ≡ true =
          (str_eq_iff _ _).1 (same rel) in
        rw equal (differing-none rels same)

    -- `diffSnapshot` answers no path exactly when the two snapshots have one sum for every path, that
    -- of a path which a snapshot lacks being the sum of zeros.
    pub diff_snapshot_iff :
        (diff_snapshot zero_sum before after ≡ [])
        ↔ ((rel : String) → sum_of zero_sum before rel ≡ sum_of zero_sum after rel)
    unfolding diff_snapshot
    diff_snapshot_iff = (
      (λ none_found rel. elim (Bool-cases (differs zero_sum before after rel)) [
        | inr same ↦ (str_eq_iff _ _).0 (ground arith)
        | inl other ↦
            let found : contains (diff_snapshot zero_sum before after) rel ≡ true =
              contains-sort_strings
                (differing zero_sum before after (see_keys (see_keys [] before) after)) rel
              ∙ differing-contains (see_keys (see_keys [] before) after) rel (seen rel other)
                  other in
            let nowhere : contains [] rel ≡ true =
              subst (λ rels. contains rels rel ≡ true) none_found found in
            unfold contains in cc
      ]),
      (λ same.
          ap sort_strings (differing-none (see_keys (see_keys [] before) after) same)
          ∙ (unfold sort_strings in refl)),
    )
      where
        seen :
            (rel : String)
            → differs zero_sum before after rel ≡ true
            → contains (see_keys (see_keys [] before) after) rel ≡ true
        seen rel other = elim (Bool-cases (str_eq (sum_of zero_sum before rel) zero_sum)) [
          | inr in_before ↦
              see_keys-keeps (see_keys [] before) after rel
                (see_keys-adds [] before rel (λ e. let same = (str_eq_iff _ _).1 e in cc))
          | inl not_before ↦ see_keys-adds (see_keys [] before) after rel (λ e.
              let both =
                (str_eq_iff _ _).1
                  ((str_eq_iff (sum_of zero_sum before rel) zero_sum).0 not_before ∙ sym e) in
              let no_other : not (str_eq (sum_of zero_sum before rel) (sum_of zero_sum after rel))
                  ≡ false =
                ground arith in
              cc)
        ]
