-- ===== src/Manifest/Owning.antt =====
-- internal/roost/manifest.go: the table of the owners of remote procedures.
use roost_codegen.Prelude.{
  String, Bool, true, false, List, [], ◌∷◌, ◌++◌, Option, none, some, str_eq, str_eq_iff, ◌≡◌, ◌⊎◌,
  inl, inr, refl, sym, ◌∙◌, subst, arith, Bool-cases, contains,
}
use roost_codegen.Prelude.Text.{codes}
use roost_codegen.Ids.{lookup}
use roost_codegen.Manifest.{Manifest, is_framework_service}
use roost_codegen.Manifest.Names.{valid_name}
use roost_codegen.Manifest.Errors.{error_if, error_if_iff, join_iff, framework_rpc, bad_rpc}
use roost_codegen.Manifest.Services.{service_of, Owners, twice_error, own_rpcs, own_all}

-- What an entry of the table of owners promises.
abbrev pub MayOwn : Manifest → List String → String → String → Type 0
MayOwn m names name rpc =
    (contains names name ≡ true)
    × (contains (service_of m name).rpcs rpc ≡ true)
    × (valid_name (codes rpc) ≡ true)
    × (is_framework_service m name ≡ false)

abbrev pub Table : Manifest → List String → Owners → Type 0
Table m names owners = (rpc name : String) → lookup rpc owners ≡ some name → MayOwn m names name rpc

-- No entry is lost or written again.
abbrev pub Grows : Owners → Owners → Type 0
Grows before after =
    (rpc name : String) → lookup rpc before ≡ some name → lookup rpc after ≡ some name

Table-add :
    (m : Manifest) (names : List String) (owners : Owners) (rpc name : String)
    → Table m names owners
    → MayOwn m names name rpc
    → Table m names ((rpc, name) ∷ owners)
unfolding lookup
Table-add m names owners rpc name table may key owner h = elim (Bool-cases (str_eq rpc key)) [
  | inl same ↦
      let found : some name ≡ some owner = rw same at h in
      let owned : name ≡ owner = cc in
      let at_key : rpc ≡ key = (str_eq_iff rpc key).0 same in
      subst (λ o. MayOwn m names o key) owned (subst (λ k. MayOwn m names name k) at_key may)
  | inr other ↦ table key owner (rw other at h)
]

Grows-add :
    (owners : Owners) (rpc name : String)
    → lookup rpc owners ≡ none
    → Grows owners ((rpc, name) ∷ owners)
unfolding lookup
Grows-add owners rpc name fresh key owner h = elim (Bool-cases (str_eq rpc key)) [
  | inl same ↦
      let clash : none ≡ some owner =
        sym (subst (λ k. lookup k owners ≡ none) ((str_eq_iff rpc key).0 same) fresh) ∙ h in
      cc
  | inr other ↦ rw other h
]

lookup-here : (owners : Owners) (rpc name : String) → lookup rpc ((rpc, name) ∷ owners) ≡ some name
unfolding lookup
lookup-here owners rpc name = rw ((str_eq_iff rpc rpc).1 refl) refl

twice_error-none :
    (rpc name : String) (found : Option String) → twice_error rpc name found ≡ [] → found ≡ none
twice_error-none rpc name none h = refl
twice_error-none rpc name (some other) h = cc

-- What one or all rounds leave where they report no error.
abbrev pub Round : Manifest → List String → Owners → Owners → (String → String → Type 0) → Type 0
Round m names before after Added =
    Table m names after
    × Grows before after
    × ((name rpc : String) → Added name rpc → lookup rpc after ≡ some name)

-- One round of the inner loop that reports no error.
own_rpcs_step :
    (name : String) (framework : Bool) (owners : Owners) (rpc : String) (rpcs : List String)
    → (own_rpcs name framework owners (rpc ∷ rpcs)).0 ≡ []
    → (valid_name (codes rpc) ≡ true)
      × (framework ≡ false)
      × (lookup rpc owners ≡ none)
      × ((own_rpcs name framework ((rpc, name) ∷ owners) rpcs).0 ≡ [])
      × ((own_rpcs name framework owners (rpc ∷ rpcs)).1
          ≡ (own_rpcs name framework ((rpc, name) ∷ owners) rpcs).1)
unfolding own_rpcs
own_rpcs_step name framework owners rpc rpcs h = elim (Bool-cases (valid_name (codes rpc))) [
  | inr bad ↦
      let stuck : bad_rpc name rpc ∷ (own_rpcs name framework owners rpcs).0 ≡ [] =
        rw (own_rpcs, bad) at h in
      cc
  | inl valid ↦
      let later = own_rpcs name framework ((rpc, name) ∷ owners) rpcs in
      let clean : error_if framework (framework_rpc name rpc)
            ++ (twice_error rpc name (lookup rpc owners) ++ later.0)
          ≡ [] =
        rw (own_rpcs, valid) at h in
      let (here, others) = (join_iff (error_if framework (framework_rpc name rpc)) _).0 clean in
      let (once, rest) = (join_iff (twice_error rpc name (lookup rpc owners)) later.0).0 others in
      (
        valid,
        (error_if_iff framework (framework_rpc name rpc)).0 here,
        twice_error-none rpc name (lookup rpc owners) once,
        rest,
        rw (own_rpcs, valid) refl,
      )
]

pub contains-head :
    (x y : String) (xs : List String)
    → contains (x ∷ xs) y ≡ true
    → (x ≡ y) ⊎ (contains xs y ≡ true)
unfolding contains
contains-head x y xs h = ground (arith, str_eq_iff x y)

contains-here : (x : String) (xs : List String) → contains (x ∷ xs) x ≡ true
unfolding contains
contains-here x xs = ground (arith, (str_eq_iff x x).1 refl)

contains-later :
    (x y : String) (xs : List String) → contains xs y ≡ true → contains (x ∷ xs) y ≡ true
unfolding contains
contains-later x y xs h = ground arith

pub contains-nothing : {A : Type 0} (x : String) → contains [] x ≡ true → A
unfolding contains
contains-nothing x e = cc

own_rpcs_nothing :
    (m : Manifest) (names : List String) (name : String) (owners : Owners)
    → Table m names owners
    → Round m names owners
        (own_rpcs name (is_framework_service m name) owners []).1
        (λ n rpc. (n ≡ name) × (contains [] rpc ≡ true))
unfolding own_rpcs
own_rpcs_nothing m names name owners table =
    (table, (λ rpc n e. e), (λ n rpc (_, none_left). contains-nothing rpc none_left))

module _ (m : Manifest) (names : List String) where
  own_rpcs-Round :
      (name : String) (owners : Owners) (rpcs : List String)
      → contains names name ≡ true
      → ((rpc : String) → contains rpcs rpc ≡ true → contains (service_of m name).rpcs rpc ≡ true)
      → Table m names owners
      → (own_rpcs name (is_framework_service m name) owners rpcs).0 ≡ []
      → Round m names owners
          (own_rpcs name (is_framework_service m name) owners rpcs).1
          (λ n rpc. (n ≡ name) × (contains rpcs rpc ≡ true))
  own_rpcs-Round name owners [] among within table h = own_rpcs_nothing m names name owners table
  own_rpcs-Round name owners (rpc ∷ rpcs) among within table h =
      let (valid, own, fresh, rest, same) =
        own_rpcs_step name (is_framework_service m name) owners rpc rpcs h in
      let may : MayOwn m names name rpc =
        (among, within rpc (contains-here rpc rpcs), valid, own) in
      let (table', grows, added) =
        own_rpcs-Round name ((rpc, name) ∷ owners) rpcs among
          (λ other e. within other (contains-later rpc other rpcs e))
          (Table-add m names owners rpc name table may) rest in
      subst
        (λ after. Round m names owners after (λ n r. (n ≡ name) × (contains (rpc ∷ rpcs) r ≡ true)))
        (sym same)
        (
          table',
          (λ other n e. grows other n (Grows-add owners rpc name fresh other n e)),
          (λ n other (at_name, e). elim (contains-head rpc other rpcs e) [
            | inl at_rpc ↦
                let after =
                  (own_rpcs name (is_framework_service m name) ((rpc, name) ∷ owners) rpcs).1 in
                subst (λ r. lookup r after ≡ some n) at_rpc
                  (subst (λ o. lookup rpc after ≡ some o) (sym at_name)
                    (grows rpc name (lookup-here owners rpc name)))
            | inr in_rest ↦ added n other (at_name, in_rest)
          ]),
        )

  pub own_all-Round :
      (owners : Owners) (some_names : List String)
      → ((name : String) → contains some_names name ≡ true → contains names name ≡ true)
      → Table m names owners
      → (own_all m owners some_names).0 ≡ []
      → Round m names owners
          (own_all m owners some_names).1
          (λ n rpc. (contains some_names n ≡ true) × (contains (service_of m n).rpcs rpc ≡ true))
  unfolding own_all
  own_all-Round owners [] among table h =
      (table, (λ rpc n e. e), (λ n rpc (none_left, _). contains-nothing n none_left))
  own_all-Round owners (name ∷ others) among table h =
      let (first, rest) = (join_iff _ _).0 h in
      let (table', grows, added) =
        own_rpcs-Round name owners (service_of m name).rpcs (among name (contains-here name others))
          (λ rpc e. e) table first in
      let (table'', grows', added') =
        own_all-Round
          (own_rpcs name (is_framework_service m name) owners (service_of m name).rpcs).1 others
          (λ n e. among n (contains-later name n others e)) table' rest in
      (
        table'',
        (λ rpc n e. grows' rpc n (grows rpc n e)),
        (λ n rpc (e, owned). elim (contains-head name n others e) [
          | inl here ↦ grows' rpc n (added n rpc (sym here, owned_by n rpc here owned))
          | inr later ↦ added' n rpc (later, owned)
        ]),
      )
    where
      owned_by :
          (n rpc : String)
          → name ≡ n
          → contains (service_of m n).rpcs rpc ≡ true
          → contains (service_of m name).rpcs rpc ≡ true
      owned_by n rpc here owned =
          subst (λ k. contains (service_of m k).rpcs rpc ≡ true) (sym here) owned
