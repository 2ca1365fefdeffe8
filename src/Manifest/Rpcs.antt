-- ===== src/Manifest/Rpcs.antt =====
-- internal/roost/manifest.go: what a manifest without errors of its remote procedures satisfies.
use roost_codegen.Prelude.{
  String, Bool, true, false, not, ◌&&◌, List, [], ◌∷◌, ◌++◌, Option, none, some, str_eq, str_eq_iff,
  ◌≡◌, ◌≢◌, inl, inr, refl, sym, ◌∙◌, subst, arith, All, contains,
}
use roost_codegen.Prelude.Text.{codes}
use roost_codegen.Prelude.Sort.{contains-sort_strings}
use roost_codegen.Ids.{lookup}
use roost_codegen.Manifest.{Manifest, is_framework_service}
use roost_codegen.Manifest.Names.{valid_name}
use roost_codegen.Manifest.Errors.{
  Errors, error_if, each, error_if_iff, join_iff, each_iff, no_rpc_feature, own_rpc,
  framework_uses_rpc,
}
use roost_codegen.Manifest.Services.{
  service_of, keys, sorted_service_names, Owners, own_all, owner_error, use_rpcs, is_owned,
  validate_rpcs,
}
use roost_codegen.Manifest.Owning.{contains-head, contains-nothing, own_all-Round}

-- A service of the manifest that declares a remote procedure.
abbrev pub Owns : Manifest → String → String → Type 0
Owns m name rpc =
    (contains (keys m.services) name ≡ true) × (contains (service_of m name).rpcs rpc ≡ true)

abbrev pub Uses : Manifest → String → String → Type 0
Uses m name rpc =
    (contains (keys m.services) name ≡ true) × (contains (service_of m name).uses_rpcs rpc ≡ true)

-- Each declared remote procedure has one owner, which may own it; each used one has another owner.
abbrev pub RpcsAreOwned : Manifest → Type 0
RpcsAreOwned m =
    ((name rpc : String)
      → Owns m name rpc
      → (valid_name (codes rpc) ≡ true)
        × (is_framework_service m name ≡ false)
        × ((other : String) → Owns m other rpc → other ≡ name)
        × (contains m.features "rpc" ≡ true))
    × ((name rpc : String)
        → Uses m name rpc
        → (is_framework_service m name ≡ false)
          × ((owner : String) × Owns m owner rpc × (owner ≢ name)))

each_at :
    (f : String → Errors) (xs : List String) (x : String)
    → All (λ y. f y ≡ []) xs
    → contains xs x ≡ true
    → f x ≡ []
each_at f [] x _ e = contains-nothing x e
each_at f (y ∷ ys) x (here, later) e = elim (contains-head y x ys e) [
  | inl same ↦ subst (λ z. f z ≡ []) same here
  | inr in_rest ↦ each_at f ys x later in_rest
]

owner_error-found :
    (name rpc : String) (found : Option String)
    → owner_error name rpc found ≡ []
    → (owner : String) × (found ≡ some owner) × (owner ≢ name)
owner_error-found name rpc none h = cc
owner_error-found name rpc (some owner) h =
    let apart = (error_if_iff (str_eq owner name) (own_rpc name rpc)).0 h in
    (
      owner,
      refl,
      (λ same.
          let together = (str_eq_iff owner name).1 same in
          let clash : true ≡ false = sym together ∙ apart in cc),
    )

owned :
    (owners : Owners) (rpc name : String) → lookup rpc owners ≡ some name → is_owned owners ≡ true
unfolding lookup
owned [] rpc name h = cc
owned (entry ∷ owners) rpc name h = refl

lookup-nothing : {A : Type 0} (rpc name : String) → lookup rpc [] ≡ some name → A
unfolding lookup
lookup-nothing rpc name h = cc

among_names :
    (m : Manifest) (n : String) → contains (sorted_service_names m) n ≡ contains (keys m.services) n
unfolding sorted_service_names
among_names m n = contains-sort_strings (keys m.services) n

both_enabled : (a b : Bool) → a ≡ true → (a && not b) ≡ false → b ≡ true
both_enabled a b ha h = ground arith

use_rpcs-found :
    (m : Manifest) (owners : Owners) (name rpc : String)
    → use_rpcs m owners name ≡ []
    → contains (service_of m name).uses_rpcs rpc ≡ true
    → (is_framework_service m name ≡ false)
      × ((owner : String) × (lookup rpc owners ≡ some owner) × (owner ≢ name))
unfolding use_rpcs
use_rpcs-found m owners name rpc h uses =
    let check : String → Errors = λ r.
      owner_error name r (lookup r owners)
      ++ error_if (is_framework_service m name) (framework_uses_rpc name r) in
    let used =
      each_at check (service_of m name).uses_rpcs rpc
        ((each_iff check (service_of m name).uses_rpcs).0 h) uses in
    let (found, own) = (join_iff (owner_error name rpc (lookup rpc owners)) _).0 used in
    (
      (error_if_iff (is_framework_service m name) (framework_uses_rpc name rpc)).0 own,
      owner_error-found name rpc (lookup rpc owners) found,
    )

-- A manifest whose remote procedures are reported without an error: each that a service declares has
-- a valid name, its owner is the only one and hosts no framework service, and the rpc feature is
-- enabled; and each that a service uses is owned by a service other than it, which hosts no
-- framework service.
pub validate_rpcs-Owned : (m : Manifest) → validate_rpcs m ≡ [] → RpcsAreOwned m
unfolding validate_rpcs
validate_rpcs-Owned m h =
    let names = sorted_service_names m in
    let owners = (own_all m [] names).1 in
    let (clean, rest) = (join_iff (own_all m [] names).0 _).0 h in
    let (users, feature) = (join_iff (each (use_rpcs m owners) names) _).0 rest in
    let (table, _, added) =
      own_all-Round m names [] names (λ n e. e) (λ rpc n e. lookup-nothing rpc n e) clean in
    let enabled =
      (error_if_iff (is_owned owners && not (contains m.features "rpc")) no_rpc_feature).0
        feature in
    let among : (n : String) → contains names n ≡ contains (keys m.services) n = among_names m in
    (
      (λ name rpc (e, owns).
          let found = added name rpc (among name ∙ e, owns) in
          let (_, _, valid, own) = table rpc name found in
          (
            valid,
            own,
            (λ other (e', owns').
                let found' = added other rpc (among other ∙ e', owns') in
                let same : some other ≡ some name = sym found' ∙ found in cc),
            both_enabled (is_owned owners) (contains m.features "rpc") (owned owners rpc name found)
                enabled,
          )),
      (λ name rpc (e, uses).
          let used : use_rpcs m owners name ≡ [] =
            each_at (use_rpcs m owners) names name ((each_iff (use_rpcs m owners) names).0 users)
              (among name ∙ e) in
          let (own, (owner, found, apart)) = use_rpcs-found m owners name rpc used uses in
          let (e', owns, _, _) = table rpc owner found in
          (own, (owner, (sym (among owner) ∙ e', owns), apart))),
    )
