-- ===== src/Manifest/Canonical.antt =====
-- internal/roost/manifest.go: the rewriting of legacy names, which `Validate` does first.
use roost_codegen.Prelude.{
  String, false, List, [], ◌∷◌, str_eq, str_eq_iff, ◌≡◌, ◌≢◌, ◌⊎◌, refl, sym, ap, inl, inr,
  Bool-cases, Pointwise,
}
use roost_codegen.Ids.{lookup}
use roost_codegen.Manifest.{
  Manifest, ServiceSpec, legacy_mod_names, legacy_feature_names, renamed, rename_all, rename_mods,
  canonicalize,
}
use roost_codegen.Manifest.Validate.{validate, validate_canonical}

-- A table whose names are rewritten once.
abbrev IsFinal : List (String × String) → Type 0
IsFinal table =
    (value : String)
    → renamed (renamed value (lookup value table))
        (lookup (renamed value (lookup value table)) table)
      ≡ renamed value (lookup value table)

legacy_mod_names-IsFinal : IsFinal legacy_mod_names
unfolding lookup
legacy_mod_names-IsFinal value = elim (Bool-cases (str_eq "sync" value)) [
  | inl same ↦ rw same refl
  | inr other ↦ rw (other, other) refl
]

legacy_feature_names-IsFinal : IsFinal legacy_feature_names
unfolding lookup
legacy_feature_names-IsFinal value = elim (Bool-cases (str_eq "replication-quic" value)) [
  | inl quic ↦ rw quic refl
  | inr not_quic ↦ elim (Bool-cases (str_eq "replication-kcp" value)) [
    | inl kcp ↦ rw (not_quic, kcp) refl
    | inr not_kcp ↦ elim (Bool-cases (str_eq "replication-udp" value)) [
      | inl udp ↦ rw (not_quic, not_kcp, udp) refl
      | inr not_udp ↦ rw (not_quic, not_kcp, not_udp, not_quic, not_kcp, not_udp) refl
    ]
  ]
]

rename_all-rename_all :
    (table : List (String × String)) (values : List String)
    → IsFinal table
    → rename_all table (rename_all table values) ≡ rename_all table values
unfolding rename_all
rename_all-rename_all table [] final = refl
rename_all-rename_all table (value ∷ values) final =
    rw (final value, rename_all-rename_all table values final) refl

rename_mods-rename_mods :
    (services : List (String × ServiceSpec))
    → rename_mods (rename_mods services) ≡ rename_mods services
unfolding rename_mods
rename_mods-rename_mods [] = refl
rename_mods-rename_mods ((name, service) ∷ services) =
    rw
      (
        rename_all-rename_all legacy_mod_names service.mods legacy_mod_names-IsFinal,
        rename_mods-rename_mods services,
      )
      refl

canonicalize-canonicalize : (m : Manifest) → canonicalize (canonicalize m) ≡ canonicalize m
unfolding canonicalize
canonicalize-canonicalize m =
    rw
      (
        rename_all-rename_all legacy_mod_names m.shared_mods legacy_mod_names-IsFinal,
        rename_mods-rename_mods m.services,
        rename_all-rename_all legacy_feature_names m.features legacy_feature_names-IsFinal,
      )
      refl

-- What becomes of a name that may be a legacy one, and of a name of a mod and of a feature.
abbrev pub BecomesMod : String → String → Type 0
BecomesMod old new = ((old ≡ "sync") × (new ≡ "room")) ⊎ ((old ≢ "sync") × (new ≡ old))

abbrev pub BecomesFeature : String → String → Type 0
BecomesFeature old new =
    ((old ≡ "replication-quic") × (new ≡ "nettransport-quic"))
    ⊎ ((old ≡ "replication-kcp") × (new ≡ "nettransport-kcp"))
    ⊎ ((old ≡ "replication-udp") × (new ≡ "nettransport-udp"))
    ⊎ ((old ≢ "replication-quic")
        × (old ≢ "replication-kcp")
        × (old ≢ "replication-udp")
        × (new ≡ old))

abbrev pub BecomesService : String × ServiceSpec → String × ServiceSpec → Type 0
BecomesService (name, service) (name', service') =
    (name' ≡ name)
    × Pointwise BecomesMod service.mods service'.mods
    × (service' ≡ record service { mods = service'.mods })

-- A manifest after the rewriting of its legacy names, of which all else is as it was.
abbrev pub Rewritten : Manifest → Manifest → Type 0
Rewritten m n =
    Pointwise BecomesMod m.shared_mods n.shared_mods
    × Pointwise BecomesService m.services n.services
    × Pointwise BecomesFeature m.features n.features
    × (n ≡ record m { shared_mods = n.shared_mods; services = n.services; features = n.features })

unlike : (a b : String) → str_eq a b ≡ false → b ≢ a
unlike a b e same = let eq = (str_eq_iff a b).1 (sym same) in cc

renamed-BecomesMod :
    (value : String) → BecomesMod value (renamed value (lookup value legacy_mod_names))
unfolding lookup
renamed-BecomesMod value = elim (Bool-cases (str_eq "sync" value)) [
  | inl same ↦ rw same (inl (sym ((str_eq_iff "sync" value).0 same), refl))
  | inr other ↦ rw other (inr (unlike "sync" value other, refl))
]

renamed-BecomesFeature :
    (value : String) → BecomesFeature value (renamed value (lookup value legacy_feature_names))
unfolding lookup
renamed-BecomesFeature value = elim (Bool-cases (str_eq "replication-quic" value)) [
  | inl quic ↦ rw quic (inl (sym ((str_eq_iff "replication-quic" value).0 quic), refl))
  | inr not_quic ↦ elim (Bool-cases (str_eq "replication-kcp" value)) [
    | inl kcp ↦
        rw (not_quic, kcp) (inr (inl (sym ((str_eq_iff "replication-kcp" value).0 kcp), refl)))
    | inr not_kcp ↦ elim (Bool-cases (str_eq "replication-udp" value)) [
      | inl udp ↦
          rw (not_quic, not_kcp, udp)
            (inr (inr (inl (sym ((str_eq_iff "replication-udp" value).0 udp), refl))))
      | inr not_udp ↦
          rw (not_quic, not_kcp, not_udp)
            (inr (
              inr (
                inr (
                  unlike "replication-quic" value not_quic,
                  unlike "replication-kcp" value not_kcp,
                  unlike "replication-udp" value not_udp,
                  refl,
                ))))
    ]
  ]
]

rename_all-Pointwise :
    (table : List (String × String)) (R : String → String → Type 0)
    → ((value : String) → R value (renamed value (lookup value table)))
    → (values : List String) → Pointwise R values (rename_all table values)
unfolding rename_all
rename_all-Pointwise table R each [] = tt
rename_all-Pointwise table R each (value ∷ values) =
    (each value, rename_all-Pointwise table R each values)

rename_mods-Pointwise :
    (services : List (String × ServiceSpec))
    → Pointwise BecomesService services (rename_mods services)
unfolding rename_mods
rename_mods-Pointwise [] = tt
rename_mods-Pointwise ((name, service) ∷ services) = (
  (refl, rename_all-Pointwise legacy_mod_names BecomesMod renamed-BecomesMod service.mods, refl),
  rename_mods-Pointwise services,
)

canonicalize-Rewritten : (m : Manifest) → Rewritten m (canonicalize m)
unfolding canonicalize
canonicalize-Rewritten m = (
  rename_all-Pointwise legacy_mod_names BecomesMod renamed-BecomesMod m.shared_mods,
  rename_mods-Pointwise m.services,
  rename_all-Pointwise legacy_feature_names BecomesFeature renamed-BecomesFeature m.features,
  refl,
)

-- The manifest that `Validate` leaves to its caller is the one given with canonical names: among the
-- shared mods and those of each service "sync" has become "room", among the features each
-- "replication-" with quic, kcp or udp has become "nettransport-" with the same, and every other name
-- and all else is as it was. Validating it once more, as `Marshal` does, reports the same errors and
-- leaves the same manifest.
pub validate-validate :
    (m : Manifest) → Rewritten m (validate m).1 × (validate (validate m).1 ≡ validate m)
unfolding validate
validate-validate m =
    (canonicalize-Rewritten m, ap (λ n. (validate_canonical n, n)) (canonicalize-canonicalize m))
