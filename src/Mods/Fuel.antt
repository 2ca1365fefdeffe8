-- ===== src/Mods/Fuel.antt =====
-- Every outcome of the resolution explained: the fuel, one more than the catalogue has entries, is
-- always enough, and each error names what is wrong with the request or the catalogue.
use roost_codegen.Prelude.{
  ℕ, zero, suc, ◌<◌, ◌≤◌, ◌+◌, String, Bool, true, false, List, [], ◌∷◌, Option, none, some, ◌≡◌,
  refl, sym, subst, inl, inr, ◌∙◌, arith, str_eq, str_eq_iff, All, Mem, if◌then◌else◌, Bool-cases,
  length,
}
use roost_codegen.Mods.{
  Catalog, depends, Walk, Outcome, ok, unknown, cycle, out_of_fuel, ◌>>=◌, put, enter, leave,
  visit_each, visit_found, visit, start, with_persistence, resolve_in,
}
use roost_codegen.Mods.Order.{
  Needs, asked, dependency, IsSound, Grows, Visits, visit-Visited, enter-IsSound, start-IsSound,
  IsResolution, resolve_in-IsResolution, All-of_Mem,
}

-- `b` is a dependency of `a`, at any depth.
pub data Below (catalog : Catalog) (a : String) : String → Type 0 where
  direct :
      {b : String} {deps : List String}
      → depends catalog a ≡ some deps
      → Mem b deps
      → Below catalog a b
  further :
      {b c : String} {deps : List String}
      → Below catalog a b
      → depends catalog b ≡ some deps
      → Mem c deps
      → Below catalog a c

-- How many entries of the catalogue are not being visited.
abbrev idle : Catalog → (String → Bool) → ℕ
idle [] visiting = 0
idle ((key, deps) ∷ rest) visiting = (if visiting key then 0 else 1) + idle rest visiting

idle-ext :
    (catalog : Catalog) (f g : String → Bool)
    → ((k : String) → f k ≡ g k)
    → idle catalog f ≡ idle catalog g
idle-ext [] f g h = refl
idle-ext ((key, deps) ∷ rest) f g h = rw (h key, idle-ext rest f g h)

idle-put-le :
    (catalog : Catalog) (f : String → Bool) (name : String)
    → idle catalog (put f name true) ≤ idle catalog f
idle-put-le [] f name = omega arith
idle-put-le ((key, deps) ∷ rest) f name = ground (arith, idle-put-le rest f name)

idle-put-lt :
    (catalog : Catalog) (f : String → Bool) (name : String) {deps : List String}
    → depends catalog name ≡ some deps
    → f name ≡ false
    → idle catalog (put f name true) < idle catalog f
unfolding depends
idle-put-lt [] f name known free = cc
idle-put-lt ((key, ds) ∷ rest) f name known free = elim (Bool-cases (str_eq key name)) [
  | inl same ↦
      let e : key ≡ name = (str_eq_iff key name).0 same in
      ground (arith, e, str_eq_iff name key, idle-put-le rest f name)
  | inr other ↦ ground (arith, other, idle-put-lt rest f name (rw other at known) free)
]

module _ (catalog : Catalog) (requested : List String) where
  -- What each outcome but a success says of the catalogue and the request.
  abbrev Fails : Outcome → Type 0
  Fails (ok s) = Unit
  Fails (unknown name) = Needs catalog requested name × (depends catalog name ≡ none)
  Fails (cycle name) = Needs catalog requested name × Below catalog name name
  Fails out_of_fuel = ⊥

  -- What a visit relies on: the fuel left, and that the mods being visited lie above this one.
  record IsReady (bound : ℕ) (name : String) (s : Walk) : Type 0 where
    room : idle catalog s.visiting < bound
    above : (k : String) → s.visiting k ≡ true → Below catalog k name

  IsReady-ext :
      (bound : ℕ) (name : String) (s t : Walk)
      → Grows catalog requested s t
      → IsReady bound name s
      → IsReady bound name t
  IsReady-ext bound name s t g h = record {
    room = rw (idle-ext catalog t.visiting s.visiting g.same_visiting) h.room;
    above = λ k e. h.above k (sym (g.same_visiting k) ∙ e);
  }

  All-IsReady-ext :
      (bound : ℕ) (names : List String) (s t : Walk)
      → Grows catalog requested s t
      → All (λ d. IsReady bound d s) names
      → All (λ d. IsReady bound d t) names
  All-IsReady-ext bound [] s t g h = tt
  All-IsReady-ext bound (name ∷ names) s t g (p, h) =
      (IsReady-ext bound name s t g p, All-IsReady-ext bound names s t g h)

  abbrev FailsWell : ℕ → (String → Walk → Outcome) → Type 0
  FailsWell bound f =
      (name : String) (s : Walk)
      → IsSound catalog requested s
      → Needs catalog requested name
      → IsReady bound name s
      → Fails (f name s)

  visit_each-Fails :
      (bound : ℕ) (f : String → Walk → Outcome) (names : List String) (s : Walk)
      → Visits catalog requested f
      → FailsWell bound f
      → IsSound catalog requested s
      → All (Needs catalog requested) names
      → All (λ d. IsReady bound d s) names
      → Fails (visit_each f names s)
  unfolding visit_each
  visit_each-Fails bound f [] s step fails h _ _ = tt
  visit_each-Fails bound f (name ∷ names) s step fails h (need, needs) (ready, readies) =
      go (f name s) refl (fails name s h need ready) (λ t first.
        let (h', g, seen) = step name s t h need first in
        visit_each-Fails bound f names t step fails h' needs
          (All-IsReady-ext bound names s t g readies))
    where
      go :
          (r : Outcome)
          → f name s ≡ r
          → Fails r
          → ((t : Walk) → f name s ≡ ok t → Fails (visit_each f names t))
          → Fails (r >>= visit_each f names)
      go (ok t) first why later = later t first
      go (unknown n) first why later = why
      go (cycle n) first why later = why
      go out_of_fuel first why later = why

  Fails-bind : (r : Outcome) (f : Walk → Walk) → Fails r → Fails (r >>= λ t. ok (f t))
  Fails-bind (ok t) f why = tt
  Fails-bind (unknown n) f why = why
  Fails-bind (cycle n) f why = why
  Fails-bind out_of_fuel f why = why

  enter-IsReady :
      (bound : ℕ) (name d : String) (deps : List String) (s : Walk)
      → depends catalog name ≡ some deps
      → s.visiting name ≡ false
      → IsReady (suc bound) name s
      → Mem d deps
      → IsReady bound d (enter name s)
  enter-IsReady bound name d deps s known free ready m = record {
    room = omega (arith, idle-put-lt catalog s.visiting name known free, ready.room);
    above = λ k e. elim (Bool-cases (str_eq name k)) [
      | inl same ↦ subst (λ n. Below catalog n d) ((str_eq_iff name k).0 same) (direct known m)
      | inr other ↦ further (ready.above k (rw other at e)) known m
    ];
  }

  visit_found-Fails :
      (bound : ℕ) (f : String → Walk → Outcome) (name : String) (found : Option (List String))
      (s : Walk)
      → Visits catalog requested f
      → FailsWell bound f
      → IsSound catalog requested s
      → Needs catalog requested name
      → IsReady (suc bound) name s
      → depends catalog name ≡ found
      → Fails (visit_found f name found s)
  unfolding visit_found
  visit_found-Fails bound f name none s step fails h need ready known = (need, known)
  visit_found-Fails bound f name (some deps) s step fails h need ready known =
      elim (Bool-cases (s.seen name)) [
        | inl old ↦ rw old tt
        | inr fresh ↦ elim (Bool-cases (s.visiting name)) [
          | inl busy ↦ rw (fresh, busy) (need, ready.above name busy)
          | inr free ↦
              rw (fresh, free)
                (Fails-bind (visit_each f deps (enter name s)) (leave name) (
                  visit_each-Fails bound f deps (enter name s) step fails
                    (enter-IsSound catalog requested name s h)
                    (All-of_Mem _ deps (λ d m. dependency need known m))
                    (All-of_Mem _ deps
                      (λ d m. enter-IsReady bound name d deps s known free ready m))))
        ]
      ]

  visit-FailsWell : (fuel : ℕ) → FailsWell fuel (visit catalog fuel)
  unfolding visit
  visit-FailsWell zero name s h need ready = absurd (omega (arith, ready.room))
  visit-FailsWell (suc fuel) name s h need ready =
      visit_found-Fails fuel (visit catalog fuel) name (depends catalog name) s
        (visit-Visited catalog requested fuel) (visit-FailsWell fuel) h need ready refl

idle-le-length : (catalog : Catalog) (f : String → Bool) → idle catalog f ≤ length catalog
idle-le-length [] f = omega arith
idle-le-length ((key, deps) ∷ rest) f = ground (arith, idle-le-length rest f)

-- What each outcome of a resolution says.
abbrev pub Explained : Catalog → List String → Outcome → Type 0
Explained catalog requested (ok s) = IsResolution catalog requested s.out
Explained catalog requested (unknown name) =
    Needs catalog requested name × (depends catalog name ≡ none)
Explained catalog requested (cycle name) = Needs catalog requested name × Below catalog name name
Explained catalog requested out_of_fuel = ⊥

-- Whatever the catalogue and the request, `resolveMods` ends, and its outcome is explained: a list
-- is a resolution (its mods stand behind their dependencies, once each, and are exactly the ones
-- needed), an "unknown kit mod" error names a needed mod that the catalogue lacks, and a
-- "dependency cycle" error names a needed mod that depends on itself.
pub resolve_in-Explained :
    (catalog : Catalog) (requested : List String)
    → Explained catalog (with_persistence requested) (resolve_in catalog requested)
resolve_in-Explained catalog requested = go (resolve_in catalog requested) refl failing
  where
    asked_for : List String
    asked_for = with_persistence requested

    failing : Fails catalog asked_for (resolve_in catalog requested)
    failing =
        unfold resolve_in in
        visit_each-Fails catalog asked_for (suc (length catalog))
          (visit catalog (suc (length catalog))) asked_for start
          (visit-Visited catalog asked_for (suc (length catalog)))
          (visit-FailsWell catalog asked_for (suc (length catalog)))
          (start-IsSound catalog asked_for) (All-of_Mem _ asked_for (λ n m. asked m))
          (All-of_Mem _ asked_for (λ n m. record {
            room = omega (arith, idle-le-length catalog (λ _. false));
            above = λ k e. cc;
          }))

    go :
        (r : Outcome)
        → resolve_in catalog requested ≡ r
        → Fails catalog asked_for r
        → Explained catalog asked_for r
    go (ok s) e why = resolve_in-IsResolution catalog requested s e
    go (unknown n) e why = why
    go (cycle n) e why = why
    go out_of_fuel e why = why
