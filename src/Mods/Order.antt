-- ===== src/Mods/Order.antt =====
-- What a successful resolution is: the requested mods and what they need, each once, each behind
-- its dependencies.
use roost_codegen.Prelude.{
  ℕ, zero, suc, String, true, false, List, [], ◌∷◌, ◌++◌, Option, none, some, ◌≡◌, refl, sym, subst,
  inl, inr, ◌∙◌, arith, str_eq, str_eq_iff, contains, contains-append, contains-Mem, Mem-contains,
  Nodup, Nodup-concat, All, Mem, Bool-cases, append_assoc, append-nil, length,
}
use roost_codegen.Mods.{
  Catalog, depends, Walk, Outcome, ok, unknown, cycle, out_of_fuel, ◌>>=◌, enter, leave, visit_each,
  visit_found, visit, start, with_persistence, resolve_in,
}

-- Every mod of the list stands in the catalogue, behind its dependencies; `before` has gone out
-- already.
abbrev pub IsOrdered : Catalog → List String → List String → Type 0
IsOrdered catalog before [] = Unit
IsOrdered catalog before (name ∷ names) =
    ((deps : List String) × (depends catalog name ≡ some deps)
      × All (λ d. contains before d ≡ true) deps)
    × IsOrdered catalog (before ++ name ∷ []) names

IsOrdered-concat :
    (catalog : Catalog) (before names : List String) (name : String) (deps : List String)
    → IsOrdered catalog before names
    → depends catalog name ≡ some deps
    → All (λ d. contains (before ++ names) d ≡ true) deps
    → IsOrdered catalog before (names ++ name ∷ [])
IsOrdered-concat catalog before [] name deps h e ready = ((deps, e, rw append-nil at ready), tt)
IsOrdered-concat catalog before (x ∷ names) name deps (here, h) e ready =
    (here, IsOrdered-concat catalog (before ++ x ∷ []) names name deps h e (rw append_assoc ready))

bind-eq-ok :
    (r : Outcome) (f : Walk → Outcome) {s : Walk}
    → (r >>= f) ≡ ok s
    → (t : Walk) × (r ≡ ok t) × (f t ≡ ok s)
bind-eq-ok (ok t) f e = (t, refl, e)
bind-eq-ok (unknown name) f e = cc
bind-eq-ok (cycle name) f e = cc
bind-eq-ok out_of_fuel f e = cc

-- The mods that a request needs.
pub data Needs (catalog : Catalog) (requested : List String) : String → Type 0 where
  asked : {name : String} → Mem name requested → Needs catalog requested name
  dependency :
      {name d : String} {deps : List String}
      → Needs catalog requested name
      → depends catalog name ≡ some deps
      → Mem d deps
      → Needs catalog requested d

pub All-of_Mem :
    (P : String → Type 0) (xs : List String) → ((x : String) → Mem x xs → P x) → All P xs
All-of_Mem P [] h = tt
All-of_Mem P (x ∷ xs) h = (h x (inl refl), All-of_Mem P xs (λ y m. h y (inr m)))

All-map :
    (P Q : String → Type 0) (xs : List String) → ((x : String) → P x → Q x) → All P xs → All Q xs
All-map P Q [] f h = tt
All-map P Q (x ∷ xs) f (p, h) = (f x p, All-map P Q xs f h)

module _ (catalog : Catalog) (requested : List String) where
  -- What holds of the captured variables between two visits.
  pub record IsSound (s : Walk) : Type 0 where
    pub seen_out : (k : String) → s.seen k ≡ contains s.out k
    pub ordered : IsOrdered catalog [] s.out
    pub distinct : Nodup s.out
    pub needed : (k : String) → s.seen k ≡ true → Needs catalog requested k

  -- How a visit that succeeds changes them.
  pub record Grows (s s' : Walk) : Type 0 where
    pub same_visiting : (k : String) → s'.visiting k ≡ s.visiting k
    pub keeps_seen : (k : String) → s.seen k ≡ true → s'.seen k ≡ true
    pub holds : (k : String) → s.visiting k ≡ true → s'.seen k ≡ s.seen k

  Grows-refl : (s : Walk) → Grows s s
  Grows-refl s = record { same_visiting = λ k. refl; keeps_seen = λ k h. h; holds = λ k h. refl }

  Grows-trans : (s t u : Walk) → Grows s t → Grows t u → Grows s u
  Grows-trans s t u g h = record {
    same_visiting = λ k. h.same_visiting k ∙ g.same_visiting k;
    keeps_seen = λ k e. h.keeps_seen k (g.keeps_seen k e);
    holds = λ k e. h.holds k (g.same_visiting k ∙ e) ∙ g.holds k e;
  }

  abbrev pub Visited : String → Walk → Walk → Type 0
  Visited name s s' = IsSound s' × Grows s s' × (s'.seen name ≡ true)

  abbrev pub Visits : (String → Walk → Outcome) → Type 0
  Visits f =
      (name : String) (s s' : Walk)
      → IsSound s
      → Needs catalog requested name
      → f name s ≡ ok s'
      → Visited name s s'

  visit_each-Visited :
      (f : String → Walk → Outcome) (names : List String) (s s' : Walk)
      → Visits f
      → IsSound s
      → All (Needs catalog requested) names
      → visit_each f names s ≡ ok s'
      → IsSound s' × Grows s s' × All (λ d. s'.seen d ≡ true) names
  unfolding visit_each
  visit_each-Visited f [] s s' step h _ e =
      let same : s ≡ s' = cc in
      subst (λ t. IsSound t × Grows s t × Unit {0}) same (h, Grows-refl s, tt)
  visit_each-Visited f (name ∷ names) s s' step h (need, needs) e =
      let (t, first, rest) = bind-eq-ok (f name s) (visit_each f names) e in
      let (h', g, seen) = step name s t h need first in
      let (h'', g', seens) = visit_each-Visited f names t s' step h' needs rest in
      (h'', Grows-trans s t s' g g', (g'.keeps_seen name seen, seens))

  pub enter-IsSound : (name : String) (s : Walk) → IsSound s → IsSound (enter name s)
  enter-IsSound name s h = record {
    seen_out = h.seen_out;
    ordered = h.ordered;
    distinct = h.distinct;
    needed = h.needed;
  }

  module _ (name : String) (deps : List String) (known : depends catalog name ≡ some deps) where
    leave-IsSound :
        (s : Walk)
        → IsSound s
        → Needs catalog requested name
        → s.seen name ≡ false
        → All (λ d. s.seen d ≡ true) deps
        → IsSound (leave name s)
    unfolding contains
    leave-IsSound s h need fresh ready = record {
      seen_out =
          λ k. ground (arith, h.seen_out k, str_eq_iff name k, contains-append s.out (name ∷ []) k);
      ordered =
          IsOrdered-concat catalog [] s.out name deps h.ordered known
            (All-map _ _ deps (λ d e. sym (h.seen_out d) ∙ e) ready);
      distinct = Nodup-concat s.out name h.distinct (sym (h.seen_out name) ∙ fresh);
      needed = λ k e. elim (Bool-cases (str_eq name k)) [
        | inl same ↦ subst (Needs catalog requested) ((str_eq_iff name k).0 same) need
        | inr other ↦ h.needed k (ground arith)
      ];
    }

    leave-Grows :
        (s t : Walk) → s.visiting name ≡ false → Grows (enter name s) t → Grows s (leave name t)
    leave-Grows s t idle g = record {
      same_visiting = λ k. ground (arith, g.same_visiting k, str_eq_iff name k);
      keeps_seen = λ k e. ground (arith, g.keeps_seen k e);
      holds = λ k e. ground (arith, g.holds k, str_eq_iff name k);
    }

    entered-Visited :
        (f : String → Walk → Outcome) (s s' : Walk)
        → Visits f
        → IsSound s
        → Needs catalog requested name
        → s.seen name ≡ false
        → s.visiting name ≡ false
        → (visit_each f deps (enter name s) >>= λ t. ok (leave name t)) ≡ ok s'
        → Visited name s s'
    entered-Visited f s s' step h need fresh idle e =
        let (t, inner, last) =
          bind-eq-ok (visit_each f deps (enter name s)) (λ t. ok (leave name t)) e in
        let needs = All-of_Mem _ deps (λ d m. dependency need known m) in
        let (h', g, ready) =
          visit_each-Visited f deps (enter name s) t step (enter-IsSound name s h) needs inner in
        let fresh' : t.seen name ≡ false = ground (arith, g.holds name, str_eq_iff name name) in
        let same : leave name t ≡ s' = cc in
        subst (Visited name s) same (
          leave-IsSound t h' need fresh' ready,
          leave-Grows s t idle g,
          ground (arith, str_eq_iff name name),
        )

  visit_found-Visited :
      (f : String → Walk → Outcome) (name : String) (found : Option (List String)) (s s' : Walk)
      → Visits f
      → IsSound s
      → Needs catalog requested name
      → depends catalog name ≡ found
      → visit_found f name found s ≡ ok s'
      → Visited name s s'
  unfolding visit_found
  visit_found-Visited f name none s s' step h need known e = cc
  visit_found-Visited f name (some deps) s s' step h need known e =
      elim (Bool-cases (s.seen name)) [
        | inl old ↦
            let same : s ≡ s' = ground arith in subst (Visited name s) same (h, Grows-refl s, old)
        | inr fresh ↦ elim (Bool-cases (s.visiting name)) [
          | inl busy ↦ absurd (ground arith)
          | inr idle ↦
              entered-Visited name deps known f s s' step h need fresh idle (rw (fresh, idle) at e)
        ]
      ]

  pub visit-Visited : (fuel : ℕ) → Visits (visit catalog fuel)
  unfolding visit
  visit-Visited zero name s s' h need e = cc
  visit-Visited (suc fuel) name s s' h need e =
      visit_found-Visited (visit catalog fuel) name (depends catalog name) s s' (visit-Visited fuel)
        h need refl e

pub start-IsSound : (catalog : Catalog) (requested : List String) → IsSound catalog requested start
unfolding contains
start-IsSound catalog requested = record {
  seen_out = λ k. refl;
  ordered = tt;
  distinct = tt;
  needed = λ k h. cc;
}

Mem-of_All : (P : String → Type 0) (xs : List String) (a : String) → All P xs → Mem a xs → P a
Mem-of_All P [] a h m = absurd m
Mem-of_All P (x ∷ xs) a (p, h) (inl e) = subst P (sym e) p
Mem-of_All P (x ∷ xs) a (p, h) (inr m) = Mem-of_All P xs a h m

-- A resolution is complete, minimal, without repetition and behind its dependencies.
pub record IsResolution (catalog : Catalog) (requested out : List String) : Type 0 where
  pub ordered : IsOrdered catalog [] out
  pub distinct : Nodup out
  pub complete : (name : String) → Mem name requested → Mem name out
  pub minimal : (name : String) → Mem name out → Needs catalog requested name

-- If `resolveMods` returns a list over a catalogue, then every mod of the list stands in the
-- catalogue and behind all its dependencies, no mod stands twice, every mod asked for (and
-- `dataengine`, where `nest` or `saga` is asked for) is in it, and every mod in it is asked for or
-- is a dependency, at any depth, of one that is.
pub resolve_in-IsResolution :
    (catalog : Catalog) (requested : List String) (s : Walk)
    → resolve_in catalog requested ≡ ok s
    → IsResolution catalog (with_persistence requested) s.out
unfolding resolve_in
resolve_in-IsResolution catalog requested s e =
    let asked_for = with_persistence requested in
    let (h, g, seen) =
      visit_each-Visited catalog asked_for (visit catalog (suc (length catalog))) asked_for start s
        (visit-Visited catalog asked_for (suc (length catalog))) (start-IsSound catalog asked_for)
        (All-of_Mem _ asked_for (λ n m. asked m)) e in
    record {
      ordered = h.ordered;
      distinct = h.distinct;
      complete = λ n m. contains-Mem s.out n (sym (h.seen_out n) ∙ Mem-of_All _ asked_for n seen m);
      minimal = λ n m. h.needed n (h.seen_out n ∙ Mem-contains s.out n m);
    }
