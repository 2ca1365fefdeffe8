-- ===== src/Ids/Next.antt =====
-- What `NextID` chooses, and that the id it chooses leaves the check of the ids green.
use roost_codegen.Prelude.{
  ℕ, zero, suc, ◌≤◌, ◌<◌, ◌+◌, ◌-◌, String, Bool, true, false, List, [], ◌∷◌, ◌++◌, Option, none,
  some, ◌≡◌, ◌≢◌, refl, sym, inl, inr, arith, str_eq, str_eq_iff, ◌==◌, ◌||◌, not, leb, All,
  Bool-cases, subst,
}
use roost_codegen.Prelude.Int.{ℤ, pos, negsuc, leb_ℤ, ◌≤ℤ◌}
use roost_codegen.Ids.{
  IdUse, IdRange, IdSpace, lookup, Choice, next, not_configured, no_group, no_range, exhausted,
  out_of_fuel, is_used, int_max, on_int, next_from, next_between, next_in_group, next_in_space,
  next_id, check_ids,
}
use roost_codegen.Ids.Clean.{Within, GroupCovers, Fits, IsInSpace, Apart, AllApart, check_ids_iff}

-- The range that a kind and a group name; the empty group is the space's main range.
pub data Names (spaces : List (String × IdSpace)) (kind group : String) (min max : ℤ) : Type 0 where
  main :
      (space : IdSpace)
      → lookup kind spaces ≡ some space
      → group ≡ ""
      → min ≡ space.min
      → max ≡ space.max
      → Names spaces kind group min max
  of_group :
      (space : IdSpace) (r : IdRange)
      → lookup kind spaces ≡ some space
      → group ≢ ""
      → lookup group space.groups ≡ some r
      → min ≡ r.min
      → max ≡ r.max
      → Names spaces kind group min max

-- The least id of a range that no use of the kind holds.
pub record IsLeastFree (used : ℕ → Bool) (min max : ℤ) (id : ℕ) : Type 0 where
  pub positive : pos 1 ≤ℤ min
  pub above : min ≤ℤ pos id
  pub below : pos id ≤ℤ max
  pub free : used id ≡ false
  pub least : (k : ℕ) → min ≤ℤ pos k → k < id → used k ≡ true

-- The search has gone through the greatest int64, every id up to it being used, and has wrapped round
-- to the least int64, -(2 ^ 63).
pub record IsWrapped (used : ℕ → Bool) (min max : ℤ) (below_zero : ℕ) : Type 0 where
  pub positive : pos 1 ≤ℤ min
  pub starts : min ≤ℤ pos int_max
  pub ends : pos int_max ≤ℤ max
  pub least_int : below_zero ≡ int_max
  pub all_used : (k : ℕ) → min ≤ℤ pos k → k ≤ int_max → used k ≡ true

abbrev pub Chosen : (ℕ → Bool) → ℤ → ℤ → Choice → Type 0
Chosen used min max (next (pos id)) = IsLeastFree used min max id
Chosen used min max (next (negsuc n)) = IsWrapped used min max n
Chosen used min max exhausted =
    (pos 1 ≤ℤ min)
    × (min ≤ℤ max)
    × ((k : ℕ) → Within min max k → used k ≡ true)
    × ¬ ((min ≤ℤ pos int_max) × (pos int_max ≤ℤ max))
Chosen used min max no_range = ¬ ((pos 1 ≤ℤ min) × (min ≤ℤ max))
Chosen used min max _ = ⊥

-- The same of the loop that has come to `id`.
abbrev From : (ℕ → Bool) → ℕ → ℕ → Choice → Type 0
From used max id (next (pos n)) =
    (id ≤ n) × (n ≤ max) × (used n ≡ false) × ((k : ℕ) → id ≤ k → k < n → used k ≡ true)
From used max id (next (negsuc n)) =
    (id ≤ int_max)
    × (int_max ≤ max)
    × (n ≡ int_max)
    × ((k : ℕ) → id ≤ k → k ≤ int_max → used k ≡ true)
From used max id exhausted =
    ((k : ℕ) → id ≤ k → k ≤ max → used k ≡ true) × ¬ ((id ≤ int_max) × (int_max ≤ max))
From used max id _ = ⊥

-- A bound from above on the ids that are used goes down by one that is used.
used_down :
    (used : ℕ → Bool) (id : ℕ) (P : ℕ → Type 0)
    → used id ≡ true
    → ((k : ℕ) → id + 1 ≤ k → P k → used k ≡ true)
    → (k : ℕ) → id ≤ k
    → P k
    → used k ≡ true
used_down used id P taken later k a h = elim (Bool-cases (k == id)) [
  | inl same ↦ let e : k ≡ id = ground arith in rw e taken
  | inr other ↦ later k (ground arith) h
]

From-suc :
    (used : ℕ → Bool) (max id : ℕ) (r : Choice)
    → used id ≡ true
    → id ≢ int_max
    → From used max (id + 1) r
    → From used max id r
From-suc used max id (next (pos n)) taken other (low, high, free, least) =
    (omega arith, high, free, used_down used id (λ k. k < n) taken least)
From-suc used max id (next (negsuc n)) taken other (low, high, wrapped, all) =
    (omega arith, high, wrapped, used_down used id (λ k. k ≤ int_max) taken all)
From-suc used max id exhausted taken other (all, short) =
    (used_down used id (λ k. k ≤ max) taken all, λ h. short (omega (arith, h.0, other), h.1))
From-suc used max id not_configured taken other h = h
From-suc used max id no_group taken other h = h
From-suc used max id no_range taken other h = h
From-suc used max id out_of_fuel taken other h = h

-- The ids being used up to the greatest int64, the next test is of the least one.
next_from-wrapped :
    (used : ℕ → Bool) (left max : ℕ)
    → 1 ≤ left
    → next_from (on_int used) left (pos max) (negsuc int_max) ≡ next (negsuc int_max)
unfolding next_from leb_ℤ
next_from-wrapped used zero max h = absurd (omega (arith, h))
next_from-wrapped used (suc left) max h = refl

next_from-From :
    (used : ℕ → Bool) (left max id : ℕ)
    → id ≤ max + 1
    → max + 2 ≤ left + id
    → From used max id (next_from (on_int used) left (pos max) (pos id))
unfolding next_from leb_ℤ
next_from-From used zero max id low enough = absurd (omega (arith, low, enough))
next_from-From used (suc left) max id low enough = elim (Bool-cases (leb id max)) [
  | inr behind ↦
      rw behind ((λ k a b. absurd (ground arith)), (λ h. absurd (ground (arith, h.0, h.1))))
  | inl inside ↦ elim (Bool-cases (used id)) [
    | inr free ↦
        rw (inside, free) (omega arith, ground arith, free, (λ k a b. absurd (omega arith)))
    | inl taken ↦ elim (Bool-cases (id == int_max)) [
      | inl last ↦
          let is_last : id ≡ int_max = ground arith in
          let enough_left : 1 ≤ left = ground arith in
          rw (inside, taken, last, next_from-wrapped used left max enough_left)
            (omega arith, ground arith, refl, (λ k a b. let e : k ≡ id = omega arith in rw e taken))
      | inr more ↦
          let other : id ≢ int_max = λ e. ground arith in
          rw (inside, taken, more)
            (From-suc used max id _ taken other
              (next_from-From used left max (id + 1) (ground arith) (omega arith)))
    ]
  ]
]

From-Chosen :
    (used : ℕ → Bool) (low high : ℕ) (r : Choice)
    → 1 ≤ low
    → low ≤ high
    → From used high low r
    → Chosen used (pos low) (pos high) r
From-Chosen used low high (next (pos n)) p q (a, b, free, least) = record {
  positive = p;
  above = a;
  below = b;
  free = free;
  least = least;
}
From-Chosen used low high (next (negsuc n)) p q (a, b, wrapped, all) = record {
  positive = p;
  starts = a;
  ends = b;
  least_int = wrapped;
  all_used = all;
}
From-Chosen used low high exhausted p q (all, short) = (p, q, (λ k w. all k w.0 w.1), short)
From-Chosen used low high not_configured p q h = h
From-Chosen used low high no_group p q h = h
From-Chosen used low high no_range p q h = absurd h
From-Chosen used low high out_of_fuel p q h = absurd h

pub next_between-Chosen :
    (kind : String) (uses : List IdUse) (min max : ℤ)
    → Chosen (is_used kind uses) min max (next_between kind uses min max)
unfolding next_between leb_ℤ
next_between-Chosen kind uses (negsuc a) (pos b) = λ h. h.0
next_between-Chosen kind uses (negsuc a) (negsuc b) = λ h. h.0
next_between-Chosen kind uses (pos a) (negsuc b) = elim (Bool-cases (leb a 0)) [
  | inl low ↦ rw low (λ h. h.1)
  | inr high ↦ rw high (λ h. h.1)
]
next_between-Chosen kind uses (pos a) (pos b) = elim (Bool-cases (leb a 0 || not (leb a b))) [
  | inl bad ↦ rw bad (λ h. let (low, high) = h in ground arith)
  | inr good ↦ rw good (
      From-Chosen (is_used kind uses) a b _ (ground arith) (ground arith)
        (next_from-From (is_used kind uses) (b + 2 - a) b a (ground arith) (ground arith)))
]

-- What `NextID` may answer, and when.
abbrev pub Answers : List (String × IdSpace) → List IdUse → String → String → Choice → Type 0
Answers spaces uses kind group not_configured = lookup kind spaces ≡ none
Answers spaces uses kind group no_group =
    (space : IdSpace) × (lookup kind spaces ≡ some space)
    × (group ≢ "")
    × (lookup group space.groups ≡ none)
Answers spaces uses kind group out_of_fuel = ⊥
Answers spaces uses kind group r =
    (min : ℤ) × (max : ℤ) × Names spaces kind group min max × Chosen (is_used kind uses) min max r

Answers-of_Chosen :
    (spaces : List (String × IdSpace)) (uses : List IdUse) (kind group : String) (min max : ℤ)
    (r : Choice)
    → Names spaces kind group min max
    → Chosen (is_used kind uses) min max r
    → Answers spaces uses kind group r
Answers-of_Chosen spaces uses kind group min max (next (pos id)) names h = (min, max, names, h)
Answers-of_Chosen spaces uses kind group min max (next (negsuc n)) names h = (min, max, names, h)
Answers-of_Chosen spaces uses kind group min max no_range names h = (min, max, names, h)
Answers-of_Chosen spaces uses kind group min max exhausted names h = (min, max, names, h)
Answers-of_Chosen spaces uses kind group min max not_configured names h = absurd h
Answers-of_Chosen spaces uses kind group min max no_group names h = absurd h
Answers-of_Chosen spaces uses kind group min max out_of_fuel names h = absurd h

module _ (spaces : List (String × IdSpace)) (uses : List IdUse) (kind group : String) where
  next_in_group-Answers :
      (space : IdSpace) (found : Option IdRange)
      → lookup kind spaces ≡ some space
      → group ≢ ""
      → lookup group space.groups ≡ found
      → Answers spaces uses kind group (next_in_group kind uses found)
  next_in_group-Answers space none e other absent = (space, e, other, absent)
  next_in_group-Answers space (some r) e other found =
      Answers-of_Chosen spaces uses kind group r.min r.max _
        (of_group space r e other found refl refl) (next_between-Chosen kind uses r.min r.max)

  next_in_space-Answers :
      (found : Option IdSpace)
      → lookup kind spaces ≡ found
      → Answers spaces uses kind group (next_in_space kind group uses found)
  next_in_space-Answers none e = e
  next_in_space-Answers (some space) e = elim (Bool-cases (str_eq group "")) [
    | inl main_range ↦ rw main_range (
        Answers-of_Chosen spaces uses kind group space.min space.max _
          (main space e ((str_eq_iff group "").0 main_range) refl refl)
          (next_between-Chosen kind uses space.min space.max))
    | inr other ↦ rw other (
        next_in_group-Answers space (lookup group space.groups) e
          (λ same. let clash = (str_eq_iff group "").1 same in cc) refl)
  ]

  -- The answer of `NextID`, for every project and with the fuel given: an id that is not negative is
  -- the least one of the configured range (of the group, or of the whole space where no group is
  -- named) that no use of the kind holds, and the range starts above 0; a negative one is -(2 ^ 63),
  -- and 2 ^ 63 - 1 is in the range and every id of the range up to it is used; "exhausted" means that
  -- the range starts above 0 and is not empty, that every id of it is used, and that 2 ^ 63 - 1 is not
  -- in it; "no usable range" that the range is empty or starts below 1; and the other two errors that
  -- the kind, or the group within it, is not configured.
  pub next_id-Answers : Answers spaces uses kind group (next_id spaces uses kind group)
  unfolding next_id
  next_id-Answers = next_in_space-Answers (lookup kind spaces) refl

lookup_group-GroupCovers :
    (group : String) (groups : List (String × IdRange)) (r : IdRange) (id : ℕ)
    → lookup group groups ≡ some r
    → Within r.min r.max id
    → GroupCovers groups id
unfolding lookup
lookup_group-GroupCovers group [] r id e w = cc
lookup_group-GroupCovers group ((name, q) ∷ rest) r id e w = elim (Bool-cases (str_eq name group)) [
  | inl same ↦
      let found : q ≡ r = ground arith in inl (subst (λ x. Within x.min x.max id) (sym found) w)
  | inr other ↦ inr (lookup_group-GroupCovers group rest r id (rw other at e) w)
]

is_used-false :
    (kind : String) (uses : List IdUse) (id : ℕ) (file : String)
    → is_used kind uses id ≡ false
    → All (Apart (record { kind = kind; id = id; file = file })) uses
unfolding is_used
is_used-false kind [] id file h = tt
is_used-false kind (u ∷ uses) id file h = (
  λ both. ground (arith, str_eq_iff u.kind kind, both.0, both.1),
  is_used-false kind uses id file (ground arith),
)

Apart-sym : (u v : IdUse) → Apart u v → Apart v u
Apart-sym u v h both = h (sym both.0, sym both.1)

All-insert {ℓ κ} :
    {A : Type ℓ} (P : A → Type κ) (before after : List A) (x : A)
    → P x
    → All P (before ++ after)
    → All P (before ++ x ∷ after)
All-insert P [] after x p h = (p, h)
All-insert P (y ∷ before) after x p h = (h.0, All-insert P before after x p h.1)

AllApart-insert :
    (before after : List IdUse) (u : IdUse)
    → All (Apart u) (before ++ after)
    → AllApart (before ++ after)
    → AllApart (before ++ u ∷ after)
AllApart-insert [] after u new h = (new, h)
AllApart-insert (v ∷ before) after u (new, news) (h, hs) =
    (All-insert _ before after u (Apart-sym u v new) h, AllApart-insert before after u news hs)

Fits-next :
    (spaces : List (String × IdSpace)) (uses : List IdUse) (kind group : String) (id : ℕ)
    → next_id spaces uses kind group ≡ next (pos id)
    → Fits (lookup kind spaces) id × (is_used kind uses id ≡ false)
Fits-next spaces uses kind group id e =
    let (min, max, names, chosen) =
      subst (Answers spaces uses kind group) e (next_id-Answers spaces uses kind group) in
    (covers min max names chosen, chosen.free)
  where
    covers :
        (min max : ℤ)
        → Names spaces kind group min max
        → IsLeastFree (is_used kind uses) min max id
        → Fits (lookup kind spaces) id
    covers min max (main space found same low high) chosen =
        rw found
          (inl (rw low at chosen.positive, (rw low at chosen.above, rw high at chosen.below)))
    covers min max (of_group space r found other in_group low high) chosen = rw found (
        inr (
          lookup_group-GroupCovers group space.groups r id in_group
            (rw low at chosen.above, rw high at chosen.below)))

-- If the ids of a project pass `CheckIDs` and `NextID` answers an id that is not negative for a kind,
-- then the ids pass again when a file that uses that id for that kind is added, wherever its use
-- comes in the order of the check.
pub check_ids-next_id :
    (spaces : List (String × IdSpace)) (before after : List IdUse) (kind group file : String)
    (id : ℕ)
    → check_ids spaces (before ++ after) ≡ []
    → next_id spaces (before ++ after) kind group ≡ next (pos id)
    → check_ids spaces (before ++ record { kind = kind; id = id; file = file } ∷ after) ≡ []
check_ids-next_id spaces before after kind group file id clean e =
    let (apart, fits) = (check_ids_iff spaces (before ++ after)).0 clean in
    let (fit, free) = Fits-next spaces (before ++ after) kind group id e in
    (check_ids_iff spaces _).1 (
      AllApart-insert before after _ (is_used-false kind (before ++ after) id file free) apart,
      All-insert (IsInSpace spaces) before after _ fit fits,
    )
