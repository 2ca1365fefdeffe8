-- ===== src/Rpc/Wire/Reach.antt =====
-- The check of wire types against its meaning: every type that is reached through the fields of the
-- package's structs and the values of maps is one that may cross.
use roost_codegen.Prelude.{
  ℕ, zero, suc, ◌+◌, ◌≤◌, ◌<◌, Bool, true, false, List, [], ◌∷◌, ◌++◌, some, ◌≡◌, ◌≢◌, ◌↔◌, refl,
  sym, inl, inr, arith, ◌||◌, if◌then◌else◌, All, length, Bool-cases, Option-cases, All-right,
  append_assoc,
}
use roost_codegen.Prelude.Result.{ok, err, >>=-eq-ok}
use roost_codegen.Prelude.Text.{Text, codes, has_prefix, lookup_text}
use roost_codegen.Rpc.{
  render_type, AstField, Refusal, wire_unsafe, no_crossing, unexported_type, unexported_field,
}
use roost_codegen.Rpc.Wire.{
  TypeIndex, is_wire_unsafe, is_unexported_named, cut_map, base_name, Check, is_exported,
  check_names, check_named, check_field, check_fields, check_struct, check_value, check_level,
  check_deep, check_wire_safe,
}

abbrev pub IsMap : Text → Type 0
IsMap base = has_prefix base (codes "map[") ≡ true

-- The types one level below a type: a map's value, or the type of a field of a struct.
pub data Child (index : TypeIndex) (t u : Text) : Type 0 where
  value :
      (key : Text) → IsMap (base_name t) → cut_map (base_name t) ≡ some (key, u) → Child index t u
  field :
      (fs : List AstField) (before after : List AstField) (f : AstField)
      → has_prefix (base_name t) (codes "map[") ≡ false
      → lookup_text (base_name t) index ≡ some fs
      → fs ≡ before ++ f ∷ after
      → u ≡ render_type f.type
      → Child index t u

-- The types `n` levels below a type.
pub data Reaches (index : TypeIndex) : Text → Text → ℕ → Type 0 where
  here : {t : Text} → Reaches index t t zero
  below : {t u v : Text} {n : ℕ} → Child index t u → Reaches index u v n → Reaches index t v (suc n)

-- What the type itself must be to cross: no name that is listed as unsafe, no channel or function, no
-- unexported type of the package, and, if it is a struct of the package, one with a field and with no
-- unexported one.
pub record MayCross (is_upper : ℕ → Bool) (index : TypeIndex) (t : Text) : Type 0 where
  pub safe : is_wire_unsafe (base_name t) ≡ false
  pub no_chan : has_prefix (base_name t) (codes "chan ") ≡ false
  pub no_func : has_prefix (base_name t) (codes "func(") ≡ false
  pub exported_name : is_unexported_named (base_name t) ≡ false
  pub fields :
      (fs : List AstField)
      → has_prefix (base_name t) (codes "map[") ≡ false
      → lookup_text (base_name t) index ≡ some fs
      → (fs ≢ []) × All (λ f. All (λ name. is_exported is_upper name ≡ true) f.names) fs

module _ (is_upper : ℕ → Bool) (method : Text) (check : Text → Text → Check) where
  abbrev Passes : Text → Type 0
  Passes t = (path : Text) × (check path t ≡ ok tt)

  check_names_sound :
      (path rendered : Text) (exported n : ℕ) (names : List Text)
      → check_names is_upper method check path rendered exported names ≡ ok n
      → All (λ name. is_exported is_upper name ≡ true) names
        × (names ≢ [] → Passes rendered)
        × (exported + length names ≤ n)
  unfolding check_names
  check_names_sound path rendered exported n [] e = (tt, (λ ne. absurd (ne refl)), ground arith)
  check_names_sound path rendered exported n (name ∷ names) e =
      elim (Bool-cases (is_exported is_upper name)) [
        | inl shown ↦
            let (_, first, rest) =
              >>=-eq-ok (check (path ++ (codes "." ++ name)) rendered) _ (rw shown at e) in
            let (shows, _, count) = check_names_sound path rendered (exported + 1) n names rest in
            ((shown, shows), (λ _. (path ++ (codes "." ++ name), first)), omega arith)
        | inr hidden ↦
            let stuck : err (unexported_field method path name) ≡ ok n = rw hidden at e in cc
      ]

  check_named_sound :
      (path rendered : Text) (exported n : ℕ) (names : List Text)
      → check_named is_upper method check path rendered exported names ≡ ok n
      → All (λ name. is_exported is_upper name ≡ true) names × Passes rendered × (exported < n)
  unfolding check_named
  check_named_sound path rendered exported n [] e =
      let (_, first, rest) = >>=-eq-ok (check (path ++ (codes "." ++ rendered)) rendered) _ e in
      (tt, (path ++ (codes "." ++ rendered), first), ground arith)
  check_named_sound path rendered exported n (name ∷ names) e =
      let (shows, passes, count) = check_names_sound path rendered exported n (name ∷ names) e in
      (shows, passes (λ h. cc), omega arith)

  abbrev FoundFine : AstField → Type 0
  FoundFine f = All (λ name. is_exported is_upper name ≡ true) f.names × Passes (render_type f.type)

  check_fields_sound :
      (path : Text) (exported n : ℕ) (fs : List AstField)
      → check_fields is_upper method check path exported fs ≡ ok n
      → All FoundFine fs × (exported + length fs ≤ n)
  unfolding check_fields
  check_fields_sound path exported n [] e = (tt, ground arith)
  check_fields_sound path exported n (f ∷ fs) e =
      let (k, first, rest) = >>=-eq-ok (check_field is_upper method check path exported f) _ e in
      let (shows, passes, more) =
        check_named_sound path (render_type f.type) exported k f.names first in
      let (others, count) = check_fields_sound path k n fs rest in
      (((shows, passes), others), omega arith)

  check_names_complete :
      (path rendered : Text) (exported : ℕ) (names : List Text)
      → All (λ name. is_exported is_upper name ≡ true) names
      → ((p : Text) → check p rendered ≡ ok tt)
      → (n : ℕ) × (check_names is_upper method check path rendered exported names ≡ ok n)
        × (exported + length names ≤ n)
  unfolding check_names
  check_names_complete path rendered exported [] shows passes = (exported, refl, omega arith)
  check_names_complete path rendered exported (name ∷ names) (shown, shows) passes =
      let (n, e, count) = check_names_complete path rendered (exported + 1) names shows passes in
      (n, rw (shown, passes (path ++ (codes "." ++ name))) e, omega arith)

  check_named_complete :
      (path rendered : Text) (exported : ℕ) (names : List Text)
      → All (λ name. is_exported is_upper name ≡ true) names
      → ((p : Text) → check p rendered ≡ ok tt)
      → (n : ℕ) × (check_named is_upper method check path rendered exported names ≡ ok n)
        × (exported < n)
  unfolding check_named
  check_named_complete path rendered exported [] shows passes =
      (exported + 1, rw (passes (path ++ (codes "." ++ rendered))) refl, omega arith)
  check_named_complete path rendered exported (name ∷ names) shows passes =
      let (n, e, count) = check_names_complete path rendered exported (name ∷ names) shows passes in
      (n, e, omega arith)

  abbrev FineAnywhere : AstField → Type 0
  FineAnywhere f =
      All (λ name. is_exported is_upper name ≡ true) f.names
      × ((p : Text) → check p (render_type f.type) ≡ ok tt)

  check_fields_complete :
      (path : Text) (exported : ℕ) (fs : List AstField)
      → All FineAnywhere fs
      → (n : ℕ) × (check_fields is_upper method check path exported fs ≡ ok n)
        × (exported + length fs ≤ n)
  unfolding check_fields
  check_fields_complete path exported [] hs = (exported, refl, omega arith)
  check_fields_complete path exported (f ∷ fs) ((shows, passes), hs) =
      let (k, first, more) =
        check_named_complete path (render_type f.type) exported f.names shows passes in
      let (n, rest, count) = check_fields_complete path k fs hs in (n, rw first rest, omega arith)

All-splits {ℓ κ} :
    {A : Type ℓ} (P : A → Type κ) (front rest : List A)
    → ((before after : List A) (a : A) → front ++ rest ≡ before ++ a ∷ after → P a)
    → All P rest
All-splits P front [] h = tt
All-splits P front (a ∷ rest) h = (
  h front rest a refl,
  All-splits P (front ++ a ∷ []) rest
      λ before after b e. h before after b (rw (← e) (sym (append_assoc front (a ∷ []) rest))),
)

tests_sound :
    (a b c d : Bool) (rest : Check) (r s t : Refusal)
    → (if a then err r else if b || c then err s else if d then err t else rest) ≡ ok tt
    → (a ≡ false) × (b ≡ false) × (c ≡ false) × (d ≡ false) × (rest ≡ ok tt)
tests_sound true b c d rest r s t e = cc
tests_sound false true c d rest r s t e = cc
tests_sound false false true d rest r s t e = cc
tests_sound false false false true rest r s t e = cc
tests_sound false false false false rest r s t e = (refl, refl, refl, refl, e)

module _ (is_upper : ℕ → Bool) (index : TypeIndex) (method : Text)
    (check : Text → Text → Check) where
  struct_sound :
      (path t : Text) (fs : List AstField)
      → check_struct is_upper check method path t (some fs) ≡ ok tt
      → (fs ≢ []) × All (FoundFine is_upper method check) fs
  unfolding check_fields
  struct_sound path t [] e = cc
  struct_sound path t (f ∷ fs) e =
      let (n, walked, counted) =
        >>=-eq-ok (check_fields is_upper method check path 0 (f ∷ fs)) _ e in
      let (sound, _) = check_fields_sound is_upper method check path 0 n (f ∷ fs) walked in
      ((λ h. cc), sound)

  struct_complete :
      (path t : Text) (fs : List AstField)
      → fs ≢ []
      → All (FineAnywhere is_upper method check) fs
      → check_struct is_upper check method path t (some fs) ≡ ok tt
  struct_complete path t [] ne hs = absurd (ne refl)
  struct_complete path t (f ∷ fs) ne hs =
      let (n, walked, count) = check_fields_complete is_upper method check path 0 (f ∷ fs) hs in
      rw walked (ground arith)

  shown_fields :
      (fs : List AstField)
      → All (FoundFine is_upper method check) fs
      → All (λ f. All (λ name. is_exported is_upper name ≡ true) f.names) fs
  shown_fields [] hs = tt
  shown_fields (f ∷ fs) ((shows, _), hs) = (shows, shown_fields fs hs)

  -- What the walk below a type that is let through has found.
  children_sound :
      (path t : Text)
      → (if has_prefix (base_name t) (codes "map[")
          then check_value is_upper check path (cut_map (base_name t))
          else check_struct is_upper check method path t (lookup_text (base_name t) index))
        ≡ ok tt
      → (u : Text) → Child index t u
      → Passes is_upper method check u
  children_sound path t e u (value key is_map cut) =
      let walked : check (path ++ codes "[]") u ≡ ok tt = rw (is_map, cut) at e in
      (path ++ codes "[]", walked)
  children_sound path t e u (field fs before after f no_map found at_f u_is) =
      let walked : check_struct is_upper check method path t (some fs) ≡ ok tt =
        rw (no_map, found) at e in
      let (_, sound) = struct_sound path t fs walked in
      let (_, passes) =
        (All-right (FoundFine is_upper method check) before (f ∷ after) (rw at_f at sound)).0 in
      rw u_is passes

  level_sound :
      (path t : Text)
      → check_level is_upper index method check path t ≡ ok tt
      → MayCross is_upper index t × ((u : Text) → Child index t u → Passes is_upper method check u)
  unfolding check_level
  level_sound path t e =
      let (safe, no_chan, no_func, shown, rest) =
        tests_sound (is_wire_unsafe (base_name t)) (has_prefix (base_name t) (codes "chan "))
          (has_prefix (base_name t) (codes "func(")) (is_unexported_named (base_name t)) _
          (wire_unsafe method path t) (no_crossing method path t) (unexported_type method path t)
          e in
      (
        record {
          safe = safe;
          no_chan = no_chan;
          no_func = no_func;
          exported_name = shown;
          fields = λ fs no_map found.
              let walked : check_struct is_upper check method path t (some fs) ≡ ok tt =
                rw (no_map, found) at rest in
              let (ne, sound) = struct_sound path t fs walked in (ne, shown_fields fs sound);
        },
        children_sound path t rest,
      )

  fields_complete :
      (t : Text)
      → MayCross is_upper index t
      → ((u : Text) → Child index t u → (p : Text) → check p u ≡ ok tt)
      → (fs : List AstField) → has_prefix (base_name t) (codes "map[") ≡ false
      → lookup_text (base_name t) index ≡ some fs
      → All (FineAnywhere is_upper method check) fs
  fields_complete t may children fs no_map found =
      let (_, shows) = may.fields fs no_map found in
      All-splits (FineAnywhere is_upper method check) [] fs λ before after f at_f. (
        (All-right (λ g. All (λ name. is_exported is_upper name ≡ true) g.names) before (f ∷ after)
            (rw at_f at shows)).0,
        children (render_type f.type) (field fs before after f no_map found at_f refl),
      )

  level_complete :
      (path t : Text)
      → MayCross is_upper index t
      → ((u : Text) → Child index t u → (p : Text) → check p u ≡ ok tt)
      → check_level is_upper index method check path t ≡ ok tt
  unfolding check_level
  level_complete path t may children =
      rw (may.safe, may.no_chan, may.no_func, may.exported_name)
        (elim (Bool-cases (has_prefix (base_name t) (codes "map["))) [
          | inl is_map ↦ elim (Option-cases (cut_map (base_name t))) [
            | inl uncut ↦ rw (is_map, uncut) refl
            | inr ((key, u), cut) ↦
                rw (is_map, cut) (children u (value key is_map cut) (path ++ codes "[]"))
          ]
          | inr no_map ↦ elim (Option-cases (lookup_text (base_name t) index)) [
            | inl foreign ↦ rw (no_map, foreign) refl
            | inr (fs, found) ↦
                let (ne, _) = may.fields fs no_map found in
                rw (no_map, found)
                  (struct_complete path t fs ne (fields_complete t may children fs no_map found))
          ]
        ])

-- All that is reached lies within the levels, and may cross.
abbrev pub WireSafe : (ℕ → Bool) → TypeIndex → ℕ → Text → Type 0
WireSafe is_upper index levels t =
    (v : Text) (n : ℕ) → Reaches index t v n → (n < levels) × MayCross is_upper index v

module _ (is_upper : ℕ → Bool) (index : TypeIndex) (method : Text) where
  deep_sound :
      (left : ℕ) (path t : Text)
      → check_deep is_upper index method left path t ≡ ok tt
      → WireSafe is_upper index left t
  unfolding check_deep
  deep_sound zero path t e v n r = cc
  deep_sound (suc left) path t e v n here = (
    omega arith,
    (level_sound is_upper index method (check_deep is_upper index method left) path t e).0,
  )
  deep_sound (suc left) path t e v (suc n) (below {u = u} child r) =
      let (_, passes) =
        level_sound is_upper index method (check_deep is_upper index method left) path t e in
      let (p, passed) = passes u child in
      let (within, may) = deep_sound left p u passed v n r in (omega arith, may)

  deep_complete :
      (left : ℕ) (path t : Text)
      → WireSafe is_upper index left t
      → check_deep is_upper index method left path t ≡ ok tt
  unfolding check_deep
  deep_complete zero path t safe = absurd (omega (arith, (safe t 0 here).0))
  deep_complete (suc left) path t safe =
      level_complete is_upper index method (check_deep is_upper index method left) path t
        (safe t 0 here).1
        λ u child p.
          deep_complete left p u
            λ v n r. let (within, may) = safe v (suc n) (below child r) in (omega arith, may)

-- The check lets a type through exactly when every type that is reached through map values and the
-- fields of the package's structs is at most eight levels down and may cross. The path and the method,
-- which only the messages name, make no difference.
pub check_wire_safe_iff :
    (is_upper : ℕ → Bool) (index : TypeIndex) (method path t : Text)
    → (check_wire_safe is_upper index method path t ≡ ok tt) ↔ WireSafe is_upper index 9 t
unfolding check_wire_safe
check_wire_safe_iff is_upper index method path t =
    (deep_sound is_upper index method 9 path t, deep_complete is_upper index method 9 path t)
