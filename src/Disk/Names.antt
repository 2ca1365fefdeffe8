-- ===== src/Disk/Names.antt =====
-- Equality of paths, and worlds whose turns leave a path alone.
use roost_codegen.Prelude.{
  String, true, List, [], ◌∷◌, Option, ◌≡◌, ◌≢◌, ◌↔◌, refl, subst, arith, str_eq, str_eq_iff, All,
  and-true,
}
use roost_codegen.Disk.{
  FileName, plain, write_scratch, backup_scratch, FilePath, name_eq, path_eq, Store, put, Turn,
  World, apply_edits,
}

name_eq_sound : (a b : FileName) → name_eq a b ≡ true → a ≡ b
unfolding name_eq
name_eq_sound (plain s) (plain t) h = cc ((str_eq_iff s t).0 h)
name_eq_sound (write_scratch s) (write_scratch t) h = cc ((str_eq_iff s t).0 h)
name_eq_sound (backup_scratch a s) (backup_scratch b t) h =
    let (same, tail) = and-true (name_eq a b) (str_eq s t) h in
    cc (name_eq_sound a b same, (str_eq_iff s t).0 tail)
name_eq_sound _ _ h = cc

name_eq_refl : (a : FileName) → name_eq a a ≡ true
unfolding name_eq
name_eq_refl (plain s) = (str_eq_iff s s).1 refl
name_eq_refl (write_scratch s) = (str_eq_iff s s).1 refl
name_eq_refl (backup_scratch a s) = rw (name_eq_refl a) ((str_eq_iff s s).1 refl)

pub path_eq_iff : (p q : FilePath) → (path_eq p q ≡ true) ↔ (p ≡ q)
unfolding path_eq
path_eq_iff p q = (to, from)
  where
    to : path_eq p q ≡ true → p ≡ q
    to h =
        let (dirs, bases) = and-true (str_eq p.dir q.dir) (name_eq p.base q.base) h in
        let d : p.dir ≡ q.dir = (str_eq_iff p.dir q.dir).0 dirs in
        let b : p.base ≡ q.base = name_eq_sound p.base q.base bases in
        λ i. record { dir = d i; base = b i }

    from : p ≡ q → path_eq p q ≡ true
    from e = rw (← e, (str_eq_iff p.dir p.dir).1 refl, name_eq_refl p.base) refl

abbrev pub IsPlain : FileName → Type 0
IsPlain (plain s) = Unit
IsPlain (write_scratch s) = ⊥
IsPlain (backup_scratch a s) = ⊥

-- The other processes write plain files, and not `p`.
abbrev pub Spares : FilePath → Turn → Type 0
Spares p t = All (λ e. IsPlain e.0.base × (e.0 ≢ p)) t.edits

abbrev pub Alone : FilePath → World → Type 0
Alone p w = All (Spares p) w.turns

pub put_other :
    (files : Store) (p q : FilePath) (content : Option String)
    → p ≢ q
    → put files p content q ≡ files q
put_other files p q content other = ground (arith, path_eq_iff p q)

pub apply_edits_spares :
    (p : FilePath) (edits : List (FilePath × Option String)) (files : Store)
    → All (λ e. IsPlain e.0.base × (e.0 ≢ p)) edits
    → apply_edits edits files p ≡ files p
apply_edits_spares p [] files h = refl
apply_edits_spares p ((q, content) ∷ edits) files ((isplain, other), h) =
    rw (apply_edits_spares p edits (put files q content) h) (put_other files q p content other)

pub apply_edits_scratch :
    (p s : FilePath) (edits : List (FilePath × Option String)) (files : Store)
    → ¬ IsPlain s.base
    → All (λ e. IsPlain e.0.base × (e.0 ≢ p)) edits
    → apply_edits edits files s ≡ files s
apply_edits_scratch p s [] files scratch h = refl
apply_edits_scratch p s ((q, content) ∷ edits) files scratch ((isplain, other), h) =
    rw (apply_edits_scratch p s edits (put files q content) scratch h)
      (put_other files q s content (λ e. scratch (subst (λ x. IsPlain x.base) e isplain)))
