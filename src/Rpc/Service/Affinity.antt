-- ===== src/Rpc/Service/Affinity.antt =====
-- internal/servicerpc/validate.go: what an accepted affinity looks like.
use roost_codegen.Prelude.{
  ℕ, Bool, true, false, ◌||◌, List, [], ◌∷◌, ◌++◌, Option, none, some, ◌≡◌, ◌⊎◌, inl, inr, refl, ap,
  ◌==◌, arith, All, Bool-cases, Option-cases,
}
use roost_codegen.Prelude.Result.{ok, err, >>=-eq-ok, require-ok}
use roost_codegen.Prelude.Text.{Text, codes, text_eq, text_eq_iff, cut_at, has_suffix, is_some}
use roost_codegen.Rpc.{Field, affinity_form, affinity_no_string}
use roost_codegen.Rpc.Service.{
  Method, check_affinity, find_param, check_key, check_found, split_affinity, has_space_or_paren,
  check_affinities,
}

-- An affinity is empty, or begins with the name of a parameter: one of type `string`, where it is the
-- name alone, and with a dot and a text that ends in `()` behind it otherwise.
abbrev pub AffinityNames : Method → Type 0
AffinityNames m =
    (m.affinity ≡ [])
    ⊎ ((f : Field) × (before after : List Field) × (m.params ≡ before ++ f ∷ after)
        × (((f.name ≡ m.affinity) × (f.type ≡ codes "string"))
            ⊎ ((call : Text) × (m.affinity ≡ f.name ++ (codes "." ++ (call ++ codes "()"))))))

cut_at_sound :
    (sep : ℕ) (s before after : Text)
    → cut_at sep s ≡ some (before, after)
    → s ≡ before ++ sep ∷ after
unfolding cut_at
cut_at_sound sep [] before after e = cc
cut_at_sound sep (c ∷ s) before after e = elim (Bool-cases (c == sep)) [
  | inl found ↦
      let got : some ([], s) ≡ some (before, after) = rw (cut_at, found) at e in
      let is_sep : c ≡ sep = ground arith in cc
  | inr other ↦ elim (Option-cases (cut_at sep s)) [
    | inl uncut ↦ let stuck : none ≡ some (before, after) = rw (cut_at, other, uncut) at e in cc
    | inr ((b, a), cut) ↦
        let got : some (c ∷ b, a) ≡ some (before, after) = rw (cut_at, other, cut) at e in
        let behind : s ≡ b ++ sep ∷ a = cut_at_sound sep s b a cut in
        let first : c ∷ s ≡ c ∷ (b ++ sep ∷ a) = ap (λ r. c ∷ r) behind in cc
  ]
]

has_suffix_sound :
    (s suffix : Text) → has_suffix s suffix ≡ true → (front : Text) × (s ≡ front ++ suffix)
unfolding has_suffix
has_suffix_sound [] suffix e = ([], (text_eq_iff [] suffix).0 e)
has_suffix_sound (c ∷ s) suffix e = elim (Bool-cases (text_eq (c ∷ s) suffix)) [
  | inl same ↦ ([], (text_eq_iff (c ∷ s) suffix).0 same)
  | inr other ↦
      let (front, split) = has_suffix_sound s suffix (rw (has_suffix, other) at e) in
      (c ∷ front, ap (λ r. c ∷ r) split)
]

find_param_sound :
    (name : Text) (fs : List Field) (f : Field)
    → find_param name fs ≡ some f
    → (f.name ≡ name) × ((before after : List Field) × (fs ≡ before ++ f ∷ after))
unfolding find_param
find_param_sound name [] f e = cc
find_param_sound name (g ∷ fs) f e = elim (Bool-cases (text_eq g.name name)) [
  | inl same ↦
      let got : some g ≡ some f = rw (find_param, same) at e in
      let named : g.name ≡ name = (text_eq_iff g.name name).0 same in
      let is_f : g ≡ f = cc in (cc, ([], fs, ap (λ h. h ∷ fs) is_f))
  | inr other ↦
      let (named, (before, after, split)) =
        find_param_sound name fs f (rw (find_param, other) at e) in
      (named, (g ∷ before, after, ap (λ r. g ∷ r) split))
]

-- What the two halves of an affinity say of it.
abbrev Splits : Text → Text → Option Text → Type 0
Splits affinity name none = affinity ≡ name
Splits affinity name (some call) = affinity ≡ name ++ (codes "." ++ call)

split_affinity-Splits :
    (affinity : Text)
    → Splits affinity
        (split_affinity affinity (cut_at b'.' affinity)).0
        (split_affinity affinity (cut_at b'.' affinity)).1
split_affinity-Splits affinity = elim (Option-cases (cut_at b'.' affinity)) [
  | inl whole ↦ rw whole refl
  | inr ((before, after), cut) ↦ rw cut (cut_at_sound b'.' affinity before after cut)
]

key_sound :
    (m : Method) (f : Field) (name : Text) (call : Option Text)
    → f.name ≡ name
    → Splits m.affinity name call
    → check_key m.name m.affinity f call ≡ ok tt
    → ((f.name ≡ m.affinity) × (f.type ≡ codes "string"))
      ⊎ ((front : Text) × (m.affinity ≡ f.name ++ (codes "." ++ (front ++ codes "()"))))
key_sound m f name none named splits e =
    let is_string =
      require-ok (text_eq f.type (codes "string"))
        (affinity_no_string m.name m.affinity f.name f.type) e in
    inl (cc, (text_eq_iff f.type (codes "string")).0 is_string)
key_sound m f name (some call) named splits e = elim (Bool-cases (has_suffix call (codes "()"))) [
  | inr unclosed ↦
      let stuck : err (affinity_form m.name m.affinity) ≡ ok tt = rw unclosed at e in cc
  | inl closed ↦ let (front, is_call) = has_suffix_sound call (codes "()") closed in inr (front, cc)
]

found_sound :
    (m : Method) (name : Text) (call : Option Text)
    → Splits m.affinity name call
    → check_found m.name m.affinity name (find_param name m.params) call ≡ ok tt
    → AffinityNames m
found_sound m name call splits e = elim (Option-cases (find_param name m.params)) [
  | inl missing ↦
      let stuck : check_found m.name m.affinity name none call ≡ ok tt = rw missing at e in cc
  | inr (f, found) ↦
      let (named, (before, after, split)) = find_param_sound name m.params f found in
      inr (f, before, after, split, key_sound m f name call named splits (rw found at e))
]

check_affinity_sound : (m : Method) → check_affinity m ≡ ok tt → AffinityNames m
unfolding check_affinity
check_affinity_sound m e = elim (Bool-cases (text_eq m.affinity [])) [
  | inl none_given ↦ inl ((text_eq_iff m.affinity []).0 none_given)
  | inr some_given ↦
      found_sound m (split_affinity m.affinity (cut_at b'.' m.affinity)).0
        (split_affinity m.affinity (cut_at b'.' m.affinity)).1 (split_affinity-Splits m.affinity)
        (rw (check_affinity, some_given) at e)
]

pub check_affinities_sound : (ms : List Method) → check_affinities ms ≡ ok tt → All AffinityNames ms
unfolding check_affinities
check_affinities_sound [] e = tt
check_affinities_sound (m ∷ ms) e =
    let (_, first, rest) = >>=-eq-ok (check_affinity m) _ e in
    (check_affinity_sound m first, check_affinities_sound ms rest)

cut_at-append :
    (sep : ℕ) (s rest : Text) → cut_at sep s ≡ none → cut_at sep (s ++ sep ∷ rest) ≡ some (s, rest)
unfolding cut_at
cut_at-append sep [] rest e =
    let same : (sep == sep) ≡ true = ground arith in rw (cut_at, same) refl
cut_at-append sep (c ∷ s) rest e = elim (Bool-cases (c == sep)) [
  | inl found ↦ let stuck : some ([], s) ≡ none = rw (cut_at, found) at e in cc
  | inr other ↦ elim (Option-cases (cut_at sep s)) [
    | inl uncut ↦ rw (cut_at, other, cut_at-append sep s rest uncut) refl
    | inr ((b, a), cut) ↦ let stuck : some (c ∷ b, a) ≡ none = rw (cut_at, other, cut) at e in cc
  ]
]

cut_at-is_some : (sep : ℕ) (s rest : Text) → is_some (cut_at sep (s ++ sep ∷ rest)) ≡ true
unfolding cut_at
cut_at-is_some sep [] rest = let same : (sep == sep) ≡ true = ground arith in rw (cut_at, same) refl
cut_at-is_some sep (c ∷ s) rest = elim (Bool-cases (c == sep)) [
  | inl found ↦ rw (cut_at, found) refl
  | inr other ↦ elim (Option-cases (cut_at sep (s ++ sep ∷ rest))) [
    | inl uncut ↦ let stuck : false ≡ true = rw uncut at (cut_at-is_some sep s rest) in cc
    | inr ((b, a), cut) ↦ rw (cut_at, other, cut) refl
  ]
]

has_suffix-append : (s suffix : Text) → has_suffix (s ++ suffix) suffix ≡ true
unfolding has_suffix
has_suffix-append [] [] = (text_eq_iff [] []).1 refl
has_suffix-append [] (c ∷ suffix) =
    rw (has_suffix, (text_eq_iff (c ∷ suffix) (c ∷ suffix)).1 refl) refl
has_suffix-append (c ∷ s) suffix = ground (arith, has_suffix-append s suffix)

find_param-is_some :
    (f : Field) (before after : List Field)
    → (g : Field) × (find_param f.name (before ++ f ∷ after) ≡ some g)
unfolding find_param
find_param-is_some f [] after = (f, rw (find_param, (text_eq_iff f.name f.name).1 refl) refl)
find_param-is_some f (b ∷ before) after = elim (Bool-cases (text_eq b.name f.name)) [
  | inl same ↦ (b, rw (find_param, same) refl)
  | inr other ↦
      let (g, found) = find_param-is_some f before after in (g, rw (find_param, other) found)
]

text_eq-empty : (s : Text) (c : ℕ) (rest : Text) → text_eq (s ++ c ∷ rest) [] ≡ false
unfolding text_eq
text_eq-empty [] c rest = refl
text_eq-empty (d ∷ s) c rest = refl

or-true : (a : Bool) {b : Bool} → b ≡ true → (a || b) ≡ true
or-true a h = ground arith

-- An affinity that begins with a parameter's name and a dot and ends in `()` is accepted whatever
-- stands between: arguments and further calls as well as one method's name.
pub derived-accepted :
    (m : Method) (f : Field) (before after : List Field) (call : Text)
    → m.params ≡ before ++ f ∷ after
    → cut_at b'.' f.name ≡ none
    → m.affinity ≡ f.name ++ (codes "." ++ (call ++ codes "()"))
    → check_affinity m ≡ ok tt
unfolding check_affinity
derived-accepted m f before after call at_f no_dot is_derived =
    let (g, found) = find_param-is_some f before after in
    let given : text_eq m.affinity [] ≡ false =
      rw is_derived (text_eq-empty f.name b'.' (call ++ codes "()")) in
    let cut : cut_at b'.' m.affinity ≡ some (f.name, call ++ codes "()") =
      rw is_derived (cut_at-append b'.' f.name (call ++ codes "()") no_dot) in
    let finds : find_param f.name m.params ≡ some g = rw at_f found in
    let closed = has_suffix-append call (codes "()") in
    let paren : has_space_or_paren (call ++ codes "()") ≡ true =
      or-true (is_some (cut_at b' ' (call ++ codes "()"))) (cut_at-is_some b'(' call (codes ")")) in
    rw (given, cut, finds, closed, paren) refl
