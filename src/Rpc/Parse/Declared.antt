-- ===== src/Rpc/Parse/Declared.antt =====
-- internal/servicerpc/parse.go: the names that `declaredNames` gathers, against the names that a
-- package declares.
use roost_codegen.Prelude.{
  Bool, true, false, ◌||◌, List, [], ◌∷◌, ◌++◌, some, ◌≡◌, inl, inr, refl, sym, ap, ◌∙◌, arith,
  if◌then◌else◌, Bool-cases, Option-cases,
}
use roost_codegen.Prelude.Text.{Text, codes, text_eq, text_eq_iff, is_some, lookup_text}
use roost_codegen.Rpc.Wire.{text_mem}
use roost_codegen.Rpc.Service.{Options}
use roost_codegen.Rpc.Parse.{
  Spec, spec_names, type_tok, const_tok, var_tok, import_tok, Decl, func_decl, gen_decl, bad_decl,
  File, note, note_each, note_specs, note_decl, note_decls, note_files, declared_names,
}

-- The names that a declaration puts into the scope of the package: no method and no import.
abbrev pub specs_names : List Spec → List Text
specs_names [] = []
specs_names (spec ∷ specs) = spec_names spec ++ specs_names specs

abbrev pub decl_names : Decl → List Text
decl_names (func_decl true name) = []
decl_names (func_decl false name) = name ∷ []
decl_names (gen_decl import_tok doc specs) = []
decl_names (gen_decl type_tok doc specs) = specs_names specs
decl_names (gen_decl const_tok doc specs) = specs_names specs
decl_names (gen_decl var_tok doc specs) = specs_names specs
decl_names bad_decl = []

abbrev pub decls_names : List Decl → List Text
decls_names [] = []
decls_names (decl ∷ decls) = decl_names decl ++ decls_names decls

abbrev pub pkg_names : List File → List Text
pkg_names [] = []
pkg_names ((path, decls) ∷ files) = decls_names decls ++ pkg_names files

text_mem-append :
    (s : Text) (xs ys : List Text) → text_mem s (xs ++ ys) ≡ (text_mem s xs || text_mem s ys)
unfolding text_mem
text_mem-append s [] ys = refl
text_mem-append s (x ∷ xs) ys = ground (arith, text_mem-append s xs ys)

module _ (name : Text) (named : text_eq name (codes "_") ≡ false) where
  abbrev holds_name : Options → Bool
  holds_name names = is_some (lookup_text name names)

  or-false : (b : Bool) → b ≡ (b || false)
  or-false true = refl
  or-false false = refl

  or-true : (b : Bool) → true ≡ (b || true)
  or-true true = refl
  or-true false = refl

  known-cons :
      (names : Options) (n kind : Text)
      → is_some (if text_eq n name then some kind else lookup_text name names)
        ≡ (holds_name names || text_eq n name)
  known-cons names n kind = elim (Bool-cases (text_eq n name)) [
    | inl same ↦ rw same (or-true (holds_name names))
    | inr other ↦ rw other (or-false (holds_name names))
  ]

  known-held :
      (names : Options) (n k : Text)
      → lookup_text n names ≡ some k
      → holds_name names ≡ (holds_name names || text_eq n name)
  known-held names n k held = elim (Bool-cases (text_eq n name)) [
    | inl same ↦
        let is_n : n ≡ name = (text_eq_iff n name).0 same in
        let known : lookup_text name names ≡ some k = rw is_n at held in rw known refl
    | inr other ↦ rw other (or-false (holds_name names))
  ]

  known-note :
      (names : Options) (n kind : Text)
      → holds_name (note names n kind) ≡ (holds_name names || text_eq n name)
  unfolding note lookup_text
  known-note names n kind = elim (Bool-cases (text_eq n (codes "_"))) [
    | inl blank ↦
        let is_blank : n ≡ codes "_" = (text_eq_iff n (codes "_")).0 blank in
        let other : text_eq n name ≡ false =
          ground (arith, text_eq_iff n name, text_eq_iff name (codes "_")) in
        rw (note, blank, other) (or-false (holds_name names))
    | inr proper ↦ elim (Option-cases (lookup_text n names)) [
      | inl fresh ↦ rw (note, proper, fresh) (known-cons names n kind)
      | inr (k, held) ↦ rw (note, proper, held) (known-held names n k held)
    ]
  ]

  or_assoc : (a b c : Bool) → ((a || b) || c) ≡ (a || (b || c))
  or_assoc true b c = refl
  or_assoc false b c = refl

  known-note_each :
      (kind : Text) (names : Options) (ns : List Text)
      → holds_name (note_each kind names ns) ≡ (holds_name names || text_mem name ns)
  unfolding note_each text_mem
  known-note_each kind names [] = or-false (holds_name names)
  known-note_each kind names (n ∷ ns) =
      known-note_each kind (note names n kind) ns
      ∙ ap (λ b. b || text_mem name ns) (known-note names n kind)
      ∙ or_assoc (holds_name names) (text_eq n name) (text_mem name ns)

  -- A step that adds the names `xs`, and one behind it that adds `ys`.
  known-join :
      (first : Options) (xs ys : List Text) (start : Bool) {last : Bool}
      → holds_name first ≡ (start || text_mem name xs)
      → last ≡ (holds_name first || text_mem name ys)
      → last ≡ (start || text_mem name (xs ++ ys))
  known-join first xs ys start one two =
      two
      ∙ ap (λ b. b || text_mem name ys) one
      ∙ or_assoc start (text_mem name xs) (text_mem name ys)
      ∙ ap (λ b. start || b) (sym (text_mem-append name xs ys))

  known-note_specs :
      (kind : Text) (names : Options) (specs : List Spec)
      → holds_name (note_specs kind names specs)
        ≡ (holds_name names || text_mem name (specs_names specs))
  unfolding note_specs text_mem
  known-note_specs kind names [] = or-false (holds_name names)
  known-note_specs kind names (spec ∷ specs) =
      known-join (note_each kind names (spec_names spec)) (spec_names spec) (specs_names specs)
        (holds_name names) (known-note_each kind names (spec_names spec))
        (known-note_specs kind (note_each kind names (spec_names spec)) specs)

  known-note_decl :
      (names : Options) (decl : Decl)
      → holds_name (note_decl names decl) ≡ (holds_name names || text_mem name (decl_names decl))
  unfolding text_mem
  known-note_decl names (func_decl true n) = or-false (holds_name names)
  known-note_decl names (func_decl false n) =
      known-note names n (codes "a function")
      ∙ ap (λ b. holds_name names || b) (or-false (text_eq n name))
  known-note_decl names (gen_decl import_tok doc specs) = or-false (holds_name names)
  known-note_decl names (gen_decl type_tok doc specs) =
      known-note_specs (codes "a type") names specs
  known-note_decl names (gen_decl const_tok doc specs) =
      known-note_specs (codes "a constant") names specs
  known-note_decl names (gen_decl var_tok doc specs) =
      known-note_specs (codes "a variable") names specs
  known-note_decl names bad_decl = or-false (holds_name names)

  known-note_decls :
      (names : Options) (decls : List Decl)
      → holds_name (note_decls names decls)
        ≡ (holds_name names || text_mem name (decls_names decls))
  unfolding note_decls text_mem
  known-note_decls names [] = or-false (holds_name names)
  known-note_decls names (decl ∷ decls) =
      known-join (note_decl names decl) (decl_names decl) (decls_names decls) (holds_name names)
        (known-note_decl names decl) (known-note_decls (note_decl names decl) decls)

  known-note_files :
      (names : Options) (files : List File)
      → holds_name (note_files names files) ≡ (holds_name names || text_mem name (pkg_names files))
  unfolding note_files text_mem
  known-note_files names [] = or-false (holds_name names)
  known-note_files names ((path, decls) ∷ files) =
      known-join (note_decls names decls) (decls_names decls) (pkg_names files) (holds_name names)
        (known-note_decls names decls) (known-note_files (note_decls names decls) files)

-- `declaredNames` holds a name other than the blank one exactly when some file of the package declares
-- it as a function, a type, a constant or a variable.
pub declared_names-known :
    (name : Text) (files : List File)
    → text_eq name (codes "_") ≡ false
    → is_some (lookup_text name (declared_names files)) ≡ text_mem name (pkg_names files)
unfolding declared_names lookup_text
declared_names-known name files named = known-note_files name named [] files
