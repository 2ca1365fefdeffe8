-- ===== src/Rpc/Parse/Package.antt =====
-- internal/servicerpc/parse.go: what `ParseDir` has made sure of when it accepts a package.
use roost_codegen.Prelude.{
  ℕ, ◌≤◌, Bool, true, not, false, List, [], ◌∷◌, ◌++◌, Option, none, some, ◌≡◌, refl, sym, ◌∙◌,
  subst, ap, arith, inl, inr, All, length, Bool-cases, Pointwise, Pointwise-append,
  Pointwise-length,
}
use roost_codegen.Prelude.Result.{Result, ok, require, ◌>>=◌, ◌>>◌, >>=-eq-ok, then-ok}
use roost_codegen.Prelude.Text.{Text, codes, text_eq, text_eq_iff, is_some, lookup_text}
use roost_codegen.Rpc.{Refusal, no_service_type, no_capability, no_methods, no_request_invalid}
use roost_codegen.Rpc.Wire.{text_mem}
use roost_codegen.Rpc.Service.{
  Options, PkgFacts, Item, Method, Service, option_of, build_service, build_methods, has_methods,
  check_emitted, check_affinities, emitted_names,
}
use roost_codegen.Rpc.Service.Accepted.{Accepted, build_service-Accepted}
use roost_codegen.Rpc.Parse.{
  Comments, RawItem, struct_body, interface_body, other_body, Spec, type_spec, value_spec,
  import_spec, type_tok, const_tok, var_tok, import_tok, Decl, func_decl, gen_decl, bad_decl, File,
  items_of, interface_marker, parse_marked, parse_spec, parse_specs, parse_decl, parse_file,
  parse_files, at_most_one, pkg_facts, parse_package, build_type_index, declared_names,
  declares_request_invalid,
}
use roost_codegen.Rpc.Parse.Declared.{pkg_names, declared_names-known}

-- An interface that a comment marks, with the file that it stands in.
pub record Marked : Type 0 where
  pub path : Text
  pub name : Text
  pub options : Options
  pub items : List Item

abbrev pub flat_map : {X Y : Type 0} → (X → List Y) → List X → List Y
flat_map f [] = []
flat_map f (x ∷ xs) = f x ++ flat_map f xs

abbrev pub marked_with : Text → Text → List RawItem → Option Options → List Marked
marked_with path name raws none = []
marked_with path name raws (some options) =
    record { path = path; name = name; options = options; items = items_of raws } ∷ []

-- The marker stands on the declaration or on the type itself.
abbrev pub marked_spec : Text → Comments → Spec → List Marked
marked_spec path doc (type_spec name own_doc (interface_body raws)) =
    marked_with path name raws (interface_marker (doc ∷ own_doc ∷ []))
marked_spec path doc (type_spec name own_doc (struct_body fs)) = []
marked_spec path doc (type_spec name own_doc other_body) = []
marked_spec path doc (value_spec names) = []
marked_spec path doc import_spec = []

abbrev pub marked_decl : Text → Decl → List Marked
marked_decl path (gen_decl type_tok doc specs) = flat_map (marked_spec path doc) specs
marked_decl path (gen_decl const_tok doc specs) = []
marked_decl path (gen_decl var_tok doc specs) = []
marked_decl path (gen_decl import_tok doc specs) = []
marked_decl path (func_decl has_receiver name) = []
marked_decl path bad_decl = []

-- All marked interfaces of a package, in the order of the files and of their declarations.
abbrev pub marked_interfaces : List File → List Marked
marked_interfaces files = flat_map (λ file. flat_map (marked_decl file.0) file.1) files

module _ (is_upper : ℕ → Bool) (facts : PkgFacts) (pkg : Text) where
  abbrev Built : Marked → Service → Type 0
  Built m s = build_service is_upper facts pkg m.path m.name m.options m.items ≡ ok s

  abbrev BuiltAll : List Marked → List Service → Type 0
  BuiltAll = Pointwise Built

  nothing :
      (ss : List Service) → ◌≡◌ {A = Result Refusal (List Service)} (ok []) (ok ss) → BuiltAll [] ss
  nothing [] e = tt
  nothing (s ∷ ss) e = cc

  parse_marked-Built :
      (path name : Text) (raws : List RawItem) (found : Option Options) (ss : List Service)
      → parse_marked is_upper facts pkg path name raws found ≡ ok ss
      → BuiltAll (marked_with path name raws found) ss
  parse_marked-Built path name raws none ss e = nothing ss e
  parse_marked-Built path name raws (some options) ss e =
      let (s, made, one) =
        >>=-eq-ok (build_service is_upper facts pkg path name options (items_of raws)) _ e in
      let whole : s ∷ [] ≡ ss = cc in
      subst (BuiltAll (marked_with path name raws (some options))) whole (made, tt)

  parse_spec-Built :
      (path : Text) (doc : Comments) (spec : Spec) (ss : List Service)
      → parse_spec is_upper facts pkg path doc spec ≡ ok ss
      → BuiltAll (marked_spec path doc spec) ss
  parse_spec-Built path doc (type_spec name own_doc (interface_body raws)) ss e =
      parse_marked-Built path name raws (interface_marker (doc ∷ own_doc ∷ [])) ss e
  parse_spec-Built path doc (type_spec name own_doc (struct_body fs)) ss e = nothing ss e
  parse_spec-Built path doc (type_spec name own_doc other_body) ss e = nothing ss e
  parse_spec-Built path doc (value_spec names) ss e = nothing ss e
  parse_spec-Built path doc import_spec ss e = nothing ss e

  -- Two lists of results in sequence.
  joined-Built :
      (ms ns : List Marked) (first second : Result Refusal (List Service)) (ss : List Service)
      → ((found : List Service) → first ≡ ok found → BuiltAll ms found)
      → ((found : List Service) → second ≡ ok found → BuiltAll ns found)
      → (first >>= λ found. second >>= λ rest. ok (found ++ rest)) ≡ ok ss
      → BuiltAll (ms ++ ns) ss
  joined-Built ms ns first second ss one two e =
      let (found, got, later) = >>=-eq-ok first _ e in
      let (rest, more, whole) = >>=-eq-ok second _ later in
      let same : found ++ rest ≡ ss = cc in
      subst (BuiltAll (ms ++ ns)) same
        (Pointwise-append Built ms ns found rest (one found got) (two rest more))

  parse_specs-Built :
      (path : Text) (doc : Comments) (specs : List Spec) (ss : List Service)
      → parse_specs is_upper facts pkg path doc specs ≡ ok ss
      → BuiltAll (flat_map (marked_spec path doc) specs) ss
  unfolding parse_specs
  parse_specs-Built path doc [] ss e = nothing ss e
  parse_specs-Built path doc (spec ∷ specs) ss e =
      joined-Built (marked_spec path doc spec) (flat_map (marked_spec path doc) specs)
        (parse_spec is_upper facts pkg path doc spec)
        (parse_specs is_upper facts pkg path doc specs) ss (parse_spec-Built path doc spec)
        (parse_specs-Built path doc specs) e

  parse_decl-Built :
      (path : Text) (decl : Decl) (ss : List Service)
      → parse_decl is_upper facts pkg path decl ≡ ok ss
      → BuiltAll (marked_decl path decl) ss
  parse_decl-Built path (gen_decl type_tok doc specs) ss e = parse_specs-Built path doc specs ss e
  parse_decl-Built path (gen_decl const_tok doc specs) ss e = nothing ss e
  parse_decl-Built path (gen_decl var_tok doc specs) ss e = nothing ss e
  parse_decl-Built path (gen_decl import_tok doc specs) ss e = nothing ss e
  parse_decl-Built path (func_decl has_receiver name) ss e = nothing ss e
  parse_decl-Built path bad_decl ss e = nothing ss e

  parse_file-Built :
      (path : Text) (decls : List Decl) (ss : List Service)
      → parse_file is_upper facts pkg path decls ≡ ok ss
      → BuiltAll (flat_map (marked_decl path) decls) ss
  unfolding parse_file
  parse_file-Built path [] ss e = nothing ss e
  parse_file-Built path (decl ∷ decls) ss e =
      joined-Built (marked_decl path decl) (flat_map (marked_decl path) decls)
        (parse_decl is_upper facts pkg path decl) (parse_file is_upper facts pkg path decls) ss
        (parse_decl-Built path decl) (parse_file-Built path decls) e

  parse_files-Built :
      (files : List File) (ss : List Service)
      → parse_files is_upper facts pkg files ≡ ok ss
      → BuiltAll (marked_interfaces files) ss
  unfolding parse_files
  parse_files-Built [] ss e = nothing ss e
  parse_files-Built ((path, decls) ∷ files) ss e =
      joined-Built (flat_map (marked_decl path) decls) (marked_interfaces files)
        (parse_file is_upper facts pkg path decls) (parse_files is_upper facts pkg files) ss
        (parse_file-Built path decls) (parse_files-Built files) e

module _ (is_upper : ℕ → Bool) where
  at_most_one-length :
      (found ss : List Service)
      → at_most_one is_upper found ≡ ok ss
      → (found ≡ ss) × (length ss ≤ 1)
  at_most_one-length [] ss e =
      let same : [] ≡ ss = cc in (same, subst (λ all. length all ≤ 1) same (omega arith))
  at_most_one-length (s ∷ []) ss e =
      let same : s ∷ [] ≡ ss = cc in (same, subst (λ all. length all ≤ 1) same (omega arith))
  at_most_one-length (s ∷ t ∷ more) ss e = cc

All-text_mem :
    (P : Text → Type 0) (ts : List Text) (t : Text) → text_mem t ts ≡ true → All P ts → P t
unfolding text_mem
All-text_mem P [] t found holds = cc
All-text_mem P (u ∷ ts) t found (here, later) = elim (Bool-cases (text_eq u t)) [
  | inl same ↦ subst P ((text_eq_iff u t).0 same) here
  | inr other ↦ All-text_mem P ts t (rw (text_mem, other) at found) later
]

abbrev service_of : Text → Text → Text → Options → List Method → Service
service_of pkg path name options ms = record {
  pkg_name = pkg;
  interface_name = name;
  service_type = option_of (codes "service_type") options;
  capability = option_of (codes "capability") options;
  methods = ms;
  file = path;
}

build_service-names :
    (is_upper : ℕ → Bool) (facts : PkgFacts) (pkg path name : Text) (options : Options)
    (items : List Item) (s : Service)
    → build_service is_upper facts pkg path name options items ≡ ok s
    → (s.pkg_name ≡ pkg) × (s.interface_name ≡ name) × (s.file ≡ path)
unfolding build_service
build_service-names is_upper (types, declared, request) pkg path name options items s e =
    let (ms, early, late) =
      >>=-eq-ok
        (require (not (text_eq (option_of (codes "service_type") options) [])) no_service_type
          >> require (not (text_eq (option_of (codes "capability") options) [])) no_capability
          >> build_methods is_upper types [] items)
        _ e in
    let (checks, made) =
      then-ok
        (require (has_methods ms) no_methods
          >> require request no_request_invalid
          >> check_emitted declared (emitted_names ms)
          >> check_affinities ms)
        _ late in
    (
      named (λ x. x.pkg_name) ms made,
      named (λ x. x.interface_name) ms made,
      named (λ x. x.file) ms made,
    )
  where
    named :
        (field : Service → Text) (ms : List Method)
        → ◌≡◌ {A = Result Refusal Service} (ok (service_of pkg path name options ms)) (ok s)
        → field s ≡ field (service_of pkg path name options ms)
    named field ms made =
        let same : service_of pkg path name options ms ≡ s = cc in ap field (sym same)

-- The service that a marked interface of a package gives, as its transport needs it.
abbrev pub Deploys : (ℕ → Bool) → Text → List File → Marked → Service → Type 0
Deploys is_upper pkg files m s =
    ((s.pkg_name ≡ pkg) × (s.interface_name ≡ m.name) × (s.file ≡ m.path))
    × Accepted is_upper (build_type_index files) (declared_names files) m.options m.items s
    × ((name : Text)
        → text_eq name (codes "_") ≡ false
        → text_mem name (emitted_names s.methods) ≡ true
        → text_mem name (pkg_names files) ≡ false)
    × (declares_request_invalid files ≡ true)

Built-Deploys :
    (is_upper : ℕ → Bool) (pkg : Text) (files : List File) (m : Marked) (s : Service)
    → Built is_upper (pkg_facts is_upper files) pkg m s
    → Deploys is_upper pkg files m s
Built-Deploys is_upper pkg files m s made =
    let (accepted, has_error) =
      build_service-Accepted is_upper (build_type_index files) (declared_names files)
        (declares_request_invalid files) pkg m.path m.name m.options m.items s made in
    (
      build_service-names is_upper (pkg_facts is_upper files) pkg m.path m.name m.options m.items s
          made,
      accepted,
      (λ emitted named listed.
          let free : lookup_text emitted (declared_names files) ≡ none =
            All-text_mem (λ t. lookup_text t (declared_names files) ≡ none)
              (emitted_names s.methods) emitted listed accepted.no_collision in
          let absent : is_some (lookup_text emitted (declared_names files)) ≡ false =
            rw free refl in
          sym (declared_names-known emitted files named) ∙ absent),
      has_error,
    )

all-Deploys :
    (is_upper : ℕ → Bool) (pkg : Text) (files : List File) (ms : List Marked) (ss : List Service)
    → BuiltAll is_upper (pkg_facts is_upper files) pkg ms ss
    → Pointwise (Deploys is_upper pkg files) ms ss
all-Deploys is_upper pkg files [] [] h = tt
all-Deploys is_upper pkg files [] (s ∷ ss) h = absurd h
all-Deploys is_upper pkg files (m ∷ ms) [] h = absurd h
all-Deploys is_upper pkg files (m ∷ ms) (s ∷ ss) (built, rest) =
    (Built-Deploys is_upper pkg files m s built, all-Deploys is_upper pkg files ms ss rest)

-- A package that is accepted has at most one marked interface, in all its files and declarations, and
-- the services that are returned are those of its marked interfaces, one each, with the package's
-- name, the interface's and its file's: what a service satisfies holds with the options and the
-- methods of its interface and with the struct types and the names of the whole package; no name that
-- the transport declares, the blank one left aside, is declared by any file as a function, a type, a
-- constant or a variable; and some file declares `ErrRequestInvalid`.
pub parse_package-Deploys :
    (is_upper : ℕ → Bool) (pkg : Text) (files : List File) (ss : List Service)
    → parse_package is_upper pkg files ≡ ok ss
    → (length (marked_interfaces files) ≤ 1)
      × Pointwise (Deploys is_upper pkg files) (marked_interfaces files) ss
unfolding parse_package
parse_package-Deploys is_upper pkg files ss e =
    let (found, parsed, limited) =
      >>=-eq-ok (parse_files is_upper (pkg_facts is_upper files) pkg files) _ e in
    let (same, one) = at_most_one-length is_upper found ss limited in
    let built =
      subst (BuiltAll is_upper (pkg_facts is_upper files) pkg (marked_interfaces files)) same
        (parse_files-Built is_upper (pkg_facts is_upper files) pkg files found parsed) in
    (
      omega (
        arith,
        one,
        Pointwise-length (Built is_upper (pkg_facts is_upper files) pkg) (marked_interfaces files)
            ss built,
      ),
      all-Deploys is_upper pkg files (marked_interfaces files) ss built,
    )
