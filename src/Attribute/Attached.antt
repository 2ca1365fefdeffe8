-- ===== src/Attribute/Attached.antt =====
-- internal/attribute/parse.go: every formula that is collected is declared by a method.
use roost_codegen.Prelude.{
  ℕ, true, false, not, ◌||◌, List, [], ◌∷◌, Option, none, some, ◌≡◌, refl, sym, subst, All, arith,
  Bool-cases, inl, inr,
}
use roost_codegen.Prelude.Text.{Text, codes, has_prefix, trim_prefix}
use roost_codegen.Prelude.Result.{ok, err, ◌>>=◌, >>=-eq-ok}
use roost_codegen.Attribute.Profile.{expr_string, AttributeField}
use roost_codegen.Attribute.Formulas.{
  MethodDecl, Formula, duplicate_formula, is_method_of, find_field, params_of, inputs_of,
  check_returns, check_inputs, has_formula, set_derived, State, attach_found, attach_named,
  attach_method, attach_methods,
}
use roost_codegen.Attribute.FormulaLaws.{
  IsField, Declares, IsField-set_derived, Reads-set_derived, find_field-IsField, inputs_of-Reads,
  DerivedFrom, DerivedFrom-set_derived, DistinctOutputs, IsMethodAmong, check_returns_sound,
  check_inputs_sound,
}

abbrev pub added : MethodDecl → ℕ → List ℕ → Formula
added fn output inputs = record { method = fn.name; output = output; inputs = inputs }

module _ (receiver : Text) (methods : List MethodDecl) where
  -- The formulas are declared by methods of the struct, one for each field that is derived.
  pub record IsAttached (s : State) : Type 0 where
    pub declared :
        All (λ g. (fn : MethodDecl) × IsMethodAmong fn methods × Declares receiver s.0 fn g) s.1
    pub distinct : DistinctOutputs s.1
    pub derived : DerivedFrom 0 s.0 s.1

  declared-set_derived :
      (k : ℕ) (fields : List AttributeField) (formulas : List Formula)
      → All
          (λ g. (fn : MethodDecl) × IsMethodAmong fn methods × Declares receiver fields fn g)
          formulas
      → All
          (λ g.
            (fn : MethodDecl) × IsMethodAmong fn methods
            × Declares receiver (set_derived k fields) fn g)
          formulas
  declared-set_derived k fields [] h = tt
  declared-set_derived k fields (g ∷ formulas)
        ((fn, among, (is_method, named, returns, reads, some_input)), later) =
      let (result, one, is_field) = returns in
      (
        (
          fn,
          among,
          (
            is_method,
            named,
            (
              result,
              one,
              IsField-set_derived k g.output fields (trim_prefix fn.name (codes "_"))
                  (expr_string result) is_field,
            ),
            Reads-set_derived k fields (params_of fn.params) g.inputs reads,
            some_input,
          ),
        ),
        declared-set_derived k fields formulas later,
      )

  -- What a method that adds a formula has passed, and what it adds.
  pub attach_found-eq-ok :
      (fn : MethodDecl) (s later : State) (output : ℕ) (f : AttributeField)
      → attach_found fn s (output, f) ≡ ok later
      → (inputs : List ℕ) × (has_formula output s.1 ≡ false)
        × (check_returns fn.name f.type_text fn.results ≡ ok tt)
        × (inputs_of fn.name s.0 (params_of fn.params) ≡ ok inputs)
        × (check_inputs fn.name inputs ≡ ok tt)
        × ((set_derived output s.0, added fn output inputs ∷ s.1) ≡ later)
  unfolding attach_found
  attach_found-eq-ok fn (fields, formulas) later output f h =
      elim (Bool-cases (has_formula output formulas)) [
        | inl twice ↦
            let stuck : err (duplicate_formula f.name) ≡ ok later = rw (attach_found, twice) at h in
            cc
        | inr fresh ↦
            let h0 : (check_returns fn.name f.type_text fn.results >>= λ _.
            inputs_of fn.name fields (params_of fn.params) >>= λ inputs.
            check_inputs fn.name inputs >>= λ _.
            ok (set_derived output fields, added fn output inputs ∷ formulas))
                ≡ ok later =
              rw (attach_found, fresh) at h in
            let (_, returns, h1) = >>=-eq-ok (check_returns fn.name f.type_text fn.results) _ h0 in
            let (inputs, reads, h2) =
              >>=-eq-ok (inputs_of fn.name fields (params_of fn.params)) _ h1 in
            let (_, given, h3) = >>=-eq-ok (check_inputs fn.name inputs) _ h2 in
            (inputs, fresh, returns, reads, given, cc)
      ]

  attach_found-IsAttached :
      (fn : MethodDecl) (s later : State) (output : ℕ) (f : AttributeField)
      → IsMethodAmong fn methods
      → is_method_of fn.receivers receiver ≡ true
      → find_field (trim_prefix fn.name (codes "_")) 0 s.0 ≡ some (output, f)
      → IsAttached s
      → attach_found fn s (output, f) ≡ ok later
      → IsAttached later
  attach_found-IsAttached fn (fields, formulas) later output f among is_method found attached h =
      let (inputs, fresh, returns, reads, given, same) =
        attach_found-eq-ok fn (fields, formulas) later output f h in
      let (result, one, typed) = check_returns_sound fn.name f.type_text fn.results returns in
      let output_name = trim_prefix fn.name (codes "_") in
      let is_output : IsField fields output output_name (expr_string result) =
        subst (λ t. IsField fields output output_name t) (sym typed)
          (find_field-IsField output_name output f fields found) in
      subst IsAttached same record {
        declared = (
          (
            fn,
            among,
            (
              is_method,
              refl,
              (
                result,
                one,
                IsField-set_derived output output fields output_name (expr_string result) is_output,
              ),
              Reads-set_derived output fields (params_of fn.params) inputs
                  (inputs_of-Reads fn.name fields (params_of fn.params) inputs reads),
              check_inputs_sound fn.name inputs given,
            ),
          ),
          declared-set_derived output fields formulas attached.declared,
        );
        distinct = (fresh, attached.distinct);
        derived =
            DerivedFrom-set_derived output 0 fields formulas (added fn output inputs) (omega arith)
              attached.derived;
      }

  attach_method-IsAttached :
      (fn : MethodDecl) (s later : State)
      → IsMethodAmong fn methods
      → IsAttached s
      → attach_method receiver fn s ≡ ok later
      → IsAttached later
  unfolding attach_method
  attach_method-IsAttached fn s later among attached h =
      elim (Bool-cases
        (not (is_method_of fn.receivers receiver) || not (has_prefix fn.name (codes "_")))) [
          | inl other ↦
              let kept : ok s ≡ ok later = rw other at h in
              let same : s ≡ later = cc in subst IsAttached same attached
          | inr own ↦
              named (find_field (trim_prefix fn.name (codes "_")) 0 s.0) refl (rw own at h)
                (ground arith)
        ]
    where
      named :
          (found : Option (ℕ × AttributeField))
          → find_field (trim_prefix fn.name (codes "_")) 0 s.0 ≡ found
          → attach_named fn s found ≡ ok later
          → is_method_of fn.receivers receiver ≡ true
          → IsAttached later
      named none e h is_method = let same : s ≡ later = cc in subst IsAttached same attached
      named (some (output, f)) e h is_method =
          attach_found-IsAttached fn s later output f among is_method e attached h

  pub attach_from-IsAttached :
      (rest : List MethodDecl) (s later : State)
      → ((fn : MethodDecl) → IsMethodAmong fn rest → IsMethodAmong fn methods)
      → IsAttached s
      → attach_methods receiver rest s ≡ ok later
      → IsAttached later
  unfolding attach_methods
  attach_from-IsAttached [] s later inside attached h =
      let same : s ≡ later = cc in subst IsAttached same attached
  attach_from-IsAttached (fn ∷ rest) s later inside attached h =
      let (between, first, others) = >>=-eq-ok (attach_method receiver fn s) _ h in
      attach_from-IsAttached rest between later (λ m among. inside m (inr among))
        (attach_method-IsAttached fn s between (inside fn (inl refl)) attached first) others
