-- ===== src/Attribute/FormulaLaws.antt =====
-- internal/attribute/parse.go: what the formulas of a profile satisfy.
use roost_codegen.Prelude.{
  ◌⊎◌, ℕ, zero, suc, ◌+◌, ◌<◌, true, false, List, [], ◌∷◌, Option, none, some, ◌==◌, ◌≡◌, ◌≢◌, refl,
  ap, subst, arith, Bool-cases, inl, inr,
}
use roost_codegen.Prelude.Text.{Text, codes, text_eq, text_eq_iff, trim_prefix}
use roost_codegen.Prelude.Result.{Result, ok, err, >>=-eq-ok}
use roost_codegen.Attribute.Profile.{TypeExpr, expr_string, AttributeField}
use roost_codegen.Attribute.Formulas.{
  MethodDecl, Formula, FormulaError, wrong_result, wrong_input, is_method_of, find_field, params_of,
  input_of, inputs_of, check_returns, check_inputs, has_formula, set_derived,
}

-- The number of a field that has the given name and type.
abbrev pub IsField : List AttributeField → ℕ → Text → Text → Type 0
IsField [] i name type_text = ⊥
IsField (f ∷ fields) zero name type_text = (f.name ≡ name) × (f.type_text ≡ type_text)
IsField (f ∷ fields) (suc i) name type_text = IsField fields i name type_text

-- The inputs are the numbers of the parameters' fields, in order.
abbrev pub Reads : List AttributeField → List (Text × Text) → List ℕ → Type 0
Reads fields [] [] = Unit
Reads fields [] (input ∷ inputs) = ⊥
Reads fields (param ∷ params) [] = ⊥
Reads fields ((type_text, name) ∷ params) (input ∷ inputs) =
    IsField fields input name type_text × Reads fields params inputs

-- A formula that a method declares: the method has one result, of the type of the field that it is
-- named after, and reads at least one field.
abbrev pub Declares : Text → List AttributeField → MethodDecl → Formula → Type 0
Declares receiver fields fn formula =
    (is_method_of fn.receivers receiver ≡ true)
    × (fn.name ≡ formula.method)
    × ((result : TypeExpr) × (fn.results ≡ result ∷ [])
        × IsField fields formula.output (trim_prefix fn.name (codes "_")) (expr_string result))
    × Reads fields (params_of fn.params) formula.inputs
    × (formula.inputs ≢ [])

pub IsField-set_derived :
    (k i : ℕ) (fields : List AttributeField) (name type_text : Text)
    → IsField fields i name type_text
    → IsField (set_derived k fields) i name type_text
unfolding set_derived
IsField-set_derived k i [] name type_text h = absurd h
IsField-set_derived zero zero (f ∷ fields) name type_text h = h
IsField-set_derived zero (suc i) (f ∷ fields) name type_text h = h
IsField-set_derived (suc k) zero (f ∷ fields) name type_text h = h
IsField-set_derived (suc k) (suc i) (f ∷ fields) name type_text h =
    IsField-set_derived k i fields name type_text h

pub Reads-set_derived :
    (k : ℕ) (fields : List AttributeField) (params : List (Text × Text)) (inputs : List ℕ)
    → Reads fields params inputs
    → Reads (set_derived k fields) params inputs
Reads-set_derived k fields [] [] h = tt
Reads-set_derived k fields [] (input ∷ inputs) h = h
Reads-set_derived k fields (param ∷ params) [] h = h
Reads-set_derived k fields ((type_text, name) ∷ params) (input ∷ inputs) (here, later) = (
  IsField-set_derived k input fields name type_text here,
  Reads-set_derived k fields params inputs later,
)

pub find_field_sound :
    (name : Text) (from i : ℕ) (f : AttributeField) (fields : List AttributeField)
    → find_field name from fields ≡ some (i, f)
    → (k : ℕ) × (i ≡ from + k) × IsField fields k name f.type_text
unfolding find_field
find_field_sound name from i f [] h = cc
find_field_sound name from i f (g ∷ fields) h = elim (Bool-cases (text_eq g.name name)) [
  | inl same ↦
      let found : some (from, g) ≡ some (i, f) = rw same at h in
      let at_from : from ≡ i = cc in
      let is_f : g ≡ f = cc in
      (zero, omega (arith, at_from), ((text_eq_iff g.name name).0 same, ap (λ x. x.type_text) is_f))
  | inr other ↦
      let later : find_field name (suc from) fields ≡ some (i, f) = rw other at h in
      let (k, at_k, is_field) = find_field_sound name (suc from) i f fields later in
      (suc k, omega (arith, at_k), is_field)
]

pub find_field-IsField :
    (name : Text) (i : ℕ) (f : AttributeField) (fields : List AttributeField)
    → find_field name 0 fields ≡ some (i, f)
    → IsField fields i name f.type_text
find_field-IsField name i f fields h =
    let (k, at_k, is_field) = find_field_sound name 0 i f fields h in
    subst (λ j. IsField fields j name f.type_text) (omega (arith, at_k)) is_field

pub input_of_sound :
    (method type_text name : Text) (fields : List AttributeField) (input : ℕ)
    → input_of method type_text name (find_field name 0 fields) ≡ ok input
    → IsField fields input name type_text
input_of_sound method type_text name fields input h = go (find_field name 0 fields) refl h
  where
    go :
        (found : Option (ℕ × AttributeField))
        → find_field name 0 fields ≡ found
        → input_of method type_text name found ≡ ok input
        → IsField fields input name type_text
    go none e h = cc
    go (some (i, f)) e h = elim (Bool-cases (text_eq f.type_text type_text)) [
      | inl same ↦
          let found : ◌≡◌ {A = Result FormulaError ℕ} (ok i) (ok input) = rw same at h in
          let at_input : i ≡ input = cc in
          subst (λ j. IsField fields j name type_text) at_input
            (subst (λ t. IsField fields i name t) ((text_eq_iff f.type_text type_text).0 same)
              (find_field-IsField name i f fields e))
      | inr other ↦
          let stuck : err (wrong_input method name type_text) ≡ ok input = rw other at h in cc
    ]

pub inputs_of-Reads :
    (method : Text) (fields : List AttributeField) (params : List (Text × Text)) (inputs : List ℕ)
    → inputs_of method fields params ≡ ok inputs
    → Reads fields params inputs
unfolding inputs_of
inputs_of-Reads method fields [] inputs h =
    let found : [] ≡ inputs = cc in subst (λ is. Reads fields [] is) found tt
inputs_of-Reads method fields ((type_text, name) ∷ params) inputs h =
    let (input, here, h1) =
      >>=-eq-ok (input_of method type_text name (find_field name 0 fields)) _ h in
    let (others, later, h2) = >>=-eq-ok (inputs_of method fields params) _ h1 in
    let found : input ∷ others ≡ inputs = cc in
    subst (λ is. Reads fields ((type_text, name) ∷ params) is) found
      (
        input_of_sound method type_text name fields input here,
        inputs_of-Reads method fields params others later,
      )

-- The derived fields are those that have a formula; the numbers count from `from`.
abbrev pub DerivedFrom : ℕ → List AttributeField → List Formula → Type 0
DerivedFrom from [] formulas = Unit
DerivedFrom from (f ∷ fields) formulas =
    (f.derived ≡ has_formula from formulas) × DerivedFrom (suc from) fields formulas

pub DerivedFrom-cons :
    (from : ℕ) (fields : List AttributeField) (formulas : List Formula) (g : Formula)
    → g.output < from
    → DerivedFrom from fields formulas
    → DerivedFrom from fields (g ∷ formulas)
unfolding has_formula
DerivedFrom-cons from [] formulas g below h = tt
DerivedFrom-cons from (f ∷ fields) formulas g below (here, later) =
    let apart : (g.output == from) ≡ false = ground arith in
    (rw apart here, DerivedFrom-cons (suc from) fields formulas g (omega (arith, below)) later)

pub DerivedFrom-set_derived :
    (k from : ℕ) (fields : List AttributeField) (formulas : List Formula) (g : Formula)
    → g.output ≡ from + k
    → DerivedFrom from fields formulas
    → DerivedFrom from (set_derived k fields) (g ∷ formulas)
unfolding set_derived has_formula
DerivedFrom-set_derived k from [] formulas g at_k h = tt
DerivedFrom-set_derived zero from (f ∷ fields) formulas g at_k (here, later) =
    let same : (g.output == from) ≡ true = ground arith in
    (rw same refl, DerivedFrom-cons (suc from) fields formulas g (omega (arith, at_k)) later)
DerivedFrom-set_derived (suc k) from (f ∷ fields) formulas g at_k (here, later) =
    let apart : (g.output == from) ≡ false = ground arith in
    (
      rw apart here,
      DerivedFrom-set_derived k (suc from) fields formulas g (omega (arith, at_k)) later,
    )

abbrev pub DistinctOutputs : List Formula → Type 0
DistinctOutputs [] = Unit
DistinctOutputs (g ∷ formulas) = (has_formula g.output formulas ≡ false) × DistinctOutputs formulas

abbrev pub IsMethodAmong : MethodDecl → List MethodDecl → Type 0
IsMethodAmong fn [] = ⊥
IsMethodAmong fn (m ∷ methods) = (fn ≡ m) ⊎ IsMethodAmong fn methods

pub check_returns_sound :
    (method wanted : Text) (results : List TypeExpr)
    → check_returns method wanted results ≡ ok tt
    → (result : TypeExpr) × (results ≡ result ∷ []) × (expr_string result ≡ wanted)
check_returns_sound method wanted [] h = cc
check_returns_sound method wanted (result ∷ []) h =
    elim (Bool-cases (text_eq (expr_string result) wanted)) [
      | inl same ↦ (result, refl, (text_eq_iff (expr_string result) wanted).0 same)
      | inr other ↦
          let stuck : err (wrong_result method (expr_string result)) ≡ ok tt = rw other at h in cc
    ]
check_returns_sound method wanted (result ∷ second ∷ more) h = cc

pub check_inputs_sound :
    (method : Text) (inputs : List ℕ) → check_inputs method inputs ≡ ok tt → inputs ≢ []
check_inputs_sound method [] h = cc
check_inputs_sound method (input ∷ inputs) h = λ e. cc
