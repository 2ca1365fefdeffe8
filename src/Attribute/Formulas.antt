-- ===== src/Attribute/Formulas.antt =====
-- internal/attribute/parse.go: the methods of a profile that compute a field, as formulas over the
-- numbers of the fields.
use roost_codegen.Prelude.{
  ℕ, zero, suc, Bool, true, false, not, ◌||◌, List, [], ◌∷◌, ◌++◌, Option, none, some, ◌==◌,
  if◌then◌else◌,
}
use roost_codegen.Prelude.Text.{Text, codes, text_eq, has_prefix, trim_prefix}
use roost_codegen.Prelude.Result.{Result, ok, err, ◌>>=◌}
use roost_codegen.Attribute.Profile.{TypeExpr, ident, star, expr_string, AttributeField}

-- One entry of a list of parameters.
pub record ParamDecl : Type 0 where
  pub names : List Text
  pub type_expr : TypeExpr

-- A function with a receiver; the receivers and the results are given by their types.
pub record MethodDecl : Type 0 where
  pub receivers : List TypeExpr
  pub name : Text
  pub results : List TypeExpr
  pub params : List ParamDecl

pub record Formula : Type 0 where
  pub method : Text
  pub output : ℕ
  pub inputs : List ℕ

pub data FormulaError : Type 0 where
  duplicate_formula : (output_name : Text) → FormulaError
  not_one_value : (method : Text) → FormulaError
  wrong_result : (method got : Text) → FormulaError
  unknown_input : (method input : Text) → FormulaError
  wrong_input : (method input got : Text) → FormulaError
  no_input : (method : Text) → FormulaError

-- `isMethodOf`.
unfoldable pub is_method_of : List TypeExpr → Text → Bool
is_method_of (ident name ∷ []) receiver = text_eq name receiver
is_method_of (star (ident name) ∷ []) receiver = text_eq name receiver
is_method_of _ receiver = false

-- `fieldMap[name]`, with the field: its number counts from `from`.
unfoldable pub find_field : Text → ℕ → List AttributeField → Option (ℕ × AttributeField)
find_field name from [] = none
find_field name from (f ∷ fields) =
    let later = find_field name (suc from) fields in
    if text_eq f.name name then some (from, f) else later

-- The parameters, each name with the text of its type.
abbrev pub named_all : Text → List Text → List (Text × Text)
named_all type_text [] = []
named_all type_text (name ∷ names) = (type_text, name) ∷ named_all type_text names

unfoldable pub params_of : List ParamDecl → List (Text × Text)
params_of [] = []
params_of (p ∷ params) = named_all (expr_string p.type_expr) p.names ++ params_of params

abbrev pub input_of : Text → Text → Text → Option (ℕ × AttributeField) → Result FormulaError ℕ
input_of method type_text name none = err (unknown_input method name)
input_of method type_text name (some (input, f)) =
    if not (text_eq f.type_text type_text)
    then err (wrong_input method name type_text)
    else ok input

-- The loops over the parameters.
unfoldable pub inputs_of :
    Text → List AttributeField → List (Text × Text) → Result FormulaError (List ℕ)
inputs_of method fields [] = ok []
inputs_of method fields ((type_text, name) ∷ params) =
    input_of method type_text name (find_field name 0 fields) >>= λ input.
    inputs_of method fields params >>= λ inputs. ok (input ∷ inputs)

abbrev pub check_returns : Text → Text → List TypeExpr → Result FormulaError (Unit {0})
check_returns method wanted (result ∷ []) =
    if not (text_eq (expr_string result) wanted)
    then err (wrong_result method (expr_string result))
    else ok tt
check_returns method wanted _ = err (not_one_value method)

abbrev pub check_inputs : Text → List ℕ → Result FormulaError (Unit {0})
check_inputs method [] = err (no_input method)
check_inputs method (input ∷ inputs) = ok tt

unfoldable pub has_formula : ℕ → List Formula → Bool
has_formula output [] = false
has_formula output (f ∷ formulas) = f.output == output || has_formula output formulas

-- `raw.def.Fields[output].Derived = true`.
unfoldable pub set_derived : ℕ → List AttributeField → List AttributeField
set_derived output [] = []
set_derived zero (f ∷ fields) = record f { derived = true } ∷ fields
set_derived (suc output) (f ∷ fields) = f ∷ set_derived output fields

-- The fields, and `formulasByOutput` with the entry written last at the head.
abbrev pub State : Type 0
State = List AttributeField × List Formula

-- The body of the loop for a method that is named after a field.
unfoldable pub attach_found : MethodDecl → State → ℕ × AttributeField → Result FormulaError State
attach_found fn (fields, formulas) (output, f) = elim (has_formula output formulas) [
  | true ↦ err (duplicate_formula f.name)
  | false ↦ check_returns fn.name f.type_text fn.results >>= λ _.
      inputs_of fn.name fields (params_of fn.params) >>= λ inputs.
      check_inputs fn.name inputs >>= λ _. ok (
        set_derived output fields,
        record { method = fn.name; output = output; inputs = inputs } ∷ formulas,
      )
]

abbrev pub attach_named :
    MethodDecl → State → Option (ℕ × AttributeField) → Result FormulaError State
attach_named fn s none = ok s
attach_named fn s (some found) = attach_found fn s found

-- One round of the loop of `attachFormulas`.
unfoldable pub attach_method : Text → MethodDecl → State → Result FormulaError State
attach_method receiver fn s =
    if not (is_method_of fn.receivers receiver) || not (has_prefix fn.name (codes "_"))
    then ok s
    else attach_named fn s (find_field (trim_prefix fn.name (codes "_")) 0 s.0)

unfoldable pub attach_methods : Text → List MethodDecl → State → Result FormulaError State
attach_methods receiver [] s = ok s
attach_methods receiver (fn ∷ methods) s =
    attach_method receiver fn s >>= λ later. attach_methods receiver methods later
