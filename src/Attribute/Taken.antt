-- ===== src/Attribute/Taken.antt =====
-- internal/attribute/parse.go: no method that declares a formula is passed over.
use roost_codegen.Prelude.{ℕ, true, List, some, ◌≡◌}
use roost_codegen.Prelude.Text.{Text, codes, has_prefix, trim_prefix}
use roost_codegen.Attribute.Profile.{AttributeField}
use roost_codegen.Attribute.Formulas.{
  MethodDecl, Formula, is_method_of, find_field, has_formula, State,
}

module _ (receiver : Text) where
  -- A number that the name of a field finds.
  abbrev pub HasField : List AttributeField → Text → ℕ → Type 0
  HasField fields name i = (f : AttributeField) × (find_field name 0 fields ≡ some (i, f))

  -- What a round leaves in place.
  abbrev Keeps : State → State → Type 0
  Keeps s later =
      ((name : Text) (i : ℕ) → HasField s.0 name i → HasField later.0 name i)
      × ((i : ℕ) → has_formula i s.1 ≡ true → has_formula i later.1 ≡ true)

  -- A method of the struct that is named after the field `i` has its formula.
  abbrev pub IsTaken : List AttributeField → List Formula → MethodDecl → Type 0
  IsTaken fields formulas fn =
      is_method_of fn.receivers receiver ≡ true
      → has_prefix fn.name (codes "_") ≡ true
      → (i : ℕ) → HasField fields (trim_prefix fn.name (codes "_")) i
      → has_formula i formulas ≡ true
