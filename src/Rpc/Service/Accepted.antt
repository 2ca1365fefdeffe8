-- ===== src/Rpc/Service/Accepted.antt =====
-- What `buildService` has made sure of when it accepts an interface.
use roost_codegen.Prelude.{
  ℕ, Bool, true, false, not, List, [], ◌∷◌, ◌++◌, Option, none, some, ◌≡◌, ◌≢◌, inl, inr, refl, ap,
  subst, arith, All, Bool-cases, Option-cases,
}
use roost_codegen.Prelude.Result.{Result, ok, err, >>=-eq-ok, require-ok, then-ok}
use roost_codegen.Prelude.Text.{Text, codes, text_eq, text_eq_iff, lookup_text}
use roost_codegen.Rpc.{
  AstField, Field, flatten, Refusal, first_not_context, unnamed_parameter, no_error, unnamed_result,
  no_service_type, no_capability, declared_twice, no_methods, no_request_invalid, collision,
}
use roost_codegen.Rpc.Wire.{TypeIndex, text_mem, check_wire_safe}
use roost_codegen.Rpc.Wire.Reach.{WireSafe, check_wire_safe_iff}
use roost_codegen.Rpc.Service.Affinity.{AffinityNames, check_affinities_sound}
use roost_codegen.Rpc.Service.{
  Options, Item, Method, Service, option_of, affinity_of, is_unnamed, front_and_last, check_each,
  check_params, check_results, build_method, build_methods, build_signature, build_item,
  emitted_names, check_emitted, has_methods, build_service,
}

-- Fields that have names and types that cross the bus.
abbrev pub AllCross : (ℕ → Bool) → TypeIndex → List Field → Type 0
AllCross is_upper types fs =
    All (λ f. (is_unnamed f.name ≡ false) × WireSafe is_upper types 9 f.type) fs

-- A method's fields are those of its signature less the context and the error.
abbrev pub FieldsOf : List AstField → List AstField → Method → Type 0
FieldsOf params results m =
    (context : Field) × (error : Field) × (context.type ≡ codes "context.Context")
    × (error.type ≡ codes "error")
    × (flatten params ≡ context ∷ m.params)
    × (flatten results ≡ m.results ++ error ∷ [])

module _ (is_upper : ℕ → Bool) (types : TypeIndex) where
  -- The methods, in the order of the interface, each built from its item.
  pub data BuiltFrom : List Item → List Method → Type 0 where
    built_none : BuiltFrom [] []
    built_skip :
        {item : Item} {items : List Item} {ms : List Method}
        → item.names ≢ []
        → item.signature ≡ none
        → BuiltFrom items ms
        → BuiltFrom (item ∷ items) ms
    built_more :
        {item : Item} {items : List Item} {m : Method} {ms : List Method} (others : List Text)
        (params results : List AstField)
        → item.names ≡ m.name ∷ others
        → item.signature ≡ some (params, results)
        → m.affinity ≡ affinity_of item.options
        → FieldsOf params results m
        → AllCross is_upper types m.params
        → AllCross is_upper types m.results
        → BuiltFrom items ms
        → BuiltFrom (item ∷ items) (m ∷ ms)

  check_each_sound :
      (refuse : Text → Refusal) (method : Text) (fs : List Field)
      → check_each is_upper refuse types method fs ≡ ok tt
      → AllCross is_upper types fs
  unfolding check_each
  check_each_sound refuse method [] e = tt
  check_each_sound refuse method (f ∷ fs) e = elim (Bool-cases (is_unnamed f.name)) [
    | inl unnamed ↦ let stuck : err (refuse f.type) ≡ ok tt = rw unnamed at e in cc
    | inr named ↦
        let (_, safe, rest) =
          >>=-eq-ok (check_wire_safe is_upper types method f.name f.type)
            (λ _. check_each is_upper refuse types method fs) (rw named at e) in
        (
          (named, (check_wire_safe_iff is_upper types method f.name f.type).0 safe),
          check_each_sound refuse method fs rest,
        )
  ]

  check_params_sound :
      (method : Text) (all_params params : List Field)
      → check_params is_upper types method all_params ≡ ok params
      → AllCross is_upper types params
        × ((context : Field) × (context.type ≡ codes "context.Context")
            × (all_params ≡ context ∷ params))
  check_params_sound method [] params e = cc
  check_params_sound method (first ∷ rest) params e =
      elim (Bool-cases (text_eq first.type (codes "context.Context"))) [
        | inr other ↦
            let stuck : err (first_not_context method first.type) ≡ ok params = rw other at e in cc
        | inl is_context ↦
            let (_, crossed, same) =
              >>=-eq-ok (check_each is_upper (unnamed_parameter method) types method rest)
                (λ _. ok rest) (rw is_context at e) in
            let equal : rest ≡ params = cc in
            (
              rw equal at (check_each_sound (unnamed_parameter method) method rest crossed),
              (
                first,
                (text_eq_iff first.type (codes "context.Context")).0 is_context,
                ap (λ r. first ∷ r) equal,
              ),
            )
      ]

  front_and_last-append :
      (f : Field) (fs : List Field)
      → f ∷ fs ≡ (front_and_last f fs).0 ++ (front_and_last f fs).1 ∷ []
  front_and_last-append f [] = refl
  front_and_last-append f (g ∷ fs) = ap (λ r. f ∷ r) (front_and_last-append g fs)

  check_results_sound :
      (method : Text) (all_results results : List Field)
      → check_results is_upper types method all_results ≡ ok results
      → AllCross is_upper types results
        × ((error : Field) × (error.type ≡ codes "error") × (all_results ≡ results ++ error ∷ []))
  check_results_sound method [] results e = cc
  check_results_sound method (r ∷ rs) results e =
      let last = (front_and_last r rs).1 in
      let front = (front_and_last r rs).0 in
      elim (Bool-cases (text_eq last.type (codes "error"))) [
        | inr other ↦ let stuck : err (no_error method) ≡ ok results = rw other at e in cc
        | inl is_error ↦
            let (_, crossed, same) =
              >>=-eq-ok (check_each is_upper (unnamed_result method) types method front)
                (λ _. ok front) (rw is_error at e) in
            let equal : front ≡ results = cc in
            (
              rw equal at (check_each_sound (unnamed_result method) method front crossed),
              (
                last,
                (text_eq_iff last.type (codes "error")).0 is_error,
                rw equal at (front_and_last-append r rs),
              ),
            )
      ]

  build_method_sound :
      (name : Text) (options : Option Options) (params results : List AstField) (m : Method)
      → build_method is_upper types name options params results ≡ ok m
      → (name ≡ m.name)
        × (m.affinity ≡ affinity_of options)
        × FieldsOf params results m
        × AllCross is_upper types m.params
        × AllCross is_upper types m.results
  unfolding build_method
  build_method_sound name options params results m e =
      let (ps, taken, later) = >>=-eq-ok (check_params is_upper types name (flatten params)) _ e in
      let (rs, given, made) =
        >>=-eq-ok (check_results is_upper types name (flatten results)) _ later in
      let (cross, (context, is_context, split)) =
        check_params_sound name (flatten params) ps taken in
      let (return, (error, is_error, parted)) =
        check_results_sound name (flatten results) rs given in
      let same_params : ps ≡ m.params = cc in
      let same_results : rs ≡ m.results = cc in
      (
        cc,
        cc,
        (context, error, is_context, is_error, cc, cc),
        rw same_params at cross,
        rw same_results at return,
      )

-- Texts that are pairwise distinct, and none of `seen`.
abbrev pub Fresh : List Text → List Text → Type 0
Fresh seen [] = Unit
Fresh seen (t ∷ ts) = (text_mem t seen ≡ false) × Fresh (t ∷ seen) ts

abbrev pub names_of : List Method → List Text
names_of [] = []
names_of (m ∷ ms) = m.name ∷ names_of ms

module _ (is_upper : ℕ → Bool) (types : TypeIndex) where
  build_signature_sound :
      (seen : List Text) (item : Item) (items : List Item)
      (next : List Text → Result Refusal (List Method))
      → ((names : List Text) (ms : List Method)
          → next names ≡ ok ms
          → BuiltFrom is_upper types items ms × Fresh names (names_of ms))
      → (name : Text) (others : List Text) (signature : Option (List AstField × List AstField))
        (ms : List Method)
      → item.names ≡ name ∷ others
      → item.signature ≡ signature
      → build_signature is_upper types seen item.options next name signature ≡ ok ms
      → BuiltFrom is_upper types (item ∷ items) ms × Fresh seen (names_of ms)
  build_signature_sound seen item items next next_sound name others none ms at_names at_signature
        e =
      let (built, fresh) = next_sound seen ms e in (built_skip (λ h. cc) at_signature built, fresh)
  build_signature_sound seen item items next next_sound name others (some (params, results)) ms
        at_names at_signature e =
      let (m, made, later) =
        >>=-eq-ok (build_method is_upper types name item.options params results) _ e in
      elim (Bool-cases (text_mem m.name seen)) [
        | inl twice ↦ let stuck : err (declared_twice m.name) ≡ ok ms = rw twice at later in cc
        | inr once ↦
            let (rest, done, joined) =
              >>=-eq-ok (next (m.name ∷ seen)) (λ rest. ok (m ∷ rest)) (rw once at later) in
            let (built, fresh) = next_sound (m.name ∷ seen) rest done in
            let (same_name, affinity, fields, params_cross, results_cross) =
              build_method_sound is_upper types name item.options params results m made in
            let whole : m ∷ rest ≡ ms = cc in
            let named : item.names ≡ m.name ∷ others = cc in
            let all : BuiltFrom is_upper types (item ∷ items) (m ∷ rest) =
              built_more others params results named at_signature affinity fields params_cross
                results_cross built in
            let distinct : Fresh seen (names_of (m ∷ rest)) = (once, fresh) in
            (rw whole at all, subst (λ all_of. Fresh seen (names_of all_of)) whole distinct)
      ]

  build_methods_sound :
      (seen : List Text) (items : List Item) (ms : List Method)
      → build_methods is_upper types seen items ≡ ok ms
      → BuiltFrom is_upper types items ms × Fresh seen (names_of ms)
  unfolding build_methods
  build_methods_sound seen [] [] e = (built_none, tt)
  build_methods_sound seen [] (m ∷ ms) e = cc
  build_methods_sound seen (item ∷ items) ms e =
      by_names (λ taken rest. build_methods_sound taken items rest) item.names refl e
    where
      by_names :
          ((taken : List Text) (rest : List Method)
            → build_methods is_upper types taken items ≡ ok rest
            → BuiltFrom is_upper types items rest × Fresh taken (names_of rest))
          → (names : List Text) → item.names ≡ names
          → build_item is_upper types seen item.options
              (λ taken. build_methods is_upper types taken items)
              item.signature
              names
            ≡ ok ms
          → BuiltFrom is_upper types (item ∷ items) ms × Fresh seen (names_of ms)
      by_names later [] at_names h = cc
      by_names later (name ∷ others) at_names h =
          build_signature_sound seen item items (λ taken. build_methods is_upper types taken items)
            later name others item.signature ms at_names refl h

check_emitted_sound :
    (declared : Options) (names : List Text)
    → check_emitted declared names ≡ ok tt
    → All (λ name. lookup_text name declared ≡ none) names
unfolding check_emitted
check_emitted_sound declared [] e = tt
check_emitted_sound declared (name ∷ names) e = elim (Option-cases (lookup_text name declared)) [
  | inl free ↦ (free, check_emitted_sound declared names (rw (check_emitted, free) at e))
  | inr (kind, taken) ↦
      let stuck : err (collision name kind) ≡ ok tt = rw (check_emitted, taken) at e in cc
]

-- What an accepted interface and its service satisfy.
pub record Accepted (is_upper : ℕ → Bool) (types : TypeIndex) (declared options : Options)
    (items : List Item) (s : Service) : Type 0 where
  pub type_given :
      (s.service_type ≡ option_of (codes "service_type") options) × (s.service_type ≢ [])
  pub capability_given :
      (s.capability ≡ option_of (codes "capability") options) × (s.capability ≢ [])
  pub some_method : s.methods ≢ []
  pub built : BuiltFrom is_upper types items s.methods
  pub distinct : Fresh [] (names_of s.methods)
  pub no_collision : All (λ name. lookup_text name declared ≡ none) (emitted_names s.methods)
  pub affinities : All AffinityNames s.methods

nonempty : (ms : List Method) → has_methods ms ≡ true → ms ≢ []
nonempty [] h = cc
nonempty (m ∷ ms) h = λ e. cc

given : (t : Text) → not (text_eq t []) ≡ true → t ≢ []
given t h e = ground (arith, text_eq_iff t [])

-- An interface that `buildService` accepts has a service type and a capability, at least one method,
-- and no embedded interface; the methods have different names and stand in the order of the interface,
-- each with the parameters behind its context and the results before its error, all with names and
-- with types that may cross the bus; no name that the transport declares is declared by the package,
-- which has an `ErrRequestInvalid`; and an affinity begins with a parameter's name.
pub build_service-Accepted :
    (is_upper : ℕ → Bool) (types : TypeIndex) (declared : Options) (has_request_invalid : Bool)
    (pkg path name : Text) (options : Options) (items : List Item) (s : Service)
    → build_service is_upper (types, declared, has_request_invalid) pkg path name options items
      ≡ ok s
    → Accepted is_upper types declared options items s × (has_request_invalid ≡ true)
unfolding build_service
build_service-Accepted is_upper types declared has_request_invalid pkg path name options items s e =
    let (ms, early, late) = >>=-eq-ok _ _ e in
    let (guards, methods_built) = then-ok _ _ early in
    let (type_guard, capability_guard) = then-ok _ _ guards in
    let (checks, made) = then-ok _ _ late in
    let (emitted_checks, affinity_check) = then-ok _ _ checks in
    let (start, emitted_check) = then-ok _ _ emitted_checks in
    let (some_check, request_check) = then-ok _ _ start in
    let (built, distinct) = build_methods_sound is_upper types [] items ms methods_built in
    let type_of = option_of (codes "service_type") options in
    let capability = option_of (codes "capability") options in
    let made_of : record {
      pkg_name = pkg;
      interface_name = name;
      service_type = type_of;
      capability = capability;
      methods = ms;
      file = path;
    }
        ≡ s =
      cc in
    let accepted : Accepted is_upper types declared options items record {
      pkg_name = pkg;
      interface_name = name;
      service_type = type_of;
      capability = capability;
      methods = ms;
      file = path;
    } =
      record {
        type_given = (
          refl,
          given type_of (require-ok (not (text_eq type_of [])) no_service_type type_guard),
        );
        capability_given = (
          refl,
          given capability
              (require-ok (not (text_eq capability [])) no_capability capability_guard),
        );
        some_method = nonempty ms (require-ok (has_methods ms) no_methods some_check);
        built = built;
        distinct = distinct;
        no_collision = check_emitted_sound declared (emitted_names ms) emitted_check;
        affinities = check_affinities_sound ms affinity_check;
      } in
    (
      subst (Accepted is_upper types declared options items) made_of accepted,
      require-ok has_request_invalid no_request_invalid request_check,
    )
