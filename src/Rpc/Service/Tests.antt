-- ===== src/Rpc/Service/Tests.antt =====
-- Runs of `buildService` on a mail service.
use roost_codegen.Prelude.{ℕ, Bool, true, false, ◌&&◌, leb, List, [], ◌∷◌, some, ◌≡◌, refl}
use roost_codegen.Prelude.Result.{ok, err}
use roost_codegen.Prelude.Text.{codes, text_eq, cut_prefix, cut_at, has_suffix, lookup_text}
use roost_codegen.Rpc.{ident, selector, AstField, flatten, render_type, collision}
use roost_codegen.Rpc.Wire.{
  text_mem, is_wire_unsafe, is_unexported_named, base_name, check_level, check_deep,
  check_wire_safe,
}
use roost_codegen.Rpc.Service.{
  Options, Item, Method, Service, check_each, build_method, build_methods, check_emitted,
  find_param, check_affinity, check_affinities, build_service,
}
use roost_codegen.Rpc.Service.Affinity.{derived-accepted}
use roost_codegen.Rpc.Service.Accepted.{Accepted, build_service-Accepted}

abbrev upper : ℕ → Bool
upper c = leb b'A' c && leb c b'Z'

abbrev params : List AstField
params =
    record { names = codes "ctx" ∷ []; type = selector (ident (codes "context")) (codes "Context") }
    ∷ record { names = codes "player" ∷ codes "title" ∷ []; type = ident (codes "string") }
    ∷ []

abbrev results : List AstField
results =
    record { names = codes "id" ∷ []; type = ident (codes "int64") }
    ∷ record { names = codes "err" ∷ []; type = ident (codes "error") }
    ∷ []

abbrev send : Item
send = record {
  names = codes "Send" ∷ [];
  signature = some (params, results);
  options = some ((codes "affinity", codes "player") ∷ []);
}

abbrev options : Options
options = (codes "service_type", codes "mail") ∷ (codes "capability", codes "mail") ∷ []

abbrev send_method : Method
send_method = record {
  name = codes "Send";
  params =
      record { name = codes "player"; type = codes "string" }
      ∷ record { name = codes "title"; type = codes "string" }
      ∷ [];
  results = record { name = codes "id"; type = codes "int64" } ∷ [];
  affinity = codes "player";
  reliable = false;
}

abbrev mail : Service
mail = record {
  pkg_name = codes "mail";
  interface_name = codes "Mail";
  file = codes "mail.go";
  service_type = codes "mail";
  capability = codes "mail";
  methods = send_method ∷ [];
}

mail_built :
    build_service upper
      ([], [], true)
      (codes "mail")
      (codes "mail.go")
      (codes "Mail")
      options
      (send ∷ [])
    ≡ ok mail
unfolding build_service build_methods build_method check_each check_emitted check_affinities
    check_affinity find_param flatten render_type check_wire_safe check_deep check_level
    is_wire_unsafe text_mem text_eq base_name cut_prefix is_unexported_named cut_at has_suffix
    lookup_text
mail_built = refl

server_collides :
    build_service upper
      ([], (codes "Server", codes "a type") ∷ [], true)
      (codes "mail")
      (codes "mail.go")
      (codes "Mail")
      options
      (send ∷ [])
    ≡ err (collision (codes "Server") (codes "a type"))
unfolding build_service build_methods build_method check_each check_emitted check_affinities
    check_affinity find_param flatten render_type check_wire_safe check_deep check_level
    is_wire_unsafe text_mem text_eq base_name cut_prefix is_unexported_named cut_at has_suffix
    lookup_text
server_collides = refl

build_service-Accepted_example : Accepted upper [] [] options (send ∷ []) mail × (true ≡ true)
build_service-Accepted_example =
    build_service-Accepted upper [] [] true (codes "mail") (codes "mail.go") (codes "Mail") options
      (send ∷ []) mail mail_built

abbrev calling : Method
calling = record {
  name = codes "Join";
  params = record { name = codes "q"; type = codes "Queue" } ∷ [];
  results = [];
  affinity = codes "q.Key(1).Name()";
  reliable = false;
}

derived-accepted_example : check_affinity calling ≡ ok tt
unfolding cut_at
derived-accepted_example =
    derived-accepted calling record { name = codes "q"; type = codes "Queue" } [] []
      (codes "Key(1).Name") refl refl refl
