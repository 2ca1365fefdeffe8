-- ===== src/Rpc/Parse/Tests.antt =====
-- Runs of the search for marked interfaces, on a package of one file.
use roost_codegen.Prelude.{
  ℕ, ◌≤◌, Bool, true, false, ◌&&◌, leb, List, [], ◌∷◌, none, some, ◌≡◌, refl, ◌↔◌, length,
  Pointwise,
}
use roost_codegen.Prelude.Result.{ok, err}
use roost_codegen.Prelude.Text.{
  codes, text_eq, cut_prefix, cut_at, has_suffix, lookup_text, fields, fields_from, is_space,
  is_some,
}
use roost_codegen.Marker.{cut, cut_each, cut_iff, Carries}
use roost_codegen.Rpc.{ident, selector, two_interfaces, flatten, render_type}
use roost_codegen.Rpc.Wire.{
  text_mem, is_wire_unsafe, is_unexported_named, base_name, check_level, check_deep,
  check_wire_safe,
}
use roost_codegen.Rpc.Service.{
  Service, check_each, build_method, build_methods, check_emitted, find_param, check_affinity,
  check_affinities, build_service,
}
use roost_codegen.Rpc.Parse.{
  RawItem, interface_body, type_spec, value_spec, type_tok, var_tok, gen_decl, func_decl, File,
  parse_package, parse_files, parse_file, parse_specs, interface_marker, marked_in, parse_options,
  note_options, build_type_index, index_files, declared_names, note_files, note_decls, note_specs,
  note_each, note, declares_request_invalid,
}
use roost_codegen.Rpc.Parse.Declared.{pkg_names, declared_names-known}
use roost_codegen.Rpc.Parse.Package.{marked_interfaces, Deploys, parse_package-Deploys}

abbrev upper : ℕ → Bool
upper c = leb b'A' c && leb c b'Z'

abbrev ping : RawItem
ping = record {
  names = codes "Ping" ∷ [];
  doc = none;
  comment = none;
  signature = some (
    record { names = codes "ctx" ∷ []; type = selector (ident (codes "context")) (codes "Context") }
        ∷ [],
    record { names = []; type = ident (codes "error") } ∷ [],
  );
}

abbrev files : List File
files =
    (
      codes "ping.go",
      gen_decl type_tok (some (codes "//roost:rpc service_type=p capability=p" ∷ []))
            (type_spec (codes "Ping") none (interface_body (ping ∷ [])) ∷ [])
          ∷ gen_decl var_tok none (value_spec (codes "ErrRequestInvalid" ∷ []) ∷ [])
          ∷ func_decl true (codes "Server")
          ∷ [],
    )
    ∷ []

abbrev service : Service
service = record {
  pkg_name = codes "ping";
  interface_name = codes "Ping";
  service_type = codes "p";
  capability = codes "p";
  file = codes "ping.go";
  methods =
      record { name = codes "Ping"; params = []; results = []; affinity = []; reliable = false }
      ∷ [];
}

package_parsed : parse_package upper (codes "ping") files ≡ ok (service ∷ [])
unfolding parse_package parse_files parse_file parse_specs interface_marker marked_in parse_options
    note_options build_type_index index_files declared_names note_files note_decls note_specs
    note_each note declares_request_invalid cut cut_each fields fields_from is_space build_service
    build_methods build_method check_each check_emitted check_affinities check_affinity find_param
    flatten render_type check_wire_safe check_deep check_level is_wire_unsafe text_mem text_eq
    base_name cut_prefix is_unexported_named cut_at has_suffix lookup_text
package_parsed = refl

parse_package-Deploys_example :
    (length (marked_interfaces files) ≤ 1)
    × Pointwise (Deploys upper (codes "ping") files) (marked_interfaces files) (service ∷ [])
parse_package-Deploys_example =
    parse_package-Deploys upper (codes "ping") files (service ∷ []) package_parsed

-- Two marked interfaces in one file.
abbrev both_files : List File
both_files =
    (
      codes "ping.go",
      gen_decl type_tok (some (codes "//roost:rpc service_type=p capability=p" ∷ [])) (
            type_spec (codes "Ping") none (interface_body (ping ∷ []))
            ∷ type_spec (codes "Pong") none (interface_body (ping ∷ []))
            ∷ [])
          ∷ gen_decl var_tok none (value_spec (codes "ErrRequestInvalid" ∷ []) ∷ [])
          ∷ [],
    )
    ∷ []

two_refused :
    parse_package upper (codes "ping") both_files
    ≡ err (two_interfaces (codes "Ping") (codes "Pong"))
unfolding parse_package parse_files parse_file parse_specs interface_marker marked_in parse_options
    note_options build_type_index index_files declared_names note_files note_decls note_specs
    note_each note declares_request_invalid cut cut_each fields fields_from is_space build_service
    build_methods build_method check_each check_emitted check_affinities check_affinity find_param
    flatten render_type check_wire_safe check_deep check_level is_wire_unsafe text_mem text_eq
    base_name cut_prefix is_unexported_named cut_at has_suffix lookup_text
two_refused = refl

declared_names-known_example :
    is_some (lookup_text (codes "Server") (declared_names files))
    ≡ text_mem (codes "Server") (pkg_names files)
unfolding text_eq
declared_names-known_example = declared_names-known (codes "Server") files refl

cut_iff_example :
    (cut (codes "//cube:rpcx") (codes "rpc") ≡ some (codes "x"))
    ↔ Carries (codes "//cube:rpcx") (codes "rpc") (codes "x")
cut_iff_example = cut_iff (codes "//cube:rpcx") (codes "rpc") (codes "x")
