-- ===== src/Ids/Tests.antt =====
-- Runs on a small project, and the theorems at it.
use roost_codegen.Prelude.{String, List, [], ◌∷◌, ◌++◌, ◌≡◌, ◌↔◌, refl, All}
use roost_codegen.Prelude.Int.{pos}
use roost_codegen.Ids.{
  IdUse, IdSpace, duplicate, outside, marker_kind, next, no_range, check_ids, next_id,
}
use roost_codegen.Ids.Clean.{AllApart, IsInSpace, check_ids_iff}
use roost_codegen.Ids.Next.{Answers, next_id-Answers, check_ids-next_id}

abbrev spaces : List (String × IdSpace)
spaces =
    ("entity", record { min = pos 1; max = pos 3; groups = [] })
    ∷ (
      "protocol",
      record {
        min = pos 0;
        max = pos 0;
        groups = ("game", record { min = pos 10; max = pos 11 }) ∷ [];
      },
    )
    ∷ []

abbrev uses : List IdUse
uses =
    record { kind = "entity"; id = 1; file = "a.go" }
    ∷ record { kind = "entity"; id = 3; file = "b.go" }
    ∷ record { kind = "protocol"; id = 10; file = "p.go" }
    ∷ []

next_entity : next_id spaces uses "entity" "" ≡ next (pos 2)
unfolding next_id
next_entity = refl

next_protocol : next_id spaces uses "protocol" "game" ≡ next (pos 11)
unfolding next_id
next_protocol = refl

no_main_range : next_id spaces uses "protocol" "" ≡ no_range
unfolding next_id
no_main_range = refl

marker_kinds : marker_kind "push" ≡ "protocol"
unfolding marker_kind
marker_kinds = refl

twice_used :
    check_ids spaces (
      record { kind = "entity"; id = 9; file = "c.go" }
      ∷ record { kind = "entity"; id = 9; file = "d.go" }
      ∷ [])
    ≡ outside "entity" 9 "c.go"
      ∷ duplicate "entity" 9 "c.go" "d.go"
      ∷ outside "entity" 9 "d.go"
      ∷ []
unfolding check_ids
twice_used = refl

uses_clean : check_ids spaces uses ≡ []
unfolding check_ids
uses_clean = refl

check_ids_iff_example : (check_ids spaces uses ≡ []) ↔ (AllApart uses × All (IsInSpace spaces) uses)
check_ids_iff_example = check_ids_iff spaces uses

next_id-Answers_example : Answers spaces uses "entity" "" (next_id spaces uses "entity" "")
next_id-Answers_example = next_id-Answers spaces uses "entity" ""

check_ids-next_id_example :
    check_ids spaces (uses ++ record { kind = "entity"; id = 2; file = "new.go" } ∷ []) ≡ []
check_ids-next_id_example =
    check_ids-next_id spaces uses [] "entity" "" "new.go" 2 uses_clean next_entity
