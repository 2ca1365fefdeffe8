-- ===== src/Ids.antt =====
-- internal/roost/id.go: the numeric ids that markers and `errcode.Define` calls use, the check of a
-- project's ids and the choice of the next free one. The uses that `ScanIDs` finds in the files are
-- an argument, in any order; an id is what the pattern `[0-9]+` matched, so it is not negative. The
-- loop of `NextID` counts in an int64, which wraps round behind the greatest.
pub mod Clean
pub mod Next
pub mod Tests
use roost_codegen.Prelude.{
  ℕ, zero, suc, ◌+◌, ◌-◌, String, Bool, true, false, List, [], ◌∷◌, ◌++◌, Option, none, some,
  str_eq, not, ◌&&◌, ◌||◌, ◌==◌, leb, if◌then◌else◌,
}
use roost_codegen.Prelude.Int.{ℤ, pos, negsuc, leb_ℤ}

pub record IdUse : Type 0 where
  pub kind : String
  pub id : ℕ
  pub file : String

-- What `ScanIDs` calls the kind of a marker.
unfoldable pub marker_kind : String → String
marker_kind kind = if str_eq kind "msg" || str_eq kind "push" then "protocol" else kind

pub record IdRange : Type 0 where
  pub min : ℤ
  pub max : ℤ

pub record IdSpace : Type 0 where
  pub min : ℤ
  pub max : ℤ
  pub groups : List (String × IdRange)

unfoldable pub lookup {ℓ} : {V : Type ℓ} → String → List (String × V) → Option V
lookup key [] = none
lookup key ((k, v) ∷ rest) = if str_eq k key then some v else lookup key rest

abbrev pub within : ℤ → ℤ → ℕ → Bool
within low high id = leb_ℤ low (pos id) && leb_ℤ (pos id) high

-- The loop over `space.Groups`.
unfoldable pub in_some_group : List (String × IdRange) → ℕ → Bool
unfolding leb_ℤ
in_some_group [] id = false
in_some_group ((name, r) ∷ rest) id = within r.min r.max id || in_some_group rest id

unfoldable pub in_configured_space : IdSpace → ℕ → Bool
unfolding in_some_group leb_ℤ
in_configured_space space id =
    (leb_ℤ (pos 1) space.min && within space.min space.max id) || in_some_group space.groups id

pub data IdError : Type 0 where
  duplicate : (kind : String) (id : ℕ) (previous file : String) → IdError
  outside : (kind : String) (id : ℕ) (file : String) → IdError

-- Whether two uses have the key `kind:id` of `seen` in common.
abbrev pub same_key : IdUse → IdUse → Bool
same_key u v = str_eq u.kind v.kind && u.id == v.id

unfoldable pub find_use : List IdUse → IdUse → Option IdUse
find_use [] u = none
find_use (v ∷ seen) u = if same_key v u then some v else find_use seen u

abbrev pub remember : Option IdUse → IdUse → List IdUse → List IdUse
remember none u seen = u ∷ seen
remember (some previous) u seen = seen

abbrev pub duplicate_errors : Option IdUse → IdUse → List IdError
duplicate_errors none u = []
duplicate_errors (some previous) u = duplicate u.kind u.id previous.file u.file ∷ []

abbrev pub outside_errors : Option IdSpace → IdUse → List IdError
outside_errors none u = []
outside_errors (some space) u =
    if in_configured_space space u.id then [] else outside u.kind u.id u.file ∷ []

-- The loop of `CheckIDs`; the errors are those that it joins, in order.
unfoldable pub check_from : List (String × IdSpace) → List IdUse → List IdUse → List IdError
unfolding find_use lookup in_configured_space
check_from spaces seen [] = []
check_from spaces seen (u ∷ uses) =
    duplicate_errors (find_use seen u) u
    ++ (outside_errors (lookup u.kind spaces) u
        ++ check_from spaces (remember (find_use seen u) u seen) uses)

unfoldable pub check_ids : List (String × IdSpace) → List IdUse → List IdError
unfolding check_from
check_ids spaces uses = check_from spaces [] uses

pub data Choice : Type 0 where
  next : ℤ → Choice
  not_configured : Choice
  no_group : Choice
  no_range : Choice
  exhausted : Choice
  out_of_fuel : Choice

-- `used[id]`, of the uses of one kind.
unfoldable pub is_used : String → List IdUse → ℕ → Bool
is_used kind [] id = false
is_used kind (u ∷ uses) id = (str_eq u.kind kind && u.id == id) || is_used kind uses id

-- The greatest int64; the least is one below its negative.
abbrev pub int_max : ℕ
int_max = 9223372036854775807

-- `id++` on an int64.
abbrev pub succ_int : ℤ → ℤ
succ_int (pos n) = if n == int_max then negsuc int_max else pos (n + 1)
succ_int (negsuc zero) = pos 0
succ_int (negsuc (suc n)) = negsuc n

-- `used` at an int64: no use has a negative id.
abbrev pub on_int : (ℕ → Bool) → ℤ → Bool
on_int used (pos n) = used n
on_int used (negsuc n) = false

-- The loop of `NextID`, on fuel.
unfoldable pub next_from : (ℤ → Bool) → ℕ → ℤ → ℤ → Choice
unfolding leb_ℤ
next_from used zero max id = out_of_fuel
next_from used (suc left) max id =
    let rest = next_from used left max (succ_int id) in
    if leb_ℤ id max then (if used id then rest else next id) else exhausted

-- The value of a number that is not negative.
abbrev pub to_ℕ : ℤ → ℕ
to_ℕ (pos n) = n
to_ℕ (negsuc n) = 0

-- The guard on the range, and the loop from `Min` to `Max`, which makes one test for each id of the
-- range and one behind it.
unfoldable pub next_between : String → List IdUse → ℤ → ℤ → Choice
unfolding next_from is_used leb_ℤ
next_between kind uses min max =
    if leb_ℤ min (pos 0) || not (leb_ℤ min max)
    then no_range
    else next_from (on_int (is_used kind uses)) (to_ℕ max + 2 - to_ℕ min) max min

abbrev pub next_in_group : String → List IdUse → Option IdRange → Choice
next_in_group kind uses none = no_group
next_in_group kind uses (some r) = next_between kind uses r.min r.max

abbrev pub next_in_space : String → String → List IdUse → Option IdSpace → Choice
next_in_space kind group uses none = not_configured
next_in_space kind group uses (some space) =
    if str_eq group ""
    then next_between kind uses space.min space.max
    else next_in_group kind uses (lookup group space.groups)

unfoldable pub next_id : List (String × IdSpace) → List IdUse → String → String → Choice
unfolding next_between lookup
next_id spaces uses kind group = next_in_space kind group uses (lookup kind spaces)
