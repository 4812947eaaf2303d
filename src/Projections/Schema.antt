-- ===== src/Projections/Schema.antt =====
-- `ProjectionSchemaRegistry` of packages/advanced/src/cqrs_ddd_advanced_core/projections/schema.py:
-- the schemas, their foreign keys, and the order in which they are initialized.
pub mod Visits
pub mod Ends
pub mod Order
use cqrs_ddd.Common.{
  ℕ, refl, true, false, Bool, List, Option, ◌++◌, ◌∷◌, [], none, some, suc, if◌then◌else◌, length,
  map, contains, filter,
}
use cqrs_ddd.Common.Dict.{lookup}
use Prim.Native.Nat.{zero}

pub data RelationshipType : Type 0 where
  one_to_many many_to_one many_to_many : RelationshipType

pub record Relationship : Type 0 where
  pub name : ℕ
  pub type : RelationshipType
  pub target_schema : ℕ
  pub foreign_key : Option ℕ

-- Of a column, its name.
pub record Schema : Type 0 where
  pub name : ℕ
  pub columns : List ℕ
  pub relationships : List Relationship

-- The dictionary of the registered schemas.
abbrev pub Schemas : Type 0
Schemas = List (ℕ × Schema)

abbrev pub is_many_to_one : Relationship → Bool
is_many_to_one r = elim r.type [ many_to_one ↦ true | _ ↦ false ]

-- The schemas that a name depends on.
abbrev pub targets_of : Option Schema → List ℕ
targets_of none = []
targets_of (some s) = map (λ r. r.target_schema) (filter is_many_to_one s.relationships)

abbrev pub dependencies : Schemas → ℕ → List ℕ
dependencies g name = targets_of (lookup name g)

-- The local variables of `get_initialization_order`.
pub record Visit : Type 0 where
  pub visited : List ℕ
  pub result : List ℕ

abbrev pub and_visit : (Visit → Option Visit) → Option Visit → Option Visit
and_visit next none = none
and_visit next (some s) = next s

abbrev pub visit_each : (ℕ → Visit → Option Visit) → List ℕ → Visit → Option Visit
visit_each visit_one [] s = some s
visit_each visit_one (t ∷ ts) s = and_visit (visit_each visit_one ts) (visit_one t s)

abbrev pub append_result : ℕ → Visit → Visit
append_result name s = record s { result = s.result ++ name ∷ [] }

abbrev pub appended : ℕ → Option Visit → Option Visit
appended name none = none
appended name (some s) = some (append_result name s)

abbrev pub enter : ℕ → Visit → Visit
enter name s = record s { visited = name ∷ s.visited }

-- The inner function `visit`, on fuel.
unfoldable pub visit : Schemas → ℕ → ℕ → Visit → Option Visit
visit g zero name s = none
visit g (suc fuel) name s =
    let inside = visit_each (visit g fuel) (dependencies g name) (enter name s) in
    if contains s.visited name then some s else appended name inside

abbrev pub names : Schemas → List ℕ
names [] = []
names ((n, s) ∷ g) = n ∷ names g

-- The names that are registered or depended on.
abbrev pub all_names : Schemas → List ℕ
all_names [] = []
all_names ((n, s) ∷ g) = n ∷ targets_of (some s) ++ all_names g

abbrev pub result_of : Option Visit → Option (List ℕ)
result_of none = none
result_of (some s) = some s.result

abbrev pub new_visit : Visit
new_visit = record { visited = []; result = [] }

-- With more fuel than there are names. `none` says that the fuel ran out.
unfoldable pub get_initialization_order : Schemas → Option (List ℕ)
get_initialization_order g =
    result_of (visit_each (visit g (suc (length (all_names g)))) (names g) new_visit)
