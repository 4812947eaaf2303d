-- ===== src/Specifications.antt =====
-- Specifications of packages/specifications/src/cqrs_ddd_specifications: the trees of base.py and
-- ast.py, their dictionaries, and `SpecificationFactory` of ast.py.
pub mod Build
pub mod Builder
mod Examples
use cqrs_ddd.Common.{
  ℕ, Bool, List, Option, refl, not, some, true, contains, none, ◌&&◌, ◌∷◌, false, ◌+◌, ◌||◌,
}
use cqrs_ddd.Common.Outcome.{Outcome, ok, raise, raise_if, ◌>>◌}

-- The operators of `SpecificationOperator` but the three logical ones.
pub data Operator : Type 0 where
  eq ne gt lt ge le in_list not_in all_of between not_between : Operator
  like not_like ilike contains_text icontains startswith istartswith endswith iendswith : Operator
  regex iregex is_null is_not_null is_empty_op is_not_empty : Operator
  json_contains json_contained_by json_has_key json_has_any json_has_all json_path_exists : Operator
  intersects within contains_geom touches crosses overlaps disjoint geom_equals : Operator
  distance_lt dwithin bbox_intersects fts fts_phrase : Operator

-- The logical operators.
pub data Connective : Type 0 where
  and_op or_op not_op : Connective

-- A non-empty text under the key `op`, in lower case.
pub data OpText : Type 0 where
  connective : Connective → OpText
  operator : Operator → OpText
  unknown : ℕ → OpText

-- A specification. A value is a number.
mutual
  pub data Spec : Type 0 where
    attribute : (attr : ℕ) → Operator → (val : ℕ) → Spec
    and_spec or_spec : Specs → Spec
    not_spec : Spec → Spec

  pub data Specs : Type 0 where
    nil : Specs
    cons : Spec → Specs → Specs

-- `is_satisfied_by`, where `holds` is what the registry of operators evaluates of an attribute of
-- the candidate.
module _ (holds : ℕ → Operator → ℕ → Bool) where
  unfoldable mutual
    pub is_satisfied_by : Spec → Bool
    is_satisfied_by (attribute attr op val) = holds attr op val
    is_satisfied_by (and_spec ss) = all_satisfied ss
    is_satisfied_by (or_spec ss) = any_satisfied ss
    is_satisfied_by (not_spec s) = not (is_satisfied_by s)

    pub all_satisfied : Specs → Bool
    all_satisfied nil = true
    all_satisfied (cons s ss) = is_satisfied_by s && all_satisfied ss

    pub any_satisfied : Specs → Bool
    any_satisfied nil = false
    any_satisfied (cons s ss) = is_satisfied_by s || any_satisfied ss

-- Parsed data: a dictionary by the values of the keys that the code reads, or another value. The
-- texts under `op` and `attr` are there when they are texts that are not empty. What stands under
-- `conditions` is a list, `None` or another value that is true.
mutual
  pub data Node : Type 0 where
    other : Node
    dict :
        (op : Option OpText) (attr : Option ℕ) (val : ℕ) (value_type : Option ℕ) → Children → Node

  -- What stands under `conditions` and `condition`.
  pub data Children : Type 0 where
    under : Conditions → Condition → Children

  pub data Conditions : Type 0 where
    absent null not_a_list : Conditions
    listed : Nodes → Conditions

  pub data Nodes : Type 0 where
    end : Nodes
    item : Node → Nodes → Nodes

  -- What stands under `condition`.
  pub data Condition : Type 0 where
    missing : Condition
    given : Node → Condition

-- `to_dict` of the classes of specifications.
unfoldable mutual
  pub to_dict : Spec → Node
  to_dict (attribute attr op val) =
      dict (some (operator op)) (some attr) val none (under absent missing)
  to_dict (and_spec ss) =
      dict (some (connective and_op)) none 0 none (under (listed (to_dicts ss)) missing)
  to_dict (or_spec ss) =
      dict (some (connective or_op)) none 0 none (under (listed (to_dicts ss)) missing)
  to_dict (not_spec s) =
      dict (some (connective not_op)) none 0 none (under (listed (item (to_dict s) end)) missing)

  pub to_dicts : Specs → Nodes
  to_dicts nil = end
  to_dicts (cons s ss) = item (to_dict s) (to_dicts ss)

-- What is wrong with a node.
pub data Problem : Type 0 where
  not_a_dict no_op conditions_required list_required no_attr : Problem
  unknown_operator field_not_allowed : ℕ → Problem

-- A step of a path, as in `.conditions[2]` and `.condition`.
pub data Step : Type 0 where
  index : ℕ → Step
  only : Step

-- What validation raises: an `OperatorNotFoundError` or a `ValidationError` with its path, the last
-- step first.
pub data Fault : Type 0 where
  operator_not_found : ℕ → Fault
  invalid : Problem → List Step → Fault

abbrev pub allows : Option (List ℕ) → ℕ → Bool
allows none attr = true
allows (some fields) attr = contains fields attr

-- `_validate_leaf_node`
abbrev pub validate_leaf :
    Option (List ℕ) → List Step → OpText → Option ℕ → Outcome Fault (Unit {0})
validate_leaf allowed path (unknown n) attr = raise (operator_not_found n)
validate_leaf allowed path op none = raise (invalid no_attr path)
validate_leaf allowed path op (some attr) =
    raise_if (not (allows allowed attr)) (invalid (field_not_allowed attr) path)

-- `_validate_node` and `_validate_logical_node`
module _ (allowed : Option (List ℕ)) where
  unfoldable mutual
    pub validate_node : List Step → Node → Outcome Fault (Unit {0})
    validate_node path other = raise (invalid not_a_dict path)
    validate_node path (dict none attr val value_type kids) = raise (invalid no_op path)
    validate_node path (dict (some (connective k)) attr val value_type kids) =
        validate_logical path kids
    validate_node path (dict (some (operator o)) attr val value_type kids) =
        validate_leaf allowed path (operator o) attr
    validate_node path (dict (some (unknown n)) attr val value_type kids) =
        validate_leaf allowed path (unknown n) attr

    validate_logical : List Step → Children → Outcome Fault (Unit {0})
    validate_logical path (under absent missing) = raise (invalid conditions_required path)
    validate_logical path (under absent (given n)) = validate_node (only ∷ path) n
    validate_logical path (under null missing) = raise (invalid conditions_required path)
    validate_logical path (under null (given n)) = validate_node (only ∷ path) n
    validate_logical path (under not_a_list c) = raise (invalid list_required path)
    validate_logical path (under (listed end) missing) = raise (invalid conditions_required path)
    validate_logical path (under (listed end) (given n)) = ok tt
    validate_logical path (under (listed (item n ns)) c) = do
      validate_node (index 0 ∷ path) n
      validate_nodes path 1 ns

    validate_nodes : List Step → ℕ → Nodes → Outcome Fault (Unit {0})
    validate_nodes path i end = ok tt
    validate_nodes path i (item n ns) = do
      validate_node (index i ∷ path) n
      validate_nodes path (i + 1) ns
