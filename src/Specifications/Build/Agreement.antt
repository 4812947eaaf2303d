-- ===== src/Specifications/Build/Agreement.antt =====
-- The two validations of `SpecificationFactory`: `_validate_node`, which raises, and
-- `_collect_errors`, which lists.
use cqrs_ddd.Common.{ℕ, List, Option, refl, sym, ◌+◌, [], ◌∷◌, ◌++◌, ◌≡◌, arith, none, some, ap}
use cqrs_ddd.Common.Outcome.{Outcome, ok, raise, ◌>>◌}
use cqrs_ddd.Specifications.{
  Node, validate_node, validate_logical, validate_nodes, Fault, Step, dict, Problem, connective,
  operator, unknown, invalid, operator_not_found, unknown_operator, not_a_dict, no_op,
  conditions_required, list_required, no_attr, field_not_allowed, validate_leaf, listed, Nodes,
  Children, under, other, absent, null, not_a_list, item, end, missing, given, index, only,
}
use cqrs_ddd.Specifications.Build.{
  collect_errors, collect_logical, collect_nodes, collect_attr, validate, with_fault, from_dict,
  build,
}

-- The exception of one collected error.
abbrev pub fault_of : List Step × Problem → Fault
fault_of (path, unknown_operator n) = operator_not_found n
fault_of (path, not_a_dict) = invalid not_a_dict path
fault_of (path, no_op) = invalid no_op path
fault_of (path, conditions_required) = invalid conditions_required path
fault_of (path, list_required) = invalid list_required path
fault_of (path, no_attr) = invalid no_attr path
fault_of (path, field_not_allowed n) = invalid (field_not_allowed n) path

-- The first of the errors is raised.
abbrev pub raise_first : List (List Step × Problem) → Outcome Fault (Unit {0})
raise_first [] = ok tt
raise_first (e ∷ es) = raise (fault_of e)

raise_first-append :
    (es fs : List (List Step × Problem))
    → raise_first (es ++ fs) ≡ (raise_first es >> raise_first fs)
raise_first-append [] fs = refl
raise_first-append (e ∷ es) fs = refl

validate_leaf_agrees :
    (allowed : Option (List ℕ)) (path : List Step) (attr : Option ℕ) (o : _)
    → validate_leaf allowed path (operator o) attr ≡ raise_first (collect_attr allowed path attr)
validate_leaf_agrees allowed path none o = refl
validate_leaf_agrees allowed path (some attr) o = ground arith

module _ (allowed : Option (List ℕ)) where
  mutual
    unfolding validate_node collect_errors

    node_agrees :
        (path : List Step) (n : Node)
        → validate_node allowed path n ≡ raise_first (collect_errors allowed path n)
    node_agrees path other = refl
    node_agrees path (dict none attr val value_type kids) = refl
    node_agrees path (dict (some (connective k)) attr val value_type kids) =
        children_agree path kids
    node_agrees path (dict (some (operator o)) attr val value_type kids) =
        validate_leaf_agrees allowed path attr o
    node_agrees path (dict (some (unknown u)) attr val value_type kids) = refl

    children_agree :
        (path : List Step) (kids : Children)
        → validate_logical allowed path kids ≡ raise_first (collect_logical allowed path kids)
    children_agree path (under absent missing) = refl
    children_agree path (under absent (given n)) = node_agrees (only ∷ path) n
    children_agree path (under null missing) = refl
    children_agree path (under null (given n)) = node_agrees (only ∷ path) n
    children_agree path (under not_a_list c) = refl
    children_agree path (under (listed end) missing) = refl
    children_agree path (under (listed end) (given n)) = refl
    children_agree path (under (listed (item n ns)) c) =
        rw (node_agrees (index 0 ∷ path) n, nodes_agree path 1 ns) (sym (raise_first-append _ _))

    nodes_agree :
        (path : List Step) (i : ℕ) (ns : Nodes)
        → validate_nodes allowed path i ns ≡ raise_first (collect_nodes allowed path i ns)
    nodes_agree path i end = refl
    nodes_agree path i (item n ns) =
        rw (node_agrees (index i ∷ path) n, nodes_agree path (i + 1) ns)
          (sym (raise_first-append _ _))

-- `from_dict` raises the first of the errors that `validate` lists, with its path, and builds the
-- specification exactly when `validate` lists none.
pub from_dict-validate :
    (cast : ℕ → ℕ → Option ℕ) (allowed : Option (List ℕ)) (n : Node)
    → from_dict cast allowed n ≡ with_fault (raise_first (validate allowed n)) (build cast n)
unfolding from_dict validate
from_dict-validate cast allowed n = ap (λ r. with_fault r (build cast n)) (node_agrees allowed [] n)
