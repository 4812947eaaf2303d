-- ===== src/Specifications/Build.antt =====
-- `_build`, `from_dict` and `validate` of `SpecificationFactory`.
pub mod Agreement
pub mod Roundtrip
pub mod Safety
pub mod Plain
use cqrs_ddd.Common.{ℕ, List, Option, [], some, ◌∷◌, if◌then◌else◌, none, ◌++◌, ◌+◌}
use cqrs_ddd.Common.Outcome.{Outcome, ok, raise, ◌>>=◌}
use cqrs_ddd.Specifications.{
  Operator, Spec, Node, validate_node, Fault, Specs, Step, dict, Problem, and_spec, connective,
  cons, no_attr, not_a_dict, or_spec, and_op, not_spec, no_op, operator, or_op, allows, attribute,
  not_op, unknown, field_not_allowed, unknown_operator, nil, list_required, listed, Nodes, Children,
  under, conditions_required, other, absent, null, not_a_list, item, end, missing, given, index,
  only,
}

-- What `from_dict` raises: the fault of the validation, an exception that `cast_value` lets escape
-- (it returns the value itself on a `ValueError` or a `TypeError`, but an `OverflowError` of
-- `int`, or the `AttributeError` of a type that is no text, is not caught), or another exception of
-- Python on data that has not the shape that the code reads.
pub data FactoryError : Type 0 where
  fault : Fault → FactoryError
  cast_raised crash : FactoryError

abbrev pub with_fault {ℓ} :
    {A : Type ℓ} → Outcome Fault (Unit {0}) → Outcome FactoryError A → Outcome FactoryError A
with_fault (ok u) next = next
with_fault (raise f) next = raise (fault f)

-- The leaf of a value that is cast.
abbrev pub cast_leaf : ℕ → Operator → Option ℕ → Outcome FactoryError Spec
cast_leaf attr op none = raise cast_raised
cast_leaf attr op (some val) = ok (attribute attr op val)

-- `_build`, where `cast` is `cast_value` on a value and the name of a type: it may raise. On data
-- that the validation refuses, `crash` stands for whatever Python does.
module _ (cast : ℕ → ℕ → Option ℕ) where
  unfoldable mutual
    pub build : Node → Outcome FactoryError Spec
    build other = raise crash
    build (dict none attr val value_type kids) = raise crash
    build (dict (some (connective and_op)) attr val value_type kids) = do
      ss ← build_conditions kids
      ok (and_spec ss)
    build (dict (some (connective or_op)) attr val value_type kids) = do
      ss ← build_conditions kids
      ok (or_spec ss)
    build (dict (some (connective not_op)) attr val value_type kids) = do
      s ← build_negated kids
      ok (not_spec s)
    build (dict (some (operator op)) none val value_type kids) = raise crash
    build (dict (some (operator op)) (some attr) val none kids) = ok (attribute attr op val)
    build (dict (some (operator op)) (some attr) val (some type) kids) =
        cast_leaf attr op (cast val type)
    build (dict (some (unknown n)) attr val value_type kids) = raise crash

    build_conditions : Children → Outcome FactoryError Specs
    build_conditions (under absent c) = ok nil
    build_conditions (under null c) = raise crash
    build_conditions (under not_a_list c) = raise crash
    build_conditions (under (listed ns) c) = build_each ns

    build_each : Nodes → Outcome FactoryError Specs
    build_each end = ok nil
    build_each (item n ns) = do s ← build n; ss ← build_each ns; ok (cons s ss)

    -- The condition of a NOT: the first of a list that is not empty, else the one alone.
    build_negated : Children → Outcome FactoryError Spec
    build_negated (under (listed (item n ns)) c) = build n
    build_negated (under not_a_list c) = raise crash
    build_negated (under (listed end) missing) = raise crash
    build_negated (under (listed end) (given n)) = build n
    build_negated (under absent missing) = raise crash
    build_negated (under absent (given n)) = build n
    build_negated (under null missing) = raise crash
    build_negated (under null (given n)) = build n

unfoldable pub from_dict : (ℕ → ℕ → Option ℕ) → Option (List ℕ) → Node → Outcome FactoryError Spec
unfolding validate_node build
from_dict cast allowed n = with_fault (validate_node allowed [] n) (build cast n)

-- `_collect_leaf_errors`
abbrev pub collect_attr : Option (List ℕ) → List Step → Option ℕ → List (List Step × Problem)
collect_attr allowed path none = (path, no_attr) ∷ []
collect_attr allowed path (some attr) =
    if allows allowed attr then [] else (path, field_not_allowed attr) ∷ []

-- `_collect_errors` and `_collect_logical_errors`: the errors that they append.
module _ (allowed : Option (List ℕ)) where
  unfoldable mutual
    pub collect_errors : List Step → Node → List (List Step × Problem)
    collect_errors path other = (path, not_a_dict) ∷ []
    collect_errors path (dict none attr val value_type kids) = (path, no_op) ∷ []
    collect_errors path (dict (some (connective k)) attr val value_type kids) =
        collect_logical path kids
    collect_errors path (dict (some (operator o)) attr val value_type kids) =
        collect_attr allowed path attr
    collect_errors path (dict (some (unknown n)) attr val value_type kids) =
        (path, unknown_operator n) ∷ collect_attr allowed path attr

    collect_logical : List Step → Children → List (List Step × Problem)
    collect_logical path (under absent missing) = (path, conditions_required) ∷ []
    collect_logical path (under absent (given n)) = collect_errors (only ∷ path) n
    collect_logical path (under null missing) = (path, conditions_required) ∷ []
    collect_logical path (under null (given n)) = collect_errors (only ∷ path) n
    collect_logical path (under not_a_list c) = (path, list_required) ∷ []
    collect_logical path (under (listed end) missing) = (path, conditions_required) ∷ []
    collect_logical path (under (listed end) (given n)) = []
    collect_logical path (under (listed (item n ns)) c) =
        collect_errors (index 0 ∷ path) n ++ collect_nodes path 1 ns

    collect_nodes : List Step → ℕ → Nodes → List (List Step × Problem)
    collect_nodes path i end = []
    collect_nodes path i (item n ns) =
        collect_errors (index i ∷ path) n ++ collect_nodes path (i + 1) ns

-- `validate`
unfoldable pub validate : Option (List ℕ) → Node → List (List Step × Problem)
unfolding collect_errors
validate allowed n = collect_errors allowed [] n
