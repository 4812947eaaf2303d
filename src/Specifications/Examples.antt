-- ===== src/Specifications/Examples.antt =====
-- Specifications at concrete inputs.
use cqrs_ddd.Common.{ℕ, Bool, List, Option, refl, ◌≡◌, [], ◌∷◌, ◌==◌, none, some, if◌then◌else◌}
use cqrs_ddd.Common.Outcome.{ok, raise, ◌>>=◌}
use cqrs_ddd.Specifications.{
  Spec, Operator, attribute, and_spec, not_spec, nil, cons, is_satisfied_by, Node, dict, connective,
  operator, unknown, or_op, not_op, under, absent, listed, item, end, missing, given, other,
  to_dict, eq, like, validate_node, gt, operator_not_found,
}
use cqrs_ddd.Specifications.Build.{from_dict, validate, with_fault, fault, build}
use cqrs_ddd.Specifications.Build.Agreement.{raise_first, from_dict-validate}
use cqrs_ddd.Specifications.Build.Roundtrip.{from_dict-to_dict}
use cqrs_ddd.Specifications.Build.Safety.{Sound, from_dict-Sound}
use cqrs_ddd.Specifications.Builder.{new_builder, Group, and_of, or_of, not_of}
use cqrs_ddd.Specifications.Builder.Nesting.{
  Tree, leaf, group, stop, also, call_each, all_mean, build_means,
}
use cqrs_ddd.Specifications.Builder

-- Casts to the type 1 only.
cast_one : ℕ → ℕ → Option ℕ
cast_one v t = if t == 1 then some v else none

abbrev fields : Option (List ℕ)
fields = some (3 ∷ 4 ∷ [])

abbrev adults : Spec
adults = and_spec (cons (attribute 3 gt 18) (cons (not_spec (attribute 4 like 7)) nil))

abbrev misspelt : Node
misspelt = dict (some (connective or_op)) none 0 none (
    under
      (listed (
        item (dict (some (operator eq)) (some 4) 9 (some 1) (under absent missing))
          (item (dict (some (unknown 5)) none 9 none (under absent missing)) (item other end))))
      missing)

misspelt_raises : from_dict cast_one fields misspelt ≡ raise (fault (operator_not_found 5))
unfolding from_dict validate_node
misspelt_raises = refl

from_dict-validate_example :
    from_dict cast_one fields misspelt
    ≡ with_fault (raise_first (validate fields misspelt)) (build cast_one misspelt)
from_dict-validate_example = from_dict-validate cast_one fields misspelt

from_dict-to_dict_example : from_dict cast_one fields (to_dict adults) ≡ ok adults
from_dict-to_dict_example = from_dict-to_dict cast_one fields adults (refl, (refl, tt))

abbrev cast_query : Node
cast_query =
    dict (some (connective not_op)) none 0 none
      (under absent (given (dict (some (operator eq)) (some 4) 9 (some 1) (under absent missing))))

from_dict-Sound_example : Sound cast_one fields (from_dict cast_one fields cast_query)
from_dict-Sound_example = from_dict-Sound cast_one fields cast_query tt

abbrev either : Tree
either = group or_of (also (leaf 3 gt 18) (also (group not_of (also (leaf 4 eq 2) stop)) stop))

build_means_example :
    (s : Spec) × ((call_each (also either (also (leaf 5 like 1) stop)) new_builder
        >>= Builder.build)
      ≡ ok s)
    × ((holds : ℕ → Operator → ℕ → Bool)
        → is_satisfied_by holds s ≡ all_mean holds (also either (also (leaf 5 like 1) stop)))
build_means_example = build_means either (also (leaf 5 like 1) stop) (tt, (tt, tt)) (tt, tt)
