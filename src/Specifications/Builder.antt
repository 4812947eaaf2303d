-- ===== src/Specifications/Builder.antt =====
-- `SpecificationBuilder` of packages/specifications/src/cqrs_ddd_specifications/builder.py. A call
-- that raises ends the chain of calls.
pub mod Nesting
use cqrs_ddd.Common.{ℕ, List, Option, refl, [], ◌∷◌, ◌++◌}
use cqrs_ddd.Common.Outcome.{Outcome, ok, raise, ◌>>=◌}
use cqrs_ddd.Specifications.{
  Spec, Specs, Operator, attribute, and_spec, or_spec, not_spec, nil, cons,
}

pub data Group : Type 0 where
  and_of or_of not_of : Group

pub data BuilderError : Type 0 where
  no_open_group empty_group not_single groups_open no_conditions : BuilderError

-- The innermost group stands first on the stack.
pub record Builder : Type 0 where
  pub specs : List Spec
  pub stack : List (Group × List Spec)

abbrev pub to_specs : List Spec → Specs
to_specs [] = nil
to_specs (s ∷ ss) = cons s (to_specs ss)

-- `_combine`
unfoldable pub combine : Group → List Spec → Outcome BuilderError Spec
combine op [] = raise empty_group
combine and_of (s ∷ []) = ok s
combine and_of (s ∷ t ∷ ss) = ok (and_spec (to_specs (s ∷ t ∷ ss)))
combine or_of (s ∷ []) = ok s
combine or_of (s ∷ t ∷ ss) = ok (or_spec (to_specs (s ∷ t ∷ ss)))
combine not_of (s ∷ []) = ok (not_spec s)
combine not_of (s ∷ t ∷ ss) = raise not_single

-- `_current_list().append(spec)`
unfoldable append_current : Spec → List Spec → List (Group × List Spec) → Builder
append_current s specs [] = record { specs = specs ++ s ∷ []; stack = [] }
append_current s specs ((g, ss) ∷ rest) = record { specs = specs; stack = (g, ss ++ s ∷ []) ∷ rest }

unfoldable pub add : Spec → Builder → Builder
unfolding append_current
add s b = append_current s b.specs b.stack

unfoldable pub condition : ℕ → Operator → ℕ → Builder → Builder
unfolding add
condition attr op val b = add (attribute attr op val) b

-- `and_group`, `or_group` and `not_group`
unfoldable pub open_group : Group → Builder → Builder
open_group g b = record b { stack = (g, []) ∷ b.stack }

close_top : List Spec → List (Group × List Spec) → Outcome BuilderError Builder
unfolding add combine
close_top specs [] = raise no_open_group
close_top specs ((g, ss) ∷ rest) = do
  s ← combine g ss
  ok (add s (record { specs = specs; stack = rest }))

unfoldable pub end_group : Builder → Outcome BuilderError Builder
unfolding close_top
end_group b = close_top b.specs b.stack

build_top : List Spec → List (Group × List Spec) → Outcome BuilderError Spec
unfolding combine
build_top specs (g ∷ rest) = raise groups_open
build_top [] [] = raise no_conditions
build_top (s ∷ ss) [] = combine and_of (s ∷ ss)

unfoldable pub build : Builder → Outcome BuilderError Spec
unfolding build_top
build b = build_top b.specs b.stack

-- `__init__` and `reset`
abbrev pub new_builder : Builder
new_builder = record { specs = []; stack = [] }
