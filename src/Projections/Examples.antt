-- ===== src/Projections/Examples.antt =====
-- The theorems on projections at a store of three events.
use cqrs_ddd.Projections.Schema.{
  many_to_one, Relationship, Schemas, get_initialization_order, Schema, visit,
}
use cqrs_ddd.Common.{
  ℕ, refl, true, false, List, none, [], some, ◌∷◌, ◌≡◌, ◌++◌, ◌==◌, Bool-cases, All, inl, arith,
  contains, inr,
}
use cqrs_ddd.EventStore.{get_events_from_position, get_events_after, StoredEvent}
use cqrs_ddd.Projections.Worker.{Projected, Worker, run, Attempt}
use cqrs_ddd.Common.Outcome.{Outcome, ok}
use cqrs_ddd.Projections.Schema.Order.{Descends, Ordered, get_initialization_order-Ordered}
use cqrs_ddd.Projections.Schema.Ends.{get_initialization_order_once}
use cqrs_ddd.Common.Distinct.{IsDistinct}

abbrev stored_event : ℕ → ℕ → StoredEvent
stored_event i type = record {
  event_id = i;
  event_type = type;
  aggregate_id = 1;
  aggregate_type = 4;
  version = i;
  schema_version = 1;
  payload = 0;
  metadata = 0;
  occurred_at = i;
  correlation_id = none;
  causation_id = none;
  position = some i;
  tenant_id = none;
}

abbrev store : List StoredEvent
store = stored_event 0 1 ∷ stored_event 1 1 ∷ stored_event 2 1 ∷ stored_event 3 1 ∷ []

-- The projected data are the identifiers of the handled events.
abbrev listing : Worker (List ℕ)
listing = record {
  handler_map = λ type. some (λ e ids. ids ++ e.event_id ∷ []);
  catch_up = false;
  specification = none;
}

abbrev new_projection : Projected (List ℕ)
new_projection = record { view = []; position = none }

-- The event at position 0 is not projected.
listed :
    run listing (λ e. false) store new_projection
    ≡ some (ok tt, record { view = 1 ∷ 2 ∷ 3 ∷ []; position = some 3 })
unfolding run get_events_from_position get_events_after
listed = refl

-- A worker that catches up: the second run finds two events and starts behind them.
abbrev catching_up : Worker (List ℕ)
catching_up = record listing { catch_up = true }

abbrev late_runs : List Attempt
late_runs =
    record { stored = 0; raises = λ e. false }
    ∷ record { stored = 2; raises = λ e. false }
    ∷ record { stored = 3; raises = λ e. e.event_id == 2 }
    ∷ []

-- Orders depend on customers, and customers on regions.
abbrev depends_on : ℕ → Relationship
depends_on n = record { name = 0; type = many_to_one; target_schema = n; foreign_key = some 9 }

abbrev schema : ℕ → List Relationship → Schema
schema n rs = record { name = n; columns = 1 ∷ []; relationships = rs }

abbrev schemas : Schemas
schemas =
    (3, schema 3 (depends_on 2 ∷ [])) ∷ (2, schema 2 (depends_on 1 ∷ [])) ∷ (1, schema 1 []) ∷ []

abbrev circle : Schemas
circle = (1, schema 1 (depends_on 2 ∷ [])) ∷ (2, schema 2 (depends_on 1 ∷ [])) ∷ []

schemas-Descends : Descends schemas (λ n. n)
schemas-Descends n = elim (Bool-cases (3 == n)) [
  | inl e ↦ rw e (ground arith, tt)
  | inr e ↦ rw e (elim (Bool-cases (2 == n)) [
    | inl f ↦ rw f (ground arith, tt)
    | inr f ↦ rw f (elim (Bool-cases (1 == n)) [ inl i ↦ rw i tt | inr i ↦ rw i tt ])
  ])
]

get_initialization_order-Ordered_example :
    (os : List ℕ) × (get_initialization_order schemas ≡ some os)
    × Ordered schemas [] os
    × IsDistinct os
    × All (λ n. contains os n ≡ true) (3 ∷ 2 ∷ 1 ∷ [])
get_initialization_order-Ordered_example =
    get_initialization_order-Ordered schemas (λ n. n) schemas-Descends

in_order : get_initialization_order schemas ≡ some (1 ∷ 2 ∷ 3 ∷ [])
unfolding get_initialization_order visit
in_order = refl

get_initialization_order_once_example :
    (os : List ℕ) × (get_initialization_order circle ≡ some os)
    × IsDistinct os
    × All (λ n. contains os n ≡ true) (1 ∷ 2 ∷ [])
get_initialization_order_once_example = get_initialization_order_once circle
