-- ===== src/Sagas/Builder/Examples.antt =====
-- A saga class that is built of a mapping and two steps of Try-Confirm/Cancel.
use cqrs_ddd.Sagas.Builder.{
  step_registered, mapped, begins, tried, failed, duplicate_event, BuiltClass, SagaBuilder, build,
  collect_all_events,
}
use cqrs_ddd.Sagas.Builder.Built.{Initializes, build_lem}
use cqrs_ddd.Common.Outcome.{ok, raise}
use cqrs_ddd.Common.{refl, ◌∷◌, ◌≡◌, [], some}
use cqrs_ddd.Common.Distinct.{IsDistinct}
use cqrs_ddd.Sagas.Builder.Wiring.{events_of, declared}

-- A saga with one mapping and two steps, and the class that is built of it.
abbrev declared_saga : SagaBuilder
declared_saga = record {
  on_registrations = (1, 70) ∷ [];
  tcc_steps = 5 ∷ 6 ∷ [];
  tcc_begin_event = some 2;
  tcc_tried = (5, 3) ∷ (6, 4) ∷ [];
  tcc_confirmed = [];
  tcc_failed = (5, 8) ∷ [];
  tcc_cancelled = [];
}

abbrev built_saga : BuiltClass
built_saga = record {
  listens_to = 1 ∷ 2 ∷ 3 ∷ 4 ∷ 8 ∷ [];
  init = ok (record {
    tcc_steps = 5 ∷ 6 ∷ [];
    event_handlers =
        (1, mapped 70) ∷ (2, begins) ∷ (3, tried 5) ∷ (4, tried 6) ∷ (8, failed 5) ∷ [];
  });
}

twice : build (record declared_saga { tcc_cancelled = (6, 3) ∷ [] }) ≡ raise (duplicate_event 3)
unfolding build
twice = refl

build_lem_example :
    (built_saga.listens_to ≡ collect_all_events declared_saga)
    × IsDistinct (collect_all_events declared_saga)
    × (events_of (declared declared_saga) ≡ collect_all_events declared_saga)
    × Initializes declared_saga built_saga.init
unfolding build
build_lem_example = build_lem declared_saga built_saga refl

-- A class with two steps of one name is built, and no saga of it can be made.
named_twice :
    (c : BuiltClass) × (build (record declared_saga { tcc_steps = 5 ∷ 6 ∷ 5 ∷ [] }) ≡ ok c)
    × (c.init ≡ raise (step_registered 5))
unfolding build
named_twice = (record built_saga { init = raise (step_registered 5) }, refl, refl)
