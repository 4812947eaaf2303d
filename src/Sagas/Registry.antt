-- ===== src/Sagas/Registry.antt =====
-- `SagaRegistry` of sagas/registry.py, and the routing of an event to the registered sagas by
-- `SagaManager` of sagas/manager.py.
use cqrs_ddd.Common.{ℕ, List, Option, [], ◌∷◌, ◌++◌, none, some, any, ◌==◌, if◌then◌else◌, ◌+◌, map}
use cqrs_ddd.Common.Dict.{Dict, lookup, insert}
use cqrs_ddd.Common.Outcome.{Outcome, ok, raise}
use cqrs_ddd.Sagas.Manager.{Bus, SagaClass, World, Stop, process_saga}
use cqrs_ddd.Sagas.Orchestration.{DomainEvent, MessageRegistry}

-- A class with its identity and its `listened_events()`.
pub record Registered : Type 0 where
  pub class_id : ℕ
  pub class : SagaClass
  pub listened_events : List ℕ

pub record SagaRegistry : Type 0 where
  pub event_map : Dict (List Registered)
  pub type_map : Dict Registered

unfoldable pub register_type : Registered → SagaRegistry → SagaRegistry
register_type c r = record r { type_map = insert c.class.name c r.type_map }

unfoldable pub get_sagas_for_event : ℕ → SagaRegistry → List Registered
get_sagas_for_event e r = elim (lookup e r.event_map) [ none ↦ [] | some cs ↦ cs ]

-- `saga_class not in ...`, then the class is appended.
abbrev add_class : Registered → List Registered → List Registered
add_class c cs = if any (λ d. d.class_id == c.class_id) cs then cs else cs ++ c ∷ []

unfoldable pub register : ℕ → Registered → SagaRegistry → SagaRegistry
unfolding register_type get_sagas_for_event
register e c r =
    register_type c
      (record r { event_map = insert e (add_class c (get_sagas_for_event e r)) r.event_map })

abbrev register_each : List ℕ → Registered → SagaRegistry → SagaRegistry
unfolding register
register_each [] c r = r
register_each (e ∷ es) c r = register_each es c (register e c r)

-- `register_saga`: a class that listens to nothing is still registered by its name.
unfoldable pub register_saga : Registered → SagaRegistry → SagaRegistry
unfolding register_each register_type
register_saga c r = elim c.listened_events [
  | [] ↦ register_type c r
  | e ∷ es ↦ register_each (e ∷ es) c r
]

abbrev pub registered_event_types : SagaRegistry → List ℕ
registered_event_types r = map (λ p. p.0) r.event_map

abbrev pub get_saga_type : ℕ → SagaRegistry → Option Registered
get_saga_type name r = lookup name r.type_map

abbrev pub clear : SagaRegistry → SagaRegistry
clear r = record { event_map = []; type_map = [] }

-- `_correlation_id_from_event`, with what stands in the event's metadata.
abbrev pub correlation_of : DomainEvent → Option ℕ → Option ℕ
correlation_of e metadata_correlation = elim e.correlation_id [
  | some c ↦ some c
  | none ↦ metadata_correlation
]

-- The loop of `_handle_internal`: the first saga that raises ends it. The identifiers of new sagas
-- and the readings of the clock are numbered by the rounds.
unfoldable pub process_each :
    Bus
    → MessageRegistry
    → (fresh_ids clock : ℕ → ℕ) → ℕ
    → ℕ
    → DomainEvent
    → List Registered
    → World
    → World × Outcome Stop (Unit {0})
unfolding process_saga
process_each bus m fresh_ids clock i correlation e [] w = (w, ok tt)
process_each bus m fresh_ids clock i correlation e (c ∷ cs) w =
    let (w', r) = process_saga bus m (fresh_ids i) (clock i) c.class correlation (some e) w in
    elim r [
      | ok id ↦ process_each bus m fresh_ids clock (i + 1) correlation e cs w'
      | raise x ↦ (w', raise x)
    ]

-- `_handle_internal`: an event without a correlation, or that no saga listens to, does nothing.
unfoldable pub handle_event :
    Bus
    → MessageRegistry
    → (fresh_ids clock : ℕ → ℕ) → SagaRegistry
    → DomainEvent
    → (metadata_correlation : Option ℕ) → World
    → World × Outcome Stop (Unit {0})
unfolding process_each get_sagas_for_event
handle_event bus m fresh_ids clock r e metadata_correlation w =
    elim (correlation_of e metadata_correlation) [
      | none ↦ (w, ok tt)
      | some c ↦ process_each bus m fresh_ids clock 0 c e (get_sagas_for_event e.type r) w
    ]
