-- ===== src/EventSourcing/Examples.antt =====
-- A counter that is loaded from its events and its snapshots.
use cqrs_ddd.Common.{
  ℕ, List, refl, [], ◌∷◌, none, some, false, ◌+◌, if◌then◌else◌, ◌==◌, ◌≡◌, drop, ◌++◌,
}
use cqrs_ddd.Common.Outcome.{ok}
use cqrs_ddd.EventStore.{StoredEvent, get_events}
use cqrs_ddd.Upcasting.{Registry, upcast}
use cqrs_ddd.EventSourcing.{Class, load, replay_found}
use cqrs_ddd.EventSourcing.Snapshots.{Strategies, every_n_events, Aggregate}
use cqrs_ddd.EventSourcing.Repository.{DomainEvent, persist}
use cqrs_ddd.EventSourcing.Repository.Reads.{load_after_persist, stored_of}

-- The state is the identifier and the count; an event of type 2 is not registered.
abbrev counter : Class (ℕ × ℕ) (ℕ × ℕ) ℕ ℕ
counter = record {
  type_name = 1;
  create = λ i. some (i, 0);
  model_validate = λ d. ok d;
  model_dump = λ s. s;
  ident = λ s. some s.0;
  is_blank = λ d. false;
  whole = λ shot. shot.snapshot_data;
  hydrate = λ t n. if t == 2 then ok none else ok (some n);
  apply = λ a n. ok (a.state.0, a.state.1 + n);
}

abbrev counted : ℕ → ℕ → ℕ → StoredEvent
counted t version n = record {
  event_id = version;
  event_type = t;
  aggregate_id = 7;
  aggregate_type = 1;
  version = version;
  schema_version = 1;
  payload = n;
  metadata = 0;
  occurred_at = 0;
  correlation_id = none;
  causation_id = none;
  position = some version;
  tenant_id = none;
}

abbrev doubles : Registry ℕ
doubles =
    (3, record { event_type = 3; source_version = 1; target_version = 2; upcast = λ n. n + n } ∷ [])
    ∷ []

abbrev history : List StoredEvent
history = counted 1 1 5 ∷ counted 3 2 4 ∷ counted 2 3 9 ∷ []

abbrev every_two : Strategies (ℕ × ℕ)
every_two = record { strategies = []; default_strategy = some (every_n_events 2) }

-- Two more events of the aggregate 7.
abbrev more_events : List DomainEvent
more_events =
    record {
      event_id = 20;
      event_type = 1;
      aggregate_id = 7;
      aggregate_type = none;
      schema_version = 1;
      payload = 6;
      metadata = 0;
      tenant_id = none;
      occurred_at = none;
      correlation_id = none;
      causation_id = none;
    }
    ∷ record {
      event_id = 21;
      event_type = 3;
      aggregate_id = 7;
      aggregate_type = some 1;
      schema_version = 1;
      payload = 2;
      metadata = 0;
      tenant_id = none;
      occurred_at = some 60;
      correlation_id = none;
      causation_id = none;
    }
    ∷ []

-- An entity of version 1 with two events: the second one is stored as version 1, and the first one is
-- not read.
abbrev behind : Aggregate (ℕ × ℕ)
behind = record { state = (7, 23); version = 1 }

load_after_persist_example :
    let store' = (persist counter none 60 behind more_events none history).1 in
    (load counter (some doubles) none none store' 7
      ≡ replay_found counter
          (some doubles)
          0
          (get_events 7 0 none history
            ++ drop 1 (stored_of counter (some doubles) none 60 behind more_events history))
          (some (record { state = (7, 0); version = 0 })))
    × ((j : ℕ)
        → (7 == j) ≡ false
        → load counter (some doubles) none none store' j
          ≡ load counter (some doubles) none none history j)
load_after_persist_example =
    load_after_persist counter (some doubles) none none 60 7 none history more_events behind (7, 0)
      refl (refl, (refl, tt)) (refl, (refl, tt))
