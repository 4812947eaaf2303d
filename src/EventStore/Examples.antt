-- ===== src/EventStore/Examples.antt =====
-- The theorems on the event store at a store of three events.
use cqrs_ddd.Common.{ℕ, refl, List, Option, some, none, ◌==◌, ◌∷◌, ◌≡◌, All, [], filter}
use cqrs_ddd.EventStore.{StoredEvent, get_all_streaming, get_all, Spec, get_events_from_position}
use cqrs_ddd.EventStore.Streaming.{IsPlaced, chosen}
use cqrs_ddd.EventStore.Cursor.{get_events_from_position-eq}
use cqrs_ddd.EventStore.Batches.{get_all_streaming-get_all, flatten, FitsBatch}

abbrev event_at : ℕ → ℕ → Option ℕ → StoredEvent
event_at i aggregate position = record {
  event_id = i;
  event_type = 2;
  aggregate_id = aggregate;
  aggregate_type = 4;
  version = i;
  schema_version = 1;
  payload = 0;
  metadata = 0;
  occurred_at = i;
  correlation_id = none;
  causation_id = none;
  position = position;
  tenant_id = none;
}

abbrev stored : List StoredEvent
stored = event_at 10 1 (some 0) ∷ event_at 11 2 (some 1) ∷ event_at 12 1 (some 2) ∷ []

stored-IsPlaced : IsPlaced 0 stored
stored-IsPlaced = (refl, (refl, (refl, tt)))

abbrev new_events : List StoredEvent
new_events = event_at 13 2 none ∷ event_at 14 2 none ∷ []

abbrev of_one : Spec
of_one = some (λ e. e.aggregate_id == 1)

get_all_streaming-get_all_example :
    (bs : List (List StoredEvent)) × (get_all_streaming 2 of_one stored ≡ some bs)
    × (flatten bs ≡ get_all of_one stored)
    × All (FitsBatch 2) bs
get_all_streaming-get_all_example = get_all_streaming-get_all 1 of_one stored stored-IsPlaced

get_events_from_position-eq_example :
    (get_events_from_position (some 0) (some 1) none stored
      ≡ some (filter (chosen (some 0) none) stored))
    × (get_events_from_position (some 0) none none stored
        ≡ some (filter (chosen (some 0) none) stored))
get_events_from_position-eq_example =
    get_events_from_position-eq (some 0) 0 none stored stored-IsPlaced
