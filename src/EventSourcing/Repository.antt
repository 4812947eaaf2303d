-- ===== src/EventSourcing/Repository.antt =====
-- `EventSourcedRepository` of event_sourcing/repository.py of
-- packages/advanced/src/cqrs_ddd_advanced_core, over the in-memory event store and snapshots.
pub mod Persisted
pub mod Reads
use cqrs_ddd.Common.{ℕ, List, Option, ◌+◌, some, suc, ◌∷◌, ◌-◌, length}
use cqrs_ddd.EventStore.{StoredEvent, Spec, append_batch}
use cqrs_ddd.EventSourcing.{Class, maybe_snapshot, load}
use cqrs_ddd.EventSourcing.Snapshots.{Aggregate, SnapshotStore, Strategies}
use cqrs_ddd.Upcasting.{Registry}
use cqrs_ddd.Common.Outcome.{Outcome, ok, ◌>>=◌}
use mathlib.Core.List.{[]}
use mathlib.Core.Option.{none}

-- An event of the domain, as far as it is stored; `payload` is its `model_dump`, and `tenant_id`
-- stands in the metadata.
pub record DomainEvent : Type 0 where
  pub event_id : ℕ
  pub event_type : ℕ
  pub aggregate_id : ℕ
  pub aggregate_type : Option ℕ
  pub schema_version : ℕ
  pub payload : ℕ
  pub metadata : ℕ
  pub tenant_id : Option ℕ
  pub occurred_at : Option ℕ
  pub correlation_id : Option ℕ
  pub causation_id : Option ℕ

abbrev pub or_else_number : Option ℕ → ℕ → ℕ
or_else_number none n = n
or_else_number (some m) n = m

-- The `StoredEvent` of the event at an index. Versions count back from that of the entity; where that
-- is smaller than the number of events, the model writes 0 for a version that is not positive, which
-- a read after any version leaves out as well.
abbrev pub stored_event : (type_name now version count index : ℕ) → DomainEvent → StoredEvent
stored_event t now v n i e = record {
  event_id = e.event_id;
  event_type = e.event_type;
  aggregate_id = e.aggregate_id;
  aggregate_type = or_else_number e.aggregate_type t;
  version = (v + suc i) - n;
  schema_version = e.schema_version;
  payload = e.payload;
  metadata = e.metadata;
  occurred_at = or_else_number e.occurred_at now;
  correlation_id = e.correlation_id;
  causation_id = e.causation_id;
  position = none;
  tenant_id = e.tenant_id;
}

abbrev pub stored_from :
    (type_name now version count index : ℕ) → List DomainEvent → List StoredEvent
stored_from t now v n i [] = []
stored_from t now v n i (e ∷ es) = stored_event t now v n i e ∷ stored_from t now v n (suc i) es

module _ {S D E X : Type 0} (c : Class S D E X) (strategies : Option (Strategies S)) where
  abbrev pub snapshot_after :
      (now : ℕ) → Aggregate S → Option (SnapshotStore D) → Option (SnapshotStore D)
  snapshot_after now a none = none
  snapshot_after now a (some snapshots) = some (maybe_snapshot c strategies now a snapshots)

  -- `persist`: the events of the entity go to the store, and then a snapshot may be taken.
  unfoldable pub persist :
      (now : ℕ)
      → Aggregate S
      → List DomainEvent
      → Option (SnapshotStore D)
      → List StoredEvent
      → Option (SnapshotStore D) × List StoredEvent
  persist now a events snapshots store = (
    snapshot_after now a snapshots,
    append_batch (stored_from c.type_name now a.version (length events) 0 events) store,
  )

module _ {S D E X : Type 0} (c : Class S D E X) (upcasters : Option (Registry ℕ)) where
  abbrev pub with_found :
      Option (Aggregate S) → Outcome X (List (Aggregate S)) → Outcome X (List (Aggregate S))
  with_found none rest = rest
  with_found (some a) rest = do as_ ← rest; ok (a ∷ as_)

  -- `retrieve`
  unfoldable pub retrieve :
      Option (SnapshotStore D) → Spec → List StoredEvent → List ℕ → Outcome X (List (Aggregate S))
  retrieve snapshots spec store [] = ok []
  retrieve snapshots spec store (i ∷ ids) = do
    found ← load c upcasters snapshots spec store i
    with_found found (retrieve snapshots spec store ids)
