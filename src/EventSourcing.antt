-- ===== src/EventSourcing.antt =====
-- Event-sourced aggregates of packages/advanced/src/cqrs_ddd_advanced_core: `EventSourcedLoader` of
-- event_sourcing/loader.py over the in-memory event store, the snapshots of
-- adapters/memory/snapshot_store.py, snapshots/strategy_registry.py and snapshots/strategy.py, and
-- the upcasters.
pub mod Snapshots
pub mod Transparency
pub mod Repository
mod Examples
use cqrs_ddd.Common.{
  ℕ, Bool, List, Option, refl, [], ◌∷◌, not, none, some, true, false, ◌==◌, is_empty, ◌&&◌,
  if◌then◌else◌, ltb,
}
use cqrs_ddd.Common.Outcome.{Outcome, ok, raise, ◌>>=◌}
use cqrs_ddd.EventStore.{StoredEvent, Spec, get_events}
use cqrs_ddd.Upcasting.{Registry, upcast, registered}
use cqrs_ddd.EventSourcing.Snapshots.{
  Aggregate, Snapshot, SnapshotStore, Strategies, get_latest_snapshot, save_snapshot,
  should_snapshot,
}

-- What the class of the aggregate, the registry of event types and the applicator do: `S` is the
-- state of an aggregate but its version, `D` what it is dumped to, `E` an event and `X` an
-- exception. A `create` that raises is `none`. `is_blank` tells an empty dictionary, and `whole` is
-- the snapshot's dictionary as data.
pub record Class (S D E X : Type 0) : Type 0 where
  pub type_name : ℕ
  pub create : ℕ → Option S
  pub model_validate : D → Outcome X S
  pub model_dump : S → D
  pub ident : S → Option ℕ
  pub is_blank : D → Bool
  pub whole : Snapshot D → D
  pub hydrate : ℕ → ℕ → Outcome X (Option E)
  pub apply : Aggregate S → E → Outcome X S

module _ {S D E X : Type 0} (c : Class S D E X) (upcasters : Option (Registry ℕ)) where
  -- The payload and the version of its schema after upcasting.
  unfoldable pub upcast_stored : StoredEvent → ℕ × ℕ
  unfolding upcast
  upcast_stored e = elim upcasters [
    | none ↦ (e.payload, e.schema_version)
    | some r ↦
        if not (is_empty (registered e.event_type r))
        then upcast e.event_type e.payload e.schema_version r
        else (e.payload, e.schema_version)
  ]

  -- An event that is not hydrated is skipped; an applied one gives the aggregate its version.
  unfoldable pub apply_hydrated : StoredEvent → Aggregate S → Option E → Outcome X (Aggregate S)
  apply_hydrated e a none = ok a
  apply_hydrated e a (some d) = do s ← c.apply a d; ok (record { state = s; version = e.version })

  unfoldable pub apply_stored : StoredEvent → Aggregate S → Outcome X (Aggregate S)
  unfolding upcast_stored apply_hydrated
  apply_stored e a = c.hydrate e.event_type (upcast_stored e).0 >>= apply_hydrated e a

  -- The loop of `load`.
  unfoldable pub replay : List StoredEvent → Aggregate S → Outcome X (Aggregate S)
  unfolding apply_stored
  replay [] a = ok a
  replay (e ∷ es) a = apply_stored e a >>= replay es

  -- The aggregate before its events: from the snapshot, else a new one.
  unfoldable pub start : ℕ → Option (Snapshot D) → Outcome X (Option (Aggregate S))
  start i none = elim (c.create i) [
    | none ↦ ok none
    | some s ↦ ok (some (record { state = s; version = 0 }))
  ]
  start i (some shot) = do
    s ←
        c.model_validate
          (if c.is_blank shot.snapshot_data then c.whole shot else shot.snapshot_data)
    ok (some (record { state = s; version = shot.version }))

  abbrev pub after_version : Option (Snapshot D) → ℕ
  after_version none = 0
  after_version (some shot) = shot.version

  -- No snapshot and no events: the aggregate never existed.
  unfoldable pub replay_found :
      ℕ → List StoredEvent → Option (Aggregate S) → Outcome X (Option (Aggregate S))
  unfolding replay
  replay_found after raw none = ok none
  replay_found after raw (some a) =
      if is_empty raw && (after == 0) then ok none else (do b ← replay raw a; ok (some b))

  abbrev pub latest : Option (SnapshotStore D) → ℕ → Option (Snapshot D)
  latest none i = none
  latest (some store) i = get_latest_snapshot c.type_name i store

  -- `load`
  unfoldable pub load :
      Option (SnapshotStore D) → Spec → List StoredEvent → ℕ → Outcome X (Option (Aggregate S))
  unfolding start replay_found get_events
  load snapshots spec es i =
      let shot = latest snapshots i in
      start i shot >>= replay_found (after_version shot) (get_events i (after_version shot) spec es)

-- `maybe_snapshot`
unfoldable pub maybe_snapshot :
    {S D E X : Type 0}
    → Class S D E X
    → Option (Strategies S)
    → (now : ℕ) → Aggregate S
    → SnapshotStore D
    → SnapshotStore D
unfolding should_snapshot save_snapshot
maybe_snapshot c none now a store = store
maybe_snapshot c (some strategies) now a store =
    if should_snapshot c.type_name a strategies
    then elim (c.ident a.state) [
      | none ↦ store
      | some i ↦ save_snapshot c.type_name i (c.model_dump a.state) a.version now store
    ]
    else store
