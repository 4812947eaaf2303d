-- ===== src/EventSourcing/Transparency/Every.antt =====
-- The snapshot of one aggregate and the loads of all of them.
use cqrs_ddd.Common.{ℕ, List, Option, refl, ◌≡◌, none, some, false, ◌==◌, Bool-cases, inl, inr}
use cqrs_ddd.EventStore.{StoredEvent, Spec}
use cqrs_ddd.Upcasting.{Registry}
use cqrs_ddd.EventSourcing.{Class, load, maybe_snapshot}
use cqrs_ddd.EventSourcing.Snapshots.{
  Aggregate, SnapshotStore, Strategies, get_latest_snapshot, should_snapshot,
  get_latest_snapshot-save_snapshot_other,
}

module _ {S D E X : Type 0} (c : Class S D E X) (upcasters : Option (Registry ℕ))
    (spec : Spec) where
  -- A load depends on the latest snapshot of its aggregate only.
  pub load_by_latest :
      (j : ℕ) (store store' : SnapshotStore D) (es : List StoredEvent)
      → get_latest_snapshot c.type_name j store' ≡ get_latest_snapshot c.type_name j store
      → load c upcasters (some store') spec es j ≡ load c upcasters (some store) spec es j
  unfolding load
  load_by_latest j store store' es h = rw h refl

  pub maybe_snapshot_other :
      (strategies : Option (Strategies S)) (now : ℕ) (a : Aggregate S) (i j : ℕ)
      (store : SnapshotStore D)
      → c.ident a.state ≡ some i
      → (i == j) ≡ false
      → get_latest_snapshot c.type_name j (maybe_snapshot c strategies now a store)
        ≡ get_latest_snapshot c.type_name j store
  unfolding maybe_snapshot
  maybe_snapshot_other none now a i j store named h = refl
  maybe_snapshot_other (some r) now a i j store named h =
      elim (Bool-cases (should_snapshot c.type_name a r)) [
        | inl due ↦
            rw (due, named)
              (get_latest_snapshot-save_snapshot_other c.type_name i j (c.model_dump a.state)
                a.version now store h)
        | inr early ↦ rw early refl
      ]
