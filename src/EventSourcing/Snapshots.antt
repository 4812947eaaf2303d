-- ===== src/EventSourcing/Snapshots.antt =====
-- Snapshots: `InMemorySnapshotStore` of adapters/memory/snapshot_store.py,
-- `SnapshotStrategyRegistry` of snapshots/strategy_registry.py and `EveryNEventsStrategy`, in
-- packages/advanced/src/cqrs_ddd_advanced_core.
use cqrs_ddd.Common.{
  ℕ, Bool, List, Option, ◌≡◌, [], ◌∷◌, none, some, false, ◌==◌, ◌&&◌, if◌then◌else◌, ltb, arith,
}
use Prim.Native.Nat.{◌%◌}
use cqrs_ddd.Common.Dict.{Dict, lookup, insert}

-- An aggregate with its `_version`.
pub record Aggregate (S : Type 0) : Type 0 where
  pub state : S
  pub version : ℕ

pub record Snapshot (D : Type 0) : Type 0 where
  pub snapshot_data : D
  pub version : ℕ
  pub created_at : ℕ

-- The dictionary by the pair of the type and the identifier.
abbrev pub SnapshotStore : Type 0 → Type 0
SnapshotStore D = List ((ℕ × ℕ) × Snapshot D)

module _ {D : Type 0} where
  unfoldable pub get_latest_snapshot : ℕ → ℕ → SnapshotStore D → Option (Snapshot D)
  get_latest_snapshot t i [] = none
  get_latest_snapshot t i (((u, j), shot) ∷ store) =
      if (u == t) && (j == i) then some shot else get_latest_snapshot t i store

  put_snapshot : ℕ → ℕ → Snapshot D → SnapshotStore D → SnapshotStore D
  put_snapshot t i new [] = ((t, i), new) ∷ []
  put_snapshot t i new (((u, j), shot) ∷ store) =
      if (u == t) && (j == i)
      then ((u, j), new) ∷ store
      else ((u, j), shot) ∷ put_snapshot t i new store

  unfoldable pub save_snapshot : ℕ → ℕ → D → ℕ → ℕ → SnapshotStore D → SnapshotStore D
  unfolding put_snapshot
  save_snapshot t i d version now =
      put_snapshot t i (record { snapshot_data = d; version = version; created_at = now })

  unfoldable pub delete_snapshot : ℕ → ℕ → SnapshotStore D → SnapshotStore D
  delete_snapshot t i [] = []
  delete_snapshot t i (((u, j), shot) ∷ store) =
      if (u == t) && (j == i) then store else ((u, j), shot) ∷ delete_snapshot t i store

  -- The snapshot that was saved last is the one that is found.
  pub get_latest_snapshot-save_snapshot :
      (t i : ℕ) (d : D) (version now : ℕ) (store : SnapshotStore D)
      → get_latest_snapshot t i (save_snapshot t i d version now store)
        ≡ some (record { snapshot_data = d; version = version; created_at = now })
  unfolding get_latest_snapshot save_snapshot put_snapshot
  get_latest_snapshot-save_snapshot t i d version now [] = ground arith
  get_latest_snapshot-save_snapshot t i d version now (((u, j), shot) ∷ store) =
      ground (arith, get_latest_snapshot-save_snapshot t i d version now store)

-- `EveryNEventsStrategy.should_snapshot`, where `n` is not 0.
unfoldable pub every_n_events : {S : Type 0} → ℕ → Aggregate S → Bool
every_n_events n a = ltb 0 a.version && (a.version % n == 0)

-- `SnapshotStrategyRegistry`; a strategy is its `should_snapshot`.
pub record Strategies (S : Type 0) : Type 0 where
  pub strategies : Dict (Aggregate S → Bool)
  pub default_strategy : Option (Aggregate S → Bool)

module _ {S : Type 0} where
  unfoldable pub register_strategy : ℕ → (Aggregate S → Bool) → Strategies S → Strategies S
  register_strategy t p r = record r { strategies = insert t p r.strategies }

  unfoldable pub set_default : (Aggregate S → Bool) → Strategies S → Strategies S
  set_default p r = record r { default_strategy = some p }

  unfoldable pub get_strategy : ℕ → Strategies S → Option (Aggregate S → Bool)
  get_strategy t r = elim (lookup t r.strategies) [ none ↦ r.default_strategy | some p ↦ some p ]

  unfoldable pub should_snapshot : ℕ → Aggregate S → Strategies S → Bool
  unfolding get_strategy
  should_snapshot t a r = elim (get_strategy t r) [ none ↦ false | some p ↦ p a ]

-- The snapshots of another aggregate stay.
pub get_latest_snapshot-save_snapshot_other :
    {D : Type 0} (t i j : ℕ) (d : D) (version now : ℕ) (store : SnapshotStore D)
    → (i == j) ≡ false
    → get_latest_snapshot t j (save_snapshot t i d version now store)
      ≡ get_latest_snapshot t j store
unfolding get_latest_snapshot save_snapshot put_snapshot
get_latest_snapshot-save_snapshot_other t i j d version now [] h = ground arith
get_latest_snapshot-save_snapshot_other t i j d version now (((u, k), shot) ∷ store) h =
    ground (arith, get_latest_snapshot-save_snapshot_other t i j d version now store)

-- `clear` of the snapshots and of the registry.
abbrev pub clear_snapshots : {D : Type 0} → SnapshotStore D → SnapshotStore D
clear_snapshots store = []

abbrev pub clear_strategies : {S : Type 0} → Strategies S → Strategies S
clear_strategies r = record { strategies = []; default_strategy = none }
