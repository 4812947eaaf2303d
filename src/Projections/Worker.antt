-- ===== src/Projections/Worker.antt =====
-- `ProjectionWorker` of packages/advanced/src/cqrs_ddd_advanced_core/projections/worker.py, over the
-- in-memory event store. What the handlers write and the saved position are one transaction.
pub mod Once
pub mod Opened
pub mod Resumed
use cqrs_ddd.Common.{
  true, false, ℕ, refl, Bool, Option, some, List, if◌then◌else◌, ◌&&◌, ◌∷◌, not, is_some, take,
}
use cqrs_ddd.EventStore.{StoredEvent, Spec, get_latest_position, get_events_from_position}
use cqrs_ddd.Common.Outcome.{Outcome, ok, raise}
use mathlib.Core.Option.{none}
use mathlib.Core.List.{[]}

-- What the worker is made with: the handler of an event type, if there is one, as what it makes of
-- the projected data.
pub record Worker {ℓ} (V : Type ℓ) : Type ℓ where
  pub handler_map : ℕ → Option (StoredEvent → V → V)
  pub catch_up : Bool
  pub specification : Spec

-- What is committed: the projected data, and the position of the projection.
pub record Projected {ℓ} (V : Type ℓ) : Type ℓ where
  pub view : V
  pub position : Option ℕ

-- The transaction of an event, which its handler or the commit breaks off.
pub data Broken : Type 0 where
  broken_off : (event : StoredEvent) → Broken

abbrev pub or_zero : Option ℕ → ℕ
or_zero none = 0
or_zero (some p) = p

-- A run, when the first `stored` events of a store are there.
pub record Attempt : Type 0 where
  pub stored : ℕ
  pub raises : StoredEvent → Bool

module _ {ℓ} {V : Type ℓ} (w : Worker V) where
  abbrev pub apply_handler : Option (StoredEvent → V → V) → StoredEvent → V → V
  apply_handler none e v = v
  apply_handler (some handle) e v = handle e v

  abbrev pub handle_event : StoredEvent → V → V
  handle_event e v = apply_handler (w.handler_map e.event_type) e v

  abbrev pub saved_after : StoredEvent → ℕ → Projected V → Projected V
  saved_after e p s = record { view = handle_event e s.view; position = some p }

  -- `raises` says which transactions are broken off in this run: these leave what was committed.
  abbrev pub project_one :
      (raises : StoredEvent → Bool) (position : Option ℕ)
      → StoredEvent
      → Projected V
      → Outcome Broken (Projected V)
  project_one raises none e s = ok s
  project_one raises (some p) e s =
      if raises e then raise (broken_off e) else ok (saved_after e p s)

  abbrev pub go_on :
      (Projected V → Outcome Broken (Unit {0}) × Projected V)
      → Projected V
      → Outcome Broken (Projected V)
      → Outcome Broken (Unit {0}) × Projected V
  go_on rest s (ok t) = rest t
  go_on rest s (raise e) = (raise e, s)

  -- The loop of `run`.
  abbrev pub project_all :
      (raises : StoredEvent → Bool)
      → List StoredEvent
      → Projected V
      → Outcome Broken (Unit {0}) × Projected V
  project_all raises [] s = (ok tt, s)
  project_all raises (e ∷ es) s =
      go_on (project_all raises es) s (project_one raises e.position e s)

  abbrev pub start_at : Bool → (latest : Option ℕ) → Projected V → ℕ × Projected V
  start_at true none s = (0, s)
  start_at true (some l) s = (l, record s { position = some l })
  start_at false latest s = (or_zero s.position, s)

  abbrev pub project_from :
      (raises : StoredEvent → Bool)
      → Option (List StoredEvent)
      → Projected V
      → Option (Outcome Broken (Unit {0}) × Projected V)
  project_from raises none s = none
  project_from raises (some events) s = some (project_all raises events s)

  -- `none` says that the fuel of the reading ran out.
  unfoldable pub run :
      (raises : StoredEvent → Bool)
      → List StoredEvent
      → Projected V
      → Option (Outcome Broken (Unit {0}) × Projected V)
  run raises store s =
      let (start, t) =
        start_at (w.catch_up && not (is_some s.position))
          (get_latest_position w.specification store) s in
      project_from raises (get_events_from_position (some start) none w.specification store) t

  abbrev pub and_then :
      (Projected V → Option (Projected V))
      → Option (Outcome Broken (Unit {0}) × Projected V)
      → Option (Projected V)
  and_then next none = none
  and_then next (some (o, t)) = next t

  -- Runs one after the other on a growing store, from what the run before committed, whether it
  -- returned or raised.
  unfoldable pub run_all :
      List Attempt → (store : List StoredEvent) → Projected V → Option (Projected V)
  run_all [] store s = some s
  run_all (a ∷ later) store s =
      and_then (run_all later store) (run a.raises (take a.stored store) s)
