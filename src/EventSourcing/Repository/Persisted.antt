-- ===== src/EventSourcing/Repository/Persisted.antt =====
-- What is persisted plays no part for another aggregate: `persist` of event_sourcing/repository.py and `load` of
-- event_sourcing/loader.py, in packages/advanced/src/cqrs_ddd_advanced_core.
use cqrs_ddd.Common.{
  ℕ, refl, List, Option, All, ◌+◌, ◌++◌, ◌≡◌, false, ◌==◌, ◌∷◌, suc, ap, ◌∙◌, append-nil,
}
use cqrs_ddd.EventStore.{StoredEvent, Spec, get_events, place_from}
use cqrs_ddd.EventSourcing.{Class, replay_found, load, latest, after_version, start}
use cqrs_ddd.EventSourcing.Snapshots.{SnapshotStore}
use cqrs_ddd.EventSourcing.Repository.{DomainEvent, stored_from}
use cqrs_ddd.Upcasting.{Registry}
use cqrs_ddd.EventSourcing.Transparency.{get_events-append}
use mathlib.Core.List.{[]}
use cqrs_ddd.Common.Outcome.{◌>>=◌}

-- A read of another aggregate returns none of the events.
pub placed_other :
    (t now v n i p j k after : ℕ) (spec : Spec) (es : List DomainEvent)
    → All (λ e. e.aggregate_id ≡ j) es
    → (j == k) ≡ false
    → get_events k after spec (place_from p (stored_from t now v n i es)) ≡ []
unfolding get_events
placed_other t now v n i p j k after spec [] all h = refl
placed_other t now v n i p j k after spec (e ∷ es) all h =
    let other : (e.aggregate_id == k) ≡ false = rw all.0 h in
    rw other (placed_other t now v n (suc i) (p + 1) j k after spec es all.1 h)

module _ {S D E X : Type 0} (c : Class S D E X) (upcasters : Option (Registry ℕ)) where
  -- A load of another aggregate sees nothing of these events.
  pub load_other :
      (spec : Spec) (j : ℕ) (snapshots : Option (SnapshotStore D)) (store new : List StoredEvent)
      → ((after : ℕ) → get_events j after spec new ≡ [])
      → load c upcasters snapshots spec (store ++ new) j ≡ load c upcasters snapshots spec store j
  unfolding load
  load_other spec j snapshots store new nothing =
      let shot = latest c upcasters snapshots j in
      let after = after_version c upcasters shot in
      ap (λ es. start c upcasters j shot >>= replay_found c upcasters after es)
        (get_events-append j after spec store new
          ∙ ap (λ ys. get_events j after spec store ++ ys) (nothing after)
          ∙ append-nil (get_events j after spec store))
