-- ===== src/EventSourcing/Repository/Reads.antt =====
-- Which of the events that `persist` of event_sourcing/repository.py stores a later load reads, in
-- packages/advanced/src/cqrs_ddd_advanced_core.
use cqrs_ddd.Common.{
  ℕ, refl, List, Option, All, ◌+◌, ◌++◌, ◌≡◌, false, ◌==◌, ◌∷◌, some, true, ==_refl, arith, suc,
  ltb, none, ◌-◌, ap, ◌∙◌, length, drop, Bool-cases, inl, inr, ◌≤◌,
}
use cqrs_ddd.EventStore.{
  StoredEvent, Spec, get_events, place_from, satisfies, append_batch, at_position,
}
use cqrs_ddd.EventSourcing.{Class, replay_found, load}
use cqrs_ddd.EventSourcing.Snapshots.{Aggregate, SnapshotStore, Strategies}
use cqrs_ddd.EventSourcing.Repository.{DomainEvent, stored_from, stored_event, persist}
use cqrs_ddd.EventSourcing.Repository.Persisted.{load_other, placed_other}
use cqrs_ddd.EventSourcing.Transparency.{get_events-append}
use cqrs_ddd.EventSourcing.Transparency.Loads.{load_created}
use cqrs_ddd.Upcasting.{Registry}
use mathlib.Core.List.{[]}
use Prim.Native.Nat.{zero}

read_all :
    (t now v n i p j : ℕ) (spec : Spec) (es : List DomainEvent)
    → n ≤ v + i
    → All (λ e. e.aggregate_id ≡ j) es
    → All (λ e. satisfies spec e ≡ true) (place_from p (stored_from t now v n i es))
    → get_events j 0 spec (place_from p (stored_from t now v n i es))
      ≡ place_from p (stored_from t now v n i es)
unfolding get_events
read_all t now v n i p j spec [] h own accepted = refl
read_all t now v n i p j spec (e ∷ es) h own accepted =
    let mine : (e.aggregate_id == j) ≡ true = rw own.0 (==_refl j) in
    let later : ltb 0 ((v + suc i) - n) ≡ true = ground arith in
    rw (mine, later, accepted.0)
      (ap (λ xs. at_position p (stored_event t now v n i e) ∷ xs)
        (read_all t now v n (suc i) (p + 1) j spec es (omega arith) own.1 accepted.1))

-- A read skips the events whose versions, counted back from that of the entity, are not positive.
read_rest :
    (t now v n i p j skip : ℕ) (spec : Spec) (es : List DomainEvent)
    → skip + (v + i) ≡ n
    → All (λ e. e.aggregate_id ≡ j) es
    → All (λ e. satisfies spec e ≡ true) (place_from p (stored_from t now v n i es))
    → get_events j 0 spec (place_from p (stored_from t now v n i es))
      ≡ drop skip (place_from p (stored_from t now v n i es))
unfolding get_events
read_rest t now v n i p j zero spec es h own accepted =
    read_all t now v n i p j spec es (omega arith) own accepted
read_rest t now v n i p j (suc skip) spec [] h own accepted = refl
read_rest t now v n i p j (suc skip) spec (e ∷ es) h own accepted =
    let mine : (e.aggregate_id == j) ≡ true = rw own.0 (==_refl j) in
    let unread : ltb 0 ((v + suc i) - n) ≡ false = ground arith in
    rw (mine, unread)
      (read_rest t now v n (suc i) (p + 1) j skip spec es (omega arith) own.1 accepted.1)

module _ {S D E X : Type 0} (c : Class S D E X) (upcasters : Option (Registry ℕ))
    (spec : Spec) where
  -- The events as `persist` stores them.
  abbrev pub stored_of :
      (now : ℕ) → Aggregate S → List DomainEvent → List StoredEvent → List StoredEvent
  stored_of now b events store =
      place_from (length store) (stored_from c.type_name now b.version (length events) 0 events)

  persisted_read :
      (now i : ℕ) (b : Aggregate S) (events : List DomainEvent) (store : List StoredEvent)
      → All (λ e. e.aggregate_id ≡ i) events
      → All (λ e. satisfies spec e ≡ true) (stored_of now b events store)
      → get_events i 0 spec (stored_of now b events store)
        ≡ drop (length events - b.version) (stored_of now b events store)
  persisted_read now i b events store own accepted =
      let n = length events in
      let p = length store in
      elim (Bool-cases (ltb b.version n)) [
        | inl short ↦
            read_rest c.type_name now b.version n 0 p i (n - b.version) spec events (ground arith)
              own accepted
        | inr enough ↦
            let none_lost : n - b.version ≡ 0 = ground arith in
            rw none_lost
              (read_all c.type_name now b.version n 0 p i spec events (ground arith) own accepted)
      ]

  -- Of the `n` events of an entity with version `v` that `persist` stores, a load of the aggregate
  -- without snapshots replays, behind the events that it had, those from the place `n - v` on: all of
  -- them if the version is at least `n`, none of them if it is 0. All other aggregates load as before.
  -- The store is read with a specification that
  -- the new events satisfy, and the class can create the aggregate.
  pub load_after_persist :
      (strategies : Option (Strategies S)) (now i : ℕ) (snapshots : Option (SnapshotStore D))
      (store : List StoredEvent) (events : List DomainEvent) (b : Aggregate S) (s : S)
      → c.create i ≡ some s
      → All (λ e. e.aggregate_id ≡ i) events
      → All (λ e. satisfies spec e ≡ true) (stored_of now b events store)
      → let store' = (persist c strategies now b events snapshots store).1 in
        (load c upcasters none spec store' i
          ≡ replay_found c upcasters 0
              (get_events i 0 spec store
                ++ drop (length events - b.version) (stored_of now b events store))
              (some (record { state = s; version = 0 })))
        × ((j : ℕ)
            → (i == j) ≡ false
            → load c upcasters none spec store' j ≡ load c upcasters none spec store j)
  unfolding persist append_batch
  load_after_persist strategies now i snapshots store events b s made own accepted =
      let new = stored_of now b events store in
      (
        load_created c upcasters spec i (store ++ new) s made
            ∙ ap (λ es. replay_found c upcasters 0 es (some (record { state = s; version = 0 })))
                (get_events-append i 0 spec store new
                  ∙ ap (λ es. get_events i 0 spec store ++ es)
                      (persisted_read now i b events store own accepted)),
        λ j other. load_other c upcasters spec j none store new (λ after.
            placed_other c.type_name now b.version (length events) 0 (length store) i j after spec
              events own other),
      )
