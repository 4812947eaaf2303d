-- ===== src/EventSourcing/Transparency/Loads.antt =====
-- What `load` returns with a snapshot and without one.
use cqrs_ddd.Common.{
  ℕ, List, Option, refl, ◌≡◌, [], ◌∷◌, ◌++◌, none, some, false, is_empty, arith, filter, Bool-cases,
  Option-cases, zero, suc, sym, ap, ◌∙◌, inl, inr, append-nil,
}
use cqrs_ddd.Common.Outcome.{Outcome, ok, raise, ◌>>=◌}
use cqrs_ddd.EventStore.{StoredEvent, Spec, get_events}
use cqrs_ddd.Upcasting.{Registry}
use cqrs_ddd.EventSourcing.{Class, load, maybe_snapshot, replay, start, replay_found}
use cqrs_ddd.EventSourcing.Snapshots.{
  Aggregate, SnapshotStore, Strategies, get_latest_snapshot, save_snapshot, should_snapshot,
  get_latest_snapshot-save_snapshot,
}
use cqrs_ddd.EventSourcing.Transparency.{
  Ascends, newer_than, get_events-append, get_events_after_version, replay-append, replay-Resumes,
}

-- What `model_dump` writes is not empty, and `model_validate` reads it back.
pub record Dumps {S D E X : Type 0} (c : Class S D E X) : Type 0 where
  pub reads_back : (s : S) → c.model_validate (c.model_dump s) ≡ ok s
  pub not_blank : (s : S) → c.is_blank (c.model_dump s) ≡ false

module _ {S D E X : Type 0} (c : Class S D E X) (upcasters : Option (Registry ℕ)) (spec : Spec)
    (i : ℕ) where
  abbrev pub fresh : S → Aggregate S
  fresh s = record { state = s; version = 0 }

  abbrev pub some_result : Outcome X (Aggregate S) → Outcome X (Option (Aggregate S))
  some_result r = r >>= λ b. ok (some b)

  some_result_inj :
      (r : Outcome X (Aggregate S)) (a : Aggregate S) → some_result r ≡ ok (some a) → r ≡ ok a
  some_result_inj (ok b) a h = ground arith
  some_result_inj (raise e) a h = cc

  -- What a load without a snapshot has found.
  Found : List StoredEvent → Aggregate S → Type 0
  Found xs a =
      (s : S) × (c.create i ≡ some s)
      × (is_empty xs ≡ false)
      × (replay c upcasters xs (fresh s) ≡ ok a)

  Found-events :
      (xs : List StoredEvent) (a : Aggregate S) (s : S)
      → c.create i ≡ some s
      → replay_found c upcasters 0 xs (some (fresh s)) ≡ ok (some a)
      → Found xs a
  unfolding replay_found Found
  Found-events [] a s h k = cc
  Found-events (x ∷ xs) a s h k = (s, h, refl, some_result_inj _ a k)

  pub load_created :
      (es : List StoredEvent) (s : S)
      → c.create i ≡ some s
      → load c upcasters none spec es i
        ≡ replay_found c upcasters 0 (get_events i 0 spec es) (some (fresh s))
  unfolding load start
  load_created es s h = rw h

  load_missed :
      (es : List StoredEvent) → c.create i ≡ none → load c upcasters none spec es i ≡ ok none
  unfolding load start replay_found
  load_missed es h = rw h

  found :
      (es : List StoredEvent) (a : Aggregate S)
      → load c upcasters none spec es i ≡ ok (some a)
      → Found (get_events i 0 spec es) a
  found es a k = elim (Option-cases (c.create i)) [
    | inl missed ↦ cc (load_missed es missed)
    | inr (s, made) ↦
        Found-events (get_events i 0 spec es) a s made (sym (load_created es s made) ∙ k)
  ]

  -- Whether some of the events of an aggregate were there before.
  some_events :
      (after : ℕ) (xs ys : List StoredEvent) (a : Aggregate S)
      → is_empty xs ≡ false
      → replay_found c upcasters after (xs ++ ys) (some a)
        ≡ some_result (replay c upcasters (xs ++ ys) a)
  unfolding replay_found
  some_events after [] ys a h = cc
  some_events after (x ∷ xs) ys a h = refl

  later_events :
      (n : ℕ) (es : List StoredEvent) (a : Aggregate S)
      → replay_found c upcasters (suc n) es (some a) ≡ some_result (replay c upcasters es a)
  unfolding replay_found
  later_events n [] a = ground arith
  later_events n (e ∷ es) a = refl

  newer_events :
      (after : ℕ) (xs ys : List StoredEvent) (a : Aggregate S)
      → is_empty xs ≡ false
      → Ascends 0 (xs ++ ys)
      → replay_found c upcasters after (filter (newer_than after) (xs ++ ys)) (some a)
        ≡ some_result (replay c upcasters (filter (newer_than after) (xs ++ ys)) a)
  unfolding replay_found
  newer_events after [] ys a h l = cc
  newer_events zero (x ∷ xs) ys a h l = ground (arith, l.0)
  newer_events (suc n) (x ∷ xs) ys a h l =
      later_events n (filter (newer_than (suc n)) ((x ∷ xs) ++ ys)) a

  load_more :
      (es more : List StoredEvent) (a : Aggregate S)
      → Found (get_events i 0 spec es) a
      → load c upcasters none spec (es ++ more) i
        ≡ some_result (replay c upcasters (get_events i 0 spec more) a)
  unfolding Found
  load_more es more a (s, made, some_there, k) =
      load_created (es ++ more) s made
      ∙ ap (λ l. replay_found c upcasters 0 l (some (fresh s))) (get_events-append i 0 spec es more)
      ∙ some_events 0 (get_events i 0 spec es) (get_events i 0 spec more) (fresh s) some_there
      ∙ ap some_result (
          replay-append c upcasters (get_events i 0 spec es) (get_events i 0 spec more) (fresh s)
          ∙ ap (λ r. r >>= replay c upcasters (get_events i 0 spec more)) k)

  load_shot :
      (laws : Dumps c) (es more : List StoredEvent) (a : Aggregate S) (store : SnapshotStore D)
      (now : ℕ)
      → Ascends 0 (get_events i 0 spec (es ++ more))
      → Found (get_events i 0 spec es) a
      → get_latest_snapshot c.type_name i store
        ≡ some
            (record { snapshot_data = c.model_dump a.state; version = a.version; created_at = now })
      → load c upcasters (some store) spec (es ++ more) i
        ≡ some_result (replay c upcasters (get_events i 0 spec more) a)
  unfolding Found load start
  load_shot laws es more a store now l (s, made, some_there, k) shot =
      rw
        (
          shot,
          laws.not_blank a.state,
          laws.reads_back a.state,
          get_events_after_version i a.version spec (es ++ more),
          get_events-append i 0 spec es more,
        )
        (newer_events a.version (get_events i 0 spec es) (get_events i 0 spec more) a some_there
            (rw (← get_events-append i 0 spec es more) l)
          ∙ ap some_result
              (replay-Resumes c upcasters (get_events i 0 spec es) (get_events i 0 spec more)
                (fresh s) a (rw (← get_events-append i 0 spec es more) l) k).1)

  -- Whatever is stored later, with versions that ascend, a load with the snapshots returns what a
  -- load without them returns.
  abbrev pub IsTransparent : SnapshotStore D → List StoredEvent → Type 0
  IsTransparent store es =
      (more : List StoredEvent)
      → Ascends 0 (get_events i 0 spec (es ++ more))
      → load c upcasters (some store) spec (es ++ more) i
        ≡ load c upcasters none spec (es ++ more) i

  saved-IsTransparent :
      (laws : Dumps c) (now : ℕ) (store : SnapshotStore D) (es : List StoredEvent) (a : Aggregate S)
      → Found (get_events i 0 spec es) a
      → IsTransparent (save_snapshot c.type_name i (c.model_dump a.state) a.version now store) es
  saved-IsTransparent laws now store es a f more l =
      load_shot laws es more a _ now l f
        (get_latest_snapshot-save_snapshot c.type_name i (c.model_dump a.state) a.version now store)
      ∙ sym (load_more es more a f)

  -- Snapshots that change no result of `load` still change none after `maybe_snapshot` of the
  -- aggregate that is loaded, whatever the strategy says, and whatever events of ascending
  -- versions are appended afterwards; where `model_validate` reads back what `model_dump` writes.
  pub maybe_snapshot-IsTransparent :
      (laws : Dumps c) (strategies : Option (Strategies S)) (now : ℕ) (store : SnapshotStore D)
      (es : List StoredEvent) (a : Aggregate S)
      → c.ident a.state ≡ some i
      → Ascends 0 (get_events i 0 spec es)
      → load c upcasters (some store) spec es i ≡ ok (some a)
      → IsTransparent store es
      → IsTransparent (maybe_snapshot c strategies now a store) es
  unfolding maybe_snapshot
  maybe_snapshot-IsTransparent laws none now store es a named l k t = t
  maybe_snapshot-IsTransparent laws (some r) now store es a named l k t =
      let bare : load c upcasters none spec es i ≡ ok (some a) =
        (let same : Ascends 0 (get_events i 0 spec es)
              → load c upcasters (some store) spec es i ≡ load c upcasters none spec es i =
            rw (append-nil es) at (t []) in
          sym (same l) ∙ k) in
      elim (Bool-cases (should_snapshot c.type_name a r)) [
        | inl due ↦ rw (due, named) (saved-IsTransparent laws now store es a (found es a bare))
        | inr early ↦ rw early t
      ]
