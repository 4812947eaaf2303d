-- ===== src/EventSourcing/Transparency.antt =====
-- Snapshots and the result of `load`: `EventSourcedLoader` of event_sourcing/loader.py.
pub mod Loads
pub mod Every
use cqrs_ddd.Common.{
  ℕ, Bool, List, Option, refl, ◌≡◌, [], ◌∷◌, ◌++◌, none, some, false, ltb, arith, ◌<◌, ◌≤◌, filter,
  Bool-cases, ap, inl, inr,
}
use cqrs_ddd.Common.Outcome.{Outcome, ok, raise, ◌>>=◌, both_returned}
use cqrs_ddd.EventStore.{StoredEvent, Spec, get_events}
use cqrs_ddd.Upcasting.{Registry}
use cqrs_ddd.EventSourcing.{Class, replay, apply_stored, apply_hydrated, upcast_stored}
use cqrs_ddd.EventSourcing.Snapshots.{Aggregate}

-- The versions ascend from above a number.
abbrev pub Ascends : ℕ → List StoredEvent → Type 0
Ascends v [] = Unit {0}
Ascends v (e ∷ es) = (v < e.version) × Ascends e.version es

pub Ascends-le : (v w : ℕ) (es : List StoredEvent) → v ≤ w → Ascends w es → Ascends v es
Ascends-le v w [] l h = tt
Ascends-le v w (e ∷ es) l h = (omega arith, h.1)

abbrev pub newer_than : ℕ → StoredEvent → Bool
newer_than v e = ltb v e.version

newer_than-Ascends :
    (v w : ℕ) (es : List StoredEvent) → v ≤ w → Ascends w es → filter (newer_than v) es ≡ es
newer_than-Ascends v w [] l h = refl
newer_than-Ascends v w (e ∷ es) l h = ground (arith, newer_than-Ascends v e.version es)

pub get_events-append :
    (i v : ℕ) (spec : Spec) (es fs : List StoredEvent)
    → get_events i v spec (es ++ fs) ≡ get_events i v spec es ++ get_events i v spec fs
unfolding get_events
get_events-append i v spec [] fs = refl
get_events-append i v spec (e ∷ es) fs = ground (arith, get_events-append i v spec es fs)

pub get_events_after_version :
    (i v : ℕ) (spec : Spec) (es : List StoredEvent)
    → get_events i v spec es ≡ filter (newer_than v) (get_events i 0 spec es)
unfolding get_events
get_events_after_version i v spec [] = refl
get_events_after_version i v spec (e ∷ es) = ground (arith, get_events_after_version i v spec es)

module _ {S D E X : Type 0} (c : Class S D E X) (upcasters : Option (Registry ℕ)) where
  pub replay-append :
      (xs ys : List StoredEvent) (a : Aggregate S)
      → replay c upcasters (xs ++ ys) a ≡ (replay c upcasters xs a >>= replay c upcasters ys)
  unfolding replay
  replay-append [] ys a = refl
  replay-append (x ∷ xs) ys a =
      elim (apply_stored c upcasters x a)
        as (λ r.
          (r >>= replay c upcasters (xs ++ ys))
          ≡ ((r >>= replay c upcasters xs) >>= replay c upcasters ys)) [
            | ok b ↦ replay-append xs ys b
            | raise e ↦ refl
          ]

  -- An event is skipped whatever the aggregate is, or gives it its version.
  data Applies (e : StoredEvent) (a b : Aggregate S) : Type 0 where
    skips : a ≡ b → ((d : Aggregate S) → apply_stored c upcasters e d ≡ ok d) → Applies e a b
    applies : b.version ≡ e.version → Applies e a b

  versioned :
      (e : StoredEvent) (b : Aggregate S) (r : Outcome X S)
      → (r >>= λ s. ok (record { state = s; version = e.version })) ≡ ok b
      → b.version ≡ e.version
  versioned e b (ok s) h = ground arith
  versioned e b (raise x) h = cc

  hydrated-Applies :
      (e : StoredEvent) (a b : Aggregate S) (r : Outcome X (Option E))
      → c.hydrate e.event_type (upcast_stored c upcasters e).0 ≡ r
      → (r >>= apply_hydrated c upcasters e a) ≡ ok b
      → Applies e a b
  unfolding apply_stored apply_hydrated
  hydrated-Applies e a b (raise x) h k = cc
  hydrated-Applies e a b (ok none) h k = skips (cc) (λ d. rw h)
  hydrated-Applies e a b (ok (some d)) h k = applies (versioned e b (c.apply a d) k)

  apply_stored-Applies :
      (e : StoredEvent) (a b : Aggregate S) → apply_stored c upcasters e a ≡ ok b → Applies e a b
  unfolding apply_stored
  apply_stored-Applies e a b k = hydrated-Applies e a b _ refl k

  -- What an aggregate that was replayed still has to replay, among the events that are newer than
  -- it: those that come after.
  abbrev pub Resumes : (xs ys : List StoredEvent) (a b : Aggregate S) → Type 0
  Resumes xs ys a b =
      (a.version ≤ b.version)
      × (replay c upcasters (filter (newer_than b.version) (xs ++ ys)) b ≡ replay c upcasters ys b)

  Resumes-step :
      (x : StoredEvent) (xs ys : List StoredEvent) (a m b : Aggregate S)
      → a.version < x.version
      → Applies x a m
      → Resumes xs ys m b
      → Resumes (x ∷ xs) ys a b
  unfolding replay
  Resumes-step x xs ys a m b l (applies q) r = (
    omega (arith, r.0, q),
    (let old : ltb b.version x.version ≡ false = ground (arith, r.0, q) in rw old r.1),
  )
  Resumes-step x xs ys a m b l (skips q f) r = elim (Bool-cases (ltb b.version x.version)) [
    | inl new ↦ (rw q r.0, rw (new, f b) r.1)
    | inr old ↦ (rw q r.0, rw old r.1)
  ]

  Ascends-Applies :
      (x : StoredEvent) (es : List StoredEvent) (a m : Aggregate S)
      → Ascends a.version (x ∷ es)
      → Applies x a m
      → Ascends m.version es
  Ascends-Applies x es a m h (applies q) = rw q h.1
  Ascends-Applies x es a m h (skips q f) =
      Ascends-le m.version x.version es (rw (← q) (omega (arith, h.0))) h.1

  pub replay-Resumes :
      (xs ys : List StoredEvent) (a b : Aggregate S)
      → Ascends a.version (xs ++ ys)
      → replay c upcasters xs a ≡ ok b
      → Resumes xs ys a b
  unfolding replay
  replay-Resumes [] ys a b h k =
      let same : a ≡ b = cc in
      (
        rw same (omega arith),
        ap (λ es. replay c upcasters es b)
            (newer_than-Ascends b.version b.version ys (omega arith) (rw (← same) h)),
      )
  replay-Resumes (x ∷ xs) ys a b h k =
      let (m, rest, first) =
        both_returned (replay c upcasters xs) (apply_stored c upcasters x a) k in
      let step = apply_stored-Applies x a m first in
      Resumes-step x xs ys a m b h.0 step
        (replay-Resumes xs ys m b (Ascends-Applies x (xs ++ ys) a m h step) rest)
