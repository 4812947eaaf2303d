-- ===== src/EventStore.antt =====
-- `InMemoryEventStore` of packages/core/src/cqrs_ddd_core/adapters/memory/event_store.py. The store
-- is its list of events; a specification is the test that `is_satisfied_by` makes.
pub mod Streaming
pub mod Batches
pub mod Cursor
mod Examples
use Prim.Native.Nat.{max, zero}
use cqrs_ddd.Common.{
  ℕ, Bool, List, Option, none, filter, some, suc, true, ◌++◌, ◌∷◌, [], length, ltb, ◌+◌, ◌==◌,
  if◌then◌else◌, ◌&&◌, ◌-◌, leb,
}

-- `StoredEvent` of ports/event_store.py, with its payload and metadata as one opaque value.
pub record StoredEvent : Type 0 where
  pub event_id : ℕ
  pub event_type : ℕ
  pub aggregate_id : ℕ
  pub aggregate_type : ℕ
  pub version : ℕ
  pub schema_version : ℕ
  pub payload : ℕ
  pub metadata : ℕ
  pub occurred_at : ℕ
  pub correlation_id : Option ℕ
  pub causation_id : Option ℕ
  pub position : Option ℕ
  pub tenant_id : Option ℕ

abbrev pub Spec : Type 0
Spec = Option (StoredEvent → Bool)

abbrev pub satisfies : Spec → StoredEvent → Bool
satisfies none e = true
satisfies (some p) e = p e

-- `dataclasses.replace(e, position=...)`: a position that is there stays.
abbrev pub at_position : ℕ → StoredEvent → StoredEvent
at_position n e = record e { position = elim e.position [ none ↦ some n | some p ↦ some p ] }

-- `_append_internal`
unfoldable pub append : StoredEvent → List StoredEvent → List StoredEvent
append e es = es ++ at_position (length es) e ∷ []

-- The loop of `_append_batch_internal`: the i-th event goes to `start + i`.
abbrev pub place_from : ℕ → List StoredEvent → List StoredEvent
place_from n [] = []
place_from n (e ∷ es) = at_position n e ∷ place_from (n + 1) es

unfoldable pub append_batch : List StoredEvent → List StoredEvent → List StoredEvent
append_batch new es = es ++ place_from (length es) new

-- `p > position`, where `none` stands for -1.
abbrev pub is_after : Option ℕ → ℕ → Bool
is_after none p = true
is_after (some q) p = ltb q p

-- The position of the event at an index.
abbrev pub position_at : ℕ → StoredEvent → ℕ
position_at i e = elim e.position [ none ↦ i | some p ↦ p ]

-- The loop of `get_events_after` from index `i` on, when `taken` events were returned: an event is
-- appended before the limit is looked at.
after_from : ℕ → ℕ → ℕ → Option ℕ → Spec → List StoredEvent → List StoredEvent
after_from i taken limit pos spec [] = []
after_from i taken limit pos spec (e ∷ es) =
    let stop = after_from (i + 1) (taken + 1) limit pos spec es in
    let skip = after_from (i + 1) taken limit pos spec es in
    if is_after pos (position_at i e) && satisfies spec e
    then e ∷ (if leb limit (taken + 1) then [] else stop)
    else skip

unfoldable pub get_events_after : Option ℕ → ℕ → Spec → List StoredEvent → List StoredEvent
unfolding after_from
get_events_after pos limit spec es = after_from 0 0 limit pos spec es

-- The position that the next round starts from: that of the last event of the batch.
abbrev pub last? {ℓ} : {A : Type ℓ} → List A → Option A
last? [] = none
last? (x ∷ []) = some x
last? (x ∷ y ∷ xs) = last? (y ∷ xs)

abbrev pub moved_by : Option ℕ → ℕ → Option ℕ
moved_by none zero = none
moved_by none (suc n) = some n
moved_by (some q) n = some (q + n)

abbrev pub next_position : Option ℕ → List StoredEvent → Option ℕ
next_position pos batch = elim (last? batch) [
  | none ↦ pos
  | some e ↦ elim e.position [ none ↦ moved_by pos (length batch) | some p ↦ some p ]
]

-- A round of the loop: an empty batch ends it, else the batch is yielded before the rest.
abbrev pub yield_batch :
    List StoredEvent → Option (List (List StoredEvent)) → Option (List (List StoredEvent))
yield_batch [] rest = some []
yield_batch (x ∷ xs) none = none
yield_batch (x ∷ xs) (some bs) = some ((x ∷ xs) ∷ bs)

-- The loop of `get_all_streaming`: the batches that it yields. `none` says that the fuel ran out.
unfoldable pub stream :
    ℕ → ℕ → Option ℕ → Spec → List StoredEvent → Option (List (List StoredEvent))
stream zero size pos spec es = none
stream (suc fuel) size pos spec es =
    let batch = get_events_after pos size spec es in
    yield_batch batch (stream fuel size (next_position pos batch) spec es)

-- With more fuel than there are events.
unfoldable pub get_all_streaming : ℕ → Spec → List StoredEvent → Option (List (List StoredEvent))
unfolding stream
get_all_streaming size spec es = stream (suc (length es)) size none spec es

-- `get_latest_position`
abbrev pub positions : List StoredEvent → List ℕ
positions [] = []
positions (e ∷ es) = elim e.position [ none ↦ positions es | some p ↦ p ∷ positions es ]

abbrev pub maximum : ℕ → List ℕ → ℕ
maximum m [] = m
maximum m (n ∷ ns) = maximum (max m n) ns

unfoldable pub get_latest_position : Spec → List StoredEvent → Option ℕ
get_latest_position spec es = elim (filter (satisfies spec) es) [
  | [] ↦ none
  | f ∷ fs ↦ elim (positions (f ∷ fs)) [ [] ↦ some (length es - 1) | p ∷ ps ↦ some (maximum p ps) ]
]

unfoldable pub get_events : ℕ → ℕ → Spec → List StoredEvent → List StoredEvent
get_events aggregate after spec es =
    filter (satisfies spec) (filter (λ e. (e.aggregate_id == aggregate) && ltb after e.version) es)

unfoldable pub get_by_aggregate : ℕ → Option ℕ → Spec → List StoredEvent → List StoredEvent
get_by_aggregate aggregate none spec es =
    filter (satisfies spec) (filter (λ e. e.aggregate_id == aggregate) es)
get_by_aggregate aggregate (some type) spec es =
    filter (satisfies spec)
      (filter (λ e. e.aggregate_type == type) (filter (λ e. e.aggregate_id == aggregate) es))

unfoldable pub get_all : Spec → List StoredEvent → List StoredEvent
get_all spec es = filter (satisfies spec) es

-- What `get_events_from_position` yields for a batch: the batch alone when it is shorter than was
-- asked for, else the rest after it.
abbrev pub continue_read :
    ℕ → List StoredEvent → Option (List StoredEvent) → Option (List StoredEvent)
continue_read size batch none = if ltb (length batch) size then some batch else none
continue_read size batch (some rest) =
    if ltb (length batch) size then some batch else some (batch ++ rest)

-- The loop of `get_events_from_position`, for a batch size of at least one: the events that it
-- yields. `none` says that the fuel ran out.
unfoldable pub read_on : ℕ → ℕ → Option ℕ → Spec → List StoredEvent → Option (List StoredEvent)
read_on zero size pos spec es = none
read_on (suc fuel) size pos spec es =
    let batch = get_events_after pos size spec es in
    continue_read size batch (read_on fuel size (next_position pos batch) spec es)

-- With more fuel than there are events. The default limit is 1000.
unfoldable pub get_events_from_position :
    Option ℕ → Option ℕ → Spec → List StoredEvent → Option (List StoredEvent)
unfolding read_on
get_events_from_position pos limit spec es =
    read_on (suc (length es)) (elim limit [ none ↦ 1000 | some n ↦ n ]) pos spec es

-- The test helper `clear`.
abbrev pub clear : List StoredEvent → List StoredEvent
clear es = []
