-- ===== src/Outbox.antt =====
-- The transactional outbox of packages/core/src/cqrs_ddd_core: `OutboxMessage` of ports/outbox.py
-- and `InMemoryOutboxStorage` of adapters/memory/outbox.py, whose state is its list of messages.
pub mod Service
mod Examples
use cqrs_ddd.Common.{
  ℕ, Bool, List, Option, refl, [], ◌∷◌, ◌++◌, none, some, true, false, ◌==◌, if◌then◌else◌, map,
  filter, take, leb, contains, ◌+◌, not, is_some,
}
use cqrs_ddd.Common.Sort.{sort_by}

-- `metadata_correlation` is what stands in the metadata under `correlation_id`; it and the field of
-- that name are `none` if they are missing or empty. The rest of the metadata, `causation_id` and
-- `tenant_id` are one value that nothing here reads.
pub record OutboxMessage : Type 0 where
  pub message_id : ℕ
  pub event_type : ℕ
  pub payload : ℕ
  pub metadata_correlation : Option ℕ
  pub created_at : ℕ
  pub published_at : Option ℕ
  pub error : Option ℕ
  pub retry_count : ℕ
  pub correlation_id : Option ℕ
  pub others : ℕ

-- A specification is the test that `is_satisfied_by` makes.
abbrev pub fits : Option (OutboxMessage → Bool) → OutboxMessage → Bool
fits none m = true
fits (some p) m = p m

abbrev pub is_pending : OutboxMessage → Bool
is_pending m = not (is_some m.published_at)

abbrev pub created_before : OutboxMessage → OutboxMessage → Bool
created_before a b = leb a.created_at b.created_at

unfoldable pub save_messages : List OutboxMessage → List OutboxMessage → List OutboxMessage
save_messages new ms = ms ++ new

unfoldable pub get_pending :
    ℕ → Option (OutboxMessage → Bool) → List OutboxMessage → List OutboxMessage
get_pending limit spec ms =
    take limit (sort_by created_before (filter (fits spec) (filter is_pending ms)))

-- A round of the loop of `mark_published`.
abbrev pub publish_at : ℕ → List ℕ → OutboxMessage → OutboxMessage
publish_at now ids m = if contains ids m.message_id then record m { published_at = some now } else m

unfoldable pub mark_published : ℕ → List ℕ → List OutboxMessage → List OutboxMessage
mark_published now ids ms = map (publish_at now ids) ms

-- The first message of that identifier; there the loop breaks.
unfoldable pub mark_failed : ℕ → ℕ → List OutboxMessage → List OutboxMessage
mark_failed i error [] = []
mark_failed i error (m ∷ ms) =
    if m.message_id == i
    then record m { error = some error; retry_count = m.retry_count + 1 } ∷ ms
    else m ∷ mark_failed i error ms

-- The test helper `clear`.
abbrev pub clear : List OutboxMessage → List OutboxMessage
clear ms = []
