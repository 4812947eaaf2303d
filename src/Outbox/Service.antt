-- ===== src/Outbox/Service.antt =====
-- `OutboxService` of packages/core/src/cqrs_ddd_core/cqrs/outbox/service.py over the in-memory
-- storage, with a lock strategy and a publisher.
pub mod Claims
pub mod Locks
pub mod Refusals
pub mod Delivery
pub mod Settled
pub mod Sizes
pub mod Budget
pub mod Race
use cqrs_ddd.Common.{
  ℕ, Bool, List, Option, refl, [], ◌∷◌, ◌++◌, none, some, true, false, if◌then◌else◌, filter,
  length, ltb, ◌&&◌, is_some, is_empty,
}
use cqrs_ddd.Common.Outcome.{Outcome, ok, raise, ◌>>=◌}
use cqrs_ddd.Locking.{LockStrategy, ResourceIdentifier, Fault, lock_error, other_error, write}
use cqrs_ddd.Outbox.{OutboxMessage, get_pending, mark_published, mark_failed}

-- What `publish` is called with.
pub record Envelope : Type 0 where
  pub topic : ℕ
  pub message : ℕ
  pub correlation_id : Option ℕ

abbrev pub envelope : OutboxMessage → Envelope
envelope m = record {
  topic = m.event_type;
  message = m.payload;
  correlation_id = elim m.metadata_correlation [ some c ↦ some c | none ↦ m.correlation_id ];
}

-- The error of the exception that `publish` raises, if it raises one, after the envelopes that were
-- published before.
abbrev pub Publisher : Type 0
Publisher = Envelope → List Envelope → Option ℕ

-- The storage, the locks and what was published.
pub record World (L : Type 0) : Type 0 where
  pub messages : List OutboxMessage
  pub locks : L
  pub log : List Envelope

abbrev pub Claim : Type 0
Claim = OutboxMessage × ℕ

-- `ResourceIdentifier("OutboxMessage", msg.message_id)`: that type of resource is 0.
abbrev pub resource_of : OutboxMessage → ResourceIdentifier
resource_of m = record { resource_type = 0; resource_id = m.message_id; lock_mode = write }

abbrev pub is_retryable : ℕ → OutboxMessage → Bool
is_retryable max_retries m = is_some m.error && ltb m.retry_count max_retries

module _ {L : Type 0} (strategy : LockStrategy L) where
  -- What follows a call of `acquire`: a `ConcurrencyError` skips the message, another error ends
  -- the loop.
  abbrev pub claim_next :
      OutboxMessage
      → (L → Outcome ℕ (List Claim) × L)
      → Outcome Fault ℕ × L
      → Outcome ℕ (List Claim) × L
  claim_next m rest (ok token, l) = let (r, l') = rest l in ((r >>= λ cs. ok ((m, token) ∷ cs)), l')
  claim_next m rest (raise (lock_error e), l) = rest l
  claim_next m rest (raise (other_error e), l) = (raise e, l)

  -- Phase 1
  unfoldable pub claim_each : List OutboxMessage → L → Outcome ℕ (List Claim) × L
  claim_each [] l = (ok [], l)
  claim_each (m ∷ ms) l = claim_next m (claim_each ms) (strategy.acquire (resource_of m) l)

  -- The `finally` block, where an error of `release` is logged.
  unfoldable pub release_claims : List Claim → L → L
  release_claims [] l = l
  release_claims ((m, token) ∷ cs) l =
      release_claims cs (strategy.release (resource_of m) token l).1

module _ {L : Type 0} (publisher : Publisher) where
  -- What follows a call of `publish`.
  unfoldable pub publish_next :
      OutboxMessage → (World L → List ℕ × World L) → Option ℕ → World L → List ℕ × World L
  unfolding mark_failed
  publish_next m rest none w =
      let (ids, w') = rest (record w { log = w.log ++ envelope m ∷ [] }) in (m.message_id ∷ ids, w')
  publish_next m rest (some e) w =
      rest (record w { messages = mark_failed m.message_id e w.messages })

  -- Phase 2: the identifiers of the messages that were published.
  unfoldable pub publish_each : List Claim → World L → List ℕ × World L
  unfolding publish_next
  publish_each [] w = ([], w)
  publish_each ((m, token) ∷ cs) w =
      publish_next m (publish_each cs) (publisher (envelope m) w.log) w

module _ {L : Type 0} (strategy : LockStrategy L) (publisher : Publisher) where
  unfoldable pub finish_batch : ℕ → List Claim → World L → Outcome ℕ ℕ × World L
  unfolding publish_each release_claims mark_published
  finish_batch now cs w =
      let (ids, w') = publish_each publisher cs w in
      (
        ok (length ids),
        record w' {
          messages = if is_empty ids then w'.messages else mark_published now ids w'.messages;
          locks = release_claims strategy cs w'.locks;
        },
      )

  abbrev pub after_claims : ℕ → World L → Outcome ℕ (List Claim) × L → Outcome ℕ ℕ × World L
  after_claims now w (raise e, l) = (raise e, record w { locks = l })
  after_claims now w (ok [], l) = (ok 0, record w { locks = l })
  after_claims now w (ok (c ∷ cs), l) = finish_batch now (c ∷ cs) (record w { locks = l })

  -- What the two operations do with the messages that they have read.
  unfoldable pub process_messages : ℕ → List OutboxMessage → World L → Outcome ℕ ℕ × World L
  unfolding claim_each finish_batch
  process_messages now [] w = (ok 0, w)
  process_messages now (m ∷ ms) w = after_claims now w (claim_each strategy (m ∷ ms) w.locks)

  -- `_process_batch_internal`
  unfoldable pub process_batch : ℕ → ℕ → World L → Outcome ℕ ℕ × World L
  unfolding process_messages get_pending
  process_batch size now w = process_messages now (get_pending size none w.messages) w

  -- `_retry_failed_internal`
  unfoldable pub retry_failed : ℕ → ℕ → ℕ → World L → Outcome ℕ ℕ × World L
  unfolding process_messages get_pending
  retry_failed max_retries size now w =
      process_messages now (filter (is_retryable max_retries) (get_pending size none w.messages)) w
