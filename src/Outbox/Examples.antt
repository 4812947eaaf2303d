-- ===== src/Outbox/Examples.antt =====
-- The outbox at concrete messages, with the in-memory lock strategy.
use cqrs_ddd.Common.{ℕ, Option, refl, ◌≡◌, [], ◌∷◌, none, some, true, ◌==◌, if◌then◌else◌, ◌+◌}
use cqrs_ddd.Common.Outcome.{ok}
use cqrs_ddd.Common.Sort.{sort_by}
use cqrs_ddd.Locking.{LockStrategy}
use cqrs_ddd.Locking.InMemory.{Locks, in_memory}
use cqrs_ddd.Locking.InMemory.Counting.{held_refs, in_memory-IsCounting}
use cqrs_ddd.Outbox.{OutboxMessage}
use cqrs_ddd.Outbox.Service.{World, Publisher, process_messages, process_batch, retry_failed}
use cqrs_ddd.Outbox.Service.Settled.{Settles, process_messages-Settles}
use cqrs_ddd.Outbox.Service.Budget.{OnlyPublishes, Retries, retry_failed_bounds}

-- A strategy that refuses nothing.
abbrev granting : LockStrategy (Unit {0})
granting = record { acquire = λ x l. (ok 0, l); release = λ x t l. (ok tt, l) }

abbrev mail : ℕ → Option ℕ → ℕ → OutboxMessage
mail i error retries = record {
  message_id = i;
  event_type = 1;
  payload = i + 100;
  metadata_correlation = none;
  created_at = i;
  published_at = none;
  error = error;
  retry_count = retries;
  correlation_id = some 8;
  others = 0;
}

-- The publisher refuses the payload 102.
abbrev picky : Publisher
picky e log = if e.message == 102 then some 66 else none

-- The lock of the message 3 is taken.
abbrev two_failed : World (ℕ × Locks)
two_failed = record {
  messages = mail 1 (some 5) 2 ∷ mail 2 (some 5) 0 ∷ mail 3 (some 5) 9 ∷ mail 4 none 0 ∷ [];
  locks = (
    1,
    (
      (0, 3),
      record {
        fifo_lock = record { locked = true; waiters = []; max_queue_size = 100 };
        token = 0;
        session_id = none;
        ref_count = 1;
      },
    )
        ∷ [],
  );
  log = [];
}

settled_count : (process_batch in_memory picky 10 50 two_failed).0 ≡ ok 2
unfolding process_batch sort_by in_memory
settled_count = refl

process_messages-Settles_example :
    Settles in_memory picky held_refs two_failed.messages two_failed
      (process_messages in_memory picky 50 two_failed.messages two_failed)
process_messages-Settles_example =
    process_messages-Settles in_memory picky held_refs in_memory-IsCounting 50 two_failed.messages
      two_failed

retry_failed_bounds_example :
    OnlyPublishes (Retries 5) 10 two_failed (retry_failed in_memory picky 5 10 50 two_failed).1
retry_failed_bounds_example =
    retry_failed_bounds in_memory picky held_refs in_memory-IsCounting 5 10 50 two_failed

abbrev unlocked : World (Unit {0})
unlocked = record { messages = two_failed.messages; locks = tt; log = [] }
