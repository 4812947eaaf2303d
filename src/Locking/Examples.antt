-- ===== src/Locking/Examples.antt =====
-- The theorems on critical sections with a strategy that refuses a resource that is held.
use cqrs_ddd.Locking.Guard.{GuardError, handler_failed}
use cqrs_ddd.Locking.Fifo.{
  System, started, released, new_system, here, next, starts, gives_back, acquire_start,
}
use cqrs_ddd.Locking.Fifo.Exclusion.{IsExclusive, Reach-IsExclusive}
use cqrs_ddd.Locking.Fifo.Lost.{never_again}
use cqrs_ddd.Common.{ℕ, refl, List, if◌then◌else◌, ◌∷◌, [], any, length, ◌≡◌, true}
use cqrs_ddd.Common.Outcome.{Outcome, ok, raise}
use mathlib.Core.List.{Perm}
use cqrs_ddd.Common.Sort.{IsSorted}
use cqrs_ddd.Locking.Requests.{section_resources_lem, modes}
use cqrs_ddd.Locking.{
  LockStrategy, ResourceIdentifier, Acquired, Mode, write, read, same_key, lock_error, in_order,
  section_resources,
}

abbrev tail_of : Acquired → Acquired
tail_of [] = []
tail_of (p ∷ ps) = ps

abbrev exclusive : LockStrategy Acquired
exclusive = record {
  acquire = λ x s.
      if any (λ p. same_key x p.0) s
      then (raise (lock_error 1), s)
      else (ok (length s), (x, length s) ∷ s);
  release = λ x t s. (ok tt, tail_of s);
}

abbrev resource_of : ℕ → Mode → ResourceIdentifier
resource_of i m = record { resource_type = 1; resource_id = i; lock_mode = m }

abbrev wanted : List ResourceIdentifier
wanted = resource_of 2 write ∷ resource_of 5 read ∷ []

-- A resource that is requested twice.
abbrev requests : List ResourceIdentifier
requests = resource_of 5 read ∷ resource_of 2 read ∷ resource_of 5 write ∷ []

section_resources_lem_example :
    IsSorted in_order (section_resources requests)
    × Perm (section_resources requests) (resource_of 5 write ∷ resource_of 2 read ∷ [])
    × (modes (resource_of 5 read) (resource_of 5 write ∷ resource_of 2 read ∷ []) ≡ write ∷ [])
section_resources_lem_example = section_resources_lem requests (resource_of 5 read)

abbrev two_calls : System
two_calls = started 2 (started 1 (new_system 100))

-- The second call waits, and has its event set when the first one gives the lock back.
Reach-IsExclusive_example : IsExclusive (released [] [] two_calls)
unfolding started acquire_start
Reach-IsExclusive_example = Reach-IsExclusive 100 (
    next (next (next here (starts (new_system 100) 1)) (starts (started 1 (new_system 100)) 2))
      (gives_back two_calls [] [] 1 refl))

abbrev waiter_gone : System
waiter_gone = record {
  lock = record { locked = true; waiters = 2 ∷ 3 ∷ []; max_queue_size = 100 };
  holders = 1 ∷ [];
  woken = [];
  timed_out = 2 ∷ [];
}

never_again_example :
    let end = started 9 (released [] [] waiter_gone) in (end.holders ≡ []) × (end.woken ≡ [])
never_again_example =
    never_again waiter_gone 1 2 (3 ∷ []) refl refl refl refl refl
      (next here (starts (released [] [] waiter_gone) 9))

-- A handler that raises a `ConcurrencyError` of its own.
abbrev failing : Acquired → Outcome GuardError ℕ × Acquired
failing s = (raise (handler_failed true 4), s)
