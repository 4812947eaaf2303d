-- ===== src/Locking/InMemory.antt =====
-- `InMemoryLockStrategy` of packages/core/src/cqrs_ddd_core/adapters/memory/locking.py, for calls
-- during whose wait no lock is given back: a call that waits times out.
pub mod Counting
use cqrs_ddd.Common.{
  ℕ, Bool, List, Option, refl, [], ◌∷◌, none, some, true, false, ◌==◌, ◌&&◌, ◌+◌, ◌-◌, leb, not,
  if◌then◌else◌,
}
use cqrs_ddd.Common.Outcome.{Outcome, ok, raise}
use cqrs_ddd.Locking.Fifo.{FifoLock, Start, taken, queued, refused, acquire_start, release}
use cqrs_ddd.Locking.{LockStrategy, ResourceIdentifier, Fault, lock_error}

pub record LockState : Type 0 where
  pub fifo_lock : FifoLock
  pub token : ℕ
  pub session_id : Option ℕ
  pub ref_count : ℕ

-- The dictionary by `(resource_type, resource_id)`.
abbrev pub Locks : Type 0
Locks = List ((ℕ × ℕ) × LockState)

abbrev pub is_key : ResourceIdentifier → ℕ × ℕ → Bool
is_key x (t, i) = (t == x.resource_type) && (i == x.resource_id)

unfoldable pub find_lock : ResourceIdentifier → Locks → Option LockState
find_lock x [] = none
find_lock x ((k, st) ∷ l) = if is_key x k then some st else find_lock x l

unfoldable pub put_lock : ResourceIdentifier → LockState → Locks → Locks
put_lock x new [] = ((x.resource_type, x.resource_id), new) ∷ []
put_lock x new ((k, st) ∷ l) = if is_key x k then (k, new) ∷ l else (k, st) ∷ put_lock x new l

-- A key stands once in a dictionary.
unfoldable pub pop_lock : ResourceIdentifier → Locks → Locks
pop_lock x [] = []
pop_lock x ((k, st) ∷ l) = if is_key x k then pop_lock x l else (k, st) ∷ pop_lock x l

-- `_FIFOLock()` with its default size.
abbrev pub new_lock : FifoLock
new_lock = record { locked = false; waiters = []; max_queue_size = 100 }

-- The state of a resource, and a new one with a new token where there is none.
abbrev pub state_or_new : ℕ → Option LockState → LockState
state_or_new fresh none = record {
  fifo_lock = new_lock;
  token = fresh;
  session_id = none;
  ref_count = 0;
}
state_or_new fresh (some st) = st

abbrev pub same_session : Option ℕ → Option ℕ → Bool
same_session none held = false
same_session (some s) none = false
same_session (some s) (some h) = h == s

abbrev pub or_else : Option ℕ → Option ℕ → Option ℕ
or_else none s = s
or_else (some h) s = some h

-- The texts of the two `ConcurrencyError`s.
abbrev pub timed_out_error : ℕ
timed_out_error = 0

abbrev pub queue_full_error : ℕ
queue_full_error = 1

-- What follows the start of the call of the FIFO lock.
unfoldable pub after_fifo :
    ResourceIdentifier → Option ℕ → LockState → Locks → Start × FifoLock → Outcome Fault ℕ × Locks
after_fifo x session st l (taken, k) = (
  ok st.token,
  put_lock x
      (record st { fifo_lock = k; session_id = or_else st.session_id session; ref_count = 1 }) l,
)
after_fifo x session st l (queued, k) =
    (raise (lock_error timed_out_error), put_lock x (record st { fifo_lock = k }) l)
after_fifo x session st l (refused, k) =
    (raise (lock_error queue_full_error), put_lock x (record st { fifo_lock = k }) l)

-- `acquire`, where `fresh` is a new token and the number of the call.
unfoldable pub acquire_lock : ℕ → ResourceIdentifier → Option ℕ → Locks → Outcome Fault ℕ × Locks
unfolding after_fifo put_lock acquire_start
acquire_lock fresh x session l =
    let st = state_or_new fresh (find_lock x l) in
    if same_session session st.session_id
    then (ok st.token, put_lock x (record st { ref_count = st.ref_count + 1 }) l)
    else after_fifo x session st l (acquire_start fresh st.fifo_lock)

-- `extend`
unfoldable pub extend_lock : ResourceIdentifier → ℕ → Locks → Bool
unfolding find_lock
extend_lock x token l = elim (find_lock x l) [ none ↦ false | some st ↦ st.token == token ]

-- The state is removed with the last reference; the waiter that its lock wakes keeps it.
unfoldable pub release_found : ResourceIdentifier → ℕ → Locks → Option LockState → Locks
unfolding pop_lock put_lock
release_found x token l none = l
release_found x token l (some st) =
    if st.token == token
    then (if leb st.ref_count 1
        then pop_lock x l
        else put_lock x (record st { ref_count = st.ref_count - 1 }) l)
    else l

-- `release`
unfoldable pub release_lock : ResourceIdentifier → ℕ → Locks → Locks
unfolding release_found find_lock
release_lock x token l = release_found x token l (find_lock x l)

-- The strategy as a critical section and the outbox use it, with no session. Its state carries the
-- number of tokens made.
unfoldable pub in_memory : LockStrategy (ℕ × Locks)
unfolding acquire_lock release_lock
in_memory = record {
  acquire = λ x s. let (r, l) = acquire_lock s.0 x none s.1 in (r, (s.0 + 1, l));
  release = λ x t s. (ok tt, (s.0, release_lock x t s.1));
}

-- `get_active_locks`: the key, the token and the session of each state; the times are not read.
unfoldable pub get_active_locks : Locks → List ((ℕ × ℕ) × ℕ × Option ℕ)
get_active_locks [] = []
get_active_locks ((k, st) ∷ l) = (k, st.token, st.session_id) ∷ get_active_locks l
