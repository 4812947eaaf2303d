-- ===== src/Locking/Fifo.antt =====
-- `_FIFOLock` of packages/core/src/cqrs_ddd_core/adapters/memory/locking.py, and the runs of the
-- calls that share one such lock. The event of a waiting call is its number.
pub mod Exclusion
pub mod Lost
use cqrs_ddd.Common.{
  ℕ, Bool, List, Option, refl, ◌≡◌, [], ◌∷◌, ◌++◌, none, some, true, false, contains, length, leb,
  if◌then◌else◌,
}

pub record FifoLock : Type 0 where
  pub locked : Bool
  pub waiters : List ℕ
  pub max_queue_size : ℕ

-- How a call of `acquire` goes on: it returns, waits for its event, or raises.
pub data Start : Type 0 where
  taken queued refused : Start

-- `acquire` until it returns, waits or raises, which it does in one go.
unfoldable pub acquire_start : ℕ → FifoLock → Start × FifoLock
acquire_start c k =
    if k.locked
    then (if leb k.max_queue_size (length k.waiters)
        then (refused, k)
        else (queued, record k { waiters = k.waiters ++ c ∷ [] }))
    else (taken, record k { locked = true })

-- `acquire` after its event was set.
unfoldable pub acquire_woken : FifoLock → FifoLock
acquire_woken k = record k { locked = true }

wake_first : List ℕ → FifoLock → Option ℕ × FifoLock
wake_first [] k = (none, record k { locked = false })
wake_first (e ∷ es) k = (some e, record k { waiters = es })

-- `release`, with the event that it sets.
unfoldable pub release : FifoLock → Option ℕ × FifoLock
unfolding wake_first
release k = wake_first k.waiters k

-- The lock with the calls that hold it, those whose event is set and that have not gone on, and
-- those whose wait timed out.
pub record System : Type 0 where
  pub lock : FifoLock
  pub holders : List ℕ
  pub woken : List ℕ
  pub timed_out : List ℕ

after_start : ℕ → System → Start × FifoLock → System
after_start c s (taken, k) = record s { lock = k; holders = c ∷ s.holders }
after_start c s (queued, k) = record s { lock = k }
after_start c s (refused, k) = record s { lock = k }

unfoldable pub started : ℕ → System → System
unfolding acquire_start after_start
started c s = after_start c s (acquire_start c s.lock)

-- Setting the event of a call that has timed out wakes nobody.
unfoldable pub woken_by : Option ℕ → System → System
woken_by none s = s
woken_by (some e) s = if contains s.timed_out e then s else record s { woken = e ∷ s.woken }

-- The holder between these others calls `release`.
unfoldable pub released : List ℕ → List ℕ → System → System
unfolding woken_by release
released before after s =
    let (e, k) = release s.lock in woken_by e (record s { lock = k; holders = before ++ after })

-- A call starts, goes on after its event, times out while its event is not set, or gives the lock
-- back.
pub data Step : System → System → Type 0 where
  starts : (s : System) (c : ℕ) → Step s (started c s)
  goes_on :
      (s : System) (before after : List ℕ) (c : ℕ)
      → s.woken ≡ before ++ c ∷ after
      → Step s (record s {
        lock = acquire_woken s.lock;
        woken = before ++ after;
        holders = c ∷ s.holders;
      })
  times_out :
      (s : System) (c : ℕ)
      → contains s.lock.waiters c ≡ true
      → Step s (record s { timed_out = c ∷ s.timed_out })
  gives_back :
      (s : System) (before after : List ℕ) (c : ℕ)
      → s.holders ≡ before ++ c ∷ after
      → Step s (released before after s)

pub data Reach (s : System) : System → Type 0 where
  here : Reach s s
  next : {t u : System} → Reach s t → Step t u → Reach s u

-- A new lock, which nobody has called.
abbrev pub new_system : ℕ → System
new_system max = record {
  lock = record { locked = false; waiters = []; max_queue_size = max };
  holders = [];
  woken = [];
  timed_out = [];
}
