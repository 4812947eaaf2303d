-- ===== src/Locking.antt =====
-- Critical sections of packages/core/src/cqrs_ddd_core: `ResourceIdentifier` of primitives/locking.py,
-- `CriticalSection` of cqrs/concurrency.py and the guard of middleware/concurrency.py. The lock
-- strategy is the interface `LockStrategy`, over a state of locks of any type.
pub mod Atomic
pub mod Requests
mod Examples
pub mod Fifo
pub mod InMemory
pub mod Counted
pub mod Guard
use cqrs_ddd.Common.{
  ℕ, Bool, List, Option, refl, [], false, if◌then◌else◌, ltb, none, reverse, ◌==◌, ◌∷◌, length, not,
  some, true, ◌&&◌, ◌||◌, any, leb, suc, ◌++◌,
}
use cqrs_ddd.Common.Sort.{sort_by}
use cqrs_ddd.Common.Outcome.{Outcome, ok, raise}
use Prim.Native.Nat.{zero}

-- `lock_mode`
pub data Mode : Type 0 where
  read write : Mode

abbrev pub is_write : Mode → Bool
is_write read = false
is_write write = true

pub record ResourceIdentifier : Type 0 where
  pub resource_type : ℕ
  pub resource_id : ℕ
  pub lock_mode : Mode

-- Equality of the keys `(resource_type, resource_id)`.
abbrev pub same_key : ResourceIdentifier → ResourceIdentifier → Bool
same_key a b = (a.resource_type == b.resource_type) && (a.resource_id == b.resource_id)

-- `not b < a` for the comparison of the keys.
abbrev pub in_order : ResourceIdentifier → ResourceIdentifier → Bool
in_order a b =
    ltb a.resource_type b.resource_type
    || ((a.resource_type == b.resource_type) && leb a.resource_id b.resource_id)

-- The assignment to `consolidated[key]`: a key that is there keeps its place.
abbrev pub put : ResourceIdentifier → List ResourceIdentifier → List ResourceIdentifier
put x [] = x ∷ []
put x (y ∷ ys) = if same_key x y then x ∷ ys else y ∷ put x ys

-- One round of the loop in `CriticalSection.__init__`.
abbrev pub consolidate_one : ResourceIdentifier → List ResourceIdentifier → List ResourceIdentifier
consolidate_one x ys = if not (any (same_key x) ys) || is_write x.lock_mode then put x ys else ys

abbrev pub consolidate_each :
    List ResourceIdentifier → List ResourceIdentifier → List ResourceIdentifier
consolidate_each [] ys = ys
consolidate_each (x ∷ xs) ys = consolidate_each xs (consolidate_one x ys)

-- `self._resources`
unfoldable pub section_resources : List ResourceIdentifier → List ResourceIdentifier
section_resources requested = sort_by in_order (consolidate_each requested [])

-- What `acquire` raises: a `LockAcquisitionError` or something else.
pub data Fault : Type 0 where
  lock_error other_error : ℕ → Fault

pub record LockStrategy (S : Type 0) : Type 0 where
  pub acquire : ResourceIdentifier → S → Outcome Fault ℕ × S
  pub release : ResourceIdentifier → ℕ → S → Outcome Fault (Unit {0}) × S

-- What entering a section raises: the strategy's own error, or one that names a resource and a
-- number of locks.
pub data SectionError : Type 0 where
  same_error : ℕ → SectionError
  wrapped : (failed : Option ResourceIdentifier) (rolled_back cause : ℕ) → SectionError

abbrev pub item : ℕ → List ResourceIdentifier → Option ResourceIdentifier
item i [] = none
item zero (x ∷ xs) = some x
item (suc i) (x ∷ xs) = item i xs

abbrev pub last_item : List ResourceIdentifier → Option ResourceIdentifier
last_item [] = none
last_item (x ∷ []) = some x
last_item (x ∷ y ∷ xs) = last_item (y ∷ xs)

abbrev pub Acquired : Type 0
Acquired = List (ResourceIdentifier × ℕ)

-- The error when the locks were rolled back, by the list of the acquired locks as it is then.
abbrev pub error_of : List ResourceIdentifier → Acquired → Fault → SectionError
error_of resources acquired (lock_error e) = same_error e
error_of resources acquired (other_error e) =
    wrapped
      (if ltb (length acquired) (length resources)
        then item (length acquired) resources
        else last_item resources)
      (length acquired) e

module _ {S : Type 0} where
  -- The loop of `_rollback`, over the acquired locks in reverse; an error of `release` is logged.
  abbrev pub release_each : LockStrategy S → Acquired → S → S
  release_each st [] s = s
  release_each st ((x, t) ∷ a) s = release_each st a (st.release x t s).1

  -- `_rollback`, which also empties the list of the acquired locks.
  unfoldable pub rollback : LockStrategy S → Acquired → S → S
  rollback st acquired s = release_each st (reverse acquired) s

  -- What follows a call of `acquire` in the loop of `__aenter__`.
  abbrev pub acquire_next :
      Acquired
      → (ℕ → S → (Acquired × Outcome Fault (Unit {0})) × S)
      → Outcome Fault ℕ × S
      → (Acquired × Outcome Fault (Unit {0})) × S
  acquire_next acquired next (raise e, s) = ((acquired, raise e), s)
  acquire_next acquired next (ok t, s) = next t s

  -- The loop of `__aenter__`, with the locks that it acquired and how it ended.
  abbrev pub acquire_each :
      LockStrategy S
      → List ResourceIdentifier
      → Acquired
      → S
      → (Acquired × Outcome Fault (Unit {0})) × S
  acquire_each st [] acquired s = ((acquired, ok tt), s)
  acquire_each st (x ∷ xs) acquired s =
      acquire_next acquired (λ t s'. acquire_each st xs (acquired ++ (x, t) ∷ []) s')
        (st.acquire x s)

  -- What follows the loop. The rollback empties the list of the acquired locks before the error is
  -- made.
  abbrev pub finish_enter :
      LockStrategy S
      → List ResourceIdentifier
      → (Acquired × Outcome Fault (Unit {0})) × S
      → Outcome SectionError Acquired × S
  finish_enter st resources ((acquired, ok u), s) = (ok acquired, s)
  finish_enter st resources ((acquired, raise e), s) =
      (raise (error_of resources [] e), rollback st acquired s)

  -- `__aenter__`
  unfoldable pub enter :
      LockStrategy S → List ResourceIdentifier → S → Outcome SectionError Acquired × S
  enter st resources s = finish_enter st resources (acquire_each st resources [] s)

  -- `__aexit__`
  unfoldable pub leave : LockStrategy S → Acquired → S → S
  unfolding rollback
  leave st acquired s = rollback st acquired s
