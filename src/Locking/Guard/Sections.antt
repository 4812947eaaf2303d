-- ===== src/Locking/Guard/Sections.antt =====
-- A guarded call holds the locks of its message while the handler runs.
use cqrs_ddd.Common.{List, ◌≡◌, ◌++◌, map, reverse}
use cqrs_ddd.Common.Outcome.{Outcome, ok, raise}
use cqrs_ddd.Locking.{LockStrategy, ResourceIdentifier, SectionError, Acquired, enter, leave}
use cqrs_ddd.Locking.Atomic.{IsLocking}
use cqrs_ddd.Locking.Guard.{GuardError, section_failed}

module _ {S R : Type 0} (st : LockStrategy S) (held : S → Acquired) (law : IsLocking st held)
    (handler : S → Outcome GuardError R × S) (keeps : (s : S) → held (handler s).1 ≡ held s) where
  -- The section could not be entered, and the handler did not run: the state after the call is the
  -- one that the refused section left.
  pub record NotRun (xs : List ResourceIdentifier) (s : S) (r : Outcome GuardError R × S)
      : Type 0 where
    pub reason : SectionError
    pub refused : (enter st xs s).0 ≡ raise reason
    pub result : r ≡ (raise (section_failed reason), (enter st xs s).1)
    pub same_locks : held r.1 ≡ held s

  -- The handler ran once, in a state that holds these locks beside those of before, and its result
  -- is that of the call, which has given the locks back.
  pub record RanLocked (xs : List ResourceIdentifier) (s : S) (r : Outcome GuardError R × S)
      : Type 0 where
    pub acquired : Acquired
    pub inside : S
    pub entered : enter st xs s ≡ (ok acquired, inside)
    pub resources : map (λ p. p.0) acquired ≡ xs
    pub locked : held inside ≡ reverse acquired ++ held s
    pub result : r ≡ ((handler inside).0, leave st acquired (handler inside).1)
    pub same_locks : held r.1 ≡ held s
