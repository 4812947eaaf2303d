-- ===== src/Locking/Guard.antt =====
-- `ConcurrencyGuardMiddleware` of packages/core/src/cqrs_ddd_core/middleware/concurrency.py. Its
-- strategy is the one of the session of the message; the handler is the rest of the pipeline.
pub mod Sections
use cqrs_ddd.Common.{
  ℕ, Bool, List, Option, refl, [], ◌∷◌, none, some, true, false, ◌&&◌, if◌then◌else◌,
}
use cqrs_ddd.Common.Outcome.{Outcome, ok, raise}
use cqrs_ddd.Locking.{
  LockStrategy, ResourceIdentifier, SectionError, Acquired, enter, leave, section_resources,
}

-- What a guarded call raises: the error of its section, which is a `ConcurrencyError`, or the
-- handler's exception, which may be one.
pub data GuardError : Type 0 where
  section_failed : SectionError → GuardError
  handler_failed : (is_concurrency_error : Bool) (message : ℕ) → GuardError

-- Whether the `except` clause catches it.
abbrev pub caught : {R : Type 0} → Outcome GuardError R → Bool
caught (ok r) = false
caught (raise (section_failed e)) = true
caught (raise (handler_failed c n)) = c

module _ {S R : Type 0} where
  -- The body of `async with`, which leaves the section however the handler ends.
  unfoldable pub in_section :
      LockStrategy S
      → (S → Outcome GuardError R × S)
      → Outcome SectionError Acquired × S
      → Outcome GuardError R × S
  unfolding leave
  in_section st handler (raise e, s) = (raise (section_failed e), s)
  in_section st handler (ok acquired, s) = let (r, s') = handler s in (r, leave st acquired s')

  -- In fail-open mode the handler is called after a `ConcurrencyError`, wherever it comes from.
  unfoldable pub after_section :
      Bool → (S → Outcome GuardError R × S) → Outcome GuardError R × S → Outcome GuardError R × S
  after_section fail_open handler (r, s) = if caught r && fail_open then handler s else (r, s)

  unfoldable pub lock_and_call :
      LockStrategy S
      → Bool
      → (S → Outcome GuardError R × S)
      → List ResourceIdentifier
      → S
      → Outcome GuardError R × S
  unfolding in_section after_section enter section_resources
  lock_and_call st fail_open handler [] s = handler s
  lock_and_call st fail_open handler (x ∷ xs) s =
      after_section fail_open handler
        (in_section st handler (enter st (section_resources (x ∷ xs)) s))

  -- `__call__`; a message without `get_critical_resources` has no resources.
  unfoldable pub guarded_call :
      LockStrategy S
      → Bool
      → (S → Outcome GuardError R × S)
      → Option (List ResourceIdentifier)
      → S
      → Outcome GuardError R × S
  unfolding lock_and_call
  guarded_call st fail_open handler none s = handler s
  guarded_call st fail_open handler (some xs) s = lock_and_call st fail_open handler xs s
