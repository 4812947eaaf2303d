-- ===== src/Jobs/Entity/Lifecycle.antt =====
-- The state machine of a job, against a table of its transitions.
use cqrs_ddd.Common.{
  ℕ, ◌≡◌, refl, Bool, true, Option, none, some, List, [], ◌∷◌, ltb, if◌then◌else◌, arith,
}
use cqrs_ddd.Common.Outcome.{Outcome, ok, raise}
use cqrs_ddd.Jobs.Entity.{
  Status, pending, running, completed, failed, cancelled, Job, JobStateError, Call, do_start,
  do_retry, do_cancel, do_progress, do_complete, do_fail, call,
}

-- The table: where a call leads from each status, if it is allowed there.
abbrev pub target : Call → Status → Option Status
target do_start pending = some running
target (do_progress _) running = some running
target (do_complete _) running = some completed
target (do_fail _) running = some failed
target (do_fail _) pending = some failed
target do_retry failed = some running
target do_cancel pending = some cancelled
target do_cancel running = some cancelled
target do_cancel failed = some cancelled
target _ _ = none

-- A retry needs a budget too.
abbrev pub has_budget : Call → Job → Bool
has_budget do_retry j = ltb j.retry_count j.max_retries
has_budget _ j = true

abbrev pub expected : Call → Job → Option Status
expected c j = if has_budget c j then target c j.status else none

-- What a call did, against what the table expects of it.
abbrev pub Agrees : ℕ → Job → Outcome JobStateError Job → Option Status → Type 0
Agrees now j (ok j') (some t) =
    (j'.status ≡ t) × (j'.id ≡ j.id) × (j'.updated_at ≡ now) × (j'.max_retries ≡ j.max_retries)
Agrees now j (raise _) none = Unit
Agrees now j _ _ = ⊥

-- On every call and in every status a call succeeds exactly where the table and the retry budget
-- allow it; it then leads to the table's status, stamps the time and keeps the identity and budget.
pub call-Agrees : (c : Call) (now : ℕ) (j : Job) → Agrees now j (call c now j) (expected c j)
unfolding call
call-Agrees do_start now j = ground arith
call-Agrees _ now j = ground arith

-- A list of calls with their times. A call that raises leaves the job as it is.
after : Outcome JobStateError Job → Job → Job
after (ok j') j = j'
after (raise _) j = j

pub run : List (Call × ℕ) → Job → Job
unfolding after
run [] j = j
run ((c, now) ∷ cs) j = run cs (after (call c now j) j)

-- What every successful call keeps, every list of calls keeps.
pub run_inv {ℓ} :
    (P : Job → Type ℓ)
    → ((c : Call) (now : ℕ) (j j' : Job) → P j → call c now j ≡ ok j' → P j')
    → (cs : List (Call × ℕ)) (j : Job) → P j
    → P (run cs j)
unfolding run
run_inv P keep [] j p = p
run_inv P keep ((c, now) ∷ cs) j p =
    run_inv P keep cs (after (call c now j) j) (step (call c now j) refl)
  where
    step : (r : Outcome JobStateError Job) → call c now j ≡ r → P (after r j)
    step (ok j') e = keep c now j j' p e
    step (raise _) e = p

abbrev pub IsFinal : Status → Type 0
IsFinal completed = Unit
IsFinal cancelled = Unit
IsFinal _ = ⊥

final_refuses : (c : Call) (now : ℕ) (j : Job) → IsFinal j.status → after (call c now j) j ≡ j
unfolding call after
final_refuses do_start now j f = ground arith
final_refuses _ now j f = ground arith

-- A completed or cancelled job never changes again, whatever is called on it.
pub run_final : (cs : List (Call × ℕ)) (j : Job) → IsFinal j.status → run cs j ≡ j
unfolding run
run_final [] j f = refl
run_final ((c, now) ∷ cs) j f = rw (final_refuses c now j f) (run_final cs j f)
