-- ===== src/Jobs/Entity/Invariant.antt =====
-- What holds of a job through its whole life: the error message, the retry budget and the events.
use cqrs_ddd.Jobs.Entity.{
  Status, Event, Job, Call, create, call, pending, do_start, failed, job_retried, cancelled,
}
use cqrs_ddd.Jobs.Entity.Lifecycle.{run, run_inv}
use cqrs_ddd.Common.{List, Option, ℕ, ◌≡◌, ◌≤◌, [], some, ◌++◌, ◌∷◌, arith, none, ◌+◌, suc}
use cqrs_ddd.Common.Outcome.{ok}

-- The message that a status calls for: one for a failed or cancelled job, none for the others.
abbrev pub FitsMessage {ℓ} : {A : Type ℓ} → Status → Option A → Type 0
FitsMessage failed (some _) = Unit
FitsMessage failed none = ⊥
FitsMessage cancelled (some _) = Unit
FitsMessage cancelled none = ⊥
FitsMessage _ (some _) = ⊥
FitsMessage _ none = Unit

-- How often a retry was recorded.
abbrev pub retries : List Event → ℕ
retries [] = 0
retries (e ∷ es) = elim e.kind [ job_retried _ ↦ suc (retries es) | _ ↦ retries es ]

retries-append : (xs ys : List Event) → retries (xs ++ ys) ≡ retries xs + retries ys
retries-append [] ys = omega arith
retries-append (x ∷ xs) ys = ground (arith, retries-append xs ys)

-- Every event names this aggregate.
pub IsNamed : ℕ → List Event → Type 0
IsNamed i [] = Unit
IsNamed i (e ∷ es) = (e.aggregate_id ≡ some i) × IsNamed i es

-- The well-formed jobs: the message fits the status, the retry count is within the budget and is
-- the number of recorded retries, and every recorded event names the job as its aggregate.
pub record IsValid (j : Job) : Type 0 where
  pub message_fits : FitsMessage j.status j.error_message
  pub in_budget : j.retry_count ≤ j.max_retries
  pub recorded : retries j.domain_events ≡ j.retry_count
  pub named : IsNamed j.id j.domain_events

nil-IsNamed : (i : ℕ) → IsNamed i []
unfolding IsNamed
nil-IsNamed i = tt

snoc-IsNamed :
    (i : ℕ) (es : List Event) (e : Event)
    → IsNamed i es
    → e.aggregate_id ≡ some i
    → IsNamed i (es ++ e ∷ [])
unfolding IsNamed
snoc-IsNamed i [] e h k = (k, tt)
snoc-IsNamed i (x ∷ es) e h k = (h.0, snoc-IsNamed i es e h.1 k)

pub call-IsValid : (c : Call) (now : ℕ) (j j' : Job) → IsValid j → call c now j ≡ ok j' → IsValid j'
unfolding call
call-IsValid do_start now j j' v e = grind (arith, retries-append, snoc-IsNamed)
call-IsValid _ now j j' v e = grind (arith, retries-append, snoc-IsNamed)

-- A new job is well-formed.
pub create-IsValid :
    (j : Job)
    → j.status ≡ pending
    → j.error_message ≡ none
    → j.retry_count ≡ 0
    → j.domain_events ≡ []
    → IsValid (create j)
unfolding create
create-IsValid j s m r e = grind (arith, retries-append, snoc-IsNamed, nil-IsNamed)

-- Through every list of calls a well-formed job stays well-formed: its error message fits its
-- status, its retry count stays within the budget and counts the recorded retries, and its recorded
-- events name the job.
pub run-IsValid : (cs : List (Call × ℕ)) (j : Job) → IsValid j → IsValid (run cs j)
run-IsValid = run_inv IsValid call-IsValid
