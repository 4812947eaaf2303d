-- ===== src/Jobs/Service.antt =====
-- `BackgroundJobService` of background_jobs/service.py, over the in-memory repository. The hook
-- registry runs the given step; its hooks are no part of the model.
pub mod Sweep
use cqrs_ddd.Common.Outcome.{Outcome, ok, raise}
use cqrs_ddd.Jobs.Entity.{Job, JobStateError, start_processing, fail, retry, cancel, timed_out}
use cqrs_ddd.Jobs.Repository.{Repo, add, get, get_stale_jobs}
use cqrs_ddd.Common.{Bool, Option, ℕ, List, none, some, false, ◌∷◌, ◌+◌}
use mathlib.Core.List.{[]}

-- A service call returns its result, or the exception that it passes on, and the repository.
abbrev pub Reply : Type 0
Reply = Outcome JobStateError (Option Job) × Repo

-- What `schedule` stores.
pub schedule : Job → Repo → Job × Repo
schedule j r = add j r

-- Load a job, make a transition, and store the job. A raise leaves the repository alone.
mutate : (Job → Outcome JobStateError Job) → ℕ → Repo → Reply
mutate f i r = elim (get i none r) [
  | none ↦ (ok none, r)
  | some j ↦ elim (f j) [
    | raise e ↦ (raise e, r)
    | ok j' ↦ let (stored, r') = add j' r in (ok (some stored), r')
  ]
]

unfoldable pub cancel_job : ℕ → ℕ → Repo → Reply
unfolding mutate
cancel_job now = mutate (cancel now)

unfoldable pub retry_job : ℕ → ℕ → Repo → Reply
unfolding mutate
retry_job now = mutate (retry now)

-- `mark_running` also calls the sweeper's trigger, whose failures are only logged; the last
-- component says whether it is called.
unfoldable pub mark_running : Bool → ℕ → ℕ → Repo → Reply × Bool
unfolding mutate
mark_running has_trigger now i r =
    let (reply, r') = mutate (start_processing now) i r in
    ((reply, r'), elim reply [ ok (some _) ↦ has_trigger | _ ↦ false ])

-- The loop of `process_stale_jobs`: a job that cannot fail is passed over.
sweep : ℕ → ℕ → List Job → ℕ × Repo → ℕ × Repo
sweep timeout now [] acc = acc
sweep timeout now (j ∷ js) (swept, r) =
    sweep timeout now js (elim (fail (timed_out timeout) now j) [
      | ok j' ↦ (swept + 1, (add j' r).1)
      | raise _ ↦ (swept, r)
    ])

unfoldable pub process_stale_jobs : ℕ → ℕ → Repo → ℕ × Repo
unfolding sweep
process_stale_jobs timeout now r =
    sweep timeout now (get_stale_jobs now (some timeout) none r) (0, r)
