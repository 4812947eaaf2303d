-- ===== src/Jobs/Examples.antt =====
-- The theorems on background jobs at concrete jobs and repositories.
use cqrs_ddd.Common.{
  ℕ, refl, List, Option, ◌∷◌, ◌≡◌, [], length, none, some, ◌+◌, arith, if◌then◌else◌,
}
use cqrs_ddd.Jobs.Entity.{
  Job, Status, completed, failed, pending, running, Call, Message, call, create, do_retry, do_start,
  given, do_fail, do_complete, cancel,
}
use cqrs_ddd.Jobs.Repository.{Repo, purge_completed, get_stale_jobs, is_stale, purgeable}
use cqrs_ddd.Jobs.Entity.Lifecycle.{call-Agrees, run, Agrees, expected}
use cqrs_ddd.Jobs.Entity.Invariant.{run-IsValid, create-IsValid, IsValid}
use cqrs_ddd.Jobs.Repository.Purge.{purge_completed-eq}
use cqrs_ddd.Jobs.Repository.Keys.{IsKeyed}
use cqrs_ddd.Jobs.Service.Sweep.{process_stale_jobs_lem, swept}
use cqrs_ddd.Jobs.Admin.Bulk.{bulk_cancel_lem, moved}
use cqrs_ddd.Jobs.Admin.Kill.{cancel_running_never_kills, ending}
use cqrs_ddd.Common.Dict.{IsUnique, lookup}
use cqrs_ddd.Jobs.Admin.{Runtime, bulk_cancel, cancel_running, graceful, cancellable}
use cqrs_ddd.Jobs.Service.{process_stale_jobs}

-- A job with its identifier, status, error message and last update.
abbrev job_of : ℕ → Status → Option Message → ℕ → Job
job_of i s m t = record {
  id = i;
  class_name = 7;
  job_type = 3;
  status = s;
  total_items = 10;
  processed_items = 0;
  result_data = [];
  error_message = m;
  broker_message_id = none;
  retry_count = 0;
  max_retries = 3;
  created_at = 0;
  updated_at = t;
  metadata = [];
  correlation_id = some 5;
  tenant_id = none;
  version = 0;
  domain_events = [];
}

abbrev new_job : Job
new_job = job_of 1 pending none 0

abbrev running_job : Job
running_job = job_of 2 running none 100

abbrev failed_job : Job
failed_job = job_of 3 failed (some (given 9)) 50

abbrev done_job : Job
done_job = job_of 4 completed none 20

abbrev store : Repo
store = (1, new_job) ∷ (2, running_job) ∷ (3, failed_job) ∷ (4, done_job) ∷ []

store-IsKeyed : IsKeyed store
store-IsKeyed = (refl, (refl, (refl, (refl, tt))))

store-IsUnique : IsUnique store
store-IsUnique = (refl, (refl, (refl, (refl, tt))))

-- The calls of a job that fails, is retried and completes.
abbrev history : List (Call × ℕ)
history =
    (do_start, 1)
    ∷ (do_fail (given 8), 2)
    ∷ (do_retry, 3)
    ∷ (do_start, 4)
    ∷ (do_complete [], 5)
    ∷ []

call-Agrees_example :
    Agrees 9 failed_job (call do_retry 9 failed_job) (expected do_retry failed_job)
call-Agrees_example = call-Agrees do_retry 9 failed_job

run-IsValid_example : IsValid (run history (create new_job))
run-IsValid_example =
    run-IsValid history (create new_job) (create-IsValid new_job refl refl refl refl)

purge_completed-eq_example :
    purge_completed 30 none store ≡ (1, (1, new_job) ∷ (2, running_job) ∷ (3, failed_job) ∷ [])
unfolding purgeable
purge_completed-eq_example = purge_completed-eq 30 none store store-IsUnique

process_stale_jobs_lem_example :
    ((process_stale_jobs 60 1000 store).0 ≡ length (get_stale_jobs 1000 (some 60) none store))
    × ((i : ℕ)
        → lookup i (process_stale_jobs 60 1000 store).1 ≡ elim (lookup i store) [
          | none ↦ none
          | some j ↦ some (if is_stale 1000 (some 60) j then swept 60 1000 j else j)
        ])
process_stale_jobs_lem_example = process_stale_jobs_lem 60 1000 store store-IsKeyed store-IsUnique

bulk_cancel_lem_example :
    let (done, skipped, r') = bulk_cancel 7 (2 ∷ 4 ∷ 9 ∷ 2 ∷ []) store in
    (done + skipped ≡ 4) × (lookup 2 r' ≡ some (moved cancellable (cancel 7) running_job))
bulk_cancel_lem_example = bulk_cancel_lem 7 2 (2 ∷ 4 ∷ 9 ∷ 2 ∷ []) store store-IsKeyed

-- The rest of the system leaves the repository as it is.
abbrev quiet : Runtime
quiet = record { request_stop = λ i r. r; force_kill = λ i r. r; meanwhile = λ n r. r }

cancel_running_never_kills_example :
    ending (cancel_running (some quiet) 5 200 201 2 store) ≡ some graceful
cancel_running_never_kills_example =
    cancel_running_never_kills quiet 5 200 201 2 store store-IsKeyed (λ s h. h) (λ n s h. h)
      (omega arith) refl
