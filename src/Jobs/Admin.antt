-- ===== src/Jobs/Admin.antt =====
-- `BackgroundJobAdminService` of background_jobs/admin_service.py, over the in-memory repository.
pub mod Bulk
pub mod Kill
use cqrs_ddd.Common.Outcome.{Outcome, ok, raise}
use cqrs_ddd.Common.Dict.{Dict, values}
use cqrs_ddd.Jobs.Entity.{
  Job, Status, is_status, JobStateError, fail, retry, cancel, failed, completed, running, cancelled,
  terminated,
}
use cqrs_ddd.Jobs.Repository.Counts.{sum}
use cqrs_ddd.Jobs.Repository.{
  Repo, add, get, list_all, find_by_status, count_by_status, purge_completed,
}
use cqrs_ddd.Common.{
  Bool, List, Option, none, ℕ, not, some, suc, ◌+◌, ◌∷◌, if◌then◌else◌, ◌&&◌, ◌-◌, ltb, ◌||◌, true,
}
use mathlib.Core.List.{[]}
use Prim.Native.Nat.{zero}
use mathlib.Core.Bool.{false}

unfoldable pub list_jobs : Option (List Status) → ℕ → ℕ → Repo → List Job
list_jobs none limit offset r = list_all none none r
list_jobs (some []) limit offset r = list_all none none r
list_jobs (some (s ∷ ss)) limit offset r = find_by_status (s ∷ ss) limit offset none r

-- `JobStatistics`
pub record Statistics : Type 0 where
  pub counts : Dict ℕ
  pub total : ℕ

unfoldable pub get_statistics : Repo → Statistics
get_statistics r =
    let counts = count_by_status none r in record { counts = counts; total = sum (values counts) }

-- One round of a bulk loop: an admissible job makes the transition and is stored, and all else is
-- skipped. The counters are the changed and the skipped ones.
abbrev pub Tally : Type 0
Tally = ℕ × ℕ × Repo

attempt : (Job → Bool) → (Job → Outcome JobStateError Job) → ℕ → Tally → Tally
attempt admits f i (done, skipped, r) = elim (get i none r) [
  | none ↦ (done, skipped + 1, r)
  | some j ↦ if not (admits j) then (done, skipped + 1, r) else elim (f j) [
    | ok j' ↦ (done + 1, skipped, (add j' r).1)
    | raise _ ↦ (done, skipped + 1, r)
  ]
]

-- The tests that the loops of `bulk_cancel` and `bulk_retry` make before the transition.
unfoldable pub cancellable : Job → Bool
cancellable j = not (is_status j.status completed || is_status j.status cancelled)

unfoldable pub retryable : Job → Bool
retryable j = is_status j.status failed && ltb j.retry_count j.max_retries

attempt_each : (Job → Bool) → (Job → Outcome JobStateError Job) → List ℕ → Tally → Tally
unfolding attempt
attempt_each admits f [] acc = acc
attempt_each admits f (i ∷ is) acc = attempt_each admits f is (attempt admits f i acc)

unfoldable pub bulk_cancel : ℕ → List ℕ → Repo → Tally
unfolding attempt_each
bulk_cancel now ids r = attempt_each cancellable (cancel now) ids (0, 0, r)

unfoldable pub bulk_retry : ℕ → List ℕ → Repo → Tally
unfolding attempt_each
bulk_retry now ids r = attempt_each retryable (retry now) ids (0, 0, r)

-- What stands outside: `IJobKillStrategy`, and what the rest of the system does to the repository
-- while the service waits for the n-th second.
pub record Runtime : Type 0 where
  pub request_stop : ℕ → Repo → Repo
  pub force_kill : ℕ → Repo → Repo
  pub meanwhile : ℕ → Repo → Repo

-- The end of `cancel_running`: how the call ended, the job that it returns, and the repository.
pub data Ending : Type 0 where
  at_once graceful killed : Ending

abbrev pub Result : Type 0
Result = Ending × Option Job × Repo

-- After the grace period: force-kill, and fail a job that is RUNNING still.
kill : Runtime → ℕ → ℕ → ℕ → Repo → Result
kill rt grace later i r =
    let r' = rt.force_kill i r in
    elim (get i none r') [
      | none ↦ (killed, none, r')
      | some latest ↦
          if is_status latest.status running
          then elim (fail (terminated grace) later latest) [
            | ok j ↦ let (stored, r'') = add j r' in (killed, some stored, r'')
            | raise _ ↦ (killed, some latest, r')
          ]
          else (killed, some latest, r')
    ]

-- The polling loop, with the seconds that are left.
poll : Runtime → ℕ → ℕ → ℕ → ℕ → Repo → Result
unfolding kill
poll rt grace later i zero r = kill rt grace later i r
poll rt grace later i (suc left) r =
    let r' = rt.meanwhile (grace - left) r in
    elim (get i none r') [
      | none ↦ (graceful, none, r')
      | some latest ↦ elim (is_status latest.status running) [
        | true ↦ poll rt grace later i left r'
        | false ↦ (graceful, some latest, r')
      ]
    ]

-- `cancel_running`, with a grace period in whole seconds. It calls `cancel` on a RUNNING job only,
-- so an exception of `cancel` is passed on in vain. The clock is read at
-- `now`, and at `later` when the job is failed.
unfoldable pub cancel_running : Option Runtime → ℕ → ℕ → ℕ → ℕ → Repo → Outcome JobStateError Result
unfolding poll
cancel_running rt grace now later i r = elim (get i none r) [
  | none ↦ ok (at_once, none, r)
  | some j ↦
      if not (is_status j.status running) then ok (at_once, some j, r) else elim (cancel now j) [
        | raise e ↦ raise e
        | ok j' ↦
            let (stored, r') = add j' r in
            elim rt [
              | none ↦ ok (at_once, some stored, r')
              | some runtime ↦ ok (poll runtime grace later i grace (runtime.request_stop i r'))
            ]
      ]
]

-- The default cutoff is now.
unfoldable pub purge : ℕ → Option ℕ → Repo → ℕ × Repo
purge now before r = purge_completed (elim before [ none ↦ now | some t ↦ t ]) none r
