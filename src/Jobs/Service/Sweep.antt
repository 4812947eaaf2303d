-- ===== src/Jobs/Service/Sweep.antt =====
-- Sweeping fails every stale job, and no other.
use cqrs_ddd.Common.Dict.{lookup, insert, lookup-insert, IsUnique, values}
use cqrs_ddd.Jobs.Entity.{Job, fail, timed_out, is_status, running}
use cqrs_ddd.Jobs.Repository.{Repo, add, is_stale, get_stale_jobs}
use cqrs_ddd.Jobs.Service.{sweep, process_stale_jobs}
use cqrs_ddd.Common.{
  List, ℕ, Option, some, ◌∷◌, [], if◌then◌else◌, none, ◌≡◌, refl, arith, All, true, ◌+◌, length,
  All-map, filter_sound, ◌∙◌,
}
use cqrs_ddd.Common.Outcome.{ok, raise}
use cqrs_ddd.Jobs.Repository.Keys.{IsKeyed}

-- Jobs under their identifiers.
abbrev by_id : List Job → Repo
by_id [] = []
by_id (j ∷ js) = (j.id, j) ∷ by_id js

-- What sweeping makes of a job: failed with the timeout message, an event, and stored once more.
abbrev pub swept : ℕ → ℕ → Job → Job
swept timeout now j = elim (fail (timed_out timeout) now j) [ ok j' ↦ (add j' []).0 | raise _ ↦ j ]

abbrev stale_in : ℕ → ℕ → Option Job → Option Job
stale_in timeout now none = none
stale_in timeout now (some j) = if is_stale now (some timeout) j then some j else none

lookup-stale :
    (timeout now i : ℕ) (r : Repo)
    → IsKeyed r
    → IsUnique r
    → lookup i (by_id (get_stale_jobs now (some timeout) none r))
      ≡ stale_in timeout now (lookup i r)
unfolding get_stale_jobs
lookup-stale timeout now i [] k u = refl
lookup-stale timeout now i ((m, j) ∷ r) k u = ground (arith, lookup-stale timeout now i r k.1 u.1)

stale-IsUnique :
    (timeout now : ℕ) (r : Repo)
    → IsKeyed r
    → IsUnique r
    → IsUnique (by_id (get_stale_jobs now (some timeout) none r))
unfolding get_stale_jobs
stale-IsUnique timeout now [] k u = tt
stale-IsUnique timeout now ((m, j) ∷ r) k u =
    ground (arith, stale-IsUnique timeout now r k.1 u.1, lookup-stale timeout now m r k.1 u.1)

-- The loop, over jobs that are all RUNNING and have different identifiers.
lookup-sweep :
    (timeout now i : ℕ) (js : List Job) (n : ℕ) (r : Repo)
    → All (λ j. is_status j.status running ≡ true) js
    → IsUnique (by_id js)
    → lookup i (sweep timeout now js (n, r)).1
      ≡ elim (lookup i (by_id js)) [ none ↦ lookup i r | some j ↦ some (swept timeout now j) ]
unfolding sweep fail add
lookup-sweep timeout now i [] n r a u = refl
lookup-sweep timeout now i (j ∷ js) n r a u = ground (
  arith,
  lookup-sweep timeout now i js (n + 1) (insert j.id (swept timeout now j) r) a.1 u.1,
  lookup-insert j.id i (swept timeout now j) r,
)

count-sweep :
    (timeout now : ℕ) (js : List Job) (n : ℕ) (r : Repo)
    → All (λ j. is_status j.status running ≡ true) js
    → (sweep timeout now js (n, r)).0 ≡ n + length js
unfolding sweep fail add
count-sweep timeout now [] n r a = omega arith
count-sweep timeout now (j ∷ js) n r a =
    ground (arith, count-sweep timeout now js (n + 1) (insert j.id (swept timeout now j) r) a.1)

stale_running :
    (timeout now : ℕ) (r : Repo)
    → All (λ j. is_status j.status running ≡ true) (get_stale_jobs now (some timeout) none r)
unfolding get_stale_jobs is_stale
stale_running timeout now r = All-map _ (λ j h. ground arith) (filter_sound _ (values r))

-- Where the jobs stand under their own identifiers and no key stands twice, sweeping returns the
-- number of stale jobs, fails each of them with the timeout message and leaves every other entry as
-- it is.
pub process_stale_jobs_lem :
    (timeout now : ℕ) (r : Repo)
    → IsKeyed r
    → IsUnique r
    → ((process_stale_jobs timeout now r).0 ≡ length (get_stale_jobs now (some timeout) none r))
      × ((i : ℕ)
          → lookup i (process_stale_jobs timeout now r).1 ≡ elim (lookup i r) [
            | none ↦ none
            | some j ↦ some (if is_stale now (some timeout) j then swept timeout now j else j)
          ])
unfolding process_stale_jobs
process_stale_jobs_lem timeout now r k u = (
  count-sweep timeout now _ 0 r (stale_running timeout now r) ∙ omega arith,
  λ i. ground (
    arith,
    lookup-sweep timeout now i (get_stale_jobs now (some timeout) none r) 0 r
        (stale_running timeout now r) (stale-IsUnique timeout now r k u),
    lookup-stale timeout now i r k u,
  ),
)
