-- ===== src/Jobs/Repository.antt =====
-- `InMemoryBackgroundJobRepository` of adapters/memory/background_jobs.py. A specification is the
-- test that `is_satisfied_by` makes; `none` stands for a call without one.
pub mod Queries
pub mod Keys
pub mod Counts
pub mod Purge
use cqrs_ddd.Common.Dict.{Dict, lookup, insert, erase, values}
use cqrs_ddd.Common.Sort.{sort_by}
use cqrs_ddd.Jobs.Entity.{Job, Status, is_status, completed, pending, running, failed, cancelled}
use cqrs_ddd.Common.{
  Bool, List, Option, ℕ, ◌+◌, [], any, filter, leb, length, some, take, true, ◌∷◌, drop,
  if◌then◌else◌, ◌&&◌, ◌||◌, contains, false, ltb,
}
use mathlib.Core.Option.{none}

abbrev pub Repo : Type 0
Repo = Dict Job

abbrev pub Spec : Type 0
Spec = Option (Job → Bool)

abbrev pub satisfies : Spec → Job → Bool
satisfies none j = true
satisfies (some p) j = p j

-- The stored object is the caller's, so the caller sees the new version too.
unfoldable pub add : Job → Repo → Job × Repo
add j r = let j' = record j { version = j.version + 1 } in (j', insert j.id j' r)

unfoldable pub get : ℕ → Spec → Repo → Option Job
get i spec r = elim (lookup i r) [
  | none ↦ none
  | some j ↦ if satisfies spec j then some j else none
]

unfoldable pub delete : ℕ → Spec → Repo → Repo
delete i none r = erase i r
delete i (some p) r = elim (lookup i r) [ none ↦ erase i r | some j ↦ if p j then erase i r else r ]

-- The jobs whose key is one of the listed ones.
abbrev keyed : List ℕ → Repo → List Job
keyed ids [] = []
keyed ids ((i, j) ∷ r) = if contains ids i then j ∷ keyed ids r else keyed ids r

unfoldable pub list_all : Option (List ℕ) → Spec → Repo → List Job
list_all none spec r = filter (satisfies spec) (values r)
list_all (some ids) spec r = filter (satisfies spec) (keyed ids r)

unfoldable pub search : (Job → Bool) → Repo → List Job
search p r = filter p (values r)

-- `elapsed > timeout`, for a job in the RUNNING state. The default timeout is an hour.
unfoldable pub is_stale : ℕ → Option ℕ → Job → Bool
is_stale now timeout j =
    is_status j.status running && ltb (j.updated_at + elim timeout [ none ↦ 3600 | some t ↦ t ]) now

unfoldable pub get_stale_jobs : ℕ → Option ℕ → Spec → Repo → List Job
get_stale_jobs now timeout spec r =
    filter (λ j. is_stale now timeout j && satisfies spec j) (values r)

-- `j.status in status_set`
abbrev pub among : List Status → Job → Bool
among statuses j = any (is_status j.status) statuses

-- The newest first; `reverse=True` keeps the order of equal ones.
abbrev pub newer : Job → Job → Bool
newer j k = leb k.updated_at j.updated_at

unfoldable pub find_by_status : List Status → ℕ → ℕ → Spec → Repo → List Job
find_by_status statuses limit offset spec r =
    take limit
      (drop offset (sort_by newer (filter (satisfies spec) (filter (among statuses) (values r)))))

-- `status.value`, as a key
abbrev pub value : Status → ℕ
value pending = 0
value running = 1
value completed = 2
value failed = 3
value cancelled = 4

-- `counts[key] = counts.get(key, 0) + 1`
abbrev count_one : ℕ → Dict ℕ → Dict ℕ
count_one k counts = insert k (elim (lookup k counts) [ none ↦ 0 | some n ↦ n ] + 1) counts

count_from : List Job → Spec → Dict ℕ → Dict ℕ
count_from [] spec counts = counts
count_from (j ∷ js) spec counts =
    count_from js spec (if satisfies spec j then count_one (value j.status) counts else counts)

unfoldable pub count_by_status : Spec → Repo → Dict ℕ
unfolding count_from
count_by_status spec r = count_from (values r) spec []

unfoldable pub is_cancellation_requested : ℕ → Repo → Bool
is_cancellation_requested i r = elim (lookup i r) [
  | none ↦ false
  | some j ↦ is_status j.status cancelled
]

-- What `purge_completed` selects: COMPLETED or CANCELLED, and last updated before the cutoff.
unfoldable pub purgeable : ℕ → Spec → Job → Bool
purgeable before spec j =
    (is_status j.status completed || is_status j.status cancelled)
    && ltb j.updated_at before
    && satisfies spec j

selected : ℕ → Spec → Repo → List ℕ
selected before spec [] = []
selected before spec ((i, j) ∷ r) =
    if purgeable before spec j then i ∷ selected before spec r else selected before spec r

erase_all : List ℕ → Repo → Repo
erase_all [] r = r
erase_all (i ∷ is) r = erase_all is (erase i r)

unfoldable pub purge_completed : ℕ → Spec → Repo → ℕ × Repo
unfolding selected erase_all
purge_completed before spec r = let ids = selected before spec r in (length ids, erase_all ids r)
