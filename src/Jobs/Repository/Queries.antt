-- ===== src/Jobs/Repository/Queries.antt =====
-- What the queries of the in-memory repository return.
use cqrs_ddd.Common.Dict.{values}
use cqrs_ddd.Common.Sort.{IsSorted, sort_by-IsSorted, take-IsSorted, drop-IsSorted, All-sort_by}
use cqrs_ddd.Jobs.Repository.{Repo, Spec, newer, among, satisfies, find_by_status}
use cqrs_ddd.Common.{
  List, ◌≡◌, false, true, ℕ, All, arith, ◌++◌, ◌+◌, filter, All-take, All-drop, take-append_page,
  filter_sound_with, filter_sound,
}
use cqrs_ddd.Jobs.Entity.{Job, Status}

newer_total : (j k : Job) → newer j k ≡ false → newer k j ≡ true
newer_total j k h = ground arith

newer_trans : (i j k : Job) → newer i j ≡ true → newer j k ≡ true → newer i k ≡ true
newer_trans i j k p q = ground arith

-- A page holds only stored jobs with a listed status that satisfy the specification, the most
-- recently updated first, and the page that starts where it ends continues it to the longer page.
pub find_by_status_page :
    (statuses : List Status) (n m k : ℕ) (spec : Spec) (r : Repo)
    → IsSorted newer (find_by_status statuses n m spec r)
      × All
          (λ j. (among statuses j ≡ true) × (satisfies spec j ≡ true))
          (find_by_status statuses n m spec r)
      × (find_by_status statuses n m spec r ++ find_by_status statuses k (m + n) spec r
          ≡ find_by_status statuses (n + k) m spec r)
unfolding find_by_status
find_by_status_page statuses n m k spec r = (
  take-IsSorted newer n _
      (drop-IsSorted newer m _ (sort_by-IsSorted newer newer_total newer_trans _)),
  All-take _ n _ (All-drop _ m _ (All-sort_by newer _ _ matching)),
  take-append_page n m k _,
)
  where
    matching :
        All
          (λ j. (among statuses j ≡ true) × (satisfies spec j ≡ true))
          (filter (satisfies spec) (filter (among statuses) (values r)))
    matching = filter_sound_with _ (satisfies spec) _ (filter_sound (among statuses) (values r))
