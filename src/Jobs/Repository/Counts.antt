-- ===== src/Jobs/Repository/Counts.antt =====
-- The counts by status: every job is counted once, under its own status.
use cqrs_ddd.Common.Dict.{Dict, lookup, insert, values, lookup-insert}
use cqrs_ddd.Jobs.Entity.{Job, Status, is_status}
use cqrs_ddd.Jobs.Repository.{Repo, Spec, value, satisfies, count_one, count_from, count_by_status}
use cqrs_ddd.Common.{List, ℕ, ◌≡◌, none, ◌+◌, ◌==◌, ◌∷◌, arith, length, some, filter, if◌then◌else◌}
use mathlib.Core.List.{[]}

-- `counts.get(key, 0)`
abbrev pub count : ℕ → Dict ℕ → ℕ
count k counts = elim (lookup k counts) [ none ↦ 0 | some n ↦ n ]

-- `sum(counts.values())`
abbrev pub sum : List ℕ → ℕ
sum [] = 0
sum (n ∷ ns) = n + sum ns

is_status-value : (s t : Status) → is_status s t ≡ (value s == value t)
is_status-value s t = ground arith

sum-insert : (k n : ℕ) (d : Dict ℕ) → sum (values (insert k (count k d + n) d)) ≡ sum (values d) + n
sum-insert k n [] = omega arith
sum-insert k n ((i, m) ∷ d) = ground (arith, sum-insert k n d)

count-insert : (k n i : ℕ) (d : Dict ℕ) → count i (insert k n d) ≡ (if k == i then n else count i d)
count-insert k n i d = ground (arith, lookup-insert k i n d)

sum-count_from :
    (js : List Job) (spec : Spec) (d : Dict ℕ)
    → sum (values (count_from js spec d)) ≡ sum (values d) + length (filter (satisfies spec) js)
unfolding count_from
sum-count_from [] spec d = omega arith
sum-count_from (j ∷ js) spec d = ground (
  arith,
  sum-count_from js spec d,
  sum-count_from js spec (count_one (value j.status) d),
  sum-insert (value j.status) 1 d,
)

count-count_from :
    (s : Status) (js : List Job) (spec : Spec) (d : Dict ℕ)
    → count (value s) (count_from js spec d)
      ≡ count (value s) d + length (filter (λ j. is_status j.status s) (filter (satisfies spec) js))
unfolding count_from
count-count_from s [] spec d = omega arith
count-count_from s (j ∷ js) spec d =
    let one = count (value j.status) d + 1 in
    let counted = insert (value j.status) one d in
    ground (
      arith,
      is_status-value j.status s,
      count-insert (value j.status) one (value s) d,
      count-count_from s js spec counted,
      count-count_from s js spec d,
    )

-- Every job that satisfies the specification is counted once: the counts add up to their number,
-- and the count under each status is the number of those jobs that have it.
pub count_by_status-eq :
    (spec : Spec) (r : Repo)
    → (sum (values (count_by_status spec r)) ≡ length (filter (satisfies spec) (values r)))
      × ((s : Status)
          → count (value s) (count_by_status spec r)
            ≡ length (filter (λ j. is_status j.status s) (filter (satisfies spec) (values r))))
unfolding count_by_status
count_by_status-eq spec r = (
  omega (arith, sum-count_from (values r) spec []),
  λ s. omega (arith, count-count_from s (values r) spec []),
)
