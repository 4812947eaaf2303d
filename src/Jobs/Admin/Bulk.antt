-- ===== src/Jobs/Admin/Bulk.antt =====
-- The bulk operations: what they count and what they leave behind.
use cqrs_ddd.Common.Dict.{lookup, lookup-insert}
use cqrs_ddd.Jobs.Entity.{Job, JobStateError, cancel, retry}
use cqrs_ddd.Jobs.Repository.{Repo, add, get}
use cqrs_ddd.Jobs.Repository.Keys.{IsKeyed, lookup-IsKeyed, insert-IsKeyed}
use cqrs_ddd.Jobs.Admin.{attempt, attempt_each, cancellable, retryable, bulk_cancel, bulk_retry}
use cqrs_ddd.Common.{
  Bool, Option, some, if◌then◌else◌, ℕ, ◌≡◌, List, arith, true, ◌+◌, false, length, ◌==◌,
  Option-cases, contains, inl, ◌∷◌, inr, Bool-cases, refl, ◌||◌, ◌∙◌, ap,
}
use cqrs_ddd.Common.Outcome.{Outcome, ok, raise, is_ok, is_ok_some}
use mathlib.Core.Option.{none}
use mathlib.Core.List.{[]}

abbrev pub map_option {ℓ κ} : {A : Type ℓ} {B : Type κ} → (A → B) → Option A → Option B
map_option f none = none
map_option f (some a) = some (f a)

-- What a loop makes of one job: an admitted one makes the transition and is stored once more.
abbrev pub moved : (Job → Bool) → (Job → Outcome JobStateError Job) → Job → Job
moved admits f j =
    if admits j
    then elim (f j) [ ok j' ↦ record j' { version = j'.version + 1 } | raise _ ↦ j ]
    else j

-- What a loop asks of its test and its transition: an admitted job makes the transition, keeps its
-- identifier, and is not admitted again.
record IsOnce (admits : Job → Bool) (f : Job → Outcome JobStateError Job) : Type 0 where
  succeeds : (j : Job) → admits j ≡ true → is_ok (f j) ≡ true
  keeps_id : (j : Job) → (moved admits f j).id ≡ j.id
  once : (j : Job) → admits (moved admits f j) ≡ false

module _ (admits : Job → Bool) (f : Job → Outcome JobStateError Job) (o : IsOnce admits f) where
  abbrev updated : Bool → Option Job → Option Job
  updated b x = if b then map_option (moved admits f) x else x

  -- One round: exactly one counter goes up, and only the entry of this job changes.
  attempt_lem :
      (i k a b : ℕ) (r : Repo)
      → IsKeyed r
      → let (a', b', r') = attempt admits f i (a, b, r) in
        (a' + b' ≡ a + b + 1) × IsKeyed r' × (lookup k r' ≡ updated (i == k) (lookup k r))
  unfolding attempt get add
  attempt_lem i k a b r keyed = elim (Option-cases (lookup i r)) [
    | inl e ↦ ground arith
    | inr (j, e) ↦ elim (Bool-cases (admits j)) [
      | inl t ↦
          let (j', s) = is_ok_some (f j) (o.succeeds j t) in
          ground (
            arith,
            o.keeps_id j,
            lookup-IsKeyed i j r keyed e,
            insert-IsKeyed j'.id (moved admits f j) r,
            lookup-insert j'.id k (moved admits f j) r,
          )
      | inr t ↦ ground arith
    ]
  ]

  moved_idem : (j : Job) → moved admits f (moved admits f j) ≡ moved admits f j
  moved_idem j = ground (arith, o.once j)

  updated_twice : (a b : Bool) (x : Option Job) → updated b (updated a x) ≡ updated (a || b) x
  updated_twice true true (some j) = ap some (moved_idem j)
  updated_twice true false (some j) = refl
  updated_twice false b (some j) = refl
  updated_twice true true none = refl
  updated_twice true false none = refl
  updated_twice false b none = refl

  attempt_each_lem :
      (k : ℕ) (is : List ℕ) (a b : ℕ) (r : Repo)
      → IsKeyed r
      → let (a', b', r') = attempt_each admits f is (a, b, r) in
        (a' + b' ≡ a + b + length is) × (lookup k r' ≡ updated (contains is k) (lookup k r))
  unfolding attempt_each
  attempt_each_lem k [] a b r keyed = (omega arith, refl)
  attempt_each_lem k (i ∷ is) a b r keyed =
      let (a', b', r') = attempt admits f i (a, b, r) in
      let (total, keyed', entry) = attempt_lem i k a b r keyed in
      let (total', entry') = attempt_each_lem k is a' b' r' keyed' in
      (
        omega (arith, total, total'),
        entry'
            ∙ ap (updated (contains is k)) entry
            ∙ updated_twice (i == k) (contains is k) (lookup k r),
      )

cancel-IsOnce : (now : ℕ) → IsOnce cancellable (cancel now)
unfolding cancellable cancel
cancel-IsOnce now = record {
  succeeds = λ j h. ground arith;
  keeps_id = λ j. ground arith;
  once = λ j. ground arith;
}

retry-IsOnce : (now : ℕ) → IsOnce retryable (retry now)
unfolding retryable retry
retry-IsOnce now = record {
  succeeds = λ j h. ground arith;
  keeps_id = λ j. ground arith;
  once = λ j. ground arith;
}

-- With every job under its own identifier, a bulk cancellation counts every listed identifier once,
-- as cancelled or as skipped; each listed job that was neither COMPLETED nor CANCELLED is cancelled,
-- and every other entry stays as it is. Identifiers may be listed twice.
pub bulk_cancel_lem :
    (now k : ℕ) (ids : List ℕ) (r : Repo)
    → IsKeyed r
    → let (done, skipped, r') = bulk_cancel now ids r in
      (done + skipped ≡ length ids)
      × (lookup k r' ≡ (
          if contains ids k
          then map_option (moved cancellable (cancel now)) (lookup k r)
          else lookup k r))
unfolding bulk_cancel
bulk_cancel_lem now k ids r keyed =
    ground (arith, attempt_each_lem cancellable (cancel now) (cancel-IsOnce now) k ids 0 0 r keyed)

-- With every job under its own identifier, a bulk retry counts every listed identifier once, as
-- retried or as skipped; each listed job that is FAILED with retries left is retried, once even if
-- it is listed twice, and every other entry stays as it is.
pub bulk_retry_lem :
    (now k : ℕ) (ids : List ℕ) (r : Repo)
    → IsKeyed r
    → let (done, skipped, r') = bulk_retry now ids r in
      (done + skipped ≡ length ids)
      × (lookup k r' ≡ (
          if contains ids k
          then map_option (moved retryable (retry now)) (lookup k r)
          else lookup k r))
unfolding bulk_retry
bulk_retry_lem now k ids r keyed =
    ground (arith, attempt_each_lem retryable (retry now) (retry-IsOnce now) k ids 0 0 r keyed)
