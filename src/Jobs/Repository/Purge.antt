-- ===== src/Jobs/Repository/Purge.antt =====
-- What purging deletes.
use cqrs_ddd.Common.Dict.{lookup, erase, values, IsUnique}
use cqrs_ddd.Jobs.Repository.{Repo, Spec, purgeable, selected, erase_all, purge_completed}
use cqrs_ddd.Common.{
  List, ℕ, length, ◌≡◌, Bool, contains, filter, none, false, not, ◌∷◌, arith, refl,
}
use cqrs_ddd.Jobs.Entity.{Job}
use mathlib.Core.List.{[]}

abbrev purges : ℕ → Spec → ℕ × Job → Bool
purges before spec e = purgeable before spec e.1

erase_all-cons :
    (ids : List ℕ) (i : ℕ) (j : Job) (r : Repo)
    → contains ids i ≡ false
    → erase_all ids ((i, j) ∷ r) ≡ (i, j) ∷ erase_all ids r
unfolding erase_all
erase_all-cons [] i j r h = refl
erase_all-cons (k ∷ ids) i j r h = ground (arith, erase_all-cons ids i j (erase k r))

not-selected :
    (before : ℕ) (spec : Spec) (i : ℕ) (r : Repo)
    → lookup i r ≡ none
    → contains (selected before spec r) i ≡ false
unfolding selected
not-selected before spec i [] h = refl
not-selected before spec i ((k, j) ∷ r) h = ground (arith, not-selected before spec i r)

erase_all-selected :
    (before : ℕ) (spec : Spec) (r : Repo)
    → IsUnique r
    → erase_all (selected before spec r) r ≡ filter (λ e. not (purges before spec e)) r
unfolding erase_all selected
erase_all-selected before spec [] u = refl
erase_all-selected before spec ((i, j) ∷ r) u = ground (
  arith,
  erase_all-selected before spec r u.1,
  erase_all-cons (selected before spec r) i j r,
  not-selected before spec i r u.0,
)

length-selected :
    (before : ℕ) (spec : Spec) (r : Repo)
    → length (selected before spec r) ≡ length (filter (purgeable before spec) (values r))
unfolding selected
length-selected before spec [] = refl
length-selected before spec ((i, j) ∷ r) = ground (arith, length-selected before spec r)

-- In a repository where no key stands twice, purging returns the number of jobs that are COMPLETED
-- or CANCELLED, older than the cutoff and satisfy the specification, deletes those entries, and
-- keeps every other one in its place.
pub purge_completed-eq :
    (before : ℕ) (spec : Spec) (r : Repo)
    → IsUnique r
    → purge_completed before spec r ≡ (
      length (filter (purgeable before spec) (values r)),
      filter (λ e. not (purgeable before spec e.1)) r,
    )
unfolding purge_completed
purge_completed-eq before spec r u =
    cc (length-selected before spec r, erase_all-selected before spec r u)
