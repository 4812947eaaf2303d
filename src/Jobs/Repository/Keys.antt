-- ===== src/Jobs/Repository/Keys.antt =====
-- The invariant of the repository: every job is stored once, under its own identifier.
use cqrs_ddd.Common.Dict.{
  lookup, insert, erase, IsUnique, insert-IsUnique, erase-IsUnique, lookup-insert, lookup-erase,
}
use cqrs_ddd.Jobs.Repository.{Repo, add, get, delete}
use cqrs_ddd.Common.{ℕ, none, ◌≡◌, if◌then◌else◌, refl, some, ◌==◌, arith, [], ◌∷◌}
use cqrs_ddd.Jobs.Entity.{Job}

abbrev pub IsKeyed : Repo → Type 0
IsKeyed [] = Unit
IsKeyed ((i, j) ∷ r) = (j.id ≡ i) × IsKeyed r

pub lookup-IsKeyed : (i : ℕ) (j : Job) (r : Repo) → IsKeyed r → lookup i r ≡ some j → j.id ≡ i
lookup-IsKeyed i j [] k e = cc
lookup-IsKeyed i j ((m, x) ∷ r) k e = ground (arith, lookup-IsKeyed i j r k.1)

pub insert-IsKeyed : (i : ℕ) (j : Job) (r : Repo) → j.id ≡ i → IsKeyed r → IsKeyed (insert i j r)
insert-IsKeyed i j [] e k = (e, tt)
insert-IsKeyed i j ((m, x) ∷ r) e k = ground (arith, insert-IsKeyed i j r e k.1)

erase-IsKeyed : (i : ℕ) (r : Repo) → IsKeyed r → IsKeyed (erase i r)
erase-IsKeyed i [] k = tt
erase-IsKeyed i ((m, x) ∷ r) k = ground (arith, erase-IsKeyed i r k.1)

pub add-IsKeyed : (j : Job) (r : Repo) → IsKeyed r → IsKeyed (add j r).1
unfolding add
add-IsKeyed j r k = insert-IsKeyed j.id _ r refl k

-- Adding and deleting keep the invariant; an added job is found under its identifier with the next
-- version, a job deleted without a specification is not found, and other identifiers keep their
-- entries.
pub add-delete :
    (j : Job) (i k : ℕ) (r : Repo)
    → IsKeyed r
    → IsUnique r
    → (IsKeyed (add j r).1 × IsUnique (add j r).1)
      × (IsKeyed (delete i none r) × IsUnique (delete i none r))
      × (get k none (add j r).1 ≡ (if j.id == k then some (add j r).0 else get k none r))
      × (get k none (delete i none r) ≡ (if i == k then none else get k none r))
unfolding add delete get
add-delete j i k r keyed unique = (
  (insert-IsKeyed j.id _ r refl keyed, insert-IsUnique j.id _ r unique),
  (erase-IsKeyed i r keyed, erase-IsUnique i r unique),
  ground (arith, lookup-insert j.id k (add j r).0 r),
  ground (arith, lookup-erase i k r unique),
)
