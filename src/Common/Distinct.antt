-- ===== src/Common/Distinct.antt =====
-- Lists of numbers without repetitions.
use mathlib.Core.Path.{◌≡◌, refl, sym, ◌∙◌, subst}
use mathlib.Core.Logic.{inl, inr}
use mathlib.Core.Bool.{false, ◌||◌}
use mathlib.Core.List.{List, [], ◌∷◌, ◌++◌, append-nil, append_assoc}
use Prim.Native.Nat.{ℕ}
use native.Mathlib.Omega.{arith}
use cqrs_ddd.Common.Tests.{if◌then◌else◌, Bool-cases}
use cqrs_ddd.Common.Lists.{contains}

-- No number stands twice.
abbrev pub IsDistinct : List ℕ → Type 0
IsDistinct [] = Unit
IsDistinct (x ∷ xs) = (contains xs x ≡ false) × IsDistinct xs

pub contains-append :
    (xs ys : List ℕ) (k : ℕ) → contains (xs ++ ys) k ≡ (contains xs k || contains ys k)
contains-append [] ys k = refl
contains-append (x ∷ xs) ys k = ground (arith, contains-append xs ys k)

pub append-IsDistinct :
    (xs : List ℕ) (n : ℕ) → contains xs n ≡ false → IsDistinct xs → IsDistinct (xs ++ n ∷ [])
append-IsDistinct [] n h d = (refl, tt)
append-IsDistinct (x ∷ xs) n h d =
    ground (arith, contains-append xs (n ∷ []) x, append-IsDistinct xs n)

-- A number is added at the end, unless it is there.
abbrev pub add_new : ℕ → List ℕ → List ℕ
add_new h hs = if contains hs h then hs else hs ++ h ∷ []

-- One after the other, each one that is not there yet.
abbrev pub added : List ℕ → List ℕ → List ℕ
added [] hs = hs
added (h ∷ xs) hs = added xs (add_new h hs)

add_new-IsDistinct : (h : ℕ) (hs : List ℕ) → IsDistinct hs → IsDistinct (add_new h hs)
add_new-IsDistinct h hs d = elim (Bool-cases (contains hs h)) [
  | inl e ↦ rw e d
  | inr e ↦ rw e (append-IsDistinct hs h e d)
]

pub added-IsDistinct : (xs hs : List ℕ) → IsDistinct hs → IsDistinct (added xs hs)
added-IsDistinct [] hs d = d
added-IsDistinct (x ∷ xs) hs d = added-IsDistinct xs (add_new x hs) (add_new-IsDistinct x hs d)

absent_before :
    (hs : List ℕ) (x : ℕ) (xs : List ℕ) → IsDistinct (hs ++ x ∷ xs) → contains hs x ≡ false
absent_before [] x xs d = refl
absent_before (y ∷ ys) x xs d =
    ground (arith, contains-append ys (x ∷ xs) y, absent_before ys x xs d.1)

-- What is distinct is added as it is.
pub added-append : (hs xs : List ℕ) → IsDistinct (hs ++ xs) → added xs hs ≡ hs ++ xs
added-append hs [] d = sym (append-nil hs)
added-append hs (x ∷ xs) d =
    let new = absent_before hs x xs d in
    rw new (
      added-append (hs ++ x ∷ []) xs (subst IsDistinct (sym (append_assoc hs (x ∷ []) xs)) d)
      ∙ append_assoc hs (x ∷ []) xs)
