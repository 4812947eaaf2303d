-- ===== src/Projections/Schema/Order.antt =====
-- The result of `get_initialization_order` of projections/schema.py of
-- packages/advanced/src/cqrs_ddd_advanced_core, on schemas without a circle.
use cqrs_ddd.Common.{
  ℕ, refl, true, All, List, Option, contains, suc, Bool-cases, arith, ◌++◌, ◌<◌, ◌∷◌, ◌≡◌, [], inl,
  some, ◌==◌, append-nil, inr, subst, ==_refl, ==_iff, All-map, length, sym, ap, append_assoc,
}
use cqrs_ddd.Projections.Schema.{
  Schemas, Visit, visit, enter, get_initialization_order, dependencies, visit_each, names,
  result_of, all_names, new_visit,
}
use cqrs_ddd.Projections.Schema.Visits.{
  Moves, IsWithin, Steps, the_visit, and_visit-some, appended-some, visit-Steps, visit_each-Steps,
  enter-IsWithin,
}
use Prim.Native.Nat.{zero}
use mathlib.Core.Option.{none}
use cqrs_ddd.Projections.Schema.Ends.{get_initialization_order_once, new_visit-IsWithin}
use cqrs_ddd.Common.Distinct.{IsDistinct, contains-append}

-- Behind the names that are done, every name stands behind all that it depends on.
abbrev pub Ordered : Schemas → (done : List ℕ) → List ℕ → Type 0
Ordered g done [] = Unit
Ordered g done (n ∷ ns) =
    All (λ t. contains done t ≡ true) (dependencies g n) × Ordered g (done ++ n ∷ []) ns

Ordered-append :
    (g : Schemas) (done ns : List ℕ) (n : ℕ)
    → Ordered g done ns
    → All (λ t. contains (done ++ ns) t ≡ true) (dependencies g n)
    → Ordered g done (ns ++ n ∷ [])
Ordered-append g done [] n o all = (rw (append-nil done) at all, tt)
Ordered-append g done (x ∷ xs) n o all = (
  o.0,
  Ordered-append g (done ++ x ∷ []) xs n o.1 (
      subst (λ ys. All (λ t. contains ys t ≡ true) (dependencies g n))
        (sym (append_assoc done (x ∷ []) xs)) all),
)

-- The schemas depend on others of a lower rank only.
abbrev pub Descends : Schemas → (ℕ → ℕ) → Type 0
Descends g rank = (n : ℕ) → All (λ t. rank t < rank n) (dependencies g n)

-- What was visited below a rank stands in the result.
abbrev Settled : (ℕ → ℕ) → Visit → ℕ → Type 0
Settled rank s b = (k : ℕ) → contains s.visited k ≡ true → rank k < b → contains s.result k ≡ true

-- What was visited up to the rank of each of these names stands in the result.
abbrev AllSettled : (ℕ → ℕ) → Visit → List ℕ → Type 0
AllSettled rank s ns = All (λ n. Settled rank s (suc (rank n))) ns

Settled-Moves :
    (rank : ℕ → ℕ) (s t : Visit) (b : ℕ) → Moves s t → Settled rank s b → Settled rank t b
Settled-Moves rank s t b m settled k h low = ground (arith, m k, settled k)

Settled-enter :
    (rank : ℕ → ℕ) (n : ℕ) (s : Visit)
    → Settled rank s (suc (rank n))
    → Settled rank (enter n s) (rank n)
Settled-enter rank n s settled k h low = elim (Bool-cases (n == k)) [
  | inl e ↦
      absurd
        (let q : n ≡ k = (==_iff n k).0 e in let r : rank n ≡ rank k = ap rank q in omega arith)
  | inr e ↦ settled k (rw e at h) (omega arith)
]

-- What a visit of a name comes to.
abbrev Places : Schemas → (ℕ → ℕ) → (ℕ → Visit → Option Visit) → Type 0
Places g rank visit_one =
    (n : ℕ) (s t : Visit)
    → IsWithin s
    → Settled rank s (suc (rank n))
    → Ordered g [] s.result
    → visit_one n s ≡ some t
    → (contains t.result n ≡ true) × Ordered g [] t.result

visit_each-Places :
    (g : Schemas) (rank : ℕ → ℕ) (visit_one : ℕ → Visit → Option Visit)
    → Steps visit_one
    → Places g rank visit_one
    → (ns : List ℕ) (s t : Visit) → IsWithin s
    → AllSettled rank s ns
    → Ordered g [] s.result
    → visit_each visit_one ns s ≡ some t
    → All (λ n. contains t.result n ≡ true) ns × Ordered g [] t.result
visit_each-Places g rank v step place [] s t w settled o h =
    (tt, subst (λ u. Ordered g [] u.result) (the_visit s t h) o)
visit_each-Places g rank v step place (n ∷ ns) s t w settled o h =
    let (u, first, rest) = and_visit-some (visit_each v ns) (v n s) t h in
    let (m, w1) = step n s u w first in
    let (m1, _) = visit_each-Steps v step ns u t w1 rest in
    let (here, o1) = place n s u w settled.0 o first in
    let later : AllSettled rank u ns =
      All-map ns (λ k. Settled-Moves rank s u (suc (rank k)) m) settled.1 in
    let (all, o2) = visit_each-Places g rank v step place ns u t w1 later o1 rest in
    ((ground (arith, m1 n), all), o2)

visit-Places :
    (g : Schemas) (rank : ℕ → ℕ) → Descends g rank → (fuel : ℕ) → Places g rank (visit g fuel)
unfolding visit
visit-Places g rank descends zero n s t w settled o h = cc
visit-Places g rank descends (suc fuel) n s t w settled o h =
    elim (Bool-cases (contains s.visited n)) [
      | inl e ↦
          subst (λ u. (contains u.result n ≡ true) × Ordered g [] u.result)
            (the_visit s t (rw e at h)) (settled n e (omega arith), o)
      | inr e ↦
          let (u, inner, out) =
            appended-some n (visit_each (visit g fuel) (dependencies g n) (enter n s)) t
              (rw e at h) in
          let low = Settled-enter rank n s settled in
          let all_low : AllSettled rank (enter n s) (dependencies g n) =
            All-map (dependencies g n) (λ t less k c l. low k c (omega arith)) (descends n) in
          let (all, o1) =
            visit_each-Places g rank (visit g fuel) (visit-Steps g fuel)
              (visit-Places g rank descends fuel) (dependencies g n) (enter n s) u
              (enter-IsWithin n s w) all_low o inner in
          rw out (
            ground (arith, ==_refl n, contains-append u.result (n ∷ []) n),
            Ordered-append g [] u.result n o1 all,
          )
    ]

result_of-some :
    (o : Option Visit) (os : List ℕ)
    → result_of o ≡ some os
    → (t : Visit) × (o ≡ some t) × (t.result ≡ os)
result_of-some none os h = cc
result_of-some (some t) os h = (t, refl, cc)

tabulate {ℓ κ} : {A : Type ℓ} {P : A → Type κ} (xs : List A) → ((x : A) → P x) → All P xs
tabulate [] p = tt
tabulate (x ∷ xs) p = (p x, tabulate xs p)

-- On schemas of which each depends on schemas of a lower rank only, `get_initialization_order`
-- returns an order in which each name stands behind all that it depends on; every registered schema
-- stands in it, and no name twice.
pub get_initialization_order-Ordered :
    (g : Schemas) (rank : ℕ → ℕ)
    → Descends g rank
    → (os : List ℕ) × (get_initialization_order g ≡ some os)
      × Ordered g [] os
      × IsDistinct os
      × All (λ n. contains os n ≡ true) (names g)
unfolding get_initialization_order
get_initialization_order-Ordered g rank descends =
    let fuel = suc (length (all_names g)) in
    let (os, came, distinct, all) = get_initialization_order_once g in
    let (t, ran, same) = result_of-some (visit_each (visit g fuel) (names g) new_visit) os came in
    let none_visited : AllSettled rank new_visit (names g) = tabulate (names g) (λ n k c. cc) in
    let (_, o) =
      visit_each-Places g rank (visit g fuel) (visit-Steps g fuel)
        (visit-Places g rank descends fuel) (names g) new_visit t new_visit-IsWithin none_visited tt
        ran in
    (os, came, subst (Ordered g []) same o, distinct, all)
