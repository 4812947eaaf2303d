-- ===== src/Projections/Schema/Ends.antt =====
-- `get_initialization_order` of projections/schema.py of packages/advanced/src/cqrs_ddd_advanced_core
-- ends, also when schemas depend on each other in a circle.
use cqrs_ddd.Common.{
  ℕ, refl, true, false, List, All, Option, contains, length, filter, ◌≡◌, ◌≤◌, arith, not, ◌<◌,
  some, ◌∷◌, Bool-cases, suc, ap, inl, ◌==◌, inr, ◌∙◌, ==_refl, subst, sym, ==_iff, All-map,
  length-filter,
}
use cqrs_ddd.Projections.Schema.{
  Schemas, visit, Visit, enter, dependencies, visit_each, and_visit, append_result, appended,
  all_names, names, get_initialization_order, targets_of, result_of, new_visit,
}
use cqrs_ddd.Projections.Schema.Visits.{
  IsWithin, Moves, Steps, visit-Steps, enter-IsWithin, and_visit-some, appended-some,
  visit_each-Steps, the_visit,
}
use mathlib.Core.List.{[]}
use Prim.Native.Nat.{zero}
use cqrs_ddd.Common.Distinct.{IsDistinct, contains-append}

-- How many of the names were not visited.
abbrev pub unvisited : List ℕ → Visit → ℕ
unvisited us s = length (filter (λ k. not (contains s.visited k)) us)

unvisited-Moves : (us : List ℕ) (s t : Visit) → Moves s t → unvisited us t ≤ unvisited us s
unvisited-Moves [] s t m = omega arith
unvisited-Moves (u ∷ us) s t m = ground (arith, m u, unvisited-Moves us s t m)

unvisited-enter_le : (us : List ℕ) (n : ℕ) (s : Visit) → unvisited us (enter n s) ≤ unvisited us s
unvisited-enter_le [] n s = omega arith
unvisited-enter_le (u ∷ us) n s = ground (arith, unvisited-enter_le us n s)

unvisited-enter :
    (us : List ℕ) (n : ℕ) (s : Visit)
    → contains us n ≡ true
    → contains s.visited n ≡ false
    → unvisited us (enter n s) < unvisited us s
unvisited-enter [] n s here new = cc
unvisited-enter (u ∷ us) n s here new = elim (Bool-cases (u == n)) [
  | inl e ↦
      let new_u : contains s.visited u ≡ false =
        subst (λ k. contains s.visited k ≡ false) (sym ((==_iff u n).0 e)) new in
      let back : (n == u) ≡ true = ground arith in
      rw (back, new_u) (ground (arith, unvisited-enter_le us n s))
  | inr e ↦
      let back : (n == u) ≡ false = ground arith in
      let less = unvisited-enter us n s (rw e at here) new in rw back (ground (arith, less))
]

-- Every name that a listed name depends on is listed.
abbrev pub IsClosed : Schemas → List ℕ → Type 0
IsClosed g us = (n : ℕ) → All (λ t. contains us t ≡ true) (dependencies g n)

visit_each_ends :
    (us : List ℕ) (bound : ℕ) (visit_one : ℕ → Visit → Option Visit)
    → Steps visit_one
    → ((n : ℕ) (s : Visit)
        → IsWithin s
        → contains us n ≡ true
        → unvisited us s < bound
        → (t : Visit) × (visit_one n s ≡ some t))
    → (ns : List ℕ) (s : Visit) → IsWithin s
    → All (λ n. contains us n ≡ true) ns
    → unvisited us s < bound
    → (t : Visit) × (visit_each visit_one ns s ≡ some t)
visit_each_ends us bound v step ends [] s w listed few = (s, refl)
visit_each_ends us bound v step ends (n ∷ ns) s w listed few =
    let (t, first) = ends n s w listed.0 few in
    let (m, w1) = step n s t w first in
    let fewer = unvisited-Moves us s t m in
    let (u, rest) = visit_each_ends us bound v step ends ns t w1 listed.1 (omega arith) in
    (u, ap (and_visit (visit_each v ns)) first ∙ rest)

visit_ends :
    (g : Schemas) (us : List ℕ)
    → IsClosed g us
    → (fuel n : ℕ) (s : Visit) → IsWithin s
    → contains us n ≡ true
    → unvisited us s < fuel
    → (t : Visit) × (visit g fuel n s ≡ some t)
unfolding visit
visit_ends g us closed zero n s w listed few = absurd (omega arith)
visit_ends g us closed (suc fuel) n s w listed few = elim (Bool-cases (contains s.visited n)) [
  | inl e ↦ (s, rw e refl)
  | inr e ↦
      let fewer = unvisited-enter us n s listed e in
      let (t, inner) =
        visit_each_ends us fuel (visit g fuel) (visit-Steps g fuel) (visit_ends g us closed fuel)
          (dependencies g n) (enter n s) (enter-IsWithin n s w) (closed n) (omega arith) in
      (append_result n t, rw e (ap (appended n) inner))
]

-- The listed names are closed.
All-listed :
    (xs ys : List ℕ)
    → ((k : ℕ) → contains xs k ≡ true → contains ys k ≡ true)
    → All (λ t. contains ys t ≡ true) xs
All-listed [] ys h = tt
All-listed (x ∷ xs) ys h =
    (h x (ground (arith, ==_refl x)), All-listed xs ys (λ k c. h k (ground arith)))

dependencies-all_names :
    (g : Schemas) (n k : ℕ) → contains (dependencies g n) k ≡ true → contains (all_names g) k ≡ true
dependencies-all_names [] n k h = cc
dependencies-all_names ((m, s) ∷ g) n k h = elim (Bool-cases (m == n)) [
  | inl e ↦ ground (arith, rw e at h, contains-append (targets_of (some s)) (all_names g) k)
  | inr e ↦ ground (
    arith,
    dependencies-all_names g n k (rw e at h),
    contains-append (targets_of (some s)) (all_names g) k,
  )
]

names-all_names :
    (g : Schemas) (k : ℕ) → contains (names g) k ≡ true → contains (all_names g) k ≡ true
names-all_names [] k h = cc
names-all_names ((m, s) ∷ g) k h =
    ground (arith, names-all_names g k, contains-append (targets_of (some s)) (all_names g) k)

pub new_visit-IsWithin : IsWithin new_visit
new_visit-IsWithin = (tt, λ k. refl)

-- What is visited, of a list of names.
abbrev AllVisited : List ℕ → Visit → Type 0
AllVisited ns s = All (λ n. contains s.visited n ≡ true) ns

visit_visits :
    (g : Schemas) (fuel n : ℕ) (s t : Visit)
    → IsWithin s
    → visit g fuel n s ≡ some t
    → contains t.visited n ≡ true
unfolding visit
visit_visits g zero n s t w h = cc
visit_visits g (suc fuel) n s t w h = elim (Bool-cases (contains s.visited n)) [
  | inl e ↦ let same = rw e at h in subst (λ u. contains u.visited n ≡ true) (the_visit s t same) e
  | inr e ↦
      let (u, inner, out) =
        appended-some n (visit_each (visit g fuel) (dependencies g n) (enter n s)) t (rw e at h) in
      let (m, w1) =
        visit_each-Steps (visit g fuel) (visit-Steps g fuel) (dependencies g n) (enter n s) u
          (enter-IsWithin n s w) inner in
      rw out (ground (arith, m n, ==_refl n))
]

AllVisited-Moves : (ns : List ℕ) (s t : Visit) → Moves s t → AllVisited ns s → AllVisited ns t
AllVisited-Moves ns s t m all = All-map ns (λ n h. ground (arith, m n)) all

visit_each_visits :
    (g : Schemas) (fuel : ℕ) (ns : List ℕ) (s t : Visit)
    → IsWithin s
    → visit_each (visit g fuel) ns s ≡ some t
    → AllVisited ns t
visit_each_visits g fuel [] s t w h = tt
visit_each_visits g fuel (n ∷ ns) s t w h =
    let (u, first, rest) = and_visit-some (visit_each (visit g fuel) ns) (visit g fuel n s) t h in
    let (m, w1) = visit-Steps g fuel n s u w first in
    let (m1, _) = visit_each-Steps (visit g fuel) (visit-Steps g fuel) ns u t w1 rest in
    let here = visit_visits g fuel n s u w first in
    (ground (arith, m1 n), visit_each_visits g fuel ns u t w1 rest)

-- `get_initialization_order` ends, also on schemas that depend on each other in a circle, and its
-- result has every registered schema and no name twice.
pub get_initialization_order_once :
    (g : Schemas)
    → (os : List ℕ) × (get_initialization_order g ≡ some os)
      × IsDistinct os
      × All (λ n. contains os n ≡ true) (names g)
unfolding get_initialization_order
get_initialization_order_once g =
    let us = all_names g in
    let start : Visit = new_visit in
    let closed : IsClosed g us =
      λ n. All-listed (dependencies g n) us (dependencies-all_names g n) in
    let few : unvisited us start < suc (length us) =
      (let bound = length-filter (λ k. not (contains start.visited k)) us in omega arith) in
    let (t, ran) =
      visit_each_ends us (suc (length us)) (visit g (suc (length us)))
        (visit-Steps g (suc (length us))) (visit_ends g us closed (suc (length us))) (names g) start
        new_visit-IsWithin (All-listed (names g) us (names-all_names g)) few in
    let (m, w) =
      visit_each-Steps (visit g (suc (length us))) (visit-Steps g (suc (length us))) (names g) start
        t new_visit-IsWithin ran in
    let in_result : (n : ℕ) → contains t.visited n ≡ true → contains t.result n ≡ true =
      λ n h. ground (arith, m n) in
    (
      t.result,
      ap result_of ran,
      w.0,
      All-map (names g) in_result
          (visit_each_visits g (suc (length us)) (names g) start t new_visit-IsWithin ran),
    )
