-- ===== src/Projections/Schema/Visits.antt =====
-- What a visit changes: the inner function of `get_initialization_order` in projections/schema.py of
-- packages/advanced/src/cqrs_ddd_advanced_core.
use cqrs_ddd.Common.{
  ℕ, refl, true, false, Bool, List, contains, not, ◌∷◌, ◌≡◌, arith, ◌||◌, ◌&&◌, Option, some, suc,
  ==_refl, Bool-cases, subst, ◌==◌, inl, ==_iff, inr, sym,
}
use cqrs_ddd.Projections.Schema.{
  Visit, enter, visit, Schemas, and_visit, append_result, appended, visit_each, dependencies,
}
use mathlib.Core.List.{[]}
use mathlib.Core.Option.{none}
use Prim.Native.Nat.{zero}
use cqrs_ddd.Common.Distinct.{IsDistinct, contains-append, append-IsDistinct}

-- Of a name: that it was visited and that it stands in the result, before and after.
abbrev pub moves : (v r v1 r1 : Bool) → Bool
moves v r v1 r1 = (not v || v1) && (not r1 || r || not v) && (not v1 || v || r1) && (not r || r1)

abbrev pub Moves : Visit → Visit → Type 0
Moves s t =
    (k : ℕ)
    → moves (contains s.visited k) (contains s.result k) (contains t.visited k)
        (contains t.result k)
      ≡ true

-- The result was visited, and no name stands in it twice.
abbrev pub IsWithin : Visit → Type 0
IsWithin s =
    IsDistinct s.result × ((k : ℕ) → (not (contains s.result k) || contains s.visited k) ≡ true)

moves_refl : (v r : Bool) → (not r || v) ≡ true → moves v r v r ≡ true
moves_refl v r h = ground arith

moves_trans :
    (v r v1 r1 v2 r2 : Bool)
    → moves v r v1 r1 ≡ true
    → moves v1 r1 v2 r2 ≡ true
    → moves v r v2 r2 ≡ true
moves_trans v r v1 r1 v2 r2 h k = ground arith

-- Around the visits of the dependencies: `e` says that the name is the visited one.
moves_around :
    (e v r v2 r2 : Bool)
    → (not e || not v) ≡ true
    → (not r || v) ≡ true
    → moves (e || v) r v2 r2 ≡ true
    → moves v r v2 (r2 || e) ≡ true
moves_around e v r v2 r2 n w h = ground arith

pub and_visit-some :
    (next : Visit → Option Visit) (o : Option Visit) (u : Visit)
    → and_visit next o ≡ some u
    → (s : Visit) × (o ≡ some s) × (next s ≡ some u)
and_visit-some next none u h = cc
and_visit-some next (some s) u h = (s, refl, h)

pub appended-some :
    (n : ℕ) (o : Option Visit) (u : Visit)
    → appended n o ≡ some u
    → (s : Visit) × (o ≡ some s) × (u ≡ append_result n s)
appended-some n none u h = cc
appended-some n (some s) u h = (s, refl, cc)

pub the_visit : (s t : Visit) → ◌≡◌ {A = Option Visit} (some s) (some t) → s ≡ t
the_visit s t h = cc

other_name :
    (xs : List ℕ) (n k : ℕ) → contains xs n ≡ false → (not (n == k) || not (contains xs k)) ≡ true
other_name xs n k new = elim (Bool-cases (n == k)) [
  | inl e ↦ rw (e, subst (λ j. contains xs j ≡ false) ((==_iff n k).0 e) new) refl
  | inr e ↦ rw e refl
]

abbrev pub Steps : (ℕ → Visit → Option Visit) → Type 0
Steps visit_one =
    (n : ℕ) (s t : Visit) → IsWithin s → visit_one n s ≡ some t → Moves s t × IsWithin t

pub visit_each-Steps :
    (visit_one : ℕ → Visit → Option Visit)
    → Steps visit_one
    → (ns : List ℕ) (s t : Visit) → IsWithin s
    → visit_each visit_one ns s ≡ some t
    → Moves s t × IsWithin t
visit_each-Steps visit_one step [] s t w h =
    subst (λ u. Moves s u × IsWithin u) (the_visit s t h)
      ((λ k. moves_refl (contains s.visited k) (contains s.result k) (w.1 k)), w)
visit_each-Steps visit_one step (n ∷ ns) s t w h =
    let (u, first, rest) = and_visit-some (visit_each visit_one ns) (visit_one n s) t h in
    let (m1, w1) = step n s u w first in
    let (m2, w2) = visit_each-Steps visit_one step ns u t w1 rest in
    (
      (λ k.
          moves_trans (contains s.visited k) (contains s.result k) (contains u.visited k)
            (contains u.result k) (contains t.visited k) (contains t.result k) (m1 k) (m2 k)),
      w2,
    )

pub enter-IsWithin : (n : ℕ) (s : Visit) → IsWithin s → IsWithin (enter n s)
enter-IsWithin n s (d, w) = (d, λ k. ground (arith, w k))

around :
    (n : ℕ) (s t : Visit)
    → contains s.visited n ≡ false
    → IsWithin s
    → Moves (enter n s) t
    → IsWithin t
    → Moves s (append_result n t) × IsWithin (append_result n t)
around n s t new (d, w) m (d1, w1) =
    let absent : contains t.result n ≡ false = ground (arith, ==_refl n, m n, w n) in
    (
      (λ k. ground (
        arith,
        contains-append t.result (n ∷ []) k,
        moves_around (n == k) (contains s.visited k) (contains s.result k) (contains t.visited k)
            (contains t.result k) (other_name s.visited n k new) (w k) (m k),
      )),
      (
        append-IsDistinct t.result n absent d1,
        λ k. ground (arith, contains-append t.result (n ∷ []) k, w1 k, m k),
      ),
    )

pub visit-Steps : (g : Schemas) (fuel : ℕ) → Steps (visit g fuel)
unfolding visit
visit-Steps g zero n s t w h = cc
visit-Steps g (suc fuel) n s t w h = elim (Bool-cases (contains s.visited n)) [
  | inl e ↦
      let same = rw e at h in
      subst (λ u. Moves s u × IsWithin u) (the_visit s t same)
        ((λ k. moves_refl (contains s.visited k) (contains s.result k) (w.1 k)), w)
  | inr e ↦
      let (u, inner, out) =
        appended-some n (visit_each (visit g fuel) (dependencies g n) (enter n s)) t (rw e at h) in
      let (m, w1) =
        visit_each-Steps (visit g fuel) (visit-Steps g fuel) (dependencies g n) (enter n s) u
          (enter-IsWithin n s w) inner in
      subst (λ x. Moves s x × IsWithin x) (sym out) (around n s u e w m w1)
]
