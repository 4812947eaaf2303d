-- ===== src/Projections/Worker/Once.antt =====
-- Every event is projected once: `run` of projections/worker.py of
-- packages/advanced/src/cqrs_ddd_advanced_core, run again after it raised.
use cqrs_ddd.Common.{
  refl, ℕ, List, Bool, ◌∷◌, filter, take, ◌≡◌, suc, ◌++◌, some, ◌+◌, true, Bool-cases, Option, inl,
  Option-cases, inr, arith, subst, false,
}
use cqrs_ddd.Projections.Worker.{
  Worker, Projected, handle_event, project_all, or_zero, saved_after, project_one, broken_off,
}
use cqrs_ddd.EventStore.{StoredEvent, Spec, next_position}
use cqrs_ddd.EventStore.Streaming.{IsPlaced, chosen, take-Splits}
use mathlib.Core.List.{[]}
use Prim.Native.Nat.{zero}
use cqrs_ddd.Common.Outcome.{is_ok, ok, raise}
use mathlib.Core.Option.{none}

pub IsPlaced-take : (k n : ℕ) (es : List StoredEvent) → IsPlaced n es → IsPlaced n (take k es)
IsPlaced-take zero n es p = tt
IsPlaced-take (suc k) n [] p = tt
IsPlaced-take (suc k) n (e ∷ es) p = (p.0, IsPlaced-take k (n + 1) es p.1)

filter_head {ℓ} :
    {A : Type ℓ} (q : A → Bool) (x : A) (xs ys : List A) → filter q ys ≡ x ∷ xs → q x ≡ true
filter_head q x xs [] all = cc
filter_head q x xs (y ∷ ys) all = elim (Bool-cases (q y)) [
  | inl e ↦ let here = rw e at all in cc
  | inr e ↦ filter_head q x xs ys (rw e at all)
]

positioned :
    (p : Option ℕ) (spec : Spec) (e : StoredEvent)
    → chosen p spec e ≡ true
    → (m : ℕ) × (e.position ≡ some m)
positioned p spec e here = elim (Option-cases e.position) [
  | inl n ↦ absurd (ground arith)
  | inr (m, h) ↦ (m, h)
]

module _ {ℓ} {V : Type ℓ} (w : Worker V) where
  -- The events in order, each one given once to the handler of its type.
  abbrev pub replay : List StoredEvent → V → V
  replay [] v = v
  replay (e ∷ es) v = replay es (handle_event w e v)

  -- What is left to project of a store.
  abbrev pub left : List StoredEvent → Projected V → List StoredEvent
  left store s = filter (chosen (some (or_zero s.position)) w.specification) store

  -- The first event that is left moves the position behind itself.
  left_step :
      (store : List StoredEvent) (p : ℕ) (e : StoredEvent) (rest : List StoredEvent)
      → IsPlaced 0 store
      → filter (chosen (some p) w.specification) store ≡ e ∷ rest
      → (m : ℕ) × (e.position ≡ some m) × (filter (chosen (some m) w.specification) store ≡ rest)
  left_step store p e rest placed all =
      let (m, stands) =
        positioned (some p) w.specification e
          (filter_head (chosen (some p) w.specification) e rest store all) in
      let split = take-Splits 0 0 (some p) w.specification store placed in
      let s1 : e ∷ rest
          ≡ e ∷ filter (chosen (next_position (some p) (e ∷ [])) w.specification) store =
        subst
          (λ (f : List StoredEvent).
            f
            ≡ take 1 f ++ filter (chosen (next_position (some p) (take 1 f)) w.specification) store)
          all split in
      let s2 = rw stands at s1 in (m, stands, cc)

  broken_lem :
      (raises : StoredEvent → Bool) (p : Option ℕ) (m : ℕ) (e : StoredEvent) (s : Projected V)
      → p ≡ some m
      → raises e ≡ true
      → project_one w raises p e s ≡ raise (broken_off e)
  broken_lem raises none m e s h r = cc
  broken_lem raises (some p) m e s h r = rw r refl

  done_lem :
      (raises : StoredEvent → Bool) (p : Option ℕ) (m : ℕ) (e : StoredEvent) (s : Projected V)
      → p ≡ some m
      → raises e ≡ false
      → project_one w raises p e s ≡ ok (saved_after w e m s)
  done_lem raises none m e s h r = cc
  done_lem raises (some p) m e s h r = rw r cc

  -- A run over the first of what is left: what is then left leads to the same data.
  pub project_all_lem :
      (raises : StoredEvent → Bool) (store events more : List StoredEvent) (s : Projected V)
      → IsPlaced 0 store
      → left store s ≡ events ++ more
      → let (o, t) = project_all w raises events s in
        (replay (left store t) t.view ≡ replay (events ++ more) s.view)
        × (is_ok o ≡ true → left store t ≡ more)
  project_all_lem raises store [] more s placed all = (rw all refl, λ _. all)
  project_all_lem raises store (e ∷ es) more s placed all =
      let (m, stands, next) : (m : ℕ) × (e.position ≡ some m)
          × (filter (chosen (some m) w.specification) store ≡ es ++ more) =
        left_step store (or_zero s.position) e (es ++ more) placed all in
      elim (Bool-cases (raises e)) [
        | inl r ↦ rw (broken_lem raises e.position m e s stands r, all) (refl, λ c. cc)
        | inr r ↦
            rw (done_lem raises e.position m e s stands r)
              (project_all_lem raises store es more (saved_after w e m s) placed next)
      ]
