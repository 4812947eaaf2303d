-- ===== src/Upcasting/Chain.antt =====
-- One pass over the sorted chain does all the upcasting that there is to do.
use cqrs_ddd.Common.Sort.{IsSorted, sort_by-IsSorted, All-sort_by, All-unsort}
use cqrs_ddd.Upcasting.{Upcaster, by_source, chain, apply_each}
use cqrs_ddd.Common.{
  List, All, ℕ, In, ◌<◌, ◌≡◌, ◌≤◌, arith, ◌∷◌, ◌≢◌, All-map, Bool-cases, ◌==◌, ◌&&◌, false, inl,
  inr, refl, Bool, true, ltb, subst, sym,
}
use mathlib.Core.List.{[]}

and_right : (b : Bool) (m n : ℕ) → (b && (m == n)) ≡ true → m ≡ n
and_right b m n h = ground arith

module _ {D : Type 0} where
  -- Upcasting step by step, from any list: an upcaster of the event's type applies at its source
  -- version and leads to its target version.
  pub data Reaches (us : List (Upcaster D)) (t : ℕ) (x : D) (v : ℕ) : D → ℕ → Type 0 where
    done : Reaches us t x v x v
    step :
        {y : D} {w : ℕ} (u : Upcaster D)
        → Reaches us t x v y w
        → In u us
        → u.event_type ≡ t
        → u.source_version ≡ w
        → Reaches us t x v (u.upcast y) u.target_version

  -- No upcaster of the type applies at the version.
  abbrev pub IsLatest : List (Upcaster D) → ℕ → ℕ → Type 0
  IsLatest us t v = All (λ u. u.event_type ≡ t → u.source_version ≢ v) us

  -- Every upcaster of the type leads to a higher version.
  abbrev pub Ascends : List (Upcaster D) → ℕ → Type 0
  Ascends us t = All (λ u. u.event_type ≡ t → u.source_version < u.target_version) us

  upcasters_within : (us : List (Upcaster D)) → All (λ u. In u us) us
  upcasters_within [] = tt
  upcasters_within (u ∷ us) = (In.head, All-map us (λ w i. In.tail i) (upcasters_within us))

  apply_each-Reaches :
      (all us : List (Upcaster D)) (t : ℕ) (x y : D) (v w : ℕ)
      → All (λ u. In u all) us
      → Reaches all t x v y w
      → Reaches all t x v (apply_each us t y w).0 (apply_each us t y w).1
  unfolding apply_each
  apply_each-Reaches all [] t x y v w i r = r
  apply_each-Reaches all (u ∷ us) t x y v w i r =
      elim (Bool-cases ((u.event_type == t) && (u.source_version == w))) [
        | inl e ↦
            rw (e, apply_each)
              (apply_each-Reaches all us t x (u.upcast y) v u.target_version i.1
                (step u r i.0 (ground arith) (ground arith)))
        | inr e ↦ rw (e, apply_each) (apply_each-Reaches all us t x y v w i.1 r)
      ]

  -- Behind every source version that is left, the version stays.
  apply_each_past :
      (us : List (Upcaster D)) (t : ℕ) (x : D) (v : ℕ)
      → All (λ u. v < u.source_version) us
      → (apply_each us t x v).1 ≡ v
  unfolding apply_each
  apply_each_past [] t x v a = refl
  apply_each_past (u ∷ us) t x v a =
      let e : ((u.event_type == t) && (u.source_version == v)) ≡ false = ground arith in
      rw (e, apply_each) (apply_each_past us t x v a.1)

  apply_each_grows :
      (us : List (Upcaster D)) (t : ℕ) (x : D) (v : ℕ) → Ascends us t → v ≤ (apply_each us t x v).1
  unfolding apply_each
  apply_each_grows [] t x v a = omega arith
  apply_each_grows (u ∷ us) t x v a =
      elim (Bool-cases ((u.event_type == t) && (u.source_version == v))) [
        | inl e ↦
            rw (e, apply_each)
              (omega (
                arith,
                apply_each_grows us t (u.upcast x) u.target_version a.1,
                a.0 (ground arith),
                and_right (u.event_type == t) (u.source_version) v e,
              ))
        | inr e ↦ rw (e, apply_each) (apply_each_grows us t x v a.1)
      ]

  -- An upcaster that did not fit the version does not fit the final one.
  not_skipped :
      (u : Upcaster D) (us : List (Upcaster D)) (t : ℕ) (x : D) (v : ℕ)
      → IsSorted by_source (u ∷ us)
      → Ascends us t
      → ((u.event_type == t) && (u.source_version == v)) ≡ false
      → u.event_type ≡ t
      → u.source_version ≢ (apply_each us t x v).1
  not_skipped u us t x v s a e ty src = elim (Bool-cases (ltb v u.source_version)) [
    | inl above ↦
        let later : All (λ w. v < w.source_version) us = All-map us (λ w h. ground arith) s.0 in
        ground (arith, apply_each_past us t x v later)
    | inr below ↦ ground (arith, apply_each_grows us t x v a)
  ]

  fits_step :
      (u : Upcaster D) (us : List (Upcaster D)) (t : ℕ) (x : D) (v : ℕ)
      → ((u.event_type == t) && (u.source_version == v)) ≡ true
      → apply_each (u ∷ us) t x v ≡ apply_each us t (u.upcast x) u.target_version
  unfolding apply_each
  fits_step u us t x v e = rw (e, apply_each)

  skip_step :
      (u : Upcaster D) (us : List (Upcaster D)) (t : ℕ) (x : D) (v : ℕ)
      → ((u.event_type == t) && (u.source_version == v)) ≡ false
      → apply_each (u ∷ us) t x v ≡ apply_each us t x v
  unfolding apply_each
  skip_step u us t x v e = rw (e, apply_each)

  apply_each-IsLatest :
      (us : List (Upcaster D)) (t : ℕ) (x : D) (v : ℕ)
      → IsSorted by_source us
      → Ascends us t
      → IsLatest us t (apply_each us t x v).1
  unfolding apply_each
  apply_each-IsLatest [] t x v s a = tt
  apply_each-IsLatest (u ∷ us) t x v s a =
      elim (Bool-cases ((u.event_type == t) && (u.source_version == v))) [
        | inl e ↦
            subst (λ r. IsLatest (u ∷ us) t r.1) (sym (fits_step u us t x v e))
              (
                λ ty src.
                    omega
                      (arith, src, apply_each_grows us t (u.upcast x) u.target_version a.1, a.0 ty),
                apply_each-IsLatest us t (u.upcast x) u.target_version s.1 a.1,
              )
        | inr e ↦
            subst (λ r. IsLatest (u ∷ us) t r.1) (sym (skip_step u us t x v e))
              (
                λ ty src. not_skipped u us t x v s a.1 e ty src,
                apply_each-IsLatest us t x v s.1 a.1,
              )
      ]

  -- If every upcaster of the type leads to a higher version, one pass over the sorted chain reaches
  -- its result by applying upcasters of the given list one after the other, each at its source
  -- version, and no upcaster of the type applies at the final version.
  pub chain_complete :
      (us : List (Upcaster D)) (t : ℕ) (x : D) (v : ℕ)
      → Ascends us t
      → let (y, w) = apply_each (chain us) t x v in Reaches us t x v y w × IsLatest us t w
  unfolding chain
  chain_complete us t x v a = (
    apply_each-Reaches us (chain us) t x x v v (All-sort_by by_source _ us (upcasters_within us))
        done,
    All-unsort by_source _ us (
        apply_each-IsLatest (chain us) t x v
          (sort_by-IsSorted by_source (λ u w h. ground arith) (λ u w z p q. ground arith) us)
          (All-sort_by by_source _ us a)),
  )
