-- ===== src/Upcasting/Register.antt =====
-- What registration guards.
use cqrs_ddd.Common.Dict.{insert, lookup-insert}
use cqrs_ddd.Common.Outcome.{Outcome, ok, raise}
use cqrs_ddd.Upcasting.{Upcaster, Registry, registered, register, duplicate, Duplicate}
use cqrs_ddd.Common.{
  Bool, List, any, ℕ, All, ◌++◌, ◌==◌, ◌∷◌, ◌≡◌, [], false, if◌then◌else◌, arith, true, ◌||◌, ◌∙◌,
  refl, Bool-cases, inl, subst, sym, inr, All-append,
}

module _ {D : Type 0} where
  -- No two upcasters in the list have the same source version.
  abbrev pub IsDistinct : List (Upcaster D) → Type 0
  IsDistinct [] = Unit
  IsDistinct (u ∷ us) = (any (λ e. e.source_version == u.source_version) us ≡ false) × IsDistinct us

  -- Every type's list is distinct, and holds upcasters of that type only.
  pub record IsGuarded (r : Registry D) : Type 0 where
    pub distinct : (t : ℕ) → IsDistinct (registered t r)
    pub typed : (t : ℕ) → All (λ u. u.event_type ≡ t) (registered t r)

  any-snoc :
      (p : Upcaster D → Bool) (us : List (Upcaster D)) (u : Upcaster D)
      → any p (us ++ u ∷ []) ≡ (any p us || p u)
  any-snoc p [] u = ground arith
  any-snoc p (x ∷ us) u = ground (arith, any-snoc p us u)

  snoc-IsDistinct :
      (us : List (Upcaster D)) (u : Upcaster D)
      → IsDistinct us
      → any (λ e. e.source_version == u.source_version) us ≡ false
      → IsDistinct (us ++ u ∷ [])
  snoc-IsDistinct [] u d h = (refl, tt)
  snoc-IsDistinct (x ∷ us) u d h = (
    any-snoc (λ e. e.source_version == x.source_version) us u ∙ ground (arith, d.0),
    snoc-IsDistinct us u d.1 (ground arith),
  )

  registered-insert :
      (k t : ℕ) (us : List (Upcaster D)) (r : Registry D)
      → registered t (insert k us r) ≡ (if k == t then us else registered t r)
  registered-insert k t us r = ground (arith, lookup-insert k t us r)

  -- What a registration did.
  abbrev pub Registered : Upcaster D → Registry D → Outcome Duplicate (Registry D) → Type 0
  Registered u r (ok r') =
      IsGuarded r'
      × (any (λ e. e.source_version == u.source_version) (registered u.event_type r) ≡ false)
      × ((t : ℕ)
          → registered t r'
            ≡ (if u.event_type == t then registered u.event_type r ++ u ∷ [] else registered t r))
  Registered u r (raise e) =
      (any (λ e. e.source_version == u.source_version) (registered u.event_type r) ≡ true)
      × (e ≡ duplicate u.event_type u.source_version u.target_version)

  -- Registration raises exactly if the type has an upcaster with this source version; otherwise it
  -- appends the upcaster to its type's list and changes no other list. It keeps every list free of
  -- repeated source versions and of other types.
  pub register-IsGuarded :
      (u : Upcaster D) (r : Registry D) → IsGuarded r → Registered u r (register u r)
  unfolding register
  register-IsGuarded u r g = by_test (any (λ e. e.source_version == u.source_version) us) refl
    where
      us : List (Upcaster D)
      us = registered u.event_type r

      r' : Registry D
      r' = insert u.event_type (us ++ u ∷ []) r

      distinct' :
          (t : ℕ)
          → any (λ e. e.source_version == u.source_version) us ≡ false
          → IsDistinct (registered t r')
      distinct' t new = elim (Bool-cases (u.event_type == t)) [
        | inl e ↦
            subst IsDistinct (sym (registered-insert u.event_type t (us ++ u ∷ []) r))
              (rw e (snoc-IsDistinct us u (g.distinct u.event_type) new))
        | inr e ↦
            subst IsDistinct (sym (registered-insert u.event_type t (us ++ u ∷ []) r))
              (rw e (g.distinct t))
      ]

      typed' : (t : ℕ) → All (λ x. x.event_type ≡ t) (registered t r')
      typed' t = elim (Bool-cases (u.event_type == t)) [
        | inl e ↦
            let same : u.event_type ≡ t = ground arith in
            subst (All (λ x. x.event_type ≡ t))
              (sym (registered-insert u.event_type t (us ++ u ∷ []) r))
              (rw e (
                All-append _ us (u ∷ [])
                  (subst (λ k. All (λ x. x.event_type ≡ k) us) same (g.typed u.event_type))
                  (same, tt)))
        | inr e ↦
            subst (All (λ x. x.event_type ≡ t))
              (sym (registered-insert u.event_type t (us ++ u ∷ []) r)) (rw e (g.typed t))
      ]

      by_test :
          (b : Bool)
          → any (λ e. e.source_version == u.source_version) us ≡ b
          → Registered u r (
              if b then raise (duplicate u.event_type u.source_version u.target_version) else ok r')
      by_test true e = (e, refl)
      by_test false e = (
        record { distinct = λ t. distinct' t e; typed = typed' },
        e,
        λ t. registered-insert u.event_type t (us ++ u ∷ []) r,
      )
