-- ===== src/Outbox/Service/Claims.antt =====
-- The locks that `OutboxService` takes of messages and gives back.
use cqrs_ddd.Common.{ℕ, List, ◌≡◌, [], ◌∷◌, arith, ◌<◌, ◌+◌}
use cqrs_ddd.Common.Outcome.{Outcome, ok, raise, ◌>>=◌}
use cqrs_ddd.Locking.Counted.{IsCounting, Counts, one}
use cqrs_ddd.Locking.{LockStrategy, ResourceIdentifier, Fault, lock_error, other_error}
use cqrs_ddd.Outbox.{OutboxMessage}
use cqrs_ddd.Outbox.Service.{Claim, resource_of, claim_next, claim_each, release_claims}

abbrev pub claims_of : List Claim → ResourceIdentifier → ℕ → ℕ
claims_of [] y u = 0
claims_of ((m, t) ∷ cs) y u = one (resource_of m) t y u + claims_of cs y u

one_self : (m : OutboxMessage) (t : ℕ) → one (resource_of m) t (resource_of m) t ≡ 1
one_self m t = ground arith

module _ {L : Type 0} (st : LockStrategy L) (held : L → ResourceIdentifier → ℕ → ℕ)
    (law : IsCounting st held) where
  -- After the claims, these locks are held once more than before.
  abbrev pub Claimed : L → Outcome ℕ (List Claim) × L → Type 0
  Claimed l (ok cs, l') =
      (y : ResourceIdentifier) (u : ℕ) → held l' y u ≡ held l y u + claims_of cs y u
  Claimed l (raise e, l') = Unit {0}

  Claimed-more :
      (m : OutboxMessage) (t : ℕ) (l l' l'' : L) (r : Outcome ℕ (List Claim))
      → ((y : ResourceIdentifier) (u : ℕ) → held l' y u ≡ held l y u + one (resource_of m) t y u)
      → Claimed l' (r, l'')
      → Claimed l (r >>= (λ cs. ok ((m, t) ∷ cs)), l'')
  Claimed-more m t l l' l'' (ok cs) h k = λ y u. omega (arith, h y u, k y u)
  Claimed-more m t l l' l'' (raise e) h k = tt

  Claimed-as :
      (l l' : L) (r : Outcome ℕ (List Claim) × L)
      → ((y : ResourceIdentifier) (u : ℕ) → held l' y u ≡ held l y u)
      → Claimed l' r
      → Claimed l r
  Claimed-as l l' (ok cs, l'') h k = λ y u. omega (arith, h y u, k y u)
  Claimed-as l l' (raise e, l'') h k = tt

  Claimed-next :
      (m : OutboxMessage) (rest : L → Outcome ℕ (List Claim) × L) (l : L) (r : Outcome Fault ℕ × L)
      → ((l' : L) → Claimed l' (rest l'))
      → Counts held (resource_of m) l r
      → Claimed l (claim_next st m rest r)
  Claimed-next m rest l (ok t, l') ih h = Claimed-more m t l l' (rest l').1 (rest l').0 h (ih l')
  Claimed-next m rest l (raise (lock_error e), l') ih h = Claimed-as l l' (rest l') h (ih l')
  Claimed-next m rest l (raise (other_error e), l') ih h = tt

  pub claim_each-Claimed : (ms : List OutboxMessage) (l : L) → Claimed l (claim_each st ms l)
  unfolding claim_each
  claim_each-Claimed [] l = λ y u. omega arith
  claim_each-Claimed (m ∷ ms) l =
      Claimed-next m (claim_each st ms) l (st.acquire (resource_of m) l) (claim_each-Claimed ms)
        (law.acquires (resource_of m) l)

  pub release_claims-held :
      (cs : List Claim) (l : L) (before : ResourceIdentifier → ℕ → ℕ)
      → ((y : ResourceIdentifier) (u : ℕ) → held l y u ≡ before y u + claims_of cs y u)
      → (y : ResourceIdentifier) (u : ℕ) → held (release_claims st cs l) y u ≡ before y u
  unfolding release_claims
  release_claims-held [] l before h = λ y u. omega (arith, h y u)
  release_claims-held ((m, t) ∷ cs) l before h =
      let there : 0 < held l (resource_of m) t = omega (arith, h (resource_of m) t, one_self m t) in
      release_claims-held cs (st.release (resource_of m) t l).1 before
        (λ y u. omega (arith, law.releases (resource_of m) t l there y u, h y u))
