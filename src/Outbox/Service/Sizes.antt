-- ===== src/Outbox/Service/Sizes.antt =====
-- How many messages `OutboxService` claims and publishes of a batch.
use cqrs_ddd.Common.{ℕ, List, ◌≡◌, [], ◌∷◌, ◌≤◌, suc, zero, length, take, arith, subst}
use cqrs_ddd.Common.Outcome.{Outcome, ok, raise, ◌>>=◌}
use cqrs_ddd.Locking.{LockStrategy, Fault, lock_error, other_error}
use cqrs_ddd.Outbox.{OutboxMessage}
use cqrs_ddd.Outbox.Service.{Claim, Envelope, Publisher, claim_each, claim_next, resource_of}
use cqrs_ddd.Outbox.Service.Delivery.{Delivers, accepted, refused, finished, messages_of}

module _ {ℓ} {A : Type ℓ} where
  pub length-take : (n : ℕ) (xs : List A) → length (take n xs) ≤ n
  length-take zero xs = omega arith
  length-take (suc n) [] = omega arith
  length-take (suc n) (x ∷ xs) = omega (arith, length-take n xs)

pub length-Delivers :
    {publisher : Publisher} {ms sent : List OutboxMessage} {log log' : List Envelope}
    → Delivers publisher ms log sent log'
    → length sent ≤ length ms
length-Delivers (finished log) = omega arith
length-Delivers (accepted h d) = omega (arith, length-Delivers d)
length-Delivers (refused h d) = omega (arith, length-Delivers d)

module _ {L : Type 0} (st : LockStrategy L) where
  -- There are at most so many claims.
  abbrev Within : ℕ → Outcome ℕ (List Claim) × L → Type 0
  Within n (ok cs, l) = length (messages_of cs) ≤ n
  Within n (raise e, l) = Unit {0}

  Within-suc : (n : ℕ) (r : Outcome ℕ (List Claim) × L) → Within n r → Within (suc n) r
  Within-suc n (ok cs, l) h = omega (arith, h)
  Within-suc n (raise e, l) h = h

  Within-cons :
      (n : ℕ) (m : OutboxMessage) (t : ℕ) (r : Outcome ℕ (List Claim)) (l : L)
      → Within n (r, l)
      → Within (suc n) (r >>= (λ cs. ok ((m, t) ∷ cs)), l)
  Within-cons n m t (ok cs) l h = omega (arith, h)
  Within-cons n m t (raise e) l h = h

  claim_next-Within :
      (n : ℕ) (m : OutboxMessage) (rest : L → Outcome ℕ (List Claim) × L) (r : Outcome Fault ℕ × L)
      → ((l : L) → Within n (rest l))
      → Within (suc n) (claim_next st m rest r)
  claim_next-Within n m rest (ok t, l) ih = Within-cons n m t (rest l).0 (rest l).1 (ih l)
  claim_next-Within n m rest (raise (lock_error e), l) ih = Within-suc n (rest l) (ih l)
  claim_next-Within n m rest (raise (other_error e), l) ih = tt

  claim_each-Within : (ms : List OutboxMessage) (l : L) → Within (length ms) (claim_each st ms l)
  unfolding claim_each
  claim_each-Within [] l = omega arith
  claim_each-Within (m ∷ ms) l =
      claim_next-Within (length ms) m (claim_each st ms) (st.acquire (resource_of m) l)
        (claim_each-Within ms)

  pub length-claims :
      (ms : List OutboxMessage) (l : L) (cs : List Claim)
      → (claim_each st ms l).0 ≡ ok cs
      → length (messages_of cs) ≤ length ms
  length-claims ms l cs k = of_result (claim_each st ms l) (claim_each-Within ms l) k
    where
      of_result :
          (r : Outcome ℕ (List Claim) × L)
          → Within (length ms) r
          → r.0 ≡ ok cs
          → length (messages_of cs) ≤ length ms
      of_result (ok ds, l') a e =
          (let same : ds ≡ cs = cc in subst (λ ds'. length (messages_of ds') ≤ length ms) same a)
      of_result (raise x, l') a e = cc
