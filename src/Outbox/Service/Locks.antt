-- ===== src/Outbox/Service/Locks.antt =====
-- Which messages of a batch of `OutboxService` can be locked, asked one after the other.
use cqrs_ddd.Common.{ℕ, List, refl, [], ◌∷◌, ◌≡◌}
use cqrs_ddd.Common.Outcome.{Outcome, ok, raise, ◌>>=◌}
use cqrs_ddd.Locking.{LockStrategy, Fault, lock_error, other_error}
use cqrs_ddd.Outbox.{OutboxMessage}
use cqrs_ddd.Outbox.Service.{Claim, resource_of, claim_next, claim_each}

module _ {L : Type 0} (st : LockStrategy L) where
  -- Each message is asked for in order: it is claimed with its token, or left out after a refusal,
  -- and only another error ends the asking.
  pub data Asks : List OutboxMessage → L → Outcome ℕ (List Claim) → L → Type 0 where
    all_asked : (l : L) → Asks [] l (ok []) l
    claimed :
        {m : OutboxMessage} {ms : List OutboxMessage} {l l1 l2 : L} {t : ℕ} {cs : List Claim}
        → st.acquire (resource_of m) l ≡ (ok t, l1)
        → Asks ms l1 (ok cs) l2
        → Asks (m ∷ ms) l (ok ((m, t) ∷ cs)) l2
    left_out :
        {m : OutboxMessage} {ms : List OutboxMessage} {l l1 l2 : L} {e : ℕ}
        {r : Outcome ℕ (List Claim)}
        → st.acquire (resource_of m) l ≡ (raise (lock_error e), l1)
        → Asks ms l1 r l2
        → Asks (m ∷ ms) l r l2
    fails_later :
        {m : OutboxMessage} {ms : List OutboxMessage} {l l1 l2 : L} {t e : ℕ}
        → st.acquire (resource_of m) l ≡ (ok t, l1)
        → Asks ms l1 (raise e) l2
        → Asks (m ∷ ms) l (raise e) l2
    fails :
        {m : OutboxMessage} {ms : List OutboxMessage} {l l1 : L} {e : ℕ}
        → st.acquire (resource_of m) l ≡ (raise (other_error e), l1)
        → Asks (m ∷ ms) l (raise e) l1

  with_claim :
      (m : OutboxMessage) (ms : List OutboxMessage) (t : ℕ) (l l1 l2 : L)
      (r : Outcome ℕ (List Claim))
      → st.acquire (resource_of m) l ≡ (ok t, l1)
      → Asks ms l1 r l2
      → Asks (m ∷ ms) l (r >>= (λ cs. ok ((m, t) ∷ cs))) l2
  with_claim m ms t l l1 l2 (ok cs) h a = claimed h a
  with_claim m ms t l l1 l2 (raise e) h a = fails_later h a

  claim_next-Asks :
      (m : OutboxMessage) (ms : List OutboxMessage) (l : L) (rest : L → Outcome ℕ (List Claim) × L)
      (r : Outcome Fault ℕ × L)
      → st.acquire (resource_of m) l ≡ r
      → ((l1 : L) → Asks ms l1 (rest l1).0 (rest l1).1)
      → Asks (m ∷ ms) l (claim_next st m rest r).0 (claim_next st m rest r).1
  claim_next-Asks m ms l rest (ok t, l1) h ih =
      with_claim m ms t l l1 (rest l1).1 (rest l1).0 h (ih l1)
  claim_next-Asks m ms l rest (raise (lock_error e), l1) h ih = left_out h (ih l1)
  claim_next-Asks m ms l rest (raise (other_error e), l1) h ih = fails h

  pub claim_each-Asks :
      (ms : List OutboxMessage) (l : L) → Asks ms l (claim_each st ms l).0 (claim_each st ms l).1
  unfolding claim_each
  claim_each-Asks [] l = all_asked l
  claim_each-Asks (m ∷ ms) l = claim_next-Asks m ms l (claim_each st ms) _ refl (claim_each-Asks ms)
