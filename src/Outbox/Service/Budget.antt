-- ===== src/Outbox/Service/Budget.antt =====
-- Which messages `retry_failed` of `OutboxService` publishes.
use cqrs_ddd.Common.{
  ℕ, List, ◌≡◌, [], ◌∷◌, ◌++◌, none, true, map, sym, ◌∙◌, filter, All, filter_sound,
  filter_sound_with, All-take, All-filter, length, take, arith, ◌≤◌, append-nil, subst,
  length-filter,
}
use cqrs_ddd.Common.Outcome.{Outcome, ok, raise, ◌>>=◌}
use cqrs_ddd.Locking.{LockStrategy, ResourceIdentifier, Fault, lock_error, other_error}
use cqrs_ddd.Outbox.{OutboxMessage, get_pending, is_pending, created_before, fits}
use cqrs_ddd.Outbox.Service.Sizes.{length-Delivers, length-claims, length-take}
use cqrs_ddd.Common.Sort.{All-sort_by, sort_by}
use cqrs_ddd.Outbox.Service.{
  Claim, World, Envelope, envelope, Publisher, claim_each, claim_next, resource_of, retry_failed,
  is_retryable,
}
use cqrs_ddd.Locking.Counted.{IsCounting}
use cqrs_ddd.Outbox.Service.Delivery.{Delivers, accepted, refused, finished, messages_of}
use cqrs_ddd.Outbox.Service.Settled.{Settles, process_messages-Settles}

-- What was published: at most so many messages, each with this property.
abbrev pub OnlyPublishes : {L : Type 0} → (OutboxMessage → Type 0) → ℕ → World L → World L → Type 0
OnlyPublishes P size w w' =
    (sent : List OutboxMessage) × (w'.log ≡ w.log ++ map envelope sent)
    × (length sent ≤ size)
    × All P sent

-- A message that a retry may publish.
abbrev pub Retries : ℕ → OutboxMessage → Type 0
Retries max_retries m = (is_pending m ≡ true) × (is_retryable max_retries m ≡ true)

pub All-Delivers :
    (P : OutboxMessage → Type 0) {publisher : Publisher} {ms sent : List OutboxMessage}
    {log log' : List Envelope}
    → Delivers publisher ms log sent log'
    → All P ms
    → All P sent
All-Delivers P (finished log) h = tt
All-Delivers P (accepted k d) h = (h.0, All-Delivers P d h.1)
All-Delivers P (refused k d) h = All-Delivers P d h.1

module _ {L : Type 0} (st : LockStrategy L) (P : OutboxMessage → Type 0) where
  abbrev ClaimsAll : Outcome ℕ (List Claim) × L → Type 0
  ClaimsAll (ok cs, l) = All P (messages_of cs)
  ClaimsAll (raise e, l) = Unit {0}

  claimed_one :
      (m : OutboxMessage) (t : ℕ) (r : Outcome ℕ (List Claim)) (l : L)
      → P m
      → ClaimsAll (r, l)
      → ClaimsAll (r >>= (λ cs. ok ((m, t) ∷ cs)), l)
  claimed_one m t (ok cs) l h k = (h, k)
  claimed_one m t (raise e) l h k = tt

  claim_next-All :
      (m : OutboxMessage) (rest : L → Outcome ℕ (List Claim) × L) (r : Outcome Fault ℕ × L)
      → P m
      → ((l : L) → ClaimsAll (rest l))
      → ClaimsAll (claim_next st m rest r)
  claim_next-All m rest (ok t, l) h ih = claimed_one m t (rest l).0 (rest l).1 h (ih l)
  claim_next-All m rest (raise (lock_error e), l) h ih = ih l
  claim_next-All m rest (raise (other_error e), l) h ih = tt

  claim_each-All : (ms : List OutboxMessage) → All P ms → (l : L) → ClaimsAll (claim_each st ms l)
  unfolding claim_each
  claim_each-All [] h l = tt
  claim_each-All (m ∷ ms) h l =
      claim_next-All m (claim_each st ms) (st.acquire (resource_of m) l) h.0 (claim_each-All ms h.1)

  pub claimed-All :
      (ms : List OutboxMessage) (l : L) (cs : List Claim)
      → All P ms
      → (claim_each st ms l).0 ≡ ok cs
      → All P (messages_of cs)
  claimed-All ms l cs h k = of_result (claim_each st ms l) (claim_each-All ms h l) k
    where
      of_result :
          (r : Outcome ℕ (List Claim) × L) → ClaimsAll r → r.0 ≡ ok cs → All P (messages_of cs)
      of_result (ok ds, l') a e =
          (let same : ds ≡ cs = cc in subst (λ l. All P (messages_of l)) same a)
      of_result (raise x, l') a e = cc

module _ {L : Type 0} (st : LockStrategy L) (publisher : Publisher)
    (held : L → ResourceIdentifier → ℕ → ℕ) (law : IsCounting st held) where
  settled_only :
      (P : OutboxMessage → Type 0) (size : ℕ) (ms : List OutboxMessage) (w : World L)
      (r : Outcome ℕ ℕ × World L)
      → All P ms
      → length ms ≤ size
      → Settles st publisher held ms w r
      → OnlyPublishes P size w r.1
  settled_only P size ms w (ok n, w') h l (cs, c, _, done) = (
    done.sent,
    done.log,
    omega (arith, length-Delivers done.delivers, length-claims st ms w.locks cs c),
    All-Delivers P done.delivers (claimed-All st P ms w.locks cs h c),
  )
  settled_only P size ms w (raise e, w') h l k = ([], k.1 ∙ sym (append-nil w.log), omega arith, tt)

  pending_batch :
      (size : ℕ) (ms : List OutboxMessage)
      → All (λ m. is_pending m ≡ true) (get_pending size none ms)
  unfolding get_pending
  pending_batch size ms = All-take _ size _ (
      All-sort_by created_before (λ m. is_pending m ≡ true) _
        (All-filter (λ m. is_pending m ≡ true) (fits none) (filter is_pending ms)
          (filter_sound is_pending ms)))

  retry_size :
      (max_retries size : ℕ) (ms : List OutboxMessage)
      → length (filter (is_retryable max_retries) (get_pending size none ms)) ≤ size
  unfolding get_pending
  retry_size max_retries size ms =
      let batch = sort_by created_before (filter (fits none) (filter is_pending ms)) in
      omega
        (arith, length-filter (is_retryable max_retries) (take size batch), length-take size batch)

  -- With a strategy that counts its locks, `retry_failed` publishes at most `batch_size` messages,
  -- and only such that are not published, have failed before and were tried less often than the
  -- limit of retries.
  pub retry_failed_bounds :
      (max_retries size now : ℕ) (w : World L)
      → OnlyPublishes
          (Retries max_retries)
          size
          w
          (retry_failed st publisher max_retries size now w).1
  unfolding retry_failed
  retry_failed_bounds max_retries size now w =
      let batch = filter (is_retryable max_retries) (get_pending size none w.messages) in
      settled_only (Retries max_retries) size batch w _
        (filter_sound_with (λ m. is_pending m ≡ true) (is_retryable max_retries)
          (get_pending size none w.messages) (pending_batch size w.messages))
        (retry_size max_retries size w.messages)
        (process_messages-Settles st publisher held law now batch w)
