-- ===== src/Outbox/Service/Race.antt =====
-- Two workers with one outbox: a batch that was read before another worker's batch.
use cqrs_ddd.Common.{ℕ, List, refl, ◌≡◌, [], ◌∷◌, ◌++◌, none, map, sym, ap, ◌∙◌, append-nil}
use cqrs_ddd.Common.Outcome.{Outcome, ok, raise, ◌>>=◌}
use cqrs_ddd.Locking.{LockStrategy, ResourceIdentifier, Fault}
use cqrs_ddd.Outbox.{OutboxMessage, get_pending}
use cqrs_ddd.Outbox.Service.{
  Claim, World, Envelope, envelope, Publisher, claim_each, claim_next, resource_of,
  process_messages, process_batch, after_claims, finish_batch,
}
use cqrs_ddd.Outbox.Service.Delivery.{
  Delivers, accepted, refused, finished, messages_of, publish_each-Published, Delivers-log,
}

-- No lock is refused, as when the other worker has given its locks back.
abbrev pub Grants : {L : Type 0} → LockStrategy L → Type 0
Grants {L} st = (x : ResourceIdentifier) (l : L) → (t : ℕ) × ((st.acquire x l).0 ≡ ok t)

abbrev pub Accepts : Publisher → Type 0
Accepts publisher = (e : Envelope) (log : List Envelope) → publisher e log ≡ none

accepted_all :
    {publisher : Publisher} {ms sent : List OutboxMessage} {log log' : List Envelope}
    → Accepts publisher
    → Delivers publisher ms log sent log'
    → sent ≡ ms
accepted_all yes_to (finished log) = refl
accepted_all yes_to (accepted {m} h d) = ap (λ l. m ∷ l) (accepted_all yes_to d)
accepted_all yes_to (refused {m} {ms} {sent} {log} h d) = cc (yes_to (envelope m) log)

module _ {L : Type 0} (st : LockStrategy L) (publisher : Publisher) (grants : Grants st)
    (accepts : Accepts publisher) where
  abbrev ClaimsOf : List OutboxMessage → Outcome ℕ (List Claim) → Type 0
  ClaimsOf ms (ok cs) = messages_of cs ≡ ms
  ClaimsOf ms (raise e) = ⊥

  claims_one :
      (m : OutboxMessage) (t : ℕ) (ms : List OutboxMessage) (r : Outcome ℕ (List Claim))
      → ClaimsOf ms r
      → ClaimsOf (m ∷ ms) (r >>= (λ cs. ok ((m, t) ∷ cs)))
  claims_one m t ms (ok cs) h = ap (λ l. m ∷ l) h
  claims_one m t ms (raise e) h = h

  claims_next :
      (m : OutboxMessage) (ms : List OutboxMessage) (rest : L → Outcome ℕ (List Claim) × L)
      (r : Outcome Fault ℕ × L)
      → ((t : ℕ) × (r.0 ≡ ok t))
      → ((l : L) → ClaimsOf ms (rest l).0)
      → ClaimsOf (m ∷ ms) (claim_next st m rest r).0
  claims_next m ms rest (ok t, l) g ih = claims_one m t ms (rest l).0 (ih l)
  claims_next m ms rest (raise e, l) g ih = cc (g.1)

  claims_all : (ms : List OutboxMessage) (l : L) → ClaimsOf ms (claim_each st ms l).0
  unfolding claim_each
  claims_all [] l = refl
  claims_all (m ∷ ms) l =
      claims_next m ms (claim_each st ms) (st.acquire (resource_of m) l) (grants (resource_of m) l)
        (claims_all ms)

  log_after :
      (now : ℕ) (ms : List OutboxMessage) (w : World L) (r : Outcome ℕ (List Claim) × L)
      → ClaimsOf ms r.0
      → (after_claims st publisher now w r).1.log ≡ w.log ++ map envelope ms
  unfolding finish_batch
  log_after now ms w (raise e, l) h = absurd h
  log_after now ms w (ok [], l) h = sym (append-nil w.log) ∙ ap (λ x. w.log ++ map envelope x) h
  log_after now ms w (ok (c ∷ cs), l) h =
      let p = publish_each-Published publisher (c ∷ cs) (record w { locks = l }) in
      Delivers-log p.delivers
      ∙ ap (λ x. w.log ++ map envelope x) (accepted_all accepts p.delivers ∙ h)

  batch_log :
      (now : ℕ) (ms : List OutboxMessage) (w : World L)
      → (process_messages st publisher now ms w).1.log ≡ w.log ++ map envelope ms
  unfolding process_messages claim_each
  batch_log now [] w = sym (append-nil w.log)
  batch_log now (m ∷ ms) w = log_after now (m ∷ ms) w _ (claims_all (m ∷ ms) w.locks)

  -- A worker that has read its batch, and claims it after another worker has processed the same
  -- pending messages and given its locks back, publishes each of them a second time: where no lock
  -- is refused and the publisher takes what it is given.
  pub publishes_twice :
      (size now later : ℕ) (w : World L)
      → let batch = get_pending size none w.messages in
        (process_messages st publisher later batch (process_batch st publisher size now w).1).1.log
        ≡ w.log ++ map envelope batch ++ map envelope batch
  unfolding process_batch
  publishes_twice size now later w =
      let batch = get_pending size none w.messages in
      batch_log later batch (process_batch st publisher size now w).1
      ∙ ap (λ l. l ++ map envelope batch) (batch_log now batch w)
