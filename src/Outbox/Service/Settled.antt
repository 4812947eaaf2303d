-- ===== src/Outbox/Service/Settled.antt =====
-- A batch of `OutboxService`: what is published, what stays pending, and the locks.
use cqrs_ddd.Common.{
  ℕ, List, refl, ◌≡◌, [], ◌∷◌, ◌++◌, if◌then◌else◌, arith, map, sym, ap, ◌∙◌, filter, length,
  is_empty, suc, append-nil, subst,
}
use cqrs_ddd.Common.Outcome.{Outcome, ok, raise}
use cqrs_ddd.Locking.{LockStrategy, ResourceIdentifier}
use cqrs_ddd.Outbox.{OutboxMessage, mark_published}
use cqrs_ddd.Outbox.Service.{
  Claim, World, envelope, Publisher, publish_each, claim_each, finish_batch, after_claims,
  process_messages,
}
use cqrs_ddd.Locking.Counted.{IsCounting}
use cqrs_ddd.Outbox.Service.Locks.{Asks, all_asked, claim_each-Asks}
use cqrs_ddd.Outbox.Service.Refusals.{
  failures, counting, refusals, publish_each-Records, failures-mark_published,
}
use cqrs_ddd.Outbox.Service.Claims.{Claimed, claim_each-Claimed, release_claims-held}
use cqrs_ddd.Outbox.Service.Delivery.{
  finished, Delivers, Delivers-log, ids_of, pending_ids, outside, outside_none, messages_of,
  Published, publish_each-Published, pending_ids-mark_published,
}

module _ {L : Type 0} (st : LockStrategy L) (publisher : Publisher)
    (held : L → ResourceIdentifier → ℕ → ℕ) where
  -- The batch of these claims is over: what the publisher took is published in order, counted and
  -- not pending any more, what it refused is still pending and has one failure more with the error of
  -- the publisher, and each lock is held as before.
  pub record BatchDone (cs : List Claim) (w : World L) (n : ℕ) (w' : World L) : Type 0 where
    pub sent : List OutboxMessage
    pub delivers : Delivers publisher (messages_of cs) w.log sent w'.log
    pub log : w'.log ≡ w.log ++ map envelope sent
    pub counted : n ≡ length sent
    pub pending : pending_ids w'.messages ≡ filter (outside (ids_of sent)) (pending_ids w.messages)
    pub failed :
        (i : ℕ)
        → failures i w'.messages
          ≡ counting i (refusals publisher (messages_of cs) w.log) (failures i w.messages)
    pub locks : (y : ResourceIdentifier) (u : ℕ) → held w'.locks y u ≡ held w.locks y u

  -- What a batch does with the messages that could be locked, where each one is asked for: another
  -- error than a refused lock ends it before anything is published.
  abbrev pub Settles : (ms : List OutboxMessage) (w : World L) → Outcome ℕ ℕ × World L → Type 0
  Settles ms w (ok n, w') =
      (cs : List Claim) × ((claim_each st ms w.locks).0 ≡ ok cs)
      × ((l : L) × Asks st ms w.locks (ok cs) l)
      × BatchDone cs w n w'
  Settles ms w (raise e, w') =
      (w'.messages ≡ w.messages) × (w'.log ≡ w.log) × Asks st ms w.locks (raise e) w'.locks

  asked :
      (ms : List OutboxMessage) (l : L) (r : Outcome ℕ (List Claim) × L)
      → claim_each st ms l ≡ r
      → Asks st ms l r.0 r.1
  asked ms l r h = subst (λ p. Asks st ms l p.0 p.1) h (claim_each-Asks st ms l)

  failures_marked :
      (i now : ℕ) (ids : List ℕ) (ms : List OutboxMessage)
      → failures i (if is_empty ids then ms else mark_published now ids ms) ≡ failures i ms
  failures_marked i now [] ms = refl
  failures_marked i now (j ∷ ids) ms = failures-mark_published i now (j ∷ ids) ms

  pending_marked :
      (now : ℕ) (ids : List ℕ) (ms : List OutboxMessage)
      → pending_ids (if is_empty ids then ms else mark_published now ids ms)
        ≡ filter (outside ids) (pending_ids ms)
  pending_marked now [] ms = sym (outside_none (pending_ids ms))
  pending_marked now (i ∷ ids) ms = pending_ids-mark_published now (i ∷ ids) ms

  length-ids_of : (ms : List OutboxMessage) → length (ids_of ms) ≡ length ms
  length-ids_of [] = refl
  length-ids_of (m ∷ ms) = ap (λ n. suc n) (length-ids_of ms)

  module _ (law : IsCounting st held) where
    finish_batch-Settles :
        (now : ℕ) (ms : List OutboxMessage) (cs : List Claim) (w : World L) (l : L)
        → claim_each st ms w.locks ≡ (ok cs, l)
        → Claimed st held law w.locks (ok cs, l)
        → Settles ms w (finish_batch st publisher now cs (record w { locks = l }))
    unfolding finish_batch
    finish_batch-Settles now ms cs w l c h =
        let p : Published publisher cs (record w { locks = l })
            (publish_each publisher cs (record w { locks = l })) =
          publish_each-Published publisher cs (record w { locks = l }) in
        let (ids, w') = publish_each publisher cs (record w { locks = l }) in
        (
          cs,
          ap (λ q. q.0) c,
          (l, asked ms w.locks (ok cs, l) c),
          record {
            sent = p.sent;
            delivers = p.delivers;
            log = Delivers-log p.delivers;
            counted = ap length p.names ∙ length-ids_of p.sent;
            pending =
                pending_marked now ids w'.messages
                ∙ ap (λ is. filter (outside is) (pending_ids w'.messages)) p.names
                ∙ ap (filter (outside (ids_of p.sent))) p.pending;
            failed = λ i.
                failures_marked i now ids w'.messages
                ∙ publish_each-Records publisher cs (record w { locks = l }) i;
            locks =
                release_claims-held st held law cs w'.locks (held w.locks)
                  (λ y u. ap (λ x. held x y u) p.same_locks ∙ h y u);
          },
        )

    nothing-Claimed :
        (w : World L) (l : L)
        → Claimed st held law w.locks (ok [], l)
        → BatchDone [] w 0 (record w { locks = l })
    nothing-Claimed w l h = record {
      sent = [];
      delivers = finished w.log;
      log = sym (append-nil w.log);
      counted = refl;
      pending = sym (outside_none (pending_ids w.messages));
      failed = λ i. refl;
      locks = λ y u. omega (arith, h y u);
    }

    after_claims-Settles :
        (now : ℕ) (ms : List OutboxMessage) (w : World L) (r : Outcome ℕ (List Claim) × L)
        → claim_each st ms w.locks ≡ r
        → Claimed st held law w.locks r
        → Settles ms w (after_claims st publisher now w r)
    unfolding finish_batch
    after_claims-Settles now ms w (raise e, l) h k = (refl, refl, asked ms w.locks (raise e, l) h)
    after_claims-Settles now ms w (ok [], l) h k =
        ([], ap (λ p. p.0) h, (l, asked ms w.locks (ok [], l) h), nothing-Claimed w l k)
    after_claims-Settles now ms w (ok (c ∷ cs), l) h k =
        finish_batch-Settles now ms (c ∷ cs) w l h k

    -- With a strategy that counts its locks, a batch asks for the lock of each message in order, and
    -- goes on after a refused lock. It publishes, in order, what the publisher takes of the messages
    -- that it could lock, and returns their number; exactly the identifiers of these cease to be
    -- pending, a message that the publisher refuses has one failure more and its error, and each lock
    -- is held as often as before. If taking a lock fails otherwise than by a conflict, nothing is
    -- published and the messages are as before.
    pub process_messages-Settles :
        (now : ℕ) (ms : List OutboxMessage) (w : World L)
        → Settles ms w (process_messages st publisher now ms w)
    unfolding process_messages claim_each
    process_messages-Settles now [] w =
        ([], refl, (w.locks, all_asked w.locks), nothing-Claimed w w.locks (λ y u. omega arith))
    process_messages-Settles now (m ∷ ms) w =
        after_claims-Settles now (m ∷ ms) w _ refl (claim_each-Claimed st held law (m ∷ ms) w.locks)
