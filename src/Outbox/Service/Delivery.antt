-- ===== src/Outbox/Service/Delivery.antt =====
-- What phase 2 of `OutboxService` publishes, and what becomes of the pending messages.
use cqrs_ddd.Common.{
  ℕ, Bool, List, refl, ◌≡◌, [], ◌∷◌, ◌++◌, none, some, arith, map, sym, ap, ◌∙◌, filter, contains,
  not, append_assoc, append-nil, Option,
}
use cqrs_ddd.Outbox.{OutboxMessage, is_pending, mark_failed, mark_published}
use cqrs_ddd.Outbox.Service.{
  Claim, World, Envelope, envelope, Publisher, publish_each, publish_next,
}

-- The messages that the publisher takes, one after the other: which ones, and what is published
-- in the end.
pub data Delivers (publisher : Publisher)
    : List OutboxMessage → List Envelope → List OutboxMessage → List Envelope → Type 0 where
  finished : (log : List Envelope) → Delivers publisher [] log [] log
  accepted :
      {m : OutboxMessage} {ms sent : List OutboxMessage} {log log' : List Envelope}
      → publisher (envelope m) log ≡ none
      → Delivers publisher ms (log ++ envelope m ∷ []) sent log'
      → Delivers publisher (m ∷ ms) log (m ∷ sent) log'
  refused :
      {m : OutboxMessage} {ms sent : List OutboxMessage} {log log' : List Envelope} {e : ℕ}
      → publisher (envelope m) log ≡ some e
      → Delivers publisher ms log sent log'
      → Delivers publisher (m ∷ ms) log sent log'

-- The envelopes are appended in order.
pub Delivers-log :
    {publisher : Publisher} {ms sent : List OutboxMessage} {log log' : List Envelope}
    → Delivers publisher ms log sent log'
    → log' ≡ log ++ map envelope sent
Delivers-log (finished log) = sym (append-nil log)
Delivers-log (accepted {m} {ms} {sent} {log} h d) =
    Delivers-log d ∙ append_assoc log (envelope m ∷ []) (map envelope sent)
Delivers-log (refused h d) = Delivers-log d

abbrev pub ids_of : List OutboxMessage → List ℕ
ids_of ms = map (λ m. m.message_id) ms

-- The identifiers of the messages that are not published.
abbrev pub pending_ids : List OutboxMessage → List ℕ
pending_ids ms = ids_of (filter is_pending ms)

abbrev pub outside : List ℕ → ℕ → Bool
outside ids i = not (contains ids i)

pending_ids-mark_failed :
    (i e : ℕ) (ms : List OutboxMessage) → pending_ids (mark_failed i e ms) ≡ pending_ids ms
unfolding mark_failed
pending_ids-mark_failed i e [] = refl
pending_ids-mark_failed i e (m ∷ ms) = ground (arith, pending_ids-mark_failed i e ms)

pub pending_ids-mark_published :
    (now : ℕ) (ids : List ℕ) (ms : List OutboxMessage)
    → pending_ids (mark_published now ids ms) ≡ filter (outside ids) (pending_ids ms)
unfolding mark_published
pending_ids-mark_published now ids [] = refl
pending_ids-mark_published now ids (m ∷ ms) = ground (arith, pending_ids-mark_published now ids ms)

pub outside_none : (is : List ℕ) → filter (outside []) is ≡ is
outside_none [] = refl
outside_none (i ∷ is) = ap (λ l. i ∷ l) (outside_none is)

abbrev pub messages_of : List Claim → List OutboxMessage
messages_of cs = map (λ c. c.0) cs

module _ {L : Type 0} (publisher : Publisher) where
  -- The loop publishes what the publisher takes; it leaves the locks, and no message ceases to be
  -- pending in it.
  pub record Published (cs : List Claim) (w : World L) (r : List ℕ × World L) : Type 0 where
    pub sent : List OutboxMessage
    pub delivers : Delivers publisher (messages_of cs) w.log sent r.1.log
    pub names : r.0 ≡ ids_of sent
    pub pending : pending_ids r.1.messages ≡ pending_ids w.messages
    pub same_locks : r.1.locks ≡ w.locks

  Published-none : (w : World L) → Published [] w ([], w)
  Published-none w = record {
    sent = [];
    delivers = finished w.log;
    names = refl;
    pending = refl;
    same_locks = refl;
  }

  publish_next-Published :
      (m : OutboxMessage) (t : ℕ) (cs : List Claim) (rest : World L → List ℕ × World L)
      (w : World L) (o : Option ℕ)
      → publisher (envelope m) w.log ≡ o
      → ((w' : World L) → Published cs w' (rest w'))
      → Published ((m, t) ∷ cs) w (publish_next publisher m rest o w)
  unfolding publish_next
  publish_next-Published m t cs rest w none h ih =
      let p = ih (record w { log = w.log ++ envelope m ∷ [] }) in
      record {
        sent = m ∷ p.sent;
        delivers = accepted h p.delivers;
        names = ap (λ l. m.message_id ∷ l) p.names;
        pending = p.pending;
        same_locks = p.same_locks;
      }
  publish_next-Published m t cs rest w (some e) h ih =
      let p = ih (record w { messages = mark_failed m.message_id e w.messages }) in
      record {
        sent = p.sent;
        delivers = refused h p.delivers;
        names = p.names;
        pending = p.pending ∙ pending_ids-mark_failed m.message_id e w.messages;
        same_locks = p.same_locks;
      }

  pub publish_each-Published :
      (cs : List Claim) (w : World L) → Published cs w (publish_each publisher cs w)
  unfolding publish_each
  publish_each-Published [] w = Published-none w
  publish_each-Published ((m, t) ∷ cs) w =
      publish_next-Published m t cs (publish_each publisher cs) w _ refl (publish_each-Published cs)
