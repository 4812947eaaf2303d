-- ===== src/Outbox/Service/Refusals.antt =====
-- What phase 2 of `OutboxService` records of the messages that the publisher refuses.
use cqrs_ddd.Common.{
  ℕ, List, Option, refl, [], ◌∷◌, ◌≡◌, ◌∙◌, ◌++◌, ◌+◌, ◌==◌, none, some, arith, if◌then◌else◌, ap,
  map,
}
use cqrs_ddd.Outbox.{OutboxMessage, mark_failed, mark_published}
use cqrs_ddd.Outbox.Service.{
  Claim, World, envelope, Publisher, publish_each, publish_next, Envelope,
}

-- The errors of the messages that the publisher refuses, one after the other.
abbrev pub refusals : Publisher → List OutboxMessage → List Envelope → List (ℕ × ℕ)
refusals publisher [] log = []
refusals publisher (m ∷ ms) log = elim (publisher (envelope m) log) [
  | none ↦ refusals publisher ms (log ++ envelope m ∷ [])
  | some e ↦ (m.message_id, e) ∷ refusals publisher ms log
]

-- The failures and the last error of the first message with an identifier.
abbrev pub failures : ℕ → List OutboxMessage → Option (ℕ × Option ℕ)
failures i [] = none
failures i (m ∷ ms) = if m.message_id == i then some (m.retry_count, m.error) else failures i ms

abbrev pub one_more : (error : ℕ) → Option (ℕ × Option ℕ) → Option (ℕ × Option ℕ)
one_more e none = none
one_more e (some (n, old)) = some (n + 1, some e)

-- Each refusal of the message counts once, and the last one leaves its error.
abbrev pub counting : ℕ → List (ℕ × ℕ) → Option (ℕ × Option ℕ) → Option (ℕ × Option ℕ)
counting i [] x = x
counting i ((j, e) ∷ rs) x = counting i rs (if j == i then one_more e x else x)

failures-mark_failed :
    (i j e : ℕ) (ms : List OutboxMessage)
    → failures i (mark_failed j e ms)
      ≡ (if j == i then one_more e (failures i ms) else failures i ms)
unfolding mark_failed
failures-mark_failed i j e [] = ground arith
failures-mark_failed i j e (m ∷ ms) = ground (arith, failures-mark_failed i j e ms)

pub failures-mark_published :
    (i now : ℕ) (ids : List ℕ) (ms : List OutboxMessage)
    → failures i (mark_published now ids ms) ≡ failures i ms
unfolding mark_published
failures-mark_published i now ids [] = refl
failures-mark_published i now ids (m ∷ ms) = ground (arith, failures-mark_published i now ids ms)

module _ {L : Type 0} (publisher : Publisher) where
  abbrev pub Records : List Claim → World L → List ℕ × World L → Type 0
  Records cs w r =
      (i : ℕ)
      → failures i r.1.messages
        ≡ counting i (refusals publisher (map (λ c. c.0) cs) w.log) (failures i w.messages)

  publish_next-Records :
      (m : OutboxMessage) (t : ℕ) (cs : List Claim) (rest : World L → List ℕ × World L)
      (w : World L) (o : Option ℕ)
      → publisher (envelope m) w.log ≡ o
      → ((w' : World L) → Records cs w' (rest w'))
      → Records ((m, t) ∷ cs) w (publish_next publisher m rest o w)
  unfolding publish_next
  publish_next-Records m t cs rest w none h ih =
      λ i. rw h (ih (record w { log = w.log ++ envelope m ∷ [] }) i)
  publish_next-Records m t cs rest w (some e) h ih = λ i. rw h (
      ih (record w { messages = mark_failed m.message_id e w.messages }) i
      ∙ ap (counting i (refusals publisher (map (λ c. c.0) cs) w.log))
          (failures-mark_failed i m.message_id e w.messages))

  pub publish_each-Records :
      (cs : List Claim) (w : World L) → Records cs w (publish_each publisher cs w)
  unfolding publish_each
  publish_each-Records [] w = λ i. refl
  publish_each-Records ((m, t) ∷ cs) w =
      publish_next-Records m t cs (publish_each publisher cs) w _ refl (publish_each-Records cs)
