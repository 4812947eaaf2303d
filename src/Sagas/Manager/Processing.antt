-- ===== src/Sagas/Manager/Processing.antt =====
-- An event that `_process_saga` handles over a bus that takes every command.
use cqrs_ddd.Common.{
  ℕ, refl, sym, ap, ◌∙◌, List, Option, ◌≡◌, none, some, true, false, ◌++◌, append-nil, map, ◌∷◌,
  ◌+◌, append_assoc, [],
}
use cqrs_ddd.Common.Outcome.{Outcome, ok}
use cqrs_ddd.Sagas.Manager.{
  dispatch_and_persist, process_saga, finish_sends, send_queued, load_or_create, new_saga, save,
  mark_dispatched, take_command, World, Bus, Sent, SagaClass, Stop, pending_of, initial_state,
}
use cqrs_ddd.Sagas.Manager.Delivery.{IsOpen}
use cqrs_ddd.Sagas.Orchestration.{handle, Left, MessageRegistry, DomainEvent, collect_commands}
use cqrs_ddd.Sagas.Repository.{add, find_by_correlation_id}
use cqrs_ddd.Sagas.State.{Command, SagaState, is_terminal}

dispatch_and_persist-open :
    (bus : Bus) (i : ℕ) (cs : List Command) (s : SagaState) (w : World)
    → IsOpen bus
    → ((dispatch_and_persist bus i cs s w).1 ≡ true)
      × ((dispatch_and_persist bus i cs s w).0.1.sent ≡ w.sent ++ cs)
      × ((dispatch_and_persist bus i cs s w).0.0.id ≡ s.id)
unfolding add
dispatch_and_persist-open bus i [] s w o = (refl, sym (append-nil w.sent), refl)
dispatch_and_persist-open bus i (c ∷ cs) s w o =
    let saved = save (mark_dispatched i s) (take_command c w) in
    let r = dispatch_and_persist-open bus (i + 1) cs saved.0 saved.1 o in
    rw (o w.sent c) (r.0, r.1 ∙ append_assoc w.sent (c ∷ []) cs, r.2)

-- What a call that took all commands leaves.
abbrev pub Delivers : List Command → ℕ → World × Outcome Stop (Option ℕ) → Type 0
Delivers sent i r = (r.0.sent ≡ sent) × (r.1 ≡ ok (some i))

finish_sends-Delivers :
    (now : ℕ) (x : Sent) → x.1 ≡ true → Delivers x.0.1.sent x.0.0.id (finish_sends now x)
unfolding add
finish_sends-Delivers now ((s, w), true) h = (refl, refl)
finish_sends-Delivers now ((s, w), false) h = cc

send_queued-Delivers :
    (bus : Bus) (now : ℕ) (x : Left) (w : World)
    → IsOpen bus
    → x.1 ≡ none
    → Delivers (w.sent ++ x.0.commands_to_dispatch) x.0.state.id (send_queued bus now x w)
unfolding add collect_commands
send_queued-Delivers bus now (g, some e) w o h = cc
send_queued-Delivers bus now (g, none) w o h =
    let cs = g.commands_to_dispatch in
    let (s, w') =
      save (record (g.state) { pending_commands = g.state.pending_commands ++ map pending_of cs })
        w in
    let sends = dispatch_and_persist bus 0 cs s w' in
    let all = dispatch_and_persist-open bus 0 cs s w' o in
    let end = finish_sends-Delivers now sends all.0 in
    (end.0 ∙ all.1, end.1 ∙ ap (λ i. ok (some i)) all.2)

sent_either :
    (fresh : SagaState) (w : World) (o : Option SagaState)
    → (elim o as (λ _. SagaState × World) [ none ↦ save fresh w | some s ↦ (s, w) ]).1.sent ≡ w.sent
unfolding add
sent_either fresh w none = refl
sent_either fresh w (some s) = refl

loaded-sent :
    (fresh_id now : ℕ) (c : SagaClass) (correlation : ℕ) (e : Option DomainEvent) (w : World)
    → (load_or_create fresh_id now c correlation e w).1.sent ≡ w.sent
unfolding load_or_create find_by_correlation_id
loaded-sent fresh_id now c correlation e w =
    sent_either (initial_state fresh_id c.name correlation now e) w
      (find_by_correlation_id correlation c.name w.repo)

-- What the handlers of a class make of an event for the saga of a correlation.
abbrev pub handled_by : MessageRegistry → ℕ → ℕ → SagaClass → ℕ → DomainEvent → World → Left
handled_by m fresh_id now c correlation e w =
    handle c.handlers now e (new_saga m c (load_or_create fresh_id now c correlation (some e) w).0)

-- Over a bus that takes every command, for a saga that is found or created and is not in a terminal
-- state, and an event that `handle` raises nothing for, `_process_saga` returns the saga's
-- identifier, and the bus has got exactly the commands that the handlers queued, in their order.
pub process_saga-Delivers :
    (bus : Bus) (m : MessageRegistry) (fresh_id now : ℕ) (c : SagaClass) (correlation : ℕ)
    (e : DomainEvent) (w : World)
    → IsOpen bus
    → is_terminal (load_or_create fresh_id now c correlation (some e) w).0 ≡ false
    → (handled_by m fresh_id now c correlation e w).1 ≡ none
    → Delivers
        (w.sent ++ (handled_by m fresh_id now c correlation e w).0.commands_to_dispatch)
        (handled_by m fresh_id now c correlation e w).0.state.id
        (process_saga bus m fresh_id now c correlation (some e) w)
unfolding process_saga
process_saga-Delivers bus m fresh_id now c correlation e w o t h =
    let x = handled_by m fresh_id now c correlation e w in
    let w' = (load_or_create fresh_id now c correlation (some e) w).1 in
    let d = send_queued-Delivers bus now x w' o h in
    rw t (
      d.0
          ∙ ap (λ l. l ++ x.0.commands_to_dispatch)
              (loaded-sent fresh_id now c correlation (some e) w),
      d.1,
    )
