-- ===== src/Sagas/Manager.antt =====
-- `SagaManager` of sagas/manager.py over the in-memory repository. The command bus is a parameter:
-- whether `send` of a command returns or raises, given the commands that were sent before.
pub mod Delivery
pub mod Sends
pub mod Processing
use cqrs_ddd.Common.{
  ℕ, Bool, List, Option, some, [], none, true, ◌++◌, false, if◌then◌else◌, map, ◌∷◌, suc, ◌+◌,
}
use cqrs_ddd.Common.Dict.{Dict}
use cqrs_ddd.Common.Outcome.{Outcome, ok, raise}
use cqrs_ddd.Sagas.Repository.{Repo, add, find_by_correlation_id}
use cqrs_ddd.Sagas.Orchestration.{
  Saga, DomainEvent, Handler, MessageRegistry, SagaError, handle, collect_commands, Left, TccStep,
}
use cqrs_ddd.Sagas.State.{
  SagaState, Command, touch, PendingCommand, pending, init_step, is_terminal,
}
use Prim.Native.Nat.{zero}

abbrev pub Bus : Type 0
Bus = List Command → Command → Bool

-- A saga class: its name, the handlers that its constructor registers, and its TCC steps.
pub record SagaClass : Type 0 where
  pub name : ℕ
  pub handlers : Dict Handler
  pub steps : List TccStep

-- What the manager changes: the stored sagas and the commands that the bus took.
pub record World : Type 0 where
  pub repo : Repo
  pub sent : List Command

-- What `_process_saga` raises.
pub data Stop : Type 0 where
  handler_raised : SagaError → Stop
  send_raised : Stop

abbrev pub save : SagaState → World → SagaState × World
unfolding add
save s w = let (s', r) = add s w.repo in (s', record w { repo = r })

-- `serialize_command_for_pending`
abbrev pub pending_of : Command → PendingCommand
pending_of c = record { command = c; dispatched = false }

-- `pending_commands[i]["dispatched"] = True`
abbrev pub mark : ℕ → List PendingCommand → List PendingCommand
mark i [] = []
mark zero (p ∷ ps) = record p { dispatched = true } ∷ ps
mark (suc i) (p ∷ ps) = p ∷ mark i ps

abbrev pub mark_dispatched : ℕ → SagaState → SagaState
mark_dispatched i s = record s { pending_commands = mark i s.pending_commands }

-- What a loop of sends leaves, and whether no send raised.
abbrev pub Sent : Type 0
Sent = (SagaState × World) × Bool

abbrev pub take_command : Command → World → World
take_command c w = record w { sent = w.sent ++ c ∷ [] }

-- The loop of `_dispatch_and_persist_commands` from index `i` on.
abbrev pub dispatch_and_persist : Bus → ℕ → List Command → SagaState → World → Sent
dispatch_and_persist bus i [] s w = ((s, w), true)
dispatch_and_persist bus i (c ∷ cs) s w =
    let (s', w') = save (mark_dispatched i s) (take_command c w) in
    let rest = dispatch_and_persist bus (i + 1) cs s' w' in
    if bus w.sent c then rest else ((s, w), false)

-- `pending_commands.clear()`, `touch` and the save.
abbrev pub clear_pending : ℕ → SagaState → World → World
clear_pending now s w = (save (touch now (record s { pending_commands = [] })) w).1

-- `_create_initial_saga_state`, with `_inject_tenant_metadata`.
abbrev pub initial_state : ℕ → ℕ → ℕ → ℕ → Option DomainEvent → SagaState
initial_state fresh_id type correlation now event = record {
  id = fresh_id;
  version = 0;
  saga_type = type;
  status = pending;
  current_step = init_step;
  step_history = [];
  tcc_steps = [];
  processed_event_ids = [];
  pending_commands = [];
  compensation_stack = [];
  failed_compensations = [];
  suspended_at = none;
  suspension_reason = none;
  timeout_at = none;
  retry_count = 0;
  max_retries = 3;
  error = none;
  completed_at = none;
  failed_at = none;
  correlation_id = some correlation;
  tenant = elim event [ none ↦ none | some e ↦ e.tenant_id ];
  updated_at = now;
}

unfoldable pub load_or_create :
    ℕ → ℕ → SagaClass → ℕ → Option DomainEvent → World → SagaState × World
unfolding find_by_correlation_id
load_or_create fresh_id now c correlation event w =
    elim (find_by_correlation_id correlation c.name w.repo) [
      | none ↦ save (initial_state fresh_id c.name correlation now event) w
      | some s ↦ (s, w)
    ]

abbrev pub new_saga : MessageRegistry → SagaClass → SagaState → Saga
new_saga m c s = record {
  state = s;
  message_registry = some m;
  commands_to_dispatch = [];
  tcc_steps = c.steps;
  tcc_records_cache = none;
}

-- What follows the loop of sends in `_process_saga`.
abbrev pub finish_sends : ℕ → Sent → World × Outcome Stop (Option ℕ)
finish_sends now ((s, w), true) = (clear_pending now s w, ok (some s.id))
finish_sends now ((s, w), false) = (w, raise send_raised)

-- What follows the handler in `_process_saga`: the queued commands are saved and sent.
abbrev pub send_queued : Bus → ℕ → Left → World → World × Outcome Stop (Option ℕ)
unfolding collect_commands
send_queued bus now (g, some e) w = ((save g.state w).1, raise (handler_raised e))
send_queued bus now (g, none) w =
    let (commands, g') = collect_commands g in
    let (s, w') =
      save
        (record (g'.state) {
          pending_commands = g'.state.pending_commands ++ map pending_of commands;
        })
        w in
    finish_sends now (dispatch_and_persist bus 0 commands s w')

-- `_process_saga`
unfoldable pub process_saga :
    Bus
    → MessageRegistry
    → ℕ
    → ℕ
    → SagaClass
    → ℕ
    → Option DomainEvent
    → World
    → World × Outcome Stop (Option ℕ)
process_saga bus m fresh_id now c correlation event w =
    let (s, w') = load_or_create fresh_id now c correlation event w in
    let g = new_saga m c s in
    let handled : Left = elim event [ none ↦ (g, none) | some e ↦ handle c.handlers now e g ] in
    let rest = send_queued bus now handled w' in if is_terminal s then (w', ok none) else rest
