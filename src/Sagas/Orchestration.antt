-- ===== src/Sagas/Orchestration.antt =====
-- `Saga` of sagas/orchestration.py without its TCC part. A call may raise after it has changed the
-- state, so it returns the saga that it leaves and the error that it raises. A handler is code of
-- the saga's author: it is a function of the model's user.
pub mod Compensation
pub mod Idempotence
use cqrs_ddd.Common.{
  ℕ, Bool, List, Option, if◌then◌else◌, none, some, [], true, ◌&&◌, ◌++◌, ◌∷◌, not, reverse, ◌+◌,
  false, is_empty, ◌||◌,
}
use cqrs_ddd.Common.Dict.{Dict, lookup, insert}
use cqrs_ddd.Common.Outcome.{Outcome, ok, raise}
use cqrs_ddd.Sagas.State.{
  SagaState, Command, CompensationRecord, Reason, timed_out, touch, Reservation, TccStepRecord,
  compensating, completed, is_status, named, suspended, pending, running, record_step, failed,
  mark_event_processed, compensated, is_terminal, is_event_processed, timed_out_for,
}

-- The commands of a `MessageRegistry`: for each registered type what `model_validate` makes of the data.
abbrev pub MessageRegistry : Type 0
MessageRegistry = Dict (ℕ → Option Command)

-- `MessageRegistry.hydrate_command`
unfoldable pub hydrate_command : MessageRegistry → ℕ → ℕ → Option Command
hydrate_command r type data_of = elim (lookup type r) [
  | none ↦ none
  | some validate ↦ validate data_of
]

pub record DomainEvent : Type 0 where
  pub event_id : ℕ
  pub type : ℕ
  pub payload : ℕ
  pub correlation_id : Option ℕ
  pub tenant_id : Option ℕ

-- `SagaConfigurationError`, `SagaHandlerNotFoundError`, the texts of `SagaStateError`, and what a
-- handler of a saga raises.
pub data SagaError : Type 0 where
  both_given none_given : SagaError
  step_registered : (step : ℕ) → SagaError
  timeout_required : (step : ℕ) → SagaError
  handler_not_found : (event_type : ℕ) → SagaError
  registry_required no_steps already_started : SagaError
  raised_by_handler : ℕ → SagaError

-- `TCCStep`
pub record TccStep : Type 0 where
  pub name : ℕ
  pub try_command : Command
  pub confirm_command : Command
  pub cancel_command : Command
  pub reservation_type : Reservation
  pub timeout : Option ℕ

pub record Saga : Type 0 where
  pub state : SagaState
  pub message_registry : Option MessageRegistry
  pub commands_to_dispatch : List Command
  pub tcc_steps : List TccStep
  pub tcc_records_cache : Option (List TccStepRecord)

-- What a call leaves: the saga, and the error if it raised one.
abbrev pub Left : Type 0
Left = Saga × Option SagaError

abbrev pub Handler : Type 0
Handler = ℕ → DomainEvent → Saga → Left

-- The statement after a call, which an error skips.
abbrev pub and_then : Left → (Saga → Left) → Left
and_then (g, none) k = k g
and_then (g, some e) k = (g, some e)

abbrev pub on_state : (SagaState → SagaState) → Saga → Saga
on_state f g = record g { state = f g.state }

unfoldable pub dispatch : Command → Saga → Saga
dispatch c g = record g { commands_to_dispatch = g.commands_to_dispatch ++ c ∷ [] }

unfoldable pub collect_commands : Saga → List Command × Saga
collect_commands g = (g.commands_to_dispatch, record g { commands_to_dispatch = [] })

unfoldable pub complete : ℕ → Saga → Saga
complete now = on_state (λ s. touch now (record s { status = completed; completed_at = some now }))

unfoldable pub suspend : Reason → Option ℕ → ℕ → Saga → Saga
suspend reason timeout now = on_state (λ s. touch now (record s {
  status = suspended;
  suspended_at = some now;
  suspension_reason = some reason;
  timeout_at = elim timeout [ none ↦ none | some t ↦ some (now + t) ];
}))

unfoldable pub resume : ℕ → Saga → Saga
resume now g =
    if is_status g.state.status suspended
    then on_state
        (λ s. touch now (record s {
          status = running;
          suspended_at = none;
          suspension_reason = none;
          timeout_at = none;
        }))
        g
    else g

unfoldable pub add_compensation : Command → ℕ → Saga → Saga
add_compensation c description = on_state (λ s. record s {
  compensation_stack =
      s.compensation_stack ++ record { command = c; description = description } ∷ [];
})

-- The body of the loop of `execute_compensations` on the record that was popped, with
-- `has_failures`, when the registry made a command of it or none.
abbrev pub compensate_with : Option Command → ℕ → CompensationRecord → Saga × Bool → Saga × Bool
compensate_with none now c (g, failures) = (
  on_state
      (λ s. record s {
        failed_compensations =
            s.failed_compensations
            ++ record { command_type = c.command.type; failed_at = now } ∷ [];
      })
      g,
  true,
)
compensate_with (some command) now c (g, failures) = (dispatch command g, failures)

abbrev pub compensate_one : MessageRegistry → ℕ → CompensationRecord → Saga × Bool → Saga × Bool
compensate_one r now c = compensate_with (hydrate_command r c.command.type c.command.data_of) now c

-- The loop pops from the end of the stack: it runs through the reversed stack.
abbrev pub compensate_each :
    MessageRegistry → ℕ → List CompensationRecord → Saga × Bool → Saga × Bool
compensate_each r now [] x = x
compensate_each r now (c ∷ cs) x = compensate_each r now cs (compensate_one r now c x)

-- The state that ends the compensation, by `has_failures`.
abbrev pub settle : ℕ → Saga × Bool → Saga
settle now (g, failures) =
    on_state (λ s. touch now (record s { status = if failures then failed else compensated })) g

unfoldable pub execute_compensations : ℕ → Saga → Left
execute_compensations now g =
    let popped = reverse g.state.compensation_stack in
    let started =
      on_state (λ s. touch now (record s { status = compensating; compensation_stack = [] })) g in
    elim g.message_registry [
      | none ↦ (g, some registry_required)
      | some r ↦ (settle now (compensate_each r now popped (started, false)), none)
    ]

unfoldable pub fail : Reason → Bool → ℕ → Saga → Left
fail reason compensate now g =
    let g' = on_state (λ s. record s { error = some reason; failed_at = some now }) g in
    let run = execute_compensations now g' in
    if compensate && not (is_empty g.state.compensation_stack)
    then run
    else (on_state (λ s. touch now (record s { status = failed })) g', none)

unfoldable pub on_timeout : ℕ → Saga → Left
on_timeout now g =
    let reason : Reason = elim g.state.suspension_reason [
      | none ↦ timed_out
      | some r ↦ timed_out_for r
    ] in
    fail reason true now g

-- The handler that `on` builds from a command mapper.
unfoldable pub mapped_handler :
    (DomainEvent → Command) → Option ℕ → Option (DomainEvent → Command) → ℕ → Bool → Handler
mapped_handler send step compensate description ends now e g =
    let stepped : Saga = elim step [
      | none ↦ g
      | some n ↦ on_state (λ s. record s { current_step = named n }) g
    ] in
    let sent = dispatch (send e) stepped in
    let covered : Saga = elim compensate [
      | none ↦ sent
      | some c ↦ add_compensation (c e) description sent
    ] in
    (if ends then complete now covered else covered, none)

-- `on`, with the mapper's keyword arguments already made a handler.
unfoldable pub on :
    ℕ → Option Handler → Option Handler → Dict Handler → Outcome SagaError (Dict Handler)
on type none none hs = raise none_given
on type (some h) (some m) hs = raise both_given
on type (some h) none hs = ok (insert type h hs)
on type none (some m) hs = ok (insert type m hs)

abbrev pub handle_event : Dict Handler → Handler
handle_event hs now e g = elim (lookup e.type hs) [
  | none ↦ (g, some (handler_not_found e.type))
  | some h ↦ h now e g
]

-- What `handle` does after the handler: it notes the event and the step.
abbrev pub close : ℕ → DomainEvent → Saga → Left
close now e g = (
  on_state (λ s. record_step s.current_step e.type now (mark_event_processed e.event_id s)) g,
  none,
)

-- What `handle` does before the handler: a PENDING saga runs.
abbrev pub open_saga : Saga → Saga
open_saga g =
    on_state (λ s. record s { status = if is_status s.status pending then running else s.status })
      (record g { tcc_records_cache = none })

-- `handle`
unfoldable pub handle : Dict Handler → Handler
handle hs now e g =
    let closed = and_then (handle_event hs now e (open_saga g)) (close now e) in
    if is_terminal g.state || is_event_processed e.event_id g.state
    then (record g { tcc_records_cache = none }, none)
    else closed
