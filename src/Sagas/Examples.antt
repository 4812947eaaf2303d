-- ===== src/Sagas/Examples.antt =====
-- The theorems on sagas at concrete sagas.
use cqrs_ddd.Sagas.Registry.{Registered, SagaRegistry, register_saga, handle_event}
use cqrs_ddd.Common.{ℕ, refl, [], none, ◌∷◌, ◌≡◌, is_empty, some, true, map, arith, ◌+◌}
use cqrs_ddd.Sagas.State.{
  SagaState, Command, CompensationRecord, Phase, completed, given, tried, TccStepRecord, running,
  trying, is_terminal, resource, confirming_step,
}
use cqrs_ddd.Sagas.Orchestration.{
  Saga, execute_compensations, handle, DomainEvent, MessageRegistry, hydrate_command,
  mapped_handler, Handler, dispatch, complete, collect_commands,
}
use cqrs_ddd.Sagas.Orchestration.Compensation.{execute_compensations-eq, compensated_saga}
use cqrs_ddd.Sagas.Orchestration.Idempotence.{handle-handle, reopened}
use cqrs_ddd.Sagas.Tcc.{mark_step_failed, mark_step_tried, load_tcc_records}
use cqrs_ddd.Sagas.Tcc.Cancels.{mark_step_failed-eq, cancelled_saga, held}
use cqrs_ddd.Sagas.Tcc.Confirms.{mark_step_tried-eq, with_records, confirming_record, after_try}
use cqrs_ddd.Sagas.Manager.{
  initial_state, pending_of, World, dispatch_and_persist, Bus, SagaClass, save, load_or_create,
  process_saga,
}
use cqrs_ddd.Sagas.Manager.Processing.{process_saga-Delivers, Delivers}
use cqrs_ddd.Sagas.Manager.Delivery.{delivered_once, Arrived}
use cqrs_ddd.Sagas.Recovery.Abandoned.{recover_one-abandons, abandoned_state}
use cqrs_ddd.Common.Dict.{Dict}
use cqrs_ddd.Sagas.Repository.{find_stalled_sagas, Repo, add, find_by_correlation_id}
use cqrs_ddd.Sagas.Recovery.{recover_pending_sagas, recover_one}

abbrev command_of : ℕ → Command
command_of n = record { type = n; module_name = 0; data_of = n }

abbrev registry : MessageRegistry
registry = (1, λ d. some (command_of 1)) ∷ (2, λ d. some (command_of 2)) ∷ (3, λ d. none) ∷ []

abbrev compensation : ℕ → CompensationRecord
compensation n = record { command = command_of n; description = 0 }

abbrev begun : SagaState
begun = record (initial_state 1 8 77 0 none) {
  status = running;
  compensation_stack = compensation 1 ∷ compensation 3 ∷ compensation 2 ∷ [];
  pending_commands = map pending_of (command_of 1 ∷ command_of 2 ∷ []);
  retry_count = 3;
}

abbrev tcc_record : ℕ → Phase → TccStepRecord
tcc_record n p = record {
  name = n;
  phase = p;
  reservation_type = resource;
  try_command = command_of 1;
  confirm_command = command_of 2;
  cancel_command = command_of 1;
  error = none;
  tried_at = none;
  confirmed_at = none;
  cancelled_at = none;
  timeout_at = none;
}

abbrev saga : Saga
saga = record {
  state = record begun { tcc_steps = tcc_record 1 tried ∷ tcc_record 2 trying ∷ [] };
  message_registry = some registry;
  commands_to_dispatch = [];
  tcc_steps = [];
  tcc_records_cache = none;
}

abbrev event : DomainEvent
event = record { event_id = 4; type = 6; payload = 0; correlation_id = some 77; tenant_id = none }

-- A handler that queues a command and completes the saga.
abbrev handlers : Dict Handler
handlers = (6, mapped_handler (λ e. command_of 1) (some 2) none 0 true) ∷ []

execute_compensations-eq_example :
    execute_compensations 9 saga ≡ (compensated_saga registry 9 saga, none)
execute_compensations-eq_example = execute_compensations-eq registry 9 saga refl

handle-handle_example :
    handle handlers 10 event (handle handlers 9 event saga).0
    ≡ (reopened (handle handlers 9 event saga).0, none)
unfolding handle mapped_handler dispatch complete
handle-handle_example = handle-handle handlers 9 10 event saga refl

abbrev ended_saga : Saga
ended_saga = record saga { state = record begun { status = completed } }

mark_step_failed-eq_example :
    (mark_step_failed 2 (given 3) 9 saga ≡ (cancelled_saga 2 (given 3) 9 saga, none))
    × (held (cancelled_saga 2 (given 3) 9 saga).state.tcc_steps ≡ [])
unfolding load_tcc_records hydrate_command
mark_step_failed-eq_example =
    mark_step_failed-eq registry 2 (given 3) 9 saga refl (refl, (refl, tt))

mark_step_tried-eq_example :
    let rs = after_try 2 9 (load_tcc_records saga) in
    mark_step_tried 2 9 saga ≡ (
      with_records
          (map confirming_record rs)
          (command_of 2 ∷ command_of 2 ∷ [])
          confirming_step
          9
          saga,
      none,
    )
unfolding load_tcc_records hydrate_command
mark_step_tried-eq_example = mark_step_tried-eq registry 2 9 saga refl (refl, (refl, tt))

abbrev saga_store : Repo
saga_store = (1, begun) ∷ []

abbrev world : World
world = record { repo = saga_store; sent = [] }

-- A bus that refuses the second command, and one that takes every command.
abbrev refusing : Bus
refusing sent c = is_empty sent

abbrev taking : Bus
taking sent c = true

-- The saga with retries left.
abbrev retried : SagaState
retried = record begun { retry_count = 2 }

delivered_once_example : Arrived (command_of 1 ∷ command_of 2 ∷ []) 1 (
    recover_pending_sagas taking registry some [] 10 9
      (dispatch_and_persist refusing 0 (command_of 1 ∷ command_of 2 ∷ []) retried world).0.1)
unfolding hydrate_command find_stalled_sagas add
delivered_once_example =
    delivered_once refusing taking registry some [] 10 9 (command_of 1 ∷ command_of 2 ∷ []) retried
      world (λ sent c. refl) (refl, (refl, tt)) refl refl (omega arith) refl

abbrev saga_class : SagaClass
saga_class = record { name = 8; handlers = handlers; steps = [] }

recover_one-abandons_example :
    (recover_one taking registry some ((8, saga_class) ∷ []) 9 begun world
      ≡ (save (abandoned_state registry saga_class 9 begun) world).1)
    × ((save (abandoned_state registry saga_class 9 begun) world).1.sent ≡ [])
    × (is_terminal (abandoned_state registry saga_class 9 begun) ≡ true)
unfolding add
recover_one-abandons_example =
    recover_one-abandons taking registry some ((8, saga_class) ∷ []) 9 saga_class begun world refl
      refl (omega arith)

process_saga-Delivers_example :
    Delivers
      (command_of 1 ∷ [])
      1
      (process_saga taking registry 5 9 saga_class 77 (some event) world)
unfolding load_or_create find_by_correlation_id handle mapped_handler dispatch complete
process_saga-Delivers_example =
    process_saga-Delivers taking registry 5 9 saga_class 77 event world (λ sent c. refl) refl refl

-- Two classes that listen to the event, and one that does not.
abbrev class_of : ℕ → ℕ → Registered
class_of i listened = record {
  class_id = i;
  class = record { name = 8 + i; handlers = handlers; steps = [] };
  listened_events = listened ∷ [];
}

abbrev saga_registry : SagaRegistry
saga_registry = register_saga (class_of 2 6) (
    register_saga (class_of 1 5)
      (register_saga (class_of 0 6) (record { event_map = []; type_map = [] })))

routed_to_two :
    (handle_event taking registry (λ i. i + 50) (λ i. i + 9) saga_registry event none world).0.sent
    ≡ command_of 1 ∷ command_of 1 ∷ []
unfolding handle_event register_saga load_or_create collect_commands handle add
    find_by_correlation_id mapped_handler complete dispatch
routed_to_two = refl
