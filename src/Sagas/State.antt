-- ===== src/Sagas/State.antt =====
-- The aggregate of sagas/state.py. Names of classes, payloads and free texts are numbers, and every
-- reading of the clock is the argument `now`. The private set of processed ids is always the set of
-- the ids in the list, so the list stands for both.
use cqrs_ddd.Common.{
  is_empty, not, ◌&&◌, ℕ, Bool, List, Option, contains, false, if◌then◌else◌, true, ◌++◌, ◌||◌, ◌∷◌,
  [],
}

-- `SagaStatus`
pub data Status : Type 0 where
  pending running suspended completed failed compensating compensated : Status

abbrev pub is_status : Status → Status → Bool
is_status pending pending = true
is_status running running = true
is_status suspended suspended = true
is_status completed completed = true
is_status failed failed = true
is_status compensating compensating = true
is_status compensated compensated = true
is_status _ _ = false

-- `ReservationType`
pub data Reservation : Type 0 where
  resource time_based : Reservation

abbrev pub is_time_based : Reservation → Bool
is_time_based resource = false
is_time_based time_based = true

-- `TCCPhase`, whose `FAILED` is `broken` and `PENDING` is `waiting` here.
pub data Phase : Type 0 where
  waiting trying tried confirming confirmed cancelling cancelled broken : Phase

abbrev pub is_phase : Phase → Phase → Bool
is_phase waiting waiting = true
is_phase trying trying = true
is_phase tried tried = true
is_phase confirming confirming = true
is_phase confirmed confirmed = true
is_phase cancelling cancelling = true
is_phase cancelled cancelled = true
is_phase broken broken = true
is_phase _ _ = false

-- The names of steps: the constants of the code and those that a saga gives.
pub data StepName : Type 0 where
  init_step trying_step confirming_step cancelling_step : StepName
  named : ℕ → StepName

-- The texts that the code stores in `error` and in `suspension_reason`.
pub data Reason : Type 0 where
  given : ℕ → Reason
  timed_out : Reason
  timed_out_for : Reason → Reason
  reservation_expired : (step : ℕ) → Reason
  abandoned : (max_retries : ℕ) → Reason
  timeout_failed unresolved : Reason

-- A command object: its class, the module of the class, and its data.
pub record Command : Type 0 where
  pub type : ℕ
  pub module_name : ℕ
  pub data_of : ℕ

-- `TCCStepRecord`: a command is stored by its type, module and data.
pub record TccStepRecord : Type 0 where
  pub name : ℕ
  pub phase : Phase
  pub reservation_type : Reservation
  pub try_command : Command
  pub confirm_command : Command
  pub cancel_command : Command
  pub error : Option Reason
  pub tried_at : Option ℕ
  pub confirmed_at : Option ℕ
  pub cancelled_at : Option ℕ
  pub timeout_at : Option ℕ

pub record StepRecord : Type 0 where
  pub step_name : StepName
  pub event_type : ℕ
  pub occurred_at : ℕ

pub record CompensationRecord : Type 0 where
  pub command : Command
  pub description : ℕ

-- An entry of `failed_compensations`.
pub record FailedCompensation : Type 0 where
  pub command_type : ℕ
  pub failed_at : ℕ

-- An entry of `pending_commands`.
pub record PendingCommand : Type 0 where
  pub command : Command
  pub dispatched : Bool

pub record SagaState : Type 0 where
  pub id : ℕ
  pub version : ℕ
  pub saga_type : ℕ
  pub status : Status
  pub current_step : StepName
  pub step_history : List StepRecord
  pub tcc_steps : List TccStepRecord
  pub processed_event_ids : List ℕ
  pub pending_commands : List PendingCommand
  pub compensation_stack : List CompensationRecord
  pub failed_compensations : List FailedCompensation
  pub suspended_at : Option ℕ
  pub suspension_reason : Option Reason
  pub timeout_at : Option ℕ
  pub retry_count : ℕ
  pub max_retries : ℕ
  pub error : Option Reason
  pub completed_at : Option ℕ
  pub failed_at : Option ℕ
  pub correlation_id : Option ℕ
  pub tenant : Option ℕ
  pub updated_at : ℕ

abbrev pub touch : ℕ → SagaState → SagaState
touch now s = record s { updated_at = now }

abbrev pub is_event_processed : ℕ → SagaState → Bool
is_event_processed i s = contains s.processed_event_ids i

abbrev pub mark_event_processed : ℕ → SagaState → SagaState
mark_event_processed i s =
    if contains s.processed_event_ids i
    then s
    else record s { processed_event_ids = s.processed_event_ids ++ i ∷ [] }

abbrev pub record_step : StepName → ℕ → ℕ → SagaState → SagaState
record_step step type now s = touch now (record s {
  current_step = step;
  step_history =
      s.step_history ++ record { step_name = step; event_type = type; occurred_at = now } ∷ [];
})

abbrev pub is_terminal : SagaState → Bool
is_terminal s =
    is_status s.status completed || is_status s.status failed || is_status s.status compensated

-- `model_post_init`, with the steps that the metadata of an older state holds, as `model_validate`
-- reads them: they are moved to the field, if it is empty. The second part is what the metadata
-- holds afterwards.
unfoldable pub move_steps : List TccStepRecord → SagaState → SagaState × List TccStepRecord
move_steps old s =
    if is_empty s.tcc_steps && not (is_empty old)
    then (record s { tcc_steps = old }, [])
    else (s, old)
