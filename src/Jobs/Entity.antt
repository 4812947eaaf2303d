-- ===== src/Jobs/Entity.antt =====
-- The aggregate of background_jobs/entity.py. Identifiers, types, payload values and messages that
-- the code only stores or compares are numbers, and timestamps count from the epoch in UTC. Every
-- reading of the clock is the argument `now`.

pub mod Lifecycle
pub mod Invariant
use cqrs_ddd.Common.{
  ℕ, ◌+◌, Bool, true, false, not, ◌||◌, Option, none, some, List, [], ◌∷◌, ◌++◌, leb,
}
use cqrs_ddd.Common.Dict.{Dict, insert}
use cqrs_ddd.Common.Outcome.{Outcome, ok, raise_if, ◌>>◌}

-- `BackgroundJobStatus`
pub data Status : Type 0 where
  pending running completed failed cancelled : Status

abbrev pub is_status : Status → Status → Bool
is_status pending pending = true
is_status running running = true
is_status completed completed = true
is_status failed failed = true
is_status cancelled cancelled = true
is_status _ _ = false

-- The texts that the code stores in `error_message`.
pub data Message : Type 0 where
  given : ℕ → Message
  cancelled_by_user : Message
  timed_out : (seconds : ℕ) → Message
  terminated : (seconds : ℕ) → Message

-- The event classes of background_jobs/events.py, with the fields that each adds.
pub data EventKind : Type 0 where
  job_created : (job_type total_items : ℕ) → EventKind
  job_started job_completed job_cancelled : EventKind
  job_failed : Message → EventKind
  job_retried : (retry_count : ℕ) → EventKind

pub record Event : Type 0 where
  pub aggregate_id : Option ℕ
  pub aggregate_type : Option ℕ
  pub correlation_id : Option ℕ
  pub kind : EventKind

pub record Job : Type 0 where
  pub id : ℕ
  pub class_name : ℕ
  pub job_type : ℕ
  pub status : Status
  pub total_items : ℕ
  pub processed_items : ℕ
  pub result_data : Dict ℕ
  pub error_message : Option Message
  pub broker_message_id : Option ℕ
  pub retry_count : ℕ
  pub max_retries : ℕ
  pub created_at : ℕ
  pub updated_at : ℕ
  pub metadata : Dict ℕ
  pub correlation_id : Option ℕ
  pub tenant_id : Option ℕ
  pub version : ℕ
  pub domain_events : List Event

-- The texts of `JobStateError`.
pub data JobStateError : Type 0 where
  cannot_start cannot_update cannot_complete cannot_fail cannot_retry cannot_cancel :
      Status → JobStateError
  max_retries_exceeded : ℕ → JobStateError

abbrev or_else : Option ℕ → ℕ → Option ℕ
or_else none d = some d
or_else (some x) d = some x

-- `AggregateRootMixin.add_event`
add_event : Event → Job → Job
add_event e j = record j { domain_events = j.domain_events ++ e ∷ [] }

-- `AggregateRootMixin.collect_events`
unfoldable pub collect_events : Job → List Event × Job
collect_events j = (j.domain_events, record j { domain_events = [] })

touch : ℕ → Job → Job
touch now j = record j { updated_at = now }

emit : Event → Job → Job
unfolding add_event
emit e j =
    add_event
      (record e {
        aggregate_id = or_else e.aggregate_id j.id;
        aggregate_type = or_else e.aggregate_type j.class_name;
      })
      j

-- An event as the class builds it: the aggregate is not named yet.
abbrev fresh : EventKind → Option ℕ → Event
fresh k c = record { aggregate_id = none; aggregate_type = none; correlation_id = c; kind = k }

-- `create`, once the keyword arguments have made the object `cls(**data)`.
unfoldable pub create : Job → Job
unfolding emit
create j = emit (fresh (job_created j.job_type j.total_items) j.correlation_id) j

unfoldable pub start_processing : ℕ → Job → Outcome JobStateError Job
unfolding emit touch
start_processing now j = do
  raise_if (not (is_status j.status pending)) (cannot_start j.status)
  ok (emit (fresh job_started j.correlation_id) (touch now (record j { status = running })))

unfoldable pub update_progress : ℕ → ℕ → Job → Outcome JobStateError Job
unfolding touch
update_progress items now j = do
  raise_if (not (is_status j.status running)) (cannot_update j.status)
  ok (touch now (record j { processed_items = items }))

-- `dict.update`
abbrev update : Dict ℕ → Dict ℕ → Dict ℕ
update d [] = d
update d ((k, v) ∷ more) = update (insert k v d) more

unfoldable pub complete : Dict ℕ → ℕ → Job → Outcome JobStateError Job
unfolding emit touch
complete results now j = do
  raise_if (not (is_status j.status running)) (cannot_complete j.status)
  ok (
      emit (fresh job_completed j.correlation_id)
        (touch now (record j { status = completed; result_data = update j.result_data results })))

unfoldable pub fail : Message → ℕ → Job → Outcome JobStateError Job
unfolding emit touch
fail text now j = do
  raise_if (not (is_status j.status running || is_status j.status pending)) (cannot_fail j.status)
  ok (
      emit (fresh (job_failed text) j.correlation_id)
        (touch now (record j { status = failed; error_message = some text })))

unfoldable pub retry : ℕ → Job → Outcome JobStateError Job
unfolding emit touch
retry now j = do
  raise_if (not (is_status j.status failed)) (cannot_retry j.status)
  raise_if (leb j.max_retries j.retry_count) (max_retries_exceeded j.max_retries)
  ok (
      emit (fresh (job_retried (j.retry_count + 1)) j.correlation_id) (
        touch now
          (record j { retry_count = j.retry_count + 1; status = running; error_message = none })))

unfoldable pub cancel : ℕ → Job → Outcome JobStateError Job
unfolding emit touch
cancel now j = do
  raise_if (is_status j.status completed || is_status j.status cancelled) (cannot_cancel j.status)
  ok (
      emit (fresh job_cancelled j.correlation_id)
        (touch now (record j { status = cancelled; error_message = some cancelled_by_user })))

-- A call of one of the transitions, with its arguments.
pub data Call : Type 0 where
  do_start do_retry do_cancel : Call
  do_progress : ℕ → Call
  do_complete : Dict ℕ → Call
  do_fail : Message → Call

unfoldable pub call : Call → ℕ → Job → Outcome JobStateError Job
unfolding start_processing update_progress complete fail retry cancel
call do_start now j = start_processing now j
call do_retry now j = retry now j
call do_cancel now j = cancel now j
call (do_progress n) now j = update_progress n now j
call (do_complete d) now j = complete d now j
call (do_fail m) now j = fail m now j
