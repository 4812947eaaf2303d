-- ===== src/Sagas/Tcc.antt =====
-- Try-Confirm/Cancel of `Saga` in sagas/orchestration.py. The list of records is loaded once and
-- kept in a cache, which `begin_tcc` does not fill.
pub mod Cancels
pub mod Confirms
use cqrs_ddd.Common.{
  ℕ, Bool, List, Option, if◌then◌else◌, all, any, filter, map, none, some, ◌∷◌, ◌&&◌, ◌+◌, ◌==◌,
  ◌||◌, [], false, is_empty, leb, ◌++◌, not, is_some,
}
use cqrs_ddd.Sagas.State.{
  Command, Phase, Reason, TccStepRecord, confirmed, is_phase, is_time_based, touch, tried, trying,
  cancelled, compensated, reservation_expired, running, broken, cancelling, compensating,
  confirming, confirming_step, trying_step, cancelling_step, waiting,
}
use cqrs_ddd.Sagas.Orchestration.{
  Saga, Left, MessageRegistry, TccStep, on_state, and_then, SagaError, complete, dispatch,
  hydrate_command, registry_required, no_steps, step_registered, already_started, timeout_required,
}
use cqrs_ddd.Common.Outcome.{Outcome, ◌>>◌, raise_if, ok}

-- The check of `TCCStep.__init__`.
unfoldable pub make_step : TccStep → Outcome SagaError TccStep
make_step s = do
  raise_if (is_time_based s.reservation_type && not (is_some s.timeout)) (timeout_required s.name)
  ok s

abbrev has_step : ℕ → List TccStep → Bool
has_step n = any (λ s. s.name == n)

unfoldable pub add_tcc_step : TccStep → Saga → Outcome SagaError Saga
add_tcc_step s g = do
  raise_if (has_step s.name g.tcc_steps) (step_registered s.name)
  ok (record g { tcc_steps = g.tcc_steps ++ s ∷ [] })

-- The record of a step when the Try phase begins.
abbrev pub record_of : ℕ → TccStep → TccStepRecord
record_of now s = record {
  name = s.name;
  phase = trying;
  reservation_type = s.reservation_type;
  try_command = s.try_command;
  confirm_command = s.confirm_command;
  cancel_command = s.cancel_command;
  error = none;
  tried_at = none;
  confirmed_at = none;
  cancelled_at = none;
  timeout_at =
      if is_time_based s.reservation_type
      then elim s.timeout [ none ↦ none | some t ↦ if t == 0 then none else some (now + t) ]
      else none;
}

abbrev pub dispatch_each : List Command → Saga → Saga
dispatch_each [] g = g
dispatch_each (c ∷ cs) g = dispatch_each cs (dispatch c g)

unfoldable pub begin_tcc : ℕ → Saga → Left
begin_tcc now g =
    let sent = dispatch_each (map (λ s. s.try_command) g.tcc_steps) g in
    let begun =
      on_state
        (λ s. touch now (record s {
          tcc_steps = map (record_of now) g.tcc_steps;
          status = running;
          current_step = trying_step;
        }))
        sent in
    if is_empty g.tcc_steps
    then (g, some no_steps)
    else if not (is_empty g.state.tcc_steps)
    then (g, some already_started)
    else (begun, none)

-- `_load_tcc_records`: the list that it returns, and the saga whose cache it fills.
unfoldable pub load_tcc_records : Saga → List TccStepRecord
load_tcc_records g = elim g.tcc_records_cache [ none ↦ g.state.tcc_steps | some rs ↦ rs ]

unfoldable pub cached : Saga → Saga
unfolding load_tcc_records
cached g = record g { tcc_records_cache = some (load_tcc_records g) }

unfoldable pub save_tcc_records : List TccStepRecord → Saga → Saga
save_tcc_records rs g =
    on_state (λ s. record s { tcc_steps = rs }) (record g { tcc_records_cache = some rs })

-- What `_set_tcc_phase` updates besides the phase.
pub data Stamp : Type 0 where
  tried_now confirmed_now cancelled_now : Stamp
  failed_for : Reason → Stamp

abbrev pub stamp : ℕ → Stamp → TccStepRecord → TccStepRecord
stamp now tried_now r = record r { phase = tried; tried_at = some now }
stamp now confirmed_now r = record r { phase = confirmed; confirmed_at = some now }
stamp now cancelled_now r = record r { phase = cancelled; cancelled_at = some now }
stamp now (failed_for e) r = record r { phase = broken; error = some e }

abbrev pub set_phase : ℕ → ℕ → Stamp → List TccStepRecord → List TccStepRecord
set_phase step now t [] = []
set_phase step now t (r ∷ rs) =
    (if r.name == step then stamp now t r else r) ∷ set_phase step now t rs

unfoldable pub set_tcc_phase : ℕ → ℕ → Stamp → Saga → Saga
set_tcc_phase step now t g =
    on_state (touch now) (save_tcc_records (set_phase step now t (load_tcc_records g)) g)

unfoldable pub all_tcc_steps_in_phase : Phase → Saga → Bool
all_tcc_steps_in_phase p g = all (λ r. is_phase r.phase p) (load_tcc_records g)

-- The loop of `_dispatch_confirms`: the updated records and the commands that are dispatched.
abbrev pub confirm_each : MessageRegistry → List TccStepRecord → List TccStepRecord × List Command
confirm_each m [] = ([], [])
confirm_each m (r ∷ rs) =
    let (done, sent) = confirm_each m rs in
    if is_phase r.phase tried
    then elim (hydrate_command m r.confirm_command.type r.confirm_command.data_of) [
      | none ↦ (r ∷ done, sent)
      | some c ↦ (record r { phase = confirming } ∷ done, c ∷ sent)
    ]
    else (r ∷ done, sent)

-- What `_dispatch_confirms` does with the records and the commands of its loop.
abbrev pub put_confirms : ℕ → Saga → List TccStepRecord × List Command → Saga
unfolding save_tcc_records
put_confirms now g (done, sent) =
    on_state (λ s. touch now (record s { current_step = confirming_step }))
      (save_tcc_records done (dispatch_each sent g))

unfoldable pub dispatch_confirms : ℕ → Saga → Left
dispatch_confirms now g = elim g.message_registry [
  | none ↦ (g, some registry_required)
  | some m ↦ (put_confirms now g (confirm_each m (load_tcc_records g)), none)
]

-- The phases in which a step holds, or may hold, a reservation.
abbrev pub is_cancellable : Phase → Bool
is_cancellable p = is_phase p tried || is_phase p trying || is_phase p confirming

-- The loop of `_dispatch_cancels`: the updated records, and the commands that are dispatched, which
-- go from the last record to the first.
abbrev pub cancel_each : MessageRegistry → List TccStepRecord → List TccStepRecord × List Command
cancel_each m [] = ([], [])
cancel_each m (r ∷ rs) =
    let (done, sent) = cancel_each m rs in
    if is_cancellable r.phase
    then elim (hydrate_command m r.cancel_command.type r.cancel_command.data_of) [
      | none ↦ (r ∷ done, sent)
      | some c ↦ (record r { phase = cancelling } ∷ done, sent ++ c ∷ [])
    ]
    else (r ∷ done, sent)

-- What `_dispatch_cancels` does with the records and the commands of its loop.
abbrev pub put_cancels : Reason → ℕ → Saga → List TccStepRecord × List Command → Saga
unfolding save_tcc_records
put_cancels reason now g (done, sent) =
    on_state
      (λ s.
        touch now
          (record s { status = compensating; current_step = cancelling_step; error = some reason }))
      (save_tcc_records done (dispatch_each sent g))

unfoldable pub dispatch_cancels : Reason → ℕ → Saga → Left
dispatch_cancels reason now g = elim g.message_registry [
  | none ↦ (g, some registry_required)
  | some m ↦ (put_cancels reason now g (cancel_each m (load_tcc_records g)), none)
]

unfoldable pub mark_step_tried : ℕ → ℕ → Saga → Left
mark_step_tried step now g =
    let g' = set_tcc_phase step now tried_now g in
    if all_tcc_steps_in_phase tried g' then dispatch_confirms now g' else (g', none)

unfoldable pub mark_step_confirmed : ℕ → ℕ → Saga → Saga
mark_step_confirmed step now g =
    let g' = set_tcc_phase step now confirmed_now g in
    if all_tcc_steps_in_phase confirmed g' then complete now g' else g'

unfoldable pub mark_step_failed : ℕ → Reason → ℕ → Saga → Left
mark_step_failed step reason now g =
    and_then (dispatch_cancels reason now g)
      (λ g'. (set_tcc_phase step now (failed_for reason) g', none))

abbrev pub is_settled : Phase → Bool
is_settled p = is_phase p cancelled || is_phase p broken || is_phase p waiting

unfoldable pub mark_step_cancelled : ℕ → ℕ → Saga → Saga
mark_step_cancelled step now g =
    let g' = set_tcc_phase step now cancelled_now g in
    if all (λ r. is_settled r.phase) (load_tcc_records g')
    then on_state (λ s. touch now (record s { status = compensated })) g'
    else g'

-- Whether a time-based reservation has run out.
abbrev pub is_expired : ℕ → TccStepRecord → Bool
is_expired now r =
    is_time_based r.reservation_type
    && elim r.timeout_at [ none ↦ false | some t ↦ leb t now ]
    && (is_phase r.phase trying || is_phase r.phase tried)

abbrev pub fail_each : List ℕ → ℕ → Saga → Left
fail_each [] now g = (g, none)
fail_each (n ∷ ns) now g =
    and_then (mark_step_failed n (reservation_expired n) now g) (fail_each ns now)

-- The names of the expired steps, and what the call leaves.
unfoldable pub check_tcc_timeouts : ℕ → Saga → List ℕ × Left
check_tcc_timeouts now g =
    let names = map (λ r. r.name) (filter (is_expired now) (load_tcc_records g)) in
    (names, fail_each names now (cached g))

unfoldable pub get_tcc_step_phase : ℕ → Saga → Option Phase × Saga
get_tcc_step_phase step g =
    let found = filter (λ r. r.name == step) (load_tcc_records g) in
    (elim found [ [] ↦ none | r ∷ rs ↦ some r.phase ], cached g)
