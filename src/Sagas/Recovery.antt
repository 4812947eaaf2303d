-- ===== src/Sagas/Recovery.antt =====
-- The sweeps of `SagaManager` in sagas/manager.py: recovery of stalled sagas, expired suspensions and
-- expired TCC reservations. The import of a class that is not registered is a parameter.
pub mod Abandoned
use cqrs_ddd.Common.{
  ℕ, List, Option, if◌then◌else◌, none, some, true, ◌∷◌, false, ◌++◌, ◌+◌, is_empty, leb,
}
use cqrs_ddd.Common.Dict.{Dict, lookup}
use cqrs_ddd.Sagas.Repository.{
  find_stalled_sagas, find_expired_suspended_sagas, find_running_sagas_with_tcc_steps, has_expired,
}
use cqrs_ddd.Sagas.Manager.{
  Bus, World, SagaClass, save, mark_dispatched, clear_pending, new_saga, take_command, Sent,
}
use cqrs_ddd.Sagas.Orchestration.{
  Saga, MessageRegistry, hydrate_command, fail, on_timeout, collect_commands, Left,
}
use cqrs_ddd.Sagas.Tcc.{check_tcc_timeouts}
use cqrs_ddd.Sagas.State.{
  SagaState, Command, PendingCommand, touch, abandoned, is_status, unresolved, failed,
  timeout_failed,
}
use mathlib.Core.List.{[]}

-- `_deserialize_command`, where `load` imports the class and makes the command, or raises.
abbrev pub deserialize_command :
    MessageRegistry → (Command → Option Command) → Command → Option Command
deserialize_command m load c = elim (hydrate_command m c.type c.data_of) [
  | none ↦ load c
  | some x ↦ some x
]

-- The pending commands that were not dispatched, with their indices from `i` on.
abbrev pub undispatched : ℕ → List PendingCommand → List (ℕ × Command)
undispatched i [] = []
undispatched i (p ∷ ps) =
    if p.dispatched then undispatched (i + 1) ps else (i, p.command) ∷ undispatched (i + 1) ps

-- One round: the command that was made is sent, and the loop goes on if `send` returns.
abbrev pub send_loaded : Bus → SagaState → World → (Command → Sent) → Option Command → Sent
send_loaded bus s w next none = ((s, w), false)
send_loaded bus s w next (some x) = if bus w.sent x then next x else ((s, w), false)

-- The loop of `_dispatch_undispatched_commands`.
abbrev pub redispatch_each :
    Bus
    → MessageRegistry
    → (Command → Option Command)
    → List (ℕ × Command)
    → SagaState
    → World
    → Sent
redispatch_each bus m load [] s w = ((s, w), true)
redispatch_each bus m load ((i, c) ∷ cs) s w =
    let next : Command → Sent = λ x.
      let (s', w') = save (mark_dispatched i s) (take_command x w) in
      redispatch_each bus m load cs s' w' in
    send_loaded bus s w next (deserialize_command m load c)

-- What follows the loop, or the exception that the sweep logs.
abbrev pub finish_recovery : ℕ → Sent → World
finish_recovery now ((s, w), true) = clear_pending now (record s { retry_count = 0 }) w
finish_recovery now ((s, w), false) = w

-- `_fail_saga_max_retries`: the commands that `fail` queues stay in the saga object.
abbrev pub fail_saga_max_retries : MessageRegistry → Dict SagaClass → ℕ → SagaState → World → World
fail_saga_max_retries m classes now s w = elim (lookup s.saga_type classes) [
  | none ↦ w
  | some c ↦ (save (fail (abandoned s.max_retries) true now (new_saga m c s)).0.state w).1
]

-- The body of the loop of `recover_pending_sagas`.
unfoldable pub recover_one :
    Bus
    → MessageRegistry
    → (Command → Option Command)
    → Dict SagaClass
    → ℕ
    → SagaState
    → World
    → World
recover_one bus m load classes now s w =
    let cs = undispatched 0 s.pending_commands in
    let (s', w') = save (touch now (record s { retry_count = s.retry_count + 1 })) w in
    let sent = redispatch_each bus m load cs s' w' in
    if is_empty cs
    then (if is_empty s.pending_commands then w else clear_pending now s w)
    else if leb s.max_retries s.retry_count
    then fail_saga_max_retries m classes now s w
    else finish_recovery now sent

abbrev pub recover_each :
    Bus
    → MessageRegistry
    → (Command → Option Command)
    → Dict SagaClass
    → ℕ
    → List SagaState
    → World
    → World
recover_each bus m load classes now [] w = w
recover_each bus m load classes now (s ∷ ss) w =
    recover_each bus m load classes now ss (recover_one bus m load classes now s w)

unfoldable pub recover_pending_sagas :
    Bus → MessageRegistry → (Command → Option Command) → Dict SagaClass → ℕ → ℕ → World → World
recover_pending_sagas bus m load classes limit now w =
    recover_each bus m load classes now (find_stalled_sagas limit none w.repo) w

-- A loop of sends in which an exception is logged.
abbrev pub send_each : Bus → List Command → List Command → List Command
send_each bus [] sent = sent
send_each bus (c ∷ cs) sent = send_each bus cs (if bus sent c then sent ++ c ∷ [] else sent)

-- The collected commands of a saga are sent, and its state is saved.
abbrev pub send_and_save : Bus → Saga → World → World
unfolding collect_commands
send_and_save bus g w =
    let (commands, g') = collect_commands g in
    (save g'.state (record w { sent = send_each bus commands w.sent })).1

-- A suspension that the handler of the timeout left expired.
abbrev pub force_failure : ℕ → Saga → Saga
force_failure now g = if has_expired now g.state then (fail unresolved false now g).0 else g

-- What the handler of the timeout leaves, when it raised something too.
abbrev pub resolve : ℕ → Left → Saga
resolve now (g, none) = g
resolve now (g, some e) =
    if is_status g.state.status failed then g else (fail timeout_failed true now g).0

-- The body of the loop of `process_timeouts`.
unfoldable pub process_timeout :
    Bus → MessageRegistry → Dict SagaClass → ℕ → SagaState → World → World
process_timeout bus m classes now s w = elim (lookup s.saga_type classes) [
  | none ↦ w
  | some c ↦ send_and_save bus (force_failure now (resolve now (on_timeout now (new_saga m c s)))) w
]

abbrev pub process_each : (SagaState → World → World) → List SagaState → World → World
process_each f [] w = w
process_each f (s ∷ ss) w = process_each f ss (f s w)

unfoldable pub process_timeouts : Bus → MessageRegistry → Dict SagaClass → ℕ → ℕ → World → World
process_timeouts bus m classes limit now w =
    process_each (process_timeout bus m classes now)
      (find_expired_suspended_sagas now limit none w.repo) w

-- The body of the loop of `process_tcc_timeouts`.
unfoldable pub process_tcc_timeout :
    Bus → MessageRegistry → Dict SagaClass → ℕ → SagaState → World → World
process_tcc_timeout bus m classes now s w = elim (lookup s.saga_type classes) [
  | none ↦ w
  | some c ↦
      let (g, e) = (check_tcc_timeouts now (new_saga m c s)).1 in
      elim e [ none ↦ send_and_save bus g w | some err ↦ w ]
]

unfoldable pub process_tcc_timeouts : Bus → MessageRegistry → Dict SagaClass → ℕ → ℕ → World → World
process_tcc_timeouts bus m classes limit now w =
    process_each (process_tcc_timeout bus m classes now)
      (find_running_sagas_with_tcc_steps limit none w.repo) w
