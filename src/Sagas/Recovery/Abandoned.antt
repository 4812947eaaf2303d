-- ===== src/Sagas/Recovery/Abandoned.antt =====
-- A stalled saga whose retries are used up.
use cqrs_ddd.Common.{
  refl, ap, ◌∙◌, Option, ℕ, true, ◌≡◌, some, is_empty, false, ◌≤◌, leb, arith, none,
}
use cqrs_ddd.Sagas.Recovery.{recover_one, undispatched, fail_saga_max_retries}
use cqrs_ddd.Sagas.Manager.{World, SagaClass, Bus, new_saga, save}
use cqrs_ddd.Sagas.Orchestration.Compensation.{failed_saga, fail-eq}
use cqrs_ddd.Sagas.State.{SagaState, Command, abandoned, is_terminal}
use cqrs_ddd.Sagas.Orchestration.{MessageRegistry, fail}
use cqrs_ddd.Sagas.Repository.{add}
use cqrs_ddd.Common.Dict.{Dict, lookup}

-- The state of the saga that recovery gives up.
abbrev pub abandoned_state : MessageRegistry → SagaClass → ℕ → SagaState → SagaState
abandoned_state m c now s =
    (failed_saga (abandoned s.max_retries) true m now (new_saga m c s)).state

-- For a saga of a known class with a command that was not dispatched and no retry left, the round
-- of the recovery sends nothing, neither that command nor a compensation. It stores the saga in a
-- terminal state.
pub recover_one-abandons :
    (bus : Bus) (m : MessageRegistry) (load : Command → Option Command) (classes : Dict SagaClass)
    (now : ℕ) (c : SagaClass) (s : SagaState) (w : World)
    → lookup s.saga_type classes ≡ some c
    → is_empty (undispatched 0 s.pending_commands) ≡ false
    → s.max_retries ≤ s.retry_count
    → (recover_one bus m load classes now s w ≡ (save (abandoned_state m c now s) w).1)
      × ((save (abandoned_state m c now s) w).1.sent ≡ w.sent)
      × (is_terminal (abandoned_state m c now s) ≡ true)
unfolding recover_one add
recover_one-abandons bus m load classes now c s w h u r =
    let reason = abandoned s.max_retries in
    let failed_as = fail-eq reason true m now (new_saga m c s) refl in
    let out : leb s.max_retries s.retry_count ≡ true = ground arith in
    let given_up : fail_saga_max_retries m classes now s w
        ≡ (save (abandoned_state m c now s) w).1 =
      ap
        (λ (o : Option SagaClass). elim o as (λ _. World) [
          | none ↦ w
          | some d ↦ (save (fail reason true now (new_saga m d s)).0.state w).1
        ])
        h
      ∙ ap (λ x. (save x.0.state w).1) failed_as.0 in
    (rw (u, out) given_up, refl, failed_as.1)
