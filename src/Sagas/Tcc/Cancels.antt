-- ===== src/Sagas/Tcc/Cancels.antt =====
-- A failed step: which Cancel commands of Try-Confirm/Cancel are dispatched, and in which order.
use cqrs_ddd.Sagas.Tcc.{
  cancel_each, dispatch_each, is_cancellable, load_tcc_records, mark_step_failed, set_phase,
  dispatch_cancels, save_tcc_records, failed_for, set_tcc_phase, put_cancels, stamp,
}
use cqrs_ddd.Sagas.State.{
  TccStepRecord, Command, cancelling, Reason, compensating, cancelling_step, touch, Phase, trying,
  waiting, tried, confirming, confirmed, cancelled, broken,
}
use cqrs_ddd.Sagas.Orchestration.{
  Saga, MessageRegistry, hydrate_command, dispatch, Left, and_then, on_state, registry_required,
}
use cqrs_ddd.Common.{
  refl, sym, ◌∙◌, ap, List, if◌then◌else◌, All, filter, ◌≡◌, map, some, reverse, ◌∷◌, Bool-cases,
  inl, inr, ℕ, ◌++◌, none, Option, Bool, false, ◌==◌, filter_no,
}
use mathlib.Core.List.{[], append-nil, reverse-cons, append_assoc}
use mathlib.Core.Bool.{true}

-- The registry makes of a stored command the command that was stored.
abbrev pub Restores : MessageRegistry → Command → Type 0
Restores m c = hydrate_command m c.type c.data_of ≡ some c

abbrev pub CanCancel : MessageRegistry → TccStepRecord → Type 0
CanCancel m r = Restores m r.cancel_command

-- The phases in which a step holds, or may hold, a reservation.
abbrev pub reserves : Phase → Bool
reserves trying = true
reserves tried = true
reserves confirming = true
reserves _ = false

is_cancellable-reserves : (p : Phase) → is_cancellable p ≡ reserves p
is_cancellable-reserves waiting = refl
is_cancellable-reserves trying = refl
is_cancellable-reserves tried = refl
is_cancellable-reserves confirming = refl
is_cancellable-reserves confirmed = refl
is_cancellable-reserves cancelling = refl
is_cancellable-reserves cancelled = refl
is_cancellable-reserves broken = refl

abbrev pub held : List TccStepRecord → List TccStepRecord
held = filter (λ r. reserves r.phase)

abbrev pub cancelling_record : TccStepRecord → TccStepRecord
cancelling_record r = if reserves r.phase then record r { phase = cancelling } else r

cancel_each-eq :
    (m : MessageRegistry) (rs : List TccStepRecord)
    → All (CanCancel m) rs
    → cancel_each m rs ≡ (map cancelling_record rs, reverse (map (λ r. r.cancel_command) (held rs)))
cancel_each-eq m [] h = refl
cancel_each-eq m (r ∷ rs) h =
    let sent = map (λ x. x.cancel_command) (held rs) in
    elim (Bool-cases (reserves r.phase)) [
      | inl c ↦
          rw (is_cancellable-reserves r.phase, c, h.0)
            (ap (λ p. (record r { phase = cancelling } ∷ p.0, p.1 ++ r.cancel_command ∷ []))
                (cancel_each-eq m rs h.1)
              ∙ ap (λ q. (record r { phase = cancelling } ∷ map cancelling_record rs, q))
                  (sym (reverse-cons r.cancel_command sent)))
      | inr c ↦ rw (is_cancellable-reserves r.phase, c, cancel_each-eq m rs h.1) refl
    ]

pub dispatch_each-eq :
    (cs : List Command) (g : Saga)
    → dispatch_each cs g ≡ record g { commands_to_dispatch = g.commands_to_dispatch ++ cs }
unfolding dispatch
dispatch_each-eq [] g =
    ap (λ q. record g { commands_to_dispatch = q }) (sym (append-nil g.commands_to_dispatch))
dispatch_each-eq (c ∷ cs) g =
    dispatch_each-eq cs (dispatch c g)
    ∙ ap (λ q. record g { commands_to_dispatch = q })
        (append_assoc g.commands_to_dispatch (c ∷ []) cs)

-- What `mark_step_failed` leaves.
abbrev pub cancelled_saga : ℕ → Reason → ℕ → Saga → Saga
cancelled_saga step reason now g =
    let rs = set_phase step now (failed_for reason) (map cancelling_record (load_tcc_records g)) in
    record g {
      commands_to_dispatch =
          g.commands_to_dispatch
          ++ reverse (map (λ r. r.cancel_command) (held (load_tcc_records g)));
      tcc_records_cache = some rs;
      state = record (g.state) {
        tcc_steps = rs;
        status = compensating;
        current_step = cancelling_step;
        error = some reason;
        updated_at = now;
      };
    }

dispatch_cancels-step :
    (m : MessageRegistry) (reason : Reason) (now : ℕ) (g : Saga)
    → g.message_registry ≡ some m
    → All (CanCancel m) (load_tcc_records g)
    → dispatch_cancels reason now g ≡ (
      put_cancels reason now g (
        map cancelling_record (load_tcc_records g),
        reverse (map (λ r. r.cancel_command) (held (load_tcc_records g))),
      ),
      none,
    )
unfolding dispatch_cancels
dispatch_cancels-step m reason now g h k =
    ap
      (λ (o : Option MessageRegistry). elim o as (λ _. Left) [
        | none ↦ (g, some registry_required)
        | some n ↦ (put_cancels reason now g (cancel_each n (load_tcc_records g)), none)
      ])
      h
    ∙ ap (λ x. (put_cancels reason now g x, none)) (cancel_each-eq m (load_tcc_records g) k)

mark_step_failed-step :
    (m : MessageRegistry) (step : ℕ) (reason : Reason) (now : ℕ) (g : Saga)
    → g.message_registry ≡ some m
    → All (CanCancel m) (load_tcc_records g)
    → mark_step_failed step reason now g ≡ (cancelled_saga step reason now g, none)
unfolding mark_step_failed save_tcc_records set_tcc_phase load_tcc_records
mark_step_failed-step m step reason now g h k =
    let sent = reverse (map (λ r. r.cancel_command) (held (load_tcc_records g))) in
    let finish : Saga → Left = λ g'. (set_tcc_phase step now (failed_for reason) g', none) in
    let done = map cancelling_record (load_tcc_records g) in
    ap (λ x. and_then x finish) (dispatch_cancels-step m reason now g h k)
    ∙ ap
        (λ (x : Saga). finish (
          on_state
            (λ s. touch now (record s {
              status = compensating;
              current_step = cancelling_step;
              error = some reason;
            }))
            (save_tcc_records done x)))
        (dispatch_each-eq sent g)

cancelling_record-unheld : (r : TccStepRecord) → reserves (cancelling_record r).phase ≡ false
cancelling_record-unheld r = elim (Bool-cases (reserves r.phase)) [
  | inl c ↦ rw c refl
  | inr c ↦ rw c c
]

broken-unheld :
    (b : Bool) (now : ℕ) (reason : Reason) (r : TccStepRecord)
    → reserves r.phase ≡ false
    → reserves (if b then stamp now (failed_for reason) r else r).phase ≡ false
broken-unheld true now reason r h = refl
broken-unheld false now reason r h = h

set_phase-unheld :
    (step now : ℕ) (reason : Reason) (rs : List TccStepRecord)
    → held (set_phase step now (failed_for reason) (map cancelling_record rs)) ≡ []
set_phase-unheld step now reason [] = refl
set_phase-unheld step now reason (r ∷ rs) =
    let c = cancelling_record r in
    let x = if c.name == step then stamp now (failed_for reason) c else c in
    filter_no (λ y. reserves y.phase) x
      (set_phase step now (failed_for reason) (map cancelling_record rs))
      (broken-unheld (c.name == step) now reason c (cancelling_record-unheld r))
    ∙ set_phase-unheld step now reason rs

-- With a registry that restores the Cancel commands, `mark_step_failed` raises nothing: it queues
-- the Cancel commands of the steps in TRYING, TRIED or CONFIRMING, from the last to the first, the
-- saga is COMPENSATING, and no step stays in one of these phases.
pub mark_step_failed-eq :
    (m : MessageRegistry) (step : ℕ) (reason : Reason) (now : ℕ) (g : Saga)
    → g.message_registry ≡ some m
    → All (CanCancel m) (load_tcc_records g)
    → (mark_step_failed step reason now g ≡ (cancelled_saga step reason now g, none))
      × (held (cancelled_saga step reason now g).state.tcc_steps ≡ [])
mark_step_failed-eq m step reason now g h k = (
  mark_step_failed-step m step reason now g h k,
  set_phase-unheld step now reason (load_tcc_records g),
)
