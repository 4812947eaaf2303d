-- ===== src/Sagas/Orchestration/Compensation.antt =====
-- What `execute_compensations` and `fail` of sagas/orchestration.py leave of the stack.
use cqrs_ddd.Sagas.Orchestration.{
  compensate_each, execute_compensations, fail, hydrate_command, MessageRegistry, dispatch, Saga,
  compensate_with, on_state, settle, Left, registry_required,
}
use cqrs_ddd.Sagas.State.{
  Command, CompensationRecord, FailedCompensation, compensated, failed, touch, compensating, Reason,
  is_terminal, is_status, completed,
}
use cqrs_ddd.Common.{
  refl, ◌∙◌, sym, List, ℕ, Option, ◌∷◌, Bool, none, ◌++◌, some, ◌≡◌, ◌||◌, not, is_empty, arith,
  inl, inr, ap, false, reverse, true, if◌then◌else◌, ◌&&◌, Bool-cases,
}
use mathlib.Core.List.{[], append-nil, append_assoc}

abbrev pub made : Option Command → List Command
made none = []
made (some x) = x ∷ []

abbrev pub lost : Option Command → ℕ → CompensationRecord → List FailedCompensation
lost none now c = record { command_type = c.command.type; failed_at = now } ∷ []
lost (some x) now c = []

-- The commands of a stack that the registry makes.
abbrev pub makeable : MessageRegistry → List CompensationRecord → List Command
makeable r [] = []
makeable r (c ∷ cs) = made (hydrate_command r c.command.type c.command.data_of) ++ makeable r cs

-- The entries for the records that the registry makes no command of.
abbrev pub unmakeable : MessageRegistry → ℕ → List CompensationRecord → List FailedCompensation
unmakeable r now [] = []
unmakeable r now (c ∷ cs) =
    lost (hydrate_command r c.command.type c.command.data_of) now c ++ unmakeable r now cs

-- A saga with more commands queued and more failures recorded.
abbrev pub extended : List Command → List FailedCompensation → Saga → Saga
extended cs fs g = record g {
  commands_to_dispatch = g.commands_to_dispatch ++ cs;
  state = record (g.state) { failed_compensations = g.state.failed_compensations ++ fs };
}

extended-nil : (g : Saga) → extended [] [] g ≡ g
extended-nil g =
    rw (append-nil g.commands_to_dispatch, append-nil g.state.failed_compensations) refl

extended-extended :
    (cs ds : List Command) (fs es : List FailedCompensation) (g : Saga)
    → extended ds es (extended cs fs g) ≡ extended (cs ++ ds) (fs ++ es) g
extended-extended cs ds fs es g =
    rw (append_assoc g.commands_to_dispatch cs ds, append_assoc g.state.failed_compensations fs es)
      refl

or_true : (b : Bool) → b || true ≡ true
or_true b = ground arith

or_false : (b : Bool) → b || false ≡ b
or_false b = ground arith

compensate_with-eq :
    (o : Option Command) (now : ℕ) (c : CompensationRecord) (g : Saga) (b : Bool)
    → compensate_with o now c (g, b)
      ≡ (extended (made o) (lost o now c) g, b || not (is_empty (lost o now c)))
unfolding dispatch
compensate_with-eq none now c g b =
    let p = sym (append-nil g.commands_to_dispatch) in
    let q = sym (or_true b) in
    let entry : FailedCompensation = record { command_type = c.command.type; failed_at = now } in
    λ i. (
      record g {
        commands_to_dispatch = p i;
        state = record (g.state) {
          failed_compensations = g.state.failed_compensations ++ entry ∷ [];
        };
      },
      q i,
    )
compensate_with-eq (some x) now c g b =
    let p = sym (append-nil g.state.failed_compensations) in
    let q = sym (or_false b) in
    λ i. (
      record g {
        commands_to_dispatch = g.commands_to_dispatch ++ x ∷ [];
        state = record (g.state) { failed_compensations = p i };
      },
      q i,
    )

any_lost :
    (xs ys : List FailedCompensation) (b : Bool)
    → (b || not (is_empty xs)) || not (is_empty ys) ≡ b || not (is_empty (xs ++ ys))
any_lost [] ys b = ground arith
any_lost (x ∷ xs) ys b = ground arith

compensate_each-eq :
    (r : MessageRegistry) (now : ℕ) (cs : List CompensationRecord) (g : Saga) (b : Bool)
    → compensate_each r now cs (g, b) ≡ (
      extended (makeable r cs) (unmakeable r now cs) g,
      b || not (is_empty (unmakeable r now cs)),
    )
compensate_each-eq r now [] g b =
    let p = sym (extended-nil g) in let q = sym (or_false b) in λ i. (p i, q i)
compensate_each-eq r now (c ∷ cs) g b =
    let o = hydrate_command r c.command.type c.command.data_of in
    let ds = made o in
    let es = lost o now c in
    ap (compensate_each r now cs) (compensate_with-eq o now c g b)
    ∙ compensate_each-eq r now cs (extended ds es g) (b || not (is_empty es))
    ∙ (λ i. (
      extended-extended ds (makeable r cs) es (unmakeable r now cs) g i,
      any_lost es (unmakeable r now cs) b i,
    ))

-- How a stack of compensations ends: the commands that the registry makes of the records, from the
-- last that was pushed to the first, are queued; each record that it makes none of is kept in
-- `failed_compensations`.
abbrev pub compensated_saga : MessageRegistry → ℕ → Saga → Saga
compensated_saga r now g =
    let popped = reverse g.state.compensation_stack in
    record g {
      commands_to_dispatch = g.commands_to_dispatch ++ makeable r popped;
      state = record (g.state) {
        status = if not (is_empty (unmakeable r now popped)) then failed else compensated;
        compensation_stack = [];
        failed_compensations = g.state.failed_compensations ++ unmakeable r now popped;
        updated_at = now;
      };
    }

-- With a registry, `execute_compensations` raises nothing and empties the stack: the commands that
-- the registry makes of the records are queued in the reverse of the order in which they were
-- pushed, the others are recorded as failed, and the saga ends COMPENSATED when there are none of
-- those, else FAILED.
pub execute_compensations-eq :
    (r : MessageRegistry) (now : ℕ) (g : Saga)
    → g.message_registry ≡ some r
    → execute_compensations now g ≡ (compensated_saga r now g, none)
unfolding execute_compensations
execute_compensations-eq r now g h =
    let popped = reverse g.state.compensation_stack in
    let started =
      on_state (λ s. touch now (record s { status = compensating; compensation_stack = [] })) g in
    ap
      (λ (o : Option MessageRegistry). elim o as (λ _. Left) [
        | none ↦ (g, some registry_required)
        | some m ↦ (settle now (compensate_each m now popped (started, false)), none)
      ])
      h
    ∙ ap (λ x. (settle now x, none)) (compensate_each-eq r now popped started false)

-- The saga with its failure noted.
abbrev pub noted : Reason → ℕ → Saga → Saga
noted reason now = on_state (λ s. record s { error = some reason; failed_at = some now })

abbrev pub failed_saga : Reason → Bool → MessageRegistry → ℕ → Saga → Saga
failed_saga reason compensate r now g =
    if compensate && not (is_empty g.state.compensation_stack)
    then compensated_saga r now (noted reason now g)
    else on_state (λ s. touch now (record s { status = failed })) (noted reason now g)

fail-step :
    (reason : Reason) (compensate : Bool) (r : MessageRegistry) (now : ℕ) (g : Saga)
    → g.message_registry ≡ some r
    → fail reason compensate now g ≡ (failed_saga reason compensate r now g, none)
unfolding fail
fail-step reason compensate r now g h =
    let run = execute_compensations-eq r now (noted reason now g) h in
    elim (Bool-cases (compensate && not (is_empty g.state.compensation_stack))) [
      | inl c ↦ rw c run
      | inr c ↦ rw c refl
    ]

settled :
    (b : Bool)
    → is_status (if b then failed else compensated) completed
        || is_status (if b then failed else compensated) failed
        || is_status (if b then failed else compensated) compensated
      ≡ true
settled true = refl
settled false = refl

failed_saga-ends :
    (reason : Reason) (compensate : Bool) (r : MessageRegistry) (now : ℕ) (g : Saga)
    → is_terminal (failed_saga reason compensate r now g).state ≡ true
failed_saga-ends reason compensate r now g =
    let popped = reverse g.state.compensation_stack in
    elim (Bool-cases (compensate && not (is_empty g.state.compensation_stack))) [
      | inl c ↦ rw c (settled (not (is_empty (unmakeable r now popped))))
      | inr c ↦ rw c refl
    ]

-- With a registry, `fail` raises nothing and ends the saga: when it is to compensate and the stack
-- is not empty, the saga is compensated, else it is FAILED with its stack and its queue as they
-- were. It is in a terminal state either way.
pub fail-eq :
    (reason : Reason) (compensate : Bool) (r : MessageRegistry) (now : ℕ) (g : Saga)
    → g.message_registry ≡ some r
    → (fail reason compensate now g ≡ (failed_saga reason compensate r now g, none))
      × (is_terminal (failed_saga reason compensate r now g).state ≡ true)
fail-eq reason compensate r now g h =
    (fail-step reason compensate r now g h, failed_saga-ends reason compensate r now g)
