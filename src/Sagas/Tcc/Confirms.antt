-- ===== src/Sagas/Tcc/Confirms.antt =====
-- The last step that is tried: the Confirm commands of Try-Confirm/Cancel.
use cqrs_ddd.Common.{
  refl, sym, ◌∙◌, ap, List, All, Bool, ℕ, all, ◌≡◌, some, true, ◌++◌, ◌∷◌, Bool-cases,
  if◌then◌else◌, map, arith, ◌==◌, inl, none, Option, inr, ◌||◌,
}
use cqrs_ddd.Sagas.Tcc.{
  confirm_each, dispatch_confirms, all_tcc_steps_in_phase, load_tcc_records, mark_step_tried,
  set_phase, put_confirms, save_tcc_records, set_tcc_phase, tried_now,
}
use cqrs_ddd.Sagas.State.{
  TccStepRecord, confirming, Command, StepName, is_phase, tried, confirming_step, touch,
}
use cqrs_ddd.Sagas.Orchestration.{Saga, MessageRegistry, Left, registry_required, on_state}
use cqrs_ddd.Sagas.Tcc.Cancels.{Restores, dispatch_each-eq}
use mathlib.Core.List.{[], append-nil}

abbrev pub CanConfirm : MessageRegistry → TccStepRecord → Type 0
CanConfirm m r = Restores m r.confirm_command

abbrev pub all_tried : List TccStepRecord → Bool
all_tried = all (λ r. is_phase r.phase tried)

abbrev pub confirming_record : TccStepRecord → TccStepRecord
confirming_record r = record r { phase = confirming }

-- The records when a step is tried: that of the step is stamped, every other one is as before.
abbrev pub after_try : (step now : ℕ) → List TccStepRecord → List TccStepRecord
after_try step now rs =
    map (λ r. if r.name == step then record r { phase = tried; tried_at = some now } else r) rs

-- The steps besides this one are TRIED.
abbrev pub others_tried : (step : ℕ) → List TccStepRecord → Bool
others_tried step rs = all (λ r. r.name == step || is_phase r.phase tried) rs

set_phase-eq :
    (step now : ℕ) (rs : List TccStepRecord)
    → set_phase step now tried_now rs ≡ after_try step now rs
set_phase-eq step now [] = refl
set_phase-eq step now (r ∷ rs) =
    ap (λ xs. (if r.name == step then record r { phase = tried; tried_at = some now } else r) ∷ xs)
      (set_phase-eq step now rs)

all_tried-after_try :
    (step now : ℕ) (rs : List TccStepRecord)
    → all_tried (after_try step now rs) ≡ others_tried step rs
all_tried-after_try step now [] = refl
all_tried-after_try step now (r ∷ rs) = ground (arith, all_tried-after_try step now rs)

confirm_each-eq :
    (m : MessageRegistry) (rs : List TccStepRecord)
    → All (CanConfirm m) rs
    → all_tried rs ≡ true
    → confirm_each m rs ≡ (map confirming_record rs, map (λ r. r.confirm_command) rs)
confirm_each-eq m [] h t = refl
confirm_each-eq m (r ∷ rs) h t =
    let first : is_phase r.phase tried ≡ true = ground arith in
    let rest : all_tried rs ≡ true = ground arith in
    rw (first, h.0, confirm_each-eq m rs h.1 rest) refl

set_phase-CanConfirm :
    (m : MessageRegistry) (step now : ℕ) (rs : List TccStepRecord)
    → All (CanConfirm m) rs
    → All (CanConfirm m) (set_phase step now tried_now rs)
set_phase-CanConfirm m step now [] h = tt
set_phase-CanConfirm m step now (r ∷ rs) h = elim (Bool-cases (r.name == step)) [
  | inl c ↦ rw c (h.0, set_phase-CanConfirm m step now rs h.1)
  | inr c ↦ rw c (h.0, set_phase-CanConfirm m step now rs h.1)
]

-- The saga with other records and more commands.
abbrev pub with_records : List TccStepRecord → List Command → StepName → ℕ → Saga → Saga
with_records rs cs step now g = record g {
  commands_to_dispatch = g.commands_to_dispatch ++ cs;
  tcc_records_cache = some rs;
  state = record (g.state) { tcc_steps = rs; current_step = step; updated_at = now };
}

dispatch_confirms-step :
    (m : MessageRegistry) (now : ℕ) (g : Saga)
    → g.message_registry ≡ some m
    → All (CanConfirm m) (load_tcc_records g)
    → all_tried (load_tcc_records g) ≡ true
    → dispatch_confirms now g ≡ (
      with_records
          (map confirming_record (load_tcc_records g))
          (map (λ r. r.confirm_command) (load_tcc_records g))
          confirming_step
          now
          g,
      none,
    )
unfolding dispatch_confirms save_tcc_records
dispatch_confirms-step m now g h k t =
    let done = map confirming_record (load_tcc_records g) in
    ap
      (λ (o : Option MessageRegistry). elim o as (λ _. Left) [
        | none ↦ (g, some registry_required)
        | some n ↦ (put_confirms now g (confirm_each n (load_tcc_records g)), none)
      ])
      h
    ∙ ap (λ x. (put_confirms now g x, none)) (confirm_each-eq m (load_tcc_records g) k t)
    ∙ ap
        (λ (x : Saga). (
          on_state (λ s. touch now (record s { current_step = confirming_step }))
              (save_tcc_records done x),
          none,
        ))
        (dispatch_each-eq (map (λ r. r.confirm_command) (load_tcc_records g)) g)

-- What the call returns for the records `rs` after it.
abbrev answer : (rs : List TccStepRecord) (last : Bool) (now : ℕ) → Saga → Left
answer rs last now g =
    if last
    then (
      with_records (map confirming_record rs) (map (λ r. r.confirm_command) rs) confirming_step now
          g,
      none,
    )
    else (with_records rs [] g.state.current_step now g, none)

set_phase-answer :
    (m : MessageRegistry) (step now : ℕ) (g : Saga)
    → g.message_registry ≡ some m
    → All (CanConfirm m) (load_tcc_records g)
    → let rs = set_phase step now tried_now (load_tcc_records g) in
      mark_step_tried step now g ≡ answer rs (all_tried rs) now g
unfolding mark_step_tried set_tcc_phase save_tcc_records all_tcc_steps_in_phase load_tcc_records
set_phase-answer m step now g h k =
    let rs = set_phase step now tried_now (load_tcc_records g) in
    elim (Bool-cases (all_tried rs)) [
      | inl t ↦ rw t (
          dispatch_confirms-step m now (set_tcc_phase step now tried_now g) h
            (set_phase-CanConfirm m step now (load_tcc_records g) k) t)
      | inr t ↦ rw t (
          ap
            (λ q. (
              record (with_records rs [] g.state.current_step now g) { commands_to_dispatch = q },
              none,
            ))
            (sym (append-nil g.commands_to_dispatch)))
    ]

-- With a registry that restores the Confirm commands, `mark_step_tried` raises nothing. The steps of
-- the given name are TRIED at this time, and every other one is as it was. When all others were
-- TRIED, the Confirm commands of all steps are queued in their order and every step is CONFIRMING;
-- else no command is queued.
pub mark_step_tried-eq :
    (m : MessageRegistry) (step now : ℕ) (g : Saga)
    → g.message_registry ≡ some m
    → All (CanConfirm m) (load_tcc_records g)
    → let rs = after_try step now (load_tcc_records g) in
      mark_step_tried step now g ≡ (
        if others_tried step (load_tcc_records g)
        then (
          with_records
              (map confirming_record rs)
              (map (λ r. r.confirm_command) rs)
              confirming_step
              now
              g,
          none,
        )
        else (with_records rs [] g.state.current_step now g, none))
mark_step_tried-eq m step now g h k =
    let rs = load_tcc_records g in
    let same = set_phase-eq step now rs in
    set_phase-answer m step now g h k
    ∙ ap (λ xs. answer xs (all_tried xs) now g) same
    ∙ ap (λ b. answer (after_try step now rs) b now g) (all_tried-after_try step now rs)
