-- ===== src/Sagas/Builder.antt =====
-- `SagaBuilder` of sagas/builder.py of packages/advanced/src/cqrs_ddd_advanced_core: the validation of
-- what was declared, and the handlers of the class that is built.
pub mod Wiring
pub mod Built
mod Examples
use cqrs_ddd.Common.{
  if◌then◌else◌, ℕ, refl, true, false, List, Option, [], map, some, ◌∷◌, contains, not, ◌++◌,
  is_empty, ◌&&◌, is_some,
}
use cqrs_ddd.Common.Outcome.{raise, Outcome, ok, raise_if, ◌>>◌}
use cqrs_ddd.Common.Dict.{Dict, insert}
use cqrs_ddd.Common.Distinct.{added}
use mathlib.Core.Option.{none}

-- What the built class does with an event: the mapping of an `on` call, or a transition of the TCC
-- part, of a step.
pub data Wired : Type 0 where
  mapped : (config : ℕ) → Wired
  begins : Wired
  tried confirmed failed cancelled : (step_name : ℕ) → Wired

-- The events come with their configuration, or behind the name of a step.
pub record SagaBuilder : Type 0 where
  pub on_registrations : List (ℕ × ℕ)
  pub tcc_steps : List ℕ
  pub tcc_begin_event : Option ℕ
  pub tcc_tried : List (ℕ × ℕ)
  pub tcc_confirmed : List (ℕ × ℕ)
  pub tcc_failed : List (ℕ × ℕ)
  pub tcc_cancelled : List (ℕ × ℕ)

-- The texts of `SagaConfigurationError`.
pub data BuildError : Type 0 where
  begin_missing steps_missing : BuildError
  unknown_step : (step_name : ℕ) → BuildError
  duplicate_event : (event_type : ℕ) → BuildError
  step_registered : (step_name : ℕ) → BuildError

-- A saga of the class that is built.
pub record BuiltSaga : Type 0 where
  pub tcc_steps : List ℕ
  pub event_handlers : Dict Wired

-- `init` is what the making of a saga of the class gives.
pub record BuiltClass : Type 0 where
  pub listens_to : List ℕ
  pub init : Outcome BuildError BuiltSaga

abbrev pub begin_events : Option ℕ → List ℕ
begin_events none = []
begin_events (some e) = e ∷ []

abbrev pub validate_tcc_consistency : SagaBuilder → Outcome BuildError (Unit {0})
validate_tcc_consistency b =
    raise_if (not (is_empty b.tcc_steps) && not (is_some b.tcc_begin_event)) begin_missing
    >> raise_if (is_some b.tcc_begin_event && is_empty b.tcc_steps) steps_missing

-- The inner loop of `_validate_tcc_step_names`.
abbrev pub validate_entries : (names : List ℕ) → List (ℕ × ℕ) → Outcome BuildError (Unit {0})
validate_entries names [] = ok tt
validate_entries names ((s, e) ∷ es) =
    raise_if (not (contains names s)) (unknown_step s) >> validate_entries names es

abbrev pub validate_tcc_step_names : SagaBuilder → Outcome BuildError (Unit {0})
validate_tcc_step_names b =
    validate_entries b.tcc_steps b.tcc_tried
    >> validate_entries b.tcc_steps b.tcc_confirmed
    >> validate_entries b.tcc_steps b.tcc_failed
    >> validate_entries b.tcc_steps b.tcc_cancelled

abbrev pub collect_all_events : SagaBuilder → List ℕ
collect_all_events b =
    map (λ x. x.0) b.on_registrations
    ++ (begin_events b.tcc_begin_event
        ++ (map (λ x. x.1) b.tcc_tried
            ++ (map (λ x. x.1) b.tcc_confirmed
                ++ (map (λ x. x.1) b.tcc_failed ++ map (λ x. x.1) b.tcc_cancelled))))

abbrev pub validate_no_duplicate_events : (seen : List ℕ) → List ℕ → Outcome BuildError (Unit {0})
validate_no_duplicate_events seen [] = ok tt
validate_no_duplicate_events seen (e ∷ es) =
    raise_if (contains seen e) (duplicate_event e)
    >> validate_no_duplicate_events (seen ++ e ∷ []) es

abbrev pub validate_build : SagaBuilder → Outcome BuildError (Unit {0})
validate_build b =
    validate_tcc_consistency b
    >> validate_tcc_step_names b
    >> validate_no_duplicate_events [] (collect_all_events b)

abbrev pub collect_listened_events : SagaBuilder → List ℕ
collect_listened_events b = added (collect_all_events b) []

-- The loops that call `on` of the new saga.
abbrev pub wire_mapped : List (ℕ × ℕ) → Dict Wired → Dict Wired
wire_mapped [] d = d
wire_mapped ((e, c) ∷ es) d = wire_mapped es (insert e (mapped c) d)

abbrev pub wire_begin : Option ℕ → Dict Wired → Dict Wired
wire_begin none d = d
wire_begin (some e) d = insert e begins d

abbrev pub wire_steps : (ℕ → Wired) → List (ℕ × ℕ) → Dict Wired → Dict Wired
wire_steps transition [] d = d
wire_steps transition ((s, e) ∷ es) d = wire_steps transition es (insert e (transition s) d)

-- The wiring of the events, before and after the steps are registered.
abbrev pub init_handlers : SagaBuilder → Dict Wired
init_handlers b = wire_steps cancelled b.tcc_cancelled (
    wire_steps failed b.tcc_failed (
      wire_steps confirmed b.tcc_confirmed (
        wire_steps tried b.tcc_tried
          (wire_begin b.tcc_begin_event (wire_mapped b.on_registrations [])))))

-- The loop that calls `add_tcc_step` of the new saga.
abbrev pub add_tcc_steps : (registered : List ℕ) → List ℕ → Outcome BuildError (List ℕ)
add_tcc_steps registered [] = ok registered
add_tcc_steps registered (s ∷ ss) =
    let rest = add_tcc_steps (registered ++ s ∷ []) ss in
    if contains registered s then raise (step_registered s) else rest

abbrev pub with_handlers : SagaBuilder → Outcome BuildError (List ℕ) → Outcome BuildError BuiltSaga
with_handlers b (ok steps) = ok (record { tcc_steps = steps; event_handlers = init_handlers b })
with_handlers b (raise e) = raise e

-- `_init`
abbrev pub init_saga : SagaBuilder → Outcome BuildError BuiltSaga
init_saga b = with_handlers b (add_tcc_steps [] b.tcc_steps)

unfoldable pub build : SagaBuilder → Outcome BuildError BuiltClass
build b =
    validate_build b >> ok (record { listens_to = collect_listened_events b; init = init_saga b })
