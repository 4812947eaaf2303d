-- ===== src/Sagas/Builder/Built.antt =====
-- What a built saga class listens to and does: `build` of sagas/builder.py of
-- packages/advanced/src/cqrs_ddd_advanced_core.
use cqrs_ddd.Sagas.Builder.{
  BuiltSaga, BuildError, step_registered, add_tcc_steps, with_handlers, init_saga, tried, confirmed,
  failed, cancelled, SagaBuilder, Wired, build, BuiltClass, validate_no_duplicate_events,
  begin_events, collect_all_events, init_handlers, wire_mapped, wire_begin, wire_steps,
  collect_listened_events, validate_build, validate_tcc_consistency, validate_tcc_step_names,
}
use cqrs_ddd.Common.Outcome.{Outcome, raise, ok, both_returned, ◌>>◌}
use cqrs_ddd.Common.{
  ℕ, refl, false, List, Option, ◌≡◌, [], map, ◌++◌, some, subst, ◌∷◌, All, ap, sym, ◌∙◌, append-nil,
  Bool-cases, contains, inl, inr, append_assoc, true,
}
use cqrs_ddd.Common.Dict.{Dict, lookup}
use cqrs_ddd.Sagas.Builder.Wiring.{
  events_of, wire_all, begin_part, declared, mapped_part, step_part, wire_all-append,
  wire_mapped_lem, wire_begin_lem, wire_steps_lem, wire_all_lem, wire_other,
}
use cqrs_ddd.Common.Distinct.{IsDistinct, append-IsDistinct, added-append}
use mathlib.Core.Option.{none}

no_duplicates :
    (seen es : List ℕ)
    → validate_no_duplicate_events seen es ≡ ok tt
    → IsDistinct seen
    → IsDistinct (seen ++ es)
no_duplicates seen [] h d = subst IsDistinct (sym (append-nil seen)) d
no_duplicates seen (e ∷ es) h d = elim (Bool-cases (contains seen e)) [
  | inl c ↦ let raised = rw c at h in cc
  | inr c ↦
      subst IsDistinct (append_assoc seen (e ∷ []) es)
        (no_duplicates (seen ++ e ∷ []) es (rw c at h) (append-IsDistinct seen e c d))
]

events_of-append :
    (xs ys : List (ℕ × Wired)) (es fs : List ℕ)
    → events_of xs ≡ es
    → events_of ys ≡ fs
    → events_of (xs ++ ys) ≡ es ++ fs
events_of-append [] ys es fs h k = subst (λ ds. events_of ys ≡ ds ++ fs) h k
events_of-append (x ∷ xs) ys es fs h k =
    ap (λ ds. x.0 ∷ ds) (events_of-append xs ys (events_of xs) fs refl k) ∙ ap (λ ds. ds ++ fs) h

events_of-mapped_part : (es : List (ℕ × ℕ)) → events_of (mapped_part es) ≡ map (λ x. x.0) es
events_of-mapped_part [] = refl
events_of-mapped_part (x ∷ es) = ap (λ ds. x.0 ∷ ds) (events_of-mapped_part es)

events_of-begin_part : (o : Option ℕ) → events_of (begin_part o) ≡ begin_events o
events_of-begin_part none = refl
events_of-begin_part (some e) = refl

events_of-step_part :
    (t : ℕ → Wired) (es : List (ℕ × ℕ)) → events_of (step_part t es) ≡ map (λ x. x.1) es
events_of-step_part t [] = refl
events_of-step_part t (x ∷ es) = ap (λ ds. x.1 ∷ ds) (events_of-step_part t es)

events_of-declared : (b : SagaBuilder) → events_of (declared b) ≡ collect_all_events b
events_of-declared b =
    let a = mapped_part b.on_registrations in
    let g = begin_part b.tcc_begin_event in
    let t = step_part tried b.tcc_tried in
    let c = step_part confirmed b.tcc_confirmed in
    let f = step_part failed b.tcc_failed in
    let x = step_part cancelled b.tcc_cancelled in
    let fe = map (λ (e : ℕ × ℕ). e.1) b.tcc_failed in
    let ce = map (λ (e : ℕ × ℕ). e.1) b.tcc_confirmed in
    let te = map (λ (e : ℕ × ℕ). e.1) b.tcc_tried in
    let xe = map (λ (e : ℕ × ℕ). e.1) b.tcc_cancelled in
    let e5 =
      events_of-append f x fe xe (events_of-step_part failed b.tcc_failed)
        (events_of-step_part cancelled b.tcc_cancelled) in
    let e4 =
      events_of-append c (f ++ x) ce (fe ++ xe) (events_of-step_part confirmed b.tcc_confirmed)
        e5 in
    let e3 =
      events_of-append t (c ++ (f ++ x)) te (ce ++ (fe ++ xe))
        (events_of-step_part tried b.tcc_tried) e4 in
    let e2 =
      events_of-append g (t ++ (c ++ (f ++ x))) (begin_events b.tcc_begin_event)
        (te ++ (ce ++ (fe ++ xe))) (events_of-begin_part b.tcc_begin_event) e3 in
    events_of-append a (g ++ (t ++ (c ++ (f ++ x)))) (map (λ (e : ℕ × ℕ). e.0) b.on_registrations)
      (begin_events b.tcc_begin_event ++ (te ++ (ce ++ (fe ++ xe))))
      (events_of-mapped_part b.on_registrations) e2

wire_then :
    (xs ys : List (ℕ × Wired)) (d d1 d2 : Dict Wired)
    → wire_all xs d ≡ d1
    → wire_all ys d1 ≡ d2
    → wire_all (xs ++ ys) d ≡ d2
wire_then xs ys d d1 d2 h k = wire_all-append xs ys d ∙ ap (wire_all ys) h ∙ k

init_declared : (b : SagaBuilder) → wire_all (declared b) [] ≡ init_handlers b
init_declared b =
    let a = mapped_part b.on_registrations in
    let g = begin_part b.tcc_begin_event in
    let t = step_part tried b.tcc_tried in
    let c = step_part confirmed b.tcc_confirmed in
    let f = step_part failed b.tcc_failed in
    let x = step_part cancelled b.tcc_cancelled in
    let d1 = wire_mapped b.on_registrations [] in
    let d2 = wire_begin b.tcc_begin_event d1 in
    let d3 = wire_steps tried b.tcc_tried d2 in
    let d4 = wire_steps confirmed b.tcc_confirmed d3 in
    let d5 = wire_steps failed b.tcc_failed d4 in
    let d6 = wire_steps cancelled b.tcc_cancelled d5 in
    wire_then a (g ++ (t ++ (c ++ (f ++ x)))) [] d1 d6 (sym (wire_mapped_lem b.on_registrations []))
      (wire_then g (t ++ (c ++ (f ++ x))) d1 d2 d6 (sym (wire_begin_lem b.tcc_begin_event d1)) (
        wire_then t (c ++ (f ++ x)) d2 d3 d6 (sym (wire_steps_lem tried b.tcc_tried d2)) (
          wire_then c (f ++ x) d3 d4 d6 (sym (wire_steps_lem confirmed b.tcc_confirmed d3)) (
            wire_then f x d4 d5 d6 (sym (wire_steps_lem failed b.tcc_failed d4))
              (sym (wire_steps_lem cancelled b.tcc_cancelled d5))))))

-- What the making of a saga gives: the declared steps and the wired events, where no step name
-- stands twice, or the error for a step whose name was registered before.
abbrev pub Initializes : SagaBuilder → Outcome BuildError BuiltSaga → Type 0
Initializes b (ok g) =
    IsDistinct b.tcc_steps
    × (g.tcc_steps ≡ b.tcc_steps)
    × All (λ x. lookup x.0 g.event_handlers ≡ some x.1) (declared b)
    × ((j : ℕ) → contains (collect_all_events b) j ≡ false → lookup j g.event_handlers ≡ none)
Initializes b (raise e) =
    (n : ℕ) × (before after : List ℕ) × (e ≡ step_registered n)
    × (b.tcc_steps ≡ before ++ n ∷ after)
    × (contains before n ≡ true)

abbrev Adds : List ℕ → Outcome BuildError (List ℕ) → Type 0
Adds steps (ok registered) = IsDistinct steps × (registered ≡ steps)
Adds steps (raise e) =
    (n : ℕ) × (before after : List ℕ) × (e ≡ step_registered n)
    × (steps ≡ before ++ n ∷ after)
    × (contains before n ≡ true)

add_tcc_steps-Adds :
    (registered ss : List ℕ)
    → IsDistinct registered
    → Adds (registered ++ ss) (add_tcc_steps registered ss)
add_tcc_steps-Adds registered [] d =
    (subst IsDistinct (sym (append-nil registered)) d, sym (append-nil registered))
add_tcc_steps-Adds registered (s ∷ ss) d = elim (Bool-cases (contains registered s)) [
  | inl c ↦ rw c (s, registered, ss, refl, refl, c)
  | inr c ↦ rw c (
      subst (λ xs. Adds xs (add_tcc_steps (registered ++ s ∷ []) ss))
        (append_assoc registered (s ∷ []) ss)
        (add_tcc_steps-Adds (registered ++ s ∷ []) ss (append-IsDistinct registered s c d)))
]

with_handlers-Initializes :
    (b : SagaBuilder) (r : Outcome BuildError (List ℕ))
    → Adds b.tcc_steps r
    → All (λ x. lookup x.0 (init_handlers b) ≡ some x.1) (declared b)
    → ((j : ℕ) → contains (collect_all_events b) j ≡ false → lookup j (init_handlers b) ≡ none)
    → Initializes b (with_handlers b r)
with_handlers-Initializes b (ok steps) h wired others = (h.0, h.1, wired, others)
with_handlers-Initializes b (raise e) h wired others = h

-- A saga class that is built listens to exactly the declared events, in their order and no event
-- twice. A saga of the class has the declared steps, does with each event what was declared for it
-- and has no handler for any other one, if no two steps have one name; else the making of a saga
-- raises an error for a name that stands twice.
pub build_lem :
    (b : SagaBuilder) (c : BuiltClass)
    → build b ≡ ok c
    → (c.listens_to ≡ collect_all_events b)
      × IsDistinct (collect_all_events b)
      × (events_of (declared b) ≡ collect_all_events b)
      × Initializes b c.init
unfolding build
build_lem b c came =
    let made : BuiltClass = record { listens_to = collect_listened_events b; init = init_saga b } in
    let (_, made_it, valid) = both_returned (λ _. ok made) (validate_build b) came in
    let (_, unique, _) =
      both_returned (λ _. validate_no_duplicate_events [] (collect_all_events b))
        (validate_tcc_consistency b >> validate_tcc_step_names b) valid in
    let distinct : IsDistinct (collect_all_events b) =
      no_duplicates [] (collect_all_events b) unique tt in
    let same : made ≡ c = cc in
    let events = events_of-declared b in
    let wired = wire_all_lem (declared b) [] (subst IsDistinct (sym events) distinct) in
    let others : (j : ℕ)
        → contains (collect_all_events b) j ≡ false
        → lookup j (init_handlers b) ≡ none =
      λ j absent.
        ap (lookup j) (sym (init_declared b))
        ∙ wire_other (declared b) [] j (subst (λ es. contains es j ≡ false) (sym events) absent) in
    (
      ap (λ k. k.listens_to) (sym same) ∙ added-append [] (collect_all_events b) distinct,
      distinct,
      events,
      subst (λ k. Initializes b k.init) same
          (with_handlers-Initializes b (add_tcc_steps [] b.tcc_steps)
            (add_tcc_steps-Adds [] b.tcc_steps tt)
            (subst (λ d. All (λ x. lookup x.0 d ≡ some x.1) (declared b)) (init_declared b) wired)
            others),
    )
