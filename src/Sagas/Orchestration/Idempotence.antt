-- ===== src/Sagas/Orchestration/Idempotence.antt =====
-- An event that was handled is not handled again, and a saga that ended handles no event.
use cqrs_ddd.Sagas.Orchestration.{
  open_saga, close, handle, Saga, Handler, DomainEvent, Left, and_then, handle_event,
}
use cqrs_ddd.Sagas.State.{SagaState, is_event_processed, mark_event_processed, is_terminal}
use cqrs_ddd.Common.{
  none, ℕ, List, contains, ◌++◌, ◌≡◌, [], true, ◌∷◌, Bool-cases, arith, inl, subst, inr, sym, refl,
  false, some,
}
use cqrs_ddd.Common.Dict.{Dict}

-- Only the cache is dropped.
abbrev pub reopened : Saga → Saga
reopened g = record g { tcc_records_cache = none }

-- The events that are handled one after another, each at its time, up to the first error.
abbrev pub handle_all : Dict Handler → List (ℕ × DomainEvent) → Saga → Left
handle_all hs [] g = (g, none)
handle_all hs ((now, e) ∷ es) g = and_then (handle hs now e g) (handle_all hs es)

ended-step :
    (hs : Dict Handler) (now : ℕ) (e : DomainEvent) (g : Saga)
    → is_terminal g.state ≡ true
    → handle hs now e g ≡ (reopened g, none)
unfolding handle
ended-step hs now e g h = rw h refl

processed-step :
    (hs : Dict Handler) (now : ℕ) (e : DomainEvent) (g : Saga)
    → is_event_processed e.event_id g.state ≡ true
    → handle hs now e g ≡ (reopened g, none)
unfolding handle
processed-step hs now e g h = elim (Bool-cases (is_terminal g.state)) [
  | inl t ↦ rw t refl
  | inr t ↦ rw (t, h) refl
]

-- A saga in a terminal state keeps its state and its queue under every sequence of events, and no
-- call raises.
pub handle_all-terminal :
    (hs : Dict Handler) (es : List (ℕ × DomainEvent)) (g : Saga)
    → is_terminal g.state ≡ true
    → ((handle_all hs es g).0.state ≡ g.state)
      × ((handle_all hs es g).0.commands_to_dispatch ≡ g.commands_to_dispatch)
      × ((handle_all hs es g).1 ≡ none)
handle_all-terminal hs [] g h = (refl, refl, refl)
handle_all-terminal hs ((now, e) ∷ es) g h =
    let P = λ (x : Left).
      ((and_then x (handle_all hs es)).0.state ≡ g.state)
      × ((and_then x (handle_all hs es)).0.commands_to_dispatch ≡ g.commands_to_dispatch)
      × ((and_then x (handle_all hs es)).1 ≡ none) in
    subst P (sym (ended-step hs now e g h)) (handle_all-terminal hs es (reopened g) h)

contains-snoc : (i : ℕ) (is : List ℕ) → contains (is ++ i ∷ []) i ≡ true
contains-snoc i [] = ground arith
contains-snoc i (x ∷ xs) = ground (arith, contains-snoc i xs)

marked : (i : ℕ) (s : SagaState) → is_event_processed i (mark_event_processed i s) ≡ true
marked i s = elim (Bool-cases (contains s.processed_event_ids i)) [
  | inl h ↦ rw h h
  | inr h ↦ rw h (contains-snoc i s.processed_event_ids)
]

fresh-step :
    (hs : Dict Handler) (now : ℕ) (e : DomainEvent) (g : Saga)
    → is_terminal g.state ≡ false
    → is_event_processed e.event_id g.state ≡ false
    → handle hs now e g ≡ and_then (handle_event hs now e (open_saga g)) (close now e)
unfolding handle
fresh-step hs now e g t p = rw (t, p) refl

-- A second delivery changes only the cache of what a call left, if that raised nothing.
abbrev IsDone : Dict Handler → ℕ → DomainEvent → Left → Type 0
IsDone hs later e x = x.1 ≡ none → handle hs later e x.0 ≡ (reopened x.0, none)

close-IsDone :
    (hs : Dict Handler) (now later : ℕ) (e : DomainEvent) (x : Left)
    → IsDone hs later e (and_then x (close now e))
close-IsDone hs now later e (g, none) h =
    processed-step hs later e (close now e g).0 (marked e.event_id g.state)
close-IsDone hs now later e (g, some err) h = cc

-- After a call of `handle` that raises nothing, whatever the handlers do, a second delivery of the
-- event changes neither the state nor the queue and raises nothing.
pub handle-handle :
    (hs : Dict Handler) (now later : ℕ) (e : DomainEvent) (g : Saga)
    → (handle hs now e g).1 ≡ none
    → handle hs later e (handle hs now e g).0 ≡ (reopened (handle hs now e g).0, none)
handle-handle hs now later e g = elim (Bool-cases (is_terminal g.state)) [
  | inl t ↦
      subst (IsDone hs later e) (sym (ended-step hs now e g t))
        (λ _. ended-step hs later e (reopened g) t)
  | inr t ↦ elim (Bool-cases (is_event_processed e.event_id g.state)) [
    | inl p ↦
        subst (IsDone hs later e) (sym (processed-step hs now e g p))
          (λ _. processed-step hs later e (reopened g) p)
    | inr p ↦
        subst (IsDone hs later e) (sym (fresh-step hs now e g t p))
          (close-IsDone hs now later e (handle_event hs now e (open_saga g)))
  ]
]
