-- ===== src/Messaging/Registry/Autoload.antt =====
-- The event handlers that a mediator runs: `register_event_handler` of cqrs/registry.py and
-- `autoload_event_handlers` of cqrs/mediator.py, in packages/core/src/cqrs_ddd_core.
use cqrs_ddd.Common.{
  ℕ, refl, true, false, Bool, List, ◌==◌, ◌∷◌, if◌then◌else◌, ◌≡◌, Bool-cases, ap, map, ◌&&◌, arith,
  contains, inl, not, inr, subst, ==_iff, ◌∙◌, none,
}
use cqrs_ddd.Messaging.Registry.{
  HandlerMap, EventRegistration, handlers_of, HandlerRegistry, add_new, load_all, load_each,
  register_in, register_all, list_or_empty, register_event_handler, new_registry, register_event_as,
  autoload_event_handlers,
}
use cqrs_ddd.Common.Dict.{IsUnique, lookup-insert, lookup-insert_self, lookup, insert-IsUnique}
use mathlib.Core.List.{[]}
use cqrs_ddd.Common.Distinct.{IsDistinct, added, added-IsDistinct, added-append}

abbrev pub same_kind : Bool → Bool → Bool
same_kind true b = b
same_kind false b = not b

-- The handlers that are registered for a type, with repetitions.
abbrev pub registered_for : (synchronous : Bool) (event_type : ℕ) → List EventRegistration → List ℕ
registered_for k t [] = []
registered_for k t (e ∷ es) =
    if same_kind k e.synchronous && (e.event_type == t)
    then e.handler ∷ registered_for k t es
    else registered_for k t es

-- The handlers of one kind.
abbrev pub kind_of : (synchronous : Bool) → HandlerRegistry → HandlerMap
kind_of true r = r.synchronous_event_handlers
kind_of false r = r.asynchronous_event_handlers

register_in_self :
    (t h : ℕ) (d : HandlerMap) → handlers_of t (register_in t h d) ≡ add_new h (handlers_of t d)
register_in_self t h d = ap list_or_empty (lookup-insert_self t (add_new h (handlers_of t d)) d)

register_in_other :
    (t j h : ℕ) (d : HandlerMap)
    → (t == j) ≡ false
    → handlers_of j (register_in t h d) ≡ handlers_of j d
register_in_other t j h d other =
    ap list_or_empty {y = lookup j d}
      (lookup-insert t j (add_new h (handlers_of t d)) d ∙ rw other refl)

-- A registration, seen from one type.
register_in_lem :
    (t j h : ℕ) (d : HandlerMap)
    → handlers_of j (register_in t h d)
      ≡ (if t == j then add_new h (handlers_of j d) else handlers_of j d)
register_in_lem t j h d = elim (Bool-cases (t == j)) [
  | inl e ↦ rw e (
      subst (λ n. handlers_of n (register_in t h d) ≡ add_new h (handlers_of n d))
        ((==_iff t j).0 e) (register_in_self t h d))
  | inr e ↦ rw e (register_in_other t j h d e)
]

register_event_as_lem :
    (k b : Bool) (t j h : ℕ) (r : HandlerRegistry)
    → handlers_of j (kind_of k (register_event_as b t h r)) ≡ (
        if same_kind k b && (t == j)
        then add_new h (handlers_of j (kind_of k r))
        else handlers_of j (kind_of k r))
register_event_as_lem true true t j h r = register_in_lem t j h r.synchronous_event_handlers
register_event_as_lem true false t j h r = refl
register_event_as_lem false true t j h r = refl
register_event_as_lem false false t j h r = register_in_lem t j h r.asynchronous_event_handlers

added_if :
    (c : Bool) (h : ℕ) (xs hs : List ℕ)
    → added xs (if c then add_new h hs else hs) ≡ added (if c then h ∷ xs else xs) hs
added_if true h xs hs = refl
added_if false h xs hs = refl

register_all_lem :
    (k : Bool) (es : List EventRegistration) (t : ℕ) (r : HandlerRegistry)
    → handlers_of t (kind_of k (register_all es r))
      ≡ added (registered_for k t es) (handlers_of t (kind_of k r))
register_all_lem k [] t r = refl
register_all_lem k (e ∷ es) t r =
    register_all_lem k es t (register_event_handler e r)
    ∙ ap (added (registered_for k t es))
        (register_event_as_lem k e.synchronous e.event_type t e.handler r)
    ∙ added_if (same_kind k e.synchronous && (e.event_type == t)) e.handler (registered_for k t es)
        (handlers_of t (kind_of k r))

register_event_as-IsUnique :
    (b : Bool) (t h : ℕ) (r : HandlerRegistry)
    → IsUnique r.synchronous_event_handlers
    → IsUnique (register_event_as b t h r).synchronous_event_handlers
register_event_as-IsUnique true t h r u =
    insert-IsUnique t (add_new h (handlers_of t r.synchronous_event_handlers))
      r.synchronous_event_handlers u
register_event_as-IsUnique false t h r u = u

register_all-IsUnique :
    (es : List EventRegistration) (r : HandlerRegistry)
    → IsUnique r.synchronous_event_handlers
    → IsUnique (register_all es r).synchronous_event_handlers
register_all-IsUnique [] r u = u
register_all-IsUnique (e ∷ es) r u =
    register_all-IsUnique es (register_event_handler e r)
      (register_event_as-IsUnique e.synchronous e.event_type e.handler r u)

abbrev choose : Bool → List ℕ → List ℕ → List ℕ
choose c xs hs = if c then added xs hs else hs

choose-step :
    (c : Bool) (h : ℕ) (xs hs : List ℕ)
    → choose c xs (if c then add_new h hs else hs) ≡ choose c (h ∷ xs) hs
choose-step true h xs hs = refl
choose-step false h xs hs = refl

choose_none : (c : Bool) (hs : List ℕ) → hs ≡ choose c [] hs
choose_none true hs = refl
choose_none false hs = refl

module _ (factory : ℕ → ℕ) where
  load_each_lem :
      (t j : ℕ) (hs : List ℕ) (d : HandlerMap)
      → handlers_of j (load_each factory t hs d)
        ≡ choose (t == j) (map factory hs) (handlers_of j d)
  load_each_lem t j [] d = choose_none (t == j) (handlers_of j d)
  load_each_lem t j (h ∷ hs) d =
      load_each_lem t j hs (register_in t (factory h) d)
      ∙ ap (choose (t == j) (map factory hs)) (register_in_lem t j (factory h) d)
      ∙ choose-step (t == j) (factory h) (map factory hs) (handlers_of j d)

  load_all_lem :
      (m d : HandlerMap) (j : ℕ)
      → IsUnique m
      → handlers_of j (load_all factory m d)
        ≡ added (map factory (handlers_of j m)) (handlers_of j d)
  load_all_lem [] d j u = refl
  load_all_lem ((t, hs) ∷ m) d j u =
      let rest =
        load_all_lem m (load_each factory t hs d) j u.1
        ∙ ap (added (map factory (handlers_of j m))) (load_each_lem t j hs d) in
      elim (Bool-cases (t == j)) [
        | inl e ↦
            let gone : handlers_of j m ≡ [] =
              ap list_or_empty (subst (λ n. lookup n m ≡ none) ((==_iff t j).0 e) u.0) in
            rw e (rest ∙ rw (e, gone) refl)
        | inr e ↦ rw e (rest ∙ rw e refl)
      ]

  -- Distinct classes have distinct instances.
  abbrev pub IsInjective : Type 0
  IsInjective = (g h : ℕ) → factory g ≡ factory h → g ≡ h

  contains-map :
      IsInjective
      → (xs : List ℕ) (h : ℕ) → contains xs h ≡ false
      → contains (map factory xs) (factory h) ≡ false
  contains-map inj [] h absent = refl
  contains-map inj (x ∷ xs) h absent = elim (Bool-cases (factory x == factory h)) [
    | inl e ↦
        let q : x ≡ h = inj x h ((==_iff (factory x) (factory h)).0 e) in absurd (ground arith)
    | inr e ↦ rw e (contains-map inj xs h (ground arith))
  ]

  map-IsDistinct : IsInjective → (xs : List ℕ) → IsDistinct xs → IsDistinct (map factory xs)
  map-IsDistinct inj [] d = tt
  map-IsDistinct inj (x ∷ xs) d = (contains-map inj xs x d.0, map-IsDistinct inj xs d.1)

  -- Whatever event handlers are registered, in any order and repeatedly, with a factory that makes
  -- different instances of different classes: the dispatcher that a mediator fills has for each type the instances of the classes that were registered for it as
  -- synchronous, each class once, in the order in which they were first registered; the registry keeps
  -- the asynchronous ones likewise.
  pub autoload_event_handlers_lem :
      IsInjective
      → (es : List EventRegistration) (t : ℕ)
      → let r : HandlerRegistry = register_all es new_registry in
        let synchronous : List ℕ = added (registered_for true t es) [] in
        (handlers_of t (autoload_event_handlers factory r []) ≡ map factory synchronous)
        × IsDistinct synchronous
        × (handlers_of t r.asynchronous_event_handlers ≡ added (registered_for false t es) [])
  autoload_event_handlers_lem inj es t =
      let r : HandlerRegistry = register_all es new_registry in
      let synchronous : List ℕ = added (registered_for true t es) [] in
      let distinct : IsDistinct synchronous = added-IsDistinct (registered_for true t es) [] tt in
      (
        load_all_lem r.synchronous_event_handlers [] t (register_all-IsUnique es new_registry tt)
            ∙ ap (λ hs. added (map factory hs) []) (register_all_lem true es t new_registry)
            ∙ added-append [] (map factory synchronous) (map-IsDistinct inj synchronous distinct),
        distinct,
        register_all_lem false es t new_registry,
      )
