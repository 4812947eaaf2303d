-- ===== src/Messaging/Examples.antt =====
-- The theorems on messages at a command that sends another one, and at a registry of three middlewares.
use mathlib.Core.List.{Perm}
use cqrs_ddd.Common.{
  ℕ, refl, List, none, Option, [], ◌∷◌, ◌≡◌, some, map, filter, ◌==◌, true, false, ◌+◌, arith,
}
use cqrs_ddd.Messaging.Mediator.{
  Command, handled, unhandled, returns, throws, writes, on_commit, sends, event, handler, no_events,
  no_handlers, Context, Reply, send, opened, committed, rolled_back, called, run, query,
}
use cqrs_ddd.Common.Sort.{sort_by, IsSorted}
use cqrs_ddd.Messaging.Mediator.Inlined.{inline_command}
use cqrs_ddd.Messaging.Pipeline.{
  MiddlewareDefinition, Middleware, RegistryCall, build_pipeline, get_ordered, register,
  get_ordered_middlewares, registry_calls, new_registry, nested, precedes, pipeline_order,
}
use cqrs_ddd.Common.Outcome.{ok, raise}
use cqrs_ddd.Messaging.Registry.{
  get_command_handler, get_query_handler, HandlerRegistry, clear, register_event_handler,
  EventRegistration, handlers_of, autoload_event_handlers, register_all,
}
use cqrs_ddd.Messaging.Registry.Kept.{
  handlers_stay, command_handler, query_handler, event_handler, register_calls, Registration,
}
use cqrs_ddd.Messaging.Validation.{
  Validator, messages, validate, all_messages, is_valid, validated, validate_lem,
}
use cqrs_ddd.Messaging.Mediator.Transaction.{send_root}
use cqrs_ddd.Messaging.Registry.Autoload.{autoload_event_handlers_lem}
use cqrs_ddd.Common.Distinct.{IsDistinct}
use cqrs_ddd.Messaging.Registry

abbrev reply : ℕ → Reply
reply n = record { result = n; correlation_id = none; causation_id = none }

abbrev never_raises : List ℕ → Option ℕ
never_raises staged = none

abbrev outside : Context
outside = record { uow = none; correlation = none; fresh = 7; acts = [] }

-- It writes 20 and registers a callback.
abbrev inner : Command
inner = handled 2 none (writes 20 (on_commit 5 (returns (reply 1) no_events)))

-- It writes 10, sends the inner command, and returns an event, whose handler writes 30.
abbrev outer : Command
outer = handled 1 none (
    writes 10 (
      sends inner (λ r.
        returns (reply 0)
          (event (handler (writes 30 (returns (reply 0) no_events)) no_handlers) no_events))))

send_root_example : send never_raises outer outside ≡ (
  ok (record { result = 0; correlation_id = some 7; causation_id = some 1 }),
  record {
    uow = none;
    correlation = some 7;
    fresh = 8;
    acts = opened ∷ committed (10 ∷ 20 ∷ 30 ∷ []) ∷ called 5 ∷ [];
  },
)
unfolding inline_command
send_root_example = send_root never_raises outer outside refl

-- A nested command that raises after it wrote: when its sender goes on, what it wrote is committed.
abbrev swallowing : Command
swallowing =
    handled 1 none
      (sends (handled 2 none (writes 20 (throws 9))) (λ r. returns (reply 0) no_events))

swallowed : (send never_raises swallowing outside).1.acts ≡ opened ∷ committed (20 ∷ []) ∷ []
unfolding send
swallowed = refl

rolled :
    (send never_raises (handled 1 none (sends (unhandled 4 2 none) (λ r. throws 3))) outside).1.acts
    ≡ opened ∷ rolled_back [] ∷ []
unfolding send
rolled = refl

-- A middleware that writes its number around the rest.
abbrev noting : MiddlewareDefinition → Middleware (List ℕ) (List ℕ)
noting d message next = d.middleware ∷ next message

abbrev defined : ℕ → ℕ → MiddlewareDefinition
defined m p = record { middleware = m; priority = p }

abbrev calls : List RegistryCall
calls =
    register (defined 1 20)
    ∷ get_ordered_middlewares
    ∷ register (defined 2 10)
    ∷ register (defined 3 20)
    ∷ []

noted :
    build_pipeline
      (get_ordered noting (registry_calls noting calls (new_registry (List ℕ) (List ℕ)))).1
      (λ m. m)
      []
    ≡ 2 ∷ 1 ∷ 3 ∷ []
unfolding sort_by
noted = refl

pipeline_order_example :
    let os : List MiddlewareDefinition = defined 2 10 ∷ defined 1 20 ∷ defined 3 20 ∷ [] in
    (build_pipeline
        (get_ordered noting (registry_calls noting calls (new_registry (List ℕ) (List ℕ)))).1
        (λ m. m)
      ≡ nested (map noting os) (λ m. m))
    × IsSorted precedes os
    × Perm os (defined 1 20 ∷ defined 2 10 ∷ defined 3 20 ∷ [])
    × ((p : ℕ)
        → filter (λ d. d.priority == p) os
          ≡ filter (λ d. d.priority == p) (defined 1 20 ∷ defined 2 10 ∷ defined 3 20 ∷ []))
unfolding sort_by
pipeline_order_example = pipeline_order noting calls (λ m. m)

-- Handlers of the types 1 and 2, some registered twice.
abbrev registrations : List EventRegistration
registrations =
    record { event_type = 1; handler = 5; synchronous = true }
    ∷ record { event_type = 2; handler = 6; synchronous = true }
    ∷ record { event_type = 1; handler = 8; synchronous = true }
    ∷ record { event_type = 1; handler = 5; synchronous = true }
    ∷ record { event_type = 1; handler = 9; synchronous = false }
    ∷ []

autoload_event_handlers_lem_example :
    (handlers_of 1 (
        autoload_event_handlers
          (λ h. h + 100)
          (register_all registrations Registry.new_registry)
          [])
      ≡ 105 ∷ 108 ∷ [])
    × IsDistinct (5 ∷ 8 ∷ [])
    × (handlers_of 1 (register_all registrations Registry.new_registry).asynchronous_event_handlers
        ≡ 9 ∷ [])
autoload_event_handlers_lem_example =
    autoload_event_handlers_lem (λ h. h + 100) (λ g h e. omega arith) registrations 1

rejected :
    Registry.register_command_handler 4 11
      (record Registry.new_registry { command_handlers = (4, 10) ∷ [] })
    ≡ raise (Registry.duplicate 4 10 11)
rejected = refl

asked :
    (query never_raises
      (record {
        type = 6;
        query_id = 3;
        correlation_id = none;
        body = some (returns (reply 8) no_events);
      })
      outside).0
    ≡ ok (record { result = 8; correlation_id = some 7; causation_id = some 3 })
unfolding run
asked = refl

abbrev one_field : List (Validator ℕ)
one_field = (λ c. (1, 10 ∷ []) ∷ []) ∷ (λ c. (2, c ∷ []) ∷ (1, 11 ∷ []) ∷ []) ∷ []

validate_lem_example :
    ((g : ℕ) → messages g (validate one_field 5) ≡ all_messages g one_field 5)
    × (is_valid (validate one_field 5) ≡ false)
    × (validated (validate one_field) (λ c. ok c) 5 ≡ raise ((1, 10 ∷ 11 ∷ []) ∷ (2, 5 ∷ []) ∷ []))
validate_lem_example = validate_lem one_field (λ c. ok c) 5 ((refl, tt), ((refl, (refl, tt)), tt))

abbrev claims : List Registration
claims =
    command_handler 4 11
    ∷ query_handler 6 21
    ∷ event_handler (record { event_type = 4; handler = 9; synchronous = true })
    ∷ command_handler 7 12
    ∷ []

abbrev occupied : HandlerRegistry
occupied = record Registry.new_registry {
  command_handlers = (4, 10) ∷ [];
  query_handlers = (6, 20) ∷ [];
}

handlers_stay_example :
    (get_command_handler 4 (register_calls claims occupied) ≡ some 10)
    × (get_query_handler 6 (register_calls claims occupied) ≡ some 20)
handlers_stay_example = handlers_stay claims occupied 4 6 10 20 refl refl

new_type_registered : get_command_handler 7 (register_calls claims occupied) ≡ some 12
new_type_registered = refl

cleared : clear (register_calls claims occupied) ≡ Registry.new_registry
cleared = refl
