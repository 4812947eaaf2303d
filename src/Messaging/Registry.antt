-- ===== src/Messaging/Registry.antt =====
-- `HandlerRegistry` of cqrs/registry.py, the registration at `EventDispatcher` of
-- cqrs/event_dispatcher.py, and `autoload_event_handlers` of cqrs/mediator.py, in
-- packages/core/src/cqrs_ddd_core. Types, classes and instances are numbers.
pub mod Autoload
pub mod Kept
use cqrs_ddd.Common.{
  ℕ, refl, true, false, Bool, List, Option, [], if◌then◌else◌, ◌∷◌, contains, some, none, not, ◌++◌,
  ◌==◌,
}
use cqrs_ddd.Common.Dict.{Dict, insert, lookup}
use cqrs_ddd.Common.Outcome.{Outcome, ◌>>=◌, ok, raise}
use cqrs_ddd.Common.Distinct.{add_new}

-- The event types with their handlers.
abbrev pub HandlerMap : Type 0
HandlerMap = Dict (List ℕ)

pub record HandlerRegistry : Type 0 where
  pub command_handlers : Dict ℕ
  pub query_handlers : Dict ℕ
  pub synchronous_event_handlers : HandlerMap
  pub asynchronous_event_handlers : HandlerMap

-- `HandlerRegistrationError`: another handler is registered.
pub data RegistrationError : Type 0 where
  duplicate : (message_type existing new : ℕ) → RegistrationError

abbrev pub new_registry : HandlerRegistry
new_registry = record {
  command_handlers = [];
  query_handlers = [];
  synchronous_event_handlers = [];
  asynchronous_event_handlers = [];
}

-- A registration where `existing` is what the map has for the message type.
abbrev pub register_over :
    (message_type handler : ℕ) (existing : Option ℕ) → Dict ℕ → Outcome RegistrationError (Dict ℕ)
register_over t h none d = ok (insert t h d)
register_over t h (some e) d = if e == h then ok (insert t h d) else raise (duplicate t e h)

abbrev pub register_one : (message_type handler : ℕ) → Dict ℕ → Outcome RegistrationError (Dict ℕ)
register_one t h d = register_over t h (lookup t d) d

abbrev pub register_command_handler :
    (message_type handler : ℕ) → HandlerRegistry → Outcome RegistrationError HandlerRegistry
register_command_handler t h r =
    register_one t h r.command_handlers >>= λ d. ok (record r { command_handlers = d })

abbrev pub register_query_handler :
    (message_type handler : ℕ) → HandlerRegistry → Outcome RegistrationError HandlerRegistry
register_query_handler t h r =
    register_one t h r.query_handlers >>= λ d. ok (record r { query_handlers = d })

-- `setdefault(event_type, [])`
abbrev pub list_or_empty : Option (List ℕ) → List ℕ
list_or_empty none = []
list_or_empty (some hs) = hs

abbrev pub handlers_of : (event_type : ℕ) → HandlerMap → List ℕ
handlers_of t d = list_or_empty (lookup t d)

-- A handler that is listed is not added. Also `EventDispatcher.register`.
abbrev pub register_in : (event_type handler : ℕ) → HandlerMap → HandlerMap
register_in t h d = insert t (add_new h (handlers_of t d)) d

pub record EventRegistration : Type 0 where
  pub event_type : ℕ
  pub handler : ℕ
  pub synchronous : Bool

abbrev pub register_event_as :
    (synchronous : Bool) (event_type handler : ℕ) → HandlerRegistry → HandlerRegistry
register_event_as true t h r = record r {
  synchronous_event_handlers = register_in t h r.synchronous_event_handlers;
}
register_event_as false t h r = record r {
  asynchronous_event_handlers = register_in t h r.asynchronous_event_handlers;
}

abbrev pub register_event_handler : EventRegistration → HandlerRegistry → HandlerRegistry
register_event_handler e r = register_event_as e.synchronous e.event_type e.handler r

abbrev pub register_all : List EventRegistration → HandlerRegistry → HandlerRegistry
register_all [] r = r
register_all (e ∷ es) r = register_all es (register_event_handler e r)

abbrev pub get_command_handler : (command_type : ℕ) → HandlerRegistry → Option ℕ
get_command_handler t r = lookup t r.command_handlers

abbrev pub get_query_handler : (query_type : ℕ) → HandlerRegistry → Option ℕ
get_query_handler t r = lookup t r.query_handlers

abbrev pub get_synchronous_event_handlers : (event_type : ℕ) → HandlerRegistry → List ℕ
get_synchronous_event_handlers t r = handlers_of t r.synchronous_event_handlers

abbrev pub get_asynchronous_event_handlers : (event_type : ℕ) → HandlerRegistry → List ℕ
get_asynchronous_event_handlers t r = handlers_of t r.asynchronous_event_handlers

abbrev pub get_event_handlers : (event_type : ℕ) → HandlerRegistry → List ℕ × List ℕ
get_event_handlers t r = (get_synchronous_event_handlers t r, get_asynchronous_event_handlers t r)

abbrev pub clear : HandlerRegistry → HandlerRegistry
clear r = record r {
  command_handlers = [];
  query_handlers = [];
  synchronous_event_handlers = [];
  asynchronous_event_handlers = [];
}

-- `autoload_event_handlers`, where `factory` makes the instance of a class.
module _ (factory : ℕ → ℕ) where
  abbrev pub load_each : (event_type : ℕ) → List ℕ → HandlerMap → HandlerMap
  load_each t [] d = d
  load_each t (h ∷ hs) d = load_each t hs (register_in t (factory h) d)

  abbrev pub load_all : HandlerMap → HandlerMap → HandlerMap
  load_all [] d = d
  load_all ((t, hs) ∷ m) d = load_all m (load_each t hs d)

  abbrev pub autoload_event_handlers : HandlerRegistry → HandlerMap → HandlerMap
  autoload_event_handlers r dispatcher = load_all r.synchronous_event_handlers dispatcher
