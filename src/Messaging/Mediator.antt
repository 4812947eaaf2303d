-- ===== src/Messaging/Mediator.antt =====
-- `Mediator` of cqrs/mediator.py with the scope of `UnitOfWork` of ports/unit_of_work.py, in
-- packages/core/src/cqrs_ddd_core. A command comes with what the pipeline around its handler does.
pub mod Inlined
pub mod Transaction
use cqrs_ddd.Common.{ℕ, List, Option, none, some, [], ◌∷◌, ◌++◌, suc}
use cqrs_ddd.Common.Outcome.{Outcome, ok, raise}

-- What a command returns: its result and the identifiers on the response.
pub record Reply : Type 0 where
  pub result : ℕ
  pub correlation_id : Option ℕ
  pub causation_id : Option ℕ

pub data MessageError : Type 0 where
  no_handler : (type : ℕ) → MessageError
  no_unit_of_work : MessageError
  raised : ℕ → MessageError
  commit_raised : ℕ → MessageError

-- What a body does: it returns a response with its events, raises, writes and registers callbacks in
-- the unit of work, and sends commands, going on with what they return or raise.
mutual
  pub data Body : Type 0 where
    returns : Reply → Events → Body
    throws : ℕ → Body
    writes : ℕ → Body → Body
    on_commit : (callback : ℕ) → Body → Body
    sends : Command → (Outcome MessageError Reply → Body) → Body

  pub data Command : Type 0 where
    handled : (command_id : ℕ) (correlation_id : Option ℕ) → Body → Command
    unhandled : (type command_id : ℕ) (correlation_id : Option ℕ) → Command

  -- The events of a response, each with its synchronous handlers.
  pub data Events : Type 0 where
    no_events : Events
    event : Handlers → Events → Events

  pub data Handlers : Type 0 where
    no_handlers : Handlers
    handler : Body → Handlers → Handlers

-- A query whose handler is registered has a body.
pub record Query : Type 0 where
  pub type : ℕ
  pub query_id : ℕ
  pub correlation_id : Option ℕ
  pub body : Option Body

-- Only the events that the handler of a command returns are dispatched.
pub data Role : Type 0 where
  command_handler query_handler event_handler : Role

-- `_on_commit_hooks` and what was written in the transaction.
pub record Uow : Type 0 where
  pub staged : List ℕ
  pub hooks : List ℕ

-- What can be seen from outside of a unit of work.
pub data Act : Type 0 where
  opened : Act
  committed rolled_back commit_failed : List ℕ → Act
  called : (callback : ℕ) → Act

-- `_current_uow`, the context variable of the correlation, the next generated identifier, and what
-- was done.
pub record Context : Type 0 where
  pub uow : Option Uow
  pub correlation : Option ℕ
  pub fresh : ℕ
  pub acts : List Act

abbrev pub MessageResult : Type 0
MessageResult = Outcome MessageError Reply

abbrev pub or_else {ℓ} : {A : Type ℓ} → Option A → Option A → Option A
or_else none b = b
or_else (some a) b = some a

-- `_propagate_ids`
abbrev pub propagate_ids : (message_correlation : Option ℕ) (message_id : ℕ) → Reply → Reply
propagate_ids c i r = record r {
  correlation_id = or_else r.correlation_id c;
  causation_id = or_else r.causation_id (some i);
}

abbrev pub propagated : Option ℕ → ℕ → Outcome MessageError Reply → Outcome MessageError Reply
propagated c i (ok r) = ok (propagate_ids c i r)
propagated c i (raise e) = raise e

-- A later event handler runs whatever an earlier one raised, and the first exception is raised.
abbrev pub first_raised :
    {A B : Type 0} → Outcome MessageError A → Outcome MessageError B → Outcome MessageError B
first_raised (ok _) r = r
first_raised (raise e) _ = raise e

abbrev pub command_correlation : Command → Option ℕ
command_correlation (handled i c b) = c
command_correlation (unhandled t i c) = c

abbrev pub with_correlation : Option ℕ → Command → Command
with_correlation c (handled i _ b) = handled i c b
with_correlation c (unhandled t i _) = unhandled t i c

abbrev pub act : Act → Context → Context
act a x = record x { acts = x.acts ++ a ∷ [] }

-- `trigger_commit_hooks`: each callback is called, and what it raises is logged.
abbrev pub trigger_commit_hooks : List ℕ → Context → Context
trigger_commit_hooks [] x = x
trigger_commit_hooks (h ∷ hs) x = trigger_commit_hooks hs (act (called h) x)

-- The identifier of the message, of the context, or a new one, which the context keeps.
abbrev pub correlate : Option ℕ → Context → Context
correlate (some c) x = record x { correlation = some c }
correlate none x = elim x.correlation [
  | some c ↦ x
  | none ↦ record x { correlation = some x.fresh; fresh = suc x.fresh }
]

abbrev pub stage : ℕ → Uow → Uow
stage w u = record u { staged = u.staged ++ w ∷ [] }

abbrev pub hook : ℕ → Uow → Uow
hook c u = record u { hooks = u.hooks ++ c ∷ [] }

abbrev pub after_dispatch :
    Reply → Outcome MessageError (Unit {0}) × Context → MessageResult × Context
after_dispatch r (ok _, x) = (ok r, x)
after_dispatch r (raise e, x) = (raise e, x)

-- The handlers of the events of a response run in the transaction.
abbrev pub dispatched :
    Role
    → (Context → Outcome MessageError (Unit {0}) × Context)
    → Reply
    → Context
    → MessageResult × Context
dispatched command_handler dispatch r x = after_dispatch r (dispatch x)
dispatched query_handler dispatch r x = (ok r, x)
dispatched event_handler dispatch r x = (ok r, x)

abbrev new_uow : Uow
new_uow = record { staged = []; hooks = [] }

abbrev pub dispatch_command : ℕ → Option ℕ → MessageResult × Context → MessageResult × Context
dispatch_command i c (r, x) = (propagated c i r, x)

-- The handlers of an event run after those of the events before it returned.
abbrev pub continue_dispatch :
    (Context → Outcome MessageError (Unit {0}) × Context)
    → Outcome MessageError (Unit {0}) × Context
    → Outcome MessageError (Unit {0}) × Context
continue_dispatch rest (ok _, x) = rest x
continue_dispatch rest (raise e, x) = (raise e, x)

-- `__aexit__` of the unit of work, whose `commit` may raise: the hooks run after the commit, outside
-- of the scope.
module _ (commit_raises : List ℕ → Option ℕ) where
  abbrev pub commit_with : Reply → Uow → Option ℕ → Context → MessageResult × Context
  commit_with r u none x = (ok r, trigger_commit_hooks u.hooks (act (committed u.staged) x))
  commit_with r u (some e) x = (raise (commit_raised e), act (commit_failed u.staged) x)

  abbrev pub leave : MessageResult → Uow → Context → MessageResult × Context
  leave (ok r) u x = commit_with r u (commit_raises u.staged) x
  leave (raise e) u x = (raise e, act (rolled_back u.staged) x)

  abbrev pub leave_scope : MessageResult × Context → MessageResult × Context
  leave_scope (r, x) = elim x.uow [ some u ↦ leave r u (record x { uow = none }) | none ↦ (r, x) ]

  unfoldable mutual
    pub send : Command → Context → MessageResult × Context
    send (unhandled t i c) x = elim x.uow [
      | some u ↦ (raise (no_handler t), x)
      | none ↦
          let y : Context = correlate c x in
          leave_scope (raise (no_handler t), act opened (record y { uow = some new_uow }))
    ]
    send (handled i c b) x = elim x.uow [
      | some u ↦ dispatch_command i c (run command_handler b x)
      | none ↦
          let y : Context = correlate c x in
          leave_scope (
            dispatch_command i y.correlation
              (run command_handler b (act opened (record y { uow = some new_uow }))))
    ]

    pub run : Role → Body → Context → MessageResult × Context
    run o (returns r es) x = dispatched o (dispatch es) r x
    run o (throws e) x = (raise (raised e), x)
    run o (writes w b) x = elim x.uow [
      | some u ↦ run o b (record x { uow = some (stage w u) })
      | none ↦ (raise no_unit_of_work, x)
    ]
    run o (on_commit c b) x = elim x.uow [
      | some u ↦ run o b (record x { uow = some (hook c u) })
      | none ↦ (raise no_unit_of_work, x)
    ]
    run o (sends m k) x = let (r, y) = send m x in run o (k r) y

    pub dispatch : Events → Context → Outcome MessageError (Unit {0}) × Context
    dispatch no_events x = (ok tt, x)
    dispatch (event hs es) x = continue_dispatch (dispatch es) (handle hs x)

    pub handle : Handlers → Context → Outcome MessageError (Unit {0}) × Context
    handle no_handlers x = (ok tt, x)
    handle (handler b hs) x =
        let (r, y) = run event_handler b x in let (q, z) = handle hs y in (first_raised r q, z)

  -- `query`: no unit of work, and no events.
  abbrev pub answer_query : Query → Option Body → Context → MessageResult × Context
  answer_query q none y = (raise (no_handler q.type), y)
  answer_query q (some b) y = dispatch_command q.query_id y.correlation (run query_handler b y)

  abbrev pub query : Query → Context → MessageResult × Context
  query q x = answer_query q q.body (correlate q.correlation_id x)
