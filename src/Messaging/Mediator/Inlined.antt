-- ===== src/Messaging/Mediator/Inlined.antt =====
-- A command read as one transaction: cqrs/mediator.py and ports/unit_of_work.py of
-- packages/core/src/cqrs_ddd_core, without the context variable.
use cqrs_ddd.Common.{
  refl, ℕ, List, Option, [], ◌++◌, ◌∷◌, ◌≡◌, ap, append-nil, append_assoc, some, sym, ◌∙◌,
}
use cqrs_ddd.Messaging.Mediator.{
  Body, Command, Events, Handlers, returns, throws, writes, on_commit, sends, handled, unhandled,
  no_events, event, no_handlers, handler, raised, no_handler, MessageResult, Role, Uow, Context,
  MessageError, new_uow, Reply, command_handler, send, propagated, query_handler, run, dispatch,
  event_handler, first_raised, handle, continue_dispatch, dispatched, hook, stage,
}
use cqrs_ddd.Common.Outcome.{Outcome, raise, ok}

abbrev pub both : Uow → Uow → Uow
both u v = record { staged = u.staged ++ v.staged; hooks = u.hooks ++ v.hooks }

-- What is done after `u` was collected.
abbrev pub after {ℓ} : {A : Type ℓ} → Uow → A × Uow → A × Uow
after u (r, v) = (r, both u v)

abbrev pub inline_dispatched :
    Role → Outcome MessageError (Unit {0}) × Uow → Reply → MessageResult × Uow
inline_dispatched command_handler (ok _, u) r = (ok r, u)
inline_dispatched command_handler (raise e, u) r = (raise e, u)
inline_dispatched query_handler _ r = (ok r, new_uow)
inline_dispatched event_handler _ r = (ok r, new_uow)

abbrev pub if_returned :
    Outcome MessageError (Unit {0}) × Uow
    → Outcome MessageError (Unit {0}) × Uow
    → Outcome MessageError (Unit {0}) × Uow
if_returned (ok _, u) p = after u p
if_returned (raise e, u) p = (raise e, u)

abbrev pub one_write : ℕ → Uow
one_write w = record { staged = w ∷ []; hooks = [] }

abbrev pub one_hook : ℕ → Uow
one_hook c = record { staged = []; hooks = c ∷ [] }

-- What a command comes to with every command that it sends and every event handler that it runs
-- written in its place: what it returns or raises, and all that is written and registered.
unfoldable mutual
  pub inline_command : Command → MessageResult × Uow
  inline_command (unhandled t i c) = (raise (no_handler t), new_uow)
  inline_command (handled i c b) = let (r, u) = inline command_handler b in (propagated c i r, u)

  pub inline : Role → Body → MessageResult × Uow
  inline o (returns r es) = inline_dispatched o (inline_events es) r
  inline o (throws e) = (raise (raised e), new_uow)
  inline o (writes w b) = after (one_write w) (inline o b)
  inline o (on_commit c b) = after (one_hook c) (inline o b)
  inline o (sends m k) = let (r, u) = inline_command m in after u (inline o (k r))

  pub inline_events : Events → Outcome MessageError (Unit {0}) × Uow
  inline_events no_events = (ok tt, new_uow)
  inline_events (event hs es) = if_returned (inline_handlers hs) (inline_events es)

  pub inline_handlers : Handlers → Outcome MessageError (Unit {0}) × Uow
  inline_handlers no_handlers = (ok tt, new_uow)
  inline_handlers (handler b hs) =
      let (r, u) = inline event_handler b in
      let (q, v) = inline_handlers hs in (first_raised r q, both u v)

-- The context inside of the scope of a unit of work.
abbrev pub within : Uow → Context → Context
within u x = record x { uow = some u }

abbrev pub entered {ℓ} : {A : Type ℓ} → Uow → Context → A × Uow → A × Context
entered u x (r, v) = (r, within (both u v) x)

both_new : (u : Uow) → both u new_uow ≡ u
both_new u = rw (append-nil u.staged, append-nil u.hooks) refl

both_assoc : (u v w : Uow) → both (both u v) w ≡ both u (both v w)
both_assoc u v w =
    rw (append_assoc u.staged v.staged w.staged, append_assoc u.hooks v.hooks w.hooks) refl

entered_nothing {ℓ} :
    {A : Type ℓ} (u : Uow) (x : Context) (r : A) → (r, within u x) ≡ entered u x (r, new_uow)
entered_nothing u x r = ap (λ v. (r, within v x)) (sym (both_new u))

entered-after {ℓ} :
    {A : Type ℓ} (u v : Uow) (x : Context) (p : A × Uow)
    → entered (both u v) x p ≡ entered u x (after v p)
entered-after u v x (r, w) = ap (λ t. (r, within t x)) (both_assoc u v w)

both-stage : (w : ℕ) (u : Uow) → stage w u ≡ both u (one_write w)
both-stage w u = rw (append-nil u.hooks) refl

both-hook : (c : ℕ) (u : Uow) → hook c u ≡ both u (one_hook c)
both-hook c u = rw (append-nil u.staged) refl

-- What a role makes of the events of a response, whatever their dispatch came to.
dispatched_within :
    (o : Role) (r : Reply) (u : Uow) (x : Context)
    (dispatch_all : Context → Outcome MessageError (Unit {0}) × Context)
    (p : Outcome MessageError (Unit {0}) × Uow)
    → dispatch_all (within u x) ≡ entered u x p
    → dispatched o dispatch_all r (within u x) ≡ entered u x (inline_dispatched o p r)
dispatched_within command_handler r u x f (ok _, v) came = rw came refl
dispatched_within command_handler r u x f (raise e, v) came = rw came refl
dispatched_within query_handler r u x f p came = entered_nothing u x (ok r)
dispatched_within event_handler r u x f p came = entered_nothing u x (ok r)

continued_within :
    (u : Uow) (x : Context) (rest : Context → Outcome MessageError (Unit {0}) × Context)
    (p q : Outcome MessageError (Unit {0}) × Uow)
    → ((v : Uow) → rest (within v x) ≡ entered v x q)
    → continue_dispatch rest (entered u x p) ≡ entered u x (if_returned p q)
continued_within u x rest (ok _, v) q came = came (both u v) ∙ entered-after u v x q
continued_within u x rest (raise e, v) q came = refl

module _ (commit_raises : List ℕ → Option ℕ) where
  mutual
    unfolding send run dispatch handle inline_command inline inline_events inline_handlers

    inside_send :
        (m : Command) (u : Uow) (x : Context)
        → send commit_raises m (within u x) ≡ entered u x (inline_command m)
    inside_send (unhandled t i c) u x = entered_nothing u x (raise (no_handler t))
    inside_send (handled i c b) u x = rw (inside_run command_handler b u x) refl

    pub inside_run :
        (o : Role) (b : Body) (u : Uow) (x : Context)
        → run commit_raises o b (within u x) ≡ entered u x (inline o b)
    inside_run o (returns r es) u x =
        dispatched_within o r u x (dispatch commit_raises es) (inline_events es)
          (inside_dispatch es u x)
    inside_run o (throws e) u x = entered_nothing u x (raise (raised e))
    inside_run o (writes w b) u x =
        ap (λ v. run commit_raises o b (within v x)) (both-stage w u)
        ∙ inside_run o b (both u (one_write w)) x
        ∙ entered-after u (one_write w) x (inline o b)
    inside_run o (on_commit c b) u x =
        ap (λ v. run commit_raises o b (within v x)) (both-hook c u)
        ∙ inside_run o b (both u (one_hook c)) x
        ∙ entered-after u (one_hook c) x (inline o b)
    inside_run o (sends m k) u x =
        let (r, v) : MessageResult × Uow = inline_command m in
        rw (inside_send m u x)
          (inside_run o (k r) (both u v) x ∙ entered-after u v x (inline o (k r)))

    inside_dispatch :
        (es : Events) (u : Uow) (x : Context)
        → dispatch commit_raises es (within u x) ≡ entered u x (inline_events es)
    inside_dispatch no_events u x = entered_nothing u x (ok tt)
    inside_dispatch (event hs es) u x = rw (inside_handle hs u x) (
        continued_within u x (dispatch commit_raises es) (inline_handlers hs) (inline_events es)
          (λ v. inside_dispatch es v x))

    inside_handle :
        (hs : Handlers) (u : Uow) (x : Context)
        → handle commit_raises hs (within u x) ≡ entered u x (inline_handlers hs)
    inside_handle no_handlers u x = entered_nothing u x (ok tt)
    inside_handle (handler b hs) u x =
        let (r, v) : MessageResult × Uow = inline event_handler b in
        rw (inside_run event_handler b u x) (
          rw (inside_handle hs (both u v) x) (
            ap (λ t. (first_raised r (inline_handlers hs).0, within t x))
              (both_assoc u v (inline_handlers hs).1)))
