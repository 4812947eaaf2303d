-- ===== src/Messaging/Registry/Kept.antt =====
-- What the registrations of cqrs/registry.py in packages/core/src/cqrs_ddd_core leave in place.
use cqrs_ddd.Common.{
  ℕ, refl, List, [], ◌∷◌, ◌≡◌, some, arith, Option, none, true, false, Bool, ◌⊎◌, Bool-cases, ◌==◌,
  inl, subst, sym, ==_iff, inr, ◌∙◌, ap, if◌then◌else◌,
}
use cqrs_ddd.Common.Dict.{Dict, insert, lookup, lookup-insert}
use cqrs_ddd.Common.Outcome.{Outcome, ok, raise, ◌>>=◌}
use cqrs_ddd.Messaging.Registry.{
  HandlerRegistry, RegistrationError, register_command_handler, register_query_handler,
  register_one, register_event_handler, EventRegistration, get_command_handler, get_query_handler,
  register_event_as, duplicate, register_over,
}

pub data Registration : Type 0 where
  command_handler : (command_type handler : ℕ) → Registration
  query_handler : (query_type handler : ℕ) → Registration
  event_handler : EventRegistration → Registration

-- A registration that raises leaves the registry as it is.
abbrev pub after : Outcome RegistrationError HandlerRegistry → HandlerRegistry → HandlerRegistry
after (ok r) s = r
after (raise e) s = s

abbrev pub register_call : Registration → HandlerRegistry → HandlerRegistry
register_call (command_handler t h) r = after (register_command_handler t h r) r
register_call (query_handler t h) r = after (register_query_handler t h r) r
register_call (event_handler e) r = register_event_handler e r

abbrev pub register_calls : List Registration → HandlerRegistry → HandlerRegistry
register_calls [] r = r
register_calls (c ∷ cs) r = register_calls cs (register_call c r)

abbrev kept : Outcome RegistrationError (Dict ℕ) → Dict ℕ → Dict ℕ
kept (ok e) d = e
kept (raise x) d = d

lookup-insert_kept :
    (t h u g : ℕ) (d : Dict ℕ)
    → lookup u d ≡ some g
    → (lookup t d ≡ none) ⊎ (lookup t d ≡ some h)
    → lookup u (insert t h d) ≡ some g
lookup-insert_kept t h u g d q e = elim (Bool-cases (t == u)) [
  | inl y ↦
      let same : lookup t d ≡ some g =
        subst (λ n. lookup n d ≡ some g) (sym ((==_iff t u).0 y)) q in
      elim e [
        | inl n ↦ ground (arith, sym n ∙ same)
        | inr k ↦ lookup-insert t u h d ∙ rw y (sym k ∙ same)
      ]
  | inr n ↦ lookup-insert t u h d ∙ rw n q
]

kept_if :
    (b : Bool) (a d : Dict ℕ) (x : RegistrationError) (u g : ℕ)
    → (b ≡ true → lookup u a ≡ some g)
    → lookup u d ≡ some g
    → lookup u (kept (if b then ok a else raise x) d) ≡ some g
kept_if true a d x u g p q = p refl
kept_if false a d x u g p q = q

lookup-register_over :
    (t h u g : ℕ) (d : Dict ℕ) (o : Option ℕ)
    → lookup u d ≡ some g
    → lookup t d ≡ o
    → lookup u (kept (register_over t h o d) d) ≡ some g
lookup-register_over t h u g d none q n = lookup-insert_kept t h u g d q (inl n)
lookup-register_over t h u g d (some e) q k =
    kept_if (e == h) (insert t h d) d (duplicate t e h) u g
      (λ y. lookup-insert_kept t h u g d q (inr (k ∙ ap some ((==_iff e h).0 y)))) q

lookup-register_one :
    (t h u g : ℕ) (d : Dict ℕ)
    → lookup u d ≡ some g
    → lookup u (kept (register_one t h d) d) ≡ some g
lookup-register_one t h u g d q = lookup-register_over t h u g d (lookup t d) q refl

command_step :
    (o : Outcome RegistrationError (Dict ℕ)) (r : HandlerRegistry) (u : ℕ)
    → let s : HandlerRegistry = after (o >>= λ d. ok (record r { command_handlers = d })) r in
      (get_command_handler u s ≡ lookup u (kept o r.command_handlers))
      × (get_query_handler u s ≡ get_query_handler u r)
command_step (ok d) r u = (refl, refl)
command_step (raise e) r u = (refl, refl)

query_step :
    (o : Outcome RegistrationError (Dict ℕ)) (r : HandlerRegistry) (u : ℕ)
    → let s : HandlerRegistry = after (o >>= λ d. ok (record r { query_handlers = d })) r in
      (get_query_handler u s ≡ lookup u (kept o r.query_handlers))
      × (get_command_handler u s ≡ get_command_handler u r)
query_step (ok d) r u = (refl, refl)
query_step (raise e) r u = (refl, refl)

event_step :
    (b : Bool) (t h : ℕ) (r : HandlerRegistry) (u : ℕ)
    → (get_command_handler u (register_event_as b t h r) ≡ get_command_handler u r)
      × (get_query_handler u (register_event_as b t h r) ≡ get_query_handler u r)
event_step true t h r u = (refl, refl)
event_step false t h r u = (refl, refl)

register_call-get_command_handler :
    (c : Registration) (r : HandlerRegistry) (u g : ℕ)
    → get_command_handler u r ≡ some g
    → get_command_handler u (register_call c r) ≡ some g
register_call-get_command_handler (command_handler t h) r u g q =
    (command_step (register_one t h r.command_handlers) r u).0
    ∙ lookup-register_one t h u g r.command_handlers q
register_call-get_command_handler (query_handler t h) r u g q =
    (query_step (register_one t h r.query_handlers) r u).1 ∙ q
register_call-get_command_handler (event_handler e) r u g q =
    (event_step e.synchronous e.event_type e.handler r u).0 ∙ q

register_call-get_query_handler :
    (c : Registration) (r : HandlerRegistry) (u g : ℕ)
    → get_query_handler u r ≡ some g
    → get_query_handler u (register_call c r) ≡ some g
register_call-get_query_handler (command_handler t h) r u g q =
    (command_step (register_one t h r.command_handlers) r u).1 ∙ q
register_call-get_query_handler (query_handler t h) r u g q =
    (query_step (register_one t h r.query_handlers) r u).0
    ∙ lookup-register_one t h u g r.query_handlers q
register_call-get_query_handler (event_handler e) r u g q =
    (event_step e.synchronous e.event_type e.handler r u).1 ∙ q

-- Once a command type and a query type have handlers, no sequence of registrations changes them,
-- those that raise included.
pub handlers_stay :
    (cs : List Registration) (r : HandlerRegistry) (c q g h : ℕ)
    → get_command_handler c r ≡ some g
    → get_query_handler q r ≡ some h
    → (get_command_handler c (register_calls cs r) ≡ some g)
      × (get_query_handler q (register_calls cs r) ≡ some h)
handlers_stay [] r c q g h k l = (k, l)
handlers_stay (x ∷ xs) r c q g h k l =
    handlers_stay xs (register_call x r) c q g h (register_call-get_command_handler x r c g k)
      (register_call-get_query_handler x r q h l)
