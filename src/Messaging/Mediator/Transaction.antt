-- ===== src/Messaging/Mediator/Transaction.antt =====
-- The transaction of a root command: `send` of cqrs/mediator.py and `__aexit__` of
-- ports/unit_of_work.py, in packages/core/src/cqrs_ddd_core.
use cqrs_ddd.Common.{
  refl, ℕ, List, Option, none, ◌≡◌, some, ◌++◌, map, ◌∷◌, [], append-nil, append_assoc,
}
use cqrs_ddd.Messaging.Mediator.{
  handled, unhandled, Context, MessageResult, send, Uow, trigger_commit_hooks, Act, Command, leave,
  committed, correlate, command_correlation, opened, called, commit_raised, with_correlation,
  commit_failed, no_handler, act, new_uow, rolled_back, commit_with, command_handler, propagated,
  Body, leave_scope, dispatch_command, run,
}
use cqrs_ddd.Messaging.Mediator.Inlined.{inline_command, inline, inside_run, within}
use cqrs_ddd.Common.Outcome.{ok, raise}

-- How a transaction ends: what the caller gets, and what is seen after `opened`.
module _ (commit_raises : List ℕ → Option ℕ) where
  abbrev pub answer : MessageResult → Uow → MessageResult
  answer (ok r) u = elim (commit_raises u.staged) [ none ↦ ok r | some e ↦ raise (commit_raised e) ]
  answer (raise e) u = raise e

  abbrev pub closing : MessageResult → Uow → List Act
  closing (ok r) u = elim (commit_raises u.staged) [
    | none ↦ committed u.staged ∷ map called u.hooks
    | some e ↦ commit_failed u.staged ∷ []
  ]
  closing (raise e) u = rolled_back u.staged ∷ []

  abbrev pub transacted : Context → MessageResult × Uow → MessageResult × Context
  transacted x (r, u) = (answer r u, record x { uow = none; acts = x.acts ++ opened ∷ closing r u })

  trigger_commit_hooks_lem :
      (hs : List ℕ) (x : Context)
      → trigger_commit_hooks hs x ≡ record x { acts = x.acts ++ map called hs }
  trigger_commit_hooks_lem [] x = rw (append-nil x.acts) refl
  trigger_commit_hooks_lem (h ∷ hs) x =
      rw
        (
          trigger_commit_hooks_lem hs (act (called h) x),
          append_assoc x.acts (called h ∷ []) (map called hs),
        )
        refl

  leave_lem :
      (r : MessageResult) (u : Uow) (x : Context)
      → leave commit_raises r u (record x { uow = none; acts = x.acts ++ opened ∷ [] })
        ≡ transacted x (r, u)
  leave_lem (raise e) u x = rw (append_assoc x.acts (opened ∷ []) (rolled_back u.staged ∷ [])) refl
  leave_lem (ok r) u x =
      elim (commit_raises u.staged)
        as (λ c.
          commit_with commit_raises r u c (record x { uow = none; acts = x.acts ++ opened ∷ [] })
          ≡ (
            elim c [ none ↦ ok r | some e ↦ raise (commit_raised e) ],
            record x {
              uow = none;
              acts =
                  x.acts
                  ++ opened ∷ elim c [
                    | none ↦ committed u.staged ∷ map called u.hooks
                    | some e ↦ commit_failed u.staged ∷ []
                  ];
            },
          )) [
            | none ↦
                rw
                  (
                    trigger_commit_hooks_lem u.hooks (
                        act (committed u.staged)
                          (record x { uow = none; acts = x.acts ++ opened ∷ [] })),
                    append_assoc (x.acts ++ opened ∷ []) (committed u.staged ∷ [])
                        (map called u.hooks),
                    append_assoc x.acts (opened ∷ []) (committed u.staged ∷ map called u.hooks),
                  )
                  refl
            | some e ↦ rw (append_assoc x.acts (opened ∷ []) (commit_failed u.staged ∷ [])) refl
          ]

  root_lem :
      (i : ℕ) (b : Body) (y : Context)
      → leave_scope commit_raises (
          dispatch_command i y.correlation
            (run commit_raises command_handler b (within new_uow (act opened y))))
        ≡ transacted y (inline_command (handled i y.correlation b))
  unfolding inline_command
  root_lem i b y =
      let (r, u) : MessageResult × Uow = inline command_handler b in
      rw (inside_run commit_raises command_handler b new_uow (act opened y))
        (leave_lem (propagated y.correlation i r) u y)

  -- A root command is one transaction: with its correlation identifier, it answers and leaves what
  -- the command comes to with everything that it sends and every event handler written in its
  -- place, committed once with the hooks called after it in their order, or rolled back.
  pub send_root :
      (m : Command) (x : Context)
      → x.uow ≡ none
      → let y : Context = correlate (command_correlation m) x in
        send commit_raises m x ≡ transacted y (inline_command (with_correlation y.correlation m))
  unfolding send inline_command
  send_root (unhandled t i c) x outside =
      rw outside (leave_lem (raise (no_handler t)) new_uow (correlate c (record x { uow = none })))
  send_root (handled i c b) x outside =
      rw outside (root_lem i b (correlate c (record x { uow = none })))
