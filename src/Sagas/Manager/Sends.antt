-- ===== src/Sagas/Manager/Sends.antt =====
-- The sends of `_dispatch_and_persist_commands` in sagas/manager.py, over a bus that may refuse a
-- command: which commands are sent, and which entries are marked.
use cqrs_ddd.Common.{
  refl, sym, ap, ◌∙◌, append-nil, append_assoc, List, ℕ, drop, ◌∷◌, ◌≡◌, Bool-cases, if◌then◌else◌,
  length, ◌++◌, ◌+◌, All, inl, suc, take, [], inr, true, map, length-append, All-append,
}
use cqrs_ddd.Sagas.State.{SagaState, Command, PendingCommand}
use cqrs_ddd.Sagas.Repository.{add}
use cqrs_ddd.Sagas.Recovery.{undispatched}
use cqrs_ddd.Sagas.Manager.{
  dispatch_and_persist, Bus, World, mark, pending_of, mark_dispatched, take_command, save,
}

-- How many of the commands the bus takes, one after another, before a send raises.
abbrev pub taken : Bus → List Command → List Command → ℕ
taken bus sent [] = 0
taken bus sent (c ∷ cs) = if bus sent c then suc (taken bus (sent ++ c ∷ []) cs) else 0

pub dispatch_and_persist-sent :
    (bus : Bus) (i : ℕ) (cs : List Command) (s : SagaState) (w : World)
    → (dispatch_and_persist bus i cs s w).0.1.sent ≡ w.sent ++ take (taken bus w.sent cs) cs
unfolding add
dispatch_and_persist-sent bus i [] s w = sym (append-nil w.sent)
dispatch_and_persist-sent bus i (c ∷ cs) s w = elim (Bool-cases (bus w.sent c)) [
  | inl b ↦ rw b (
      dispatch_and_persist-sent bus (i + 1) cs (save (mark_dispatched i s) (take_command c w)).0
        (save (mark_dispatched i s) (take_command c w)).1
      ∙ append_assoc w.sent (c ∷ []) (take (taken bus (w.sent ++ c ∷ []) cs) cs))
  | inr b ↦ rw b (sym (append-nil w.sent))
]

-- Entries that were dispatched, and then entries for commands that were not.
abbrev pub IsSplit : ℕ → List Command → List PendingCommand → Type 0
IsSplit i cs ps =
    (done : List PendingCommand) × (length done ≡ i)
    × All (λ p. p.dispatched ≡ true) done
    × (ps ≡ done ++ map pending_of cs)

abbrev sent_entry : Command → PendingCommand
sent_entry c = record { command = c; dispatched = true }

mark-append :
    (c : Command) (cs : List Command) (done : List PendingCommand)
    → mark (length done) (done ++ map pending_of (c ∷ cs))
      ≡ (done ++ sent_entry c ∷ []) ++ map pending_of cs
mark-append c cs [] = refl
mark-append c cs (d ∷ ds) = ap (λ xs. d ∷ xs) (mark-append c cs ds)

mark-IsSplit :
    (i : ℕ) (c : Command) (cs : List Command) (ps : List PendingCommand)
    → IsSplit i (c ∷ cs) ps
    → IsSplit (i + 1) cs (mark i ps)
mark-IsSplit i c cs ps (done, l, a, e) = (
  done ++ sent_entry c ∷ [],
  length-append done (sent_entry c ∷ []) ∙ ap (λ n. n + 1) l,
  All-append (λ p. p.dispatched ≡ true) done (sent_entry c ∷ []) a (refl, tt),
  ap (mark i) e
      ∙ ap (λ n. mark n (done ++ map pending_of (c ∷ cs))) (sym l)
      ∙ mark-append c cs done,
)

pub dispatch_and_persist-IsSplit :
    (bus : Bus) (i : ℕ) (cs : List Command) (s : SagaState) (w : World)
    → IsSplit i cs s.pending_commands
    → (j : ℕ) × IsSplit j
        (drop (taken bus w.sent cs) cs)
        (dispatch_and_persist bus i cs s w).0.0.pending_commands
unfolding add
dispatch_and_persist-IsSplit bus i [] s w h = (i, h)
dispatch_and_persist-IsSplit bus i (c ∷ cs) s w h = elim (Bool-cases (bus w.sent c)) [
  | inl b ↦ rw b (
      dispatch_and_persist-IsSplit bus (i + 1) cs (save (mark_dispatched i s) (take_command c w)).0
        (save (mark_dispatched i s) (take_command c w)).1
        (mark-IsSplit i c cs s.pending_commands h))
  | inr b ↦ rw b (i, h)
]

-- The commands of entries with their places, from `i` on.
abbrev pub numbered : ℕ → List Command → List (ℕ × Command)
numbered i [] = []
numbered i (c ∷ cs) = (i, c) ∷ numbered (i + 1) cs

undispatched-pending :
    (i : ℕ) (cs : List Command) → undispatched i (map pending_of cs) ≡ numbered i cs
undispatched-pending i [] = refl
undispatched-pending i (c ∷ cs) = ap (λ xs. (i, c) ∷ xs) (undispatched-pending (i + 1) cs)

pub undispatched-append :
    (i : ℕ) (done : List PendingCommand) (cs : List Command)
    → All (λ p. p.dispatched ≡ true) done
    → (j : ℕ) × (undispatched i (done ++ map pending_of cs) ≡ numbered j cs)
undispatched-append i [] cs a = (i, undispatched-pending i cs)
undispatched-append i (d ∷ ds) cs a = rw (a.0) (undispatched-append (i + 1) ds cs a.1)
