-- ===== src/Sagas/Manager/Delivery.antt =====
-- Commands of a saga that stalled: which were sent, and which a recovery sends.
use cqrs_ddd.Common.{
  is_empty, false, ◌<◌, arith, leb, none, refl, sym, ap, ◌∙◌, append-nil, append_assoc, List, ℕ,
  drop, ◌∷◌, ◌≡◌, Bool-cases, ◌++◌, ◌+◌, All, inl, suc, take, [], inr, true, map, Option, All-drop,
  some, subst, take-drop,
}
use cqrs_ddd.Common.Dict.{Dict, lookup, lookup-insert_self}
use cqrs_ddd.Sagas.State.{touch, SagaState, Command, PendingCommand}
use cqrs_ddd.Sagas.Repository.{versioned, find_stalled_sagas, add}
use cqrs_ddd.Sagas.Recovery.{
  recover_one, finish_recovery, recover_pending_sagas, recover_each, send_loaded, undispatched,
  deserialize_command, redispatch_each,
}
use Prim.Native.Nat.{zero}
use cqrs_ddd.Sagas.Manager.{
  SagaClass, clear_pending, dispatch_and_persist, Bus, World, mark, pending_of, Sent,
  mark_dispatched, take_command, save,
}
use cqrs_ddd.Sagas.Orchestration.{MessageRegistry}
use cqrs_ddd.Sagas.Manager.Sends.{
  taken, dispatch_and_persist-sent, dispatch_and_persist-IsSplit, numbered, undispatched-append,
}

-- A bus that takes every command.
abbrev pub IsOpen : Bus → Type 0
IsOpen bus = (sent : List Command) (c : Command) → bus sent c ≡ true

abbrev pub Loads : MessageRegistry → (Command → Option Command) → Command → Type 0
Loads m load c = deserialize_command m load c ≡ some c

redispatch_each-sent :
    (bus : Bus) (m : MessageRegistry) (load : Command → Option Command) (i : ℕ) (cs : List Command)
    (s : SagaState) (w : World)
    → IsOpen bus
    → All (Loads m load) cs
    → ((redispatch_each bus m load (numbered i cs) s w).0.1.sent ≡ w.sent ++ cs)
      × ((redispatch_each bus m load (numbered i cs) s w).1 ≡ true)
      × ((redispatch_each bus m load (numbered i cs) s w).0.0.id ≡ s.id)
unfolding add
redispatch_each-sent bus m load i [] s w o l = (sym (append-nil w.sent), refl, refl)
redispatch_each-sent bus m load i (c ∷ cs) s w o l =
    let saved = save (mark_dispatched i s) (take_command c w) in
    let r = redispatch_each-sent bus m load (i + 1) cs saved.0 saved.1 o l.1 in
    let next : Command → Sent = λ x.
      let (s', w') = save (mark_dispatched i s) (take_command x w) in
      redispatch_each bus m load (numbered (i + 1) cs) s' w' in
    let P : Sent → Type 0 =
      λ x. (x.0.1.sent ≡ w.sent ++ c ∷ cs) × (x.1 ≡ true) × (x.0.0.id ≡ s.id) in
    subst P (sym (ap (send_loaded bus s w next) l.0))
      (rw (o w.sent c) (r.0 ∙ append_assoc w.sent (c ∷ []) cs, r.1, r.2))

mark-is_empty : (i : ℕ) (ps : List PendingCommand) → is_empty (mark i ps) ≡ is_empty ps
mark-is_empty i [] = refl
mark-is_empty zero (p ∷ ps) = refl
mark-is_empty (suc i) (p ∷ ps) = refl

map-is_empty : (cs : List Command) → is_empty (map pending_of cs) ≡ is_empty cs
map-is_empty [] = refl
map-is_empty (c ∷ cs) = refl

-- What the sends leave of a saga.
abbrev Keeps : SagaState → SagaState → Type 0
Keeps s t =
    (t.id ≡ s.id)
    × (t.retry_count ≡ s.retry_count)
    × (t.max_retries ≡ s.max_retries)
    × (is_empty t.pending_commands ≡ is_empty s.pending_commands)

dispatch_and_persist-Keeps :
    (bus : Bus) (i : ℕ) (cs : List Command) (s : SagaState) (w : World)
    → Keeps s (dispatch_and_persist bus i cs s w).0.0
unfolding add
dispatch_and_persist-Keeps bus i [] s w = (refl, refl, refl, refl)
dispatch_and_persist-Keeps bus i (c ∷ cs) s w = elim (Bool-cases (bus w.sent c)) [
  | inl b ↦
      let k =
        dispatch_and_persist-Keeps bus (i + 1) cs (save (mark_dispatched i s) (take_command c w)).0
          (save (mark_dispatched i s) (take_command c w)).1 in
      rw b (k.0, k.1, k.2, k.3 ∙ mark-is_empty i s.pending_commands)
  | inr b ↦ rw b (refl, refl, refl, refl)
]

-- The commands were sent, and nothing is pending for the saga any more.
abbrev pub Arrived : (sent : List Command) (saga_id : ℕ) → World → Type 0
Arrived sent i w =
    (w.sent ≡ sent) × (t : SagaState) × (lookup i w.repo ≡ some t) × (t.pending_commands ≡ [])

cleared : (now : ℕ) (s : SagaState) (w : World) → Arrived w.sent s.id (clear_pending now s w)
unfolding add
cleared now s w =
    let t = versioned (touch now (record s { pending_commands = [] })) in
    (refl, t, lookup-insert_self s.id t w.repo, refl)

finish_recovery-Arrived :
    (now : ℕ) (r : Sent) → r.1 ≡ true → Arrived r.0.1.sent r.0.0.id (finish_recovery now r)
finish_recovery-Arrived now ((s, w), true) h = cleared now (record s { retry_count = 0 }) w
finish_recovery-Arrived now ((s, w), false) h = cc

-- The body of the recovery, for a saga with retries left whose undispatched commands are these.
recover_one-Arrived :
    (bus : Bus) (m : MessageRegistry) (load : Command → Option Command) (classes : Dict SagaClass)
    (now i : ℕ) (cs : List Command) (s : SagaState) (w : World)
    → IsOpen bus
    → All (Loads m load) cs
    → undispatched 0 s.pending_commands ≡ numbered i cs
    → is_empty s.pending_commands ≡ false
    → s.retry_count < s.max_retries
    → Arrived (w.sent ++ cs) s.id (recover_one bus m load classes now s w)
unfolding recover_one add
recover_one-Arrived bus m load classes now i [] s w o l u e r =
    let done = cleared now s w in
    rw (u, e) (done.0 ∙ sym (append-nil w.sent), done.1, done.2, done.3)
recover_one-Arrived bus m load classes now i (c ∷ cs) s w o l u e r =
    let more : leb s.max_retries s.retry_count ≡ false = ground arith in
    let started = save (touch now (record s { retry_count = s.retry_count + 1 })) w in
    let again = redispatch_each-sent bus m load i (c ∷ cs) started.0 started.1 o l in
    let sends = redispatch_each bus m load (numbered i (c ∷ cs)) started.0 started.1 in
    let end = finish_recovery now sends in
    let done : Arrived (w.sent ++ c ∷ cs) s.id end =
      subst (λ xs. Arrived xs s.id end) again.0
        (subst (λ j. Arrived sends.0.1.sent j end) again.2
          (finish_recovery-Arrived now sends again.1)) in
    rw (u, more) done

-- The commands of an event, at least one, are queued on a saga that had none pending and has retries
-- left, and are sent over a bus that may refuse one of them; the stored commands can be made again.
-- When the recovery then finds this saga, and no other one, RUNNING with commands pending, and the
-- bus takes every command, the two together have sent every command of the event once, in their
-- order, and nothing is pending for the saga any more.
pub delivered_once :
    (bus later : Bus) (m : MessageRegistry) (load : Command → Option Command)
    (classes : Dict SagaClass) (limit now : ℕ) (cs : List Command) (s : SagaState) (w : World)
    → IsOpen later
    → All (Loads m load) cs
    → s.pending_commands ≡ map pending_of cs
    → is_empty cs ≡ false
    → s.retry_count < s.max_retries
    → find_stalled_sagas limit none (dispatch_and_persist bus 0 cs s w).0.1.repo
      ≡ (dispatch_and_persist bus 0 cs s w).0.0 ∷ []
    → Arrived (w.sent ++ cs) s.id (
        recover_pending_sagas later m load classes limit now
          (dispatch_and_persist bus 0 cs s w).0.1)
unfolding recover_pending_sagas
delivered_once bus later m load classes limit now cs s w o l h some_commands r found =
    let stalled = (dispatch_and_persist bus 0 cs s w).0 in
    let n = taken bus w.sent cs in
    let (j, (done, k, a, e)) = dispatch_and_persist-IsSplit bus 0 cs s w ([], refl, tt, h) in
    let (i, u) = undispatched-append 0 done (drop n cs) a in
    let places : undispatched 0 stalled.0.pending_commands ≡ numbered i (drop n cs) =
      ap (undispatched 0) e ∙ u in
    let (same_id, retries, limit_of, filled) = dispatch_and_persist-Keeps bus 0 cs s w in
    let there : is_empty stalled.0.pending_commands ≡ false =
      filled ∙ ap is_empty h ∙ map-is_empty cs ∙ some_commands in
    let more : stalled.0.retry_count < stalled.0.max_retries = omega (arith, retries, limit_of) in
    let end = recover_one later m load classes now stalled.0 stalled.1 in
    let recovered : Arrived (stalled.1.sent ++ drop n cs) stalled.0.id end =
      recover_one-Arrived later m load classes now i (drop n cs) stalled.0 stalled.1 o
        (All-drop (Loads m load) n cs l) places there more in
    let all : stalled.1.sent ++ drop n cs ≡ w.sent ++ cs =
      ap (λ xs. xs ++ drop n cs) (dispatch_and_persist-sent bus 0 cs s w)
      ∙ append_assoc w.sent (take n cs) (drop n cs)
      ∙ ap (λ xs. w.sent ++ xs) (take-drop n cs) in
    let one : Arrived (w.sent ++ cs) s.id end =
      subst (λ xs. Arrived xs s.id end) all
        (subst (λ x. Arrived (stalled.1.sent ++ drop n cs) x end) same_id recovered) in
    subst (λ ss. Arrived (w.sent ++ cs) s.id (recover_each later m load classes now ss stalled.1))
      (sym found) one
