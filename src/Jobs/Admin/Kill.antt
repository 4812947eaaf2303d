-- ===== src/Jobs/Admin/Kill.antt =====
-- The escalation of `cancel_running`: when a kill strategy gets to kill.
use cqrs_ddd.Common.Dict.{lookup, lookup-insert}
use cqrs_ddd.Jobs.Entity.{Job, is_status, JobStateError, cancel, running}
use cqrs_ddd.Jobs.Repository.{Repo, add, get}
use cqrs_ddd.Jobs.Repository.Keys.{IsKeyed, lookup-IsKeyed}
use cqrs_ddd.Jobs.Admin.{Runtime, Result, poll, cancel_running, Ending, graceful}
use cqrs_ddd.Common.{
  ℕ, Bool, Option, ◌-◌, ◌≡◌, false, none, some, suc, ◌≤◌, true, arith, Option-cases, inl, inr,
}
use cqrs_ddd.Common.Outcome.{Outcome, ok, raise, is_ok, is_ok_some}
use Prim.Native.Nat.{zero}

-- Whether the stored job is RUNNING.
abbrev pub runs : ℕ → Repo → Bool
runs i r = elim (lookup i r) [ none ↦ false | some j ↦ is_status j.status running ]

-- How `cancel_running` ended; an exception is no ending.
abbrev pub ending : Outcome JobStateError Result → Option Ending
ending (ok (e, _, _)) = some e
ending (raise _) = none

poll_graceful :
    (rt : Runtime) (grace later i left : ℕ) (r : Repo)
    → runs i (rt.meanwhile (grace - left) r) ≡ false
    → (poll rt grace later i (suc left) r).0 ≡ graceful
unfolding poll get
poll_graceful rt grace later i left r h = ground arith

cancels : (now : ℕ) (j : Job) → is_status j.status running ≡ true → is_ok (cancel now j) ≡ true
unfolding cancel
cancels now j h = ground arith

-- Once the cancelled job is stored it does not run.
cancel_stops :
    (now i : ℕ) (j j' : Job) (r : Repo)
    → j.id ≡ i
    → cancel now j ≡ ok j'
    → runs i (add j' r).1 ≡ false
unfolding cancel add
cancel_stops now i j j' r e h = ground (arith, lookup-insert i i (add j' r).0 r)

-- Where every job stands under its own identifier and neither the stop signal nor the rest of the
-- system sets a job RUNNING that was not, a cancellation with a kill strategy and a grace period of
-- at least a second of a RUNNING job ends at the first poll: it never kills.
pub cancel_running_never_kills :
    (rt : Runtime) (grace now later i : ℕ) (r : Repo)
    → IsKeyed r
    → ((s : Repo) → runs i s ≡ false → runs i (rt.request_stop i s) ≡ false)
    → ((n : ℕ) (s : Repo) → runs i s ≡ false → runs i (rt.meanwhile n s) ≡ false)
    → 1 ≤ grace
    → runs i r ≡ true
    → ending (cancel_running (some rt) grace now later i r) ≡ some graceful
unfolding cancel_running get
cancel_running_never_kills rt zero now later i r keyed stop env g h = absurd (omega arith)
cancel_running_never_kills rt (suc left) now later i r keyed stop env g h =
    elim (Option-cases (lookup i r)) [
      | inl e ↦ ground arith
      | inr (j, e) ↦
          let (j', c) = is_ok_some (cancel now j) (cancels now j (ground arith)) in
          let after = (add j' r).1 in
          let stopped = rt.request_stop i after in
          let quiet = stop after (cancel_stops now i j j' r (lookup-IsKeyed i j r keyed e) c) in
          ground (
            arith,
            c,
            poll_graceful rt (suc left) later i left stopped (env (suc left - left) stopped quiet),
          )
    ]
