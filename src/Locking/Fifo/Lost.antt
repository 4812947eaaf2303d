-- ===== src/Locking/Fifo/Lost.antt =====
-- A lock whose first waiter has timed out.
use cqrs_ddd.Common.{ℕ, List, refl, ◌≡◌, [], ◌∷◌, ◌++◌, true, contains, arith, sym, ◌∙◌}
use cqrs_ddd.Locking.Fifo.{
  FifoLock, System, Step, starts, goes_on, times_out, gives_back, Reach, here, next, started,
  released, woken_by, acquire_start, release, wake_first, Start, taken, queued, refused,
  after_start,
}

-- The lock is taken and nobody has it or is about to have it.
abbrev pub IsLost : System → Type 0
IsLost s = (s.lock.locked ≡ true) × (s.holders ≡ []) × (s.woken ≡ [])

inside_none : (before after : List ℕ) (c : ℕ) → [] ≡ before ++ c ∷ after → ⊥
inside_none [] after c h = cc
inside_none (b ∷ before) after c h = cc

acquire_start-locked :
    (c : ℕ) (s : System) (r : Start × FifoLock)
    → acquire_start c s.lock ≡ r
    → IsLost s
    → IsLost (after_start c s r)
unfolding acquire_start after_start
acquire_start-locked c s (taken, k) h l = absurd (ground (arith, h, l))
acquire_start-locked c s (queued, k) h l = (ground (arith, h, l), l.1, l.2)
acquire_start-locked c s (refused, k) h l = (ground (arith, h, l), l.1, l.2)

Step-IsLost : {s t : System} → Step s t → IsLost s → IsLost t
unfolding started
Step-IsLost (starts s c) l = acquire_start-locked c s _ refl l
Step-IsLost (goes_on s before after c h) l = absurd (inside_none before after c (sym l.2 ∙ h))
Step-IsLost (times_out s c h) l = l
Step-IsLost (gives_back s before after c h) l = absurd (inside_none before after c (sym l.1 ∙ h))

Reach-IsLost : {s t : System} → IsLost s → Reach s t → IsLost t
Reach-IsLost l here = l
Reach-IsLost l (next r st) = Step-IsLost st (Reach-IsLost l r)

released-IsLost :
    (s : System) (w : ℕ) (ws : List ℕ)
    → s.lock.locked ≡ true
    → s.lock.waiters ≡ w ∷ ws
    → s.woken ≡ []
    → contains s.timed_out w ≡ true
    → IsLost (released [] [] s)
unfolding released release woken_by wake_first
released-IsLost s w ws l e k d = rw (e, d) (l, refl, k)

-- When the only holder gives back a lock whose first waiter has timed out, no call ever has that
-- lock again, whatever calls start, go on and time out afterwards.
pub never_again :
    (s : System) (c w : ℕ) (ws : List ℕ) {t : System}
    → s.holders ≡ c ∷ []
    → s.lock.locked ≡ true
    → s.lock.waiters ≡ w ∷ ws
    → s.woken ≡ []
    → contains s.timed_out w ≡ true
    → Reach (released [] [] s) t
    → (t.holders ≡ []) × (t.woken ≡ [])
never_again s c w ws held l e k d r =
    let lost = Reach-IsLost (released-IsLost s w ws l e k d) r in (lost.1, lost.2)
