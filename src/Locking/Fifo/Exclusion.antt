-- ===== src/Locking/Fifo/Exclusion.antt =====
-- Mutual exclusion, the bound on the queue and the handing over of a lock.
use cqrs_ddd.Common.{
  ℕ, List, Option, refl, ◌≡◌, [], ◌∷◌, ◌++◌, none, some, true, false, contains, length,
  if◌then◌else◌, arith, ◌+◌, ◌≤◌, length-append, ap, sym, ◌∙◌,
}
use cqrs_ddd.Locking.Fifo.{
  FifoLock, System, Step, starts, goes_on, times_out, gives_back, Reach, here, next, new_system,
  started, released, woken_by, acquire_start, acquire_woken, release, wake_first, Start, taken,
  queued, refused, after_start,
}

-- The calls that have the lock, or are about to have it.
abbrev pub owners : System → ℕ
owners s = length s.holders + length s.woken

-- At most one call owns the lock, and none while it is free; calls wait only for a lock that is
-- taken, and no more of them than the queue holds; and as long as no call has timed out, a lock
-- that is taken is owned.
pub record IsExclusive (s : System) : Type 0 where
  pub one_owner : owners s ≤ (if s.lock.locked then 1 else 0)
  pub waits : s.lock.locked ≡ false → s.lock.waiters ≡ []
  pub bounded : length s.lock.waiters ≤ s.lock.max_queue_size
  pub owned : s.timed_out ≡ [] → s.lock.locked ≡ true → 1 ≤ owners s

-- Only a wait that ends is counted as timed out.
after_start_same :
    (c : ℕ) (s : System) (r : Start × FifoLock) → (after_start c s r).timed_out ≡ s.timed_out
unfolding after_start
after_start_same c s (taken, k) = refl
after_start_same c s (queued, k) = refl
after_start_same c s (refused, k) = refl

woken_by_same :
    (e : Option ℕ) (s : System)
    → ((woken_by e s).timed_out ≡ s.timed_out) × ((woken_by e s).lock ≡ s.lock)
unfolding woken_by
woken_by_same none s = (refl, refl)
woken_by_same (some e) s = (ground arith, ground arith)

woken_by_more : (e : ℕ) (s : System) → s.timed_out ≡ [] → 1 ≤ owners (woken_by (some e) s)
unfolding woken_by
woken_by_more e s h =
    let never : contains s.timed_out e ≡ false = rw h refl in rw never (omega arith)

started-IsExclusive : (s : System) (c : ℕ) → IsExclusive s → IsExclusive (started c s)
unfolding started acquire_start after_start
started-IsExclusive s c v =
    let more = length-append s.lock.waiters (c ∷ []) in
    record {
      one_owner = ground (arith, v.one_owner);
      waits = λ h. ground (arith, v.waits);
      bounded = ground (arith, v.bounded, more);
      owned = λ h k.
          let same = after_start_same c s (acquire_start c s.lock) in
          ground (arith, v.owned (sym same ∙ h));
    }

goes_on-IsExclusive :
    (s : System) (before after : List ℕ) (c : ℕ)
    → s.woken ≡ before ++ c ∷ after
    → IsExclusive s
    → IsExclusive
        (record s { lock = acquire_woken s.lock; woken = before ++ after; holders = c ∷ s.holders })
unfolding acquire_woken
goes_on-IsExclusive s before after c h v =
    let long = ap length h in
    let a = length-append before (c ∷ after) in
    let b = length-append before after in
    record {
      one_owner = ground (arith, v.one_owner, long, a, b);
      waits = λ k. cc;
      bounded = v.bounded;
      owned = λ k l. omega arith;
    }

-- The lock when a holder has given it back.
freed-IsExclusive :
    (s : System) (ws before after : List ℕ) (c : ℕ)
    → s.lock.waiters ≡ ws
    → s.holders ≡ before ++ c ∷ after
    → IsExclusive s
    → IsExclusive (
        woken_by
          (wake_first ws s.lock).0
          (record s { lock = (wake_first ws s.lock).1; holders = before ++ after }))
unfolding woken_by wake_first
freed-IsExclusive s [] before after c e h v =
    let long = ap length h in
    let a = length-append before (c ∷ after) in
    let b = length-append before after in
    record {
      one_owner = ground (arith, v.one_owner, long, a, b);
      waits = λ k. e;
      bounded = v.bounded;
      owned = λ k l. cc;
    }
freed-IsExclusive s (w ∷ ws) before after c e h v =
    let long = ap length h in
    let a = length-append before (c ∷ after) in
    let b = length-append before after in
    let shorter = ap length e in
    let freed : System = record s {
      lock = record s.lock { waiters = ws };
      holders = before ++ after;
    } in
    record {
      one_owner = ground (arith, v.one_owner, long, a, b);
      waits = λ k.
          let taken_lock : s.lock.locked ≡ true = ground (arith, v.one_owner, long, a) in
          let kept = (woken_by_same (some w) freed).1 in cc (kept, taken_lock, k);
      bounded = ground (arith, v.bounded, shorter);
      owned = λ k l. woken_by_more w freed (sym (woken_by_same (some w) freed).0 ∙ k);
    }

Step-IsExclusive : {s t : System} → Step s t → IsExclusive s → IsExclusive t
unfolding released release
Step-IsExclusive (starts s c) v = started-IsExclusive s c v
Step-IsExclusive (goes_on s before after c h) v = goes_on-IsExclusive s before after c h v
Step-IsExclusive (times_out s c h) v = record {
  one_owner = v.one_owner;
  waits = v.waits;
  bounded = v.bounded;
  owned = λ k l. cc;
}
Step-IsExclusive (gives_back s before after c h) v =
    freed-IsExclusive s s.lock.waiters before after c refl h v

new_system-IsExclusive : (max : ℕ) → IsExclusive (new_system max)
new_system-IsExclusive max = record {
  one_owner = omega arith;
  waits = λ h. refl;
  bounded = omega arith;
  owned = λ h k. cc;
}

-- However calls start, go on, time out and give back, a new lock has at most one owner, bounds its
-- queue, and is free when nobody owns it, the last as long as no call has timed out.
pub Reach-IsExclusive : (max : ℕ) {s : System} → Reach (new_system max) s → IsExclusive s
Reach-IsExclusive max here = new_system-IsExclusive max
Reach-IsExclusive max (next r st) = Step-IsExclusive st (Reach-IsExclusive max r)
