-- ===== src/Locking/InMemory/Counting.antt =====
-- The in-memory strategy meets the contract that the outbox asks of its locks.
use cqrs_ddd.Common.{
  ℕ, Option, refl, ◌≡◌, [], ◌∷◌, none, some, true, ◌==◌, ◌&&◌, if◌then◌else◌, arith, ◌+◌,
  Bool-cases, false, inl, ◌≢◌, ◌∙◌, ap, sym, inr, ◌<◌, ◌-◌,
}
use cqrs_ddd.Locking.{ResourceIdentifier, same_key}
use cqrs_ddd.Locking.Counted.{IsCounting, Counts, one}
use cqrs_ddd.Locking.InMemory.{
  LockState, Locks, find_lock, put_lock, pop_lock, state_or_new, after_fifo, in_memory,
  acquire_lock, release_found, release_lock,
}
use cqrs_ddd.Locking.Fifo.{FifoLock, acquire_start, Start, taken, queued, refused}

find_lock-put_lock :
    (x y : ResourceIdentifier) (st : LockState) (l : Locks)
    → find_lock y (put_lock x st l) ≡ (if same_key x y then some st else find_lock y l)
unfolding find_lock put_lock
find_lock-put_lock x y st [] = ground arith
find_lock-put_lock x y st ((k, old) ∷ l) = ground (arith, find_lock-put_lock x y st l)

find_lock-pop_lock :
    (x y : ResourceIdentifier) (l : Locks)
    → find_lock y (pop_lock x l) ≡ (if same_key x y then none else find_lock y l)
unfolding find_lock pop_lock
find_lock-pop_lock x y [] = ground arith
find_lock-pop_lock x y ((k, old) ∷ l) = ground (arith, find_lock-pop_lock x y l)

find_lock_same :
    (x y : ResourceIdentifier) (l : Locks) → same_key x y ≡ true → find_lock y l ≡ find_lock x l
unfolding find_lock
find_lock_same x y [] h = refl
find_lock_same x y ((k, st) ∷ l) h = ground (arith, find_lock_same x y l)

-- How often the lock of a resource is held with a token.
abbrev pub refs : Option LockState → ℕ → ℕ
refs none u = 0
refs (some st) u = if st.fifo_lock.locked && (st.token == u) then st.ref_count else 0

abbrev pub held_refs : ℕ × Locks → ResourceIdentifier → ℕ → ℕ
held_refs (n, l) y u = refs (find_lock y l) u

refs-put_lock :
    (x y : ResourceIdentifier) (st : LockState) (l : Locks) (u : ℕ)
    → refs (find_lock y (put_lock x st l)) u
      ≡ (if same_key x y then refs (some st) u else refs (find_lock y l) u)
refs-put_lock x y st l u = rw (find_lock-put_lock x y st l) (ground arith)

-- A lock is taken when it is free, and is locked then.
taken_free :
    (c : ℕ) (k k' : FifoLock)
    → acquire_start c k ≡ (taken, k')
    → (k.locked ≡ false) × (k'.locked ≡ true)
unfolding acquire_start
taken_free c k k' h = (ground (arith, h), ground (arith, h))

kept_locked :
    (c : ℕ) (k k' : FifoLock) (r : Start)
    → acquire_start c k ≡ (r, k')
    → r ≢ taken
    → (k.locked ≡ true) × (k'.locked ≡ true)
unfolding acquire_start
kept_locked c k k' taken h n = absurd (n refl)
kept_locked c k k' queued h n = (ground (arith, h), ground (arith, h))
kept_locked c k k' refused h n = (ground (arith, h), ground (arith, h))

refs_free :
    (n : ℕ) (o : Option LockState) (u : ℕ)
    → (state_or_new n o).fifo_lock.locked ≡ false
    → refs o u ≡ 0
refs_free n none u h = refl
refs_free n (some st) u h = rw h refl

refs_locked :
    (n : ℕ) (o : Option LockState) (k : FifoLock) (u : ℕ)
    → (state_or_new n o).fifo_lock.locked ≡ true
    → k.locked ≡ true
    → refs (some (record (state_or_new n o) { fifo_lock = k })) u ≡ refs o u
refs_locked n none k u h e = cc
refs_locked n (some st) k u h e = ground arith

put_counts :
    (x y : ResourceIdentifier) (st : LockState) (l : Locks) (u more : ℕ)
    → refs (some st) u ≡ refs (find_lock x l) u + more
    → refs (find_lock y (put_lock x st l)) u
      ≡ refs (find_lock y l) u + (if same_key x y then more else 0)
put_counts x y st l u more h = elim (Bool-cases (same_key x y)) [
  | inl same ↦
      refs-put_lock x y st l u
      ∙ rw same (h ∙ ap (λ o. refs o u + more) (sym (find_lock_same x y l same)))
  | inr other ↦ refs-put_lock x y st l u ∙ rw other (omega arith)
]

module _ (x : ResourceIdentifier) (n : ℕ) (l : Locks) where
  -- The state that `acquire` works on.
  abbrev state : LockState
  state = state_or_new n (find_lock x l)

  counted_put :
      (k : FifoLock)
      → (state.fifo_lock.locked ≡ true) × (k.locked ≡ true)
      → (y : ResourceIdentifier) (u : ℕ)
      → held_refs (n + 1, put_lock x (record state { fifo_lock = k }) l) y u ≡ held_refs (n, l) y u
  counted_put k h y u =
      put_counts x y (record state { fifo_lock = k }) l u 0
        (omega (arith, refs_locked n (find_lock x l) k u h.0 h.1))
      ∙ ground arith

  after_fifo-Counts :
      (r : Start × FifoLock)
      → acquire_start n state.fifo_lock ≡ r
      → let (o, l') = after_fifo x none state l r in Counts held_refs x (n, l) (o, (n + 1, l'))
  unfolding after_fifo
  after_fifo-Counts (taken, k) h = λ y u.
      let free = taken_free n state.fifo_lock k h in
      let was : refs (find_lock x l) u ≡ 0 = refs_free n (find_lock x l) u free.0 in
      put_counts x y _ l u (if state.token == u then 1 else 0) (rw (was, free.1) (ground arith))
      ∙ ground arith
  after_fifo-Counts (queued, k) h =
      counted_put k (kept_locked n state.fifo_lock k queued h (λ e. cc))
  after_fifo-Counts (refused, k) h =
      counted_put k (kept_locked n state.fifo_lock k refused h (λ e. cc))

refs-pop_lock :
    (x y : ResourceIdentifier) (l : Locks) (u : ℕ)
    → refs (find_lock y (pop_lock x l)) u ≡ (if same_key x y then 0 else refs (find_lock y l) u)
refs-pop_lock x y l u = rw (find_lock-pop_lock x y l) (ground arith)

found_refs :
    (x y : ResourceIdentifier) (l : Locks) (st : LockState) (u : ℕ)
    → find_lock x l ≡ some st
    → same_key x y ≡ true
    → refs (find_lock y l) u ≡ refs (some st) u
found_refs x y l st u h same = ap (λ o. refs o u) (find_lock_same x y l same ∙ h)

release_found-refs :
    (x y : ResourceIdentifier) (t u : ℕ) (l : Locks) (o : Option LockState)
    → find_lock x l ≡ o
    → 0 < refs o t
    → refs (find_lock y (release_found x t l o)) u + one x t y u ≡ refs (find_lock y l) u
unfolding release_found
release_found-refs x y t u l none h p = absurd (omega arith)
release_found-refs x y t u l (some st) h p =
    let last = refs-pop_lock x y l u in
    let less = refs-put_lock x y (record st { ref_count = st.ref_count - 1 }) l u in
    ground (arith, last, less, found_refs x y l st u h)

in_memory-releases :
    (x : ResourceIdentifier) (t : ℕ) (s : ℕ × Locks)
    → 0 < held_refs s x t
    → (y : ResourceIdentifier) (u : ℕ)
    → held_refs (in_memory.release x t s).1 y u + one x t y u ≡ held_refs s y u
unfolding in_memory release_lock
in_memory-releases x t s h y u = release_found-refs x y t u s.1 (find_lock x s.1) refl h

-- The in-memory strategy counts its locks, with the references of a locked state as the number of
-- times that it is held.
pub in_memory-IsCounting : IsCounting in_memory held_refs
unfolding in_memory acquire_lock
in_memory-IsCounting = record {
  acquires = λ x s. after_fifo-Counts x s.0 s.1 _ refl;
  releases = in_memory-releases;
}
