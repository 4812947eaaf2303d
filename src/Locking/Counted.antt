-- ===== src/Locking/Counted.antt =====
-- The contract of a lock strategy that counts how often each lock is held.
use cqrs_ddd.Common.{ℕ, ◌≡◌, ◌+◌, ◌<◌, ◌==◌, ◌&&◌, if◌then◌else◌}
use cqrs_ddd.Common.Outcome.{Outcome, ok, raise}
use cqrs_ddd.Locking.{LockStrategy, ResourceIdentifier, Fault, same_key}

-- 1 for the lock of a resource with a token, 0 for another.
abbrev pub one : ResourceIdentifier → ℕ → ResourceIdentifier → ℕ → ℕ
one x t y u = if same_key x y && (t == u) then 1 else 0

-- What an acquisition does to the number of times that each lock is held.
abbrev pub Counts :
    {L : Type 0}
    → (L → ResourceIdentifier → ℕ → ℕ)
    → ResourceIdentifier
    → L
    → Outcome Fault ℕ × L
    → Type 0
Counts held x l (ok t, l') =
    (y : ResourceIdentifier) (u : ℕ) → held l' y u ≡ held l y u + one x t y u
Counts held x l (raise e, l') = (y : ResourceIdentifier) (u : ℕ) → held l' y u ≡ held l y u

-- The contract of a strategy: an acquisition holds the lock once more or raises and changes
-- nothing, and the release of a lock that is held gives it back once.
pub record IsCounting {L : Type 0} (st : LockStrategy L) (held : L → ResourceIdentifier → ℕ → ℕ)
    : Type 0 where
  pub acquires : (x : ResourceIdentifier) (l : L) → Counts held x l (st.acquire x l)
  pub releases :
      (x : ResourceIdentifier) (t : ℕ) (l : L)
      → 0 < held l x t
      → (y : ResourceIdentifier) (u : ℕ) → held (st.release x t l).1 y u + one x t y u ≡ held l y u
