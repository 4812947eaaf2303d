-- ===== src/Locking/Atomic.antt =====
-- A critical section takes all of its locks or none, and gives them back.
use mathlib.Core.List.{reverse-append, map-append}
use cqrs_ddd.Common.{
  ℕ, refl, sym, ap, ◌∙◌, append_assoc, List, ◌≡◌, [], append-nil, map, reverse, ◌++◌, ◌∷◌,
}
use cqrs_ddd.Locking.{
  LockStrategy, ResourceIdentifier, Acquired, acquire_each, release_each, rollback, enter, leave,
  Fault, SectionError, acquire_next, finish_enter,
}
use cqrs_ddd.Common.Outcome.{Outcome, ok, raise}

-- What an acquisition does to the locks that are held, the newest first.
abbrev pub Acquires :
    {S : Type 0} → (S → Acquired) → ResourceIdentifier → S → Outcome Fault ℕ × S → Type 0
Acquires held x s (ok t, s') = held s' ≡ (x, t) ∷ held s
Acquires held x s (raise e, s') = held s' ≡ held s

-- The contract of a strategy: a lock that is acquired is held, an acquisition that raises holds
-- nothing more, and a release of the newest lock gives it back.
pub record IsLocking {S : Type 0} (st : LockStrategy S) (held : S → Acquired) : Type 0 where
  pub acquires : (x : ResourceIdentifier) (s : S) → Acquires held x s (st.acquire x s)
  pub releases :
      (x : ResourceIdentifier) (t : ℕ) (s : S) (rest : Acquired)
      → held s ≡ (x, t) ∷ rest
      → held (st.release x t s).1 ≡ rest

module _ {S : Type 0} (st : LockStrategy S) (held : S → Acquired) (law : IsLocking st held) where
  release_each-held :
      (a rest : Acquired) (s : S) → held s ≡ a ++ rest → held (release_each st a s) ≡ rest
  release_each-held [] rest s h = h
  release_each-held ((x, t) ∷ a) rest s h =
      release_each-held a rest (st.release x t s).1 (law.releases x t s (a ++ rest) h)

  -- The locks of a section are the newest ones that are held.
  abbrev pub Holds : Acquired → Acquired → S → Type 0
  Holds rest acquired s = held s ≡ reverse acquired ++ rest

  rollback-held :
      (acquired rest : Acquired) (s : S)
      → Holds rest acquired s
      → held (rollback st acquired s) ≡ rest
  unfolding rollback
  rollback-held acquired rest s h = release_each-held (reverse acquired) rest s h

  -- What the loop leaves: the locks of all resources, in order, unless a call raised.
  abbrev pub Entering :
      Acquired
      → Acquired
      → List ResourceIdentifier
      → (Acquired × Outcome Fault (Unit {0})) × S
      → Type 0
  Entering rest before xs ((acquired, ok u), s) =
      Holds rest acquired s × (map (λ p. p.0) acquired ≡ map (λ p. p.0) before ++ xs)
  Entering rest before xs ((acquired, raise e), s) = Holds rest acquired s

  snoc-Holds :
      (rest acquired : Acquired) (x : ResourceIdentifier) (t : ℕ) (s s' : S)
      → Holds rest acquired s
      → held s' ≡ (x, t) ∷ held s
      → Holds rest (acquired ++ (x, t) ∷ []) s'
  snoc-Holds rest acquired x t s s' h e =
      e ∙ ap (λ r. (x, t) ∷ r) h ∙ ap (λ r. r ++ rest) (sym (reverse-append acquired ((x, t) ∷ [])))

  shift-Entering :
      (rest acquired : Acquired) (x : ResourceIdentifier) (t : ℕ) (xs : List ResourceIdentifier)
      (r : (Acquired × Outcome Fault (Unit {0})) × S)
      → Entering rest (acquired ++ (x, t) ∷ []) xs r
      → Entering rest acquired (x ∷ xs) r
  shift-Entering rest acquired x t xs ((a, ok u), s) h = (
    h.0,
    h.1
        ∙ ap (λ q. q ++ xs)
            (map-append (λ (p : ResourceIdentifier × ℕ). p.0) acquired ((x, t) ∷ []))
        ∙ append_assoc (map (λ p. p.0) acquired) (x ∷ []) xs,
  )
  shift-Entering rest acquired x t xs ((a, raise e), s) h = h

  next-Entering :
      (xs : List ResourceIdentifier) (rest acquired : Acquired) (x : ResourceIdentifier) (s : S)
      (next : ℕ → S → (Acquired × Outcome Fault (Unit {0})) × S) (r : Outcome Fault ℕ × S)
      → Holds rest acquired s
      → Acquires held x s r
      → ((t : ℕ) (s' : S)
          → Holds rest (acquired ++ (x, t) ∷ []) s'
          → Entering rest (acquired ++ (x, t) ∷ []) xs (next t s'))
      → Entering rest acquired (x ∷ xs) (acquire_next acquired next r)
  next-Entering xs rest acquired x s next (raise e, s') h k ih = k ∙ h
  next-Entering xs rest acquired x s next (ok t, s') h k ih =
      shift-Entering rest acquired x t xs (next t s')
        (ih t s' (snoc-Holds rest acquired x t s s' h k))

  acquire_each-Entering :
      (xs : List ResourceIdentifier) (rest acquired : Acquired) (s : S)
      → Holds rest acquired s
      → Entering rest acquired xs (acquire_each st xs acquired s)
  acquire_each-Entering [] rest acquired s h = (h, sym (append-nil (map (λ p. p.0) acquired)))
  acquire_each-Entering (x ∷ xs) rest acquired s h =
      next-Entering xs rest acquired x s (λ t s'. acquire_each st xs (acquired ++ (x, t) ∷ []) s')
        (st.acquire x s) h (law.acquires x s)
        (λ t s'. acquire_each-Entering xs rest (acquired ++ (x, t) ∷ []) s')

  -- What entering leaves: the locks of all resources in order, or the locks of before.
  abbrev pub Entered : List ResourceIdentifier → S → Outcome SectionError Acquired × S → Type 0
  Entered xs s (ok acquired, s') =
      Holds (held s) acquired s'
      × (map (λ p. p.0) acquired ≡ xs)
      × (held (leave st acquired s') ≡ held s)
  Entered xs s (raise e, s') = held s' ≡ held s

  finish-Entered :
      (xs : List ResourceIdentifier) (s : S) (r : (Acquired × Outcome Fault (Unit {0})) × S)
      → Entering (held s) [] xs r
      → Entered xs s (finish_enter st xs r)
  unfolding leave
  finish-Entered xs s ((acquired, ok u), s') h = (h.0, h.1, rollback-held acquired (held s) s' h.0)
  finish-Entered xs s ((acquired, raise e), s') h = rollback-held acquired (held s) s' h

  -- With a strategy that keeps its contract, entering a section either acquires a lock for each of
  -- the resources, in their order, and leaving it then gives exactly these back, or it raises and
  -- the locks that are held are those of before.
  pub enter-Entered : (xs : List ResourceIdentifier) (s : S) → Entered xs s (enter st xs s)
  unfolding enter
  enter-Entered xs s =
      finish-Entered xs s (acquire_each st xs [] s) (acquire_each-Entering xs (held s) [] s refl)

  -- Leaving gives the newest locks back.
  pub leave-held :
      (acquired rest : Acquired) (s : S) → Holds rest acquired s → held (leave st acquired s) ≡ rest
  unfolding leave
  leave-held acquired rest s h = rollback-held acquired rest s h
