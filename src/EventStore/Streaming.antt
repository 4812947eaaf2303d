-- ===== src/EventStore/Streaming.antt =====
-- Streaming in batches returns every event once, in order.
use cqrs_ddd.EventStore.{
  StoredEvent, Spec, satisfies, place_from, is_after, after_from, get_events_after, last?,
  next_position, append_batch,
}
use cqrs_ddd.Common.{
  filter_yes, filter_no, List, Option, ℕ, All, Bool, ◌+◌, ◌∷◌, arith, length, none, ◌≡◌, false,
  some, take, ◌++◌, subst, ◌&&◌, filter, suc, refl, ◌≤◌, true, All-take, All-filter, Bool-cases,
  inl, inr, sym,
}
use mathlib.Core.List.{[]}
use Prim.Native.Nat.{zero}

-- The events of a store stand at their indices, from `n` on.
abbrev pub IsPlaced : ℕ → List StoredEvent → Type 0
IsPlaced n [] = Unit
IsPlaced n (e ∷ es) = (e.position ≡ some n) × IsPlaced (n + 1) es

-- The events of a batch come without positions.
abbrev pub IsFresh : List StoredEvent → Type 0
IsFresh es = All (λ e. e.position ≡ none) es

place_from-IsPlaced : (n : ℕ) (es : List StoredEvent) → IsFresh es → IsPlaced n (place_from n es)
place_from-IsPlaced n [] f = tt
place_from-IsPlaced n (e ∷ es) f = (ground arith, place_from-IsPlaced (n + 1) es f.1)

append-IsPlaced :
    (n : ℕ) (xs ys : List StoredEvent)
    → IsPlaced n xs
    → IsPlaced (n + length xs) ys
    → IsPlaced n (xs ++ ys)
append-IsPlaced n [] ys h k = subst (λ m. IsPlaced m ys) (omega arith) k
append-IsPlaced n (x ∷ xs) ys h k =
    (h.0, append-IsPlaced (n + 1) xs ys h.1 (subst (λ m. IsPlaced m ys) (omega arith) k))

-- What a read after a position selects.
abbrev pub chosen : Option ℕ → Spec → StoredEvent → Bool
chosen pos spec e = elim e.position [ none ↦ false | some p ↦ is_after pos p && satisfies spec e ]

-- `room` is how many more events may be returned after the next one.
after_from-eq :
    (n i taken limit room : ℕ) (pos : Option ℕ) (spec : Spec) (es : List StoredEvent)
    → IsPlaced n es
    → limit ≡ suc (taken + room)
    → after_from i taken limit pos spec es ≡ take (suc room) (filter (chosen pos spec) es)
unfolding after_from
after_from-eq n i taken limit room pos spec [] p h = refl
after_from-eq n i taken limit zero pos spec (e ∷ es) p h =
    ground (arith, after_from-eq (n + 1) (i + 1) taken limit zero pos spec es p.1 h)
after_from-eq n i taken limit (suc room) pos spec (e ∷ es) p h = ground (
  arith,
  after_from-eq (n + 1) (i + 1) taken limit (suc room) pos spec es p.1 h,
  after_from-eq (n + 1) (i + 1) (taken + 1) limit room pos spec es p.1 (omega arith),
)

-- A read of at most `suc n` events returns the first of those that it selects.
pub get_events_after-eq :
    (n : ℕ) (pos : Option ℕ) (spec : Spec) (es : List StoredEvent)
    → IsPlaced 0 es
    → get_events_after pos (suc n) spec es ≡ take (suc n) (filter (chosen pos spec) es)
unfolding get_events_after
get_events_after-eq n pos spec es p = after_from-eq 0 0 0 (suc n) n pos spec es p (omega arith)

-- Beyond a position below the first one every event is selected that satisfies the specification.
pub chosen_all :
    (n : ℕ) (pos : Option ℕ) (spec : Spec) (es : List StoredEvent)
    → IsPlaced n es
    → ((m : ℕ) → n ≤ m → is_after pos m ≡ true)
    → filter (chosen pos spec) es ≡ filter (satisfies spec) es
chosen_all n pos spec [] p h = refl
chosen_all n pos spec (e ∷ es) p h =
    ground (arith, h n (omega arith), chosen_all (n + 1) pos spec es p.1 (λ m k. h m (omega arith)))

-- An event that stands at `n` or later.
abbrev StandsFrom : ℕ → StoredEvent → Type 0
StandsFrom n e = (m : ℕ) × (e.position ≡ some m) × (n ≤ m)

IsPlaced-StandsFrom :
    (m n : ℕ) (es : List StoredEvent) → m ≤ n → IsPlaced n es → All (StandsFrom m) es
IsPlaced-StandsFrom m n [] h p = tt
IsPlaced-StandsFrom m n (e ∷ es) h p =
    ((n, p.0, h), IsPlaced-StandsFrom m (n + 1) es (omega arith) p.1)

last_from :
    (n : ℕ) (e : StoredEvent) (es : List StoredEvent)
    → All (StandsFrom n) (e ∷ es)
    → (l : StoredEvent) × (last? (e ∷ es) ≡ some l) × StandsFrom n l
last_from n e [] (a, u) = (e, refl, a)
last_from n e (x ∷ xs) a = last_from n x xs a.1

-- The next round starts at the position of the last event.
next_position_from :
    (n : ℕ) (pos : Option ℕ) (e : StoredEvent) (es : List StoredEvent)
    → All (StandsFrom n) (e ∷ es)
    → (m : ℕ) × (next_position pos (e ∷ es) ≡ some m) × (n ≤ m)
next_position_from n pos e es a =
    let (l, p, (m, q, h)) = last_from n e es a in (m, ground (arith, p, q), h)

IsPlaced-chosen :
    (n : ℕ) (k : ℕ) (pos : Option ℕ) (spec : Spec) (es : List StoredEvent)
    → IsPlaced n es
    → All (StandsFrom n) (take k (filter (chosen pos spec) es))
IsPlaced-chosen n k pos spec es p =
    All-take (StandsFrom n) k (filter (chosen pos spec) es)
      (All-filter (StandsFrom n) (chosen pos spec) es (IsPlaced-StandsFrom n n es (omega arith) p))

-- An event that stands before the place that the next round starts from is not selected again.
passed :
    (n : ℕ) (pos : Option ℕ) (spec : Spec) (e x : StoredEvent) (xs : List StoredEvent)
    → e.position ≡ some n
    → All (StandsFrom (n + 1)) (x ∷ xs)
    → chosen (next_position pos (x ∷ xs)) spec e ≡ false
passed n pos spec e x xs p a =
    let (m, q, h) = next_position_from (n + 1) pos x xs a in rw q (ground (arith, p, h))

-- What is selected after a position is `batch`, and then what is selected after `batch`.
abbrev pub Splits : Option ℕ → Spec → List StoredEvent → List StoredEvent → Type 0
Splits pos spec es batch =
    filter (chosen pos spec) es ≡ batch ++ filter (chosen (next_position pos batch) spec) es

skip-Splits :
    (n : ℕ) (pos : Option ℕ) (spec : Spec) (e : StoredEvent) (es batch : List StoredEvent)
    → e.position ≡ some n
    → chosen pos spec e ≡ false
    → All (StandsFrom (n + 1)) batch
    → Splits pos spec es batch
    → Splits pos spec (e ∷ es) batch
skip-Splits n pos spec e es [] p c a h = rw c h
skip-Splits n pos spec e es (x ∷ xs) p c a h = rw (c, passed n pos spec e x xs p a) h

is_after_later : (m n : ℕ) (pos : Option ℕ) → n ≤ m → is_after pos n ≡ true → is_after pos m ≡ true
is_after_later m n none h a = refl
is_after_later m n (some q) h a = ground arith

chosen-is_after :
    (n : ℕ) (pos : Option ℕ) (spec : Spec) (e : StoredEvent)
    → e.position ≡ some n
    → chosen pos spec e ≡ true
    → is_after pos n ≡ true
chosen-is_after n pos spec e p c = ground arith

one-Splits :
    (n : ℕ) (pos : Option ℕ) (spec : Spec) (e : StoredEvent) (es : List StoredEvent)
    → IsPlaced n (e ∷ es)
    → chosen pos spec e ≡ true
    → Splits pos spec (e ∷ es) (e ∷ [])
one-Splits n pos spec e es (p, ps) c =
    let later = chosen_all (n + 1) (some n) spec es ps (λ m h. ground arith) in
    let before = chosen-is_after n pos spec e p c in
    let all =
      chosen_all (n + 1) pos spec es ps (λ m h. is_after_later m n pos (omega arith) before) in
    let again : chosen (some n) spec e ≡ false = ground arith in
    let next : next_position pos (e ∷ []) ≡ some n = rw p refl in
    let kept = filter_yes (chosen pos spec) e es c in
    let dropped = filter_no (chosen (some n) spec) e es again in
    subst (λ q. filter (chosen pos spec) (e ∷ es) ≡ e ∷ filter (chosen q spec) (e ∷ es)) (sym next)
      cc

shared_position :
    (n : ℕ) (pos : Option ℕ) (e x : StoredEvent) (xs : List StoredEvent)
    → All (StandsFrom n) (x ∷ xs)
    → next_position pos (e ∷ x ∷ xs) ≡ next_position pos (x ∷ xs)
shared_position n pos e x xs a = let (l, p, (m, q, h)) = last_from n x xs a in ground (arith, p, q)

cons-Splits :
    (n : ℕ) (pos : Option ℕ) (spec : Spec) (e : StoredEvent) (es batch : List StoredEvent)
    → IsPlaced n (e ∷ es)
    → chosen pos spec e ≡ true
    → All (StandsFrom (n + 1)) batch
    → Splits pos spec es batch
    → Splits pos spec (e ∷ es) (e ∷ batch)
cons-Splits n pos spec e es [] p c a h = one-Splits n pos spec e es p c
cons-Splits n pos spec e es (x ∷ xs) p c a h =
    let next = shared_position (n + 1) pos e x xs a in
    let kept = filter_yes (chosen pos spec) e es c in
    let dropped =
      filter_no (chosen (next_position pos (x ∷ xs)) spec) e es (passed n pos spec e x xs p.0 a) in
    subst (λ q. filter (chosen pos spec) (e ∷ es) ≡ e ∷ x ∷ (xs ++ filter (chosen q spec) (e ∷ es)))
      (sym next) cc

-- A batch of the first `suc k` that are selected.
pub take-Splits :
    (k n : ℕ) (pos : Option ℕ) (spec : Spec) (es : List StoredEvent)
    → IsPlaced n es
    → Splits pos spec es (take (suc k) (filter (chosen pos spec) es))
take-Splits k n pos spec [] p = refl
take-Splits k n pos spec (e ∷ es) p =
    let chosen_here = filter (chosen pos spec) es in
    let P = λ (f : List StoredEvent). Splits pos spec (e ∷ es) (take (suc k) f) in
    elim (Bool-cases (chosen pos spec e)) [
      | inl c ↦
          subst P (sym (filter_yes (chosen pos spec) e es c))
            (elim k as (λ j. Splits pos spec (e ∷ es) (e ∷ take j chosen_here)) [
              | zero ↦ one-Splits n pos spec e es p c
              | suc j ↦
                  cons-Splits n pos spec e es (take (suc j) chosen_here) p c
                    (IsPlaced-chosen (n + 1) (suc j) pos spec es p.1)
                    (take-Splits j (n + 1) pos spec es p.1)
            ])
      | inr c ↦ subst P (sym (filter_no (chosen pos spec) e es c)) (
          skip-Splits n pos spec e es (take (suc k) chosen_here) p.0 c
            (IsPlaced-chosen (n + 1) (suc k) pos spec es p.1)
            (take-Splits k (n + 1) pos spec es p.1))
    ]

-- A batch of events without positions keeps the events of a store at their indices.
pub append_batch-IsPlaced :
    (new es : List StoredEvent) → IsFresh new → IsPlaced 0 es → IsPlaced 0 (append_batch new es)
unfolding append_batch
append_batch-IsPlaced new es f p = append-IsPlaced 0 es (place_from (length es) new) p (
    subst (λ n. IsPlaced n (place_from (length es) new)) (omega arith)
      (place_from-IsPlaced (length es) new f))
