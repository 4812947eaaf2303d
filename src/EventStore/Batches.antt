-- ===== src/EventStore/Batches.antt =====
-- The generator `get_all_streaming` ends, and its batches put together are `get_all`.
use cqrs_ddd.EventStore.{
  stream, get_all_streaming, get_all, StoredEvent, Spec, get_events_after, next_position,
  yield_batch,
}
use cqrs_ddd.EventStore.Streaming.{
  IsPlaced, chosen, Splits, take-Splits, get_events_after-eq, chosen_all,
}
use cqrs_ddd.Common.{
  List, ℕ, Option, length, filter, take, ◌<◌, ◌∷◌, ◌++◌, ◌≡◌, ◌≤◌, [], arith, some, suc, All, ap,
  refl, ◌∙◌, none, ◌+◌, length-append, sym, length-filter,
}
use Prim.Native.Nat.{zero}

abbrev pub flatten : List (List StoredEvent) → List StoredEvent
flatten [] = []
flatten (b ∷ bs) = b ++ flatten bs

-- A batch holds an event, and no more than the size that was asked for.
abbrev pub FitsBatch : ℕ → List StoredEvent → Type 0
FitsBatch size b = (0 < length b) × (length b ≤ size)

pub length-take {ℓ} : {A : Type ℓ} (n : ℕ) (xs : List A) → length (take n xs) ≤ n
length-take zero xs = omega arith
length-take (suc n) [] = omega arith
length-take (suc n) (x ∷ xs) = ground (arith, length-take n xs)

stream-none :
    (fuel size : ℕ) (pos : Option ℕ) (spec : Spec) (es : List StoredEvent)
    → get_events_after pos size spec es ≡ []
    → stream (suc fuel) size pos spec es ≡ some []
unfolding stream
stream-none fuel size pos spec es h =
    ap (λ b. yield_batch b (stream fuel size (next_position pos b) spec es)) h

stream-some :
    (fuel size : ℕ) (pos : Option ℕ) (spec : Spec) (es : List StoredEvent) (x : StoredEvent)
    (xs : List StoredEvent) (bs : List (List StoredEvent))
    → get_events_after pos size spec es ≡ x ∷ xs
    → stream fuel size (next_position pos (x ∷ xs)) spec es ≡ some bs
    → stream (suc fuel) size pos spec es ≡ some ((x ∷ xs) ∷ bs)
unfolding stream
stream-some fuel size pos spec es x xs bs h r =
    ap (λ b. yield_batch b (stream fuel size (next_position pos b) spec es)) h
    ∙ ap (yield_batch (x ∷ xs)) r

take_none {ℓ} : {A : Type ℓ} (n : ℕ) (xs : List A) → [] ≡ take (suc n) xs → [] ≡ xs
take_none n [] h = refl
take_none n (x ∷ xs) h = cc

-- What the rounds from a position on yield.
abbrev pub Yields : ℕ → ℕ → Option ℕ → Spec → List StoredEvent → Type 0
Yields fuel size pos spec es =
    (bs : List (List StoredEvent)) × (stream fuel size pos spec es ≡ some bs)
    × (flatten bs ≡ filter (chosen pos spec) es)
    × All (FitsBatch size) bs

round-Yields :
    (fuel n : ℕ) (pos : Option ℕ) (spec : Spec) (es batch : List StoredEvent)
    → get_events_after pos (suc n) spec es ≡ batch
    → Splits pos spec es batch
    → batch ≡ take (suc n) (filter (chosen pos spec) es)
    → length batch ≤ suc n
    → (length (filter (chosen (next_position pos batch) spec) es) < fuel
        → Yields fuel (suc n) (next_position pos batch) spec es)
    → length (filter (chosen pos spec) es) < suc fuel
    → Yields (suc fuel) (suc n) pos spec es
round-Yields fuel n pos spec es [] r s t l k h =
    ([], stream-none fuel (suc n) pos spec es r, take_none n (filter (chosen pos spec) es) t, tt)
round-Yields fuel n pos spec es (x ∷ xs) r s t l k h =
    let after = filter (chosen (next_position pos (x ∷ xs)) spec) es in
    let total : length (filter (chosen pos spec) es) ≡ suc (length xs) + length after =
      ap length s ∙ length-append (x ∷ xs) after in
    let (bs, p, q, f) = k (omega arith) in
    (
      (x ∷ xs) ∷ bs,
      stream-some fuel (suc n) pos spec es x xs bs r p,
      ap (λ r. (x ∷ xs) ++ r) q ∙ sym s,
      ((omega arith, l), f),
    )

stream-Yields :
    (fuel n : ℕ) (pos : Option ℕ) (spec : Spec) (es : List StoredEvent)
    → IsPlaced 0 es
    → length (filter (chosen pos spec) es) < fuel
    → Yields fuel (suc n) pos spec es
stream-Yields zero n pos spec es p h = absurd (omega arith)
stream-Yields (suc fuel) n pos spec es p h =
    let b = take (suc n) (filter (chosen pos spec) es) in
    round-Yields fuel n pos spec es b (get_events_after-eq n pos spec es p)
      (take-Splits n 0 pos spec es p) refl (length-take (suc n) (filter (chosen pos spec) es))
      (stream-Yields fuel n (next_position pos b) spec es p) h

-- `get_all_streaming` with a batch size of at least one ends, on a store that holds its events at
-- their indices, for every specification: no batch is empty or longer than the batch size, and the
-- batches one after another are what `get_all` returns.
pub get_all_streaming-get_all :
    (n : ℕ) (spec : Spec) (es : List StoredEvent)
    → IsPlaced 0 es
    → (bs : List (List StoredEvent)) × (get_all_streaming (suc n) spec es ≡ some bs)
      × (flatten bs ≡ get_all spec es)
      × All (FitsBatch (suc n)) bs
unfolding get_all_streaming get_all
get_all_streaming-get_all n spec es p =
    let everything = chosen_all 0 none spec es p (λ m h. refl) in
    let bound = length-filter (chosen none spec) es in
    let (bs, q, r, f) = stream-Yields (suc (length es)) n none spec es p (omega arith) in
    (bs, q, r ∙ everything, f)
