-- ===== src/EventStore/Cursor.antt =====
-- `get_events_from_position` yields every event after the position.
use cqrs_ddd.Common.{
  ℕ, refl, sym, ap, ◌∙◌, List, Option, length, ltb, filter, some, take, ◌≡◌, false, suc, true, ◌<◌,
  arith, none, ◌++◌, Bool-cases, ◌∷◌, inl, inr, ◌+◌, length-append, ◌≤◌, length-filter,
}
use cqrs_ddd.EventStore.{
  StoredEvent, read_on, continue_read, get_events_from_position, next_position, Spec,
}
use cqrs_ddd.EventStore.Streaming.{IsPlaced, chosen, take-Splits, get_events_after-eq}
use Prim.Native.Nat.{zero}
use mathlib.Core.List.{[]}

take_short {ℓ} : {A : Type ℓ} (n : ℕ) (xs : List A) → length (take n xs) < n → take n xs ≡ xs
take_short zero xs h = absurd (omega arith)
take_short (suc n) [] h = refl
take_short (suc n) (x ∷ xs) h = ap (λ ys. x ∷ ys) (take_short n xs (ground arith))

stop-read :
    (n : ℕ) (batch : List StoredEvent) (rest : Option (List StoredEvent))
    → ltb (length batch) n ≡ true
    → continue_read n batch rest ≡ some batch
stop-read n batch none h = rw h refl
stop-read n batch (some r) h = rw h refl

go_on-read :
    (n : ℕ) (batch r : List StoredEvent)
    → ltb (length batch) n ≡ false
    → continue_read n batch (some r) ≡ some (batch ++ r)
go_on-read n batch r h = rw h refl

not_less : (m n : ℕ) → ltb m n ≡ false → n ≤ m
not_less m n h = ground arith

read_on-eq :
    (fuel n : ℕ) (pos : Option ℕ) (spec : Spec) (es : List StoredEvent)
    → IsPlaced 0 es
    → length (filter (chosen pos spec) es) < fuel
    → read_on fuel (suc n) pos spec es ≡ some (filter (chosen pos spec) es)
unfolding read_on
read_on-eq zero n pos spec es p h = absurd (omega arith)
read_on-eq (suc fuel) n pos spec es p h =
    let all = filter (chosen pos spec) es in
    let b = take (suc n) all in
    let after = filter (chosen (next_position pos b) spec) es in
    let split : all ≡ b ++ after = take-Splits n 0 pos spec es p in
    let read = get_events_after-eq n pos spec es p in
    let round =
      ap (λ c. continue_read (suc n) c (read_on fuel (suc n) (next_position pos c) spec es)) read in
    elim (Bool-cases (ltb (length b) (suc n))) [
      | inl s ↦
          round
          ∙ stop-read (suc n) b (read_on fuel (suc n) (next_position pos b) spec es) s
          ∙ ap some (take_short (suc n) all (ground arith))
      | inr s ↦
          let total : length all ≡ length b + length after =
            ap length split ∙ length-append b after in
          let full = not_less (length b) (suc n) s in
          let room : length after < fuel = omega arith in
          round
          ∙ ap (continue_read (suc n) b) (read_on-eq fuel n (next_position pos b) spec es p room)
          ∙ go_on-read (suc n) b after s
          ∙ ap some (sym split)
    ]

-- On a store that holds its events at their indices, and with a limit of at least one or none,
-- `get_events_from_position` ends, and yields the events after the position that satisfy the
-- specification, in order.
pub get_events_from_position-eq :
    (pos : Option ℕ) (n : ℕ) (spec : Spec) (es : List StoredEvent)
    → IsPlaced 0 es
    → (get_events_from_position pos (some (suc n)) spec es ≡ some (filter (chosen pos spec) es))
      × (get_events_from_position pos none spec es ≡ some (filter (chosen pos spec) es))
unfolding get_events_from_position
get_events_from_position-eq pos n spec es p =
    let bound = length-filter (chosen pos spec) es in
    (
      read_on-eq (suc (length es)) n pos spec es p (omega arith),
      read_on-eq (suc (length es)) 999 pos spec es p (omega arith),
    )
