-- ===== src/Scheduling/Sweep.antt =====
-- One sweep over the due commands: `process_due_commands` of scheduling/service.py, in
-- packages/advanced/src/cqrs_ddd_advanced_core.
use mathlib.Core.List.{Perm}
use cqrs_ddd.Common.{
  if◌then◌else◌, ◌||◌, All, ℕ, refl, true, false, Bool, List, [], filter, ◌&&◌, ◌∷◌, ◌++◌, ◌≡◌, ap,
  arith, none, not, sym, append-nil, contains, ◌==◌, Bool-cases, map, inl, ◌+◌, inr, length, subst,
  ◌∙◌, ==_iff, append_assoc,
}
use cqrs_ddd.Common.Dict.{
  insert, has_key, insert-IsUnique, Dict, IsUnique, lookup, erase, erase-IsUnique,
}
use cqrs_ddd.Scheduling.{
  cancel, ScheduleCall, schedules, cancels, schedule_call, schedule_calls, Sender, Dispatch,
  process_each, ScheduledEntry, after_send, process_due_commands, get_due_commands, shown,
  due_entries, Schedule, earlier, is_due,
}
use cqrs_ddd.Common.Sort.{IsSorted, sort_by, sort_by-IsSorted, sort_by-perm, filter-sort_by}

-- A key that is not there is no entry's.
absent {ℓ} :
    {V : Type ℓ} (k : ℕ) (d : Dict V) → lookup k d ≡ none → filter (λ x. not (x.0 == k)) d ≡ d
absent k [] h = refl
absent k ((j, v) ∷ d) h = elim (Bool-cases (j == k)) [
  | inl e ↦ let here = rw e at h in cc
  | inr e ↦ rw e (ap (λ x. (j, v) ∷ x) (absent k d (rw e at h)))
]

filter_twice {ℓ} :
    {A : Type ℓ} (p q r : A → Bool) (xs : List A)
    → ((x : A) → (q x && p x) ≡ r x)
    → filter p (filter q xs) ≡ filter r xs
filter_twice p q r [] h = refl
filter_twice p q r (x ∷ xs) h = ground (arith, h x, filter_twice p q r xs h)

erase-filter {ℓ} :
    {V : Type ℓ} (k : ℕ) (d : Dict V) → IsUnique d → erase k d ≡ filter (λ x. not (x.0 == k)) d
erase-filter k [] u = refl
erase-filter k ((j, v) ∷ d) u = elim (Bool-cases (j == k)) [
  | inl e ↦ rw e (sym (absent k d (subst (λ i. lookup i d ≡ none) ((==_iff j k).0 e) u.0)))
  | inr e ↦ rw e (ap (λ x. (j, v) ∷ x) (erase-filter k d u.1))
]

map-shown :
    (xs : List (ℕ × ScheduledEntry)) → map (λ x. x.1) (map shown xs) ≡ map (λ x. x.1.command) xs
map-shown [] = refl
map-shown ((i, e) ∷ xs) = ap (λ cs. e.command ∷ cs) (map-shown xs)

abbrev pub if_returned : (raised : Bool) → ℕ → List ℕ → List ℕ
if_returned true i rest = rest
if_returned false i rest = i ∷ rest

abbrev pub key_of : ScheduleCall → ℕ
key_of (schedules i e) = i
key_of (cancels i) = i

-- The calls are about identifiers of `touched`.
abbrev pub CallsWithin : (ℕ → Bool) → List ScheduleCall → Type 0
CallsWithin touched calls = All (λ x. touched (key_of x) ≡ true) calls

-- What the commands `cs` make of the entries that no call touches, the sent commands and the count,
-- when those of the identifiers `done` return.
abbrev pub Sweeps : (touched : ℕ → Bool) (done cs : List ℕ) → Dispatch → Dispatch → Type 0
Sweeps touched done cs w w1 =
    (filter (λ x. not (touched x.0)) w1.scheduled
      ≡ filter (λ x. not (touched x.0 || contains done x.0)) w.scheduled)
    × (w1.sent ≡ w.sent ++ cs)
    × (w1.count ≡ w.count + length done)

filter-insert {ℓ} :
    {V : Type ℓ} (p : ℕ → Bool) (k : ℕ) (v : V) (d : Dict V)
    → p k ≡ false
    → filter (λ x. p x.0) (insert k v d) ≡ filter (λ x. p x.0) d
filter-insert p k v [] h = ground (arith, h)
filter-insert p k v ((j, u) ∷ d) h = ground (arith, h, filter-insert p k v d h)

filter-erase {ℓ} :
    {V : Type ℓ} (p : ℕ → Bool) (k : ℕ) (d : Dict V)
    → p k ≡ false
    → filter (λ x. p x.0) (erase k d) ≡ filter (λ x. p x.0) d
filter-erase p k [] h = refl
filter-erase p k ((j, u) ∷ d) h = ground (arith, h, filter-erase p k d h)

-- What holds with and without the entry holds after its cancellation.
of_cancel {ℓ} :
    (i : ℕ) (d : Schedule) (P : Schedule → Type ℓ) → P (erase i d) → P d → P (cancel i d).1
of_cancel i d P gone stays =
    let Q : Bool × Schedule → Type ℓ = λ r. P r.1 in
    elim (has_key i d) as (λ b. Q (if b then (true, erase i d) else (false, d))) [
      | true ↦ gone
      | false ↦ stays
    ]

-- The entries that a call is not about stay, whatever else it tests.
filter-schedule_call :
    (p : ℕ → Bool) (x : ScheduleCall) (d : Schedule)
    → p (key_of x) ≡ false
    → filter (λ y. p y.0) (schedule_call x d) ≡ filter (λ y. p y.0) d
filter-schedule_call p (schedules i e) d h = filter-insert p i e d h
filter-schedule_call p (cancels i) d h =
    of_cancel i d (λ e. filter (λ y. p y.0) e ≡ filter (λ y. p y.0) d) (filter-erase p i d h) refl

filter-schedule_calls :
    (p : ℕ → Bool) (xs : List ScheduleCall) (d : Schedule)
    → All (λ x. p (key_of x) ≡ false) xs
    → filter (λ y. p y.0) (schedule_calls xs d) ≡ filter (λ y. p y.0) d
filter-schedule_calls p [] d h = refl
filter-schedule_calls p (x ∷ xs) d h =
    filter-schedule_calls p xs (schedule_call x d) h.1 ∙ filter-schedule_call p x d h.0

schedule_calls-IsUnique :
    (xs : List ScheduleCall) (d : Schedule) → IsUnique d → IsUnique (schedule_calls xs d)
schedule_calls-IsUnique [] d u = u
schedule_calls-IsUnique (schedules i e ∷ xs) d u =
    schedule_calls-IsUnique xs (insert i e d) (insert-IsUnique i e d u)
schedule_calls-IsUnique (cancels i ∷ xs) d u =
    of_cancel i d (λ e. IsUnique (schedule_calls xs e))
      (schedule_calls-IsUnique xs (erase i d) (erase-IsUnique i d u))
      (schedule_calls-IsUnique xs d u)

skipped :
    (touched : ℕ → Bool) (done : List ℕ) (xs : List ScheduleCall)
    → CallsWithin touched xs
    → All (λ x. not (touched (key_of x) || contains done (key_of x)) ≡ false) xs
skipped touched done [] h = tt
skipped touched done (x ∷ xs) h = (rw (h.0) refl, skipped touched done xs h.1)

after_send-Sweeps :
    (touched : ℕ → Bool) (r : Bool) (i c : ℕ) (w : Dispatch) (done cs : List ℕ)
    (rest : Dispatch → Dispatch)
    → IsUnique w.scheduled
    → ((v : Dispatch)
        → IsUnique v.scheduled
        → v.sent ≡ w.sent ++ c ∷ []
        → Sweeps touched done cs v (rest v))
    → Sweeps touched (if_returned r i done) (c ∷ cs) w (rest (after_send r (i, c) w))
after_send-Sweeps touched true i c w done cs rest u h =
    let (d, s, n) = h (after_send true (i, c) w) u refl in
    (d, s ∙ append_assoc w.sent (c ∷ []) cs, n)
after_send-Sweeps touched false i c w done cs rest u h =
    let (d, s, n) = h (after_send false (i, c) w) (erase-IsUnique i w.scheduled u) refl in
    (
      d
          ∙ ap (filter (λ x. not (touched x.0 || contains done x.0))) (erase-filter i w.scheduled u)
          ∙ filter_twice (λ x. not (touched x.0 || contains done x.0)) (λ x. not (x.0 == i))
              (λ x. not (touched x.0 || contains (i ∷ done) x.0)) w.scheduled (λ x. ground arith),
      s ∙ append_assoc w.sent (c ∷ []) cs,
      n ∙ omega arith,
    )

plain_filter :
    (touched : ℕ → Bool) (d : Schedule)
    → filter (λ x. not (touched x.0)) d ≡ filter (λ x. not (touched x.0 || contains [] x.0)) d
plain_filter touched [] = refl
plain_filter touched (x ∷ d) = ground (arith, plain_filter touched d)

module _ (mediator : Sender) (touched : ℕ → Bool)
    (within : (c : ℕ) (sent : List ℕ) → CallsWithin touched (mediator c sent).calls) where
  -- The identifiers of the commands that return.
  abbrev pub returned : List (ℕ × ℕ) → (sent : List ℕ) → List ℕ
  returned [] sent = []
  returned ((i, c) ∷ xs) sent =
      if_returned (mediator c sent).raised i (returned xs (sent ++ c ∷ []))

  process_each-Sweeps :
      (xs : List (ℕ × ℕ)) (w : Dispatch)
      → IsUnique w.scheduled
      → Sweeps touched (returned xs w.sent) (map (λ x. x.1) xs) w (process_each mediator xs w)
  process_each-Sweeps [] w u =
      (plain_filter touched w.scheduled, sym (append-nil w.sent), omega arith)
  process_each-Sweeps ((i, c) ∷ xs) w u =
      let sending = mediator c w.sent in
      let done = returned ((i, c) ∷ xs) w.sent in
      let called : Dispatch = record w { scheduled = schedule_calls sending.calls w.scheduled } in
      let (d, s, n) =
        after_send-Sweeps touched sending.raised i c called (returned xs (w.sent ++ c ∷ []))
          (map (λ x. x.1) xs) (process_each mediator xs)
          (schedule_calls-IsUnique sending.calls w.scheduled u)
          (λ v unique same.
            subst
              (λ l.
                Sweeps touched (returned xs l) (map (λ x. x.1) xs) v (process_each mediator xs v))
              same (process_each-Sweeps xs v unique)) in
      (
        d
            ∙ filter-schedule_calls (λ k. not (touched k || contains done k)) sending.calls
                w.scheduled (skipped touched done sending.calls (within c w.sent)),
        s,
        n,
      )

  -- In a schedule where no identifier stands twice, a sweep sends the commands of the due entries,
  -- each one once, in ascending time and at equal times in the order of the schedule, whatever the
  -- mediator does: a handler may raise, and may schedule and cancel entries with identifiers of
  -- `touched`. The sweep counts the commands that return. Of the entries with other identifiers it
  -- deletes exactly those of the commands that return, and keeps every other one in its place.
  pub process_due_commands_lem :
      (now : ℕ) (d : Schedule) (sent : List ℕ)
      → IsUnique d
      → let due : List (ℕ × ScheduledEntry) = due_entries now none d in
        Sweeps touched
          (returned (map shown due) sent)
          (map (λ x. x.1.command) due)
          (record { scheduled = d; sent = sent; count = 0 })
          (process_due_commands mediator now d sent)
        × IsSorted earlier due
        × Perm due (filter (is_due now none) d)
        × ((at_time : ℕ)
            → filter (λ x. x.1.execute_at == at_time) due
              ≡ filter (λ x. x.1.execute_at == at_time) (filter (is_due now none) d))
  unfolding process_due_commands get_due_commands due_entries
  process_due_commands_lem now d sent u =
      let found = filter (is_due now none) d in
      (
        rw (sym (map-shown (sort_by earlier found))) (
            process_each-Sweeps (map shown (sort_by earlier found))
              (record { scheduled = d; sent = sent; count = 0 }) u),
        sort_by-IsSorted earlier (λ x y h. ground arith) (λ x y z h k. ground arith) found,
        sort_by-perm earlier found,
        λ t. filter-sort_by earlier (λ x. x.1.execute_at == t) (λ x y h k. ground arith) found,
      )
