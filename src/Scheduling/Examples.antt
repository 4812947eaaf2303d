-- ===== src/Scheduling/Examples.antt =====
-- The sweep of a schedule of four commands, at time 50.
use mathlib.Core.List.{Perm}
use cqrs_ddd.Common.{
  Bool, Bool-cases, contains, if◌then◌else◌, inl, inr, ℕ, refl, none, ◌==◌, ◌∷◌, List, [], ◌≡◌,
  filter,
}
use cqrs_ddd.Scheduling.{
  cancels, schedules, Dispatch, Schedule, ScheduledEntry, Sender, due_entries, process_due_commands,
  get_due_commands, cancel, earlier, is_due,
}
use cqrs_ddd.Common.Sort.{sort_by, IsSorted}
use cqrs_ddd.Scheduling.Sweep.{CallsWithin, Sweeps, process_due_commands_lem}

abbrev entry : ℕ → ℕ → ScheduledEntry
entry c t = record { command = c; execute_at = t; description = none; tenant_id = none }

-- The command 12 is not due yet.
abbrev planned : Schedule
planned = (1, entry 10 40) ∷ (2, entry 11 20) ∷ (3, entry 12 90) ∷ (4, entry 13 20) ∷ []

-- The mediator raises for the command 13. The handler of the command 11 cancels the entries 1 and 4,
-- which are sent all the same, and schedules another one.
abbrev busy : Sender
busy c sent = record {
  calls = if c == 11 then cancels 1 ∷ cancels 4 ∷ schedules 6 (entry 14 70) ∷ [] else [];
  raised = c == 13;
}

abbrev touched : ℕ → Bool
touched i = contains (1 ∷ 4 ∷ 6 ∷ []) i

busy-CallsWithin : (c : ℕ) (sent : List ℕ) → CallsWithin touched (busy c sent).calls
busy-CallsWithin c sent = elim (Bool-cases (c == 11)) [
  | inl e ↦ rw e (refl, (refl, (refl, tt)))
  | inr e ↦ rw e tt
]

abbrev swept : Dispatch
swept = record {
  scheduled = (3, entry 12 90) ∷ (6, entry 14 70) ∷ [];
  sent = 5 ∷ 11 ∷ 13 ∷ 10 ∷ [];
  count = 2;
}

sweeps : process_due_commands busy 50 planned (5 ∷ []) ≡ swept
unfolding process_due_commands get_due_commands due_entries sort_by
sweeps = refl

cancelled_then_swept : (process_due_commands busy 50 (cancel 2 planned).1 []).sent ≡ 13 ∷ 10 ∷ []
unfolding process_due_commands get_due_commands due_entries sort_by
cancelled_then_swept = refl

process_due_commands_lem_example :
    let due : List (ℕ × ScheduledEntry) =
      (2, entry 11 20) ∷ (4, entry 13 20) ∷ (1, entry 10 40) ∷ [] in
    Sweeps touched
      (2 ∷ 1 ∷ [])
      (11 ∷ 13 ∷ 10 ∷ [])
      (record { scheduled = planned; sent = 5 ∷ []; count = 0 })
      (process_due_commands busy 50 planned (5 ∷ []))
    × IsSorted earlier due
    × Perm due (filter (is_due 50 none) planned)
    × ((at_time : ℕ)
        → filter (λ x. x.1.execute_at == at_time) due
          ≡ filter (λ x. x.1.execute_at == at_time) (filter (is_due 50 none) planned))
unfolding due_entries sort_by
process_due_commands_lem_example =
    process_due_commands_lem busy touched busy-CallsWithin 50 planned (5 ∷ [])
      (refl, (refl, (refl, (refl, tt))))
