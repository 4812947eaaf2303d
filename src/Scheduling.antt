-- ===== src/Scheduling.antt =====
-- Deferred commands of packages/advanced/src/cqrs_ddd_advanced_core: `InMemoryCommandScheduler` of
-- adapters/memory/scheduling.py and `CommandSchedulerService` of scheduling/service.py.
pub mod Sweep
mod Examples
use cqrs_ddd.Common.{
  ℕ, true, false, Bool, List, Option, if◌then◌else◌, filter, leb, map, none, some, ◌++◌, ◌∷◌, [],
  ◌&&◌, ◌+◌,
}
use cqrs_ddd.Common.Dict.{Dict, erase, insert, has_key}
use cqrs_ddd.Common.Sort.{sort_by}

-- `_ScheduledEntry`
pub record ScheduledEntry : Type 0 where
  pub command : ℕ
  pub execute_at : ℕ
  pub description : Option ℕ
  pub tenant_id : Option ℕ

abbrev pub Schedule : Type 0
Schedule = Dict ScheduledEntry

abbrev pub EntrySpec : Type 0
EntrySpec = Option (ScheduledEntry → Bool)

abbrev pub satisfies_entry : EntrySpec → ScheduledEntry → Bool
satisfies_entry none e = true
satisfies_entry (some p) e = p e

-- `schedule`, with the identifier that `uuid4` makes.
abbrev pub schedule : (schedule_id : ℕ) → ScheduledEntry → Schedule → Schedule
schedule i e d = insert i e d

abbrev pub is_due : (now : ℕ) → EntrySpec → ℕ × ScheduledEntry → Bool
is_due now spec (i, e) = leb e.execute_at now && satisfies_entry spec e

abbrev pub earlier : ℕ × ScheduledEntry → ℕ × ScheduledEntry → Bool
earlier (i, e) (j, f) = leb e.execute_at f.execute_at

-- The entries that `get_due_commands` returns, of which it shows the identifiers and commands.
unfoldable pub due_entries : (now : ℕ) → EntrySpec → Schedule → List (ℕ × ScheduledEntry)
unfolding sort_by
due_entries now spec d = sort_by earlier (filter (is_due now spec) d)

abbrev pub shown : ℕ × ScheduledEntry → ℕ × ℕ
shown (i, e) = (i, e.command)

unfoldable pub get_due_commands : (now : ℕ) → EntrySpec → Schedule → List (ℕ × ℕ)
unfolding due_entries
get_due_commands now spec d = map shown (due_entries now spec d)

abbrev pub cancel : (schedule_id : ℕ) → Schedule → Bool × Schedule
cancel i d = if has_key i d then (true, erase i d) else (false, d)

abbrev pub delete_executed : (schedule_id : ℕ) → Schedule → Schedule
delete_executed i d = erase i d

-- What the handler of a command does with the scheduler.
pub data ScheduleCall : Type 0 where
  schedules : (schedule_id : ℕ) → ScheduledEntry → ScheduleCall
  cancels : (schedule_id : ℕ) → ScheduleCall

abbrev pub schedule_call : ScheduleCall → Schedule → Schedule
schedule_call (schedules i e) d = schedule i e d
schedule_call (cancels i) d = (cancel i d).1

abbrev pub schedule_calls : List ScheduleCall → Schedule → Schedule
schedule_calls [] d = d
schedule_calls (x ∷ xs) d = schedule_calls xs (schedule_call x d)

-- What the mediator does with a command, given what it was sent before: the calls of the scheduler
-- that come of it, and whether it raises.
pub record Sending : Type 0 where
  pub calls : List ScheduleCall
  pub raised : Bool

abbrev pub Sender : Type 0
Sender = ℕ → List ℕ → Sending

-- The entries, the commands that were sent, and how many of them returned.
pub record Dispatch : Type 0 where
  pub scheduled : Schedule
  pub sent : List ℕ
  pub count : ℕ

-- A command that raises keeps its entry.
abbrev pub after_send : (raised : Bool) → ℕ × ℕ → Dispatch → Dispatch
after_send true (i, c) w = record w { sent = w.sent ++ c ∷ [] }
after_send false (i, c) w = record {
  scheduled = delete_executed i w.scheduled;
  sent = w.sent ++ c ∷ [];
  count = w.count + 1;
}

module _ (mediator : Sender) where
  abbrev pub process_one : ℕ × ℕ → Dispatch → Dispatch
  process_one (i, c) w =
      let sending = mediator c w.sent in
      after_send sending.raised (i, c)
        (record w { scheduled = schedule_calls sending.calls w.scheduled })

  -- The loop of `process_due_commands`.
  abbrev pub process_each : List (ℕ × ℕ) → Dispatch → Dispatch
  process_each [] w = w
  process_each (x ∷ xs) w = process_each xs (process_one x w)

  unfoldable pub process_due_commands : (now : ℕ) → Schedule → (sent : List ℕ) → Dispatch
  unfolding get_due_commands
  process_due_commands now d sent =
      process_each (get_due_commands now none d) (record { scheduled = d; sent = sent; count = 0 })
