-- ===== src/Store/Reminders.antt =====
-- internal/store/reminders.go: the reminder rows and their audit trail.
use zcoms_agent.Prelude.{ℕ, Bool, not, Option, List, ◌&&◌, ◌==◌, ltb, if◌then◌else◌}
use zcoms_agent.Prelude.Text.{Text, codes, text_eq, text_le}
use zcoms_agent.Store.Types.{
  missing, no_row, foreign_key, Reminder, ReminderEvent, Database, Result, ok, err, nullable,
}
use zcoms_agent.Store.Db.{Db, World, pure, query, now, statement, ◌>>=◌, ◌>>◌}
use zcoms_agent.Store.Rows.{select, find, exists, update, insert, next_id, order_by}
use zcoms_agent.Store.Checks.{is_blank, refuse_if, require_row}

abbrev pub reminder_active : Text
reminder_active = codes "active"

abbrev pub reminder_done : Text
reminder_done = codes "done"

abbrev pub reminder_cancelled : Text
reminder_cancelled = codes "cancelled"

abbrev pub has_id : ℕ → Reminder → Bool
has_id i r = r.id == i

abbrev pub is_active : Reminder → Bool
is_active r = text_eq r.state reminder_active

-- WHERE state='active' AND next_at is set AND next_at <= now.
abbrev pub is_due : Text → Reminder → Bool
is_due at r = is_active r && not (text_eq r.next_at (codes "")) && text_le r.next_at at

-- The row that an INSERT makes of a reminder.
abbrev pub stored : ℕ → Reminder → Reminder
stored i r = record r {
  id = i;
  from_name = nullable r.from_name;
  recipient_name = nullable r.recipient_name;
  event_start = nullable r.event_start;
  event_end = nullable r.event_end;
  other_party = nullable r.other_party;
  carry_over = nullable r.carry_over;
  next_at = nullable r.next_at;
}

unfoldable pub insert_reminder : Reminder → Database → Result ℕ × Database
insert_reminder r db =
    let i : ℕ = next_id (λ q. q.id) db.reminders in
    (ok i, record db { reminders = insert (stored i r) db.reminders })

-- The defaults and the stamps that CreateReminder sets.
abbrev pub prepared : Text → Reminder → Reminder
prepared at r = record r {
  state = if text_eq r.state (codes "") then reminder_active else r.state;
  created_at = at;
  updated_at = at;
}

unfoldable pub create_reminder : Reminder → Db Reminder
create_reminder r = do
  refuse_if (is_blank r.task) (missing (codes "a reminder needs a task"))
  refuse_if (is_blank r.recipient_addr) (missing (codes "a reminder needs a recipient"))
  at ← now
  i ← statement (insert_reminder (prepared at r))
  pure (record (prepared at r) { id = i })

-- The columns that UpdateReminder sets.
abbrev pub decided : Text → Reminder → Reminder → Reminder
decided at r row = record row {
  carry_over = nullable r.carry_over;
  next_at = nullable r.next_at;
  state = r.state;
  runs = r.runs;
  updated_at = at;
  event_start = nullable r.event_start;
  event_end = nullable r.event_end;
  other_party = nullable r.other_party;
}

unfoldable pub update_reminder : Reminder → Db (Unit {0})
update_reminder r = do
  at ← now
  met ← statement (λ db. (
    ok (exists (has_id r.id) db.reminders),
    record db { reminders = update (has_id r.id) (decided at r) db.reminders },
  ))
  require_row met (no_row (codes "reminder") r.id)

unfoldable pub get_reminder : ℕ → Db (Option Reminder)
get_reminder i = query (λ db. find (has_id i) db.reminders)

-- ORDER BY id DESC.
unfoldable pub list_reminders : Db (List Reminder)
list_reminders = query (λ db. order_by (λ a b. not (ltb a.id b.id)) db.reminders)

unfoldable pub active_reminders : Db (List Reminder)
active_reminders =
    query (λ db. order_by (λ a b. not (ltb b.id a.id)) (select is_active db.reminders))

unfoldable pub due_reminders : Text → Db (List Reminder)
due_reminders at =
    query (λ db. order_by (λ a b. text_le a.next_at b.next_at) (select (is_due at) db.reminders))

abbrev pub cancelled : Text → Reminder → Reminder
cancelled at r = record r { state = reminder_cancelled; next_at = codes ""; updated_at = at }

unfoldable pub cancel_reminder : ℕ → Db (Unit {0})
cancel_reminder i = do
  at ← now
  met ← statement (λ db. (
    ok (exists (has_id i) db.reminders),
    record db { reminders = update (has_id i) (cancelled at) db.reminders },
  ))
  require_row met (no_row (codes "reminder") i)

-- INSERT INTO reminder_events, whose reminder the foreign key wants.
unfoldable pub insert_event : ℕ → Text → Text → Text → Database → Result (Unit {0}) × Database
insert_event reminder_id at kind detail db =
    if exists (has_id reminder_id) db.reminders
    then (
      ok tt,
      record db {
        events =
            insert
              (record {
                id = next_id (λ e. e.id) db.events;
                reminder_id = reminder_id;
                at = at;
                kind = kind;
                detail = nullable detail;
              })
              db.events;
      },
    )
    else (err foreign_key, db)

-- Best effort: a failure is dropped.
abbrev pub ignore_error : Result (Unit {0}) × World → Result (Unit {0}) × World
ignore_error (r, w) = (ok tt, w)

unfoldable pub add_reminder_event : ℕ → Text → Text → Db (Unit {0})
add_reminder_event i kind detail w =
    ignore_error ((do at ← now; statement (insert_event i at kind detail)) w)

unfoldable pub list_reminder_events : ℕ → Db (List ReminderEvent)
list_reminder_events i =
    query (λ db. order_by (λ a b. not (ltb b.id a.id)) (select (λ e. e.reminder_id == i) db.events))
