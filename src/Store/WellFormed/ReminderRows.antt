-- ===== src/Store/WellFormed/ReminderRows.antt =====
-- Lemmas on the reminders and their audit trail for the invariant of the tables.
-- (internal/store/reminders.go.)
use zcoms_agent.Prelude.{ℕ, Bool, true, List, ◌≡◌, refl, ◌==◌, inl, inr, Bool-cases}
use native.Mathlib.Nat.{le_refl}
use zcoms_agent.Prelude.Text.{Text}
use zcoms_agent.Store.Types.{Database, Reminder}
use zcoms_agent.Store.Db.{now, statement, ◌>>=◌}
use zcoms_agent.Store.Rows.{exists, update}
use zcoms_agent.Store.Rows.Keys.{
  Distinct, Distinct-insert, Distinct-update, All-insert, All-map, next_id-is_fresh, exists-update,
  exists-insert-true,
}
use zcoms_agent.Store.Reminders.{
  has_id, create_reminder, update_reminder, cancel_reminder, add_reminder_event, insert_reminder,
  insert_event,
}
use zcoms_agent.Store.Preserves.{
  Preserves, Keeps, Preserves-then, Preserves-bind, Preserves-pure, Preserves-statement,
  Preserves-now, Preserves-refuse_if, Preserves-require_row,
}
use zcoms_agent.Store.WellFormed.{IsWellFormed, OfReminder}
use zcoms_agent.Store.WellFormed.AllowRows.{keeps}

abbrev same_id : Reminder → Reminder → Bool
same_id a b = a.id == b.id

set_reminders :
    (db : Database) (rows : List Reminder)
    → IsWellFormed db
    → Distinct same_id rows
    → ((i : ℕ) → exists (has_id i) db.reminders ≡ true → exists (has_id i) rows ≡ true)
    → IsWellFormed (record db { reminders = rows })
set_reminders db rows h new ids = record {
  settings = h.settings;
  allowlist = h.allowlist;
  personas = h.personas;
  workspaces = h.workspaces;
  sessions = h.sessions;
  groups = h.groups;
  sources = h.sources;
  reminders = new;
  events = record {
    ids = h.events.ids;
    reminders = All-map (λ e. ids e.reminder_id) db.events h.events.reminders;
  };
}

update_reminders :
    (db : Database) (at : Reminder → Bool) (change : Reminder → Reminder)
    → ((r : Reminder) → (change r).id ≡ r.id)
    → IsWellFormed db
    → IsWellFormed (record db { reminders = update at change db.reminders })
update_reminders db at change ids h =
    set_reminders db _ h
      (Distinct-update _ at change (λ q r. rw (ids r)) (λ q r. rw (ids q)) db.reminders h.reminders)
      (λ i. rw (exists-update (has_id i) at change (λ r. rw (ids r)) db.reminders) (λ e. e))

pub create_reminder-IsWellFormed :
    (r : Reminder) → Preserves (Keeps IsWellFormed) (create_reminder r)
unfolding create_reminder insert_reminder
create_reminder-IsWellFormed r = Preserves-then keeps _ _ (Preserves-refuse_if keeps _ _) (
    Preserves-then keeps _ _ (Preserves-refuse_if keeps _ _) (
      Preserves-bind keeps _ _ (Preserves-now keeps) (λ at.
        Preserves-bind keeps _ _
          (Preserves-statement keeps _ (λ db h.
            set_reminders db _ h
              (Distinct-insert _ db.reminders _ h.reminders
                (next_id-is_fresh (λ q. q.id) db.reminders _ (le_refl _)))
              (λ i. exists-insert-true (has_id i) db.reminders _)))
          (λ i. Preserves-pure keeps _))))

pub update_reminder-IsWellFormed :
    (r : Reminder) → Preserves (Keeps IsWellFormed) (update_reminder r)
unfolding update_reminder
update_reminder-IsWellFormed r = Preserves-bind keeps _ _ (Preserves-now keeps) (λ at.
    Preserves-bind keeps _ _
      (Preserves-statement keeps _ (λ db. update_reminders db _ _ (λ q. refl)))
      (λ met. Preserves-require_row keeps met _))

pub cancel_reminder-IsWellFormed : (i : ℕ) → Preserves (Keeps IsWellFormed) (cancel_reminder i)
unfolding cancel_reminder
cancel_reminder-IsWellFormed i = Preserves-bind keeps _ _ (Preserves-now keeps) (λ at.
    Preserves-bind keeps _ _
      (Preserves-statement keeps _ (λ db. update_reminders db _ _ (λ q. refl)))
      (λ met. Preserves-require_row keeps met _))

insert_event-IsWellFormed :
    (i : ℕ) (at kind detail : Text) (db : Database)
    → IsWellFormed db
    → IsWellFormed (insert_event i at kind detail db).1
unfolding insert_event
insert_event-IsWellFormed i at kind detail db h =
    elim (Bool-cases (exists (has_id i) db.reminders)) [
      | inl known ↦ rw known (record {
        settings = h.settings;
        allowlist = h.allowlist;
        personas = h.personas;
        workspaces = h.workspaces;
        sessions = h.sessions;
        groups = h.groups;
        sources = h.sources;
        reminders = h.reminders;
        events = record {
          ids =
              Distinct-insert _ db.events _ h.events.ids
                (next_id-is_fresh (λ e. e.id) db.events _ (le_refl _));
          reminders = All-insert (OfReminder db.reminders) db.events _ h.events.reminders known;
        };
      })
      | inr unknown ↦ rw unknown h
    ]

pub add_reminder_event-IsWellFormed :
    (i : ℕ) (kind detail : Text) → Preserves (Keeps IsWellFormed) (add_reminder_event i kind detail)
unfolding add_reminder_event
add_reminder_event-IsWellFormed i kind detail = record { at = logged.at }
  where
    logged :
        Preserves (Keeps IsWellFormed) (now >>= λ at. statement (insert_event i at kind detail))
    logged =
        Preserves-bind keeps _ _ (Preserves-now keeps)
          (λ at. Preserves-statement keeps _ (insert_event-IsWellFormed i at kind detail))
