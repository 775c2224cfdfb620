-- ===== src/Witnesses/Reminding.antt =====
-- The theorems about internal/reminders at concrete inputs.
use zcoms_agent.Prelude.{ℕ, true, false, [], ◌∷◌, none, some, ◌≡◌, refl, List, arith}
use zcoms_agent.Prelude.Text.{Text, codes}
use zcoms_agent.Store.Types.{Reminder, AllowEntry}
use zcoms_agent.Store.Reminders.{reminder_active}
use zcoms_agent.Reminders.Config.{default_config}
use zcoms_agent.Reminders.Run.{Outside, TurnResult, run_reminder, fire_due}
use zcoms_agent.Reminders.Run.Series.{Settled, run_reminder-Settled}
use zcoms_agent.Reminders.Waiting.{
  Waits, begin_wait, end_wait, feed, owns_key, feed-first, feed-second_wait,
}
use zcoms_agent.Reminders.Words.{Requester}
use zcoms_agent.Reminders.Requests.{Contact, Directory, requested}
use zcoms_agent.Store.Types.{empty_database}
use zcoms_agent.Store.Db.{World}
use zcoms_agent.Store.Rows.{exists}
use zcoms_agent.Reminders.Handle.{handle_command}
use zcoms_agent.Reminders.Handle.Spared.{Spares}
use zcoms_agent.Reminders.Handle.Foreign.{handle_command-Spares}
use zcoms_agent.Reminders.Requests.Trust.{TrustedRow, requested-Trusted}

abbrev plants : Reminder
plants = record {
  id = 7;
  from_addr = codes "telegram|@ada";
  from_name = codes "Ada";
  recipient_transport = codes "telegram";
  recipient_addr = codes "42";
  recipient_name = codes "you";
  recipient_contact_id = 0;
  task = codes "water the plants";
  event_start = codes "";
  event_end = codes "";
  other_party = codes "";
  carry_over = codes "";
  next_at = codes "2026-07-01T09:00:00Z";
  state = reminder_active;
  runs = 39;
  created_at = codes "";
  updated_at = codes "";
}

abbrev nudging : TurnResult
nudging = record {
  text = codes "SEND: Time to water the plants\nNEXT: +1h\nNOTE: first nudge";
  session_id = codes "s1";
  is_error = false;
}

abbrev going_on : TurnResult
going_on = record {
  text = codes "REPLY: NONE\nNEXT: +1h\nNOTE: no answer";
  session_id = codes "s1";
  is_error = false;
}

-- A nudge that nobody answers.
abbrev silent : Outside
silent = record {
  first = nudging;
  reply = none;
  second = going_on;
  parse_time = λ s. none;
  in_an_hour = codes "2026-07-01T10:00:00Z";
}

run_reminder-Settled_example :
    Settled default_config silent plants (run_reminder default_config silent plants)
run_reminder-Settled_example =
    run_reminder-Settled default_config silent plants (omega arith) refl
      (λ e. absurd (ground (arith, e)), λ s t h. absurd (ground (arith, h)))

-- The reminder is due at two ticks, the second of which comes while its run is in flight.
abbrev ticked : List ℕ
ticked = (fire_due (plants ∷ plants ∷ []) []).0

abbrev nobody : Waits
nobody = record { waiting = []; queued = λ ch. none }

abbrev ada_chat : Text
ada_chat = codes "telegram|42"

feed-first_example :
    (feed ada_chat (codes "done") (begin_wait ada_chat 0 nobody)).0 ≡ true
    × (feed ada_chat
        (codes "really")
        (feed ada_chat (codes "done") (begin_wait ada_chat 0 nobody)).1).0
      ≡ true
    × (end_wait ada_chat 0
        (feed ada_chat
          (codes "really")
          (feed ada_chat (codes "done") (begin_wait ada_chat 0 nobody)).1).1).0
      ≡ some (codes "done")
feed-first_example = feed-first ada_chat (codes "done") (codes "really") 0 nobody

feed-second_wait_example :
    owns_key ada_chat (end_wait ada_chat 0 (begin_wait ada_chat 1 (begin_wait ada_chat 0 nobody))).1
      ≡ false
    × feed ada_chat
        (codes "done")
        (end_wait ada_chat 0 (begin_wait ada_chat 1 (begin_wait ada_chat 0 nobody))).1
      ≡ (false, (end_wait ada_chat 0 (begin_wait ada_chat 1 (begin_wait ada_chat 0 nobody))).1)
feed-second_wait_example = feed-second_wait ada_chat (codes "done") 0 1 nobody

abbrev ada : Requester
ada = record {
  transport = codes "telegram";
  handle = codes "@ada";
  address = codes "42";
  name = codes "Ada";
  owner = false;
}

abbrev sara_address : Text → Text
sara_address platform = codes "@sara"

abbrev sara : Contact
sara = record { id = 5; name = codes "Sara"; address = sara_address }

abbrev one_contact : Directory
one_contact = record {
  interpret = some (codes "WHO: Sara\nTASK: send the invoice");
  plan = none;
  contacts = λ who. some (sara ∷ []);
  resolve = λ handle. some (codes "55");
  owner_chat = none;
  parse_time = λ s. none;
  now = codes "2026-07-01T09:00:00Z";
}

abbrev sara_entry : AllowEntry
sara_entry = record {
  id = 1;
  platform = codes "telegram";
  handle = codes "@Sara";
  max_role = codes "read";
}

requested-Trusted_example :
    TrustedRow one_contact
      (sara_entry ∷ [])
      ada
      (requested one_contact (sara_entry ∷ []) true ada (codes "remind Sara to send the invoice"))
requested-Trusted_example =
    requested-Trusted one_contact (sara_entry ∷ []) true ada
      (codes "remind Sara to send the invoice") refl

abbrev bob : Requester
bob = record {
  transport = codes "telegram";
  handle = codes "@bob";
  address = codes "43";
  name = codes "Bob";
  owner = false;
}

abbrev one_reminder : World
one_reminder = record {
  db = record empty_database { reminders = plants ∷ [] };
  faults = [];
  time = codes "2026-07-01T08:00:00Z";
}

-- Bob asks to cancel what Ada has set for herself.
handle_command-Spares_example :
    Spares bob one_reminder.db
      (handle_command one_contact bob (codes "remind cancel 7") one_reminder).1.db
unfolding exists
handle_command-Spares_example =
    handle_command-Spares one_contact bob (codes "remind cancel 7") one_reminder refl (refl, tt)
