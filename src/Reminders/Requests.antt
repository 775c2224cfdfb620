-- ===== src/Reminders/Requests.antt =====
-- internal/reminders/create.go: a request up to the row of the reminder, and the cancelling: whom one
-- may remind, and who may cancel.
pub mod Trust
use zcoms_agent.Prelude.{
  ℕ, Bool, true, false, not, List, [], ◌∷◌, ◌++◌, ◌||◌, ◌&&◌, ◌==◌, leb, Option, none, some, ◌⊎◌,
  inl, inr, if◌then◌else◌, drop, length,
}
use zcoms_agent.Prelude.Text.{Text, codes, text_eq, trim_space, to_lower, has_prefix, one_of}
use zcoms_agent.Prelude.Text.Split.{fields, trim_prefix}
use zcoms_agent.Runner.AllowKeys.{allow_key, wa_digits}
use zcoms_agent.Store.Types.{Reminder, AllowEntry, Result, ok, err}
use zcoms_agent.Store.Db.{Db, pure, ◌>>=◌, ◌>>◌}
use zcoms_agent.Store.Reminders.{
  reminder_active, create_reminder, add_reminder_event, get_reminder, cancel_reminder,
}
use zcoms_agent.Errands.Directives.{is_blank_char, skip_blanks}
use zcoms_agent.Reminders.Fields.{parse_fields, field_of}
use zcoms_agent.Reminders.Words.{Requester, key_of, both, parse_remind, is_self}

-- A contact of the daemon's directory.
pub record Contact : Type 0 where
  pub id : ℕ
  pub name : Text
  pub address : Text → Text

-- What the requests read of the daemon and of the agent: the answers of the agent's turns (none
-- without an agent, or where it fails), the directory, the chat of a handle, the owner's chat, and
-- what internal/timeexpr makes of a text.
pub record Directory : Type 0 where
  pub interpret : Option Text
  pub plan : Option Text
  pub contacts : Text → Option (List Contact)
  pub resolve : Text → Option Text
  pub owner_chat : Option Text
  pub parse_time : Text → Option Text
  pub now : Text

pub record Target : Type 0 where
  pub transport : Text
  pub addr : Text
  pub contact_id : ℕ
  pub name : Text
  pub is_self : Bool

pub data Refusal : Type 0 where
  usage switched_off no_address no_directory : Refusal
  no_contact not_allowed not_resolved not_reachable : Text → Refusal

-- interpretRemind
unfoldable pub interpret_remind : Directory → Text → Option (Text × Text)
unfolding parse_remind parse_fields field_of
interpret_remind d text = elim d.interpret [
  | none ↦ parse_remind text
  | some out ↦
      elim (both (trim_space (field_of (codes "who") (parse_fields out)))
        (trim_space (field_of (codes "task") (parse_fields out)))) [
          | none ↦ parse_remind text
          | some p ↦ some p
        ]
]

-- The keys of the allowlist: allowSet.
unfoldable pub in_allow_set : Text → List AllowEntry → Bool
in_allow_set key [] = false
in_allow_set key (e ∷ entries) =
    if text_eq (allow_key e.platform e.handle) key then true else in_allow_set key entries

abbrev platforms : List Text
platforms =
    codes "telegram" ∷ codes "whatsapp" ∷ codes "instagram" ∷ codes "discord" ∷ codes "viber" ∷ []

unfoldable pub any_listed : List AllowEntry → Contact → List Text → Bool
unfolding in_allow_set
any_listed entries c [] = false
any_listed entries c (p ∷ ps) =
    let a : Text = trim_space (c.address p) in
    if not (text_eq a (codes "")) && in_allow_set (allow_key p a) entries
    then true
    else any_listed entries c ps

-- contactAllowListed
unfoldable pub contact_allow_listed : List AllowEntry → Contact → Bool
unfolding any_listed
contact_allow_listed entries c = any_listed entries c platforms

abbrev reached : Contact → Option Text → Refusal ⊎ Target
reached c none = inl (not_resolved c.name)
reached c (some chat) = inr (record {
  transport = codes "telegram";
  addr = chat;
  contact_id = c.id;
  name = c.name;
  is_self = false;
})

-- reachable: by Telegram, then by WhatsApp
unfoldable pub reachable : Directory → Contact → Refusal ⊎ Target
reachable d c =
    if not (text_eq (trim_space (c.address (codes "telegram"))) (codes ""))
    then reached c (d.resolve (trim_space (c.address (codes "telegram"))))
    else if not (text_eq (trim_space (c.address (codes "whatsapp"))) (codes ""))
    then inr (record {
      transport = codes "whatsapp";
      addr = wa_digits (trim_space (c.address (codes "whatsapp"))) ++ codes "@s.whatsapp.net";
      contact_id = c.id;
      name = c.name;
      is_self = false;
    })
    else inl (not_reachable c.name)

abbrev self_at : Requester → Text → Text → Refusal ⊎ Target
self_at q transport addr = inr (record {
  transport = transport;
  addr = addr;
  contact_id = 0;
  name = if text_eq q.name (codes "") then codes "you" else q.name;
  is_self = true;
})

abbrev self_or_owner : Requester → Option Text → Refusal ⊎ Target
self_or_owner q none = inl no_address
self_or_owner q (some chat) = self_at q (codes "telegram") chat

abbrev to_contact : Directory → List AllowEntry → Requester → Text → List Contact → Refusal ⊎ Target
to_contact d entries q who [] = inl (no_contact who)
to_contact d entries q who (c ∷ more) =
    if not q.owner && not (contact_allow_listed entries c)
    then inl (not_allowed c.name)
    else reachable d c

-- resolveTarget
unfoldable pub resolve_target : Directory → List AllowEntry → Requester → Text → Refusal ⊎ Target
unfolding is_self contact_allow_listed reachable
resolve_target d entries q who =
    if is_self who
    then (if text_eq (trim_space q.address) (codes "")
        then self_or_owner q d.owner_chat
        else self_at q q.transport (trim_space q.address))
    else elim (d.contacts who) [
      | none ↦ inl no_directory
      | some matches ↦ to_contact d entries q who matches
    ]

abbrev or_now : Directory → Option Text → Text
or_now d none = d.now
or_now d (some t) = t

-- planFirst: the first time, and a note.
unfoldable pub plan_first : Directory → Text × Text
unfolding parse_fields field_of
plan_first d = elim d.plan [
  | none ↦ (d.now, codes "")
  | some out ↦
      let next : Text = trim_space (field_of (codes "next") (parse_fields out)) in
      let note : Text = trim_space (field_of (codes "note") (parse_fields out)) in
      (
        (if text_eq next (codes "") || text_eq (to_lower next) (codes "now")
            then d.now
            else or_now d (d.parse_time next)),
        note,
      )
]

abbrev pub row_of : Directory → Requester → Text → Target → Reminder
row_of d q task t = record {
  id = 0;
  from_addr = key_of q;
  from_name = q.name;
  recipient_transport = t.transport;
  recipient_addr = t.addr;
  recipient_name = t.name;
  recipient_contact_id = t.contact_id;
  task = task;
  event_start = codes "";
  event_end = codes "";
  other_party = codes "";
  carry_over = (plan_first d).1;
  next_at = (plan_first d).0;
  state = reminder_active;
  runs = 0;
  created_at = codes "";
  updated_at = codes "";
}

abbrev pub for_target : Directory → Requester → Text → Refusal ⊎ Target → Refusal ⊎ Reminder
for_target d q task (inl e) = inl e
for_target d q task (inr t) = inr (row_of d q task t)

-- createReply up to CreateReminder: the row that it is given.
unfoldable pub requested :
    Directory → List AllowEntry → Bool → Requester → Text → Refusal ⊎ Reminder
unfolding interpret_remind resolve_target plan_first key_of
requested d entries enabled q text = elim (interpret_remind d text) [
  | none ↦ inl usage
  | some p ↦
      if not enabled then inl switched_off else for_target d q p.1 (resolve_target d entries q p.0)
]

-- createReply from CreateReminder on, with the events of the audit trail
unfoldable pub save_requested : Reminder → Db Reminder
unfolding create_reminder add_reminder_event
save_requested r = do
  saved ← create_reminder r
  add_reminder_event saved.id (codes "create") r.task
  (if text_eq r.carry_over (codes "")
      then pure tt
      else add_reminder_event saved.id (codes "note") r.carry_over)
  pure saved

pub data CancelReply : Type 0 where
  no_such : ℕ → CancelReply
  not_yours : CancelReply
  cancelled : ℕ → CancelReply

-- The owner, who set it, or who is reminded.
unfoldable pub may_cancel : Requester → Reminder → Bool
unfolding key_of
may_cancel q r = q.owner || text_eq r.from_addr (key_of q) || text_eq r.recipient_addr q.address

abbrev pub cancel_found : Requester → ℕ → Option Reminder → Db CancelReply
cancel_found q i none = pure (no_such i)
cancel_found q i (some r) =
    if may_cancel q r
    then (do
      cancel_reminder i
      add_reminder_event i (codes "cancel") (codes "")
      pure (cancelled i))
    else pure not_yours

-- cancelReply, of an id that is a number
unfoldable pub cancel_reply : Requester → ℕ → Db CancelReply
unfolding get_reminder cancel_reminder add_reminder_event may_cancel
cancel_reply q i = do r ← get_reminder i; cancel_found q i r
