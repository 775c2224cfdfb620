-- ===== src/Reminders/Run.antt =====
-- internal/reminders/run.go: one run of the agent for one reminder, and the choice of the reminders that
-- run. An instant is the text of its RFC 3339 form, as it is stored.

pub mod Outcome
pub mod Series
pub mod Claims
use zcoms_agent.Prelude.{
  ℕ, suc, Bool, true, false, not, List, [], ◌∷◌, ◌++◌, ◌||◌, ◌&&◌, ◌==◌, leb, Option, none, some,
  if◌then◌else◌,
}
use zcoms_agent.Prelude.Text.{Text, codes, text_eq, trim_space, to_lower, one_of}
use zcoms_agent.Store.Types.{Reminder}
use zcoms_agent.Store.Reminders.{reminder_active, reminder_done, reminder_cancelled}
use zcoms_agent.Reminders.Config.{Config}
use zcoms_agent.Reminders.Fields.{parse_fields, field_of}

-- What a run does, in order. `ask_react` is given the reply that came, if one did.
pub data Effect : Type 0 where
  ask_plan : Effect
  ask_react : Option Text → Text → Effect
  send : Text → Text → Text → Effect
  event : ℕ → Text → Text → Effect
  save : Reminder → Effect

-- One turn of the agent: its text and its session, or an error.
pub record TurnResult : Type 0 where
  pub text : Text
  pub session_id : Text
  pub is_error : Bool

-- The outside of one run: the two turns, the reply that comes within the wait, what
-- internal/timeexpr makes of a text, and the time in an hour.
pub record Outside : Type 0 where
  pub first : TurnResult
  pub reply : Option Text
  pub second : TurnResult
  pub parse_time : Text → Option Text
  pub in_an_hour : Text

abbrev pub at_time : Outside → Option Text → Text × Text
at_time o none = (reminder_active, o.in_an_hour)
at_time o (some t) = (reminder_active, t)

-- parseNext: the state and the next time
unfoldable pub parse_next : Outside → Text → Text × Text
parse_next o s =
    if one_of (to_lower (trim_space s)) (codes "done" ∷ codes "finished" ∷ codes "complete" ∷ [])
    then (reminder_done, codes "")
    else if one_of (to_lower (trim_space s))
        (codes "cancel" ∷ codes "cancelled" ∷ codes "stop" ∷ [])
    then (reminder_cancelled, codes "")
    else at_time o (o.parse_time s)

-- The row that `apply` saves.
abbrev pub decided : Text → Text × Text → Reminder → Reminder
decided note (state, at) r = record r {
  carry_over = trim_space note;
  state = state;
  next_at = if text_eq state reminder_active then at else codes "";
}

-- apply
unfoldable pub apply : Outside → Text → Text → Reminder → List Effect
unfolding parse_next
apply o next note r =
    let d : Reminder = decided note (parse_next o next) r in
    (if text_eq d.state reminder_active then [] else event r.id d.state (codes "") ∷ [])
    ++ ((if text_eq d.carry_over (codes "")
          then []
          else event r.id (codes "note") d.carry_over ∷ [])
        ++ save d ∷ [])

-- An answer that says nothing, or NONE.
abbrev pub is_quiet : Text → Bool
is_quiet s = text_eq s (codes "") || text_eq (to_lower s) (codes "none")

abbrev pub report_reply : Option Text → Text
report_reply none = codes "(no reply)"
report_reply (some rep) = rep

-- sendTo, where no transport means telegram
unfoldable pub send_to : Reminder → Text → Effect
send_to r text =
    send
      (if text_eq r.recipient_transport (codes "") then codes "telegram" else r.recipient_transport)
      r.recipient_addr text

abbrev pub retried : Outside → Reminder → List Effect
retried o r = save (record r { next_at = o.in_an_hour }) ∷ []

-- The nudges since the last reply, after this one.
abbrev pub after_wait : Outside → Reminder → Reminder
after_wait o r = record r { runs = elim o.reply [ none ↦ suc r.runs | some rep ↦ 0 ] }

abbrev pub answer_back : Reminder → Text → List Effect
answer_back r out = if is_quiet out then [] else send_to r out ∷ event r.id (codes "send") out ∷ []

abbrev pub react : Outside → Reminder → List Effect
react o r =
    let f : List (Text × Text) = parse_fields o.second.text in
    ask_react o.reply o.first.session_id
    ∷ (if o.second.is_error
        then retried o r
        else answer_back r (trim_space (field_of (codes "reply") f))
          ++ apply o (field_of (codes "next") f) (field_of (codes "note") f) r)

abbrev pub nudge : Outside → Text → Reminder → List Effect
nudge o text r =
    send_to r text
    ∷ event r.id (codes "send") text
    ∷ event r.id (codes "reply") (report_reply o.reply)
    ∷ react o (after_wait o r)

abbrev pub planned : Outside → Reminder → List Effect
planned o r =
    let f : List (Text × Text) = parse_fields o.first.text in
    let text : Text = trim_space (field_of (codes "send") f) in
    if is_quiet text
    then apply o (field_of (codes "next") f) (field_of (codes "note") f) r
    else nudge o text r

-- runReminder
unfoldable pub run_reminder : Config → Outside → Reminder → List Effect
unfolding parse_fields field_of apply send_to
run_reminder c o r =
    if leb c.max_runs r.runs
    then event r.id (codes "done") (codes "hit the nudge cap without a reply")
      ∷ save (record r { state = reminder_done; next_at = codes "" })
      ∷ []
    else event r.id (codes "run") (codes "")
      ∷ ask_plan
      ∷ (if o.first.is_error then retried o r else planned o r)

unfoldable pub is_running : ℕ → List ℕ → Bool
is_running id [] = false
is_running id (i ∷ running) = if i == id then true else is_running id running

-- claimRun
unfoldable pub claim_run : ℕ → List ℕ → Option (List ℕ)
unfolding is_running
claim_run id running = if is_running id running then none else some (id ∷ running)

abbrev pub or_keep : List ℕ → Option (List ℕ) → List ℕ
or_keep running none = running
or_keep running (some r) = r

abbrev pub claimed : ℕ → Option (List ℕ) → List ℕ
claimed id none = []
claimed id (some r) = id ∷ []

-- FireDue: the runs that are claimed then, and the runs that start.
unfoldable pub fire_due : List Reminder → List ℕ → List ℕ × List ℕ
unfolding claim_run
fire_due [] running = (running, [])
fire_due (r ∷ due) running =
    let rest : List ℕ × List ℕ = fire_due due (or_keep running (claim_run r.id running)) in
    (rest.0, claimed r.id (claim_run r.id running) ++ rest.1)

-- releaseRun
unfoldable pub release_run : ℕ → List ℕ → List ℕ
release_run id [] = []
release_run id (i ∷ running) =
    let rest : List ℕ = release_run id running in if i == id then rest else i ∷ rest
