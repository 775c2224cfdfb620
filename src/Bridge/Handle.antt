-- ===== src/Bridge/Handle.antt =====
-- internal/bridge/bridge.go, handle: the whole dispatch of one message of an allow-listed user.
use zcoms_agent.Prelude.{false, [], ◌∷◌, Option, none, some, ◌||◌, ltb, if◌then◌else◌}
use zcoms_agent.Prelude.Text.{Text, codes, text_eq, trim_space, to_lower, one_of}
use zcoms_agent.Prelude.Int.{ℤ, atoi}
use zcoms_agent.Runner.Roles.{Role, rank, role_edit}
use zcoms_agent.Bridge.State.{
  UserState, Menu, no_menu, location_menu, session_menu, Message, phrase, status, help, cancelled,
  Bridge, reply, set_user,
}
use zcoms_agent.Bridge.Runs.{Machine, run_agent, dispatch_agent_turn}
use zcoms_agent.Bridge.Menus.{
  list_locations, list_sessions, start_new, detach, start_triage_reply, start_chat,
  reset_triage_brain, select_number,
}
use zcoms_agent.Bridge.Forwards.{
  is_errand_command, is_remind_command, is_events_command, is_team_command, is_commerce_command,
  handle_errand_command, handle_remind_command, handle_events_command, handle_team_command,
  handle_commerce_command,
}

abbrev or_text : Text → Text → Text
or_text other s = if text_eq s (codes "") then other else s

-- statusLine
unfoldable pub status_line : UserState → Message
status_line st =
    status (if text_eq st.location (codes "") then st.entry.role else st.effective_role)
      (or_text (codes "(none)") st.location) (or_text (codes "(new on next message)") st.session_id)

-- The cases of the switch on the lower-cased text.
pub data Command : Type 0 where
  help_command locations_command resume_command new_command end_command status_command : Command
  triage_command chat_command reset_command no_command : Command

unfoldable pub command_of : Text → Command
unfolding one_of
command_of s =
    if one_of s (codes "help" ∷ codes "?" ∷ codes "/help" ∷ codes "start" ∷ codes "/start" ∷ [])
    then help_command
    else if one_of s (codes "locations" ∷ codes "loc" ∷ codes "/locations" ∷ [])
    then locations_command
    else if one_of s (codes "resume" ∷ codes "sessions" ∷ codes "/resume" ∷ [])
    then resume_command
    else if one_of s (codes "new" ∷ codes "/new" ∷ [])
    then new_command
    else if one_of s (codes "end" ∷ codes "stop" ∷ codes "exit" ∷ codes "/end" ∷ [])
    then end_command
    else if one_of s (codes "status" ∷ codes "/status" ∷ [])
    then status_command
    else if one_of s (codes "interact triage" ∷ codes "interact-triage" ∷ codes "triage-reply" ∷ [])
    then triage_command
    else if one_of s (codes "chat" ∷ codes "/chat" ∷ [])
    then chat_command
    else if one_of s (
        codes "triage reset"
        ∷ codes "reset triage"
        ∷ codes "triage-reset"
        ∷ codes "new triage"
        ∷ [])
    then reset_command
    else no_command

pub data Answer : Type 0 where
  yes no neither : Answer

-- The cases of the switch on the answer to a plan.
unfoldable pub answer_of : Text → Answer
unfolding one_of
answer_of s =
    if one_of s (
      codes "yes"
      ∷ codes "y"
      ∷ codes "go"
      ∷ codes "ok"
      ∷ codes "okay"
      ∷ codes "proceed"
      ∷ codes "do it"
      ∷ [])
    then yes
    else if one_of s (codes "no" ∷ codes "n" ∷ codes "cancel" ∷ codes "nope" ∷ codes "abort" ∷ [])
    then no
    else neither

-- execRole: the user's own role, at least edit.
unfoldable pub exec_role : Role → Role
unfolding rank
exec_role role = if ltb (rank role) (rank role_edit) then role_edit else role

abbrev pub not_awaiting : UserState → UserState
not_awaiting st = record st { awaiting_confirm = false }

-- An answer while a plan awaits the user's word.
unfoldable pub answer_plan : Machine → Text → Answer → Bridge → Bridge
unfolding reply set_user run_agent dispatch_agent_turn exec_role
answer_plan m text yes b =
    (run_agent m (codes "Go ahead and carry out that plan now.") (exec_role b.user.entry.role) false
      (set_user not_awaiting b)).0
answer_plan m text no b = reply cancelled (set_user not_awaiting b)
answer_plan m text neither b = dispatch_agent_turn m text b

-- A message for the runner.
unfoldable pub handle_message : Machine → Text → Bridge → Bridge
unfolding reply answer_plan dispatch_agent_turn answer_of
handle_message m text b =
    if text_eq b.user.location (codes "")
    then reply (phrase (codes "location_gate")) b
    else if b.user.awaiting_confirm
    then answer_plan m text (answer_of (to_lower text)) b
    else dispatch_agent_turn m text b

-- `st.pendingKind != ""` and the number of the text
unfoldable pub selection : Menu → Text → Option ℤ
unfolding atoi trim_space
selection no_menu text = none
selection location_menu text = atoi (trim_space text)
selection session_menu text = atoi (trim_space text)

unfoldable pub handle_selection : Machine → Text → Option ℤ → Bridge → Bridge
unfolding select_number handle_message
handle_selection m text none b = handle_message m text b
handle_selection m text (some n) b = select_number m n b

unfoldable pub handle_command : Machine → Text → Command → Bridge → Bridge
unfolding reply status_line handle_selection selection
handle_command m text help_command b = reply (help b.user.entry.role) b
handle_command m text locations_command b = list_locations m b
handle_command m text resume_command b = list_sessions m b
handle_command m text new_command b = start_new b
handle_command m text end_command b = detach b
handle_command m text status_command b = reply (status_line b.user) b
handle_command m text triage_command b = start_triage_reply m b
handle_command m text chat_command b = start_chat m b
handle_command m text reset_command b = reset_triage_brain m b
handle_command m text no_command b = handle_selection m text (selection b.user.pending_kind text) b

-- While a run is in flight only `status` is answered.
unfoldable pub handle_busy : Text → Bridge → Bridge
unfolding reply status_line
handle_busy lower b =
    if text_eq lower (codes "status")
    then reply (status_line b.user) b
    else reply (phrase (codes "busy")) b

unfoldable pub handle_session : Machine → Text → Bridge → Bridge
unfolding handle_busy handle_command command_of
handle_session m text b =
    if b.user.busy
    then handle_busy (to_lower text) b
    else handle_command m text (command_of (to_lower text)) b

-- The commands that another component answers come before the test of `busy`.
unfoldable pub handle : Machine → Text → Bridge → Bridge
unfolding handle_session
handle m [] b = b
handle m (c ∷ s) b =
    let text : Text = c ∷ s in
    let lower = to_lower text in
    if is_errand_command lower
    then handle_errand_command m (trim_space text) b
    else if is_remind_command lower
    then handle_remind_command m (trim_space text) b
    else if is_events_command lower
    then handle_events_command m (trim_space text) b
    else if b.user.team_session || is_team_command lower
    then handle_team_command m (trim_space text) b
    else if is_commerce_command lower
    then handle_commerce_command m (trim_space text) b
    else handle_session m text b
