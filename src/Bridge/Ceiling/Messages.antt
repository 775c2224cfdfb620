-- ===== src/Bridge/Ceiling/Messages.antt =====
-- The role of a session over each branch of `handle` in internal/bridge.
use zcoms_agent.Prelude.{
  arith, Bool, true, false, List, [], ◌∷◌, Option, none, some, ◌⊎◌, inl, inr, ◌≤◌, if-either,
}
use zcoms_agent.Prelude.Text.{Text, codes, text_eq, to_lower}
use zcoms_agent.Prelude.Int.{ℤ}
use zcoms_agent.Runner.Roles.{Role, rank, role_read}
use zcoms_agent.Runner.Agents.{no_backend}
use zcoms_agent.Runner.Locations.{Locations, sorted_names}
use zcoms_agent.Bridge.State.{
  UserState, Bridge, emit, reply, set_user, Session, Recipient, Menu, no_menu, location_menu,
  session_menu, nothing_to_select,
}
use zcoms_agent.Bridge.Runs.{
  Machine, run_agent, turn_backend, turn_prompt, dispatch_agent_turn, keep_files, take_turn,
}
use zcoms_agent.Bridge.Menus.{
  list_locations, list_sessions, start_new, detach, start_triage_reply, start_chat,
  reset_triage_brain, select_number, pick_location, pick_session, picked, offer_locations,
  offer_sessions, enter_triage, cleared, reload, allowed_names, summary_prompt,
}
use zcoms_agent.Bridge.Handle.{
  exec_role, answer_plan, answer_of, Answer, yes, no, neither, handle_message, selection,
  handle_selection, handle_command, Command, help_command, locations_command, resume_command,
  new_command, end_command, status_command, triage_command, chat_command, reset_command, no_command,
}
use zcoms_agent.Bridge.Ceiling.{Capped, effective_role-rank_le}

-- What a step may do to a session's role and to its waiting.
abbrev pub Keeps : Bridge → Bridge → Type 0
Keeps b c = Capped b.user → Capped c.user

-- A session that no longer waits keeps its roles.
forget : (st : UserState) → Capped st → Capped (record st { awaiting_confirm = false })
forget st h = (h.0, h.1, λ e. ground arith)

run_agent-Keeps :
    (m : Machine) (prompt : Text) (role : Role) (await : Bool) (b : Bridge)
    → Keeps b (run_agent m prompt role await b).0
unfolding run_agent reply emit set_user
run_agent-Keeps m prompt role await b =
    if-either (λ (r : Bridge × Bool). Keeps b r.0) b.user.busy _ _ (λ _ h. h)
      (λ _.
        if-either (λ (r : Bridge × Bool). Keeps b r.0) (text_eq (turn_backend m b.user) no_backend)
          _ _ (λ _ h. h) (λ _ h. h))

pub dispatch_agent_turn-Keeps :
    (m : Machine) (text : Text) (b : Bridge) → Keeps b (dispatch_agent_turn m text b)
unfolding dispatch_agent_turn set_user
dispatch_agent_turn-Keeps m text b h =
    kept b.user.pending_files _
      (run_agent-Keeps m (turn_prompt m b.user text) _ _ (set_user take_turn b) h)
  where
    kept :
        (files : List Text) (r : Bridge × Bool) → Capped r.0.user → Capped (keep_files files r).user
    kept files (c, true) k = k
    kept [] (c, false) k = k
    kept (f ∷ files) (c, false) k = k

answer_plan-Keeps :
    (m : Machine) (text : Text) (a : Answer) (b : Bridge) → Keeps b (answer_plan m text a b)
unfolding answer_plan reply set_user emit
answer_plan-Keeps m text yes b h =
    run_agent-Keeps m (codes "Go ahead and carry out that plan now.") (exec_role b.user.entry.role)
      false (set_user (λ st. record st { awaiting_confirm = false }) b) (forget b.user h)
answer_plan-Keeps m text no b h = forget b.user h
answer_plan-Keeps m text neither b h = dispatch_agent_turn-Keeps m text b h

handle_message-Keeps : (m : Machine) (text : Text) (b : Bridge) → Keeps b (handle_message m text b)
unfolding handle_message reply set_user emit
handle_message-Keeps m text b =
    if-either (Keeps b) (text_eq b.user.location (codes "")) _ _ (λ _ h. h)
      (λ _.
        if-either (Keeps b) b.user.awaiting_confirm _ _
          (λ _. answer_plan-Keeps m text (answer_of (to_lower text)) b)
          (λ _. dispatch_agent_turn-Keeps m text b))

list_locations-Keeps : (m : Machine) (b : Bridge) → Keeps b (list_locations m b)
unfolding list_locations reply set_user emit
list_locations-Keeps m b = by_reload m.reload
  where
    offered : (allowed : List Text) (c : Bridge) → Keeps c (offer_locations allowed c)
    offered [] c h = h
    offered (n ∷ names) c h = h

    by_reload :
        (locations : Option Locations)
        → Keeps b (
            offer_locations
              (allowed_names
                (reload locations b).user
                (sorted_names (reload locations b).locations))
              (reload locations b))
    by_reload none = offered _ b
    by_reload (some locations) = offered _ (record b { locations = locations })

list_sessions-Keeps : (m : Machine) (b : Bridge) → Keeps b (list_sessions m b)
unfolding list_sessions reply set_user emit
list_sessions-Keeps m b =
    if-either (Keeps b) (text_eq b.user.location (codes "")) _ _ (λ _ h. h)
      (λ _. offered (m.list_sessions b.user.entry.agent b.user.location_path))
  where
    offered : (listing : Text ⊎ List Session) → Keeps b (offer_sessions listing b)
    offered (inl e) h = h
    offered (inr []) h = h
    offered (inr (s ∷ sessions)) h = h

-- A location's ceiling only lowers the role.
pick_location-Keeps :
    (m : Machine) (name : Option Text) (b : Bridge) → Keeps b (pick_location m name b)
unfolding pick_location reply set_user emit
pick_location-Keeps m none b h = h
pick_location-Keeps m (some name) b h =
    (h.0, (effective_role-rank_le b.user.entry.role _).0, λ e. ground arith)

pick_session-Keeps : (m : Machine) (s : Option Session) (b : Bridge) → Keeps b (pick_session m s b)
unfolding pick_session reply set_user emit
pick_session-Keeps m none b h = h
pick_session-Keeps m (some s) b h = run_agent-Keeps m summary_prompt role_read false _ h

select_number-Keeps : (m : Machine) (n : ℤ) (b : Bridge) → Keeps b (select_number m n b)
unfolding select_number reply emit
select_number-Keeps m n b = by_menu b.user.pending_kind
  where
    by_menu :
        (menu : Menu)
        → Keeps b (elim menu [
          | location_menu ↦ pick_location m (picked n b.user.pending_loc) b
          | session_menu ↦ pick_session m (picked n b.user.pending_sess) b
          | no_menu ↦ reply nothing_to_select b
        ])
    by_menu location_menu h = pick_location-Keeps m _ b h
    by_menu session_menu h = pick_session-Keeps m _ b h
    by_menu no_menu h = h

start_triage_reply-Keeps : (m : Machine) (b : Bridge) → Keeps b (start_triage_reply m b)
unfolding start_triage_reply reply set_user emit text_eq
start_triage_reply-Keeps m b = by_batch m.triage_batch
  where
    by_batch : (batch : Text ⊎ List Recipient) → Keeps b (enter_triage m batch b)
    by_batch (inl e) h = h
    by_batch (inr []) h = h
    by_batch (inr (r ∷ rs)) h = (h.0, lowest b.user.entry.role h.0, λ e. ground arith)
      where
        lowest : (role : Role) → 1 ≤ rank role → rank role_read ≤ rank role
        lowest role k = unfold rank in k

reset_triage_brain-Keeps : (m : Machine) (b : Bridge) → Keeps b (reset_triage_brain m b)
unfolding reset_triage_brain reply set_user emit
reset_triage_brain-Keeps m b = by_error m.reset_error
  where
    by_error : (e : Option Text) → Keeps b (cleared e b)
    by_error (some e) h = h
    by_error none h =
        if-either (λ (st : UserState). Capped st) b.user.triage_session _ _ (λ _. h) (λ _. h)

pub handle_command-Keeps :
    (m : Machine) (text : Text) (command : Command) (b : Bridge)
    → Keeps b (handle_command m text command b)
unfolding handle_command handle_selection reply set_user emit start_new detach start_chat
handle_command-Keeps m text help_command b h = h
handle_command-Keeps m text locations_command b h = list_locations-Keeps m b h
handle_command-Keeps m text resume_command b h = list_sessions-Keeps m b h
handle_command-Keeps m text new_command b h = forget b.user h
handle_command-Keeps m text end_command b h = forget b.user h
handle_command-Keeps m text status_command b h = h
handle_command-Keeps m text triage_command b h = start_triage_reply-Keeps m b h
handle_command-Keeps m text chat_command b h = (h.0, omega arith, λ e. ground arith)
handle_command-Keeps m text reset_command b h = reset_triage_brain-Keeps m b h
handle_command-Keeps m text no_command b h = by_selection (selection b.user.pending_kind text)
  where
    by_selection : (n : Option ℤ) → Capped (handle_selection m text n b).user
    by_selection none = handle_message-Keeps m text b h
    by_selection (some n) = select_number-Keeps m n b h
