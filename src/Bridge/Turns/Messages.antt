-- ===== src/Bridge/Turns/Messages.antt =====
-- The turns that each branch of `handle` in internal/bridge starts.
use zcoms_agent.Prelude.{
  arith, Bool, true, false, [], ◌∷◌, ◌++◌, Option, none, some, ◌⊎◌, inl, inr, ◌≡◌, refl, if-either,
  ◌||◌,
}
use zcoms_agent.Prelude.Text.{Text, codes, text_eq, trim_space, to_lower}
use zcoms_agent.Prelude.Int.{ℤ}
use zcoms_agent.Bridge.State.{Bridge, emit, reply, set_user, file_working}
use zcoms_agent.Bridge.Runs.{
  Machine, TeamReply, not_running, unreadable, answered, dispatch_agent_turn,
}
use zcoms_agent.Bridge.Menus.{start_new, detach, start_chat}
use zcoms_agent.Bridge.Forwards.{
  is_errand_command, is_remind_command, is_events_command, is_team_command, is_commerce_command,
  handle_errand_command, handle_remind_command, handle_events_command, handle_team_command,
  handle_commerce_command, team_replied, events_reply, events_around, after_blank, remind_reply,
  set_team_session,
}
use zcoms_agent.Bridge.Files.{attach, handle_incoming_file}
use zcoms_agent.Bridge.Handle.{
  exec_role, answer_plan, answer_of, Answer, yes, no, neither, handle_message, selection,
  handle_selection, handle_command, handle_busy, handle_session, handle, Command, command_of,
  help_command, locations_command, resume_command, new_command, end_command, status_command,
  triage_command, chat_command, reset_command, no_command,
}
use zcoms_agent.Bridge.Turns.Menus.{
  list_locations-Quiet, list_sessions-Quiet, select_number-Turns, start_triage_reply-Quiet,
  reset_triage_brain-Quiet,
}
use zcoms_agent.Bridge.Turns.{
  says_yes, started-send, Quiet, Turns, after-Quiet, run_agent-RunsAs, runs_bounded,
  dispatch_agent_turn-Turns,
}

-- An answer that is taken for a yes is one of the words of approval.
answer_of-yes : (text : Text) → answer_of (to_lower text) ≡ yes → says_yes text ≡ true
unfolding answer_of
answer_of-yes text h = ground arith

answer_plan-Turns :
    (m : Machine) (text : Text) (a : Answer) (b : Bridge)
    → b.user.awaiting_confirm ≡ true
    → (a ≡ yes → says_yes text ≡ true)
    → Turns (says_yes text) b (answer_plan m text a b)
unfolding answer_plan reply set_user emit
answer_plan-Turns m text yes b awaiting said =
    runs_bounded _ false b (set_user (λ st. record st { awaiting_confirm = false }) b) _
      (refl, refl) refl refl
      (run_agent-RunsAs m (codes "Go ahead and carry out that plan now.")
        (exec_role b.user.entry.role) false
        (set_user (λ st. record st { awaiting_confirm = false }) b))
      (inr (said refl, awaiting, refl)) (λ e. ground arith)
answer_plan-Turns m text no b awaiting said = inl (refl, started-send b.effects _ _)
answer_plan-Turns m text neither b awaiting said = dispatch_agent_turn-Turns m text b

handle_message-Turns :
    (m : Machine) (text : Text) (b : Bridge) → Turns (says_yes text) b (handle_message m text b)
unfolding handle_message reply set_user emit
handle_message-Turns m text b =
    if-either (Turns (says_yes text) b) (text_eq b.user.location (codes "")) _ _
      (λ _. inl (refl, started-send b.effects _ _))
      (λ _.
        if-either (Turns (says_yes text) b) b.user.awaiting_confirm _ _
          (λ awaiting.
            answer_plan-Turns m text (answer_of (to_lower text)) b awaiting (answer_of-yes text))
          (λ _. dispatch_agent_turn-Turns m text b))

handle_command-Turns :
    (m : Machine) (text : Text) (command : Command) (b : Bridge)
    → Turns (says_yes text) b (handle_command m text command b)
unfolding handle_command handle_selection reply set_user emit start_new detach start_chat
handle_command-Turns m text help_command b = inl (refl, started-send b.effects _ _)
handle_command-Turns m text locations_command b = inl (list_locations-Quiet m b)
handle_command-Turns m text resume_command b = inl (list_sessions-Quiet m b)
handle_command-Turns m text new_command b = inl (refl, started-send b.effects _ _)
handle_command-Turns m text end_command b = inl (refl, started-send b.effects _ _)
handle_command-Turns m text status_command b = inl (refl, started-send b.effects _ _)
handle_command-Turns m text triage_command b = inl (start_triage_reply-Quiet m b)
handle_command-Turns m text chat_command b = inl (refl, started-send b.effects _ _)
handle_command-Turns m text reset_command b = inl (reset_triage_brain-Quiet m b)
handle_command-Turns m text no_command b = by_selection (selection b.user.pending_kind text)
  where
    by_selection : (n : Option ℤ) → Turns (says_yes text) b (handle_selection m text n b)
    by_selection none = handle_message-Turns m text b
    by_selection (some n) = select_number-Turns m n b

handle_session-Turns :
    (m : Machine) (text : Text) (b : Bridge) → Turns (says_yes text) b (handle_session m text b)
unfolding handle_session handle_busy reply emit
handle_session-Turns m text b =
    if-either (Turns (says_yes text) b) b.user.busy _ _
      (λ _.
        if-either (Turns (says_yes text) b) (text_eq (to_lower text) (codes "status")) _ _
          (λ _. inl (refl, started-send b.effects _ _))
          (λ _. inl (refl, started-send b.effects _ _)))
      (λ _. handle_command-Turns m text (command_of (to_lower text)) b)

handle_team_command-Quiet :
    (m : Machine) (text : Text) (b : Bridge) → Quiet b (handle_team_command m text b)
unfolding handle_team_command reply set_user emit set_team_session
handle_team_command-Quiet m text b = by_reply (m.team text b.user.username)
  where
    by_reply : (r : TeamReply) → Quiet b (team_replied r b)
    by_reply not_running = (refl, started-send b.effects _ _)
    by_reply unreadable = (refl, started-send b.effects _ _)
    by_reply (answered true continue t) = (refl, started-send b.effects _ _)
    by_reply (answered false continue t) = (refl, started-send b.effects _ _)

handle_remind_command-Quiet :
    (m : Machine) (text : Text) (b : Bridge) → Quiet b (handle_remind_command m text b)
unfolding handle_remind_command reply emit
handle_remind_command-Quiet m text b = by_answer m.reminders
  where
    by_answer :
        (answer : Option (Text → Bool → Text → Text)) → Quiet b (remind_reply m text answer b)
    by_answer none = (refl, started-send b.effects _ _)
    by_answer (some answer) = (refl, started-send b.effects _ _)

handle_events_command-Quiet :
    (m : Machine) (text : Text) (b : Bridge) → Quiet b (handle_events_command m text b)
unfolding handle_events_command reply emit
handle_events_command-Quiet m text b = by_around m.events
  where
    by_reply : (r : Text ⊎ Text) → Quiet b (events_reply r b)
    by_reply (inl e) = (refl, started-send b.effects _ _)
    by_reply (inr answer) = (refl, started-send b.effects _ _)

    by_around :
        (around : Option (Text → Text ⊎ Text)) → Quiet b (events_around (after_blank text) around b)
    by_around none = (refl, started-send b.effects _ _)
    by_around (some around) = by_reply (around (after_blank text))

-- A message starts at most one agent turn, and only when none is in flight. The flags of the claude
-- CLI for it allow no more than the role of the session does, but for two cases: the message is a
-- word of approval and a plan waits for it, where the turn has the role of the user, at least edit;
-- or the session replies to triage, where the turn may edit in the staging directory if that is
-- there. And only a session of the role confirm plans first.
pub handle-Turns :
    (m : Machine) (text : Text) (b : Bridge) → Turns (says_yes text) b (handle m text b)
unfolding handle handle_errand_command handle_commerce_command reply emit
handle-Turns m [] b = inl (refl, refl)
handle-Turns m (c ∷ s) b =
    if-either (Turns (says_yes (c ∷ s)) b) (is_errand_command _) _ _
      (λ _. inl (refl, started-send b.effects _ _))
      (λ _.
        if-either (Turns (says_yes (c ∷ s)) b) (is_remind_command _) _ _
          (λ _. inl (handle_remind_command-Quiet m _ b))
          (λ _.
            if-either (Turns (says_yes (c ∷ s)) b) (is_events_command _) _ _
              (λ _. inl (handle_events_command-Quiet m _ b))
              (λ _.
                if-either (Turns (says_yes (c ∷ s)) b) (b.user.team_session || is_team_command _) _
                  _ (λ _. inl (handle_team_command-Quiet m _ b))
                  (λ _.
                    if-either (Turns (says_yes (c ∷ s)) b) (is_commerce_command _) _ _
                      (λ _. inl (refl, started-send b.effects _ _))
                      (λ _. handle_session-Turns m (c ∷ s) b)))))

-- The same of a file with a caption, which is a turn of its own.
pub handle_incoming_file-Turns :
    (m : Machine) (path name caption : Text) (b : Bridge)
    → Turns false b (handle_incoming_file m path name caption b)
unfolding handle_incoming_file reply set_user emit
handle_incoming_file-Turns m path name caption b =
    if-either (Turns false b) (text_eq b.user.location (codes "")) _ _
      (λ _. inl (refl, started-send b.effects _ _))
      (λ _.
        if-either (Turns false b) (text_eq (trim_space path) (codes "")) _ _
          (λ _. inl (refl, started-send b.effects _ _)) (λ _. by_error _ (m.copy_error path _)))
  where
    waiting : Text → Bridge
    waiting rel =
        reply file_working
          (set_user (λ st. record st { pending_files = st.pending_files ++ rel ∷ [] }) b)

    by_error : (rel : Text) (e : Option Text) → Turns false b (attach m rel caption e b)
    by_error rel (some e) = inl (refl, started-send b.effects _ _)
    by_error rel none =
        if-either (Turns false b) (text_eq (trim_space caption) (codes "")) _ _
          (λ _. inl (refl, started-send b.effects _ _))
          (λ _.
            after-Quiet b (waiting rel) (dispatch_agent_turn m caption (waiting rel))
              (refl, started-send b.effects _ _) refl (λ call bound. bound)
              (dispatch_agent_turn-Turns m caption (waiting rel)))
