-- ===== src/Bridge/Ceiling/Invariant.antt =====
-- The role of a session over the whole of `handle` in internal/bridge.
use zcoms_agent.Prelude.{
  arith, Bool, true, false, [], ◌∷◌, ◌++◌, Option, none, some, ◌⊎◌, inl, inr, ◌≡◌, refl, if-either,
  ◌||◌,
}
use zcoms_agent.Prelude.Text.{Text, codes, text_eq, trim_space, to_lower}
use zcoms_agent.Bridge.State.{Bridge, emit, reply, set_user, file_working}
use zcoms_agent.Bridge.Runs.{Machine, TeamReply, not_running, unreadable, answered}
use zcoms_agent.Bridge.Forwards.{
  is_errand_command, is_remind_command, is_events_command, is_team_command, is_commerce_command,
  handle_errand_command, handle_remind_command, handle_events_command, handle_team_command,
  handle_commerce_command, team_replied, events_reply, set_team_session, events_around, after_blank,
  remind_reply,
}
use zcoms_agent.Bridge.Files.{attach, handle_incoming_file}
use zcoms_agent.Bridge.Handle.{handle_busy, handle_session, handle, command_of}
use zcoms_agent.Bridge.Ceiling.{Capped}
use zcoms_agent.Bridge.Ceiling.Messages.{Keeps, dispatch_agent_turn-Keeps, handle_command-Keeps}

-- What a forwarded command leaves as it is: all that the ceiling is about.
abbrev pub SameRoles : Bridge → Bridge → Type 0
SameRoles b c =
    c.user.entry ≡ b.user.entry
    × c.user.effective_role ≡ b.user.effective_role
    × c.user.awaiting_confirm ≡ b.user.awaiting_confirm

SameRoles-Keeps : (b c : Bridge) → SameRoles b c → Keeps b c
SameRoles-Keeps b c (entry, role, waiting) h = rw (entry, role, waiting) h

handle_team_command-SameRoles :
    (m : Machine) (text : Text) (b : Bridge) → SameRoles b (handle_team_command m text b)
unfolding handle_team_command reply set_user emit set_team_session
handle_team_command-SameRoles m text b = by_reply (m.team text b.user.username)
  where
    by_reply : (r : TeamReply) → SameRoles b (team_replied r b)
    by_reply not_running = (refl, refl, refl)
    by_reply unreadable = (refl, refl, refl)
    by_reply (answered true continue t) = (refl, refl, refl)
    by_reply (answered false continue t) = (refl, refl, refl)

handle_remind_command-SameRoles :
    (m : Machine) (text : Text) (b : Bridge) → SameRoles b (handle_remind_command m text b)
unfolding handle_remind_command reply emit
handle_remind_command-SameRoles m text b = by_answer m.reminders
  where
    by_answer :
        (answer : Option (Text → Bool → Text → Text)) → SameRoles b (remind_reply m text answer b)
    by_answer none = (refl, refl, refl)
    by_answer (some answer) = (refl, refl, refl)

handle_events_command-SameRoles :
    (m : Machine) (text : Text) (b : Bridge) → SameRoles b (handle_events_command m text b)
unfolding handle_events_command reply emit
handle_events_command-SameRoles m text b = by_around m.events
  where
    by_reply : (r : Text ⊎ Text) → SameRoles b (events_reply r b)
    by_reply (inl e) = (refl, refl, refl)
    by_reply (inr answer) = (refl, refl, refl)

    by_around :
        (around : Option (Text → Text ⊎ Text))
        → SameRoles b (events_around (after_blank text) around b)
    by_around none = (refl, refl, refl)
    by_around (some around) = by_reply (around (after_blank text))

-- A forwarded command, or the session's own handling.
forwarded_or_session :
    (P : Bridge → Type 0) (m : Machine) (text : Text) (b : Bridge)
    → ((c : Bridge) → SameRoles b c → P c)
    → P (handle_session m text b)
    → P (handle m text b)
unfolding handle handle_errand_command handle_commerce_command reply emit
forwarded_or_session P m [] b same session = same b (refl, refl, refl)
forwarded_or_session P m (c ∷ s) b same session =
    if-either P (is_errand_command _) _ _ (λ _. same _ (refl, refl, refl))
      (λ _.
        if-either P (is_remind_command _) _ _ (λ _. same _ (handle_remind_command-SameRoles m _ b))
          (λ _.
            if-either P (is_events_command _) _ _
              (λ _. same _ (handle_events_command-SameRoles m _ b))
              (λ _.
                if-either P (b.user.team_session || is_team_command _) _ _
                  (λ _. same _ (handle_team_command-SameRoles m _ b))
                  (λ _.
                    if-either P (is_commerce_command _) _ _ (λ _. same _ (refl, refl, refl))
                      (λ _. session)))))

-- A message never lifts a session's role above the user's, nor lets another role than `confirm` wait.
pub handle-Capped :
    (m : Machine) (text : Text) (b : Bridge) → Capped b.user → Capped (handle m text b).user
unfolding handle_session handle_busy reply emit
handle-Capped m text b h =
    forwarded_or_session (λ c. Capped c.user) m text b (λ c same. SameRoles-Keeps b c same h)
      (if-either (λ (c : Bridge). Capped c.user) b.user.busy _ _
        (λ _.
          if-either (λ (c : Bridge). Capped c.user) (text_eq (to_lower text) (codes "status")) _ _
            (λ _. h) (λ _. h))
        (λ _. handle_command-Keeps m text (command_of (to_lower text)) b h))

pub handle-busy_role :
    (m : Machine) (text : Text) (b : Bridge)
    → b.user.busy ≡ true
    → (handle m text b).user.effective_role ≡ b.user.effective_role
unfolding handle_session handle_busy reply emit
handle-busy_role m text b busy =
    forwarded_or_session Same m text b (λ c same. same.1)
      (if-either Same b.user.busy _ _
        (λ _. if-either Same (text_eq (to_lower text) (codes "status")) _ _ (λ _. refl) (λ _. refl))
        (λ idle. ground arith))
  where
    Same : Bridge → Type 0
    Same c = c.user.effective_role ≡ b.user.effective_role

-- The same of a file.
pub handle_incoming_file-Capped :
    (m : Machine) (path name caption : Text) (b : Bridge)
    → Capped b.user
    → Capped (handle_incoming_file m path name caption b).user
unfolding handle_incoming_file reply set_user emit
handle_incoming_file-Capped m path name caption b h =
    if-either (λ (c : Bridge). Capped c.user) (text_eq b.user.location (codes "")) _ _ (λ _. h)
      (λ _.
        if-either (λ (c : Bridge). Capped c.user) (text_eq (trim_space path) (codes "")) _ _
          (λ _. h) (λ _. by_error _ (m.copy_error path _)))
  where
    by_error : (rel : Text) (e : Option Text) → Capped (attach m rel caption e b).user
    by_error rel (some e) = h
    by_error rel none =
        if-either (λ (c : Bridge). Capped c.user) (text_eq (trim_space caption) (codes "")) _ _
          (λ _. h)
          (λ _.
            dispatch_agent_turn-Keeps m caption
              (reply file_working
                (set_user (λ st. record st { pending_files = st.pending_files ++ rel ∷ [] }) b))
              h)
