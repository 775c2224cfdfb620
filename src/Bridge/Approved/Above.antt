-- ===== src/Bridge/Approved/Above.antt =====
-- The turn by which internal/bridge carries out an approved plan, and its power.
use zcoms_agent.Prelude.{
  Bool, true, false, List, [], ◌∷◌, ◌++◌, ◌||◌, ◌&&◌, ◌≡◌, ◌<◌, refl, ap, ◌∙◌, sym, arith,
  if-either,
}
use mathlib.Core.Path.{subst}
use zcoms_agent.Prelude.Text.{Text, codes, text_eq, to_lower, has_prefix, trim_space}
use zcoms_agent.Prelude.Int.{atoi}
use zcoms_agent.Runner.Roles.{permission_args, run_flags, role_confirm}
use zcoms_agent.Runner.Roles.Caps.{power}
use zcoms_agent.Runner.Agents.{no_backend}
use zcoms_agent.Bridge.State.{
  Call, Bridge, emit, reply, set_user, Menu, no_menu, location_menu, session_menu,
}
use zcoms_agent.Bridge.Runs.{Machine, call_of, run_agent, turn_backend, turn_flags}
use zcoms_agent.Bridge.Forwards.{
  is_errand_command, is_remind_command, is_events_command, is_team_command, is_commerce_command,
}
use zcoms_agent.Bridge.Handle.{
  handle, handle_session, handle_command, handle_selection, handle_message, selection, command_of,
  answer_of, answer_plan, not_awaiting, exec_role, yes,
}
use zcoms_agent.Bridge.Turns.{started, started-send, started-start}
use zcoms_agent.Bridge.Turns.Flight.{Reaches, quiet}
use zcoms_agent.Bridge.Ceiling.{exec_role-power, Capped}
use zcoms_agent.Bridge.Approved.{Reaches-Capped}

-- The session takes a message for the answer to its plan, and some agent CLI can run.
pub record IsAsking (m : Machine) (b : Bridge) : Type 0 where
  pub awaiting : b.user.awaiting_confirm ≡ true
  pub idle : b.user.busy ≡ false
  pub alone : b.user.team_session ≡ false
  pub placed : text_eq b.user.location (codes "") ≡ false
  pub runnable : text_eq (turn_backend m b.user) no_backend ≡ false

yes_message :
    (m : Machine) (b : Bridge)
    → IsAsking m b
    → handle_message m (codes "yes") b ≡ answer_plan m (codes "yes") yes b
unfolding handle_message answer_of text_eq to_lower
yes_message m b h =
    if-either P (text_eq b.user.location (codes "")) _ _ (λ e. absurd (ground (arith, e, h.placed)))
      (λ _.
        if-either P b.user.awaiting_confirm _ _ (λ _. refl)
          (λ e. absurd (ground (arith, e, h.awaiting))))
  where
    P : Bridge → Type 0
    P c = c ≡ answer_plan m (codes "yes") yes b

yes_answers :
    (m : Machine) (b : Bridge)
    → IsAsking m b
    → handle m (codes "yes") b ≡ answer_plan m (codes "yes") yes b
unfolding handle handle_session handle_command handle_selection selection command_of atoi trim_space
    text_eq to_lower has_prefix is_errand_command is_remind_command is_events_command
    is_team_command is_commerce_command
yes_answers m b h =
    if-either P (b.user.team_session || is_team_command (codes "yes")) _ _
      (λ e. absurd (ground (arith, e, h.alone)))
      (λ _.
        if-either P b.user.busy _ _ (λ e. absurd (ground (arith, e, h.idle)))
          (λ _. by_menu b.user.pending_kind))
  where
    P : Bridge → Type 0
    P c = c ≡ answer_plan m (codes "yes") yes b

    by_menu : (menu : Menu) → P (handle_selection m (codes "yes") (selection menu (codes "yes")) b)
    by_menu no_menu = yes_message m b h
    by_menu location_menu = yes_message m b h
    by_menu session_menu = yes_message m b h

-- The one turn that a run starts: none is in flight, and a CLI is there.
run_agent-starts :
    (m : Machine) (prompt : Text) (b : Bridge)
    → IsAsking m b
    → (role : Text)
    → started (run_agent m prompt role false (set_user not_awaiting b)).0.effects
      ≡ started b.effects ++ call_of m (not_awaiting b.user) prompt role false ∷ []
unfolding run_agent reply set_user emit turn_backend
run_agent-starts m prompt b h role =
    if-either P b.user.busy _ _ (λ e. absurd (ground (arith, e, h.idle)))
      (λ _.
        if-either P (text_eq (turn_backend m b.user) no_backend) _ _
          (λ e. absurd (ground (arith, e, h.runnable)))
          (λ _.
            started-start _ _
            ∙ ap (λ calls. calls ++ call_of m (not_awaiting b.user) prompt role false ∷ [])
                (started-send b.effects _ _)))
  where
    P : Bridge × Bool → Type 0
    P r =
        started r.0.effects
        ≡ started b.effects ++ call_of m (not_awaiting b.user) prompt role false ∷ []

edits :
    power (permission_args role_confirm)
    < power (codes "--permission-mode" ∷ codes "acceptEdits" ∷ [])
unfolding power permission_args text_eq
edits = omega arith

-- The flags of a turn with this role, also in the staging directory, are above those of the session.
above :
    (m : Machine) (b : Bridge) (call : Call) (there : Bool)
    → Capped b.user
    → b.user.awaiting_confirm ≡ true
    → call.role ≡ exec_role b.user.entry.role
    → power (permission_args b.user.effective_role) < power (turn_flags there call)
unfolding turn_flags run_flags
above m b call there capped awaiting is_role =
    if-either P (call.triage_reply && there) (codes "--permission-mode" ∷ codes "acceptEdits" ∷ [])
      (permission_args call.role)
      (λ _.
        subst
          (λ r.
            power (permission_args r)
            < power (codes "--permission-mode" ∷ codes "acceptEdits" ∷ []))
          (sym (capped.2 awaiting)) edits)
      (λ _.
        subst (λ r. power (permission_args b.user.effective_role) < power (permission_args r))
          (sym is_role) (exec_role-power b.user capped awaiting))
  where
    P : List Text → Type 0
    P flags = power (permission_args b.user.effective_role) < power flags

-- In a session that is reached, in which a plan waits for a word, the message `yes` starts exactly one
-- turn, and its flags allow strictly more than the effective role of the session does, whatever
-- ceiling its location has. This is for a session with a location that is at rest and not in a
-- team's conversation, where an agent CLI is there.
pub approved-above_ceiling :
    (m : Machine) (b : Bridge) (calls : List Call)
    → Reaches b calls
    → IsAsking m b
    → (call : Call) × (started (handle m (codes "yes") (quiet b)).effects ≡ call ∷ [])
      × ((there : Bool)
          → power (permission_args b.user.effective_role) < power (turn_flags there call))
unfolding answer_plan started call_of
approved-above_ceiling m b calls h asks =
    let q : Bridge = quiet b in
    let asking : IsAsking m q = record {
      awaiting = asks.awaiting;
      idle = asks.idle;
      alone = asks.alone;
      placed = asks.placed;
      runnable = asks.runnable;
    } in
    let prompt : Text = codes "Go ahead and carry out that plan now." in
    let call : Call = call_of m (not_awaiting b.user) prompt (exec_role b.user.entry.role) false in
    (
      call,
      ap (λ (c : Bridge). started c.effects) (yes_answers m q asking)
          ∙ run_agent-starts m prompt q asking (exec_role b.user.entry.role),
      λ there. above m b call there (Reaches-Capped b calls h).0 asks.awaiting refl,
    )
