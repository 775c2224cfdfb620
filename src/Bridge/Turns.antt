-- ===== src/Bridge/Turns.antt =====
-- The agent turns that a message to internal/bridge starts.
pub mod Menus
pub mod Messages
pub mod Flight
use mathlib.Core.Path.{subst}
use zcoms_agent.Prelude.{
  ◌&&◌, append_empty, append_assoc, concat, ℕ, Bool, true, false, not, List, [], ◌∷◌, ◌++◌, Option,
  none, some, ◌⊎◌, inl, inr, ◌≡◌, ◌≤◌, refl, ap, ◌∙◌, arith, if◌then◌else◌, if-either, is_empty,
  ◌||◌, Bool-cases, sym,
}
use zcoms_agent.Prelude.Text.{Text, codes, text_eq, text_eq→eq, trim_space, to_lower, one_of}
use zcoms_agent.Prelude.Int.{ℤ}
use zcoms_agent.Runner.Roles.{Role, permission_args, run_flags, role_read, role_confirm}
use zcoms_agent.Runner.Roles.Caps.{power, power-read_le}
use zcoms_agent.Runner.Agents.{no_backend}
use zcoms_agent.Runner.Locations.{Locations, sorted_names}
use zcoms_agent.Bridge.State.{
  UserState, Call, Message, Effect, send, start, save_triage_session, Bridge, emit, reply, set_user,
  Session, nothing_to_select, resuming, Recipient, Menu, no_menu, location_menu, session_menu,
  Route,
}
use zcoms_agent.Bridge.Runs.{
  Machine, TeamReply, not_running, unreadable, answered, turn_backend, call_of, run_agent,
  turn_flags, turn_prompt, dispatch_agent_turn, keep_files, take_turn, with_busy,
}
use zcoms_agent.Bridge.Menus.{
  list_locations, list_sessions, start_new, detach, start_triage_reply, start_chat,
  reset_triage_brain, select_number, pick_location, pick_session, picked, offer_locations,
  offer_sessions, enter_triage, cleared, reload, allowed_names, out_of_triage, enter,
  effective_role, summary_prompt,
}
use zcoms_agent.Bridge.Forwards.{
  is_errand_command, is_remind_command, is_events_command, is_team_command, is_commerce_command,
  handle_errand_command, handle_remind_command, handle_events_command, handle_team_command,
  handle_commerce_command, team_replied, events_reply, set_team_session,
}
use zcoms_agent.Bridge.Handle.{
  exec_role, answer_plan, answer_of, Answer, yes, no, neither, handle_message, selection,
  handle_selection, handle_command, handle_busy, handle_session, handle, Command, command_of,
  help_command, locations_command, resume_command, new_command, end_command, status_command,
  triage_command, chat_command, reset_command, no_command,
}

-- The turns among the effects, in order.
unfoldable pub started : List Effect → List Call
started [] = []
started (send r m ∷ es) = started es
started (start call ∷ es) = call ∷ started es
started (save_triage_session id ∷ es) = started es

started-append : (es fs : List Effect) → started (es ++ fs) ≡ started es ++ started fs
unfolding started
started-append [] fs = refl
started-append (send r m ∷ es) fs = started-append es fs
started-append (start call ∷ es) fs = ap (λ cs. call ∷ cs) (started-append es fs)
started-append (save_triage_session id ∷ es) fs = started-append es fs

pub started-send :
    (es : List Effect) (r : Route) (m : Message) → started (es ++ send r m ∷ []) ≡ started es
unfolding started
started-send es r m = started-append es (send r m ∷ []) ∙ append_empty (started es)

pub started-start :
    (es : List Effect) (call : Call) → started (es ++ start call ∷ []) ≡ started es ++ call ∷ []
unfolding started
started-start es call = started-append es (start call ∷ [])

-- The words by which a user approves a plan.
abbrev pub says_yes : Text → Bool
says_yes text = one_of (to_lower text) (
    codes "yes"
    ∷ codes "y"
    ∷ codes "go"
    ∷ codes "ok"
    ∷ codes "okay"
    ∷ codes "proceed"
    ∷ codes "do it"
    ∷ [])

-- The message approves the plan that waits, and the role is the one that carries it out.
abbrev pub Approved : Bool → UserState → Role → Type 0
Approved said st role =
    (said ≡ true) × (st.awaiting_confirm ≡ true) × (role ≡ exec_role st.entry.role)

-- A role has the power of the session's role, or it carries out an approved plan.
abbrev pub RoleBounded : Bool → UserState → Role → Type 0
RoleBounded said st role =
    power (permission_args role) ≤ power (permission_args st.effective_role) ⊎ Approved said st role

-- What the flags of a turn allow, be the staging directory there or not: no more than the session's
-- role does, but for an approved plan, and for the edits of a reply to triage in that directory.
abbrev pub Permitted : Bool → UserState → Call → Bool → Type 0
Permitted said st call there =
    (power (turn_flags there call) ≤ power (permission_args st.effective_role))
    ⊎ (Approved said st call.role
        ⊎ ((st.triage_reply ≡ true) × (there ≡ true) × (power (turn_flags there call) ≡ 1)))

-- Only a session of the role `confirm` plans first.
abbrev pub PlanBounded : UserState → Bool → Type 0
PlanBounded st await = await ≡ true → st.effective_role ≡ role_confirm

abbrev pub Bounded : Bool → UserState → Call → Type 0
Bounded said st call =
    ((there : Bool) → Permitted said st call there) × PlanBounded st call.await_confirm

-- The staging directory adds the power to edit, and only in a reply to triage.
role-Permitted :
    (said : Bool) (st : UserState) (call : Call) (there : Bool)
    → call.triage_reply ≡ st.triage_reply
    → RoleBounded said st call.role
    → Permitted said st call there
unfolding turn_flags run_flags power text_eq
role-Permitted said st call there same (inr approved) = inr (inl approved)
role-Permitted said st call there same (inl bound) =
    if-either P (call.triage_reply && there) (codes "--permission-mode" ∷ codes "acceptEdits" ∷ [])
      (permission_args call.role)
      (λ staged. inr (inr (ground (arith, staged, same), ground (arith, staged), refl)))
      (λ _. inl bound)
  where
    P : List Text → Type 0
    P flags =
        (power flags ≤ power (permission_args st.effective_role))
        ⊎ (Approved said st call.role
            ⊎ ((st.triage_reply ≡ true) × (there ≡ true) × (power flags ≡ 1)))

abbrev pub Quiet : Bridge → Bridge → Type 0
Quiet b c = c.user.busy ≡ b.user.busy × started c.effects ≡ started b.effects

abbrev pub Starts : Bool → Bridge → Bridge → Type 0
Starts said b c =
    b.user.busy ≡ false
    × c.user.busy ≡ true
    × c.user.effective_role ≡ b.user.effective_role
    × ((call : Call) × (started c.effects ≡ started b.effects ++ call ∷ [])
        × Bounded said b.user call)

abbrev pub Turns : Bool → Bridge → Bridge → Type 0
Turns said b c = Quiet b c ⊎ Starts said b c

-- The turn that `run_agent` starts is as it is asked for.
unfoldable pub RunsAs : Role → Bool → Bridge → Bridge → Type 0
RunsAs role await b c =
    Quiet b c
    ⊎ (b.user.busy ≡ false
        × c.user.busy ≡ true
        × c.user.effective_role ≡ b.user.effective_role
        × ((call : Call) × (started c.effects ≡ started b.effects ++ call ∷ [])
            × (call.role ≡ role)
            × (call.triage_reply ≡ b.user.triage_reply)
            × (call.await_confirm ≡ await)))

pub run_agent-RunsAs :
    (m : Machine) (prompt : Text) (role : Role) (await : Bool) (b : Bridge)
    → RunsAs role await b (run_agent m prompt role await b).0
unfolding run_agent RunsAs reply emit set_user
run_agent-RunsAs m prompt role await b =
    if-either (λ (r : Bridge × Bool). RunsAs role await b r.0) b.user.busy _ _
      (λ e. inl (refl, refl))
      (λ idle.
        if-either (λ (r : Bridge × Bool). RunsAs role await b r.0)
          (text_eq (turn_backend m b.user) no_backend) _ _
          (λ e. inl (sym idle, started-send b.effects _ _))
          (λ e. inr (
            idle,
            refl,
            refl,
            (
              call_of m b.user prompt role await,
              started-start _ (call_of m b.user prompt role await)
                  ∙ ap (λ cs. cs ++ call_of m b.user prompt role await ∷ [])
                      (started-send b.effects _ _),
              refl,
              refl,
              refl,
            ),
          )))

-- A turn that is started has the role and the session that its bound speaks of.
pub runs_bounded :
    {said : Bool} (role : Role) (await : Bool) (b c d : Bridge)
    → Quiet b c
    → c.user.effective_role ≡ b.user.effective_role
    → c.user.triage_reply ≡ b.user.triage_reply
    → RunsAs role await c d
    → RoleBounded said b.user role
    → PlanBounded b.user await
    → Turns said b d
unfolding RunsAs
runs_bounded role await b c d before same triage (inl quiet) bound plan =
    inl (quiet.0 ∙ before.0, quiet.1 ∙ before.1)
runs_bounded {said = said} role await b c d before same triage
      (inr (idle, busy, kept, (call, one, is_role, is_triage, is_await))) bound plan =
    inr (
      sym before.0 ∙ idle,
      busy,
      kept ∙ same,
      (
        call,
        one ∙ ap (λ cs. cs ++ call ∷ []) before.1,
        (
          λ there.
              role-Permitted said b.user call there (is_triage ∙ triage)
                (subst (RoleBounded said b.user) (sym is_role) bound),
          rw is_await plan,
        ),
      ),
    )

keep_files-Turns :
    {said : Bool} (files : List Text) (b : Bridge) (r : Bridge × Bool)
    → Turns said b r.0
    → Turns said b (keep_files files r)
unfolding set_user
keep_files-Turns files b (c, true) h = h
keep_files-Turns [] b (c, false) h = h
keep_files-Turns (f ∷ files) b (c, false) h = h

pub dispatch_agent_turn-Turns :
    {said : Bool} (m : Machine) (text : Text) (b : Bridge)
    → Turns said b (dispatch_agent_turn m text b)
unfolding dispatch_agent_turn set_user
dispatch_agent_turn-Turns m text b = keep_files-Turns b.user.pending_files b _ (
    runs_bounded _ _ b (set_user take_turn b) _ (refl, refl) refl refl
      (run_agent-RunsAs m (turn_prompt m b.user text) _ _ (set_user take_turn b))
      (inl (
        if-either (λ r. power (permission_args r) ≤ power (permission_args b.user.effective_role))
          (text_eq b.user.effective_role role_confirm) role_read b.user.effective_role
          (λ _. power-read_le b.user.effective_role) (λ _. omega arith)))
      (text_eq→eq b.user.effective_role role_confirm))

-- What comes before a turn without starting one does not matter, where it keeps the bound.
pub after-Quiet :
    {said : Bool} (b c d : Bridge)
    → Quiet b c
    → c.user.effective_role ≡ b.user.effective_role
    → ((call : Call) → Bounded said c.user call → Bounded said b.user call)
    → Turns said c d
    → Turns said b d
after-Quiet b c d quiet same bound (inl more) = inl (more.0 ∙ quiet.0, more.1 ∙ quiet.1)
after-Quiet b c d quiet same bound (inr (idle, busy, kept, (call, one, bounded))) = inr (
  sym quiet.0 ∙ idle,
  busy,
  kept ∙ same,
  (call, one ∙ ap (λ cs. cs ++ call ∷ []) quiet.1, bound call bounded),
)
