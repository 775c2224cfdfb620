-- ===== src/Bridge/Approved.antt =====
-- Every session that internal/bridge reaches: its role, and the turns in flight that plan.
pub mod Above
use zcoms_agent.Prelude.{
  arith, Bool, true, false, List, [], ◌∷◌, ◌++◌, Option, none, some, inl, inr, ◌≡◌, ◌≤◌, ◌<◌, refl,
  if-either, All,
}
use zcoms_agent.Prelude.Text.{Text, codes, text_eq, trim_space}
use zcoms_agent.Runner.Roles.{rank, valid_role, permission_args, Role, AllowEntry}
use zcoms_agent.Runner.Roles.Caps.{power}
use zcoms_agent.Runner.Agents.{no_backend}
use zcoms_agent.Bridge.State.{UserState, Call, Bridge, Route, emit, reply, set_user, file_working}
use zcoms_agent.Bridge.Runs.{
  Machine, RunResult, complete, record_session, finish_turn, end_turn, run_agent, turn_backend,
  dispatch_agent_turn, keep_files, take_turn,
}
use zcoms_agent.Bridge.Files.{attach, handle_incoming_file}
use zcoms_agent.Bridge.Sessions.{first_contact}
use zcoms_agent.Bridge.Handle.{handle, exec_role}
use zcoms_agent.Bridge.Turns.{started, Turns, PlanBounded}
use zcoms_agent.Bridge.Turns.Messages.{handle-Turns, handle_incoming_file-Turns}
use zcoms_agent.Bridge.Turns.Flight.{
  Reaches, fresh, message, file, finish, quiet, SingleFlight, Reaches-SingleFlight, rest_empty,
}
use zcoms_agent.Bridge.Ceiling.{Capped, exec_role-power}
use zcoms_agent.Bridge.Ceiling.Invariant.{
  handle-Capped, handle-busy_role, handle_incoming_file-Capped,
}

dispatch_agent_turn-role :
    (m : Machine) (text : Text) (b : Bridge)
    → (dispatch_agent_turn m text b).user.effective_role ≡ b.user.effective_role
unfolding dispatch_agent_turn run_agent reply emit set_user
dispatch_agent_turn-role m text b = kept b.user.pending_files _ (
    if-either Same b.user.busy _ _ (λ _. refl)
      (λ _.
        if-either Same (text_eq (turn_backend m (take_turn b.user)) no_backend) _ _ (λ _. refl)
          (λ _. refl)))
  where
    Same : Bridge × Bool → Type 0
    Same r = r.0.user.effective_role ≡ b.user.effective_role

    kept :
        (files : List Text) (r : Bridge × Bool)
        → Same r
        → (keep_files files r).user.effective_role ≡ b.user.effective_role
    kept files (c, true) h = h
    kept [] (c, false) h = h
    kept (f ∷ files) (c, false) h = h

handle_incoming_file-role :
    (m : Machine) (path name caption : Text) (b : Bridge)
    → (handle_incoming_file m path name caption b).user.effective_role ≡ b.user.effective_role
unfolding handle_incoming_file reply set_user emit
handle_incoming_file-role m path name caption b =
    if-either Same (text_eq b.user.location (codes "")) _ _ (λ _. refl)
      (λ _.
        if-either Same (text_eq (trim_space path) (codes "")) _ _ (λ _. refl)
          (λ _. by_error _ (m.copy_error path _)))
  where
    Same : Bridge → Type 0
    Same c = c.user.effective_role ≡ b.user.effective_role

    by_error : (rel : Text) (e : Option Text) → Same (attach m rel caption e b)
    by_error rel (some e) = refl
    by_error rel none =
        if-either Same (text_eq (trim_space caption) (codes "")) _ _ (λ _. refl)
          (λ _. dispatch_agent_turn-role m caption (
            reply file_working
              (set_user (λ st. record st { pending_files = st.pending_files ++ rel ∷ [] }) b)))

-- The session is within its ceiling, and the turns in flight that plan are its own.
abbrev pub Planned : Bridge → List Call → Type 0
Planned b calls = All (λ call. PlanBounded b.user call.await_confirm) calls

-- A step that starts turns as it may, and keeps the role of a busy session.
step-Planned :
    {said : Bool} (b c : Bridge) (calls : List Call)
    → Turns said (quiet b) c
    → SingleFlight b calls
    → (b.user.busy ≡ true → c.user.effective_role ≡ b.user.effective_role)
    → Planned b calls
    → Planned c (calls ++ started c.effects)
unfolding started
step-Planned b c calls (inl (same, none_new)) (inl (idle, empty)) role h = rw (empty, none_new) tt
step-Planned b c calls (inl (same, none_new)) (inr (busy, (call, one))) role h =
    rw (one, none_new, role busy) (rw one at h)
step-Planned b c calls (inr (idle, busy, kept, (call, one, bound))) (inl (_, empty)) role h =
    rw (empty, one) (rw kept bound.1, tt)
step-Planned b c calls (inr (idle, busy, kept, (call, one, bound))) (inr (is_busy, _)) role h =
    ground arith

-- Among the turns in flight, one that plans is of a session of the role `confirm`.
Planned-at :
    (b : Bridge) (before after : List Call) (call : Call)
    → Planned b (before ++ call ∷ after)
    → PlanBounded b.user call.await_confirm
Planned-at b [] after call h = h.0
Planned-at b (x ∷ before) after call h = Planned-at b before after call h.1

record_session-Capped :
    (call : Call) (r : RunResult) (b : Bridge)
    → Capped b.user
    → PlanBounded b.user call.await_confirm
    → Capped (record_session call r b).user
      × PlanBounded (record_session call r b).user call.await_confirm
unfolding record_session set_user emit
record_session-Capped call r b h plan =
    if-either Kept (text_eq r.session_id (codes "")) _ _ (λ _. (h, plan))
      (λ _. if-either Kept call.triage_session _ _ (λ _. (h, plan)) (λ _. (h, plan)))
  where
    Kept : Bridge → Type 0
    Kept c = Capped c.user × PlanBounded c.user call.await_confirm

-- A turn that ends leaves a session waiting only where it has planned.
complete-Capped :
    (call : Call) (rt : Route) (r : RunResult) (b : Bridge)
    → Capped b.user
    → PlanBounded b.user call.await_confirm
    → Capped (complete call rt r b).user
unfolding complete set_user emit
complete-Capped call rt r b h plan =
    by_error r.error (record_session call r b) recorded.0 recorded.1
  where
    recorded :
        Capped (record_session call r b).user
        × PlanBounded (record_session call r b).user call.await_confirm
    recorded = record_session-Capped call r b h plan

    ended :
        (await : Bool) (st : UserState)
        → Capped st
        → PlanBounded st await
        → Capped (end_turn await st)
    ended true st k waits = (k.0, k.1, λ _. waits refl)
    ended false st k waits = k

    by_error :
        (e : Option Text) (c : Bridge)
        → Capped c.user
        → PlanBounded c.user call.await_confirm
        → Capped (finish_turn call rt r e c).user
    by_error none c k waits =
        if-either (λ (d : Bridge). Capped d.user) (text_eq (trim_space r.text) (codes "")) _ _
          (λ _. ended call.await_confirm c.user k waits)
          (λ _.
            if-either (λ (d : Bridge). Capped d.user) call.await_confirm _ _
              (λ _. ended call.await_confirm c.user k waits)
              (λ _. ended call.await_confirm c.user k waits))
    by_error (some e) c k waits =
        if-either (λ (d : Bridge). Capped d.user) (text_eq r.text (codes "")) _ _ (λ _. k) (λ _. k)

valid_role-rank : (role : Role) → valid_role role ≡ true → 1 ≤ rank role
unfolding valid_role
valid_role-rank role h = ground arith

fresh-Capped :
    (m : Machine) (handle address transport : Text) (entry : AllowEntry)
    → valid_role entry.role ≡ true
    → Capped (first_contact m handle entry transport address)
unfolding first_contact valid_role rank text_eq
fresh-Capped m handle address transport entry is_role =
    (valid_role-rank entry.role is_role, omega arith, λ e. ground arith)

-- In every session that is reached from a first contact with a valid role, the effective role
-- ranks no higher than the role of the user, only the role confirm waits for a word, and a turn
-- in flight that plans is one of a session of that role.
pub Reaches-Capped :
    (b : Bridge) (calls : List Call) → Reaches b calls → Capped b.user × Planned b calls
Reaches-Capped _ _ (fresh m locations handle transport address entry is_role) =
    (fresh-Capped m handle address transport entry is_role, tt)
Reaches-Capped _ _ (message m text b calls h) = (
  handle-Capped m text (quiet b) (Reaches-Capped b calls h).0,
  step-Planned b (handle m text (quiet b)) calls (handle-Turns m text (quiet b))
      (Reaches-SingleFlight b calls h) (handle-busy_role m text (quiet b))
      (Reaches-Capped b calls h).1,
)
Reaches-Capped _ _ (file m path name caption b calls h) = (
  handle_incoming_file-Capped m path name caption (quiet b) (Reaches-Capped b calls h).0,
  step-Planned b (handle_incoming_file m path name caption (quiet b)) calls
      (handle_incoming_file-Turns m path name caption (quiet b)) (Reaches-SingleFlight b calls h)
      (λ _. handle_incoming_file-role m path name caption (quiet b)) (Reaches-Capped b calls h).1,
)
Reaches-Capped _ _ (finish call rt r before after b h) = (
  complete-Capped call rt r (quiet b) (Reaches-Capped b (before ++ call ∷ after) h).0
      (Planned-at b before after call (Reaches-Capped b (before ++ call ∷ after) h).1),
  rw (rest_empty b before after call (Reaches-SingleFlight b (before ++ call ∷ after) h)) tt,
)
