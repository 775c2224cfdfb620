-- ===== src/Bridge/Turns/Flight.antt =====
-- A session of internal/bridge as a sequence of messages, files and ends of turns, in any order.
-- The end of a turn of interactive triage has other replies and may record several session ids;
-- the fields that matter here are set alike.
use zcoms_agent.Prelude.{
  Bool, true, false, List, [], ◌∷◌, ◌++◌, Option, none, some, ◌⊎◌, inl, inr, ◌≡◌, ◌≢◌, refl, ◌∙◌,
  arith, if-either,
}
use zcoms_agent.Prelude.Text.{Text, codes, text_eq, trim_space}
use zcoms_agent.Runner.Roles.{AllowEntry, valid_role}
use zcoms_agent.Runner.Locations.{Locations}
use zcoms_agent.Bridge.Sessions.{first_contact}
use zcoms_agent.Bridge.State.{UserState, Call, Bridge, Route, emit, set_user}
use zcoms_agent.Bridge.Runs.{Machine, RunResult, complete, record_session, finish_turn, end_turn}
use zcoms_agent.Bridge.Files.{handle_incoming_file}
use zcoms_agent.Bridge.Handle.{handle}
use zcoms_agent.Bridge.Turns.{started, Turns}
use zcoms_agent.Bridge.Turns.Messages.{handle-Turns, handle_incoming_file-Turns}

-- The effects of one step are carried out before the next.
abbrev pub quiet : Bridge → Bridge
quiet b = record b { effects = [] }

-- The session of the first message of an allow-listed user.
abbrev pub contacted : Machine → Locations → Text → AllowEntry → Text → Text → Bridge
contacted m locations handle entry transport address = record {
  locations = locations;
  user = first_contact m handle entry transport address;
  effects = [];
}

-- The sessions that a fresh one reaches, with the turns that are in flight.
pub data Reaches : Bridge → List Call → Type 0 where
  fresh :
      (m : Machine) (locations : Locations) (handle transport address : Text) (entry : AllowEntry)
      → valid_role entry.role ≡ true
      → Reaches (contacted m locations handle entry transport address) []
  message :
      (m : Machine) (text : Text) (b : Bridge) (calls : List Call)
      → Reaches b calls
      → Reaches (handle m text (quiet b)) (calls ++ started (handle m text (quiet b)).effects)
  file :
      (m : Machine) (path name caption : Text) (b : Bridge) (calls : List Call)
      → Reaches b calls
      → Reaches
          (handle_incoming_file m path name caption (quiet b))
          (calls ++ started (handle_incoming_file m path name caption (quiet b)).effects)
  finish :
      (call : Call) (rt : Route) (r : RunResult) (before after : List Call) (b : Bridge)
      → Reaches b (before ++ call ∷ after)
      → Reaches (complete call rt r (quiet b)) (before ++ after)

-- Busy exactly with one turn.
abbrev pub SingleFlight : Bridge → List Call → Type 0
SingleFlight b calls =
    b.user.busy ≡ false × calls ≡ [] ⊎ (b.user.busy ≡ true × ((call : Call) × (calls ≡ call ∷ [])))

Turns-SingleFlight :
    {said : Bool} (b c : Bridge) (calls : List Call)
    → Turns said (quiet b) c
    → SingleFlight b calls
    → SingleFlight c (calls ++ started c.effects)
unfolding started
Turns-SingleFlight b c calls (inl (same, none_new)) (inl (idle, empty)) =
    inl (same ∙ idle, rw (empty, none_new) refl)
Turns-SingleFlight b c calls (inl (same, none_new)) (inr (busy, (call, one))) =
    inr (same ∙ busy, (call, rw (one, none_new) refl))
Turns-SingleFlight b c calls (inr (idle, busy, kept, (call, one, bound))) (inl (_, empty)) =
    inr (busy, (call, rw (empty, one) refl))
Turns-SingleFlight b c calls (inr (idle, busy, kept, (call, one, bound))) (inr (is_busy, _)) =
    ground arith

record_session-busy :
    (call : Call) (r : RunResult) (b : Bridge) → (record_session call r b).user.busy ≡ b.user.busy
unfolding record_session set_user emit
record_session-busy call r b =
    if-either (λ (c : Bridge). c.user.busy ≡ b.user.busy) (text_eq r.session_id (codes "")) _ _
      (λ _. refl)
      (λ _.
        if-either (λ (c : Bridge). c.user.busy ≡ b.user.busy) call.triage_session _ _ (λ _. refl)
          (λ _. refl))

-- The end of a turn frees the session, whatever its outcome.
complete-idle :
    (call : Call) (rt : Route) (r : RunResult) (b : Bridge)
    → (complete call rt r b).user.busy ≡ false
unfolding complete set_user emit
complete-idle call rt r b = by_error r.error (record_session call r b)
  where
    freed : (await : Bool) (st : UserState) → (end_turn await st).busy ≡ false
    freed true st = refl
    freed false st = refl

    by_error : (e : Option Text) (c : Bridge) → (finish_turn call rt r e c).user.busy ≡ false
    by_error none c =
        if-either (λ (d : Bridge). d.user.busy ≡ false) (text_eq (trim_space r.text) (codes "")) _ _
          (λ _. freed call.await_confirm c.user)
          (λ _.
            if-either (λ (d : Bridge). d.user.busy ≡ false) call.await_confirm _ _
              (λ _. freed call.await_confirm c.user) (λ _. freed call.await_confirm c.user))
    by_error (some e) c =
        if-either (λ (d : Bridge). d.user.busy ≡ false) (text_eq r.text (codes "")) _ _ (λ _. refl)
          (λ _. refl)

-- The turn that ends was the only one.
not_empty : (before after : List Call) (call : Call) → before ++ call ∷ after ≢ []
not_empty [] after call = λ e. ground arith
not_empty (x ∷ before) after call = λ e. ground arith

pub rest_empty :
    (b : Bridge) (before after : List Call) (call : Call)
    → SingleFlight b (before ++ call ∷ after)
    → before ++ after ≡ []
rest_empty b before after call (inl (_, empty)) = absurd (not_empty before after call empty)
rest_empty b [] after call (inr (_, (only, one))) = ground arith
rest_empty b (x ∷ before) after call (inr (_, (only, one))) =
    absurd (not_empty before after call (ground arith))

-- In every session that is reached from a first contact with a valid role, in whatever order
-- messages, files and ends of turns come, the session is busy exactly when a turn is in flight,
-- and at most one is.
pub Reaches-SingleFlight : (b : Bridge) (calls : List Call) → Reaches b calls → SingleFlight b calls
unfolding first_contact
Reaches-SingleFlight _ _ (fresh m locations handle transport address entry is_role) =
    inl (refl, refl)
Reaches-SingleFlight _ _ (message m text b calls h) =
    Turns-SingleFlight b (handle m text (quiet b)) calls (handle-Turns m text (quiet b))
      (Reaches-SingleFlight b calls h)
Reaches-SingleFlight _ _ (file m path name caption b calls h) =
    Turns-SingleFlight b (handle_incoming_file m path name caption (quiet b)) calls
      (handle_incoming_file-Turns m path name caption (quiet b)) (Reaches-SingleFlight b calls h)
Reaches-SingleFlight _ _ (finish call rt r before after b h) = inl (
  complete-idle call rt r (quiet b),
  rest_empty b before after call (Reaches-SingleFlight b (before ++ call ∷ after) h),
)
