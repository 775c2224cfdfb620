-- ===== src/Witnesses/Chatting.antt =====
-- The theorems about internal/bridge in one conversation: a user with the role `full` picks a location
-- that is capped to `confirm`, and asks for a change.
use zcoms_agent.Prelude.{Bool, true, [], ◌∷◌, ◌++◌, none, some, inr, ◌≡◌, ◌≢◌, ◌<◌, refl, arith}
use zcoms_agent.Prelude.Text.{codes, text_eq, to_lower, has_prefix}
use zcoms_agent.Runner.Roles.{
  AllowEntry, allows_location, role_full, role_confirm, role_read, valid_role, rank,
  permission_args,
}
use zcoms_agent.Runner.Roles.Caps.{power}
use zcoms_agent.Runner.Agents.{backend_claude, agent_for, task_backend}
use zcoms_agent.Runner.Locations.{location_of}
use zcoms_agent.Bridge.Forwards.{
  is_errand_command, is_remind_command, is_events_command, is_team_command, is_commerce_command,
}
use zcoms_agent.Bridge.Sessions.{first_contact}
use zcoms_agent.Store.Checks.{role_ok}
use zcoms_agent.Store.Types.{valid_roles}
use zcoms_agent.Bridge.State.{Bridge, Call, Route}
use zcoms_agent.Bridge.Runs.{
  Machine, RunResult, not_running, complete, call_of, turn_prompt, take_turn, turn_flags,
  turn_backend,
}
use zcoms_agent.Bridge.Menus.{effective_role, list_locations}
use zcoms_agent.Bridge.Handle.{handle}
use zcoms_agent.Bridge.Turns.{started, Turns, says_yes}
use zcoms_agent.Bridge.Turns.Messages.{handle-Turns}
use zcoms_agent.Bridge.Turns.Flight.{
  Reaches, fresh, message, finish, quiet, contacted, SingleFlight, Reaches-SingleFlight,
}
use zcoms_agent.Bridge.Ceiling.{Capped}
use zcoms_agent.Bridge.Approved.{Planned, Reaches-Capped}
use zcoms_agent.Bridge.Approved.Above.{IsAsking, approved-above_ceiling}
use zcoms_agent.Bridge.StoredCaps.{stored_cap}

abbrev machine : Machine
machine = record {
  installed = λ b. true;
  agents = record { default = backend_claude; tasks = [] };
  chat_backend = backend_claude;
  triage_backend = backend_claude;
  main_user = codes "@owner";
  persona_seed = λ key. codes "";
  reload = some ((codes "shop", record { path = codes "/srv/shop"; max_role = role_confirm }) ∷ []);
  list_sessions = λ agent path. inr [];
  home = none;
  triage_dir = codes "/tmp";
  triage_batch = inr [];
  brain_id = codes "";
  build_triage_seed = λ recipients. codes "";
  reset_error = none;
  copy_error = λ path rel. none;
  errands = λ text. codes "";
  reminders = none;
  events = none;
  team = λ text user. not_running;
  commerce = λ text user. codes "";
}

abbrev entry : AllowEntry
entry = record { role = role_full; locations = codes "*" ∷ []; agent = codes "" }

abbrev at_start : Bridge
at_start = contacted machine [] (codes "@ada") entry (codes "telegram") (codes "42")

abbrev at_menu : Bridge
at_menu = handle machine (codes "locations") (quiet at_start)

abbrev at_shop : Bridge
at_shop = handle machine (codes "1") (quiet at_menu)

abbrev planning : Bridge
planning = handle machine (codes "fix the cart") (quiet at_shop)

abbrev plan_call : Call
plan_call =
    call_of machine (take_turn at_shop.user)
      (turn_prompt machine at_shop.user (codes "fix the cart")) role_read true

abbrev answered : RunResult
answered = record { session_id = codes "s1"; text = codes "1. change the total"; error = none }

abbrev chat : Route
chat = record { transport = codes "telegram"; address = codes "42" }

abbrev planned : Bridge
planned = complete plan_call chat answered (quiet planning)

entry_is_valid : valid_role entry.role ≡ true
unfolding valid_role rank text_eq
entry_is_valid = refl

Reaches-planning :
    Reaches planning
      ((([] ++ started at_menu.effects) ++ started at_shop.effects) ++ started planning.effects)
Reaches-planning = message machine (codes "fix the cart") at_shop _ (
    message machine (codes "1") at_menu _ (
      message machine (codes "locations") at_start _
        (fresh machine [] (codes "@ada") (codes "telegram") (codes "42") entry entry_is_valid)))

one_call :
    (([] ++ started at_menu.effects) ++ started at_shop.effects) ++ started planning.effects
    ≡ [] ++ plan_call ∷ []
unfolding handle started is_errand_command text_eq to_lower has_prefix is_remind_command
    is_events_command first_contact is_team_command is_commerce_command list_locations
    allows_location agent_for task_backend location_of
one_call = refl

Reaches-planned : Reaches planned []
Reaches-planned = finish plan_call chat answered [] [] planning (rw one_call at Reaches-planning)

planned_asks : IsAsking machine planned
unfolding handle started is_errand_command text_eq to_lower has_prefix is_remind_command
    is_events_command first_contact is_team_command is_commerce_command list_locations
    allows_location agent_for task_backend location_of complete turn_backend
planned_asks = record { awaiting = refl; idle = refl; alone = refl; placed = refl; runnable = refl }

handle-Turns_example : Turns (says_yes (codes "fix the cart")) (quiet at_shop) planning
handle-Turns_example = handle-Turns machine (codes "fix the cart") (quiet at_shop)

Reaches-SingleFlight_example :
    SingleFlight planning
      ((([] ++ started at_menu.effects) ++ started at_shop.effects) ++ started planning.effects)
Reaches-SingleFlight_example =
    Reaches-SingleFlight planning
      ((([] ++ started at_menu.effects) ++ started at_shop.effects) ++ started planning.effects)
      Reaches-planning

Reaches-Capped_example : Capped planned.user × Planned planned []
Reaches-Capped_example = Reaches-Capped planned [] Reaches-planned

approved-above_ceiling_example :
    (call : Call) × (started (handle machine (codes "yes") (quiet planned)).effects ≡ call ∷ [])
    × ((there : Bool)
        → power (permission_args planned.user.effective_role) < power (turn_flags there call))
approved-above_ceiling_example =
    approved-above_ceiling machine planned [] Reaches-planned planned_asks

read_is_accepted : role_ok (codes "READ") ≡ true
unfolding role_ok text_eq to_lower valid_roles
read_is_accepted = refl

read_is_named : codes "READ" ≢ codes ""
read_is_named e = ground arith

stored_cap_example :
    (to_lower (codes "READ") ≡ codes "READ" → valid_role (codes "READ") ≡ true)
    × (to_lower (codes "READ") ≢ codes "READ" → effective_role role_full (codes "READ") ≡ role_full)
stored_cap_example = stored_cap role_full (codes "READ") read_is_accepted read_is_named
