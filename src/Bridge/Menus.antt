-- ===== src/Bridge/Menus.antt =====
-- internal/bridge/bridge.go and triagereply.go: the numbered menus, and the commands that move a
-- session to another place.
use zcoms_agent.Prelude.{
  zero, suc, true, false, List, [], ◌∷◌, Option, none, some, ◌⊎◌, inl, inr, if◌then◌else◌, is_empty,
  get_elem?, length,
}
use zcoms_agent.Prelude.Text.{Text, codes, text_eq, trim_space}
use zcoms_agent.Prelude.Int.{ℤ, pos, negsuc}
use zcoms_agent.Runner.Roles.{Role, valid_role, min_role, allows_location, role_read}
use zcoms_agent.Runner.Agents.{agent_for, no_backend}
use zcoms_agent.Runner.Locations.{LocationConfig, Locations, location_of, sorted_names}
use zcoms_agent.Bridge.State.{
  Session, Recipient, no_menu, location_menu, session_menu, UserState, failed, phrase,
  locations_list, no_locations, sessions_list, no_sessions, out_of_range, nothing_to_select,
  location_picked, resuming, new_session, detached, chat_on, triage_on, no_batch, triage_cleared,
  Bridge, reply, set_user,
}
use zcoms_agent.Bridge.Runs.{Machine, run_agent}

abbrev pub reload : Option Locations → Bridge → Bridge
reload none b = b
reload (some locations) b = record b { locations = locations }

unfoldable pub allowed_names : UserState → List Text → List Text
allowed_names st [] = []
allowed_names st (n ∷ names) =
    let rest = allowed_names st names in if allows_location st.entry n then n ∷ rest else rest

abbrev pub offer_locations : List Text → Bridge → Bridge
offer_locations allowed b =
    if is_empty allowed
    then reply no_locations b
    else reply (locations_list allowed) (
        set_user
          (λ st. record st {
            pending_kind = location_menu;
            pending_loc = allowed;
            pending_sess = [];
          })
          b)

-- listLocations
unfoldable pub list_locations : Machine → Bridge → Bridge
unfolding reply set_user allowed_names sorted_names
list_locations m b =
    let loaded = reload m.reload b in
    offer_locations (allowed_names loaded.user (sorted_names loaded.locations)) loaded

abbrev pub offer_sessions : Text ⊎ List Session → Bridge → Bridge
offer_sessions (inl e) b = reply (failed e) b
offer_sessions (inr []) b = reply (no_sessions b.user.location) b
offer_sessions (inr (s ∷ sessions)) b = reply (sessions_list (s ∷ sessions)) (
    set_user
      (λ st. record st {
        pending_kind = session_menu;
        pending_sess = s ∷ sessions;
        pending_loc = [];
      })
      b)

-- listSessions
unfoldable pub list_sessions : Machine → Bridge → Bridge
unfolding reply set_user
list_sessions m b =
    if text_eq b.user.location (codes "")
    then reply (phrase (codes "location_gate")) b
    else offer_sessions (m.list_sessions b.user.entry.agent b.user.location_path) b

-- The user's role under the ceiling of a location: a ceiling that is no role is ignored.
unfoldable pub effective_role : Role → Role → Role
unfolding valid_role min_role
effective_role role cap = if valid_role cap then min_role role cap else role

-- The n-th entry of a menu, from 1; none when n is out of range.
unfoldable pub picked {ℓ} : {A : Type ℓ} → ℤ → List A → Option A
picked (negsuc n) xs = none
picked (pos zero) xs = none
picked (pos (suc n)) xs = get_elem? xs n

abbrev pub at_location : Machine → Text → LocationConfig → Role → UserState → UserState
at_location m name config role st = record st {
  location = name;
  location_path = config.path;
  effective_role = role;
  session_id = codes "";
  pending_kind = no_menu;
  awaiting_confirm = false;
  backend = agent_for m.installed m.agents (codes "workspace") st.entry.agent;
  force_backend = no_backend;
  triage_seed = m.persona_seed (codes "workspace");
}

abbrev pub enter : Machine → Text → LocationConfig → Role → Bridge → Bridge
enter m name config role b =
    reply (location_picked name config.path role) (set_user (at_location m name config role) b)

unfoldable pub pick_location : Machine → Option Text → Bridge → Bridge
unfolding reply set_user effective_role
pick_location m none b = reply (out_of_range location_menu) b
pick_location m (some name) b =
    let config = location_of name b.locations in
    enter m name config (effective_role b.user.entry.role config.max_role) b

abbrev pub summary_prompt : Text
summary_prompt =
    codes
      "Briefly summarize in 2-4 sentences what we were last working on in this conversation and what the current state / next step is. Don't take any actions."

unfoldable pub pick_session : Machine → Option Session → Bridge → Bridge
unfolding reply set_user run_agent
pick_session m none b = reply (out_of_range session_menu) b
pick_session m (some s) b =
    (run_agent m summary_prompt role_read false (
      reply (resuming s.title) (
        set_user
          (λ st. record st { session_id = s.id; pending_kind = no_menu; triage_seed = codes "" })
          b))).0

-- selectNumber
unfoldable pub select_number : Machine → ℤ → Bridge → Bridge
unfolding picked pick_location pick_session
select_number m n b = elim b.user.pending_kind [
  | location_menu ↦ pick_location m (picked n b.user.pending_loc) b
  | session_menu ↦ pick_session m (picked n b.user.pending_sess) b
  | no_menu ↦ reply nothing_to_select b
]

abbrev pub home_or : Text → Option Text → Text
home_or other none = other
home_or other (some home) = if text_eq (trim_space home) (codes "") then other else home

-- startChat
unfoldable pub start_chat : Machine → Bridge → Bridge
unfolding reply set_user
start_chat m b =
    let home = home_or m.triage_dir m.home in
    reply (chat_on home b.user.entry.role) (
      set_user
        (λ st. record st {
          location = codes "chat";
          location_path = home;
          effective_role = st.entry.role;
          session_id = codes "";
          pending_kind = no_menu;
          awaiting_confirm = false;
          triage_reply = false;
          triage_session = false;
          triage_recipients = [];
          force_backend = m.chat_backend;
          triage_seed = m.persona_seed (codes "bridge");
        })
        b)

-- startNew
unfoldable pub start_new : Bridge → Bridge
unfolding reply set_user
start_new b =
    reply
      (if text_eq b.user.location (codes "")
        then phrase (codes "location_gate")
        else new_session b.user.location)
      (set_user
        (λ st. record st {
          session_id = codes "";
          pending_kind = no_menu;
          awaiting_confirm = false;
        })
        b)

-- The command `end`
unfoldable pub detach : Bridge → Bridge
unfolding reply set_user
detach b = reply detached (
    set_user
      (λ st. record st {
        session_id = codes "";
        pending_kind = no_menu;
        awaiting_confirm = false;
        triage_reply = false;
        triage_recipients = [];
        triage_seed = codes "";
        triage_session = false;
        force_backend = no_backend;
      })
      b)

abbrev pub in_triage : Machine → List Recipient → UserState → UserState
in_triage m recipients st = record st {
  location = codes "triage";
  location_path = m.triage_dir;
  effective_role = role_read;
  session_id = m.brain_id;
  pending_kind = no_menu;
  awaiting_confirm = false;
  triage_reply = true;
  triage_session = true;
  triage_recipients = recipients;
  triage_seed = m.build_triage_seed recipients;
  force_backend = no_backend;
}

abbrev pub enter_triage : Machine → Text ⊎ List Recipient → Bridge → Bridge
enter_triage m (inl e) b = reply (failed e) b
enter_triage m (inr []) b = reply no_batch b
enter_triage m (inr (r ∷ rs)) b =
    reply (triage_on (text_eq m.brain_id (codes "")) (length (r ∷ rs)))
      (set_user (in_triage m (r ∷ rs)) b)

-- startTriageReply
unfoldable pub start_triage_reply : Machine → Bridge → Bridge
unfolding reply set_user
start_triage_reply m b = enter_triage m m.triage_batch b

abbrev pub out_of_triage : UserState → UserState
out_of_triage st =
    if st.triage_session
    then record st {
      session_id = codes "";
      triage_session = false;
      triage_reply = false;
      triage_recipients = [];
      triage_seed = codes "";
    }
    else st

abbrev pub cleared : Option Text → Bridge → Bridge
cleared (some e) b = reply (failed e) b
cleared none b = reply triage_cleared (set_user out_of_triage b)

-- resetTriageBrain
unfoldable pub reset_triage_brain : Machine → Bridge → Bridge
unfolding reply set_user
reset_triage_brain m b = cleared m.reset_error b
