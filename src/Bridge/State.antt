-- ===== src/Bridge/State.antt =====
-- internal/bridge/bridge.go, comp.go and aliases.go: the state of one user's session, and what the
-- handlers do to the world outside. A message with a fixed wording is named for what it says.
use zcoms_agent.Prelude.{ℕ, Bool, List, [], ◌∷◌, ◌++◌}
use zcoms_agent.Prelude.Text.{Text}
use zcoms_agent.Prelude.Int.{ℤ}
use zcoms_agent.Runner.Roles.{Role, AllowEntry}
use zcoms_agent.Runner.Agents.{Backend}
use zcoms_agent.Runner.Locations.{Locations}

pub record Route : Type 0 where
  pub transport : Text
  pub address : Text

pub record Session : Type 0 where
  pub id : Text
  pub title : Text

-- The part of a recipient of the last triage batch that routing reads.
pub record Recipient : Type 0 where
  pub index : ℕ
  pub source : Text
  pub name : Text
  pub tg_chat : ℤ
  pub wa_chat : Text

-- pendingKind: "", "location" or "session".
pub data Menu : Type 0 where
  no_menu location_menu session_menu : Menu

pub record UserState : Type 0 where
  pub username : Text
  pub entry : AllowEntry
  pub transport : Text
  pub address : Text
  pub location : Text
  pub location_path : Text
  pub effective_role : Role
  pub backend : Backend
  pub force_backend : Backend
  pub session_id : Text
  pub pending_kind : Menu
  pub pending_loc : List Text
  pub pending_sess : List Session
  pub pending_files : List Text
  pub busy : Bool
  pub awaiting_confirm : Bool
  pub triage_reply : Bool
  pub triage_recipients : List Recipient
  pub triage_seed : Text
  pub triage_session : Bool
  pub team_session : Bool

unfoldable pub route : UserState → Route
route st = record { transport = st.transport; address = st.address }

-- One agent turn that is started: what `runAgent` fixes before it goes to the background.
pub record Call : Type 0 where
  pub backend : Backend
  pub dir : Text
  pub prompt : Text
  pub resume : Text
  pub role : Role
  pub triage_reply : Bool
  pub triage_session : Bool
  pub recipients : List Recipient
  pub await_confirm : Bool

pub data Message : Type 0 where
  -- a text of another component, or of the agent
  relayed : Text → Message
  -- the owner's wording or the compiled one, by its key
  phrase : Text → Message
  failed : Text → Message
  locations_list : List Text → Message
  no_locations : Message
  sessions_list : List Session → Message
  no_sessions : Text → Message
  out_of_range : Menu → Message
  nothing_to_select : Message
  location_picked : Text → Text → Role → Message
  resuming : Text → Message
  new_session : Text → Message
  detached cancelled planning working : Message
  no_backend_installed no_output turn_failed plan_ready : Message
  status : Role → Text → Text → Message
  help : Role → Message
  chat_on : Text → Role → Message
  triage_on : Bool → ℕ → Message
  no_batch triage_cleared : Message
  file_missing file_saved file_working : Message

pub data Effect : Type 0 where
  send : Route → Message → Effect
  start : Call → Effect
  save_triage_session : Text → Effect

-- A handler reads and writes the bridge: the locations it has loaded, the session, and its effects
-- in the order in which they happen.
pub record Bridge : Type 0 where
  pub locations : Locations
  pub user : UserState
  pub effects : List Effect

unfoldable pub emit : Effect → Bridge → Bridge
emit e b = record b { effects = b.effects ++ e ∷ [] }

-- send(st.route(), text)
unfoldable pub reply : Message → Bridge → Bridge
unfolding emit route
reply m b = emit (send (route b.user) m) b

unfoldable pub set_user : (UserState → UserState) → Bridge → Bridge
set_user f b = record b { user = f b.user }
