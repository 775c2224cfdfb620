-- ===== src/Agentd/Adapter.antt =====
-- internal/agentd/adapter.go: the tables of the store as the runner and the bridge read them.
pub mod Listed
use zcoms_agent.Prelude.{Bool, List, [], ◌∷◌, Option, none, some, if◌then◌else◌}
use zcoms_agent.Prelude.Text.{Text, codes, text_eq}
use zcoms_agent.Store.Types
use zcoms_agent.Store.Types.{Workspace, Persona}
use zcoms_agent.Runner.Roles.{AllowEntry, Role, role_read}
use zcoms_agent.Runner.AllowKeys.{allow_key}
use zcoms_agent.Runner.Agents.{Backend, AgentConfig}
use zcoms_agent.Runner.Locations.{LocationConfig, Locations}
use zcoms_agent.Bridge.Sessions.{set_at}

-- The role of a listed user: read where the table has none.
unfoldable pub role_or_read : Text → Role
role_or_read r = if text_eq r (codes "") then role_read else r

unfoldable pub allow_entry : Types.AllowEntry → AllowEntry
unfolding role_or_read
allow_entry e = record {
  role = role_or_read e.max_role;
  locations = codes "*" ∷ [];
  agent = codes "";
}

unfoldable pub row_key : Types.AllowEntry → Text
unfolding allow_key
row_key e = allow_key e.platform e.handle

-- buildAllow, over the rows of ListAllow: a later row of the same key takes the place of an earlier.
unfoldable pub build_allow :
    List Types.AllowEntry → List (Text × AllowEntry) → List (Text × AllowEntry)
unfolding set_at allow_entry row_key
build_allow [] out = out
build_allow (e ∷ entries) out = build_allow entries (set_at (row_key e) (allow_entry e) out)

abbrev name_or_path : Workspace → Text
name_or_path w = if text_eq w.name (codes "") then w.path else w.name

-- buildLocations, over the rows of ListWorkspaces.
unfoldable pub build_locations : List Workspace → Locations → Locations
unfolding set_at
build_locations [] out = out
build_locations (w ∷ ws) out =
    build_locations ws
      (set_at (name_or_path w) (record { path = w.path; max_role = w.max_role }) out)

-- The tasks of buildAgents, over the rows of ListPersonas; the default stays empty.
unfoldable pub build_tasks : List Persona → List (Text × Backend) → List (Text × Backend)
unfolding set_at
build_tasks [] out = out
build_tasks (p ∷ ps) out = build_tasks ps (set_at p.key p.backend out)

unfoldable pub build_agents : List Persona → AgentConfig
unfolding build_tasks
build_agents ps = record { default = codes ""; tasks = build_tasks ps [] }
