-- ===== src/Runner/Agents.antt =====
-- internal/runner/agents.go and the backends of runner.go: which agent CLI handles which task.
-- Which CLIs are installed is the machine's, so `installed` (exec.LookPath) is a parameter.
pub mod Choice
use zcoms_agent.Prelude.{
  ℕ, Bool, true, false, not, List, [], ◌∷◌, ◌++◌, Option, none, some, if◌then◌else◌,
}
use zcoms_agent.Prelude.Text.{Text, codes, text_eq}

abbrev pub Backend : Type 0
Backend = Text

abbrev pub backend_claude : Backend
backend_claude = codes "claude"

abbrev pub backend_codex : Backend
backend_codex = codes "codex"

abbrev pub no_backend : Backend
no_backend = codes ""

-- Every backend but codex is claude.
unfoldable pub normalize : Backend → Backend
normalize b = if text_eq b backend_codex then backend_codex else backend_claude

pub record AgentConfig : Type 0 where
  pub default : Backend
  pub tasks : List (Text × Backend)

abbrev pub is_set : Backend → Bool
is_set b = not (text_eq b no_backend)

unfoldable pub task_backend : Text → List (Text × Backend) → Option Backend
task_backend task [] = none
task_backend task ((t, b) ∷ tasks) = if text_eq t task then some b else task_backend task tasks

-- IsSessionType
unfoldable pub is_session_type : List Text → Text → Bool
is_session_type [] s = false
is_session_type (t ∷ types) s = if text_eq t s then true else is_session_type types s

abbrev pub session_types : List Text
session_types =
    codes "bridge"
    ∷ codes "triage"
    ∷ codes "errands"
    ∷ codes "reminders"
    ∷ codes "morning"
    ∷ codes "reschedule"
    ∷ []

abbrev given : Backend → List Backend
given b = if is_set b then b ∷ [] else []

abbrev given_task : Option Backend → List Backend
given_task none = []
given_task (some b) = given b

-- The candidates of For, in the order of precedence.
unfoldable pub candidates : AgentConfig → Text → Backend → List Backend
candidates c task override =
    given override
    ++ (if is_set task then given_task (task_backend task c.tasks) else [])
    ++ given c.default
    ++ backend_claude ∷ backend_codex ∷ []

module _ (installed : Text → Bool) where
  -- AgentAvailable
  unfoldable pub agent_available : Backend → Bool
  unfolding normalize
  agent_available b = installed (normalize b)

  -- AvailableAgents
  unfoldable pub available_agents : List Backend
  unfolding agent_available
  available_agents =
      (if agent_available backend_claude then backend_claude ∷ [] else [])
      ++ (if agent_available backend_codex then backend_codex ∷ [] else [])

  -- DefaultAgent
  unfoldable pub default_agent : Backend
  unfolding agent_available
  default_agent =
      if agent_available backend_claude
      then backend_claude
      else if agent_available backend_codex
      then backend_codex
      else no_backend

  unfoldable pub first_available : List Backend → Backend
  unfolding agent_available
  first_available [] = no_backend
  first_available (b ∷ bs) = if agent_available b then normalize b else first_available bs

  -- For
  unfoldable pub agent_for : AgentConfig → Text → Backend → Backend
  unfolding first_available candidates
  agent_for c task override = first_available (candidates c task override)
