-- ===== src/Witnesses/Stored.antt =====
-- The theorems about internal/store at concrete tables and requests.
use zcoms_agent.Prelude.{true, false, List, [], ◌∷◌, none, some, ◌≡◌, refl}
use zcoms_agent.Prelude.Text.{codes}
use zcoms_agent.Store.Types.{
  Caller, owner, agent, forbidden, empty_database, AllowEntry, Workspace, err,
}
use zcoms_agent.Store.Db.{World, ◌>>=◌}
use zcoms_agent.Store.Checks.{require_owner}
use zcoms_agent.Store.Workspaces
use zcoms_agent.Store.Requests.{Write, perform, perform_all, by_agent}
use zcoms_agent.Store.Guard.{SameJewels}
use zcoms_agent.Store.Guard.Requests.{agent_requests-SameJewels}
use zcoms_agent.Store.WellFormed.{IsWellFormed, empty-IsWellFormed}
use zcoms_agent.Store.WellFormed.Requests.{requests-IsWellFormed}
use zcoms_agent.Store.Atomic.Writes.{failed_write_unchanged}

abbrev capped_workspace : Workspace
capped_workspace = record {
  id = 1;
  path = codes "/srv/shop";
  name = codes "shop";
  max_role = codes "read";
  discovered = true;
  present = true;
  ignored = false;
  pinned = false;
}

abbrev one_workspace : World
one_workspace = record {
  db = record empty_database { workspaces = capped_workspace ∷ [] };
  faults = [];
  time = codes "2025-01-02T03:04:05Z";
}

abbrev empty_world : World
empty_world = record {
  db = empty_database;
  faults = false ∷ false ∷ true ∷ [];
  time = codes "2025-01-02T03:04:05Z";
}

abbrev friend : AllowEntry
friend = record {
  id = 0;
  platform = codes "telegram";
  handle = codes "@ada";
  max_role = codes "edit";
}

-- A prompt-injected agent tries to lift the cap, to list itself, and to rename the workspace.
abbrev injected : List Write
injected =
    Write.update_workspace 1 none (some (codes "full")) none none
    ∷ Write.create_allow friend
    ∷ Write.update_workspace 1 (some (codes "store")) none (some true) none
    ∷ []

abbrev owner_requests : List (Caller × Write)
owner_requests =
    (owner, Write.create_allow friend)
    ∷ (owner, Write.create_allow friend)
    ∷ (agent, Write.upsert_discovered (codes "/srv/shop") (codes "shop"))
    ∷ (agent, Write.set_label 1 (codes "claude") (codes "abc") (codes "cart"))
    ∷ []

agent_requests-SameJewels_example :
    SameJewels one_workspace.db (perform_all (by_agent injected) one_workspace).db
agent_requests-SameJewels_example = agent_requests-SameJewels injected one_workspace

requests-IsWellFormed_example : IsWellFormed (perform_all owner_requests empty_world).db
requests-IsWellFormed_example = requests-IsWellFormed owner_requests empty_world empty-IsWellFormed

lift_is_forbidden :
    (perform agent (Write.update_workspace 1 none (some (codes "full")) none none) one_workspace).0
    ≡ err (forbidden agent (codes "workspace max_role"))
unfolding perform Workspaces.update_workspace ◌>>=◌ require_owner
lift_is_forbidden = refl

failed_write_unchanged_example :
    (perform agent
      (Write.update_workspace 1 none (some (codes "full")) none none)
      one_workspace).1.db
    ≡ one_workspace.db
failed_write_unchanged_example =
    failed_write_unchanged agent (Write.update_workspace 1 none (some (codes "full")) none none)
      one_workspace (forbidden agent (codes "workspace max_role")) (λ sweep. sweep)
      lift_is_forbidden
