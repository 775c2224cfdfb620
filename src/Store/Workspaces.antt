-- ===== src/Store/Workspaces.antt =====
-- internal/store/workspaces.go: the directories that an agent may run in. Discovery owns the rows;
-- callers change the name, the cap and the two flags.
use zcoms_agent.Prelude.{
  ℕ, Bool, true, false, not, Option, none, some, List, [], ◌∷◌, ◌&&◌, ◌==◌, if◌then◌else◌,
}
use zcoms_agent.Prelude.Text.{Text, codes, text_eq, text_le}
use zcoms_agent.Store.Types.{Caller, no_row, Workspace, ok}
use zcoms_agent.Store.Db.{Db, pure, fail, query, statement, ◌>>=◌, ◌>>◌}
use zcoms_agent.Store.Rows.{select, find, exists, update, insert, next_id, order_by}
use zcoms_agent.Store.Checks.{require_owner, validate_role, require_row, when}

abbrev pub has_id : ℕ → Workspace → Bool
has_id i w = w.id == i

abbrev pub has_path : Text → Workspace → Bool
has_path p w = text_eq w.path p

-- ORDER BY pinned DESC, COALESCE(name, path): every row has a name.
abbrev pub listed_le : Workspace → Workspace → Bool
listed_le a b =
    if a.pinned
    then (if b.pinned then text_le a.name b.name else true)
    else if b.pinned
    then false
    else text_le a.name b.name

-- WHERE ignored=0 AND present=1, unless hidden rows are wanted.
abbrev pub is_listed : Bool → Workspace → Bool
is_listed include_hidden w = if include_hidden then true else not w.ignored && w.present

unfoldable pub list_workspaces : Bool → Db (List Workspace)
list_workspaces include_hidden =
    query (λ db. order_by listed_le (select (is_listed include_hidden) db.workspaces))

abbrev found_or : ℕ → Option Workspace → Db Workspace
found_or i none = fail (no_row (codes "workspace") i)
found_or i (some w) = pure w

unfoldable pub get_workspace : ℕ → Db Workspace
get_workspace i = do found ← query (λ db. find (has_id i) db.workspaces); found_or i found

unfoldable pub get_workspace_by_path : Text → Db (Option Workspace)
get_workspace_by_path p = query (λ db. find (has_path p) db.workspaces)

-- The check of the cap comes before any other work.
abbrev pub check_cap : Caller → Option Text → Db (Unit {0})
check_cap c none = pure tt
check_cap c (some role) = do require_owner c (codes "workspace max_role"); validate_role role

abbrev pub or_else {ℓ} : {A : Type ℓ} → Option A → A → A
or_else none a = a
or_else (some b) a = b

abbrev pub is_given {ℓ} : {A : Type ℓ} → Option A → Bool
is_given none = false
is_given (some _) = true

-- The columns of the SET clause: those whose argument is given.
abbrev pub augmented : Option Text → Option Text → Option Bool → Option Bool → Workspace → Workspace
augmented name max_role pinned ignored w = record w {
  name = or_else name w.name;
  max_role = or_else max_role w.max_role;
  ignored = or_else ignored w.ignored;
  pinned = or_else pinned w.pinned;
}

abbrev pub nothing_given : Option Text → Option Text → Option Bool → Option Bool → Bool
nothing_given name max_role pinned ignored =
    not (is_given name)
    && not (is_given max_role)
    && not (is_given pinned)
    && not (is_given ignored)

unfoldable pub update_workspace :
    Caller → ℕ → Option Text → Option Text → Option Bool → Option Bool → Db (Unit {0})
update_workspace c i name max_role pinned ignored = do
  check_cap c max_role
  when (not (nothing_given name max_role pinned ignored)) do
    met ← statement (λ db. (
      ok (exists (has_id i) db.workspaces),
      record db {
        workspaces = update (has_id i) (augmented name max_role pinned ignored) db.workspaces;
      },
    ))
    require_row met (no_row (codes "workspace") i)

unfoldable pub set_ignored : Caller → ℕ → Bool → Db (Unit {0})
set_ignored c i ignored = update_workspace c i none none none (some ignored)

abbrev pub discovered_row : ℕ → Text → Text → Workspace
discovered_row i path name = record {
  id = i;
  path = path;
  name = name;
  max_role = codes "";
  discovered = true;
  present = true;
  ignored = false;
  pinned = false;
}

abbrev pub upsert_seen : Text → Text → Option Workspace → Db (Unit {0})
upsert_seen path name (some w) = statement (λ db. (
  ok tt,
  record db { workspaces = update (has_id w.id) (λ r. record r { present = true }) db.workspaces },
))
upsert_seen path name none = statement (λ db. (
  ok tt,
  record db {
    workspaces =
        insert (discovered_row (next_id (λ r. r.id) db.workspaces) path name) db.workspaces;
  },
))

unfoldable pub upsert_discovered : Text → Text → Db (Unit {0})
upsert_discovered path name = do found ← get_workspace_by_path path; upsert_seen path name found

unfoldable pub mem_text : Text → List Text → Bool
mem_text p [] = false
mem_text p (q ∷ paths) = if text_eq q p then true else mem_text p paths

-- The rows that are marked present and whose path the scan has not met.
abbrev pub is_gone : List Text → Workspace → Bool
is_gone paths w = w.present && not (mem_text w.path paths)

unfoldable pub mark_gone : List Workspace → Db (Unit {0})
mark_gone [] = pure tt
mark_gone (w ∷ gone) = do
  statement (λ db. (
    ok tt,
    record db {
      workspaces = update (has_id w.id) (λ r. record r { present = false }) db.workspaces;
    },
  ))
  mark_gone gone

unfoldable pub mark_absent : List Text → Db (Unit {0})
mark_absent paths = do gone ← query (λ db. select (is_gone paths) db.workspaces); mark_gone gone
