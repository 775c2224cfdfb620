-- ===== src/Store/Guard.antt =====
-- The data of internal/store that the guard on the caller is for, and how statements change it.
pub mod Requests
use zcoms_agent.Prelude.{
  ℕ, Bool, Option, none, some, List, [], ◌∷◌, map, ◌≡◌, refl, ap, ◌∙◌, arith, inl, inr, Bool-cases,
}
use zcoms_agent.Prelude.Text.{Text, codes, text_eq}
use zcoms_agent.Store.Types.{agent, Database, Workspace, TriageGroup, ok, Session, Reminder}
use zcoms_agent.Store.Db.{World, now, statement, ◌>>=◌}
use zcoms_agent.Store.Rows.{find, exists, update, insert}
use zcoms_agent.Store.Workspaces.{
  has_id, has_path, augmented, update_workspace, set_ignored, upsert_discovered, upsert_seen,
  mark_absent, mark_gone, get_workspace_by_path,
}
use zcoms_agent.Store.Sessions
use zcoms_agent.Store.Settings
use zcoms_agent.Store.Allow
use zcoms_agent.Store.Personas
use zcoms_agent.Store.Triage
use zcoms_agent.Store.Reminders
use zcoms_agent.Store.Requests.{Write, perform, perform_all, by_agent}
use zcoms_agent.Store.Preserves.{
  Preserves, IsPreorder, preserves_rules, Preserves-agent, Preserves-agent_twice,
  Preserves-statement, Preserves-bind, Preserves-then,
}

-- What the owner decides of a triage group: all but the time of its last run.
abbrev pub definition : TriageGroup → TriageGroup
definition g = record g { last_run_at = codes "" }

abbrev pub cap_of : Option Workspace → Option Text
cap_of none = none
cap_of (some w) = some w.max_role

-- The cap of the workspace at a path.
abbrev pub cap_at : Text → List Workspace → Option Text
cap_at p rows = cap_of (find (has_path p) rows)

pub record SameJewels (a b : Database) : Type 0 where
  pub settings : a.settings ≡ b.settings
  pub allowlist : a.allowlist ≡ b.allowlist
  pub personas : a.personas ≡ b.personas
  pub groups : map definition a.groups ≡ map definition b.groups
  pub sources : a.sources ≡ b.sources
  pub caps : (p c : Text) → cap_at p a.workspaces ≡ some c → cap_at p b.workspaces ≡ some c

pub SameJewels-IsPreorder : IsPreorder SameJewels
SameJewels-IsPreorder = record {
  same = λ db. record {
    settings = refl;
    allowlist = refl;
    personas = refl;
    groups = refl;
    sources = refl;
    caps = λ p c h. h;
  };
  then_ = λ s t. record {
    settings = s.settings ∙ t.settings;
    allowlist = s.allowlist ∙ t.allowlist;
    personas = s.personas ∙ t.personas;
    groups = s.groups ∙ t.groups;
    sources = s.sources ∙ t.sources;
    caps = λ p c h. t.caps p c (s.caps p c h);
  };
}

-- A change of rows that leaves path and cap alone leaves every cap.
pub cap_at-update :
    (test : Workspace → Bool) (change : Workspace → Workspace)
    → ((w : Workspace) → (change w).path ≡ w.path)
    → ((w : Workspace) → (change w).max_role ≡ w.max_role)
    → (p : Text) (rows : List Workspace) → cap_at p (update test change rows) ≡ cap_at p rows
unfolding find update
cap_at-update test change hp hr p [] = refl
cap_at-update test change hp hr p (w ∷ rows) =
    ground (arith, hp w, hr w, cap_at-update test change hp hr p rows)

pub cap_at-insert :
    (p c : Text) (w : Workspace) (rows : List Workspace)
    → cap_at p rows ≡ some c
    → cap_at p (insert w rows) ≡ some c
unfolding find
cap_at-insert p c w [] h = cc
cap_at-insert p c w (v ∷ rows) h = elim (Bool-cases (text_eq v.path p)) [
  | inl here ↦ rw here (rw here at h)
  | inr below ↦ rw below (cap_at-insert p c w rows (rw below at h))
]

pub update-caps :
    (db : Database) (test : Workspace → Bool) (change : Workspace → Workspace)
    → ((w : Workspace) → (change w).path ≡ w.path)
    → ((w : Workspace) → (change w).max_role ≡ w.max_role)
    → SameJewels db (record db { workspaces = update test change db.workspaces })
update-caps db test change hp hr = record {
  settings = refl;
  allowlist = refl;
  personas = refl;
  groups = refl;
  sources = refl;
  caps = λ p c h. cap_at-update test change hp hr p db.workspaces ∙ h;
}

pub insert-caps :
    (db : Database) (w : Workspace)
    → SameJewels db (record db { workspaces = insert w db.workspaces })
insert-caps db w = record {
  settings = refl;
  allowlist = refl;
  personas = refl;
  groups = refl;
  sources = refl;
  caps = λ p c h. cap_at-insert p c w db.workspaces h;
}

-- Tables of the agent's own may change.
pub SameJewels-of_eq :
    (a b : Database)
    → a.settings ≡ b.settings
    → a.allowlist ≡ b.allowlist
    → a.personas ≡ b.personas
    → a.groups ≡ b.groups
    → a.sources ≡ b.sources
    → a.workspaces ≡ b.workspaces
    → SameJewels a b
SameJewels-of_eq a b es ea ep eg er ew = record {
  settings = es;
  allowlist = ea;
  personas = ep;
  groups = ap (map definition) eg;
  sources = er;
  caps = λ p c h. rw (← ew) h;
}

pub definition-update :
    (i : ℕ) (at : Text) (rows : List TriageGroup)
    → map definition rows
      ≡ map definition (update (Triage.has_id i) (λ g. record g { last_run_at = at }) rows)
unfolding update
definition-update i at [] = refl
definition-update i at (g ∷ rows) = ground (arith, definition-update i at rows)

ruleset guard_rules = (preserves_rules, SameJewels-IsPreorder, Preserves-agent)

pub update_caps-statement :
    {A : Type 0} (result : Database → A) (test : Workspace → Bool) (change : Workspace → Workspace)
    → ((w : Workspace) → (change w).path ≡ w.path)
    → ((w : Workspace) → (change w).max_role ≡ w.max_role)
    → Preserves SameJewels (
        statement
          (λ db. (ok (result db), record db { workspaces = update test change db.workspaces })))
update_caps-statement result test change hp hr =
    Preserves-statement SameJewels-IsPreorder _ (λ db. update-caps db test change hp hr)
