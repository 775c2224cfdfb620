-- ===== src/Store/Triage.antt =====
-- internal/store/triagegroups.go: named sets of sources, each triaged on its own schedule.
use zcoms_agent.Prelude.{ℕ, Bool, List, [], ◌∷◌, ◌++◌, ◌||◌, ◌==◌, ltb, length, not, if◌then◌else◌}
use zcoms_agent.Prelude.Text.{Text, codes, text_eq, trim_space, to_lower, text_le}
use zcoms_agent.Store.Types.{
  Caller, owner, missing, invalid_schedule, no_row, foreign_key, TriageGroup, TriageSource,
  Database, Result, ok, err, nullable,
}
use zcoms_agent.Store.Db.{Db, pure, query, statement, transaction, ◌>>=◌, ◌>>◌}
use zcoms_agent.Store.Rows.{exists, update, delete, insert, next_id, order_by}
use zcoms_agent.Store.Checks.{require_owner, is_blank, refuse_if, require_row, when}

-- A group as the callers pass it, with its sources.
pub record GroupWithSources : Type 0 where
  pub group : TriageGroup
  pub sources : List TriageSource

abbrev pub has_id : ℕ → TriageGroup → Bool
has_id i g = g.id == i

abbrev pub in_group : ℕ → TriageSource → Bool
in_group i s = s.group_id == i

-- The keys of `validScheduleKinds`.
unfoldable pub valid_schedule_kinds : Text → Bool
valid_schedule_kinds k = text_eq k (codes "interval") || text_eq k (codes "daily")

-- One source row is appended to the group that it belongs to.
abbrev pub add_source : TriageSource → GroupWithSources → GroupWithSources
add_source s g = record g { sources = g.sources ++ s ∷ [] }

unfoldable pub attach : List TriageSource → List GroupWithSources → List GroupWithSources
attach [] groups = groups
attach (s ∷ rows) groups =
    attach rows (update (λ g. g.group.id == s.group_id) (add_source s) groups)

abbrev pub without_sources : List TriageGroup → List GroupWithSources
without_sources [] = []
without_sources (g ∷ groups) = record { group = g; sources = [] } ∷ without_sources groups

unfoldable pub list_triage_groups : Db (List GroupWithSources)
list_triage_groups = do
  groups ← query (λ db. order_by (λ a b. text_le a.name b.name) db.groups)
  rows ← query (λ db. order_by (λ a b. not (ltb b.id a.id)) db.sources)
  pure (attach rows (without_sources groups))

unfoldable pub schedule_kind : Text → Text
schedule_kind k =
    let t = to_lower (trim_space k) in if text_eq t (codes "") then codes "interval" else t

abbrev pub insert_group : TriageGroup → Db ℕ
insert_group g = statement (λ db.
    let i : ℕ = next_id (λ r. r.id) db.groups in
    (ok i, record db { groups = insert (record g { id = i; last_run_at = codes "" }) db.groups }))

-- The columns of the UPDATE: the id and the last run stay.
abbrev pub replaced : TriageGroup → TriageGroup → TriageGroup
replaced g r = record r {
  name = g.name;
  schedule_kind = g.schedule_kind;
  schedule_spec = g.schedule_spec;
  enabled = g.enabled;
}

abbrev pub replace_group : TriageGroup → Db ℕ
replace_group g = do
  met ← statement (λ db. (
    ok (exists (has_id g.id) db.groups),
    record db { groups = update (has_id g.id) (replaced g) db.groups },
  ))
  require_row met (no_row (codes "triage group") g.id)
  statement (λ db. (ok tt, record db { sources = delete (in_group g.id) db.sources }))
  pure g.id

-- The source row to insert, its transport tidied.
abbrev pub source_row : ℕ → ℕ → TriageSource → TriageSource
source_row i group_id s = record {
  id = i;
  group_id = group_id;
  transport = to_lower (trim_space s.transport);
  account = nullable s.account;
  chat_filter = nullable s.chat_filter;
}

unfoldable pub insert_source : ℕ → TriageSource → Database → Result (Unit {0}) × Database
insert_source group_id s db =
    if exists (has_id group_id) db.groups
    then (
      ok tt,
      record db {
        sources = insert (source_row (next_id (λ r. r.id) db.sources) group_id s) db.sources;
      },
    )
    else (err foreign_key, db)

-- The loop over the sources: one with no transport is passed over.
unfoldable pub insert_sources : ℕ → List TriageSource → Db (Unit {0})
insert_sources group_id [] = pure tt
insert_sources group_id (s ∷ rows) = do
  when (not (text_eq (to_lower (trim_space s.transport)) (codes "")))
      (statement (insert_source group_id s))
  insert_sources group_id rows

abbrev pub save_group : TriageGroup → Db ℕ
save_group g = if g.id == 0 then insert_group g else replace_group g

abbrev pub tidied : TriageGroup → TriageGroup
tidied g = record g { schedule_kind = schedule_kind g.schedule_kind }

unfoldable pub save_triage_group : Caller → GroupWithSources → Db GroupWithSources
save_triage_group c g = do
  require_owner c (codes "triage groups")
  refuse_if (is_blank g.group.name) (missing (codes "a triage group needs a name"))
  let kind = schedule_kind g.group.schedule_kind
  refuse_if (not (valid_schedule_kinds kind)) (invalid_schedule kind)
  refuse_if (is_blank g.group.schedule_spec)
      (missing (codes "a triage group needs a schedule spec"))
  i ← transaction (do i ← save_group (tidied g.group); insert_sources i g.sources; pure i)
  pure (record g { group = record (tidied g.group) { id = i } })

unfoldable pub set_triage_group_enabled : Caller → ℕ → Bool → Db (Unit {0})
set_triage_group_enabled c i on = do
  require_owner c (codes "triage groups")
  met ← statement (λ db. (
    ok (exists (has_id i) db.groups),
    record db { groups = update (has_id i) (λ g. record g { enabled = on }) db.groups },
  ))
  require_row met (no_row (codes "triage group") i)

-- DELETE FROM triage_groups WHERE id=?; ON DELETE CASCADE takes the sources of the group along.
abbrev pub without_group : ℕ → Database → Database
without_group i db =
    if exists (has_id i) db.groups
    then record db {
      groups = delete (has_id i) db.groups;
      sources = delete (in_group i) db.sources;
    }
    else db

unfoldable pub delete_triage_group : Caller → ℕ → Db (Unit {0})
delete_triage_group c i = do
  require_owner c (codes "triage groups")
  met ← statement (λ db. (ok (exists (has_id i) db.groups), without_group i db))
  require_row met (no_row (codes "triage group") i)

unfoldable pub mark_triage_group_ran : ℕ → Text → Db (Unit {0})
mark_triage_group_ran i at = statement (λ db. (
  ok tt,
  record db { groups = update (has_id i) (λ g. record g { last_run_at = at }) db.groups },
))

unfoldable pub default_spec : Text → Text
default_spec schedule =
    let spec = trim_space schedule in
    if text_eq spec (codes "") || text_eq spec (codes "twice-daily") then codes "1h" else spec

abbrev pub bare_source : Text → TriageSource
bare_source transport = record {
  id = 0;
  group_id = 0;
  transport = transport;
  account = codes "";
  chat_filter = codes "";
}

unfoldable pub default_group : Text → Bool → Bool → GroupWithSources
default_group schedule enabled whatsapp = record {
  group = record {
    id = 0;
    name = codes "Default";
    schedule_kind = codes "interval";
    schedule_spec = default_spec schedule;
    enabled = enabled;
    last_run_at = codes "";
  };
  sources =
      bare_source (codes "telegram")
      ∷ (if whatsapp then bare_source (codes "whatsapp") ∷ [] else []);
}

unfoldable pub ensure_default_triage_group : Text → Bool → Bool → Db (Unit {0})
ensure_default_triage_group schedule enabled whatsapp = do
  n ← query (λ db. length db.groups)
  when (not (ltb 0 n)) do save_triage_group owner (default_group schedule enabled whatsapp); pure tt
