-- ===== src/Store/Allow.antt =====
-- internal/store/allowlist.go: who may drive the agent, and up to which role.
use zcoms_agent.Prelude.{ℕ, Bool, Option, List, ◌&&◌, ◌||◌, ◌==◌, if◌then◌else◌}
use zcoms_agent.Prelude.Text.{Text, codes, text_eq, to_lower, text_le}
use zcoms_agent.Store.Types.{
  Caller, missing, already_listed, no_row, unique, AllowEntry, Database, Result, ok, err,
}
use zcoms_agent.Store.Db.{Db, pure, query, statement, relabel, ◌>>=◌, ◌>>◌}
use zcoms_agent.Store.Rows.{find, exists, update, delete, insert, next_id, order_by}
use zcoms_agent.Store.Checks.{require_owner, is_blank, validate_role, refuse_if, require_row}

-- platform=? AND handle=?
abbrev pub is_principal : Text → Text → AllowEntry → Bool
is_principal p h r = text_eq r.platform p && text_eq r.handle h

abbrev pub has_id : ℕ → AllowEntry → Bool
has_id i r = r.id == i

-- ORDER BY platform, handle.
abbrev pub principal_le : AllowEntry → AllowEntry → Bool
principal_le a b =
    if text_eq a.platform b.platform
    then text_le a.handle b.handle
    else text_le a.platform b.platform

unfoldable pub list_allow : Db (List AllowEntry)
list_allow = query (λ db. order_by principal_le db.allowlist)

unfoldable pub allowed : Text → Text → Db (Option AllowEntry)
allowed platform handle = query (λ db. find (is_principal (to_lower platform) handle) db.allowlist)

-- INSERT INTO allowlist, which UNIQUE(platform, handle) may refuse.
unfoldable pub insert_allow : AllowEntry → Database → Result ℕ × Database
insert_allow e db =
    if exists (is_principal e.platform e.handle) db.allowlist
    then (err unique, db)
    else let i : ℕ = next_id (λ r. r.id) db.allowlist in
      (ok i, record db { allowlist = insert (record e { id = i }) db.allowlist })

unfoldable pub create_allow : Caller → AllowEntry → Db AllowEntry
create_allow c e = do
  require_owner c (codes "allowlist")
  refuse_if (is_blank e.platform || is_blank e.handle)
      (missing (codes "an allowlist entry needs a platform and handle"))
  validate_role e.max_role
  i ←
      relabel (already_listed e.platform e.handle)
        (statement (insert_allow (record e { platform = to_lower e.platform })))
  pure (record e { id = i })

unfoldable pub update_allow : Caller → ℕ → Text → Db (Unit {0})
update_allow c i max_role = do
  require_owner c (codes "allowlist")
  validate_role max_role
  met ← statement (λ db. (
    ok (exists (has_id i) db.allowlist),
    record db {
      allowlist = update (has_id i) (λ r. record r { max_role = max_role }) db.allowlist;
    },
  ))
  require_row met (no_row (codes "allowlist entry") i)

unfoldable pub delete_allow : Caller → ℕ → Db (Unit {0})
delete_allow c i = do
  require_owner c (codes "allowlist")
  met ← statement (λ db. (
    ok (exists (has_id i) db.allowlist),
    record db { allowlist = delete (has_id i) db.allowlist },
  ))
  require_row met (no_row (codes "allowlist entry") i)
