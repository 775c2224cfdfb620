-- ===== src/Store/Settings.antt =====
-- internal/store/settings.go: the scalar settings, and the scheduler's view of them.
use zcoms_agent.Prelude.{Bool, Option, none, some, List, ◌++◌, if◌then◌else◌}
use zcoms_agent.Prelude.Text.{Text, codes, text_eq}
use zcoms_agent.Store.Types.{Caller, owner, Setting, ok}
use zcoms_agent.Store.Db.{Db, query, statement, ◌>>◌}
use zcoms_agent.Store.Rows.{find, exists, update, delete, insert}
use zcoms_agent.Store.Checks.{require_owner}

abbrev pub has_key : Text → Setting → Bool
has_key k r = text_eq r.key k

-- SELECT value FROM settings WHERE key=?, with "" for no row.
unfoldable pub value_of : Option Setting → Text
value_of none = codes ""
value_of (some r) = r.value

unfoldable pub lookup_setting : Text → List Setting → Text
unfolding value_of
lookup_setting k rows = value_of (find (has_key k) rows)

-- INSERT … ON CONFLICT(key) DO UPDATE SET value=excluded.value.
unfoldable pub upsert_setting : Text → Text → List Setting → List Setting
upsert_setting k v rows =
    if exists (has_key k) rows
    then update (has_key k) (λ r. record r { value = v }) rows
    else insert (record { key = k; value = v }) rows

unfoldable pub get_setting : Text → Db Text
get_setting k = query (λ db. lookup_setting k db.settings)

unfoldable pub list_settings : Db (List Setting)
list_settings = query (λ db. db.settings)

unfoldable pub set_setting : Caller → Text → Text → Db (Unit {0})
set_setting c k v = do
  require_owner c (codes "settings")
  statement (λ db. (ok tt, record db { settings = upsert_setting k v db.settings }))

unfoldable pub delete_setting : Caller → Text → Db (Unit {0})
delete_setting c k = do
  require_owner c (codes "settings")
  statement (λ db. (ok tt, record db { settings = delete (has_key k) db.settings }))

-- SchedulerStore: the guards of the scheduler, under their own prefix and as the owner.
unfoldable pub scheduler_get : Text → Db Text
scheduler_get k = get_setting (codes "sched." ++ k)

unfoldable pub scheduler_set : Text → Text → Db (Unit {0})
scheduler_set k v = set_setting owner (codes "sched." ++ k) v
