-- ===== src/Store/WellFormed/AllowRows.antt =====
-- Lemmas on the allowlist and the settings for the invariant of the tables.
-- (internal/store/allowlist.go, settings.go.)
use zcoms_agent.Prelude.{ℕ, true, List, ◌≡◌, refl, arith, inl, inr, Bool-cases}
use native.Mathlib.Nat.{le_refl}
use zcoms_agent.Prelude.Text.{Text, to_lower-to_lower}
use zcoms_agent.Store.Types.{Caller, Database, AllowEntry, Setting}
use zcoms_agent.Store.Checks.{role_ok}
use zcoms_agent.Store.Rows.{exists, update}
use zcoms_agent.Store.Rows.Keys.{
  Distinct, Distinct-insert, Distinct-update, Distinct-delete, All-insert, All-update, All-delete,
  next_id-is_fresh,
}
use zcoms_agent.Store.Allow
use zcoms_agent.Store.Allow.{create_allow, update_allow, delete_allow, insert_allow}
use zcoms_agent.Store.Settings
use zcoms_agent.Store.Settings.{set_setting, delete_setting, upsert_setting}
use zcoms_agent.Store.Preserves.{
  Preserves, IsPreorder, Keeps, Keeps-IsPreorder, Preserves-then, Preserves-bind, Preserves-pure,
  Preserves-statement, Preserves-relabel, Preserves-refused, Preserves-role_checked,
  Preserves-require_owner, Preserves-require_row,
}
use zcoms_agent.Store.WellFormed.{IsWellFormed, IsAllowlist, IsEntry, same_setting}

pub keeps : IsPreorder (Keeps IsWellFormed)
keeps = Keeps-IsPreorder IsWellFormed

set_allowlist :
    (db : Database) (rows : List AllowEntry)
    → IsWellFormed db
    → IsAllowlist rows
    → IsWellFormed (record db { allowlist = rows })
set_allowlist db rows h new = record {
  settings = h.settings;
  allowlist = new;
  personas = h.personas;
  workspaces = h.workspaces;
  sessions = h.sessions;
  groups = h.groups;
  sources = h.sources;
  reminders = h.reminders;
  events = h.events;
}

insert_allow-IsWellFormed :
    (e : AllowEntry) (db : Database)
    → IsEntry e
    → IsWellFormed db
    → IsWellFormed (insert_allow e db).1
unfolding insert_allow
insert_allow-IsWellFormed e db he h =
    elim (Bool-cases (exists (Allow.is_principal e.platform e.handle) db.allowlist)) [
      | inl there ↦ rw there h
      | inr fresh ↦ rw fresh (
          set_allowlist db _ h (record {
            ids =
                Distinct-insert _ db.allowlist _ h.allowlist.ids
                  (next_id-is_fresh (λ r. r.id) db.allowlist _ (le_refl _));
            principals = Distinct-insert _ db.allowlist _ h.allowlist.principals fresh;
            entries = All-insert IsEntry db.allowlist _ h.allowlist.entries (record {
              platform_lower = he.platform_lower;
              handle_given = he.handle_given;
              role_valid = he.role_valid;
            });
          }))
    ]

pub create_allow-IsWellFormed :
    (c : Caller) (e : AllowEntry) → Preserves (Keeps IsWellFormed) (create_allow c e)
unfolding create_allow
create_allow-IsWellFormed c e = Preserves-then keeps _ _ (Preserves-require_owner keeps c _) (
    Preserves-refused keeps _ _ _ (λ given. Preserves-role_checked keeps _ _ (λ valid.
      Preserves-bind keeps _ _
        (Preserves-relabel keeps _ _ (
          Preserves-statement keeps _ (λ db. insert_allow-IsWellFormed _ db (record {
            platform_lower = to_lower-to_lower e.platform;
            handle_given = ground arith;
            role_valid = valid;
          }))))
        (λ i. Preserves-pure keeps _))))

pub update_allow-IsWellFormed :
    (c : Caller) (i : ℕ) (r : Text) → Preserves (Keeps IsWellFormed) (update_allow c i r)
unfolding update_allow
update_allow-IsWellFormed c i r = Preserves-then keeps _ _ (Preserves-require_owner keeps c _) (
    Preserves-role_checked keeps _ _ (λ valid.
      Preserves-bind keeps _ _ (Preserves-statement keeps _ (changed valid))
        (λ met. Preserves-require_row keeps met _)))
  where
    changed :
        role_ok r ≡ true
        → (db : Database) → IsWellFormed db
        → IsWellFormed (record db {
          allowlist = update (Allow.has_id i) (λ q. record q { max_role = r }) db.allowlist;
        })
    changed valid db h = set_allowlist db _ h (record {
      ids = Distinct-update _ _ _ (λ q s. refl) (λ q s. refl) db.allowlist h.allowlist.ids;
      principals =
          Distinct-update _ _ _ (λ q s. refl) (λ q s. refl) db.allowlist h.allowlist.principals;
      entries =
          All-update IsEntry _ _
            (λ q k. record {
              platform_lower = k.platform_lower;
              handle_given = k.handle_given;
              role_valid = valid;
            })
            db.allowlist h.allowlist.entries;
    })

pub delete_allow-IsWellFormed :
    (c : Caller) (i : ℕ) → Preserves (Keeps IsWellFormed) (delete_allow c i)
unfolding delete_allow
delete_allow-IsWellFormed c i = Preserves-then keeps _ _ (Preserves-require_owner keeps c _) (
    Preserves-bind keeps _ _
      (Preserves-statement keeps _ (λ db h. set_allowlist db _ h (record {
        ids = Distinct-delete _ _ db.allowlist h.allowlist.ids;
        principals = Distinct-delete _ _ db.allowlist h.allowlist.principals;
        entries = All-delete IsEntry _ db.allowlist h.allowlist.entries;
      })))
      (λ met. Preserves-require_row keeps met _))

set_settings :
    (db : Database) (rows : List Setting)
    → IsWellFormed db
    → Distinct same_setting rows
    → IsWellFormed (record db { settings = rows })
set_settings db rows h new = record {
  settings = new;
  allowlist = h.allowlist;
  personas = h.personas;
  workspaces = h.workspaces;
  sessions = h.sessions;
  groups = h.groups;
  sources = h.sources;
  reminders = h.reminders;
  events = h.events;
}

upsert_setting-Distinct :
    (k v : Text) (rows : List Setting)
    → Distinct same_setting rows
    → Distinct same_setting (upsert_setting k v rows)
unfolding upsert_setting
upsert_setting-Distinct k v rows h = elim (Bool-cases (exists (Settings.has_key k) rows)) [
  | inl there ↦ rw there (Distinct-update _ _ _ (λ q s. refl) (λ q s. refl) rows h)
  | inr fresh ↦ rw fresh (Distinct-insert _ rows _ h fresh)
]

pub set_setting-IsWellFormed :
    (c : Caller) (k v : Text) → Preserves (Keeps IsWellFormed) (set_setting c k v)
unfolding set_setting
set_setting-IsWellFormed c k v = Preserves-then keeps _ _ (Preserves-require_owner keeps c _) (
    Preserves-statement keeps _
      (λ db h. set_settings db _ h (upsert_setting-Distinct k v db.settings h.settings)))

pub delete_setting-IsWellFormed :
    (c : Caller) (k : Text) → Preserves (Keeps IsWellFormed) (delete_setting c k)
unfolding delete_setting
delete_setting-IsWellFormed c k = Preserves-then keeps _ _ (Preserves-require_owner keeps c _) (
    Preserves-statement keeps _
      (λ db h. set_settings db _ h (Distinct-delete _ _ db.settings h.settings)))
