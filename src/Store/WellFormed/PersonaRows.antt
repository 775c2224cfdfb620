-- ===== src/Store/WellFormed/PersonaRows.antt =====
-- Lemmas on the personas for the invariant of the tables. (internal/store/personas.go.)
use zcoms_agent.Prelude.{
  true, false, Option, none, some, List, ◌≡◌, refl, arith, inl, inr, Bool-cases,
}
use native.Mathlib.Nat.{le_refl}
use zcoms_agent.Prelude.Text.{Text, to_lower}
use zcoms_agent.Store.Types.{Caller, Database, Persona, valid_backends}
use zcoms_agent.Store.Checks.{is_blank}
use zcoms_agent.Store.Rows.{exists, update}
use zcoms_agent.Store.Rows.Keys.{
  Distinct-insert, Distinct-update, Distinct-delete, All-insert, All-update, All-delete,
  next_id-is_fresh,
}
use zcoms_agent.Store.Personas
use zcoms_agent.Store.Personas.{
  create_persona, update_persona, delete_persona, upsert_persona, upsert_found, get_persona,
  insert_persona, edited,
}
use zcoms_agent.Store.Preserves.{
  Preserves, Keeps, Preserves-then, Preserves-bind, Preserves-pure, Preserves-statement,
  Preserves-relabel, Preserves-refused, Preserves-backend_checked, Preserves-require_owner,
  Preserves-require_row, Preserves-query,
}
use zcoms_agent.Store.WellFormed.{IsWellFormed, ArePersonas, IsPersona}
use zcoms_agent.Store.WellFormed.AllowRows.{keeps}

set_personas :
    (db : Database) (rows : List Persona)
    → IsWellFormed db
    → ArePersonas rows
    → IsWellFormed (record db { personas = rows })
set_personas db rows h new = record {
  settings = h.settings;
  allowlist = h.allowlist;
  personas = new;
  workspaces = h.workspaces;
  sessions = h.sessions;
  groups = h.groups;
  sources = h.sources;
  reminders = h.reminders;
  events = h.events;
}

insert_persona-IsWellFormed :
    (p : Persona) (db : Database)
    → IsPersona p
    → IsWellFormed db
    → IsWellFormed (insert_persona p db).1
unfolding insert_persona
insert_persona-IsWellFormed p db hp h =
    elim (Bool-cases (exists (Personas.has_key p.key) db.personas)) [
      | inl there ↦ rw there h
      | inr fresh ↦ rw fresh (
          set_personas db _ h (record {
            ids =
                Distinct-insert _ db.personas _ h.personas.ids
                  (next_id-is_fresh (λ r. r.id) db.personas _ (le_refl _));
            keys = Distinct-insert _ db.personas _ h.personas.keys fresh;
            personas =
                All-insert IsPersona db.personas _ h.personas.personas
                  (record { backend_valid = hp.backend_valid; seed_given = hp.seed_given });
          }))
    ]

pub create_persona-IsWellFormed :
    (c : Caller) (p : Persona) → Preserves (Keeps IsWellFormed) (create_persona c p)
unfolding create_persona
create_persona-IsWellFormed c p = Preserves-then keeps _ _ (Preserves-require_owner keeps c _) (
    Preserves-refused keeps _ _ _ (λ given. Preserves-backend_checked keeps _ _ (λ valid.
      Preserves-bind keeps _ _
        (Preserves-relabel keeps _ _ (
          Preserves-statement keeps _ (λ db.
            insert_persona-IsWellFormed _ db
              (record { backend_valid = valid; seed_given = ground arith }))))
        (λ i. Preserves-pure keeps _))))

pub update_persona-IsWellFormed :
    (c : Caller) (k : Text) (p : Persona) → Preserves (Keeps IsWellFormed) (update_persona c k p)
unfolding update_persona
update_persona-IsWellFormed c k p = Preserves-then keeps _ _ (Preserves-require_owner keeps c _) (
    Preserves-backend_checked keeps _ _ (λ valid. Preserves-refused keeps _ _ _ (λ given.
      Preserves-bind keeps _ _ (Preserves-statement keeps _ (changed valid given))
        (λ met. Preserves-require_row keeps met _))))
  where
    changed :
        valid_backends (to_lower p.backend) ≡ true
        → is_blank p.seed_prompt ≡ false
        → (db : Database) → IsWellFormed db
        → IsWellFormed (record db { personas = update (Personas.has_key k) (edited p) db.personas })
    changed valid given db h = set_personas db _ h (record {
      ids = Distinct-update _ _ _ (λ q s. refl) (λ q s. refl) db.personas h.personas.ids;
      keys = Distinct-update _ _ _ (λ q s. refl) (λ q s. refl) db.personas h.personas.keys;
      personas =
          All-update IsPersona _ _ (λ q k. record { backend_valid = valid; seed_given = given })
            db.personas h.personas.personas;
    })

pub delete_persona-IsWellFormed :
    (c : Caller) (k : Text) → Preserves (Keeps IsWellFormed) (delete_persona c k)
unfolding delete_persona
delete_persona-IsWellFormed c k = Preserves-then keeps _ _ (Preserves-require_owner keeps c _) (
    Preserves-bind keeps _ _
      (Preserves-statement keeps _ (λ db h. set_personas db _ h (record {
        ids = Distinct-delete _ _ db.personas h.personas.ids;
        keys = Distinct-delete _ _ db.personas h.personas.keys;
        personas = All-delete IsPersona _ db.personas h.personas.personas;
      })))
      (λ met. Preserves-require_row keeps met _))

pub upsert_persona-IsWellFormed :
    (c : Caller) (p : Persona) → Preserves (Keeps IsWellFormed) (upsert_persona c p)
unfolding upsert_persona get_persona
upsert_persona-IsWellFormed c p =
    Preserves-then keeps _ _ (Preserves-require_owner keeps c _)
      (Preserves-bind keeps _ _ (Preserves-query keeps _) found)
  where
    found : (o : Option Persona) → Preserves (Keeps IsWellFormed) (upsert_found c p o)
    found (some q) = update_persona-IsWellFormed c p.key p
    found none =
        Preserves-then keeps _ _ (create_persona-IsWellFormed c p) (Preserves-pure keeps tt)
