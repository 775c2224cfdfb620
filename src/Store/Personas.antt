-- ===== src/Store/Personas.antt =====
-- internal/store/personas.go: the agent identities, one row for each key.
use zcoms_agent.Prelude.{ℕ, Bool, Option, none, some, List, ◌||◌, if◌then◌else◌}
use zcoms_agent.Prelude.Text.{Text, codes, text_eq, to_lower, text_le}
use zcoms_agent.Store.Types.{
  Caller, missing, already_exists, no_key, unique, Persona, Database, Result, ok, err,
}
use zcoms_agent.Store.Db.{Db, pure, query, statement, relabel, ◌>>=◌, ◌>>◌}
use zcoms_agent.Store.Rows.{find, exists, update, delete, insert, next_id, order_by}
use zcoms_agent.Store.Checks.{require_owner, is_blank, validate_backend, refuse_if, require_row}

abbrev pub has_key : Text → Persona → Bool
has_key k p = text_eq p.key k

unfoldable pub list_personas : Db (List Persona)
list_personas = query (λ db. order_by (λ a b. text_le a.key b.key) db.personas)

unfoldable pub get_persona : Text → Db (Option Persona)
get_persona k = query (λ db. find (has_key k) db.personas)

-- INSERT INTO agent_personas, which UNIQUE(key) may refuse.
unfoldable pub insert_persona : Persona → Database → Result ℕ × Database
insert_persona p db =
    if exists (has_key p.key) db.personas
    then (err unique, db)
    else let i : ℕ = next_id (λ r. r.id) db.personas in
      (ok i, record db { personas = insert (record p { id = i }) db.personas })

unfoldable pub create_persona : Caller → Persona → Db Persona
create_persona c p = do
  require_owner c (codes "personas")
  refuse_if (is_blank p.key || is_blank p.seed_prompt)
      (missing (codes "a persona needs a key and a seed_prompt"))
  validate_backend p.backend
  i ←
      relabel (already_exists p.key)
        (statement (insert_persona (record p { backend = to_lower p.backend })))
  pure (record p { id = i })

-- The columns that an UPDATE of a persona sets; the key and the id stay.
abbrev pub edited : Persona → Persona → Persona
edited p r = record r {
  display_name = p.display_name;
  backend = to_lower p.backend;
  model = p.model;
  seed_prompt = p.seed_prompt;
}

unfoldable pub update_persona : Caller → Text → Persona → Db (Unit {0})
update_persona c k p = do
  require_owner c (codes "personas")
  validate_backend p.backend
  refuse_if (is_blank p.seed_prompt) (missing (codes "seed_prompt cannot be empty"))
  met ← statement (λ db. (
    ok (exists (has_key k) db.personas),
    record db { personas = update (has_key k) (edited p) db.personas },
  ))
  require_row met (no_key k)

unfoldable pub delete_persona : Caller → Text → Db (Unit {0})
delete_persona c k = do
  require_owner c (codes "personas")
  met ← statement (λ db. (
    ok (exists (has_key k) db.personas),
    record db { personas = delete (has_key k) db.personas },
  ))
  require_row met (no_key k)

abbrev pub upsert_found : Caller → Persona → Option Persona → Db (Unit {0})
upsert_found c p (some _) = update_persona c p.key p
upsert_found c p none = do create_persona c p; pure tt

unfoldable pub upsert_persona : Caller → Persona → Db (Unit {0})
upsert_persona c p = do
  require_owner c (codes "personas")
  found ← get_persona p.key
  upsert_found c p found
