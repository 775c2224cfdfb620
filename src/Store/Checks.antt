-- ===== src/Store/Checks.antt =====
-- internal/store/store.go: the guard on the caller and the validation that every write goes through.
use zcoms_agent.Prelude.{Bool, true, false, if◌then◌else◌}
use zcoms_agent.Prelude.Text.{Text, codes, text_eq, trim_space, to_lower}
use zcoms_agent.Store.Types.{
  Caller, owner, agent, Error, forbidden, invalid_role, invalid_backend, valid_roles,
  valid_backends,
}
use zcoms_agent.Store.Db.{Db, pure, fail}

unfoldable pub require_owner : Caller → Text → Db (Unit {0})
require_owner owner what = pure tt
require_owner agent what = fail (forbidden agent what)

-- Is the text empty once trimmed?
unfoldable pub is_blank : Text → Bool
is_blank s = text_eq (trim_space s) (codes "")

unfoldable pub role_ok : Text → Bool
role_ok r = if text_eq r (codes "") then true else valid_roles (to_lower r)

unfoldable pub validate_role : Text → Db (Unit {0})
validate_role r = if role_ok r then pure tt else fail (invalid_role r)

unfoldable pub validate_backend : Text → Db (Unit {0})
validate_backend b = if valid_backends (to_lower b) then pure tt else fail (invalid_backend b)

-- `if test { return err }`.
unfoldable pub refuse_if : Bool → Error → Db (Unit {0})
refuse_if true e = fail e
refuse_if false e = pure tt

-- The test of `RowsAffected` after a statement: did it meet a row?
unfoldable pub require_row : Bool → Error → Db (Unit {0})
require_row true e = pure tt
require_row false e = fail e

-- `if test { … }`.
unfoldable pub when : Bool → Db (Unit {0}) → Db (Unit {0})
when true m = m
when false m = pure tt
