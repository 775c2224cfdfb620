-- ===== src/Bridge/Ceiling.antt =====
-- The role of a session in internal/bridge, and the role that an approved plan runs with.
pub mod Messages
pub mod Invariant
use zcoms_agent.Prelude.{true, ◌≡◌, ◌≤◌, ◌<◌, refl, arith}
use zcoms_agent.Prelude.Text.{text_eq}
use zcoms_agent.Runner.Roles.{Role, rank, valid_role, permission_args, role_confirm, role_edit}
use zcoms_agent.Runner.Roles.Caps.{power, power-permission_args_le, min_role-rank_le}
use zcoms_agent.Bridge.State.{UserState}
use zcoms_agent.Bridge.Menus.{effective_role}
use zcoms_agent.Bridge.Handle.{exec_role}

-- The effective role is within the user's, and within a ceiling that is a role.
pub effective_role-rank_le :
    (role cap : Role)
    → rank (effective_role role cap) ≤ rank role
      × (valid_role cap ≡ true → rank (effective_role role cap) ≤ rank cap)
unfolding effective_role
effective_role-rank_le role cap = ground (arith, min_role-rank_le role cap)

-- A user has a role; the session's role is not above it; only a role `confirm` awaits a word.
abbrev pub Capped : UserState → Type 0
Capped st =
    1 ≤ rank st.entry.role
    × rank st.effective_role ≤ rank st.entry.role
    × (st.awaiting_confirm ≡ true → st.effective_role ≡ role_confirm)

pub power-confirm : power (permission_args role_confirm) ≡ 0
unfolding power permission_args text_eq
power-confirm = refl

power-edit : power (permission_args role_edit) ≡ 1
unfolding power permission_args text_eq
power-edit = refl

exec_role-rank_le : (role : Role) → rank role_edit ≤ rank (exec_role role)
unfolding exec_role
exec_role-rank_le role = ground arith

-- A plan that is approved runs with more power than the session's role, whatever the ceiling.
pub exec_role-power :
    (st : UserState)
    → Capped st
    → st.awaiting_confirm ≡ true
    → power (permission_args st.effective_role) < power (permission_args (exec_role st.entry.role))
exec_role-power st h awaiting = rw (h.2 awaiting) (
    omega (
      arith,
      power-confirm,
      power-edit,
      power-permission_args_le role_edit _ (exec_role-rank_le st.entry.role),
    ))
