-- ===== src/Bridge/StoredCaps.antt =====
-- A cap as internal/store accepts it, and as internal/runner and internal/bridge read it.
use zcoms_agent.Prelude.{true, ◌≡◌, ◌≢◌, inl, inr, refl, arith, Bool-cases}
use zcoms_agent.Prelude.Text.{Text, codes, text_eq, text_eq→eq, to_lower}
use zcoms_agent.Store.Types.{valid_roles}
use zcoms_agent.Store.Checks.{role_ok}
use zcoms_agent.Runner.Roles.{Role, rank, valid_role, role_full, role_edit, role_confirm, role_read}
use zcoms_agent.Bridge.Menus.{effective_role}

-- The four roles have no capital letter.
valid_role-lower : (r : Role) → valid_role r ≡ true → to_lower r ≡ r
unfolding valid_role rank text_eq to_lower
valid_role-lower r h = elim (Bool-cases (text_eq r role_read)) [
  | inl e ↦ rw (text_eq→eq r role_read e) refl
  | inr read ↦ elim (Bool-cases (text_eq r role_confirm)) [
    | inl e ↦ rw (text_eq→eq r role_confirm e) refl
    | inr confirm ↦ elim (Bool-cases (text_eq r role_edit)) [
      | inl e ↦ rw (text_eq→eq r role_edit e) refl
      | inr edit ↦ elim (Bool-cases (text_eq r role_full)) [
        | inl e ↦ rw (text_eq→eq r role_full e) refl
        | inr full ↦ ground arith
      ]
    ]
  ]
]

-- The two lists of roles are one.
valid_roles-valid_role : (r : Text) → valid_roles r ≡ true → valid_role r ≡ true
unfolding valid_roles valid_role rank
valid_roles-valid_role r h = ground arith

accepted-lower :
    (cap : Text) → role_ok cap ≡ true → cap ≢ codes "" → to_lower cap ≡ cap → valid_roles cap ≡ true
unfolding role_ok
accepted-lower cap h named lower = ground (arith, text_eq→eq cap (codes ""))

-- A cap that the store accepts and that is not empty is a role for the bridge when it has no
-- capital letter, and is ignored by the bridge when it has one.
pub stored_cap :
    (role cap : Text)
    → role_ok cap ≡ true
    → cap ≢ codes ""
    → (to_lower cap ≡ cap → valid_role cap ≡ true)
      × (to_lower cap ≢ cap → effective_role role cap ≡ role)
unfolding effective_role
stored_cap role cap h named = (
  λ lower. valid_roles-valid_role cap (accepted-lower cap h named lower),
  λ raised. ground (arith, valid_role-lower cap),
)
