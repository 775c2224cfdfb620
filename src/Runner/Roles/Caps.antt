-- ===== src/Runner/Roles/Caps.antt =====
-- How much a role of internal/runner lets a CLI do, and how roles compare.
use zcoms_agent.Prelude.{
  ℕ, List, [], ◌∷◌, ◌≡◌, ◌≤◌, refl, arith, leb, inl, inr, Bool-cases, if◌then◌else◌,
}
use zcoms_agent.Prelude.Text.{Text, codes, text_eq, text_eq→eq}
use zcoms_agent.Runner.Roles.{
  Role, rank, min_role, permission_args, role_full, role_edit, role_confirm, role_read,
}

abbrev power_of_mode : List Text → ℕ
power_of_mode [] = 0
power_of_mode (mode ∷ rest) = if text_eq mode (codes "acceptEdits") then 1 else 0

-- How much a command line allows: 2 skips every permission, 1 accepts edits, 0 only plans.
unfoldable pub power : List Text → ℕ
power [] = 0
power (flag ∷ values) =
    if text_eq flag (codes "--dangerously-skip-permissions") then 2 else power_of_mode values

abbrev power_of_rank : ℕ → ℕ
power_of_rank n = if leb 4 n then 2 else if leb 3 n then 1 else 0

power-permission_args : (r : Role) → power (permission_args r) ≡ power_of_rank (rank r)
unfolding rank permission_args power text_eq
power-permission_args r = elim (Bool-cases (text_eq r role_full)) [
  | inl e ↦ rw (text_eq→eq r role_full e) refl
  | inr full ↦ elim (Bool-cases (text_eq r role_edit)) [
    | inl e ↦ rw (text_eq→eq r role_edit e) refl
    | inr edit ↦ elim (Bool-cases (text_eq r role_read)) [
      | inl e ↦ rw (text_eq→eq r role_read e) refl
      | inr read ↦ elim (Bool-cases (text_eq r role_confirm)) [
        | inl e ↦ rw (text_eq→eq r role_confirm e) refl
        | inr confirm ↦ rw (full, edit, read, confirm) refl
      ]
    ]
  ]
]

pub power-permission_args_le :
    (a b : Role) → rank a ≤ rank b → power (permission_args a) ≤ power (permission_args b)
power-permission_args_le a b h = ground (arith, power-permission_args a, power-permission_args b)

pub min_role-rank_le :
    (a b : Role) → (rank (min_role a b) ≤ rank a) × (rank (min_role a b) ≤ rank b)
unfolding min_role
min_role-rank_le a b = ground arith

pub power-read_le : (r : Role) → power (permission_args role_read) ≤ power (permission_args r)
unfolding power permission_args text_eq
power-read_le r = omega arith
