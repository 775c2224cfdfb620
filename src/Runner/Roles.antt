-- ===== src/Runner/Roles.antt =====
-- internal/runner/config.go and runner.go: the roles, their order, and what a role lets a CLI do.
pub mod Caps
use zcoms_agent.Prelude.{ℕ, Bool, true, false, List, [], ◌∷◌, ◌||◌, ◌≡◌, ltb, leb, if◌then◌else◌}
use zcoms_agent.Prelude.Text.{Text, codes, text_eq}

-- A role is a string of the configuration, so that it may be none of the four.
abbrev pub Role : Type 0
Role = Text

abbrev pub role_full : Role
role_full = codes "full"

abbrev pub role_edit : Role
role_edit = codes "edit"

abbrev pub role_confirm : Role
role_confirm = codes "confirm"

abbrev pub role_read : Role
role_read = codes "read"

unfoldable pub rank : Role → ℕ
rank r =
    if text_eq r role_read
    then 1
    else if text_eq r role_confirm
    then 2
    else if text_eq r role_edit
    then 3
    else if text_eq r role_full
    then 4
    else 0

unfoldable pub valid_role : Role → Bool
unfolding rank
valid_role r = ltb 0 (rank r)

unfoldable pub min_role : Role → Role → Role
unfolding rank
min_role a b = if leb (rank a) (rank b) then a else b

-- AllowEntry: what one allow-listed user may do.
pub record AllowEntry : Type 0 where
  pub role : Role
  pub locations : List Text
  pub agent : Text

unfoldable pub allows : List Text → Text → Bool
allows [] name = false
allows (l ∷ locations) name =
    if text_eq l (codes "*") || text_eq l name then true else allows locations name

unfoldable pub allows_location : AllowEntry → Text → Bool
unfolding allows
allows_location e name = allows e.locations name

-- The entries that LoadOrSeedAllowlist keeps of the stored ones: no location means every location.
abbrev pub all_if_none : List Text → List Text
all_if_none [] = codes "*" ∷ []
all_if_none (l ∷ ls) = l ∷ ls

unfoldable pub with_locations : AllowEntry → AllowEntry
with_locations e = record e { locations = all_if_none e.locations }

unfoldable pub clean_allowlist : List (Text × AllowEntry) → List (Text × AllowEntry)
unfolding valid_role with_locations
clean_allowlist [] = []
clean_allowlist ((user, e) ∷ raw) =
    let rest = clean_allowlist raw in
    if valid_role e.role then (user, with_locations e) ∷ rest else rest

-- permissionArgs: the flags of the claude CLI for a role.
unfoldable pub permission_args : Role → List Text
permission_args r =
    if text_eq r role_full
    then codes "--dangerously-skip-permissions" ∷ []
    else if text_eq r role_edit
    then codes "--permission-mode" ∷ codes "acceptEdits" ∷ []
    else codes "--permission-mode" ∷ codes "plan" ∷ []

-- The flags of RunClaude: a turn in a writable staging directory may edit there, whatever its role.
unfoldable pub run_flags : Role → Bool → List Text
unfolding permission_args
run_flags role staging_writable =
    if staging_writable
    then codes "--permission-mode" ∷ codes "acceptEdits" ∷ []
    else permission_args role
