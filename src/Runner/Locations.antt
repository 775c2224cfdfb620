-- ===== src/Runner/Locations.antt =====
-- internal/runner/config.go: the named project directories, with an optional ceiling on the role.
use zcoms_agent.Prelude.{List, [], ◌∷◌, if◌then◌else◌}
use zcoms_agent.Prelude.Text.{Text, codes, text_eq, text_le}
use zcoms_agent.Runner.Roles.{Role}

pub record LocationConfig : Type 0 where
  pub path : Text
  pub max_role : Role

-- A Go map of configurations, in any order.
abbrev pub Locations : Type 0
Locations = List (Text × LocationConfig)

-- `locations[name]`, which is the zero value for a name that is absent.
unfoldable pub location_of : Text → Locations → LocationConfig
location_of name [] = record { path = codes ""; max_role = codes "" }
location_of name ((n, config) ∷ locations) =
    if text_eq n name then config else location_of name locations

unfoldable pub insert_name : Text → List Text → List Text
insert_name n [] = n ∷ []
insert_name n (m ∷ names) =
    let rest = insert_name n names in if text_le n m then n ∷ m ∷ names else m ∷ rest

-- SortedNames
unfoldable pub sorted_names : Locations → List Text
unfolding insert_name
sorted_names [] = []
sorted_names ((n, _) ∷ locations) = insert_name n (sorted_names locations)
