-- ===== src/Reminders/Config.antt =====
-- internal/reminders/config.go: the settings of the reminders, as they stand in the store.
use zcoms_agent.Prelude.{
  ℕ, Bool, true, not, List, [], ◌∷◌, ◌++◌, Option, none, some, ltb, if◌then◌else◌,
}
use zcoms_agent.Prelude.Text.{Text, codes, text_eq, trim_space, one_of}
use zcoms_agent.Prelude.Int.{ℤ, pos, negsuc, atoi}
use zcoms_agent.Store.Types.{Setting}

abbrev pub key_enabled : Text
key_enabled = codes "reminder.enabled"

abbrev pub key_max_runs : Text
key_max_runs = codes "reminder.max_runs"

abbrev pub key_reply_wait : Text
key_reply_wait = codes "reminder.reply_wait_mins"

pub record Config : Type 0 where
  pub enabled : Bool
  pub max_runs : ℕ
  pub reply_wait_mins : ℕ

-- DefaultConfig
abbrev pub default_config : Config
default_config = record { enabled = true; max_runs = 40; reply_wait_mins = 10 }

-- A lookup in the map of the settings.
unfoldable pub setting : Text → List Setting → Option Text
setting key [] = none
setting key (s ∷ settings) =
    let rest : Option Text = setting key settings in
    if text_eq s.key key then some s.value else rest

abbrev positive_or : ℕ → Option ℤ → ℕ
positive_or def none = def
positive_or def (some (negsuc n)) = def
positive_or def (some (pos n)) = if ltb 0 n then n else def

-- posIntOr, where a key that is missing reads as the empty text
unfoldable pub pos_int_or : Option Text → ℕ → ℕ
pos_int_or none def = positive_or def (atoi (trim_space (codes "")))
pos_int_or (some s) def = positive_or def (atoi (trim_space s))

abbrev is_on : Option Text → Bool
is_on none = true
is_on (some v) = not (one_of v (codes "false" ∷ codes "0" ∷ codes "off" ∷ []))

-- configFromMap
unfoldable pub config_from_map : List Setting → Config
unfolding setting pos_int_or
config_from_map m = record {
  enabled = is_on (setting key_enabled m);
  max_runs = pos_int_or (setting key_max_runs m) default_config.max_runs;
  reply_wait_mins = pos_int_or (setting key_reply_wait m) default_config.reply_wait_mins;
}

abbrev is_key : Text → Bool
is_key k = one_of k (key_enabled ∷ key_max_runs ∷ key_reply_wait ∷ [])

-- SettingKey
unfoldable pub setting_key : Text → Text
setting_key field =
    let k : Text = codes "reminder." ++ trim_space field in
    if is_key k then k else if is_key field then field else codes ""
