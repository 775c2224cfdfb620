-- ===== src/Witnesses/Running.antt =====
-- The theorems about internal/runner at concrete inputs.
use zcoms_agent.Prelude.{concat, Bool, true, false, [], ◌∷◌, ◌++◌, ◌≡◌, ◌≢◌, refl, arith, take, ◌↔◌}
use zcoms_agent.Prelude.Text.{Text, codes, text_eq, to_lower, trim_space}
use zcoms_agent.Runner.Buffer.{BoundedBuffer, write_all}
use zcoms_agent.Runner.Buffer.Bounds.{write_all-take}
use zcoms_agent.Runner.Agents.{AgentConfig, agent_for, backend_claude, backend_codex, no_backend}
use zcoms_agent.Runner.Agents.Choice.{agent_for-installed}
use zcoms_agent.Runner.AllowKeys.{
  allow_key, is_allow_platform, normalize_allow_handle, spelling, bare, wa_digits,
}
use zcoms_agent.Runner.AllowKeys.Canonical.{
  platform_of, allow_key-jid, allow_key-normalize_allow_handle,
}
use zcoms_agent.Runner.AllowKeys.Platforms.{allow_key-platform}

abbrev small_buffer : BoundedBuffer
small_buffer = record { b = codes "err"; max = 5 }

write_all-take_example :
    (write_all small_buffer (codes "or: no" ∷ codes " file" ∷ [])).b
    ≡ take 5 (codes "err" ++ concat (codes "or: no" ∷ codes " file" ∷ []))
write_all-take_example =
    write_all-take small_buffer (codes "or: no" ∷ codes " file" ∷ []) (omega arith)

-- Only codex is installed.
abbrev only_codex : Text → Bool
only_codex b = text_eq b backend_codex

abbrev tasks_claude : AgentConfig
tasks_claude = record { default = backend_claude; tasks = (codes "triage", backend_claude) ∷ [] }

agent_for-installed_example :
    (agent_for only_codex tasks_claude (codes "triage") no_backend ≡ no_backend
      ↔ (only_codex backend_claude ≡ false × only_codex backend_codex ≡ false))
    × (agent_for only_codex tasks_claude (codes "triage") no_backend ≢ no_backend
        → only_codex (agent_for only_codex tasks_claude (codes "triage") no_backend) ≡ true)
agent_for-installed_example =
    agent_for-installed only_codex tasks_claude (codes "triage") no_backend

allow_key-jid_example :
    allow_key (codes "whatsapp") (wa_digits (codes "+961 3 123") ++ codes "@s.whatsapp.net")
    ≡ allow_key (codes "whatsapp") (codes "+961 3 123")
allow_key-jid_example = allow_key-jid (codes "+961 3 123") (codes "s.whatsapp.net")

telegram_is_routed : spelling (platform_of (codes "Telegram")) ≢ bare
unfolding spelling text_eq to_lower trim_space
telegram_is_routed e = ground arith

allow_key-normalize_allow_handle_example :
    allow_key (codes "Telegram") (normalize_allow_handle (codes "Telegram") (codes " Ada "))
    ≡ allow_key (codes "Telegram") (codes " Ada ")
allow_key-normalize_allow_handle_example =
    allow_key-normalize_allow_handle (codes "Telegram") (codes " Ada ") telegram_is_routed

discord_is_platform : is_allow_platform (codes "Discord") ≡ true
unfolding is_allow_platform text_eq to_lower trim_space
discord_is_platform = refl

lower_is_platform : is_allow_platform (codes "discord") ≡ true
unfolding is_allow_platform text_eq to_lower trim_space
lower_is_platform = refl

same_key : allow_key (codes "Discord") (codes "@Ada") ≡ allow_key (codes "discord") (codes "ada")
unfolding allow_key text_eq to_lower trim_space
same_key = refl

allow_key-platform_example : platform_of (codes "Discord") ≡ platform_of (codes "discord")
allow_key-platform_example =
    allow_key-platform (codes "Discord") (codes "discord") (codes "@Ada") (codes "ada")
      discord_is_platform lower_is_platform same_key
