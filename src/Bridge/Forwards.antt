-- ===== src/Bridge/Forwards.antt =====
-- internal/bridge/comp.go: the commands that another component answers.
use zcoms_agent.Prelude.{
  Bool, true, false, List, [], ◌∷◌, Option, none, some, ◌⊎◌, inl, inr, ◌||◌, ◌==◌, if◌then◌else◌,
  drop, length,
}
use zcoms_agent.Prelude.Text.{Text, codes, text_eq, trim_space, has_prefix, one_of}
use zcoms_agent.Bridge.State.{relayed, failed, Bridge, reply, set_user}
use zcoms_agent.Bridge.Runs.{Machine, TeamReply, not_running, unreadable, answered, is_owner}

unfoldable pub is_errand_command : Text → Bool
is_errand_command lower =
    text_eq lower (codes "errand")
    || text_eq lower (codes "errands")
    || has_prefix lower (codes "errand ")

unfoldable pub is_remind_command : Text → Bool
is_remind_command lower =
    text_eq lower (codes "remind")
    || text_eq lower (codes "reminder")
    || text_eq lower (codes "reminders")
    || has_prefix lower (codes "remind ")
    || has_prefix lower (codes "reminder ")

unfoldable pub is_events_command : Text → Bool
is_events_command lower =
    has_prefix lower (codes "events ")
    || has_prefix lower (codes "agenda ")
    || text_eq lower (codes "events")
    || text_eq lower (codes "agenda")

abbrev has_prefix_of : Text → List Text → Bool
has_prefix_of s [] = false
has_prefix_of s (p ∷ ps) = has_prefix s p || has_prefix_of s ps

-- isTeamCommand
unfoldable pub is_team_command : Text → Bool
is_team_command lower =
    one_of lower (
      codes "add task"
      ∷ codes "add tasks"
      ∷ codes "new task"
      ∷ codes "finish task"
      ∷ codes "team"
      ∷ [])
    || has_prefix_of lower (
        codes "team "
        ∷ codes "delegator "
        ∷ codes "standup "
        ∷ codes "staff "
        ∷ codes "task "
        ∷ codes "agent create "
        ∷ [])

-- isCommerceCommand
unfoldable pub is_commerce_command : Text → Bool
is_commerce_command lower = text_eq lower (codes "commerce") || has_prefix lower (codes "commerce ")

-- handleErrandCommand
unfoldable pub handle_errand_command : Machine → Text → Bridge → Bridge
unfolding reply
handle_errand_command m text b = reply (relayed (m.errands text)) b

abbrev pub remind_reply : Machine → Text → Option (Text → Bool → Text → Text) → Bridge → Bridge
remind_reply m text none b = reply (relayed (codes "Reminders aren't available right now.")) b
remind_reply m text (some answer) b =
    reply (relayed (answer b.user.username (is_owner m b.user) text)) b

-- handleRemindCommand
unfoldable pub handle_remind_command : Machine → Text → Bridge → Bridge
unfolding reply is_owner
handle_remind_command m text b = remind_reply m text m.reminders b

-- What stands after the first blank, trimmed; nothing without one.
unfoldable pub after_blank : Text → Text
unfolding trim_space
after_blank [] = codes ""
after_blank (c ∷ s) = let rest = after_blank s in if c == b' ' then trim_space s else rest

abbrev pub events_reply : Text ⊎ Text → Bridge → Bridge
events_reply (inl e) b = reply (failed e) b
events_reply (inr answer) b = reply (relayed answer) b

abbrev pub events_around : Text → Option (Text → Text ⊎ Text) → Bridge → Bridge
events_around moment none b = reply (relayed (codes "Events aren't available right now.")) b
events_around moment (some around) b = events_reply (around moment) b

-- handleEventsCommand
unfoldable pub handle_events_command : Machine → Text → Bridge → Bridge
unfolding reply after_blank
handle_events_command m text b = events_around (after_blank text) m.events b

-- setTeamSession
unfoldable pub set_team_session : Bool → Bridge → Bridge
unfolding set_user
set_team_session on b = set_user (λ st. record st { team_session = on }) b

abbrev pub team_replied : TeamReply → Bridge → Bridge
team_replied not_running b =
    reply (relayed (codes "The team component isn't running — install it with `zc install team`."))
      (set_team_session false b)
team_replied unreadable b =
    reply (failed (codes "couldn't reach the team component")) (set_team_session false b)
team_replied (answered true continue text) b = reply (relayed text) (set_team_session continue b)
team_replied (answered false continue text) b = reply (failed text) (set_team_session continue b)

-- handleTeamCommand
unfoldable pub handle_team_command : Machine → Text → Bridge → Bridge
unfolding reply set_team_session
handle_team_command m text b = team_replied (m.team text b.user.username) b

-- strings.TrimPrefix(text, "commerce"), which is case-sensitive.
unfoldable pub without_commerce : Text → Text
without_commerce text =
    if has_prefix text (codes "commerce") then drop (length (codes "commerce")) text else text

-- handleCommerceCommand
unfoldable pub handle_commerce_command : Machine → Text → Bridge → Bridge
unfolding reply without_commerce trim_space
handle_commerce_command m text b =
    reply (relayed (m.commerce (trim_space (without_commerce text)) b.user.username)) b
