-- ===== src/Reminders/Handle.antt =====
-- internal/reminders/create.go: HandleCommand, the dispatch of one command about reminders, over the
-- statements of the store.
pub mod Spared
pub mod Writes
pub mod Foreign
use zcoms_agent.Prelude.{
  ℕ, Bool, true, false, not, List, [], ◌∷◌, ◌++◌, ◌||◌, ◌&&◌, Option, none, some, ◌⊎◌, inl, inr,
  if◌then◌else◌,
}
use zcoms_agent.Prelude.Text.{Text, codes, text_eq, trim_space, to_lower, one_of}
use zcoms_agent.Prelude.Text.Split.{fields, join}
use zcoms_agent.Prelude.Int.{ℤ, pos, negsuc, atoi}
use zcoms_agent.Store.Types.{Reminder, AllowEntry, Error, Setting, Result, ok, err, owner}
use zcoms_agent.Store.Db.{Db, World, pure, query, ◌>>=◌, ◌>>◌}
use zcoms_agent.Store.Rows.{select}
use zcoms_agent.Store.Settings.{list_settings, set_setting}
use zcoms_agent.Store.Allow.{list_allow}
use zcoms_agent.Store.Reminders.{active_reminders}
use zcoms_agent.Reminders.Config.{Config, default_config, config_from_map, setting_key}
use zcoms_agent.Reminders.Words.{Requester, key_of, strip_verb, is_self}
use zcoms_agent.Reminders.Requests.{
  Contact, Directory, Refusal, usage, switched_off, Target, interpret_remind, resolve_target,
  requested, save_requested, CancelReply, cancel_reply,
}

-- A reply, with the values that it prints.
pub data Reply : Type 0 where
  help : Reply
  refused : Refusal → Reply
  reminder_set : Reminder → Reply
  listed : List Reminder → Reply
  cancel_usage : Reply
  bad_id : Text → Reply
  no_reminder : ℤ → Reply
  cancelling : CancelReply → Reply
  owner_only : Reply
  settings : Config → Reply
  settings_usage : Reply
  unknown_setting : Text → Reply
  setting_set : Text → Text → Reply
  failed : Error → Reply

abbrev pub reply_of : {A : Type 0} → (A → Reply) → Result A × World → Result Reply × World
reply_of f (ok a, w) = (ok (f a), w)
reply_of f (err e, w) = (ok (failed e), w)

-- An error of the store becomes a reply.
unfoldable pub replied : {A : Type 0} → (A → Reply) → Db A → Db Reply
replied f m w = reply_of f (m w)

abbrev pub value_or : {A : Type 0} → A → Result A × World → Result A × World
value_or a (ok b, w) = (ok b, w)
value_or a (err e, w) = (ok a, w)

-- What is read, or a default on an error of the store.
unfoldable pub read_or : {A : Type 0} → A → Db A → Db A
read_or a m w = value_or a (m w)

-- LoadConfig; where the query fails there are no settings, and the configuration is the default.
unfoldable pub load_config : Db Config
unfolding read_or list_settings config_from_map
load_config = do m ← read_or [] list_settings; pure (config_from_map m)

abbrev has_match : Option (List Contact) → Bool
has_match none = false
has_match (some []) = false
has_match (some (c ∷ more)) = true

-- When resolveTarget asks for the allowlist.
abbrev pub asks_allow : Directory → Requester → Text → Bool
asks_allow d q who = not (is_self who) && not q.owner && has_match (d.contacts who)

abbrev pub saved_or_refused : Refusal ⊎ Reminder → Db Reply
saved_or_refused (inl e) = pure (refused e)
saved_or_refused (inr r) = replied reminder_set (save_requested r)

abbrev pub understood : Directory → Requester → Text → Option (Text × Text) → Db Reply
understood d q text none = pure (refused usage)
understood d q text (some (who, task)) = do
  c ← load_config
  entries ← (if c.enabled && asks_allow d q who then read_or [] list_allow else pure [])
  saved_or_refused (requested d entries c.enabled q text)

-- createReply
unfoldable pub create_reply : Directory → Requester → Text → Db Reply
unfolding load_config read_or list_allow replied save_requested requested is_self interpret_remind
create_reply d q text = understood d q text (interpret_remind d text)

-- listReply
unfoldable pub list_reply : Requester → Db Reply
unfolding active_reminders replied key_of select
list_reply q =
    replied (λ rs. listed (select (λ r. q.owner || text_eq r.from_addr (key_of q)) rs))
      active_reminders

abbrev pub by_id : Requester → Text → Option ℤ → Db Reply
by_id q arg none = pure (bad_id arg)
by_id q arg (some (pos i)) = replied cancelling (cancel_reply q i)
by_id q arg (some (negsuc i)) = replied (λ found. no_reminder (negsuc i)) (query (λ db. tt))

-- cancelReply
unfoldable pub cancel_reply_of : Requester → List Text → Db Reply
unfolding replied cancel_reply
cancel_reply_of q [] = pure cancel_usage
cancel_reply_of q (arg ∷ args) = by_id q arg (atoi arg)

abbrev set_key : Text → Text → Text → Db Reply
set_key arg key value =
    if text_eq key (codes "")
    then pure (unknown_setting arg)
    else replied (λ done. setting_set arg value) (set_setting owner key value)

abbrev pub settings_of_owner : List Text → Config → Db Reply
settings_of_owner [] c = pure (settings c)
settings_of_owner (arg ∷ []) c = pure settings_usage
settings_of_owner (arg ∷ v ∷ vs) c =
    set_key arg (setting_key arg) (trim_space (join (codes " ") (v ∷ vs)))

-- settingsReply
unfoldable pub settings_reply : Requester → List Text → Db Reply
unfolding load_config replied set_setting setting_key
settings_reply q args =
    if q.owner then (do c ← load_config; settings_of_owner args c) else pure owner_only

abbrev pub dispatch : Directory → Requester → Text → List Text → Db Reply
dispatch d q text [] = pure help
dispatch d q text (word ∷ args) =
    if one_of (to_lower (trim_space word)) (codes "help" ∷ codes "?" ∷ [])
    then pure help
    else if one_of (to_lower (trim_space word)) (codes "list" ∷ codes "ls" ∷ [])
    then list_reply q
    else if one_of (to_lower (trim_space word)) (codes "cancel" ∷ codes "rm" ∷ codes "stop" ∷ [])
    then cancel_reply_of q args
    else if one_of (to_lower (trim_space word))
        (codes "settings" ∷ codes "config" ∷ codes "set" ∷ [])
    then settings_reply q args
    else create_reply d q text

-- HandleCommand
unfoldable pub handle_command : Directory → Requester → Text → Db Reply
unfolding list_reply cancel_reply_of settings_reply create_reply strip_verb
handle_command d q text = dispatch d q text (fields (trim_space (strip_verb text)))
