-- ===== src/Reminders/Handle/Foreign.antt =====
-- What a command about reminders leaves alone: the reminders of others, the settings, the allowlist.
use zcoms_agent.Prelude.{
  Bool, false, not, List, [], ◌∷◌, ◌&&◌, ◌==◌, Option, none, some, ◌⊎◌, inl, inr, ◌≡◌, refl, arith,
  if-either, if◌then◌else◌,
}
use zcoms_agent.Prelude.Text.{Text, codes, text_eq, trim_space, to_lower, one_of}
use zcoms_agent.Prelude.Text.Split.{fields}
use zcoms_agent.Prelude.Int.{ℤ, pos, negsuc, atoi}
use zcoms_agent.Store.Types.{Reminder, AllowEntry, Result, ok, err}
use zcoms_agent.Store.Db.{Db, World, query, pure}
use zcoms_agent.Store.Rows.Keys.{Distinct}
use zcoms_agent.Store.Preserves.{
  Preserves, Preserves-pure, Preserves-bind, Preserves-then, Preserves-query,
}
use zcoms_agent.Store.Settings.{list_settings}
use zcoms_agent.Store.Allow.{list_allow}
use zcoms_agent.Store.Reminders.{active_reminders}
use zcoms_agent.Reminders.Words.{strip_verb, Requester, key_of}
use zcoms_agent.Reminders.Requests.{
  Directory, Target, Refusal, usage, switched_off, for_target, requested, resolve_target,
  interpret_remind, cancel_reply, save_requested, CancelReply,
}
use zcoms_agent.Reminders.Handle.{
  Reply, reply_of, replied, load_config, create_reply, list_reply, cancel_reply_of, settings_reply,
  dispatch, handle_command, cancelling, saved_or_refused, understood, by_id, no_reminder,
  reminder_set, asks_allow, help,
}
use zcoms_agent.Reminders.Handle.Spared.{Spares}
use zcoms_agent.Reminders.Handle.Writes.{
  kept, replied-Spares, read_or-Spares, add_reminder_event-Spares, create_reminder-Spares,
  cancel_reply-Spares,
}

module _ (q : Requester) where
  abbrev Own : Refusal ⊎ Reminder → Type 0
  Own (inl e) = Unit
  Own (inr r) = r.from_addr ≡ key_of q

  requested-Own :
      (d : Directory) (entries : List AllowEntry) (enabled : Bool) (text : Text)
      → Own (requested d entries enabled q text)
  unfolding requested
  requested-Own d entries enabled text = by_words (interpret_remind d text)
    where
      targeted : (task : Text) (t : Refusal ⊎ Target) → Own (for_target d q task t)
      targeted task (inl e) = tt
      targeted task (inr t) = refl

      by_words :
          (o : Option (Text × Text))
          → Own (elim o [
            | none ↦ inl usage
            | some p ↦
                if not enabled
                then inl switched_off
                else for_target d q p.1 (resolve_target d entries q p.0)
          ])
      by_words none = tt
      by_words (some (who, task)) =
          if-either Own (not enabled) (inl switched_off) _ (λ _. tt)
            (λ _. targeted task (resolve_target d entries q who))

  saved_or_refused-Spares :
      (r : Refusal ⊎ Reminder) → Own r → Preserves (Spares q) (saved_or_refused r)
  unfolding save_requested
  saved_or_refused-Spares (inl e) own = Preserves-pure (kept q) _
  saved_or_refused-Spares (inr r) own = replied-Spares q reminder_set (save_requested r) (
      Preserves-bind (kept q) _ _ (create_reminder-Spares q r own) (λ saved.
        Preserves-then (kept q) _ _ (add_reminder_event-Spares q saved.id (codes "create") r.task) (
          Preserves-then (kept q) _ _
            (if-either (Preserves (Spares q)) (text_eq r.carry_over (codes "")) _ _
              (λ _. Preserves-pure (kept q) tt)
              (λ _. add_reminder_event-Spares q saved.id (codes "note") r.carry_over))
            (Preserves-pure (kept q) saved))))

  load_config-Spares : Preserves (Spares q) load_config
  unfolding load_config list_settings
  load_config-Spares =
      Preserves-bind (kept q) _ _ (read_or-Spares q [] _ (Preserves-query (kept q) _))
        (λ m. Preserves-pure (kept q) _)

  create_reply-Spares : (d : Directory) (text : Text) → Preserves (Spares q) (create_reply d q text)
  unfolding create_reply list_allow
  create_reply-Spares d text = by_words (interpret_remind d text)
    where
      by_words : (o : Option (Text × Text)) → Preserves (Spares q) (understood d q text o)
      by_words none = Preserves-pure (kept q) _
      by_words (some (who, task)) = Preserves-bind (kept q) _ _ load_config-Spares (λ c.
          Preserves-bind (kept q) _ _
            (if-either (Preserves (Spares q)) (c.enabled && asks_allow d q who) _ _
              (λ _. read_or-Spares q [] _ (Preserves-query (kept q) _))
              (λ _. Preserves-pure (kept q) []))
            (λ entries. saved_or_refused-Spares _ (requested-Own d entries c.enabled text)))

  list_reply-Spares : Preserves (Spares q) (list_reply q)
  unfolding list_reply active_reminders
  list_reply-Spares = replied-Spares q _ _ (Preserves-query (kept q) _)

  settings_reply-Spares :
      (args : List Text) → q.owner ≡ false → Preserves (Spares q) (settings_reply q args)
  unfolding settings_reply
  settings_reply-Spares args guest =
      if-either (Preserves (Spares q)) q.owner _ _ (λ owns. absurd (ground (arith, owns, guest)))
        (λ _. Preserves-pure (kept q) _)

  cancel_reply_of-Spares :
      (args : List Text) (w : World)
      → Distinct (λ (a b : Reminder). a.id == b.id) w.db.reminders
      → Spares q w.db (cancel_reply_of q args w).1.db
  unfolding cancel_reply_of replied
  cancel_reply_of-Spares [] w ids = (Preserves-pure (kept q) _).at w
  cancel_reply_of-Spares (arg ∷ args) w ids = read_as (atoi arg)
    where
      same :
          (p : Result CancelReply × World)
          → Spares q w.db p.1.db
          → Spares q w.db (reply_of cancelling p).1.db
      same (ok x, v) k = k
      same (err e, v) k = k

      read_as : (o : Option ℤ) → Spares q w.db (by_id q arg o w).1.db
      read_as none = (Preserves-pure (kept q) _).at w
      read_as (some (pos i)) = same (cancel_reply q i w) (cancel_reply-Spares q i w ids)
      read_as (some (negsuc i)) =
          (replied-Spares q (λ found. no_reminder (negsuc i)) (query (λ db. tt))
              (Preserves-query (kept q) _)).at
            w

-- Whatever a person other than the owner commands about reminders, and whatever the agent answers and
-- the driver fails, the reminders that he may not cancel stay as they are, and so do the settings and
-- the allowlist; for tables in which no two reminders have one id.
pub handle_command-Spares :
    (d : Directory) (q : Requester) (text : Text) (w : World)
    → q.owner ≡ false
    → Distinct (λ (a b : Reminder). a.id == b.id) w.db.reminders
    → Spares q w.db (handle_command d q text w).1.db
unfolding handle_command
handle_command-Spares d q text w guest ids = by_word (fields (trim_space (strip_verb text)))
  where
    P : Db Reply → Type 0
    P m = Spares q w.db (m w).1.db

    by_word : (words : List Text) → P (dispatch d q text words)
    by_word [] = (Preserves-pure (kept q) help).at w
    by_word (word ∷ args) =
        if-either P (one_of (to_lower (trim_space word)) (codes "help" ∷ codes "?" ∷ []))
          (pure help) _ (λ _. (Preserves-pure (kept q) help).at w)
          (λ _.
            if-either P (one_of (to_lower (trim_space word)) (codes "list" ∷ codes "ls" ∷ []))
              (list_reply q) _ (λ _. (list_reply-Spares q).at w)
              (λ _.
                if-either P
                  (one_of (to_lower (trim_space word))
                    (codes "cancel" ∷ codes "rm" ∷ codes "stop" ∷ []))
                  (cancel_reply_of q args) _ (λ _. cancel_reply_of-Spares q args w ids)
                  (λ _.
                    if-either P
                      (one_of (to_lower (trim_space word))
                        (codes "settings" ∷ codes "config" ∷ codes "set" ∷ []))
                      (settings_reply q args) _ (λ _. (settings_reply-Spares q args guest).at w)
                      (λ _. (create_reply-Spares q d text).at w))))
