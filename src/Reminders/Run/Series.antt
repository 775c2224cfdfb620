-- ===== src/Reminders/Run/Series.antt =====
-- What one run for a reminder of internal/reminders leaves, and a series of runs that nobody answers.
use zcoms_agent.Prelude.{
  ℕ, ◌+◌, ◌≤◌, ◌<◌, true, false, List, [], ◌∷◌, leb, none, some, ◌≡◌, ◌≢◌, ◌∙◌, refl, arith,
  if-either, if◌then◌else◌, inl, inr, ◌⊎◌, Bool-cases, Option-cases,
}
use zcoms_agent.Prelude.Text.{Text, codes, text_eq, trim_space}
use zcoms_agent.Store.Types.{Reminder}
use zcoms_agent.Store.Reminders.{reminder_active, reminder_done}
use zcoms_agent.Reminders.Config.{Config}
use zcoms_agent.Reminders.Fields.{parse_fields, field_of}
use zcoms_agent.Reminders.Run.{
  Effect, ask_plan, event, save, Outside, apply, is_quiet, send_to, retried, after_wait, nudge,
  planned, run_reminder, report_reply,
}
use zcoms_agent.Reminders.Run.Outcome.{
  saves, unanswered, answered, replies_of, IsScheduled, HasTimes, silence, Left, apply-Left,
  retried-Left, before-Left, react-Left,
}

-- The nudges since the last reply that a run leaves: none after a reply, one more after a nudge that
-- nobody answered.
abbrev pub Counted : Config → Outside → Reminder → List Effect → Type 0
Counted c o r l =
    (row : Reminder) × (saves l ≡ row ∷ [])
    × (row.id ≡ r.id)
    × (r.runs ≤ c.max_runs → row.runs ≤ c.max_runs)
    × (((answered l ≡ 0) × (row.runs ≡ r.runs + unanswered l))
        ⊎ ((answered l ≡ 1) × (row.runs ≡ 0) × (o.reply ≢ none)))
    × (HasTimes o → r.state ≡ reminder_active → IsScheduled row)

nudge-Counted :
    (c : Config) (o : Outside) (text : Text) (r : Reminder)
    → r.runs < c.max_runs
    → Counted c o r (nudge o text r)
unfolding send_to
nudge-Counted c o text r below =
    let h : Left o (after_wait o r) (after_wait o r).runs (silence o.reply) (replies_of o.reply)
        (nudge o text r) =
      before-Left o (after_wait o r) _ _ _ (send_to r text) _ refl refl refl (
        before-Left o (after_wait o r) _ _ _ (event r.id (codes "send") text) _ refl refl refl (
          before-Left o (after_wait o r) _ _ _ (event r.id (codes "reply") (report_reply o.reply)) _
            refl refl refl (react-Left o (after_wait o r)))) in
    (
      h.row,
      h.once,
      h.same,
      λ _. ground (arith, h.runs_now),
      by_reply (Option-cases o.reply) h.row.runs (unanswered (nudge o text r))
          (answered (nudge o text r)) h.runs_now h.nudged h.heard,
      h.scheduled,
    )
  where
    by_reply :
        ((o.reply ≡ none) ⊎ ((rep : Text) × (o.reply ≡ some rep)))
        → (runs n m : ℕ) → runs ≡ (after_wait o r).runs
        → n ≡ silence o.reply
        → m ≡ replies_of o.reply
        → ((m ≡ 0) × (runs ≡ r.runs + n)) ⊎ ((m ≡ 1) × (runs ≡ 0) × (o.reply ≢ none))
    by_reply (inl silent) runs n m now nudged heard =
        inl (ground (arith, heard, silent), ground (arith, now, nudged, silent))
    by_reply (inr (rep, came)) runs n m now nudged heard = inr (
      ground (arith, heard, came),
      ground (arith, now, came),
      λ silent. absurd (ground (arith, came, silent)),
    )

opened_run :
    (c : Config) (o : Outside) (r : Reminder) (l : List Effect)
    → Counted c o r l
    → Counted c o r (event r.id (codes "run") (codes "") ∷ ask_plan ∷ l)
unfolding saves unanswered answered
opened_run c o r l (row, once, same, within, counted, scheduled) =
    let more : unanswered (event r.id (codes "run") (codes "") ∷ ask_plan ∷ l) ≡ unanswered l =
      omega arith in
    let same_heard : answered (event r.id (codes "run") (codes "") ∷ ask_plan ∷ l) ≡ answered l =
      omega arith in
    (
      row,
      once,
      same,
      within,
      elim counted [
        | inl (none_heard, total) ↦ inl (same_heard ∙ none_heard, omega (arith, total, more))
        | inr (one_heard, reset, came) ↦ inr (same_heard ∙ one_heard, reset, came)
      ],
      scheduled,
    )

pub run_reminder-Counted :
    (c : Config) (o : Outside) (r : Reminder) → Counted c o r (run_reminder c o r)
unfolding run_reminder saves unanswered answered text_eq
run_reminder-Counted c o r =
    if-either (Counted c o r) (leb c.max_runs r.runs)
      (event r.id (codes "done") (codes "hit the nudge cap without a reply")
        ∷ save (record r { state = reminder_done; next_at = codes "" })
        ∷ [])
      _
      (λ _. (
        record r { state = reminder_done; next_at = codes "" },
        refl,
        refl,
        λ within. within,
        inl (refl, omega arith),
        λ _ _. (λ e. absurd (ground (arith, e)), λ _. refl),
      ))
      (λ below. begun below)
  where
    left : (l : List Effect) → Left o r r.runs 0 0 l → Counted c o r l
    left l h = (
      h.row,
      h.once,
      h.same,
      λ within. ground (arith, h.runs_now),
      inl (h.heard, omega (arith, h.runs_now, h.nudged)),
      h.scheduled,
    )

    begun :
        leb c.max_runs r.runs ≡ false
        → Counted c o r (
            event r.id (codes "run") (codes "")
            ∷ ask_plan
            ∷ (if o.first.is_error then retried o r else planned o r))
    begun below = opened_run c o r (if o.first.is_error then retried o r else planned o r) (
        if-either (Counted c o r) o.first.is_error (retried o r) (planned o r)
          (λ _. left (retried o r) (retried-Left o r))
          (λ _.
            if-either (Counted c o r)
              (is_quiet (trim_space (field_of (codes "send") (parse_fields o.first.text))))
              (apply o (field_of (codes "next") (parse_fields o.first.text))
                (field_of (codes "note") (parse_fields o.first.text)) r)
              (nudge o (trim_space (field_of (codes "send") (parse_fields o.first.text))) r)
              (λ _. left _ (
                apply-Left o (field_of (codes "next") (parse_fields o.first.text))
                  (field_of (codes "note") (parse_fields o.first.text)) r))
              (λ _.
                nudge-Counted c o (trim_space (field_of (codes "send") (parse_fields o.first.text)))
                  r (ground (arith, below)))))

-- What a run leaves of an active reminder.
abbrev pub Settled : Config → Outside → Reminder → List Effect → Type 0
Settled c o r l =
    (row : Reminder) × (saves l ≡ row ∷ [])
    × (row.id ≡ r.id)
    × (row.runs ≤ c.max_runs)
    × (((answered l ≡ 0) × (row.runs ≡ r.runs + unanswered l))
        ⊎ ((answered l ≡ 1) × (row.runs ≡ 0)))
    × (((text_eq row.state reminder_active ≡ true) × (row.next_at ≢ codes ""))
        ⊎ ((text_eq row.state reminder_active ≡ false) × (row.next_at ≡ codes "")))

-- A run saves the row of its reminder exactly once, and the row is active with the time of the next
-- run, or over and without one; its count of nudges is 0 if the agent had to react to a reply, and
-- otherwise grows by the nudges that got none; and it stays within the cap. This holds for a reminder that is active and within the
-- cap, where the clock and the parser of times give no empty text.
pub run_reminder-Settled :
    (c : Config) (o : Outside) (r : Reminder)
    → r.runs ≤ c.max_runs
    → r.state ≡ reminder_active
    → HasTimes o
    → Settled c o r (run_reminder c o r)
run_reminder-Settled c o r within on times =
    let (row, once, same, bound, counted, scheduled) = run_reminder-Counted c o r in
    let (is_on, is_over) = scheduled times on in
    (
      row,
      once,
      same,
      bound within,
      elim counted [ inl silent ↦ inl silent | inr (heard, reset, came) ↦ inr (heard, reset) ],
      elim (Bool-cases (text_eq row.state reminder_active)) [
        | inl active ↦ inl (active, is_on active)
        | inr over ↦ inr (over, is_over over)
      ],
    )

-- The rows of a series of runs, each of the row that the run before it saved.
abbrev pub last_saved : List Reminder → Reminder → Reminder
last_saved [] r = r
last_saved (d ∷ l) r = last_saved l d

unfoldable pub series : Config → List Outside → Reminder → List (List Effect)
series c [] r = []
series c (o ∷ rest) r =
    run_reminder c o r ∷ series c rest (last_saved (saves (run_reminder c o r)) r)

unfoldable pub unanswered_all : List (List Effect) → ℕ
unanswered_all [] = 0
unanswered_all (l ∷ runs) = unanswered l + unanswered_all runs
