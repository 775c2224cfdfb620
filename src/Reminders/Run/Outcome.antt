-- ===== src/Reminders/Run/Outcome.antt =====
-- What is left of a run for a reminder of internal/reminders: the row that it saves, and its nudges.
use zcoms_agent.Prelude.{
  ℕ, ◌+◌, Bool, true, false, List, [], ◌∷◌, ◌++◌, Option, none, some, ◌≡◌, ◌≢◌, refl, arith,
  if-either, if◌then◌else◌,
}
use zcoms_agent.Prelude.Text.{Text, codes, text_eq, trim_space, to_lower, one_of, text_eq_iff}
use zcoms_agent.Store.Types.{Reminder}
use zcoms_agent.Store.Reminders.{reminder_active, reminder_done, reminder_cancelled}
use zcoms_agent.Reminders.Fields.{parse_fields, field_of}
use zcoms_agent.Reminders.Run.{
  Effect, ask_plan, ask_react, send, event, save, Outside, at_time, parse_next, decided, apply,
  is_quiet, send_to, retried, answer_back, react,
}

abbrev pub save_of : Effect → List Reminder
save_of (save r) = r ∷ []
save_of ask_plan = []
save_of (ask_react reply s) = []
save_of (send transport addr text) = []
save_of (event id kind detail) = []

-- The rows that are saved.
unfoldable pub saves : List Effect → List Reminder
saves [] = []
saves (e ∷ l) = save_of e ++ saves l

abbrev pub unanswered_of : Effect → ℕ
unanswered_of (ask_react none s) = 1
unanswered_of (ask_react (some rep) s) = 0
unanswered_of ask_plan = 0
unanswered_of (save r) = 0
unanswered_of (send transport addr text) = 0
unanswered_of (event id kind detail) = 0

-- How often the agent had to react to a nudge without a reply.
unfoldable pub unanswered : List Effect → ℕ
unanswered [] = 0
unanswered (e ∷ l) = unanswered_of e + unanswered l

abbrev pub answered_of : Effect → ℕ
answered_of (ask_react none s) = 0
answered_of (ask_react (some rep) s) = 1
answered_of ask_plan = 0
answered_of (save r) = 0
answered_of (send transport addr text) = 0
answered_of (event id kind detail) = 0

-- How often the agent had to react to a reply.
unfoldable pub answered : List Effect → ℕ
answered [] = 0
answered (e ∷ l) = answered_of e + answered l

-- A row that is active has a time for its next run, and any other has none.
abbrev pub IsScheduled : Reminder → Type 0
IsScheduled d =
    (text_eq d.state reminder_active ≡ true → d.next_at ≢ codes "")
    × (text_eq d.state reminder_active ≡ false → d.next_at ≡ codes "")

-- Every time that the outside names is a time.
abbrev pub HasTimes : Outside → Type 0
HasTimes o = o.in_an_hour ≢ codes "" × ((s t : Text) → o.parse_time s ≡ some t → t ≢ codes "")

active_active : text_eq reminder_active reminder_active ≡ true
unfolding text_eq
active_active = refl

next-IsScheduled :
    (o : Outside) (next note : Text) (r : Reminder)
    → HasTimes o
    → IsScheduled (decided note (parse_next o next) r)
unfolding parse_next text_eq
next-IsScheduled o next note r times =
    if-either P
      (one_of (to_lower (trim_space next))
        (codes "done" ∷ codes "finished" ∷ codes "complete" ∷ []))
      (reminder_done, codes "") _ (λ _. (λ e. absurd (ground (arith, e)), λ _. refl))
      (λ _.
        if-either P
          (one_of (to_lower (trim_space next))
            (codes "cancel" ∷ codes "cancelled" ∷ codes "stop" ∷ []))
          (reminder_cancelled, codes "") (at_time o (o.parse_time next))
          (λ _. (λ e. absurd (ground (arith, e)), λ _. refl))
          (λ _. by_time (o.parse_time next) (times.1 next)))
  where
    P : Text × Text → Type 0
    P p = IsScheduled (decided note p r)

    by_time : (t : Option Text) → ((u : Text) → t ≡ some u → u ≢ codes "") → P (at_time o t)
    by_time none named = (λ _. times.0, λ e. absurd (ground (arith, e)))
    by_time (some u) named = (λ _. named u refl, λ e. absurd (ground (arith, e)))

abbrev Sum : List Effect → List Reminder → ℕ → Type 0
Sum l rows n = saves l ≡ rows × unanswered l ≡ n × answered l ≡ 0

-- Events and messages that may stand before the end of a run.
before_event :
    (b : Bool) (id : ℕ) (kind detail : Text) (l : List Effect) (rows : List Reminder) (n : ℕ)
    → Sum l rows n
    → Sum ((if b then [] else event id kind detail ∷ []) ++ l) rows n
unfolding saves unanswered answered
before_event b id kind detail l rows n h =
    if-either (λ (k : List Effect). Sum (k ++ l) rows n) b [] (event id kind detail ∷ []) (λ _. h)
      (λ _. (h.0, omega (arith, h.1), omega (arith, h.2)))

apply-Sum :
    (o : Outside) (next note : Text) (r : Reminder)
    → Sum (apply o next note r) (decided note (parse_next o next) r ∷ []) 0
unfolding apply saves unanswered answered
apply-Sum o next note r =
    let d : Reminder = decided note (parse_next o next) r in
    before_event (text_eq d.state reminder_active) r.id d.state (codes "") _ (d ∷ []) 0 (
      before_event (text_eq d.carry_over (codes "")) r.id (codes "note") d.carry_over (save d ∷ [])
        (d ∷ []) 0 (refl, refl, refl))

-- What is left of a run: the row that it saves, once.
pub record Left (o : Outside) (r : Reminder) (runs n replies : ℕ) (l : List Effect) : Type 0 where
  pub row : Reminder
  pub once : saves l ≡ row ∷ []
  pub same : row.id ≡ r.id
  pub runs_now : row.runs ≡ runs
  pub nudged : unanswered l ≡ n
  pub heard : answered l ≡ replies
  pub scheduled : HasTimes o → r.state ≡ reminder_active → IsScheduled row

pub apply-Left :
    (o : Outside) (next note : Text) (r : Reminder) → Left o r r.runs 0 0 (apply o next note r)
apply-Left o next note r =
    let h = apply-Sum o next note r in
    record {
      row = decided note (parse_next o next) r;
      once = h.0;
      same = refl;
      runs_now = refl;
      nudged = h.1;
      heard = h.2;
      scheduled = λ times _. next-IsScheduled o next note r times;
    }

pub retried-Left : (o : Outside) (r : Reminder) → Left o r r.runs 0 0 (retried o r)
unfolding saves unanswered answered
retried-Left o r = record {
  row = record r { next_at = o.in_an_hour };
  once = refl;
  same = refl;
  runs_now = refl;
  nudged = refl;
  heard = refl;
  scheduled = λ times on. (λ _. times.0, λ off. absurd (active_state r.state on off));
}
  where
    active_state : (s : Text) → s ≡ reminder_active → text_eq s reminder_active ≡ false → ⊥
    active_state s on off = absurd (ground (arith, text_eq_iff s reminder_active))

-- An effect before it that neither saves nor reacts.
pub before-Left :
    (o : Outside) (r : Reminder) (runs n m : ℕ) (e : Effect) (l : List Effect)
    → save_of e ≡ []
    → unanswered_of e ≡ 0
    → answered_of e ≡ 0
    → Left o r runs n m l
    → Left o r runs n m (e ∷ l)
unfolding saves unanswered answered
before-Left o r runs n m e l no_save no_nudge no_reply h = record {
  row = h.row;
  once = rw no_save h.once;
  same = h.same;
  runs_now = h.runs_now;
  nudged = omega (arith, no_nudge, h.nudged);
  heard = omega (arith, no_reply, h.heard);
  scheduled = h.scheduled;
}

answer_back-Left :
    (o : Outside) (r : Reminder) (runs n m : ℕ) (out : Text) (l : List Effect)
    → Left o r runs n m l
    → Left o r runs n m (answer_back r out ++ l)
unfolding send_to
answer_back-Left o r runs n m out l h =
    if-either (λ (k : List Effect). Left o r runs n m (k ++ l)) (is_quiet out) []
      (send_to r out ∷ event r.id (codes "send") out ∷ []) (λ _. h)
      (λ _.
        before-Left o r runs n m (send_to r out) _ refl refl refl
          (before-Left o r runs n m (event r.id (codes "send") out) l refl refl refl h))

abbrev pub silence : Option Text → ℕ
silence none = 1
silence (some rep) = 0

abbrev pub replies_of : Option Text → ℕ
replies_of none = 0
replies_of (some rep) = 1

pub react-Left :
    (o : Outside) (r : Reminder)
    → Left o r r.runs (silence o.reply) (replies_of o.reply) (react o r)
unfolding saves unanswered answered
react-Left o r = asked (reacted)
  where
    reacted : Left o r r.runs 0 0 (
        if o.second.is_error
        then retried o r
        else answer_back r (trim_space (field_of (codes "reply") (parse_fields o.second.text)))
          ++ apply o
              (field_of (codes "next") (parse_fields o.second.text))
              (field_of (codes "note") (parse_fields o.second.text))
              r)
    reacted =
        if-either (Left o r r.runs 0 0) o.second.is_error (retried o r) _ (λ _. retried-Left o r)
          (λ _. answer_back-Left o r r.runs 0 0 _ _ (apply-Left o _ _ r))

    asked :
        {l : List Effect}
        → Left o r r.runs 0 0 l
        → Left o r r.runs
            (silence o.reply)
            (replies_of o.reply)
            (ask_react o.reply o.first.session_id ∷ l)
    asked h = record {
      row = h.row;
      once = h.once;
      same = h.same;
      runs_now = h.runs_now;
      nudged = ground (arith, h.nudged);
      heard = ground (arith, h.heard);
      scheduled = h.scheduled;
    }
