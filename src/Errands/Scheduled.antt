-- ===== src/Errands/Scheduled.antt =====
-- internal/errands/scheduled.go: the errands that wait for their time. An instant is the number of
-- nanoseconds since an epoch before all of them.
pub mod Claims
use zcoms_agent.Prelude.{ℕ, Bool, true, false, not, List, [], ◌∷◌, ltb, if◌then◌else◌}
use zcoms_agent.Prelude.Text.{Text, text_eq}

pub record ScheduledErrand : Type 0 where
  pub id : Text
  pub run_at : ℕ
  pub target : Text
  pub brief : Text
  pub deliver_to_target : Bool
  pub auto_start : Bool

-- !s.RunAt.After(now)
unfoldable pub is_due : ℕ → ScheduledErrand → Bool
is_due now s = not (ltb now s.run_at)

-- claimDueScheduled: what is left of the schedule, and what is claimed.
unfoldable pub claim_due_scheduled :
    ℕ → List ScheduledErrand → List ScheduledErrand × List ScheduledErrand
unfolding is_due
claim_due_scheduled now [] = ([], [])
claim_due_scheduled now (s ∷ scheduled) =
    let rest = claim_due_scheduled now scheduled in
    if is_due now s then (rest.0, s ∷ rest.1) else (s ∷ rest.0, rest.1)

-- unschedule: what is left, and whether the id was there.
unfoldable pub unschedule : Text → List ScheduledErrand → List ScheduledErrand × Bool
unschedule id [] = ([], false)
unschedule id (s ∷ scheduled) =
    let rest = unschedule id scheduled in
    if text_eq s.id id then (scheduled, true) else (s ∷ rest.0, rest.1)
