-- ===== src/Witnesses/Erranding.antt =====
-- The theorems about internal/errands at concrete inputs.
use zcoms_agent.Prelude.{ℕ, true, false, List, [], ◌∷◌, ◌≡◌, ◌≢◌, some, ◌≤◌, refl, arith, length}
use zcoms_agent.Prelude.Text.{codes, text_eq}
use zcoms_agent.Prelude.Int.{pos}
use zcoms_agent.Errands.Errand.{
  Errand, active, pending_approval, mark_seen, is_pending, pending_errand,
}
use zcoms_agent.Errands.Errand.Pending.{count_pending, pending_errand-one}
use zcoms_agent.Errands.Errand.Seen.{mark_seen-once}
use zcoms_agent.Errands.Scheduled.{ScheduledErrand, claim_due_scheduled}
use zcoms_agent.Errands.Scheduled.Claims.{IsSplit, claim_due_scheduled-IsSplit}

abbrev cv_errand : Errand
cv_errand = record {
  id = codes "e1";
  status = active;
  brief = codes "ask for the CV";
  owner_chat = pos 1;
  interview_session_id = codes "";
  worker_session_id = codes "";
  interview_file = codes "";
  source = codes "tg";
  target_name = codes "@ada";
  tg_chat = pos 42;
  wa_chat = codes "";
  auto_start = true;
  deliver_to_target = false;
  seen_msg_ids = codes "7" ∷ [];
  transcript = [];
  delivered = false;
  context_files = [];
  busy = false;
  pending = [];
}

mark_seen-once_example :
    (mark_seen (codes "8") (mark_seen (codes "8") cv_errand).0).1 ≡ false
    × length (mark_seen (codes "8") cv_errand).0.seen_msg_ids ≤ 500
mark_seen-once_example = mark_seen-once (codes "8") cv_errand (omega arith)

abbrev at_time : ℕ → ScheduledErrand
at_time n = record {
  id = codes "sch";
  run_at = n;
  target = codes "@ada";
  brief = codes "ask for the CV";
  deliver_to_target = false;
  auto_start = true;
}

abbrev three_times : List ScheduledErrand
three_times = at_time 5 ∷ at_time 12 ∷ at_time 9 ∷ []

claim_due_scheduled-IsSplit_example : IsSplit 10 three_times (claim_due_scheduled 10 three_times)
claim_due_scheduled-IsSplit_example = claim_due_scheduled-IsSplit 10 three_times

abbrev waiting_errand : Errand
waiting_errand = record cv_errand { id = codes "e2"; status = pending_approval; seen_msg_ids = [] }

one_waits : pending_errand (codes "") (cv_errand ∷ waiting_errand ∷ []) ≡ some waiting_errand
unfolding pending_errand text_eq
one_waits = refl

pending_errand-one_example :
    is_pending waiting_errand ≡ true
    × (codes "" ≡ codes "" → count_pending (cv_errand ∷ waiting_errand ∷ []) ≡ 1)
    × (codes "" ≢ codes "" → waiting_errand.id ≡ codes "")
pending_errand-one_example =
    pending_errand-one (codes "") (cv_errand ∷ waiting_errand ∷ []) waiting_errand one_waits
