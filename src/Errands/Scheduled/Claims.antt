-- ===== src/Errands/Scheduled/Claims.antt =====
-- The schedule of internal/errands before and after a claim.
use zcoms_agent.Prelude.{
  ℕ, suc, ◌+◌, ◌≤◌, ◌<◌, ltb, Bool, not, List, [], ◌∷◌, ◌≡◌, arith, All, if-either, if◌then◌else◌,
}
use zcoms_agent.Errands.Scheduled.{ScheduledErrand, is_due, claim_due_scheduled}

-- How often a test holds of the schedules of a list.
unfoldable pub count : (ScheduledErrand → Bool) → List ScheduledErrand → ℕ
count test [] = 0
count test (s ∷ scheduled) = let rest = count test scheduled in if test s then suc rest else rest

abbrev pub IsDue : ℕ → ScheduledErrand → Type 0
IsDue now s = s.run_at ≤ now

abbrev pub IsWaiting : ℕ → ScheduledErrand → Type 0
IsWaiting now s = now < s.run_at

-- What a claim makes of a schedule: what is left, and what is claimed.
abbrev pub IsSplit : ℕ → List ScheduledErrand → List ScheduledErrand × List ScheduledErrand → Type 0
IsSplit now scheduled r =
    All (IsWaiting now) r.0
    × All (IsDue now) r.1
    × ((test : ScheduledErrand → Bool) → count test r.0 + count test r.1 ≡ count test scheduled)

-- A claim of the due errands takes only errands that are due and leaves only errands that are
-- not, and every scheduled errand is on one side exactly as often as it was there.
pub claim_due_scheduled-IsSplit :
    (now : ℕ) (scheduled : List ScheduledErrand)
    → IsSplit now scheduled (claim_due_scheduled now scheduled)
unfolding claim_due_scheduled is_due count
claim_due_scheduled-IsSplit now [] = (tt, tt, λ test. omega arith)
claim_due_scheduled-IsSplit now (s ∷ scheduled) =
    let h = claim_due_scheduled-IsSplit now scheduled in
    if-either (IsSplit now (s ∷ scheduled)) (not (ltb now s.run_at)) _ _
      (λ due. (h.0, (ground (arith, due), h.1), λ test. ground (arith, h.2 test)))
      (λ later. ((ground (arith, later), h.0), h.1, λ test. ground (arith, h.2 test)))
