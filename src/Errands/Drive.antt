-- ===== src/Errands/Drive.antt =====
-- internal/errands/errand_run.go: driveErrand, the loop that runs the turns of one errand, and what
-- starts it. The loop waits in RunAgent alone; there, and between errands, all else may happen.
pub mod Frame
pub mod Parts
pub mod Turns
pub mod Work
pub mod Sound
pub mod Answers
pub mod Leads
use zcoms_agent.Prelude.{
  ℕ, suc, Bool, true, false, List, [], ◌∷◌, ◌++◌, Option, none, some, ◌⊎◌, inl, inr, leb, ◌&&◌, not,
  if◌then◌else◌,
}
use zcoms_agent.Prelude.Text.{Text, codes, text_eq, trim_space}
use zcoms_agent.Errands.Errand.{
  Errand, Status, pending_approval, active, producing, done, cancelled, failed, Prompt, begin,
  approval, reply, approved_with, revise, worker_start, worker_continue, is_active, is_interviewing,
  is_pending, mark_seen,
}
use zcoms_agent.Errands.Task.{
  not_finished, sync_claims, mark_read, is_wa, Flight, at_rest, asking, making, Machine, Task, emit,
  tell, save_errand, set_errand, set_errand_status, ensure_interview_file,
}
use zcoms_agent.Errands.Interview.{
  AgentResult, start_interview_turn, end_interview_turn, begin_producing,
}
use zcoms_agent.Errands.Producer.{start_worker_turn, end_worker_turn}

-- The loop returns.
unfoldable pub rest : Task → Task
unfolding set_errand
rest t = record (set_errand (λ e. record e { busy = false }) t) { flight = at_rest }

abbrev pub or_settle : Bool × Task → Task ⊎ Task
or_settle (true, t) = inl t
or_settle (false, t) = inr t

abbrev pub or_rest : Bool × Task → Task ⊎ Task
or_rest (true, t) = inl t
or_rest (false, t) = inl (rest t)

-- A turn by the status, or the end.
abbrev pub enter_at : Machine → Prompt → ℕ → Task → Status → Task ⊎ Task
enter_at m prompt worker_turns t pending_approval =
    or_settle (start_interview_turn m prompt worker_turns t)
enter_at m prompt worker_turns t active = or_settle (start_interview_turn m prompt worker_turns t)
enter_at m prompt worker_turns t producing =
    or_rest (start_worker_turn m prompt (suc worker_turns) t)
enter_at m prompt worker_turns t done = inl (rest t)
enter_at m prompt worker_turns t cancelled = inl (rest t)
enter_at m prompt worker_turns t failed = inl (rest t)

-- The head of the loop. An interview turn that cannot start is settled as one that has ended.
unfoldable pub enter : Machine → Prompt → ℕ → Task → Task ⊎ Task
unfolding rest start_interview_turn start_worker_turn
enter m prompt worker_turns t = enter_at m prompt worker_turns t t.errand.status

unfoldable pub pop : List Prompt → Task → Task
unfolding set_errand
pop later t = set_errand (λ e. record e { pending = later }) t

-- The loop, with the prompts that are buffered.
unfoldable pub drive_from : Machine → List Prompt → Prompt → ℕ → Task → Task
unfolding enter rest pop
drive_from m [] prompt worker_turns t = elim (enter m prompt worker_turns t) [
  | inl t' ↦ t'
  | inr t' ↦ rest t'
]
drive_from m (next ∷ later) prompt worker_turns t = elim (enter m prompt worker_turns t) [
  | inl t' ↦ t'
  | inr t' ↦ drive_from m later next worker_turns (pop later t')
]

unfoldable pub drive : Machine → Prompt → ℕ → Task → Task
unfolding drive_from
drive m prompt worker_turns t = drive_from m t.errand.pending prompt worker_turns t

-- After an interview turn: the next prompt that is buffered, or the end.
abbrev pub settle_with : Machine → ℕ → List Prompt → Task → Task
settle_with m worker_turns [] t = rest t
settle_with m worker_turns (next ∷ later) t = drive m next worker_turns (pop later t)

abbrev pub after_interview : Machine → ℕ → Bool × Task → Task
after_interview m worker_turns (true, t) = drive m worker_start worker_turns (begin_producing m t)
after_interview m worker_turns (false, t) = settle_with m worker_turns t.errand.pending t

-- maxWorkerTurns
abbrev pub max_worker_turns : ℕ
max_worker_turns = 4

abbrev pub after_worker : Machine → ℕ → Bool × Task → Task
after_worker m worker_turns (true, t) = rest t
after_worker m worker_turns (false, t) =
    if leb max_worker_turns worker_turns
    then rest (set_errand_status failed (tell not_finished t))
    else drive m worker_continue worker_turns t

abbrev pub answer_in : Machine → AgentResult → Flight → Task → Task
answer_in m a at_rest t = t
answer_in m a (asking worker_turns) t = after_interview m worker_turns (end_interview_turn m a t)
answer_in m a (making worker_turns) t = after_worker m worker_turns (end_worker_turn m a t)

-- RunAgent returns, and the loop goes on to the next call of it or to its end.
unfoldable pub answer : Machine → AgentResult → Task → Task
unfolding drive rest tell set_errand_status begin_producing end_interview_turn end_worker_turn
answer m a t = answer_in m a t.flight t

-- driveErrandAsync
unfoldable pub drive_errand_async : Machine → Prompt → Task → Task
unfolding drive set_errand
drive_errand_async m prompt t =
    if t.errand.busy
    then set_errand (λ e. record e { pending = e.pending ++ prompt ∷ [] }) t
    else drive m prompt 0 (set_errand (λ e. record e { busy = true }) t)

-- kickErrand
unfoldable pub kick_errand : Machine → Task → Task
unfolding ensure_interview_file drive_errand_async
kick_errand m t =
    if t.errand.auto_start
    then drive_errand_async m begin (ensure_interview_file m t)
    else drive_errand_async m approval t

-- approveErrand
unfoldable pub approve_errand : Machine → Text → Task → Task
unfolding set_errand_status ensure_interview_file drive_errand_async
approve_errand m tweak t =
    drive_errand_async m
      (if text_eq (trim_space tweak) (codes "") then begin else approved_with (trim_space tweak))
      (ensure_interview_file m (set_errand_status active t))

-- feedErrand
unfoldable pub feed_errand : Machine → Text → Text → Task → Task
unfolding set_errand drive_errand_async
feed_errand m text media t =
    drive_errand_async m (reply text media)
      (set_errand (λ e. record e { transcript = e.transcript ++ (codes "A: " ++ text) ∷ [] }) t)

-- cancelErrand, of an errand that is there
unfoldable pub cancel_errand : Task → Task
unfolding emit save_errand set_errand
cancel_errand t =
    emit sync_claims (save_errand (set_errand (λ e. record e { status = cancelled }) t))

-- reviseErrandPlan
unfoldable pub revise_errand_plan : Machine → Text → Task → Task
unfolding drive_errand_async
revise_errand_plan m changes t = drive_errand_async m (revise (trim_space changes)) t

abbrev pub fed : Machine → Text → Text → Task → Bool → Task
fed m text media t fresh =
    if fresh && is_interviewing t.errand then feed_errand m text media (save_errand t) else t

-- A message of WhatsApp is marked read, so that triage leaves it.
abbrev pub read : Text → Task → Task
read id t = if is_wa t.errand && not (text_eq id (codes "")) then emit (mark_read id) t else t

abbrev pub mark : Text → Task → Task × Bool
mark id t = (read id (set_errand (λ e. (mark_seen id e).0) t), (mark_seen id t.errand).1)

-- FeedTelegram and FeedWhatsApp, of the errand to whose chat the message came; `none` if it is over.
unfoldable pub feed : Machine → Text → Text → Text → Task → Option Task
unfolding set_errand save_errand mark_seen is_active is_interviewing feed_errand
feed m id text media t =
    if is_active t.errand then some (fed m text media (mark id t).0 (mark id t).1) else none
