-- ===== src/Errands/Drive/Sound.antt =====
-- The loop of one errand of internal/errands in any order of events: when it runs, what it buffers, and
-- how often it calls the producer.
use zcoms_agent.Prelude.{
  ℕ, suc, ◌≤◌, ◌<◌, Bool, true, false, List, [], ◌∷◌, Option, none, some, ◌⊎◌, inl, inr, ◌≡◌, refl,
  ◌∙◌, arith, if-either,
}
use zcoms_agent.Prelude.Text.{Text, codes, text_eq}
use zcoms_agent.Runner.Agents.{no_backend}
use zcoms_agent.Errands.Errand.{
  Errand, Status, pending_approval, active, producing, done, cancelled, failed, Prompt,
  is_interviewing,
}
use zcoms_agent.Errands.Task.{
  OwnerMessage, no_agent_cli, no_working_dir, interviewer, producer, run, Call, Flight, at_rest,
  asking, making, Machine, Task, emit, tell, set_errand, set_errand_status,
}
use zcoms_agent.Errands.Interview.{start_interview_turn}
use zcoms_agent.Errands.Producer.{start_worker_turn}
use zcoms_agent.Errands.Drive.{
  rest, or_settle, or_rest, enter_at, enter, pop, drive_from, drive, max_worker_turns,
}
use zcoms_agent.Errands.Drive.Frame.{producer_runs, producer_runs-emit, tell-Silent}
use zcoms_agent.Errands.Drive.Turns.{Moves, Moves-after, set_errand_status-Moves}

abbrev pub runs : Task → ℕ
runs t = producer_runs t.effects

-- What holds of a task, by the turn in flight: the errand is busy exactly with a turn; no prompt is
-- left in the buffer of an errand that is at rest and still talks to its contact; and the producer
-- has been called as often as the loop has counted, four times at most.
abbrev pub SoundAt : Flight → Task → Type 0
SoundAt at_rest t =
    t.errand.busy ≡ false
    × runs t ≤ max_worker_turns
    × (is_interviewing t.errand ≡ true → t.errand.pending ≡ [] × runs t ≡ 0)
SoundAt (asking n) t = t.errand.busy ≡ true × n ≡ 0 × runs t ≡ 0
SoundAt (making n) t =
    t.errand.busy ≡ true × runs t ≡ n × n ≤ max_worker_turns × is_interviewing t.errand ≡ false

abbrev pub Sound : Task → Type 0
Sound t = SoundAt t.flight t

-- The loop stands at its head.
pub record Ready (n : ℕ) (t : Task) : Type 0 where
  pub busy : t.errand.busy ≡ true
  pub counted : runs t ≡ n
  pub bound : n < max_worker_turns
  pub talks : is_interviewing t.errand ≡ true → n ≡ 0

abbrev Entered : ℕ → Task ⊎ Task → Type 0
Entered n (inl u) = Sound u
Entered n (inr u) = Ready n u × is_interviewing u.errand ≡ false

over_of :
    (s : Status) (e : Errand)
    → e.status ≡ s
    → is_interviewing (record e { status = s }) ≡ is_interviewing e
unfolding is_interviewing
over_of s e h = rw h refl

pub rest-Sound :
    (t : Task)
    → runs t ≤ max_worker_turns
    → (is_interviewing t.errand ≡ true → t.errand.pending ≡ [] × runs t ≡ 0)
    → Sound (rest t)
unfolding rest set_errand is_interviewing
rest-Sound t bound idle = (refl, bound, idle)

failed-Ready :
    (n : ℕ) (m : OwnerMessage) (t : Task)
    → Ready n t
    → Ready n (set_errand_status failed (tell m t))
      × is_interviewing (set_errand_status failed (tell m t)).errand ≡ false
unfolding is_interviewing
failed-Ready n m t h =
    let k : Moves failed t (set_errand_status failed (tell m t)) =
      Moves-after (tell-Silent m t) (set_errand_status-Moves failed (tell m t)) in
    (
      record {
        busy = k.busy ∙ h.busy;
        counted = k.runs ∙ h.counted;
        bound = h.bound;
        talks = λ e. absurd (ground (arith, k.status));
      },
      ground (arith, k.status),
    )

start_interview-Entered :
    (m : Machine) (prompt : Prompt) (n : ℕ) (t : Task)
    → Ready n t
    → is_interviewing t.errand ≡ true
    → Entered n (or_settle (start_interview_turn m prompt n t))
unfolding start_interview_turn emit
start_interview-Entered m prompt n t h talks =
    if-either (λ (r : Bool × Task). Entered n (or_settle r)) (text_eq m.backend no_backend)
      (false, set_errand_status failed (tell no_agent_cli t)) _
      (λ _. failed-Ready n no_agent_cli t h) (λ _. by_dir (m.staging t.errand.id))
  where
    call : Call
    call = record {
      agent = interviewer;
      prompt = prompt;
      seeded = text_eq t.errand.interview_session_id (codes "");
      resume = t.errand.interview_session_id;
      writable = false;
    }

    by_dir :
        (dir : Option Text)
        → Entered n (
            or_settle (elim dir [
              | none ↦ (false, set_errand_status failed (tell no_working_dir t))
              | some d ↦ (true, record (emit (run call) t) { flight = asking n })
            ]))
    by_dir none = failed-Ready n no_working_dir t h
    by_dir (some d) = (
      h.busy,
      h.talks talks,
      omega (arith, producer_runs-emit t.effects (run call), h.counted, h.talks talks),
    )

start_worker-Entered :
    (m : Machine) (prompt : Prompt) (n : ℕ) (t : Task)
    → Ready n t
    → is_interviewing t.errand ≡ false
    → Entered n (or_rest (start_worker_turn m prompt (suc n) t))
unfolding start_worker_turn emit
start_worker-Entered m prompt n t h silent = by_dir (m.staging t.errand.id)
  where
    call : Call
    call = record {
      agent = producer;
      prompt = prompt;
      seeded = text_eq t.errand.worker_session_id (codes "");
      resume = t.errand.worker_session_id;
      writable = true;
    }

    by_dir :
        (dir : Option Text)
        → Entered n (
            or_rest (elim dir [
              | none ↦ (false, set_errand_status failed (tell no_working_dir t))
              | some d ↦ (true, record (emit (run call) t) { flight = making (suc n) })
            ]))
    by_dir none =
        let k = failed-Ready n no_working_dir t h in
        rest-Sound (set_errand_status failed (tell no_working_dir t))
          (omega (arith, k.0.counted, h.bound)) (λ e. absurd (ground (arith, k.1)))
    by_dir (some d) = (
      h.busy,
      omega (arith, producer_runs-emit t.effects (run call), h.counted),
      omega (arith, h.bound),
      silent,
    )

rest-Entered :
    (n : ℕ) (t : Task) → Ready n t → is_interviewing t.errand ≡ false → Entered n (inl (rest t))
rest-Entered n t h silent =
    rest-Sound t (omega (arith, h.counted, h.bound)) (λ e. absurd (ground (arith, silent)))

enter_at-Entered :
    (m : Machine) (prompt : Prompt) (n : ℕ) (t : Task) (s : Status)
    → Ready n t
    → t.errand.status ≡ s
    → Entered n (enter_at m prompt n t s)
unfolding is_interviewing
enter_at-Entered m prompt n t pending_approval h e =
    start_interview-Entered m prompt n t h (ground arith)
enter_at-Entered m prompt n t active h e = start_interview-Entered m prompt n t h (ground arith)
enter_at-Entered m prompt n t producing h e = start_worker-Entered m prompt n t h (ground arith)
enter_at-Entered m prompt n t done h e = rest-Entered n t h (ground arith)
enter_at-Entered m prompt n t cancelled h e = rest-Entered n t h (ground arith)
enter_at-Entered m prompt n t failed h e = rest-Entered n t h (ground arith)

enter-Entered :
    (m : Machine) (prompt : Prompt) (n : ℕ) (t : Task) → Ready n t → Entered n (enter m prompt n t)
unfolding enter
enter-Entered m prompt n t h = enter_at-Entered m prompt n t t.errand.status h refl

pub pop-Ready : (n : ℕ) (l : List Prompt) (t : Task) → Ready n t → Ready n (pop l t)
unfolding pop set_errand is_interviewing
pop-Ready n l t h = record { busy = h.busy; counted = h.counted; bound = h.bound; talks = h.talks }

drive_from-Sound :
    (m : Machine) (l : List Prompt) (prompt : Prompt) (n : ℕ) (t : Task)
    → Ready n t
    → Sound (drive_from m l prompt n t)
unfolding drive_from
drive_from-Sound m [] prompt n t h = entered (enter m prompt n t) (enter-Entered m prompt n t h)
  where
    entered : (r : Task ⊎ Task) → Entered n r → Sound (elim r [ inl u ↦ u | inr u ↦ rest u ])
    entered (inl u) k = k
    entered (inr u) k =
        rest-Sound u (omega (arith, k.0.counted, k.0.bound)) (λ e. absurd (ground (arith, k.1)))
drive_from-Sound m (next ∷ l) prompt n t h =
    entered (enter m prompt n t) (enter-Entered m prompt n t h)
      (λ u k. drive_from-Sound m l next n (pop l u) (pop-Ready n l u k))
  where
    entered :
        (r : Task ⊎ Task)
        → Entered n r
        → ((u : Task) → Ready n u → Sound (drive_from m l next n (pop l u)))
        → Sound (elim r [ inl u ↦ u | inr u ↦ drive_from m l next n (pop l u) ])
    entered (inl u) k later = k
    entered (inr u) k later = later u k.0

pub drive-Sound :
    (m : Machine) (prompt : Prompt) (n : ℕ) (t : Task) → Ready n t → Sound (drive m prompt n t)
unfolding drive
drive-Sound m prompt n t h = drive_from-Sound m t.errand.pending prompt n t h
