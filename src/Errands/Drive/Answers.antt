-- ===== src/Errands/Drive/Answers.antt =====
-- The ends of the turns and what starts the loop in internal/errands keep the loop sound.
use zcoms_agent.Prelude.{
  ℕ, Bool, true, false, List, [], ◌∷◌, ◌≡◌, refl, ◌∙◌, sym, arith, if-either, leb,
}
use mathlib.Core.Path.{subst}
use zcoms_agent.Errands.Errand.{
  Status, failed, Prompt, worker_start, worker_continue, is_interviewing, is_active,
}
use zcoms_agent.Errands.Task.{
  not_finished, Flight, at_rest, asking, making, Machine, Task, tell, set_errand, set_errand_status,
}
use zcoms_agent.Errands.Interview.{AgentResult, end_interview_turn, begin_producing}
use zcoms_agent.Errands.Producer.{end_worker_turn}
use zcoms_agent.Errands.Drive.{
  rest, pop, drive, settle_with, after_interview, max_worker_turns, after_worker, answer_in, answer,
  drive_errand_async,
}
use zcoms_agent.Errands.Drive.Frame.{Steady, tell-Silent}
use zcoms_agent.Errands.Drive.Turns.{
  Moves, Moves-after, set_errand_status-Moves, end_interview_turn-Steady, begin_producing-Hands,
}
use zcoms_agent.Errands.Drive.Work.{end_worker_turn-Worked, Worked}
use zcoms_agent.Errands.Drive.Sound.{SoundAt, Sound, Ready, rest-Sound, pop-Ready, drive-Sound}

-- A change that the loop does not see keeps it sound.
pub Steady-Sound : (t u : Task) → Steady t u → Sound t → Sound u
unfolding is_interviewing
Steady-Sound t u h s = subst (λ f. SoundAt f u) (sym h.flight) (by_flight t.flight s)
  where
    by_flight : (f : Flight) → SoundAt f t → SoundAt f u
    by_flight at_rest k = (
      h.busy ∙ k.0,
      omega (arith, h.runs, k.1),
      λ e. let old = k.2 (ground (arith, h.status)) in (h.pending ∙ old.0, h.runs ∙ old.1),
    )
    by_flight (asking n) k = (h.busy ∙ k.0, k.1, h.runs ∙ k.2)
    by_flight (making n) k = (h.busy ∙ k.0, h.runs ∙ k.1, k.2, ground (arith, h.status, k.3))

-- So does a status with which the errand no longer talks to its contact.
pub Moves-Sound :
    (s : Status) (t u : Task) → Moves s t u → is_interviewing u.errand ≡ false → Sound t → Sound u
Moves-Sound s t u h silent k = subst (λ f. SoundAt f u) (sym h.flight) (by_flight t.flight k)
  where
    by_flight : (f : Flight) → SoundAt f t → SoundAt f u
    by_flight at_rest k =
        (h.busy ∙ k.0, omega (arith, h.runs, k.1), λ e. absurd (ground (arith, silent)))
    by_flight (asking n) k = (h.busy ∙ k.0, k.1, h.runs ∙ k.2)
    by_flight (making n) k = (h.busy ∙ k.0, h.runs ∙ k.1, k.2, silent)

settle-Sound :
    (m : Machine) (n : ℕ) (l : List Prompt) (t : Task)
    → Ready n t
    → n ≡ 0
    → t.errand.pending ≡ l
    → Sound (settle_with m n l t)
settle-Sound m n [] t h none_yet e =
    rest-Sound t (omega (arith, h.counted, h.bound)) (λ _. (e, h.counted ∙ none_yet))
settle-Sound m n (next ∷ l) t h none_yet e = drive-Sound m next n (pop l t) (pop-Ready n l t h)

asking-Sound :
    (m : Machine) (a : AgentResult) (n : ℕ) (t : Task)
    → SoundAt (asking n) t
    → Sound (after_interview m n (end_interview_turn m a t))
asking-Sound m a n t k = by_handoff (end_interview_turn m a t) (end_interview_turn-Steady m a t)
  where
    by_handoff : (r : Bool × Task) → Steady t r.1 → Sound (after_interview m n r)
    by_handoff (false, u) h =
        settle-Sound m n u.errand.pending u
          (record {
            busy = h.busy ∙ k.0;
            counted = h.runs ∙ k.2 ∙ sym k.1;
            bound = omega (arith, k.1);
            talks = λ _. k.1;
          })
          k.1 refl
    by_handoff (true, u) h =
        let g = begin_producing-Hands m u in
        drive-Sound m worker_start n (begin_producing m u) (record {
          busy = g.busy ∙ h.busy ∙ k.0;
          counted = g.runs ∙ h.runs ∙ k.2 ∙ sym k.1;
          bound = omega (arith, k.1);
          talks = λ _. k.1;
        })

making-Sound :
    (m : Machine) (a : AgentResult) (n : ℕ) (t : Task)
    → SoundAt (making n) t
    → Sound (after_worker m n (end_worker_turn m a t))
unfolding is_interviewing is_active
making-Sound m a n t k = by_end (end_worker_turn m a t) (end_worker_turn-Worked m a t)
  where
    by_end : (r : Bool × Task) → Worked t r → Sound (after_worker m n r)
    by_end (true, u) h =
        rest-Sound u (omega (arith, h.runs, k.1, k.2)) (λ e. absurd (ground (arith, h.closed refl)))
    by_end (false, u) h =
        let stopped : Moves failed u (set_errand_status failed (tell not_finished u)) =
          Moves-after (tell-Silent not_finished u) (set_errand_status-Moves failed _) in
        if-either Sound (leb max_worker_turns n)
          (rest (set_errand_status failed (tell not_finished u))) (drive m worker_continue n u)
          (λ _.
            rest-Sound _ (omega (arith, stopped.runs, h.runs, k.1, k.2))
              (λ e. absurd (ground (arith, stopped.status))))
          (λ more. drive-Sound m worker_continue n u (record {
            busy = h.busy ∙ k.0;
            counted = h.runs ∙ k.1;
            bound = ground (arith, more);
            talks = λ e. absurd (ground (arith, k.3, h.open_still refl));
          }))

pub answer-Sound : (m : Machine) (a : AgentResult) (t : Task) → Sound t → Sound (answer m a t)
unfolding answer
answer-Sound m a t s = by_flight t.flight refl s
  where
    by_flight : (f : Flight) → t.flight ≡ f → SoundAt f t → Sound (answer_in m a f t)
    by_flight at_rest e k = rw e k
    by_flight (asking n) e k = asking-Sound m a n t k
    by_flight (making n) e k = making-Sound m a n t k

-- While a turn is in flight a prompt is buffered; at rest it starts the loop.
pub drive_errand_async-Sound :
    (m : Machine) (prompt : Prompt) (t : Task)
    → Sound t
    → is_interviewing t.errand ≡ true
    → Sound (drive_errand_async m prompt t)
unfolding drive_errand_async set_errand is_interviewing
drive_errand_async-Sound m prompt t s talks = by_flight t.flight refl s
  where
    by_flight : (f : Flight) → t.flight ≡ f → SoundAt f t → Sound (drive_errand_async m prompt t)
    by_flight at_rest e k = rw k.0 (
        drive-Sound m prompt 0 (set_errand (λ e. record e { busy = true }) t)
          (record { busy = refl; counted = (k.2 talks).1; bound = omega arith; talks = λ _. refl }))
    by_flight (asking n) e k = rw (k.0, e) (refl, k.1, k.2)
    by_flight (making n) e k = absurd (ground (arith, k.3, talks))
