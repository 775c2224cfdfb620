-- ===== src/Errands/Drive/Leads.antt =====
-- What the contact of an errand of internal/errands gets from the loop.
use zcoms_agent.Prelude.{
  ℕ, suc, Bool, true, false, List, [], ◌∷◌, Option, none, some, ◌⊎◌, inl, inr, ◌≡◌, refl, ◌∙◌,
  arith, if-either, append_empty,
}
use zcoms_agent.Prelude.Text.{Text, codes, text_eq}
use zcoms_agent.Runner.Agents.{no_backend}
use zcoms_agent.Errands.Errand.{
  Status, pending_approval, active, producing, done, cancelled, failed, Prompt, is_pending,
}
use zcoms_agent.Errands.Task.{
  OwnerMessage, no_agent_cli, no_working_dir, run, Call, Flight, asking, making, Machine, Task,
  emit, tell, set_errand, set_errand_status, interviewer, producer,
}
use zcoms_agent.Errands.Interview.{start_interview_turn}
use zcoms_agent.Errands.Producer.{start_worker_turn}
use zcoms_agent.Errands.Drive.{
  rest, or_settle, or_rest, enter_at, enter, pop, drive_from, drive, settle_with,
  drive_errand_async,
}
use zcoms_agent.Errands.Drive.Frame.{
  messages, files, messages-emit, files-emit, Silent, tell-Silent,
}
use zcoms_agent.Errands.Drive.Turns.{Moves, Moves-after, set_errand_status-Moves}

-- From a task to a later one: an errand that still waits for approval has waited throughout, and
-- its contact has got nothing; and no file has gone to a contact to whom nothing is delivered.
pub record Leads (t u : Task) : Type 0 where
  pub deliver : u.errand.deliver_to_target ≡ t.errand.deliver_to_target
  pub files : t.errand.deliver_to_target ≡ false → files u.effects ≡ files t.effects
  pub waited : is_pending u.errand ≡ true → is_pending t.errand ≡ true
  pub untold : is_pending u.errand ≡ true → messages u.effects ≡ messages t.effects

pub Leads-trans : {t u v : Task} → Leads t u → Leads u v → Leads t v
Leads-trans p q = record {
  deliver = q.deliver ∙ p.deliver;
  files = λ off. q.files (p.deliver ∙ off) ∙ p.files off;
  waited = λ w. p.waited (q.waited w);
  untold = λ w. q.untold w ∙ p.untold (q.waited w);
}

pub Leads-refl : (t : Task) → Leads t t
Leads-refl t = record { deliver = refl; files = λ _. refl; waited = λ w. w; untold = λ _. refl }

pub Silent-Leads : {t u : Task} → Silent t u → Leads t u
Silent-Leads h = record {
  deliver = h.steady.deliver;
  files = λ _. h.files;
  waited = λ w. ground (arith, h.steady.status);
  untold = λ _. h.messages;
}

pub Moves-Leads : (s : Status) {t u : Task} → Moves s t u → is_pending u.errand ≡ false → Leads t u
Moves-Leads s h over = record {
  deliver = h.deliver;
  files = λ _. h.files;
  waited = λ w. absurd (ground (arith, over));
  untold = λ _. h.messages;
}

pub rest-Leads : (t : Task) → Leads t (rest t)
unfolding rest set_errand
rest-Leads t = record { deliver = refl; files = λ _. refl; waited = λ w. w; untold = λ _. refl }

pop-Leads : (l : List Prompt) (t : Task) → Leads t (pop l t)
unfolding pop set_errand
pop-Leads l t = record { deliver = refl; files = λ _. refl; waited = λ w. w; untold = λ _. refl }

run-Leads : (c : Call) (f : Flight) (t : Task) → Leads t (record (emit (run c) t) { flight = f })
unfolding emit
run-Leads c f t = record {
  deliver = refl;
  files = λ _. rw (files-emit t.effects (run c)) (append_empty (files t.effects));
  waited = λ w. w;
  untold = λ _. rw (messages-emit t.effects (run c)) (append_empty (messages t.effects));
}

failed-Leads : (m : OwnerMessage) (t : Task) → Leads t (set_errand_status failed (tell m t))
failed-Leads m t =
    let k : Moves failed t (set_errand_status failed (tell m t)) =
      Moves-after (tell-Silent m t) (set_errand_status-Moves failed (tell m t)) in
    Moves-Leads failed k (ground (arith, k.status))

abbrev LeadsEither : Task → Task ⊎ Task → Type 0
LeadsEither t (inl u) = Leads t u
LeadsEither t (inr u) = Leads t u

start_interview-Leads :
    (m : Machine) (prompt : Prompt) (n : ℕ) (t : Task)
    → LeadsEither t (or_settle (start_interview_turn m prompt n t))
unfolding start_interview_turn
start_interview-Leads m prompt n t =
    if-either (λ (r : Bool × Task). LeadsEither t (or_settle r)) (text_eq m.backend no_backend)
      (false, set_errand_status failed (tell no_agent_cli t)) _ (λ _. failed-Leads no_agent_cli t)
      (λ _. by_dir (m.staging t.errand.id))
  where
    call : Call
    call = record {
      agent = interviewer;
      prompt = prompt;
      seeded = text_eq t.errand.interview_session_id (codes "");
      resume = t.errand.interview_session_id;
      writable = false;
    }

    by_dir :
        (dir : Option Text)
        → LeadsEither t (
            or_settle (elim dir [
              | none ↦ (false, set_errand_status failed (tell no_working_dir t))
              | some d ↦ (true, record (emit (run call) t) { flight = asking n })
            ]))
    by_dir none = failed-Leads no_working_dir t
    by_dir (some d) = run-Leads call (asking n) t

start_worker-Leads :
    (m : Machine) (prompt : Prompt) (n : ℕ) (t : Task)
    → LeadsEither t (or_rest (start_worker_turn m prompt n t))
unfolding start_worker_turn
start_worker-Leads m prompt n t = by_dir (m.staging t.errand.id)
  where
    call : Call
    call = record {
      agent = producer;
      prompt = prompt;
      seeded = text_eq t.errand.worker_session_id (codes "");
      resume = t.errand.worker_session_id;
      writable = true;
    }

    by_dir :
        (dir : Option Text)
        → LeadsEither t (
            or_rest (elim dir [
              | none ↦ (false, set_errand_status failed (tell no_working_dir t))
              | some d ↦ (true, record (emit (run call) t) { flight = making n })
            ]))
    by_dir none = Leads-trans (failed-Leads no_working_dir t) (rest-Leads _)
    by_dir (some d) = run-Leads call (making n) t

enter_at-Leads :
    (m : Machine) (prompt : Prompt) (n : ℕ) (t : Task) (s : Status)
    → LeadsEither t (enter_at m prompt n t s)
enter_at-Leads m prompt n t pending_approval = start_interview-Leads m prompt n t
enter_at-Leads m prompt n t active = start_interview-Leads m prompt n t
enter_at-Leads m prompt n t producing = start_worker-Leads m prompt (suc n) t
enter_at-Leads m prompt n t done = rest-Leads t
enter_at-Leads m prompt n t cancelled = rest-Leads t
enter_at-Leads m prompt n t failed = rest-Leads t

drive_from-Leads :
    (m : Machine) (l : List Prompt) (prompt : Prompt) (n : ℕ) (t : Task)
    → Leads t (drive_from m l prompt n t)
unfolding drive_from enter
drive_from-Leads m [] prompt n t =
    entered (enter_at m prompt n t t.errand.status) (enter_at-Leads m prompt n t t.errand.status)
  where
    entered : (r : Task ⊎ Task) → LeadsEither t r → Leads t (elim r [ inl u ↦ u | inr u ↦ rest u ])
    entered (inl u) k = k
    entered (inr u) k = Leads-trans k (rest-Leads u)
drive_from-Leads m (next ∷ l) prompt n t =
    entered (enter_at m prompt n t t.errand.status) (enter_at-Leads m prompt n t t.errand.status)
      (λ u. drive_from-Leads m l next n (pop l u))
  where
    entered :
        (r : Task ⊎ Task)
        → LeadsEither t r
        → ((u : Task) → Leads (pop l u) (drive_from m l next n (pop l u)))
        → Leads t (elim r [ inl u ↦ u | inr u ↦ drive_from m l next n (pop l u) ])
    entered (inl u) k later = k
    entered (inr u) k later = Leads-trans k (Leads-trans (pop-Leads l u) (later u))

pub drive-Leads : (m : Machine) (prompt : Prompt) (n : ℕ) (t : Task) → Leads t (drive m prompt n t)
unfolding drive
drive-Leads m prompt n t = drive_from-Leads m t.errand.pending prompt n t

pub drive_errand_async-Leads :
    (m : Machine) (prompt : Prompt) (t : Task) → Leads t (drive_errand_async m prompt t)
unfolding drive_errand_async set_errand
drive_errand_async-Leads m prompt t =
    if-either (Leads t) t.errand.busy _ _
      (λ _. record { deliver = refl; files = λ _. refl; waited = λ w. w; untold = λ _. refl })
      (λ _.
        Leads-trans
          (record { deliver = refl; files = λ _. refl; waited = λ w. w; untold = λ _. refl })
          (drive-Leads m prompt 0 (set_errand (λ e. record e { busy = true }) t)))

pub settle-Leads :
    (m : Machine) (n : ℕ) (l : List Prompt) (t : Task) → Leads t (settle_with m n l t)
settle-Leads m n [] t = rest-Leads t
settle-Leads m n (next ∷ l) t = Leads-trans (pop-Leads l t) (drive-Leads m next n (pop l t))
