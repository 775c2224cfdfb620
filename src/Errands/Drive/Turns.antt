-- ===== src/Errands/Drive/Turns.antt =====
-- What the ends and the starts of the turns in internal/errands do to the control of its loop.
use zcoms_agent.Prelude.{
  ℕ, Bool, true, false, [], ◌++◌, ◌≡◌, refl, ◌∙◌, arith, if-either, ◌&&◌, ◌==◌,
}
use zcoms_agent.Prelude.Text.{Text, codes, text_eq}
use zcoms_agent.Prelude.Text.Split.{split_on}
use zcoms_agent.Errands.Errand.{Status, producing, is_pending}
use zcoms_agent.Errands.Directives.{extract_record_block}
use zcoms_agent.Errands.Task.{
  turn_error, silent_turn, producing_started, sync_claims, Machine, Task, tell, save_errand,
  set_errand, set_errand_status, ensure_interview_file,
}
use zcoms_agent.Errands.Interview.{
  AgentResult, Turn, read_lines, propose, recorded, send_messages, close_turn, note,
  apply_interview_directives, interview_session, end_interview_turn, with_transcript,
  begin_producing,
}
use zcoms_agent.Errands.Drive.Frame.{
  producer_runs, messages, files, Steady, Silent, Steady-trans, Silent-refl, Silent-trans,
  emit-Silent, tell-Silent, save_errand-Silent, set_errand-Silent,
}
use zcoms_agent.Errands.Drive.Parts.{
  ensure_interview_file-Silent, propose-Silent, with_transcript-Silent, deliver_info-Silent,
  recorded-Silent, send_messages-Steady,
}

-- The status is set, and else all is as it was.
pub record Moves (s : Status) (t u : Task) : Type 0 where
  pub status : u.errand.status ≡ s
  pub busy : u.errand.busy ≡ t.errand.busy
  pub pending : u.errand.pending ≡ t.errand.pending
  pub deliver : u.errand.deliver_to_target ≡ t.errand.deliver_to_target
  pub flight : u.flight ≡ t.flight
  pub runs : producer_runs u.effects ≡ producer_runs t.effects
  pub messages : messages u.effects ≡ messages t.effects
  pub files : files u.effects ≡ files t.effects

pub Moves-after : {s : Status} {t u v : Task} → Silent t u → Moves s u v → Moves s t v
Moves-after p q = record {
  status = q.status;
  busy = q.busy ∙ p.steady.busy;
  pending = q.pending ∙ p.steady.pending;
  deliver = q.deliver ∙ p.steady.deliver;
  flight = q.flight ∙ p.steady.flight;
  runs = q.runs ∙ p.steady.runs;
  messages = q.messages ∙ p.messages;
  files = q.files ∙ p.files;
}

pub Moves-before : {s : Status} {t u v : Task} → Moves s t u → Silent u v → Moves s t v
Moves-before p q = record {
  status = q.steady.status ∙ p.status;
  busy = q.steady.busy ∙ p.busy;
  pending = q.steady.pending ∙ p.pending;
  deliver = q.steady.deliver ∙ p.deliver;
  flight = q.steady.flight ∙ p.flight;
  runs = q.steady.runs ∙ p.runs;
  messages = q.messages ∙ p.messages;
  files = q.files ∙ p.files;
}

pub set_errand_status-Moves : (s : Status) (t : Task) → Moves s t (set_errand_status s t)
unfolding set_errand_status set_errand
set_errand_status-Moves s t =
    Moves-before set
      (Silent-trans (save_errand-Silent _) (emit-Silent sync_claims _ refl refl refl))
  where
    set : Moves s t (set_errand (λ e. record e { status = s }) t)
    set = record {
      status = refl;
      busy = refl;
      pending = refl;
      deliver = refl;
      flight = refl;
      runs = refl;
      messages = refl;
      files = refl;
    }

pub close_turn-Silent :
    (r : Turn) (content : Text) (sent : ℕ) (t : Task) → Silent t (close_turn r content (sent, t)).1
close_turn-Silent r content sent t =
    if-either (λ (p : Bool × Task). Silent t p.1) r.handoff (true, t) _ (λ _. Silent-refl t)
      (λ _.
        if-either (λ (p : Bool × Task). Silent t p.1) (sent == 0 && text_eq content (codes ""))
          (false, save_errand (tell (silent_turn (note r)) t)) (false, save_errand t)
          (λ _. Silent-trans (tell-Silent (silent_turn (note r)) t) (save_errand-Silent _))
          (λ _. save_errand-Silent t))

apply-Steady :
    (m : Machine) (text : Text) (t : Task) → Steady t (apply_interview_directives m text t).1
unfolding apply_interview_directives
apply-Steady m text t =
    let r : Turn = read_lines (split_on 10 text) in
    let content : Text = extract_record_block text in
    let u : Task = recorded m content t in
    let p : ℕ × Task = send_messages m 0 r.msgs u in
    if-either (λ (q : Bool × Task). Steady t q.1) (is_pending t.errand) (false, propose r t) _
      (λ _. (propose-Silent r t).steady)
      (λ _. Steady-trans (recorded-Silent m content t).steady (
        Steady-trans (send_messages-Steady m 0 r.msgs u)
          (close_turn-Silent r content p.0 p.1).steady))

pub interview_session-Silent : (a : AgentResult) (t : Task) → Silent t (interview_session a t)
interview_session-Silent a t =
    if-either (Silent t) _ _ _ (λ _. Silent-refl t)
      (λ _.
        set_errand-Silent (λ e. record e { interview_session_id = a.session_id }) t refl refl refl
          refl)

pub end_interview_turn-Steady :
    (m : Machine) (a : AgentResult) (t : Task) → Steady t (end_interview_turn m a t).1
unfolding end_interview_turn
end_interview_turn-Steady m a t =
    let u : Task = save_errand (interview_session a t) in
    let first : Steady t u =
      (Silent-trans (interview_session-Silent a t) (save_errand-Silent _)).steady in
    if-either (λ (q : Bool × Task). Steady t q.1) a.is_error (false, tell turn_error u) _
      (λ _. Steady-trans first (tell-Silent turn_error u).steady)
      (λ _. Steady-trans first (apply-Steady m a.text u))

-- While the errand waits for approval, the contact gets nothing of a turn.
pub end_interview_turn-Silent :
    (m : Machine) (a : AgentResult) (t : Task)
    → is_pending t.errand ≡ true
    → Silent t (end_interview_turn m a t).1
unfolding end_interview_turn apply_interview_directives
end_interview_turn-Silent m a t waits =
    let u : Task = save_errand (interview_session a t) in
    let first : Silent t u = Silent-trans (interview_session-Silent a t) (save_errand-Silent _) in
    let r : Turn = read_lines (split_on 10 a.text) in
    if-either (λ (q : Bool × Task). Silent t q.1) a.is_error (false, tell turn_error u) _
      (λ _. Silent-trans first (tell-Silent turn_error u))
      (λ _.
        if-either (λ (q : Bool × Task). Silent t q.1) (is_pending u.errand) (false, propose r u) _
          (λ _. Silent-trans first (propose-Silent r u))
          (λ over. absurd (ground (arith, first.steady.status))))

-- The hand-over: the errand is in production, with no prompt in its buffer.
pub record Hands (t u : Task) : Type 0 where
  pub status : u.errand.status ≡ producing
  pub pending : u.errand.pending ≡ []
  pub busy : u.errand.busy ≡ t.errand.busy
  pub deliver : u.errand.deliver_to_target ≡ t.errand.deliver_to_target
  pub flight : u.flight ≡ t.flight
  pub runs : producer_runs u.effects ≡ producer_runs t.effects
  pub messages : messages u.effects ≡ messages t.effects
  pub files : files u.effects ≡ files t.effects

pub begin_producing-Hands : (m : Machine) (t : Task) → Hands t (begin_producing m t)
unfolding begin_producing set_errand
begin_producing-Hands m t =
    let before : Silent t (with_transcript m (ensure_interview_file m t)) =
      Silent-trans (ensure_interview_file-Silent m t) (with_transcript-Silent m _) in
    let after = Silent-trans (save_errand-Silent _) (
      Silent-trans (deliver_info-Silent (codes "Collected info from " ++ t.errand.target_name) _)
        (tell-Silent producing_started _)) in
    record {
      status = after.steady.status;
      pending = after.steady.pending;
      busy = after.steady.busy ∙ before.steady.busy;
      deliver = after.steady.deliver ∙ before.steady.deliver;
      flight = after.steady.flight ∙ before.steady.flight;
      runs = after.steady.runs ∙ before.steady.runs;
      messages = after.messages ∙ before.messages;
      files = after.files ∙ before.files;
    }
