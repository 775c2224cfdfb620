-- ===== src/Errands/Drive/Work.antt =====
-- What a turn of the producer in internal/errands does to the control of the loop, and to the contact.
use zcoms_agent.Prelude.{
  Bool, true, false, not, List, [], ◌∷◌, Option, none, some, ◌≡◌, refl, ◌∙◌, arith, if-either,
  if◌then◌else◌, ◌&&◌, is_empty, append_empty,
}
use zcoms_agent.Prelude.Text.{Text, codes, text_eq, trim_space}
use zcoms_agent.Prelude.Text.Split.{split_on}
use zcoms_agent.Store.Db.{head_fault, tail_faults}
use zcoms_agent.Errands.Errand.{Status, done, failed, is_active}
use zcoms_agent.Errands.Task.{
  producer_error, complete, flagged, file_skipped, file_not_sent, not_delivered, file_to_contact,
  Machine, Task, emit, tell, save_errand, set_errand_status, attempt, is_wa, deliver_to_owner,
  send_file_to_errand_target, errand_resolve_path,
}
use zcoms_agent.Errands.Interview.{AgentResult}
use zcoms_agent.Errands.Producer.{
  Work, read_work, deliver_files, told_or_delivered, told_if_not_sent, send_target_file,
  send_target_files, finish_errand, close_work, apply_worker_directives, worker_session,
  end_worker_turn,
}
use zcoms_agent.Errands.Drive.Frame.{
  producer_runs, messages, files, producer_runs-emit, messages-emit, Steady, Silent, Steady-refl,
  Steady-trans, Silent-refl, Silent-trans, tell-Silent, save_errand-Silent, set_errand-Silent,
}
use zcoms_agent.Errands.Drive.Parts.{
  deliver_to_owner-Silent, delivered_if-Silent, deliver_info-Silent,
}
use zcoms_agent.Errands.Drive.Turns.{Moves, Moves-after, set_errand_status-Moves}

-- The contact gets no message, and a file only where the errand delivers to the contact.
pub record Guarded (t u : Task) : Type 0 where
  pub steady : Steady t u
  pub messages : messages u.effects ≡ messages t.effects
  pub files : t.errand.deliver_to_target ≡ false → files u.effects ≡ files t.effects

pub Guarded-of : {t u : Task} → Silent t u → Guarded t u
Guarded-of h = record { steady = h.steady; messages = h.messages; files = λ _. h.files }

pub Guarded-trans : {t u v : Task} → Guarded t u → Guarded u v → Guarded t v
Guarded-trans p q = record {
  steady = Steady-trans p.steady q.steady;
  messages = q.messages ∙ p.messages;
  files = λ off. q.files (p.steady.deliver ∙ off) ∙ p.files off;
}

deliver_files-Silent :
    (m : Machine) (l : List (Text × Text)) (t : Task) → Silent t (deliver_files m l t)
unfolding deliver_files
deliver_files-Silent m [] t = Silent-refl t
deliver_files-Silent m ((path, caption) ∷ l) t =
    Silent-trans
      (told (deliver_to_owner (errand_resolve_path m t.errand.id path) caption t)
        (deliver_to_owner-Silent (errand_resolve_path m t.errand.id path) caption t))
      (deliver_files-Silent m l _)
  where
    told : (r : Bool × Task) → Silent t r.1 → Silent t (told_or_delivered path r)
    told (false, u) h = Silent-trans h (tell-Silent (not_delivered path) u)
    told (true, u) h = delivered_if-Silent t (true, u) h

spend-Steady : (t : Task) (l : List Bool) → Steady t (record t { faults = l })
spend-Steady t l = record {
  status = refl;
  busy = refl;
  pending = refl;
  deliver = refl;
  flight = refl;
  runs = refl;
}

-- On delivery: the file is sent at most, and nothing else.
record Sends (t u : Task) : Type 0 where
  steady : Steady t u
  messages : messages u.effects ≡ messages t.effects

send_file-Sends :
    (m : Machine) (path caption : Text) (t : Task)
    → Sends t (send_file_to_errand_target m path caption t).1
unfolding send_file_to_errand_target attempt emit
send_file-Sends m path caption t =
    if-either (λ (r : Bool × Task). Sends t r.1) (is_wa t.errand && not m.wa_enabled) (false, t) _
      (λ _. record { steady = Steady-refl t; messages = refl })
      (λ _.
        if-either (λ (r : Bool × Task). Sends t r.1) (head_fault t.faults)
          (false, record t { faults = tail_faults t.faults }) _
          (λ _. record { steady = spend-Steady t (tail_faults t.faults); messages = refl })
          (λ _. record {
            steady = record {
              status = refl;
              busy = refl;
              pending = refl;
              deliver = refl;
              flight = refl;
              runs = omega (arith, producer_runs-emit t.effects (file_to_contact path caption));
            };
            messages =
                rw (messages-emit t.effects (file_to_contact path caption))
                  (append_empty (messages t.effects));
          }))

send_target_file-Guarded :
    (m : Machine) (path caption : Text) (t : Task) → Guarded t (send_target_file m path caption t)
unfolding send_target_file
send_target_file-Guarded m path caption t =
    if-either (Guarded t) (not t.errand.deliver_to_target) (tell file_skipped t) _
      (λ _. Guarded-of (tell-Silent file_skipped t))
      (λ on.
        told on (send_file_to_errand_target m (errand_resolve_path m t.errand.id path) caption t)
          (send_file-Sends m (errand_resolve_path m t.errand.id path) caption t))
  where
    told :
        not t.errand.deliver_to_target ≡ false
        → (r : Bool × Task) → Sends t r.1
        → Guarded t (told_if_not_sent path r)
    told on (true, u) h = record {
      steady = h.steady;
      messages = h.messages;
      files = λ off. absurd (ground arith);
    }
    told on (false, u) h =
        let after : Silent u (tell (file_not_sent path) u) = tell-Silent (file_not_sent path) u in
        record {
          steady = Steady-trans h.steady after.steady;
          messages = after.messages ∙ h.messages;
          files = λ off. absurd (ground arith);
        }

send_target_files-Guarded :
    (m : Machine) (l : List (Text × Text)) (t : Task) → Guarded t (send_target_files m l t)
unfolding send_target_files
send_target_files-Guarded m [] t = Guarded-of (Silent-refl t)
send_target_files-Guarded m ((path, caption) ∷ l) t =
    Guarded-trans (send_target_file-Guarded m path caption t) (send_target_files-Guarded m l _)

-- A turn of the producer: it is over with an errand that is over, or all is as it was.
pub record Worked (t : Task) (r : Bool × Task) : Type 0 where
  pub busy : r.1.errand.busy ≡ t.errand.busy
  pub pending : r.1.errand.pending ≡ t.errand.pending
  pub deliver : r.1.errand.deliver_to_target ≡ t.errand.deliver_to_target
  pub flight : r.1.flight ≡ t.flight
  pub runs : producer_runs r.1.effects ≡ producer_runs t.effects
  pub messages : messages r.1.effects ≡ messages t.effects
  pub files : t.errand.deliver_to_target ≡ false → files r.1.effects ≡ files t.effects
  pub open_still : r.0 ≡ false → r.1.errand.status ≡ t.errand.status
  pub closed : r.0 ≡ true → is_active r.1.errand ≡ false

Worked-open : {t u : Task} → Guarded t u → Worked t (false, u)
Worked-open h = record {
  busy = h.steady.busy;
  pending = h.steady.pending;
  deliver = h.steady.deliver;
  flight = h.steady.flight;
  runs = h.steady.runs;
  messages = h.messages;
  files = h.files;
  open_still = λ _. h.steady.status;
  closed = λ e. cc;
}

Worked-closed :
    (s : Status) {t u v : Task}
    → Guarded t u
    → Moves s u v
    → is_active v.errand ≡ false
    → Worked t (true, v)
Worked-closed s h k over = record {
  busy = k.busy ∙ h.steady.busy;
  pending = k.pending ∙ h.steady.pending;
  deliver = k.deliver ∙ h.steady.deliver;
  flight = k.flight ∙ h.steady.flight;
  runs = k.runs ∙ h.steady.runs;
  messages = k.messages ∙ h.messages;
  files = λ off. k.files ∙ h.files off;
  open_still = λ e. cc;
  closed = λ _. over;
}

Moves-over :
    (s : Status) (t u : Task)
    → is_active (record u.errand { status = s }) ≡ false
    → Moves s t u
    → is_active u.errand ≡ false
unfolding is_active
Moves-over s t u over h = ground (arith, h.status)

finish_errand-Moves : (summary : Text) (t : Task) → Moves done t (finish_errand summary t)
unfolding finish_errand
finish_errand-Moves summary t =
    let said : Text = if text_eq (trim_space summary) (codes "") then codes "done." else summary in
    Moves-after
      (Silent-trans
        (if-either (Silent t) t.errand.delivered t _ (λ _. Silent-refl t)
          (λ _. deliver_info-Silent (codes "Collected info") t))
        (tell-Silent (complete said) _))
      (set_errand_status-Moves done _)

close_work-Worked : (t : Task) (w : Work) (u : Task) → Guarded t u → Worked t (close_work w u)
unfolding is_active
close_work-Worked t w u h =
    if-either (Worked t) (not (is_empty w.flags))
      (true, set_errand_status failed (tell (flagged w.flags) u)) _
      (λ _.
        let k : Moves failed u (set_errand_status failed (tell (flagged w.flags) u)) =
          Moves-after (tell-Silent (flagged w.flags) u) (set_errand_status-Moves failed _) in
        Worked-closed failed h k (Moves-over failed u _ refl k))
      (λ _. by_summary w.summary)
  where
    by_summary :
        (o : Option Text)
        → Worked t (elim o [
          | none ↦ (false, save_errand u)
          | some summary ↦ (true, finish_errand summary u)
        ])
    by_summary none = Worked-open (Guarded-trans h (Guarded-of (save_errand-Silent u)))
    by_summary (some summary) =
        Worked-closed done h (finish_errand-Moves summary u)
          (Moves-over done u (finish_errand summary u) refl (finish_errand-Moves summary u))

worker_session-Silent : (a : AgentResult) (t : Task) → Silent t (worker_session a t)
worker_session-Silent a t =
    if-either (Silent t) _ _ _ (λ _. Silent-refl t)
      (λ _.
        set_errand-Silent (λ e. record e { worker_session_id = a.session_id }) t refl refl refl
          refl)

pub end_worker_turn-Worked :
    (m : Machine) (a : AgentResult) (t : Task) → Worked t (end_worker_turn m a t)
unfolding end_worker_turn apply_worker_directives
end_worker_turn-Worked m a t =
    let u : Task = save_errand (worker_session a t) in
    let first : Silent t u = Silent-trans (worker_session-Silent a t) (save_errand-Silent _) in
    let w : Work = read_work (split_on 10 a.text) in
    if-either (Worked t) a.is_error (false, tell producer_error u) _
      (λ _. Worked-open (Guarded-of (Silent-trans first (tell-Silent producer_error u))))
      (λ _. close_work-Worked t w _ (
        Guarded-trans (Guarded-of first) (
          Guarded-trans (Guarded-of (deliver_files-Silent m w.owner_files u))
            (send_target_files-Guarded m w.target_files _))))
