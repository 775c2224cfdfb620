-- ===== src/Errands/Steps/Contact.antt =====
-- What the contact of an errand of internal/errands gets, in any order of events.
use zcoms_agent.Prelude.{
  ℕ, suc, Bool, true, false, not, List, [], ◌∷◌, Option, none, some, ◌≡◌, refl, ◌∙◌, sym, arith,
  if-either, leb, length, ◌&&◌, append_empty,
}
use zcoms_agent.Prelude.Text.{Text, trim_space}
use zcoms_agent.Prelude.Text.Split.{split_on}
use zcoms_agent.Store.Db.{head_fault, tail_faults}
use zcoms_agent.Errands.Errand.{
  active, cancelled, begin, approval, reply, revise, worker_start, worker_continue, is_pending,
  is_active, is_interviewing, failed,
}
use zcoms_agent.Errands.Directives.{extract_record_block}
use zcoms_agent.Errands.Task.{
  held_back, not_messaged, turn_error, to_contact, not_finished, Flight, at_rest, asking, making,
  Machine, Task, emit, tell, save_errand, set_errand, set_errand_status, attempt, is_wa,
  send_to_errand_target, ensure_interview_file,
}
use zcoms_agent.Errands.Interview.{
  AgentResult, Turn, read_lines, propose, recorded, send_messages, asked, interview_session,
  apply_interview_directives, end_interview_turn, begin_producing, max_errand_msgs_per_turn,
}
use zcoms_agent.Errands.Drive.{
  rest, drive, after_interview, after_worker, max_worker_turns, answer_in, answer,
  drive_errand_async, kick_errand, approve_errand, feed_errand, cancel_errand, revise_errand_plan,
  feed, fed, mark,
}
use zcoms_agent.Errands.Drive.Frame.{
  messages, files, files-emit, Steady, Silent-trans, tell-Silent, save_errand-Silent,
}
use zcoms_agent.Errands.Drive.Parts.{ensure_interview_file-Silent, propose-Silent, recorded-Silent}
use zcoms_agent.Errands.Drive.Turns.{
  Moves, Moves-after, Moves-before, set_errand_status-Moves, close_turn-Silent,
  interview_session-Silent, end_interview_turn-Steady, end_interview_turn-Silent,
  begin_producing-Hands, Hands,
}
use zcoms_agent.Errands.Drive.Work.{end_worker_turn-Worked, Worked}
use zcoms_agent.Errands.Drive.Leads.{
  Leads, Leads-trans, Leads-refl, Silent-Leads, Moves-Leads, rest-Leads, drive-Leads,
  drive_errand_async-Leads, settle-Leads,
}
use zcoms_agent.Errands.Steps.{
  Event, approve, reject, edit, cancel, message, answered, step, or_same, new_task, opened, Reaches,
  started, later,
}
use zcoms_agent.Errands.Steps.Invariant.{
  cancel_errand-Moves, mark-Silent, heard-Silent, opened-Silent,
}

abbrev SameFiles : Task → Task → Type 0
SameFiles t u = files u.effects ≡ files t.effects

send_to_errand_target-files :
    (m : Machine) (body : Text) (t : Task) → SameFiles t (send_to_errand_target m body t).1
unfolding send_to_errand_target attempt emit
send_to_errand_target-files m body t =
    if-either (λ (r : Bool × Task). SameFiles t r.1) (is_wa t.errand && not m.wa_enabled) (false, t)
      _ (λ _. refl)
      (λ _.
        if-either (λ (r : Bool × Task). SameFiles t r.1) (head_fault t.faults)
          (false, record t { faults = tail_faults t.faults }) _ (λ _. refl)
          (λ _. rw (files-emit t.effects (to_contact body)) (append_empty (files t.effects))))

send_messages-files :
    (m : Machine) (sent : ℕ) (msgs : List Text) (t : Task)
    → SameFiles t (send_messages m sent msgs t).1
unfolding send_messages set_errand
send_messages-files m sent [] t = refl
send_messages-files m sent (body ∷ msgs) t =
    let r : Bool × Task = send_to_errand_target m body t in
    let first : SameFiles t r.1 = send_to_errand_target-files m body t in
    if-either (λ (p : ℕ × Task). SameFiles t p.1) (leb max_errand_msgs_per_turn sent) _ _
      (λ _. (tell-Silent (held_back (length (body ∷ msgs))) t).files)
      (λ _.
        if-either (λ (p : ℕ × Task). SameFiles t p.1) r.0 _ _
          (λ _. send_messages-files m (suc sent) msgs (asked body r.1) ∙ first)
          (λ _. (tell-Silent not_messaged r.1).files ∙ first))

apply-files :
    (m : Machine) (text : Text) (t : Task) → SameFiles t (apply_interview_directives m text t).1
unfolding apply_interview_directives
apply-files m text t =
    let r : Turn = read_lines (split_on 10 text) in
    let content : Text = extract_record_block text in
    let u : Task = recorded m content t in
    let p : ℕ × Task = send_messages m 0 r.msgs u in
    if-either (λ (q : Bool × Task). SameFiles t q.1) (is_pending t.errand) (false, propose r t) _
      (λ _. (propose-Silent r t).files)
      (λ _.
        (close_turn-Silent r content p.0 p.1).files
        ∙ send_messages-files m 0 r.msgs u
        ∙ (recorded-Silent m content t).files)

end_interview_turn-files :
    (m : Machine) (a : AgentResult) (t : Task) → SameFiles t (end_interview_turn m a t).1
unfolding end_interview_turn
end_interview_turn-files m a t =
    let u : Task = save_errand (interview_session a t) in
    let first : SameFiles t u =
      (Silent-trans (interview_session-Silent a t) (save_errand-Silent _)).files in
    if-either (λ (q : Bool × Task). SameFiles t q.1) a.is_error (false, tell turn_error u) _
      (λ _. (tell-Silent turn_error u).files ∙ first) (λ _. apply-files m a.text u ∙ first)

end_interview_turn-Leads :
    (m : Machine) (a : AgentResult) (t : Task) → Leads t (end_interview_turn m a t).1
end_interview_turn-Leads m a t =
    let h : Steady t (end_interview_turn m a t).1 = end_interview_turn-Steady m a t in
    record {
      deliver = h.deliver;
      files = λ _. end_interview_turn-files m a t;
      waited = λ w. ground (arith, h.status);
      untold = λ w. (end_interview_turn-Silent m a t (ground (arith, h.status, w))).messages;
    }

after_interview-Leads :
    (m : Machine) (n : ℕ) (t : Task) (r : Bool × Task)
    → Leads t r.1
    → Leads t (after_interview m n r)
after_interview-Leads m n t (false, u) h = Leads-trans h (settle-Leads m n u.errand.pending u)
after_interview-Leads m n t (true, u) h =
    let g : Hands u (begin_producing m u) = begin_producing-Hands m u in
    Leads-trans h (
      Leads-trans
        (record {
          deliver = g.deliver;
          files = λ _. g.files;
          waited = λ w. absurd (ground (arith, g.status));
          untold = λ _. g.messages;
        })
        (drive-Leads m worker_start n (begin_producing m u)))

after_worker-Leads :
    (m : Machine) (n : ℕ) (t : Task) (r : Bool × Task) → Worked t r → Leads t (after_worker m n r)
unfolding is_active
after_worker-Leads m n t (true, u) h =
    Leads-trans
      (record {
        deliver = h.deliver;
        files = h.files;
        waited = λ w. absurd (ground (arith, h.closed refl));
        untold = λ _. h.messages;
      })
      (rest-Leads u)
after_worker-Leads m n t (false, u) h =
    let same : Leads t u = record {
      deliver = h.deliver;
      files = h.files;
      waited = λ w. ground (arith, h.open_still refl);
      untold = λ _. h.messages;
    } in
    let k : Moves failed u (set_errand_status failed (tell not_finished u)) =
      Moves-after (tell-Silent not_finished u) (set_errand_status-Moves failed _) in
    Leads-trans same (
      if-either (Leads u) (leb max_worker_turns n)
        (rest (set_errand_status failed (tell not_finished u))) (drive m worker_continue n u)
        (λ _. Leads-trans (Moves-Leads failed k (ground (arith, k.status))) (rest-Leads _))
        (λ _. drive-Leads m worker_continue n u))

answer-Leads : (m : Machine) (a : AgentResult) (t : Task) → Leads t (answer m a t)
unfolding answer
answer-Leads m a t = by_flight t.flight
  where
    by_flight : (f : Flight) → Leads t (answer_in m a f t)
    by_flight at_rest = Leads-refl t
    by_flight (asking n) = after_interview-Leads m n t _ (end_interview_turn-Leads m a t)
    by_flight (making n) = after_worker-Leads m n t _ (end_worker_turn-Worked m a t)

fed-Leads :
    (m : Machine) (text media : Text) (t : Task) (fresh : Bool) → Leads t (fed m text media t fresh)
unfolding feed_errand
fed-Leads m text media t fresh =
    if-either (Leads t) (fresh && is_interviewing t.errand)
      (feed_errand m text media (save_errand t)) t
      (λ _.
        Leads-trans (Silent-Leads (heard-Silent text t))
          (drive_errand_async-Leads m (reply text media) _))
      (λ _. Leads-refl t)

approve-Leads : (m : Machine) (tweak : Text) (t : Task) → Leads t (approve_errand m tweak t)
unfolding approve_errand
approve-Leads m tweak t =
    let k : Moves active t (ensure_interview_file m (set_errand_status active t)) =
      Moves-before (set_errand_status-Moves active t) (ensure_interview_file-Silent m _) in
    Leads-trans (Moves-Leads active k (ground (arith, k.status))) (drive_errand_async-Leads m _ _)

step-Leads : (m : Machine) (event : Event) (t : Task) → Leads t (step m event t)
unfolding step feed revise_errand_plan
step-Leads m (approve tweak) t =
    if-either (Leads t) (is_pending t.errand) (approve_errand m tweak t) t
      (λ _. approve-Leads m tweak t) (λ _. Leads-refl t)
step-Leads m reject t =
    let k : Moves cancelled t (set_errand_status cancelled t) =
      set_errand_status-Moves cancelled t in
    if-either (Leads t) (is_pending t.errand) (set_errand_status cancelled t) t
      (λ _. Moves-Leads cancelled k (ground (arith, k.status))) (λ _. Leads-refl t)
step-Leads m (edit changes) t =
    if-either (Leads t) (is_pending t.errand) (revise_errand_plan m changes t) t
      (λ _. drive_errand_async-Leads m (revise (trim_space changes)) t) (λ _. Leads-refl t)
step-Leads m cancel t =
    let k : Moves cancelled t (cancel_errand t) = cancel_errand-Moves t in
    Moves-Leads cancelled k (ground (arith, k.status))
step-Leads m (message id text media) t =
    if-either (λ (o : Option Task). Leads t (or_same t o)) (is_active t.errand)
      (some (fed m text media (mark id t).0 (mark id t).1)) none
      (λ _.
        Leads-trans (Silent-Leads (mark-Silent id t))
          (fed-Leads m text media (mark id t).0 (mark id t).1))
      (λ _. Leads-refl t)
step-Leads m (answered a) t = answer-Leads m a t

kick-Leads : (m : Machine) (t : Task) → Leads t (kick_errand m t)
unfolding kick_errand
kick-Leads m t =
    if-either (Leads t) t.errand.auto_start (drive_errand_async m begin (ensure_interview_file m t))
      _
      (λ _.
        Leads-trans (Silent-Leads (ensure_interview_file-Silent m t))
          (drive_errand_async-Leads m begin (ensure_interview_file m t)))
      (λ _. drive_errand_async-Leads m approval t)

-- The contact of a task: no message while the errand waits for approval, and no file without the
-- delivery to the contact.
abbrev pub Reserved : Task → Type 0
Reserved t =
    (is_pending t.errand ≡ true → messages t.effects ≡ [])
    × (t.errand.deliver_to_target ≡ false → files t.effects ≡ [])

Leads-Reserved : (t u : Task) → Leads t u → Reserved t → Reserved u
Leads-Reserved t u h k = (
  λ w. h.untold w ∙ k.0 (h.waited w),
  λ off. let was = sym h.deliver ∙ off in h.files was ∙ k.1 was,
)

-- In whatever order the owner, the contact and the ends of the turns act on a started errand, its
-- contact has got no message while the errand waits for approval, and no file at all unless the
-- errand was started to deliver to the contact.
pub Reaches-Reserved : (t : Task) → Reaches t → Reserved t
unfolding messages files
Reaches-Reserved _ (started m e faults opens idle empty) =
    Leads-Reserved (new_task e faults) (kick_errand m (opened e faults))
      (Leads-trans (Silent-Leads (opened-Silent e faults)) (kick-Leads m (opened e faults)))
      (λ _. refl, λ _. refl)
Reaches-Reserved _ (later m event t faults h) =
    let was : Reserved t = Reaches-Reserved t h in
    Leads-Reserved (record t { faults = faults }) (step m event (record t { faults = faults }))
      (step-Leads m event (record t { faults = faults })) (was.0, was.1)
