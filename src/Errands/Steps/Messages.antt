-- ===== src/Errands/Steps/Messages.antt =====
-- The messages of one interview turn of internal/errands, and those of a turn whose errand was cancelled.
use zcoms_agent.Prelude.{
  ℕ, zero, suc, ◌-◌, ◌≤◌, Bool, true, false, not, List, [], ◌∷◌, ◌++◌, ◌≡◌, refl, ◌∙◌, sym, ap,
  arith, if-either, if◌then◌else◌, leb, length, ◌&&◌, append_empty, append_assoc, take,
}
use mathlib.Core.Path.{subst}
use zcoms_agent.Prelude.Text.{Text, codes, text_eq}
use zcoms_agent.Prelude.Text.Split.{split_on}
use zcoms_agent.Store.Db.{head_fault, tail_faults}
use zcoms_agent.Errands.Errand.{is_pending}
use zcoms_agent.Errands.Directives.{extract_record_block}
use zcoms_agent.Errands.Task.{
  held_back, not_messaged, turn_error, to_contact, Machine, Task, emit, tell, save_errand,
  set_errand, attempt, is_wa, send_to_errand_target,
}
use zcoms_agent.Errands.Interview.{
  AgentResult, Turn, read_lines, propose, recorded, send_messages, asked, interview_session,
  apply_interview_directives, end_interview_turn, max_errand_msgs_per_turn, close_turn,
}
use zcoms_agent.Errands.Drive.{cancel_errand}
use zcoms_agent.Errands.Drive.Frame.{
  messages, messages-emit, Silent, Silent-trans, tell-Silent, save_errand-Silent,
}
use zcoms_agent.Errands.Drive.Parts.{propose-Silent, recorded-Silent}
use zcoms_agent.Errands.Drive.Turns.{close_turn-Silent, interview_session-Silent}
use zcoms_agent.Errands.Steps.Invariant.{cancel_errand-Moves}

-- The contact has got the first messages of a list, `bound` at most.
abbrev pub GotFirst : ℕ → List Text → Task → Task → Type 0
GotFirst bound msgs t u =
    (k : ℕ) × (k ≤ bound) × (messages u.effects ≡ messages t.effects ++ take k msgs)

nothing :
    (bound : ℕ) (msgs : List Text) (t u : Task)
    → messages u.effects ≡ messages t.effects
    → GotFirst bound msgs t u
nothing bound msgs t u h = (0, omega arith, h ∙ sym (append_empty (messages t.effects)))

-- One attempt: the message has gone, or nothing has.
abbrev Attempted : Text → Task → Bool × Task → Type 0
Attempted body t (true, u) = messages u.effects ≡ messages t.effects ++ body ∷ []
Attempted body t (false, u) = messages u.effects ≡ messages t.effects

send-Attempted :
    (m : Machine) (body : Text) (t : Task) → Attempted body t (send_to_errand_target m body t)
unfolding send_to_errand_target attempt emit
send-Attempted m body t =
    if-either (Attempted body t) (is_wa t.errand && not m.wa_enabled) (false, t) _ (λ _. refl)
      (λ _.
        if-either (Attempted body t) (head_fault t.faults)
          (false, record t { faults = tail_faults t.faults }) _ (λ _. refl)
          (λ _. messages-emit t.effects (to_contact body)))

send_messages-GotFirst :
    (m : Machine) (sent : ℕ) (msgs : List Text) (t : Task)
    → GotFirst (max_errand_msgs_per_turn - sent) msgs t (send_messages m sent msgs t).1
unfolding send_messages set_errand
send_messages-GotFirst m sent [] t = nothing _ [] t t refl
send_messages-GotFirst m sent (body ∷ msgs) t =
    if-either (λ (p : ℕ × Task). GotFirst (max_errand_msgs_per_turn - sent) (body ∷ msgs) t p.1)
      (leb max_errand_msgs_per_turn sent) _ _
      (λ _.
        nothing _ (body ∷ msgs) t (tell (held_back (length (body ∷ msgs))) t)
          (tell-Silent (held_back (length (body ∷ msgs))) t).messages)
      (λ more.
        sent_or_not more (send_to_errand_target m body t) (send-Attempted m body t)
          (send_messages-GotFirst m (suc sent) msgs))
  where
    sent_or_not :
        leb max_errand_msgs_per_turn sent ≡ false
        → (r : Bool × Task) → Attempted body t r
        → ((u : Task)
            → GotFirst
                (max_errand_msgs_per_turn - suc sent)
                msgs
                u
                (send_messages m (suc sent) msgs u).1)
        → GotFirst
            (max_errand_msgs_per_turn - sent)
            (body ∷ msgs)
            t
            (if r.0
              then send_messages m (suc sent) msgs (asked body r.1)
              else (sent, tell not_messaged r.1)).1
    sent_or_not more (false, u) h later =
        nothing _ (body ∷ msgs) t (tell not_messaged u) ((tell-Silent not_messaged u).messages ∙ h)
    sent_or_not more (true, u) h later =
        let rest = later (asked body u) in
        (
          suc rest.0,
          ground (arith, more, rest.1),
          rest.2
              ∙ ap (λ (l : List Text). l ++ take rest.0 msgs) h
              ∙ append_assoc (messages t.effects) (body ∷ []) (take rest.0 msgs),
        )

-- A turn of the interviewer sends the contact no more than three messages: the first of those in
-- its lines, in their order, whatever fails on the way.
pub end_interview_turn-GotFirst :
    (m : Machine) (a : AgentResult) (t : Task)
    → GotFirst 3 (read_lines (split_on 10 a.text)).msgs t (end_interview_turn m a t).1
unfolding end_interview_turn apply_interview_directives
end_interview_turn-GotFirst m a t =
    let u : Task = save_errand (interview_session a t) in
    let first : Silent t u = Silent-trans (interview_session-Silent a t) (save_errand-Silent _) in
    let r : Turn = read_lines (split_on 10 a.text) in
    let content : Text = extract_record_block a.text in
    let v : Task = recorded m content u in
    let p : ℕ × Task = send_messages m 0 r.msgs v in
    let got : GotFirst 3 r.msgs v p.1 = send_messages-GotFirst m 0 r.msgs v in
    let Q : Bool × Task → Type 0 = λ q. GotFirst 3 r.msgs t q.1 in
    if-either Q a.is_error (false, tell turn_error u) _
      (λ _.
        nothing 3 r.msgs t (tell turn_error u)
          ((tell-Silent turn_error u).messages ∙ first.messages))
      (λ _.
        if-either Q (is_pending u.errand) (false, propose r u) _
          (λ _. nothing 3 r.msgs t (propose r u) ((propose-Silent r u).messages ∙ first.messages))
          (λ _. (
            got.0,
            got.1,
            (close_turn-Silent r content p.0 p.1).messages
                ∙ got.2
                ∙ ap (λ (l : List Text). l ++ take got.0 r.msgs)
                    ((recorded-Silent m content u).messages ∙ first.messages),
          )))

take_empty : (n : ℕ) → take {A = Text} n [] ≡ []
take_empty zero = refl
take_empty (suc n) = refl

-- The contact can be reached, and no attempt fails.
abbrev Reached : Machine → Task → Type 0
Reached m t = (is_wa t.errand && not m.wa_enabled) ≡ false

send-Reached :
    (m : Machine) (body : Text) (t : Task)
    → Reached m t
    → send_to_errand_target m body (record t { faults = [] })
      ≡ (true, record (emit (to_contact body) t) { faults = [] })
unfolding send_to_errand_target attempt emit
send-Reached m body t reached = rw reached refl

take_more :
    (sent : ℕ) (body : Text) (msgs : List Text)
    → leb max_errand_msgs_per_turn sent ≡ false
    → take (max_errand_msgs_per_turn - sent) (body ∷ msgs)
      ≡ body ∷ take (max_errand_msgs_per_turn - suc sent) msgs
take_more sent body msgs more =
    let e : max_errand_msgs_per_turn - sent ≡ suc (max_errand_msgs_per_turn - suc sent) =
      ground (arith, more) in
    rw e refl

send_messages-sends :
    (m : Machine) (sent : ℕ) (msgs : List Text) (t : Task)
    → Reached m t
    → messages (send_messages m sent msgs (record t { faults = [] })).1.effects
      ≡ messages t.effects ++ take (max_errand_msgs_per_turn - sent) msgs
unfolding send_messages set_errand emit
send_messages-sends m sent [] t reached =
    rw (take_empty (max_errand_msgs_per_turn - sent)) (sym (append_empty (messages t.effects)))
send_messages-sends m sent (body ∷ msgs) t reached = rw (send-Reached m body t reached) (
    if-either
      (λ (p : ℕ × Task).
        messages p.1.effects
        ≡ messages t.effects ++ take (max_errand_msgs_per_turn - sent) (body ∷ msgs))
      (leb max_errand_msgs_per_turn sent)
      (sent, tell (held_back (length (body ∷ msgs))) (record t { faults = [] }))
      (send_messages m (suc sent) msgs
        (asked body (record (emit (to_contact body) t) { faults = [] })))
      (λ full. held full)
      (λ more. rw (take_more sent body msgs more) (
        send_messages-sends m (suc sent) msgs (asked body (emit (to_contact body) t)) (next reached)
        ∙ ap (λ (l : List Text). l ++ take (max_errand_msgs_per_turn - suc sent) msgs)
            (messages_then)
        ∙ append_assoc (messages t.effects) (body ∷ [])
            (take (max_errand_msgs_per_turn - suc sent) msgs))))
  where
    next : Reached m t → Reached m (asked body (emit (to_contact body) t))
    next h = h

    messages_then : messages (emit (to_contact body) t).effects ≡ messages t.effects ++ body ∷ []
    messages_then = messages-emit t.effects (to_contact body)

    held :
        leb max_errand_msgs_per_turn sent ≡ true
        → messages (tell (held_back (length (body ∷ msgs))) (record t { faults = [] })).effects
          ≡ messages t.effects ++ take (max_errand_msgs_per_turn - sent) (body ∷ msgs)
    held full =
        let e : max_errand_msgs_per_turn - sent ≡ 0 = ground (arith, full) in
        rw e (
          (tell-Silent (held_back (length (body ∷ msgs))) (record t { faults = [] })).messages
          ∙ sym (append_empty (messages t.effects)))

close_turn-handoff :
    (r : Turn) (content : Text) (sent : ℕ) (t : Task)
    → (close_turn r content (sent, t)).0 ≡ r.handoff
close_turn-handoff r content sent t = ground arith

cancel_errand-messages :
    (t : Task) → messages (cancel_errand (record t { faults = [] })).effects ≡ messages t.effects
cancel_errand-messages t = (cancel_errand-Moves (record t { faults = [] })).messages

-- A turn whose errand does not wait for approval, with no RECORD in it.
apply-sends :
    (m : Machine) (text : Text) (t : Task)
    → is_pending t.errand ≡ false
    → Reached m t
    → extract_record_block text ≡ codes ""
    → messages (apply_interview_directives m text (record t { faults = [] })).1.effects
        ≡ messages t.effects ++ take 3 (read_lines (split_on 10 text)).msgs
      × (apply_interview_directives m text (record t { faults = [] })).0
        ≡ (read_lines (split_on 10 text)).handoff
unfolding apply_interview_directives text_eq
apply-sends m text t over reached no_record =
    let r : Turn = read_lines (split_on 10 text) in
    let p : ℕ × Task = send_messages m 0 r.msgs (record t { faults = [] }) in
    rw (over, no_record)
      (
        (close_turn-Silent r (codes "") p.0 p.1).messages
            ∙ send_messages-sends m 0 r.msgs t reached,
        close_turn-handoff r (codes "") p.0 p.1,
      )

without_faults :
    (m : Machine) (text : Text) (t : Task)
    → t.faults ≡ []
    → is_pending t.errand ≡ false
    → Reached m t
    → extract_record_block text ≡ codes ""
    → messages (apply_interview_directives m text t).1.effects
        ≡ messages t.effects ++ take 3 (read_lines (split_on 10 text)).msgs
      × (apply_interview_directives m text t).0 ≡ (read_lines (split_on 10 text)).handoff
without_faults m text t none_fails over reached no_record =
    subst
      (λ (u : Task).
        messages (apply_interview_directives m text u).1.effects
          ≡ messages t.effects ++ take 3 (read_lines (split_on 10 text)).msgs
        × (apply_interview_directives m text u).0 ≡ (read_lines (split_on 10 text)).handoff)
      (sym (ap (λ (l : List Bool). record t { faults = l }) none_fails))
      (apply-sends m text t over reached no_record)

session_saved :
    (m : Machine) (a : AgentResult) (t : Task)
    → t.faults ≡ []
    → is_pending t.errand ≡ false
    → Reached m t
    → (save_errand (interview_session a t)).faults ≡ []
      × is_pending (save_errand (interview_session a t)).errand ≡ false
      × Reached m (save_errand (interview_session a t))
unfolding save_errand emit set_errand
session_saved m a t none_fails over reached =
    if-either
      (λ (u : Task).
        (save_errand u).faults ≡ []
        × is_pending (save_errand u).errand ≡ false
        × Reached m (save_errand u))
      (text_eq a.session_id (codes "")) t
      (set_errand (λ e. record e { interview_session_id = a.session_id }) t)
      (λ _. (none_fails, over, reached)) (λ _. (none_fails, over, reached))

-- If the owner cancels an errand while a turn of its interviewer runs, be it the draft of a plan
-- that nobody has approved, then the end of that turn still sends the contact its first three
-- messages, and hands off exactly if it says so; for a turn that ends without an error and records
-- nothing, where the contact can be reached and no attempt fails.
pub cancelled_turn-sends :
    (m : Machine) (a : AgentResult) (t : Task)
    → (is_wa t.errand && not m.wa_enabled) ≡ false
    → a.is_error ≡ false
    → extract_record_block a.text ≡ codes ""
    → messages (end_interview_turn m a (cancel_errand (record t { faults = [] }))).1.effects
        ≡ messages t.effects ++ take 3 (read_lines (split_on 10 a.text)).msgs
      × (end_interview_turn m a (cancel_errand (record t { faults = [] }))).0
        ≡ (read_lines (split_on 10 a.text)).handoff
unfolding end_interview_turn cancel_errand save_errand set_errand emit
cancelled_turn-sends m a t reached works no_record =
    let c : Task = cancel_errand (record t { faults = [] }) in
    let u : Task = save_errand (interview_session a c) in
    let kept = session_saved m a c refl refl reached in
    let same : messages u.effects ≡ messages t.effects =
      (Silent-trans (interview_session-Silent a c) (save_errand-Silent _)).messages
      ∙ cancel_errand-messages t in
    let sent = without_faults m a.text u kept.0 kept.1 kept.2 no_record in
    rw works (
      sent.0 ∙ ap (λ (l : List Text). l ++ take 3 (read_lines (split_on 10 a.text)).msgs) same,
      sent.1,
    )
