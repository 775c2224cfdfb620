-- ===== src/Errands/Interview.antt =====
-- internal/errands/errand_run.go: a turn of the interviewer, who talks to the contact and records the
-- answers, and the hand-over to the producer.
use zcoms_agent.Prelude.{
  ℕ, suc, Bool, true, false, List, [], ◌∷◌, ◌++◌, ◌&&◌, ◌==◌, leb, Option, none, some,
  if◌then◌else◌, length, is_empty,
}
use zcoms_agent.Prelude.Text.{Text, codes, text_eq, trim_space}
use zcoms_agent.Prelude.Text.Split.{split_on, join, contains}
use zcoms_agent.Runner.Agents.{no_backend}
use zcoms_agent.Errands.Errand.{producing, failed, Prompt, is_pending}
use zcoms_agent.Errands.Directives.{
  Keyword, msg, record_block, send_file, deliver, flag, finished, errand_directive, is_handoff,
  extract_record_block,
}
use zcoms_agent.Errands.Task.{
  plan, no_plan, held_back, not_messaged, turn_error, silent_turn, no_agent_cli, no_working_dir,
  producing_started, interviewer, run, asking, Machine, Task, emit, tell, save_errand, set_errand,
  set_errand_status, attempt, deliver_to_owner, send_to_errand_target, ensure_interview_file,
  write_interview_file, errand_transcript_doc,
}

-- What RunAgent returns.
pub record AgentResult : Type 0 where
  pub text : Text
  pub session_id : Text
  pub is_error : Bool

-- What the loop of applyInterviewDirectives collects of the lines.
pub record Turn : Type 0 where
  pub handoff : Bool
  pub msgs : List Text
  pub passthrough : List Text

abbrev pub take_directive : Text → Option (Keyword × Text) → Turn → Turn
take_directive line none r =
    if is_empty (trim_space line) then r else record r { passthrough = line ∷ r.passthrough }
take_directive line (some (msg, text)) r = record r { msgs = trim_space text ∷ r.msgs }
take_directive line (some (record_block, text)) r = r
take_directive line (some (send_file, text)) r = r
take_directive line (some (deliver, text)) r = r
take_directive line (some (flag, text)) r = r
take_directive line (some (finished, text)) r = r

unfoldable pub read_lines : List Text → Turn
read_lines [] = record { handoff = false; msgs = []; passthrough = [] }
read_lines (line ∷ lines) =
    let rest = read_lines lines in
    if is_handoff (trim_space line)
    then record rest { handoff = true }
    else take_directive line (errand_directive (trim_space line)) rest

-- The plan that the owner is asked to approve.
unfoldable pub plan_text : Turn → Text
plan_text r =
    let text : Text = trim_space (join (codes "\n") r.passthrough) in
    if is_empty r.msgs
    then text
    else trim_space (text ++ codes "\n\nProposed opening message:\n" ++ join (codes "\n") r.msgs)

unfoldable pub propose : Turn → Task → Task
unfolding tell plan_text
propose r t =
    if text_eq (plan_text r) (codes "") then tell no_plan t else tell (plan (plan_text r)) t

-- maxErrandMsgsPerTurn
abbrev pub max_errand_msgs_per_turn : ℕ
max_errand_msgs_per_turn = 3

abbrev pub asked : Text → Task → Task
asked body = set_errand (λ e. record e { transcript = e.transcript ++ (codes "Q: " ++ body) ∷ [] })

-- The loop that sends the messages: how many were sent, and the task.
unfoldable pub send_messages : Machine → ℕ → List Text → Task → ℕ × Task
unfolding tell set_errand send_to_errand_target
send_messages m sent [] t = (sent, t)
send_messages m sent (body ∷ msgs) t =
    let r : Bool × Task = send_to_errand_target m body t in
    let rest : ℕ × Task = send_messages m (suc sent) msgs (asked body r.1) in
    if leb max_errand_msgs_per_turn sent
    then (sent, tell (held_back (length (body ∷ msgs))) t)
    else if r.0
    then rest
    else (sent, tell not_messaged r.1)

abbrev pub recorded : Machine → Text → Task → Task
recorded m content t = if text_eq content (codes "") then t else write_interview_file m content t

abbrev pub note : Turn → Text
note r =
    let text : Text = trim_space (join (codes "\n") r.passthrough) in
    if text_eq text (codes "") then codes "(no message produced this turn)" else text

abbrev pub close_turn : Turn → Text → ℕ × Task → Bool × Task
close_turn r content (sent, t) =
    if r.handoff
    then (true, t)
    else if sent == 0 && text_eq content (codes "")
    then (false, save_errand (tell (silent_turn (note r)) t))
    else (false, save_errand t)

-- applyInterviewDirectives
unfoldable pub apply_interview_directives : Machine → Text → Task → Bool × Task
unfolding read_lines propose send_messages write_interview_file extract_record_block
apply_interview_directives m text t =
    let r : Turn = read_lines (split_on 10 text) in
    let content : Text = extract_record_block text in
    if is_pending t.errand
    then (false, propose r t)
    else close_turn r content (send_messages m 0 r.msgs (recorded m content t))

abbrev pub interview_session : AgentResult → Task → Task
interview_session a t =
    if text_eq a.session_id (codes "")
    then t
    else set_errand (λ e. record e { interview_session_id = a.session_id }) t

-- runInterviewTurn after RunAgent: does the interviewer hand off?
unfoldable pub end_interview_turn : Machine → AgentResult → Task → Bool × Task
unfolding tell save_errand set_errand apply_interview_directives
end_interview_turn m a t =
    let t' : Task = save_errand (interview_session a t) in
    if a.is_error then (false, tell turn_error t') else apply_interview_directives m a.text t'

-- runInterviewTurn up to RunAgent: is the call made?
unfoldable pub start_interview_turn : Machine → Prompt → ℕ → Task → Bool × Task
unfolding emit tell set_errand_status
start_interview_turn m prompt worker_turns t =
    if text_eq m.backend no_backend
    then (false, set_errand_status failed (tell no_agent_cli t))
    else elim (m.staging t.errand.id) [
      | none ↦ (false, set_errand_status failed (tell no_working_dir t))
      | some dir ↦ (
        true,
        record (emit
            (run (record {
              agent = interviewer;
              prompt = prompt;
              seeded = text_eq t.errand.interview_session_id (codes "");
              resume = t.errand.interview_session_id;
              writable = false;
            }))
            t) { flight = asking worker_turns },
      )
    ]

abbrev pub fall_back : Machine → Bool × Task → Task
fall_back m (false, t) = t
fall_back m (true, t) =
    if contains t.file (codes "(awaiting answers)")
    then write_interview_file m (errand_transcript_doc t.errand) t
    else t

abbrev pub delivered_if : Bool × Task → Task
delivered_if (false, t) = t
delivered_if (true, t) = set_errand (λ e. record e { delivered = true }) t

-- Where no answer was recorded, the transcript is written in its place.
unfoldable pub with_transcript : Machine → Task → Task
unfolding attempt write_interview_file
with_transcript m t =
    if text_eq t.errand.interview_file (codes "") then t else fall_back m (attempt (λ t'. t') t)

unfoldable pub deliver_info : Text → Task → Task
unfolding deliver_to_owner set_errand
deliver_info caption t =
    if text_eq t.errand.interview_file (codes "")
    then t
    else delivered_if (deliver_to_owner t.errand.interview_file caption t)

-- beginProducing
unfoldable pub begin_producing : Machine → Task → Task
unfolding tell save_errand set_errand ensure_interview_file with_transcript deliver_info
begin_producing m t = tell producing_started (
    deliver_info (codes "Collected info from " ++ t.errand.target_name) (
      save_errand (
        set_errand (λ e. record e { status = producing; pending = [] })
          (with_transcript m (ensure_interview_file m t)))))
