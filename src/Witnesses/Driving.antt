-- ===== src/Witnesses/Driving.antt =====
-- The theorems about the life of an errand of internal/errands at concrete inputs.
use zcoms_agent.Prelude.{
  true, false, not, [], ◌∷◌, ◌++◌, none, some, ◌≡◌, refl, ◌≤◌, arith, take, ◌&&◌,
}
use zcoms_agent.Prelude.Text.{codes, text_eq, has_prefix, trim_space}
use zcoms_agent.Prelude.Text.Split.{split_on, cut}
use zcoms_agent.Prelude.Int.{pos}
use zcoms_agent.Runner.Agents.{backend_claude}
use zcoms_agent.Runner.Claims.{has_tg, has_wa}
use zcoms_agent.Errands.Errand.{Errand, pending_approval, is_interviewing, is_active}
use zcoms_agent.Errands.Directives.{extract_record_block}
use zcoms_agent.Errands.Task.{Machine, Task, emit, save_errand}
use zcoms_agent.Errands.Interview.{AgentResult, read_lines, end_interview_turn}
use zcoms_agent.Errands.Drive.{kick_errand, cancel_errand}
use zcoms_agent.Errands.Drive.Frame.{producer_runs, messages}
use zcoms_agent.Errands.Steps.{approve, cancel, answered, step, opened, Reaches, started, later}
use zcoms_agent.Errands.Steps.Invariant.{Reaches-unstranded, Reaches-producer_runs, in_flight}
use zcoms_agent.Errands.Steps.Contact.{Reserved, Reaches-Reserved}
use zcoms_agent.Errands.Steps.Messages.{GotFirst, end_interview_turn-GotFirst, cancelled_turn-sends}
use zcoms_agent.Errands.Steps.Over.{here, next, StaysOver, Follows-StaysOver}
use zcoms_agent.Errands.Ownership.{sync_claims, owns, owns_wa, sync_claims-owns}
use zcoms_agent.Errands.Specs.{ErrandSpec, Office}
use zcoms_agent.Errands.Commands.{Comp, fire_due_scheduled}
use zcoms_agent.Errands.Commands.Fired.{Fired, fire_due_scheduled-once}

abbrev desk : Machine
desk = record {
  backend = backend_claude;
  staging = λ id. some (codes "/tmp");
  home = none;
  wa_enabled = false;
}

abbrev cv : Errand
cv = record {
  id = codes "e1";
  status = pending_approval;
  brief = codes "ask for the CV";
  owner_chat = pos 1;
  interview_session_id = codes "";
  worker_session_id = codes "";
  interview_file = codes "";
  source = codes "tg";
  target_name = codes "@ada";
  tg_chat = pos 42;
  wa_chat = codes "";
  auto_start = false;
  deliver_to_target = false;
  seen_msg_ids = [];
  transcript = [];
  delivered = false;
  context_files = [];
  busy = false;
  pending = [];
}

abbrev drafting : Task
drafting = kick_errand desk (opened cv [])

drafting-Reaches : Reaches drafting
drafting-Reaches = started desk cv [] refl refl refl

-- The owner drops the errand, and then its draft arrives.
abbrev two_lines : AgentResult
two_lines = record {
  text = codes "MSG | Hello\nMSG | What is your name?";
  session_id = codes "s1";
  is_error = false;
}

abbrev dropped : Task
dropped = step desk cancel (record drafting { faults = [] })

abbrev ended : Task
ended = step desk (answered two_lines) (record dropped { faults = [] })

ended-Reaches : Reaches ended
ended-Reaches =
    later desk (answered two_lines) dropped [] (later desk cancel drafting [] drafting-Reaches)

Reaches-unstranded_example :
    ended.errand.busy ≡ in_flight ended.flight
    × (ended.errand.busy ≡ false → is_interviewing ended.errand ≡ true → ended.errand.pending ≡ [])
Reaches-unstranded_example = Reaches-unstranded ended ended-Reaches

Reaches-producer_runs_example :
    producer_runs ended.effects ≤ 4
    × (is_interviewing ended.errand ≡ true → producer_runs ended.effects ≡ 0)
Reaches-producer_runs_example = Reaches-producer_runs ended ended-Reaches

Reaches-Reserved_example : Reserved ended
Reaches-Reserved_example = Reaches-Reserved ended ended-Reaches

end_interview_turn-GotFirst_example :
    GotFirst 3
      (read_lines (split_on 10 two_lines.text)).msgs
      dropped
      (end_interview_turn desk two_lines dropped).1
end_interview_turn-GotFirst_example = end_interview_turn-GotFirst desk two_lines dropped

no_record : extract_record_block two_lines.text ≡ codes ""
unfolding extract_record_block cut has_prefix
no_record = refl

drafting_reached : (text_eq drafting.errand.source (codes "wa") && not desk.wa_enabled) ≡ false
unfolding kick_errand emit save_errand text_eq
drafting_reached = refl

cancelled_turn-sends_example :
    messages
        (end_interview_turn desk two_lines
          (cancel_errand (record drafting { faults = [] }))).1.effects
      ≡ messages drafting.effects ++ take 3 (read_lines (split_on 10 two_lines.text)).msgs
    × (end_interview_turn desk two_lines (cancel_errand (record drafting { faults = [] }))).0
      ≡ (read_lines (split_on 10 two_lines.text)).handoff
cancelled_turn-sends_example =
    cancelled_turn-sends desk two_lines drafting drafting_reached refl no_record

ended_over : is_active ended.errand ≡ false
unfolding step kick_errand emit save_errand text_eq is_active split_on has_prefix trim_space cut
ended_over = refl

ended_idle : ended.errand.busy ≡ false
unfolding step kick_errand emit save_errand text_eq split_on has_prefix trim_space cut
ended_idle = refl

Follows-StaysOver_example :
    StaysOver ended (step desk (approve (codes "")) (record ended { faults = [] }))
Follows-StaysOver_example =
    Follows-StaysOver ended (step desk (approve (codes "")) (record ended { faults = [] }))
      ended-Reaches ended_over ended_idle (next desk (approve (codes "")) ended [] here)

sync_claims-owns_example :
    has_tg (sync_claims (cv ∷ []) (pos 7 ∷ [])) (pos 42) ≡ owns (pos 42) (pos 7 ∷ []) (cv ∷ [])
    × has_wa (sync_claims (cv ∷ []) (pos 7 ∷ [])) (codes "1@lid")
      ≡ owns_wa (codes "1@lid") (cv ∷ [])
sync_claims-owns_example = sync_claims-owns (cv ∷ []) (pos 7 ∷ []) (pos 42) (codes "1@lid")

abbrev counter : Office
counter = record {
  triage_batch = none;
  resolve = λ name. some (pos 42);
  buffered_files = λ jid. [];
  new_id = codes "e2";
  can_save = true;
  faults = [];
}

abbrev no_errands : Comp
no_errands = record {
  owner_chat = pos 1;
  tasks = [];
  scheduled =
      record {
        id = codes "sch-1";
        run_at = 5;
        target = codes "@ada";
        brief = codes "ask for the CV";
        deliver_to_target = false;
        auto_start = true;
      }
      ∷ [];
  reports = [];
}

abbrev cv_spec : ErrandSpec
cv_spec = record {
  target = codes "@ada";
  brief = codes "ask for the CV";
  deliver_to_target = false;
  auto_start = true;
}

fire_due_scheduled-once_example :
    Fired 9 no_errands (fire_due_scheduled desk (λ s. counter) 9 no_errands)
    × fire_due_scheduled desk (λ s. counter) 7 (fire_due_scheduled desk (λ s. counter) 9 no_errands)
      ≡ fire_due_scheduled desk (λ s. counter) 9 no_errands
fire_due_scheduled-once_example =
    fire_due_scheduled-once desk (λ s. counter) (λ s. counter) 9 7 no_errands (omega arith)
