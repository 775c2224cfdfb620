-- ===== src/Errands/Commands.antt =====
-- internal/errands/comp.go and scheduled.go: the component's state, how an errand is started, and the
-- commands of the owner.
pub mod Started
pub mod Fired
use zcoms_agent.Prelude.{
  ℕ, Bool, true, false, List, [], ◌∷◌, ◌++◌, Option, none, some, ◌⊎◌, inl, inr, map, is_empty, not,
  if◌then◌else◌, ◌&&◌,
}
use zcoms_agent.Prelude.Text.{Text, codes, text_eq, trim_space, to_lower, one_of}
use zcoms_agent.Prelude.Text.Split.{cut, fields, join}
use zcoms_agent.Prelude.Int.{ℤ, pos, eq_ℤ}
use zcoms_agent.Errands.Errand.{
  Errand, Status, pending_approval, active, cancelled, is_active, pending_errand,
}
use zcoms_agent.Errands.Task.{
  Machine, Task, sync_claims, at_rest, emit, save_errand, set_errand_status,
}
use zcoms_agent.Errands.Drive.{kick_errand, approve_errand, cancel_errand, revise_errand_plan}
use zcoms_agent.Errands.Scheduled.{ScheduledErrand, claim_due_scheduled, unschedule}
use zcoms_agent.Errands.Specs.{
  ErrandSpec, SpecError, no_target, no_owner, no_brief, not_saved, Office, parse_errand_start,
  parse_errand_schedule, resolve_errand_target, errand_context_files,
}
use zcoms_agent.Errands.Steps.{opening, new_task, opened}

-- The replies, by what they say.
pub data Reply : Type 0 where
  listing : List Errand → Reply
  schedule_listing : List ScheduledErrand → Reply
  commands : Reply
  problem : SpecError → Reply
  started : Text → Text → Reply
  scheduled_at : Text → ℕ → Reply
  unscheduled : Text → Reply
  no_such_schedule : Text → Reply
  approved : Text → Reply
  dropped : Text → Reply
  revising : Text → Reply
  cancelled_by_owner : Text → Reply
  nothing_waits : Reply
  unknown_id : Text → Reply
  usage_of : Text → Reply
  unknown_command : Reply
  fired : Text → Reply → Reply

-- The errands of the map, with the turns that run for them, and the schedule.
pub record Comp : Type 0 where
  pub owner_chat : ℤ
  pub tasks : List Task
  pub scheduled : List ScheduledErrand
  -- what the schedule has sent, with the chat
  pub reports : List (ℤ × Reply)

abbrev pub errands_of : List Task → List Errand
errands_of tasks = map (λ t. t.errand) tasks

-- The errand that startErrand makes, before its target is known.
abbrev pub drafted : Office → ℤ → ErrandSpec → Errand
drafted o owner spec = record {
  id = o.new_id;
  status = opening spec.auto_start;
  brief = trim_space spec.brief;
  owner_chat = owner;
  interview_session_id = codes "";
  worker_session_id = codes "";
  interview_file = codes "";
  source = codes "";
  target_name = codes "";
  tg_chat = pos 0;
  wa_chat = codes "";
  auto_start = spec.auto_start;
  deliver_to_target = spec.deliver_to_target;
  seen_msg_ids = [];
  transcript = [];
  delivered = false;
  context_files = [];
  busy = false;
  pending = [];
}

-- An assignment in a map replaces what stands at the id.
unfoldable pub without_task : Text → List Task → List Task
without_task id [] = []
without_task id (t ∷ tasks) =
    let rest : List Task = without_task id tasks in
    if text_eq t.errand.id id then rest else t ∷ rest

unfoldable pub without_scheduled : Text → List ScheduledErrand → List ScheduledErrand
without_scheduled id [] = []
without_scheduled id (s ∷ scheduled) =
    let rest = without_scheduled id scheduled in if text_eq s.id id then rest else s ∷ rest

-- What is left to do once the target is known: the errand is in the map also where it cannot be
-- saved, and the saving, the claims and the first turn follow.
abbrev pub launched : Machine → Office → Errand → Comp → (SpecError ⊎ Errand) × Comp
launched m o e c =
    let known : Errand = record e { context_files = errand_context_files o e } in
    let others : List Task = without_task e.id c.tasks in
    if not o.can_save
    then (inl not_saved, record c { tasks = new_task known o.faults ∷ others })
    else (inr known, record c { tasks = kick_errand m (opened known o.faults) ∷ others })

abbrev pub resolved : Machine → Office → SpecError ⊎ Errand → Comp → (SpecError ⊎ Errand) × Comp
resolved m o (inl e) c = (inl e, c)
resolved m o (inr e) c = launched m o e c

-- startErrand
unfoldable pub start_errand : Machine → Office → ErrandSpec → Comp → (SpecError ⊎ Errand) × Comp
unfolding resolve_errand_target kick_errand emit save_errand without_task
start_errand m o spec c =
    if eq_ℤ c.owner_chat (pos 0)
    then (inl no_owner, c)
    else if text_eq (trim_space spec.brief) (codes "")
    then (inl no_brief, c)
    else resolved m o (resolve_errand_target o (drafted o c.owner_chat spec) spec.target) c

-- scheduleErrand, with the id and the time that it is given
unfoldable pub schedule_errand :
    Office → ErrandSpec → ℕ → Comp → (SpecError ⊎ ScheduledErrand) × Comp
unfolding without_scheduled
schedule_errand o spec run_at c =
    let s : ScheduledErrand = record {
      id = o.new_id;
      run_at = run_at;
      target = trim_space spec.target;
      brief = trim_space spec.brief;
      deliver_to_target = spec.deliver_to_target;
      auto_start = spec.auto_start;
    } in
    if eq_ℤ c.owner_chat (pos 0)
    then (inl no_owner, c)
    else if text_eq (trim_space spec.target) (codes "")
    then (inl no_target, c)
    else if text_eq (trim_space spec.brief) (codes "")
    then (inl no_brief, c)
    else if not o.can_save
    then (inl not_saved, record c { scheduled = s ∷ without_scheduled s.id c.scheduled })
    else (inr s, record c { scheduled = s ∷ without_scheduled s.id c.scheduled })

abbrev started_reply : (SpecError ⊎ Errand) × Comp → Reply × Comp
started_reply (inl e, c) = (problem e, c)
started_reply (inr e, c) = (started e.id e.target_name, c)

abbrev reported : Text → Reply × Comp → Comp
reported id (r, c) = record c { reports = c.reports ++ (c.owner_chat, fired id r) ∷ [] }

-- fireScheduled: the errand starts as one that is started by hand, and the owner is told.
unfoldable pub fire_scheduled : Machine → Office → ScheduledErrand → Comp → Comp
unfolding start_errand
fire_scheduled m o s c = reported s.id (
    started_reply (
      start_errand m o
        (record {
          target = s.target;
          brief = s.brief;
          deliver_to_target = s.deliver_to_target;
          auto_start = s.auto_start;
        })
        c))

-- Each start asks the other processes anew.
unfoldable pub fire_all : Machine → (ScheduledErrand → Office) → List ScheduledErrand → Comp → Comp
unfolding fire_scheduled
fire_all m office [] c = c
fire_all m office (s ∷ due) c = fire_all m office due (fire_scheduled m (office s) s c)

-- fireDueScheduled
unfoldable pub fire_due_scheduled : Machine → (ScheduledErrand → Office) → ℕ → Comp → Comp
unfolding fire_all claim_due_scheduled
fire_due_scheduled m office now c =
    let claim = claim_due_scheduled now c.scheduled in
    fire_all m office claim.1 (record c { scheduled = claim.0 })

-- The task of an id, changed.
unfoldable pub on_task : Text → (Task → Task) → List Task → List Task
on_task id f [] = []
on_task id f (t ∷ tasks) =
    let rest : List Task = on_task id f tasks in
    if text_eq t.errand.id id then f t ∷ tasks else t ∷ rest

unfoldable pub errand_of : Text → List Task → Option Errand
errand_of id [] = none
errand_of id (t ∷ tasks) =
    let rest : Option Errand = errand_of id tasks in
    if text_eq t.errand.id id then some t.errand else rest

-- errandExists
unfoldable pub errand_exists : Text → List Task → Bool
unfolding errand_of
errand_exists id tasks = elim (errand_of id tasks) [ none ↦ false | some e ↦ true ]

unfoldable pub active_errands : List Errand → List Errand
unfolding is_active
active_errands [] = []
active_errands (e ∷ errands) =
    let rest = active_errands errands in if is_active e then e ∷ rest else rest

abbrev waiting : Text → Comp → Option Errand
waiting id c = pending_errand id (errands_of c.tasks)

abbrev change : Text → (Task → Task) → Comp → Comp
change id f c = record c { tasks = on_task id f c.tasks }

abbrev approve : Machine → Option Errand → Comp → Reply × Comp
approve m none c = (nothing_waits, c)
approve m (some e) c = (approved e.id, change e.id (approve_errand m (codes "")) c)

abbrev reject : Option Errand → Comp → Reply × Comp
reject none c = (nothing_waits, c)
reject (some e) c = (dropped e.id, change e.id (set_errand_status cancelled) c)

abbrev revise : Machine → Text → Option Errand → Comp → Reply × Comp
revise m changes none c = (nothing_waits, c)
revise m changes (some e) c =
    if text_eq changes (codes "")
    then (usage_of (codes "edit"), c)
    else (revising e.id, change e.id (revise_errand_plan m changes) c)

-- The id may stand before the changes, where an errand has it.
abbrev edit : Machine → List Text → Comp → Reply × Comp
edit m [] c = revise m (codes "") (waiting (codes "") c) c
edit m (word ∷ words) c =
    if errand_exists word c.tasks
    then revise m (trim_space (join (codes " ") words)) (waiting word c) c
    else revise m (trim_space (join (codes " ") (word ∷ words))) (waiting (codes "") c) c

abbrev first_word : List Text → Text
first_word [] = codes ""
first_word (word ∷ words) = word

abbrev cancel_found : Option Errand → Text → Comp → Reply × Comp
cancel_found none id c = (unknown_id id, c)
cancel_found (some e) id c = (cancelled_by_owner e.id, change id cancel_errand c)

abbrev cancel : List Text → Comp → Reply × Comp
cancel [] c = (usage_of (codes "cancel"), c)
cancel (id ∷ words) c = cancel_found (errand_of id c.tasks) id c

abbrev unscheduled_or_not : Text → List ScheduledErrand × Bool → Comp → Reply × Comp
unscheduled_or_not id (left, true) c = (unscheduled id, record c { scheduled = left })
unscheduled_or_not id (left, false) c = (no_such_schedule id, c)

abbrev drop_schedule : List Text → Comp → Reply × Comp
drop_schedule [] c = (usage_of (codes "unschedule"), c)
drop_schedule (id ∷ words) c = unscheduled_or_not id (unschedule id c.scheduled) c

-- What stands after the first occurrence of a word: strings.Cut.
abbrev after : Text → Text → Text
after word text = elim (cut text word) [ none ↦ codes "" | some p ↦ p.1 ]

abbrev start : Machine → Office → SpecError ⊎ ErrandSpec → Comp → Reply × Comp
start m o (inl e) c = (problem e, c)
start m o (inr spec) c = started_reply (start_errand m o spec c)

abbrev scheduled_reply : (SpecError ⊎ ScheduledErrand) × Comp → Reply × Comp
scheduled_reply (inl e, c) = (problem e, c)
scheduled_reply (inr s, c) = (scheduled_at s.id s.run_at, c)

abbrev schedule_when : Office → ErrandSpec → SpecError ⊎ ℕ → Comp → Reply × Comp
schedule_when o spec (inl e) c = (problem e, c)
schedule_when o spec (inr run_at) c = scheduled_reply (schedule_errand o spec run_at c)

-- parseWhen is internal/timeexpr's, which is an argument here.
abbrev schedule :
    Office → (Text → SpecError ⊎ ℕ) → SpecError ⊎ (ErrandSpec × Text) → Comp → Reply × Comp
schedule o parse_when (inl e) c = (problem e, c)
schedule o parse_when (inr (spec, when)) c = schedule_when o spec (parse_when when) c

abbrev verb_in : Text → List Text → Bool
verb_in verb names = one_of (to_lower verb) names

abbrev dispatch : Machine → Office → (Text → SpecError ⊎ ℕ) → Text → List Text → Comp → Reply × Comp
dispatch m o parse_when text [] c = (commands, c)
dispatch m o parse_when text (first ∷ []) c = (commands, c)
dispatch m o parse_when text (first ∷ verb ∷ words) c =
    if verb_in verb (codes "list" ∷ [])
    then (listing (active_errands (errands_of c.tasks)), c)
    else if verb_in verb (codes "schedule" ∷ [])
    then schedule o parse_when (parse_errand_schedule (after (codes "schedule") text)) c
    else if verb_in verb (codes "scheduled" ∷ [])
    then (schedule_listing c.scheduled, c)
    else if verb_in verb (codes "unschedule" ∷ [])
    then drop_schedule words c
    else if verb_in verb (codes "start" ∷ [])
    then start m o (parse_errand_start (after (codes "start") text)) c
    else if verb_in verb (codes "yes" ∷ codes "go" ∷ codes "approve" ∷ [])
    then approve m (waiting (first_word words) c) c
    else if verb_in verb (codes "no" ∷ codes "reject" ∷ [])
    then reject (waiting (first_word words) c) c
    else if verb_in verb (codes "edit" ∷ [])
    then edit m words c
    else if verb_in verb (codes "cancel" ∷ [])
    then cancel words c
    else (unknown_command, c)

-- handleErrandCommand
unfoldable pub handle_errand_command :
    Machine → Office → (Text → SpecError ⊎ ℕ) → Text → Comp → Reply × Comp
unfolding start_errand schedule_errand on_task errand_of errand_exists active_errands
    parse_errand_start parse_errand_schedule unschedule approve_errand set_errand_status
    revise_errand_plan cancel_errand pending_errand
handle_errand_command m o parse_when text c = dispatch m o parse_when text (fields text) c
