-- ===== src/Errands/Producer.antt =====
-- internal/errands/errand_run.go: a turn of the producer, who builds the deliverable from the answers,
-- and the end of the errand.
use zcoms_agent.Prelude.{
  ℕ, Bool, true, false, not, List, [], ◌∷◌, Option, none, some, if◌then◌else◌, is_empty,
}
use zcoms_agent.Prelude.Text.{Text, codes, text_eq, trim_space}
use zcoms_agent.Prelude.Text.Split.{split_on}
use zcoms_agent.Errands.Errand.{done, failed, Prompt}
use zcoms_agent.Errands.Directives.{
  Keyword, msg, record_block, send_file, deliver, flag, finished, errand_directive, split_file_arg,
}
use zcoms_agent.Errands.Task.{
  producer_error, no_working_dir, complete, flagged, not_delivered, file_not_sent, file_skipped,
  producer, run, making, Machine, Task, emit, tell, save_errand, set_errand, set_errand_status,
  deliver_to_owner, send_file_to_errand_target, errand_resolve_path,
}
use zcoms_agent.Errands.Interview.{AgentResult, delivered_if, deliver_info}

-- What the loop of applyWorkerDirectives collects of the lines.
pub record Work : Type 0 where
  pub target_files : List (Text × Text)
  pub owner_files : List (Text × Text)
  pub flags : List Text
  pub summary : Option Text

abbrev pub later_or : Option Text → Text → Option Text
later_or none text = some text
later_or (some later) text = some later

abbrev pub take_directive : Option (Keyword × Text) → Work → Work
take_directive none w = w
take_directive (some (msg, text)) w = w
take_directive (some (record_block, text)) w = w
take_directive (some (send_file, text)) w = record w {
  target_files = split_file_arg (trim_space text) ∷ w.target_files;
}
take_directive (some (deliver, text)) w = record w {
  owner_files = split_file_arg (trim_space text) ∷ w.owner_files;
}
take_directive (some (flag, text)) w = record w { flags = trim_space text ∷ w.flags }
-- the last DONE has the summary
take_directive (some (finished, text)) w = record w {
  summary = later_or w.summary (trim_space text);
}

unfoldable pub read_work : List Text → Work
read_work [] = record { target_files = []; owner_files = []; flags = []; summary = none }
read_work (line ∷ lines) =
    let rest = read_work lines in take_directive (errand_directive (trim_space line)) rest

abbrev pub told_or_delivered : Text → Bool × Task → Task
told_or_delivered path (false, t) = tell (not_delivered path) t
told_or_delivered path (true, t) = delivered_if (true, t)

unfoldable pub deliver_files : Machine → List (Text × Text) → Task → Task
unfolding tell set_errand deliver_to_owner errand_resolve_path
deliver_files m [] t = t
deliver_files m ((path, caption) ∷ files) t =
    deliver_files m files
      (told_or_delivered path (deliver_to_owner (errand_resolve_path m t.errand.id path) caption t))

abbrev pub told_if_not_sent : Text → Bool × Task → Task
told_if_not_sent path (false, t) = tell (file_not_sent path) t
told_if_not_sent path (true, t) = t

-- One SENDFILE: only an errand that was started to deliver to the contact sends it.
unfoldable pub send_target_file : Machine → Text → Text → Task → Task
unfolding tell send_file_to_errand_target errand_resolve_path
send_target_file m path caption t =
    if not t.errand.deliver_to_target
    then tell file_skipped t
    else told_if_not_sent path
        (send_file_to_errand_target m (errand_resolve_path m t.errand.id path) caption t)

unfoldable pub send_target_files : Machine → List (Text × Text) → Task → Task
unfolding send_target_file
send_target_files m [] t = t
send_target_files m ((path, caption) ∷ files) t =
    send_target_files m files (send_target_file m path caption t)

-- finishErrand
unfoldable pub finish_errand : Text → Task → Task
unfolding tell set_errand_status deliver_info
finish_errand summary t =
    let t' : Task = if t.errand.delivered then t else deliver_info (codes "Collected info") t in
    let said : Text = if text_eq (trim_space summary) (codes "") then codes "done." else summary in
    set_errand_status done (tell (complete said) t')

abbrev pub close_work : Work → Task → Bool × Task
close_work w t =
    if not (is_empty w.flags)
    then (true, set_errand_status failed (tell (flagged w.flags) t))
    else elim w.summary [
      | none ↦ (false, save_errand t)
      | some summary ↦ (true, finish_errand summary t)
    ]

-- applyWorkerDirectives
unfoldable pub apply_worker_directives : Machine → Text → Task → Bool × Task
unfolding tell save_errand set_errand_status read_work deliver_files send_target_files finish_errand
apply_worker_directives m text t =
    let w : Work = read_work (split_on 10 text) in
    close_work w (send_target_files m w.target_files (deliver_files m w.owner_files t))

abbrev pub worker_session : AgentResult → Task → Task
worker_session a t =
    if text_eq a.session_id (codes "")
    then t
    else set_errand (λ e. record e { worker_session_id = a.session_id }) t

-- runWorkerTurn after RunAgent: has the errand finished?
unfoldable pub end_worker_turn : Machine → AgentResult → Task → Bool × Task
unfolding tell save_errand set_errand apply_worker_directives
end_worker_turn m a t =
    let t' : Task = save_errand (worker_session a t) in
    if a.is_error then (false, tell producer_error t') else apply_worker_directives m a.text t'

-- runWorkerTurn up to RunAgent: is the call made?
unfoldable pub start_worker_turn : Machine → Prompt → ℕ → Task → Bool × Task
unfolding emit tell set_errand_status
start_worker_turn m prompt worker_turns t = elim (m.staging t.errand.id) [
  | none ↦ (false, set_errand_status failed (tell no_working_dir t))
  | some dir ↦ (
    true,
    record (emit
        (run (record {
          agent = producer;
          prompt = prompt;
          seeded = text_eq t.errand.worker_session_id (codes "");
          resume = t.errand.worker_session_id;
          writable = true;
        }))
        t) { flight = making worker_turns },
  )
]
