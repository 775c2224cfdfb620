-- ===== src/Errands/Task.antt =====
-- internal/errands/errand_run.go and comp.go: an errand with the turn that runs for it, and what the
-- handlers do to the world outside. A message to the owner is named for what it says.
use zcoms_agent.Prelude.{
  ℕ, Bool, true, false, List, [], ◌∷◌, ◌++◌, Option, none, some, not, ◌&&◌, ◌||◌, if◌then◌else◌,
}
use zcoms_agent.Prelude.Text.{Text, codes, text_eq, trim_space, has_prefix}
use zcoms_agent.Prelude.Text.Split.{trim_prefix}
use zcoms_agent.Prelude.Text.FilePath.{join_path, is_abs}
use zcoms_agent.Store.Db.{head_fault, tail_faults}
use zcoms_agent.Runner.Agents.{Backend}
use zcoms_agent.Errands.Errand.{Errand, Status, Prompt}

pub data OwnerMessage : Type 0 where
  plan : Text → OwnerMessage
  no_plan : OwnerMessage
  held_back : ℕ → OwnerMessage
  not_messaged turn_error producer_error : OwnerMessage
  silent_turn : Text → OwnerMessage
  no_agent_cli no_working_dir record_failed producing_started : OwnerMessage
  complete : Text → OwnerMessage
  flagged : List Text → OwnerMessage
  not_delivered file_not_sent : Text → OwnerMessage
  file_skipped : OwnerMessage
  not_finished : OwnerMessage

pub data Agent : Type 0 where
  interviewer producer : Agent

-- A call of runner.RunAgent with the role read; `seeded` where the seed stands before the prompt.
pub record Call : Type 0 where
  pub agent : Agent
  pub prompt : Prompt
  pub seeded : Bool
  pub resume : Text
  pub writable : Bool

pub data Effect : Type 0 where
  to_owner : OwnerMessage → Effect
  to_contact : Text → Effect
  file_to_owner : Text → Text → Effect
  file_to_contact : Text → Text → Effect
  write_file : Text → Text → Effect
  save : Errand → Effect
  sync_claims : Effect
  mark_read : Text → Effect
  run : Call → Effect

-- The turn for which driveErrand waits, with the turns that its producer has had.
pub data Flight : Type 0 where
  at_rest : Flight
  asking making : ℕ → Flight

-- What the handlers read of the process and of the machine.
pub record Machine : Type 0 where
  pub backend : Backend
  pub staging : Text → Option Text
  pub home : Option Text
  pub wa_enabled : Bool

-- The faults say of each attempt to send, to read or to write whether it fails. `file` is what
-- stands in the interview file.
pub record Task : Type 0 where
  pub errand : Errand
  pub flight : Flight
  pub file : Text
  pub faults : List Bool
  pub effects : List Effect

unfoldable pub emit : Effect → Task → Task
emit e t = record t { effects = t.effects ++ e ∷ [] }

-- d.send(e.OwnerChat, ...), whose error is dropped
unfoldable pub tell : OwnerMessage → Task → Task
unfolding emit
tell m t = emit (to_owner m) t

unfoldable pub save_errand : Task → Task
unfolding emit
save_errand t = emit (save t.errand) t

unfoldable pub set_errand : (Errand → Errand) → Task → Task
set_errand f t = record t { errand = f t.errand }

-- setErrandStatus
unfoldable pub set_errand_status : Status → Task → Task
unfolding emit save_errand set_errand
set_errand_status s t = emit sync_claims (save_errand (set_errand (λ e. record e { status = s }) t))

-- One attempt that may fail, and what it does if not.
unfoldable pub attempt : (Task → Task) → Task → Bool × Task
attempt f t =
    let t' : Task = record t { faults = tail_faults t.faults } in
    if head_fault t.faults then (false, t') else (true, f t')

abbrev pub is_wa : Errand → Bool
is_wa e = text_eq e.source (codes "wa")

-- deliverToOwner: the file is missing, or it cannot be sent, or it is sent.
unfoldable pub deliver_to_owner : Text → Text → Task → Bool × Task
unfolding emit attempt
deliver_to_owner path caption t = attempt (emit (file_to_owner path caption)) t

-- sendToErrandTarget
unfoldable pub send_to_errand_target : Machine → Text → Task → Bool × Task
unfolding emit attempt
send_to_errand_target m body t =
    if is_wa t.errand && not m.wa_enabled then (false, t) else attempt (emit (to_contact body)) t

-- sendFileToErrandTarget
unfoldable pub send_file_to_errand_target : Machine → Text → Text → Task → Bool × Task
unfolding emit attempt
send_file_to_errand_target m path caption t =
    if is_wa t.errand && not m.wa_enabled
    then (false, t)
    else attempt (emit (file_to_contact path caption)) t

abbrev pub written : Text → Text → Task → Task
written path content t = record (emit (write_file path content) t) { file = content }

abbrev pub title : Errand → Text
title e =
    codes "# Collected info — errand "
    ++ e.id
    ++ codes " ("
    ++ e.target_name
    ++ codes ")\n\nBrief: "
    ++ trim_space e.brief

abbrev pub file_header : Errand → Text
file_header e = title e ++ codes "\n\n(awaiting answers)\n"

abbrev pub named_file : Errand → Text → Task → Task
named_file e path t = save_errand (
    set_errand (λ e. record e { interview_file = path })
      (attempt (written path (file_header e)) t).1)

-- ensureInterviewFile
unfoldable pub ensure_interview_file : Machine → Task → Task
unfolding emit save_errand set_errand attempt
ensure_interview_file m t =
    if not (text_eq t.errand.interview_file (codes "")) then t else elim (m.staging t.errand.id) [
      | none ↦ t
      | some dir ↦ named_file t.errand (join_path dir (codes "collected-info.md")) t
    ]

abbrev pub told_if_failed : OwnerMessage → Bool × Task → Task
told_if_failed m (true, t) = t
told_if_failed m (false, t) = tell m t

abbrev pub overwritten : Text → Task → Task
overwritten content t =
    if text_eq t.errand.interview_file (codes "")
    then t
    else told_if_failed record_failed (attempt (written t.errand.interview_file content) t)

-- writeInterviewFile
unfoldable pub write_interview_file : Machine → Text → Task → Task
unfolding emit tell attempt ensure_interview_file
write_interview_file m content t = overwritten content (ensure_interview_file m t)

abbrev pub transcript_lines : List Text → Text
transcript_lines [] = []
transcript_lines (l ∷ lines) = l ++ codes "\n\n" ++ transcript_lines lines

-- errandTranscriptDoc
unfoldable pub errand_transcript_doc : Errand → Text
errand_transcript_doc e = title e ++ codes "\n\n## Transcript\n\n" ++ transcript_lines e.transcript

abbrev pub expanded_home : Option Text → Text → Text
expanded_home none path = path
expanded_home (some home) path =
    join_path home (trim_prefix (trim_prefix path (codes "~")) (codes "/"))

abbrev pub in_staging : Option Text → Text → Text
in_staging none path = path
in_staging (some dir) path = if is_abs path then path else join_path dir path

-- errandResolvePath
unfoldable pub errand_resolve_path : Machine → Text → Text → Text
errand_resolve_path m id path =
    let path : Text = trim_space path in
    in_staging (m.staging id) (
      if text_eq path (codes "~") || has_prefix path (codes "~/")
      then expanded_home m.home path
      else path)
