-- ===== src/Errands/Errand.antt =====
-- internal/errands/errand.go and comp.go: an errand, its status, the message ids it has seen, and the
-- errand that an approval means.
pub mod Seen
pub mod Pending
use zcoms_agent.Prelude.{
  ℕ, Bool, true, false, not, List, [], ◌∷◌, ◌++◌, ◌-◌, ◌&&◌, ◌||◌, ◌==◌, ltb, suc, Option, none,
  some, if◌then◌else◌, length, drop,
}
use zcoms_agent.Prelude.Text.{Text, codes, text_eq}
use zcoms_agent.Prelude.Int.{ℤ}

pub data Status : Type 0 where
  pending_approval active producing done cancelled failed : Status

-- What a turn of one of the two agents is asked for. A prompt is named for the function that
-- words it, with the values that it is given.
pub data Prompt : Type 0 where
  -- errandBeginPrompt, errandApprovalPrompt
  begin approval : Prompt
  -- errandReplyPrompt
  reply : Text → Text → Prompt
  -- "The owner approved with these changes: ..."
  approved_with : Text → Prompt
  -- "The owner wants these changes before you start: ..."
  revise : Text → Prompt
  -- workerStartPrompt, workerContinuePrompt
  worker_start worker_continue : Prompt

-- The times and the paths of the logs are left out.
pub record Errand : Type 0 where
  pub id : Text
  pub status : Status
  pub brief : Text
  pub owner_chat : ℤ
  pub interview_session_id : Text
  pub worker_session_id : Text
  pub interview_file : Text
  pub source : Text
  pub target_name : Text
  pub tg_chat : ℤ
  pub wa_chat : Text
  pub auto_start : Bool
  pub deliver_to_target : Bool
  pub seen_msg_ids : List Text
  pub transcript : List Text
  pub delivered : Bool
  pub context_files : List Text
  pub busy : Bool
  pub pending : List Prompt

-- active: is the errand still running?
unfoldable pub is_active : Errand → Bool
is_active e = elim e.status [
  | active ↦ true
  | pending_approval ↦ true
  | producing ↦ true
  | done ↦ false
  | cancelled ↦ false
  | failed ↦ false
]

-- interviewing: are replies of the contact fed in?
unfoldable pub is_interviewing : Errand → Bool
is_interviewing e = elim e.status [
  | active ↦ true
  | pending_approval ↦ true
  | producing ↦ false
  | done ↦ false
  | cancelled ↦ false
  | failed ↦ false
]

unfoldable pub is_seen : Text → List Text → Bool
is_seen id [] = false
is_seen id (s ∷ seen) = if text_eq s id then true else is_seen id seen

-- The last 500 of the ids.
abbrev pub bounded : List Text → List Text
bounded seen = if ltb 500 (length seen) then drop (length seen - 500) seen else seen

-- markSeen: the errand, and whether the id was new.
unfoldable pub mark_seen : Text → Errand → Errand × Bool
unfolding is_seen
mark_seen id e =
    if is_seen id e.seen_msg_ids
    then (e, false)
    else (record e { seen_msg_ids = bounded (e.seen_msg_ids ++ id ∷ []) }, true)

abbrev pub is_pending : Errand → Bool
is_pending e = elim e.status [
  | pending_approval ↦ true
  | active ↦ false
  | producing ↦ false
  | done ↦ false
  | cancelled ↦ false
  | failed ↦ false
]

-- The loop of pendingErrand: with an id the errand of that id, without one the only one there is.
unfoldable pub pending_from : Text → List Errand → Option Errand → ℕ → Option Errand
pending_from id [] match count = if text_eq id (codes "") && count == 1 then match else none
pending_from id (e ∷ errands) match count =
    let rest : Option Errand =
      pending_from id errands (if is_pending e then some e else match)
        (if is_pending e then suc count else count) in
    if is_pending e && not (text_eq id (codes "")) && text_eq e.id id then some e else rest

-- pendingErrand, over the errands in the order in which the map is walked.
unfoldable pub pending_errand : Text → List Errand → Option Errand
unfolding pending_from
pending_errand id errands = pending_from id errands none 0
