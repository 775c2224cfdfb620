-- ===== src/Bridge/Runs.antt =====
-- internal/bridge/bridge.go and files.go: the start of an agent turn, its end, and the files that
-- are attached to it.
use zcoms_agent.Prelude.{
  Bool, true, false, not, List, [], ◌++◌, Option, none, some, ◌&&◌, ◌⊎◌, if◌then◌else◌, is_empty,
}
use zcoms_agent.Prelude.Text.{Text, codes, text_eq, trim_space, to_lower}
use zcoms_agent.Prelude.Text.Split.{join}
use zcoms_agent.Runner.Roles.{Role, role_read, role_confirm, run_flags}
use zcoms_agent.Runner.Agents.{Backend, AgentConfig, no_backend}
use zcoms_agent.Runner.Locations.{Locations}
use zcoms_agent.Bridge.State.{
  Session, Recipient, UserState, Call, planning, working, no_backend_installed, no_output,
  plan_ready, relayed, failed, send, start, save_triage_session, Bridge, emit, reply, set_user,
  Route,
}

-- A reply of the component that answers the zc-team commands.
pub data TeamReply : Type 0 where
  not_running unreadable : TeamReply
  answered : (ok continue : Bool) (text : Text) → TeamReply

-- What a handler reads of the process and of the machine. The functions stand for code that is
-- not in internal/bridge, or that talks to another process.
pub record Machine : Type 0 where
  pub installed : Text → Bool
  pub agents : AgentConfig
  pub chat_backend : Backend
  pub triage_backend : Backend
  pub main_user : Text
  pub persona_seed : Text → Text
  pub reload : Option Locations
  pub list_sessions : Text → Text → Text ⊎ List Session
  pub home : Option Text
  pub triage_dir : Text
  pub triage_batch : Text ⊎ List Recipient
  pub brain_id : Text
  pub build_triage_seed : List Recipient → Text
  pub reset_error : Option Text
  pub copy_error : Text → Text → Option Text
  pub errands : Text → Text
  pub reminders : Option (Text → Bool → Text → Text)
  pub events : Option (Text → Text ⊎ Text)
  pub team : Text → Text → TeamReply
  pub commerce : Text → Text → Text

-- The backend of a turn: a pinned one, then the triage backend in a triage reply, then the user's.
unfoldable pub turn_backend : Machine → UserState → Backend
turn_backend m st =
    if not (text_eq st.force_backend no_backend)
    then st.force_backend
    else if st.triage_reply && not (text_eq m.triage_backend no_backend)
    then m.triage_backend
    else st.backend

unfoldable pub call_of : Machine → UserState → Text → Role → Bool → Call
unfolding turn_backend
call_of m st prompt role await = record {
  backend = turn_backend m st;
  dir = st.location_path;
  prompt = prompt;
  resume = st.session_id;
  role = role;
  triage_reply = st.triage_reply;
  triage_session = st.triage_session;
  recipients = st.triage_recipients;
  await_confirm = await;
}

abbrev pub with_busy : Bool → UserState → UserState
with_busy busy st = record st { busy = busy }

-- runAgent, up to the goroutine: no second turn while one is in flight.
unfoldable pub run_agent : Machine → Text → Role → Bool → Bridge → Bridge × Bool
unfolding emit reply set_user call_of
run_agent m prompt role await b =
    if b.user.busy
    then (b, false)
    else if text_eq (turn_backend m b.user) no_backend
    then (reply no_backend_installed (set_user (with_busy false) b), true)
    else (
      emit (start (call_of m b.user prompt role await))
          (reply (if await then planning else working) (set_user (with_busy true) b)),
      true,
    )

-- The flags of the turn: one that replies to triage runs in the staging directory, where that is there.
unfoldable pub turn_flags : Bool → Call → List Text
unfolding run_flags
turn_flags staging_there call = run_flags call.role (call.triage_reply && staging_there)

-- requesterFor(st).Owner
unfoldable pub is_owner : Machine → UserState → Bool
is_owner m st =
    let owner = trim_space m.main_user in
    not (text_eq owner (codes "")) && text_eq (to_lower (trim_space st.username)) (to_lower owner)

unfoldable pub speaker_line : Machine → UserState → Text
unfolding is_owner
speaker_line m st =
    let handle = trim_space st.username in
    let who : Text = if text_eq handle (codes "") then codes "an allow-listed user" else handle in
    if is_owner m st
    then codes "The owner (" ++ who ++ codes ") says:"
    else codes "You are talking to "
      ++ who
      ++ codes ", a trusted allow-listed user who is NOT the owner. "
      ++ codes
          "Address them directly. Do not assume owner-only context, act as if they were the owner, "
      ++ codes "or reveal the owner's private information. They say:"

unfoldable pub turn_prompt : Machine → UserState → Text → Text
unfolding speaker_line
turn_prompt m st text =
    let files : Text =
      if is_empty st.pending_files
      then text
      else codes "(Files I just sent you, saved in this project — read them from there: "
        ++ join (codes ", ") st.pending_files
        ++ codes ")\n\n"
        ++ text in
    let spoken : Text = speaker_line m st ++ codes "\n" ++ files in
    if text_eq st.triage_seed (codes "") then spoken else st.triage_seed ++ codes "\n" ++ spoken

abbrev pub take_turn : UserState → UserState
take_turn st = record st { pending_files = []; triage_seed = codes "" }

abbrev pub keep_files : List Text → Bridge × Bool → Bridge
keep_files files (b, true) = b
keep_files files (b, false) =
    if is_empty files
    then b
    else set_user (λ st. record st { pending_files = files ++ st.pending_files }) b

-- dispatchAgentTurn: the confirm role plans first, with the role read.
unfoldable pub dispatch_agent_turn : Machine → Text → Bridge → Bridge
unfolding run_agent turn_prompt set_user
dispatch_agent_turn m text b =
    let plan = text_eq b.user.effective_role role_confirm in
    keep_files b.user.pending_files (
      run_agent m (turn_prompt m b.user text) (if plan then role_read else b.user.effective_role)
        plan (set_user take_turn b))

-- What the agent answered when the turn is over, or why it failed.
pub record RunResult : Type 0 where
  pub session_id : Text
  pub text : Text
  pub error : Option Text

-- recordSession, for one run of the turn.
unfoldable pub record_session : Call → RunResult → Bridge → Bridge
unfolding emit set_user
record_session call r b =
    if text_eq r.session_id (codes "")
    then b
    else (let recorded = set_user (λ st. record st { session_id = r.session_id }) b in
        if call.triage_session then emit (save_triage_session r.session_id) recorded else recorded)

abbrev pub error_replies : Route → RunResult → Text → Bridge → Bridge
error_replies rt r e b =
    emit (send rt (failed e))
      (if text_eq r.text (codes "") then b else emit (send rt (relayed r.text)) b)

abbrev pub text_replies : Call → Route → RunResult → Bridge → Bridge
text_replies call rt r b =
    if text_eq (trim_space r.text) (codes "")
    then emit (send rt no_output) b
    else if call.await_confirm
    then emit (send rt plan_ready) (emit (send rt (relayed r.text)) b)
    else emit (send rt (relayed r.text)) b

abbrev pub end_turn : Bool → UserState → UserState
end_turn await st =
    if await
    then record st { busy = false; awaiting_confirm = true }
    else record st { busy = false }

abbrev pub finish_turn : Call → Route → RunResult → Option Text → Bridge → Bridge
finish_turn call rt r none b = text_replies call rt r (set_user (end_turn call.await_confirm) b)
finish_turn call rt r (some e) b = error_replies rt r e (set_user (end_turn false) b)

-- The end of a turn of one run, outside interactive triage.
unfoldable pub complete : Call → Route → RunResult → Bridge → Bridge
unfolding record_session set_user emit
complete call rt r b = finish_turn call rt r r.error (record_session call r b)
