-- ===== src/Witnesses/Joining.antt =====
-- The theorems about internal/agentd and the splitting of replies at concrete inputs.
use zcoms_agent.Prelude.{true, List, [], ◌∷◌, none, some, inr, ◌≡◌, refl, arith}
use zcoms_agent.Prelude.Text.{codes, text_eq, to_lower, trim_space}
use zcoms_agent.Prelude.Int.{pos}
use zcoms_agent.Store.Types
use zcoms_agent.Runner.Agents.{backend_claude}
use zcoms_agent.Bridge.State.{UserState}
use zcoms_agent.Bridge.Runs.{Machine, not_running}
use zcoms_agent.Bridge.Chunks.{chunk}
use zcoms_agent.Bridge.Chunks.Whole.{IsSplit, chunk-IsSplit}
use zcoms_agent.Bridge.Sessions.{
  Comp, Event, state_for, first_contact, value_at, session_key, native_id, or_telegram,
}
use zcoms_agent.Agentd.Adapter.{build_allow, row_key, allow_entry}
use zcoms_agent.Agentd.Adapter.Listed.{last_row, sender_key, first_contact-listed}

chunk-IsSplit_example : IsSplit 5 (codes "one\ntwo three  ") (chunk (codes "one\ntwo three  ") 5)
chunk-IsSplit_example = chunk-IsSplit (codes "one\ntwo three  ") 5 (omega arith)

abbrev bare_machine : Machine
bare_machine = record {
  installed = λ b. true;
  agents = record { default = backend_claude; tasks = [] };
  chat_backend = backend_claude;
  triage_backend = backend_claude;
  main_user = codes "";
  persona_seed = λ key. codes "";
  reload = none;
  list_sessions = λ agent path. inr [];
  home = none;
  triage_dir = codes "/tmp";
  triage_batch = inr [];
  brain_id = codes "";
  build_triage_seed = λ recipients. codes "";
  reset_error = none;
  copy_error = λ path rel. none;
  errands = λ text. codes "";
  reminders = none;
  events = none;
  team = λ text user. not_running;
  commerce = λ text user. codes "";
}

-- Two rows of one user, the second without a role.
abbrev ada_rows : List Types.AllowEntry
ada_rows =
    record { id = 1; platform = codes "telegram"; handle = codes "@ada"; max_role = codes "full" }
    ∷ record { id = 2; platform = codes "Telegram"; handle = codes "Ada"; max_role = codes "" }
    ∷ []

abbrev hello : Event
hello = record {
  transport = codes "";
  address = codes "42";
  sender = codes "@Ada";
  user_id = pos 7;
  chat_id = pos 42;
}

abbrev listed : Comp
listed = record { allow = build_allow ada_rows []; by_user = [] }

abbrev ada_session : UserState
ada_session =
    first_contact bare_machine (codes "@ada")
      (allow_entry
        (record { id = 2; platform = codes "Telegram"; handle = codes "Ada"; max_role = codes "" }))
      (codes "telegram") (codes "42")

is_new :
    value_at (session_key (or_telegram hello.transport) (native_id hello)) listed.by_user ≡ none
unfolding value_at
is_new = refl

is_served : (state_for bare_machine hello listed).1 ≡ some ada_session
unfolding state_for text_eq build_allow to_lower trim_space
is_served = refl

first_contact-listed_example :
    (row : Types.AllowEntry) × (last_row (sender_key hello) ada_rows none ≡ some row)
    × (row_key row ≡ sender_key hello)
    × (ada_session.entry ≡ allow_entry row)
first_contact-listed_example =
    first_contact-listed bare_machine hello listed ada_rows ada_session refl is_new is_served
