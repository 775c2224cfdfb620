-- ===== src/Bridge/Sessions.antt =====
-- internal/bridge/runtime.go: the sessions by their keys, and the allow-list they are made from.
use zcoms_agent.Prelude.{
  ℕ, Bool, true, false, List, [], ◌∷◌, ◌++◌, Option, none, some, ◌||◌, ◌==◌, ◌/◌, ◌%◌, ◌+◌, zero,
  suc, if◌then◌else◌, ltb,
}
use zcoms_agent.Prelude.Text.{Text, codes, text_eq}
use zcoms_agent.Prelude.Int.{ℤ, pos, negsuc}
use zcoms_agent.Runner.Roles.{AllowEntry}
use zcoms_agent.Runner.AllowKeys.{allow_key, wa_digits}
use zcoms_agent.Runner.Agents.{agent_for}
use zcoms_agent.Bridge.State.{UserState, no_menu}
use zcoms_agent.Bridge.Runs.{Machine}

pub record Event : Type 0 where
  pub transport : Text
  pub address : Text
  pub sender : Text
  pub user_id : ℤ
  pub chat_id : ℤ

pub record Comp : Type 0 where
  pub allow : List (Text × AllowEntry)
  pub by_user : List (Text × UserState)

-- The value at a key of a Go map.
unfoldable pub value_at {ℓ} : {A : Type ℓ} → Text → List (Text × A) → Option A
value_at key [] = none
value_at key ((k, a) ∷ entries) = if text_eq k key then some a else value_at key entries

unfoldable pub set_at {ℓ} : {A : Type ℓ} → Text → A → List (Text × A) → List (Text × A)
set_at key a [] = (key, a) ∷ []
set_at key a ((k, b) ∷ entries) =
    let rest = set_at key a entries in if text_eq k key then (key, a) ∷ entries else (k, b) ∷ rest

-- The decimal digits; a number has fewer digits than its value, or is 0.
unfoldable pub digits_of : ℕ → ℕ → Text
digits_of zero n = []
digits_of (suc fuel) n =
    let front = digits_of fuel (n / 10) in (if ltb n 10 then [] else front) ++ (b'0' + n % 10) ∷ []

-- strconv.FormatInt in base 10
unfoldable pub format_int : ℤ → Text
unfolding digits_of
format_int (pos n) = digits_of (suc n) n
format_int (negsuc n) = b'-' ∷ digits_of (suc (suc n)) (suc n)

abbrev pub or_telegram : Text → Text
or_telegram t = if text_eq t (codes "") then codes "telegram" else t

-- sessionKey
unfoldable pub session_key : Text → Text → Text
session_key transport native_id = or_telegram transport ++ codes "|" ++ native_id

-- What stands after the first '|', or the whole.
unfoldable pub after_bar : Text → Option Text
after_bar [] = none
after_bar (c ∷ s) = let rest = after_bar s in if c == b'|' then some s else rest

abbrev or_whole : Text → Option Text → Text
or_whole key none = key
or_whole key (some handle) = handle

abbrev pub with_handle : Text → Option AllowEntry → Option (Text × AllowEntry)
with_handle key none = none
with_handle key (some e) = some (or_whole key (after_bar key), e)

-- lookupAllow: the handle of the key and its entry
unfoldable pub lookup_allow : List (Text × AllowEntry) → Text → Text → Option (Text × AllowEntry)
unfolding value_at after_bar allow_key
lookup_allow allow platform sender =
    let key = allow_key platform sender in with_handle key (value_at key allow)

abbrev is_whatsapp : Event → Bool
is_whatsapp ev = text_eq (or_telegram ev.transport) (codes "whatsapp")

-- The handle that is matched, the id and the reply address of an event, per transport.
unfoldable pub match_handle : Event → Text
unfolding wa_digits
match_handle ev = if is_whatsapp ev then wa_digits ev.address else ev.sender

unfoldable pub native_id : Event → Text
unfolding wa_digits format_int
native_id ev = if is_whatsapp ev then wa_digits ev.address else format_int ev.user_id

unfoldable pub reply_address : Event → Text
unfolding format_int
reply_address ev =
    if is_whatsapp ev
    then ev.address
    else if text_eq ev.address (codes "")
    then format_int ev.chat_id
    else ev.address

-- The session of a first contact.
unfoldable pub first_contact : Machine → Text → AllowEntry → Text → Text → UserState
first_contact m handle entry transport address = record {
  username = handle;
  entry = entry;
  transport = transport;
  address = address;
  location = codes "";
  location_path = codes "";
  effective_role = codes "";
  backend = agent_for m.installed m.agents (codes "bridge") entry.agent;
  force_backend = codes "";
  session_id = codes "";
  pending_kind = no_menu;
  pending_loc = [];
  pending_sess = [];
  pending_files = [];
  busy = false;
  awaiting_confirm = false;
  triage_reply = false;
  triage_recipients = [];
  triage_seed = codes "";
  triage_session = false;
  team_session = false;
}

abbrev with_address : Text → UserState → UserState
with_address address st = record st { address = address }

abbrev pub created : Machine → Event → Comp → Option (Text × AllowEntry) → Comp × Option UserState
created m ev d none = (d, none)
created m ev d (some (handle, entry)) =
    let st = first_contact m handle entry (or_telegram ev.transport) (reply_address ev) in
    (
      record d {
        by_user = set_at (session_key (or_telegram ev.transport) (native_id ev)) st d.by_user;
      },
      some st,
    )

abbrev pub found : Machine → Event → Comp → Option UserState → Comp × Option UserState
found m ev d none =
    created m ev d (lookup_allow d.allow (or_telegram ev.transport) (match_handle ev))
found m ev d (some st) =
    let refreshed = with_address (reply_address ev) st in
    (
      record d {
        by_user =
            set_at (session_key (or_telegram ev.transport) (native_id ev)) refreshed d.by_user;
      },
      some refreshed,
    )

-- stateFor
unfoldable pub state_for : Machine → Event → Comp → Comp × Option UserState
unfolding value_at set_at lookup_allow first_contact session_key native_id match_handle
    reply_address
state_for m ev d =
    if text_eq (native_id ev) (codes "") || text_eq (native_id ev) (codes "0")
    then (d, none)
    else found m ev d (value_at (session_key (or_telegram ev.transport) (native_id ev)) d.by_user)

abbrev is_some {ℓ} : {A : Type ℓ} → Option A → Bool
is_some none = false
is_some (some _) = true

unfoldable pub still_allowed :
    List (Text × AllowEntry) → List (Text × UserState) → List (Text × UserState)
unfolding value_at allow_key
still_allowed allow [] = []
still_allowed allow ((key, st) ∷ sessions) =
    let rest = still_allowed allow sessions in
    if is_some (value_at (allow_key st.transport st.username) allow) then (key, st) ∷ rest else rest

-- SetAllow: the sessions whose user is no longer listed are dropped; the others stay as they are.
unfoldable pub set_allow : List (Text × AllowEntry) → Comp → Comp
unfolding still_allowed
set_allow allow d = record d { allow = allow; by_user = still_allowed allow d.by_user }
