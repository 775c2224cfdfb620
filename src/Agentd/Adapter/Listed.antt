-- ===== src/Agentd/Adapter/Listed.antt =====
-- The rows of the allowlist and the sessions of internal/bridge that are made from them.
use zcoms_agent.Prelude.{
  Bool, true, false, List, [], ◌∷◌, Option, none, some, ◌≡◌, refl, sym, ap, ◌∙◌, arith,
  if◌then◌else◌, ◌||◌, if-either,
}
use zcoms_agent.Prelude.Text.{Text, codes, text_eq, text_eq_iff}
use zcoms_agent.Store.Types
use zcoms_agent.Runner.Roles.{AllowEntry}
use zcoms_agent.Runner.AllowKeys.{allow_key}
use zcoms_agent.Bridge.State.{UserState}
use zcoms_agent.Bridge.Runs.{Machine}
use zcoms_agent.Bridge.Sessions.{
  Event, Comp, value_at, set_at, lookup_allow, state_for, first_contact, match_handle, native_id,
  session_key, or_telegram, with_handle, created, found,
}
use zcoms_agent.Agentd.Adapter.{allow_entry, row_key, build_allow}

module _ {ℓ} {A : Type ℓ} where
  -- A map after an assignment.
  value_at-set_at :
      (k key : Text) (a : A) (entries : List (Text × A))
      → value_at k (set_at key a entries) ≡ (if text_eq key k then some a else value_at k entries)
  unfolding value_at set_at
  value_at-set_at k key a [] = refl
  value_at-set_at k key a ((l, b) ∷ entries) = ground (
    arith,
    value_at-set_at k key a entries,
    text_eq_iff l key,
    text_eq_iff key k,
    text_eq_iff l k,
  )

-- The last row with a key.
unfoldable pub last_row :
    Text → List Types.AllowEntry → Option Types.AllowEntry → Option Types.AllowEntry
last_row key [] found = found
last_row key (e ∷ entries) found =
    last_row key entries (if text_eq (row_key e) key then some e else found)

abbrev pub entry_of : Option Types.AllowEntry → Option AllowEntry
entry_of none = none
entry_of (some e) = some (allow_entry e)

build_allow-from :
    (key : Text) (rows : List Types.AllowEntry) (out : List (Text × AllowEntry))
    (found : Option Types.AllowEntry)
    → value_at key out ≡ entry_of found
    → value_at key (build_allow rows out) ≡ entry_of (last_row key rows found)
unfolding build_allow last_row
build_allow-from key [] out found h = h
build_allow-from key (e ∷ rows) out found h =
    build_allow-from key rows (set_at (row_key e) (allow_entry e) out)
      (if text_eq (row_key e) key then some e else found)
      (value_at-set_at key (row_key e) (allow_entry e) out ∙ chosen (text_eq (row_key e) key))
  where
    chosen :
        (same : Bool)
        → (if same then some (allow_entry e) else value_at key out)
          ≡ entry_of (if same then some e else found)
    chosen true = refl
    chosen false = h

-- The entry of a key is that of the last row of the allowlist that has this key, and there is none when
-- no row has it.
pub build_allow-last_row :
    (key : Text) (rows : List Types.AllowEntry)
    → value_at key (build_allow rows []) ≡ entry_of (last_row key rows none)
unfolding value_at
build_allow-last_row key rows = build_allow-from key rows [] none refl

last_row-key :
    (key : Text) (rows : List Types.AllowEntry) (found : Option Types.AllowEntry)
    (row : Types.AllowEntry)
    → ((r : Types.AllowEntry) → found ≡ some r → row_key r ≡ key)
    → last_row key rows found ≡ some row
    → row_key row ≡ key
unfolding last_row
last_row-key key [] found row h e = h row e
last_row-key key (r ∷ rows) found row h e =
    last_row-key key rows (if text_eq (row_key r) key then some r else found) row
      (λ s chosen. ground (arith, text_eq_iff (row_key r) key, h s)) e

-- The key of the sender of an event.
abbrev pub sender_key : Event → Text
sender_key ev = allow_key (or_telegram ev.transport) (match_handle ev)

abbrev session_entry : Option UserState → Option AllowEntry
session_entry none = none
session_entry (some st) = some st.entry

created-entry :
    (m : Machine) (ev : Event) (d : Comp) (entry : Option AllowEntry) (st : UserState)
    → (created m ev d (with_handle (sender_key ev) entry)).1 ≡ some st
    → entry ≡ some st.entry
unfolding first_contact
created-entry m ev d none st h = ground arith
created-entry m ev d (some entry) st h = ap session_entry h

first_contact-entry :
    (m : Machine) (ev : Event) (d : Comp) (st : UserState)
    → value_at (session_key (or_telegram ev.transport) (native_id ev)) d.by_user ≡ none
    → (state_for m ev d).1 ≡ some st
    → value_at (sender_key ev) d.allow ≡ some st.entry
unfolding state_for lookup_allow
first_contact-entry m ev d st new made =
    if-either Made (text_eq (native_id ev) (codes "") || text_eq (native_id ev) (codes "0")) _ _
      (λ _ e. ground arith)
      (λ _ e. created-entry m ev d (value_at (sender_key ev) d.allow) st (rw new at e)) made
  where
    Made : Comp × Option UserState → Type 0
    Made r = r.1 ≡ some st → value_at (sender_key ev) d.allow ≡ some st.entry

entry_of-some :
    (row : Option Types.AllowEntry) (e : AllowEntry)
    → entry_of row ≡ some e
    → (r : Types.AllowEntry) × (row ≡ some r) × (e ≡ allow_entry r)
entry_of-some none e h = ground arith
entry_of-some (some r) e h = (r, refl, ground arith)

-- With the allowlist that is built of the rows of the store, a session that is made on a first
-- contact is made from a row: the last one whose key is the key of the sender, and with its
-- role, or read where it has none.
pub first_contact-listed :
    (m : Machine) (ev : Event) (d : Comp) (rows : List Types.AllowEntry) (st : UserState)
    → d.allow ≡ build_allow rows []
    → value_at (session_key (or_telegram ev.transport) (native_id ev)) d.by_user ≡ none
    → (state_for m ev d).1 ≡ some st
    → (row : Types.AllowEntry) × (last_row (sender_key ev) rows none ≡ some row)
      × (row_key row ≡ sender_key ev)
      × (st.entry ≡ allow_entry row)
first_contact-listed m ev d rows st built new made =
    let found = entry_of-some (last_row (sender_key ev) rows none) st.entry (
      sym (build_allow-last_row (sender_key ev) rows)
      ∙ ap (value_at (sender_key ev)) (sym built)
      ∙ first_contact-entry m ev d st new made) in
    (
      found.0,
      found.1,
      last_row-key (sender_key ev) rows none found.0 (λ r e. ground arith) found.1,
      found.2,
    )
