-- ===== src/Bridge/Files.antt =====
-- internal/bridge/files.go: a file that a user sends, which waits for the next turn.
use zcoms_agent.Prelude.{
  ℕ, [], ◌∷◌, ◌++◌, Option, none, some, ◌||◌, ◌&&◌, ◌==◌, if◌then◌else◌, is_empty, map,
}
use zcoms_agent.Prelude.Text.{Text, codes, text_eq, trim_space, one_of}
use zcoms_agent.Bridge.State.{
  phrase, failed, file_missing, file_saved, file_working, Bridge, reply, set_user,
}
use zcoms_agent.Bridge.Runs.{Machine, dispatch_agent_turn}

-- What stands after the last '/' of a text that does not end in one.
unfoldable pub last_part : Text → Text → Text
last_part part [] = part
last_part part (c ∷ s) = if c == b'/' then last_part [] s else last_part (part ++ c ∷ []) s

unfoldable pub without_slashes : Text → Text
without_slashes [] = []
without_slashes (c ∷ s) =
    let rest = without_slashes s in if is_empty rest && c == b'/' then [] else c ∷ rest

-- filepath.Base
unfoldable pub base : Text → Text
unfolding last_part without_slashes
base path =
    if text_eq path (codes "")
    then codes "."
    else (let short = without_slashes path in
        if is_empty short then codes "/" else last_part [] short)

-- strings.NewReplacer("/", "_", "\\", "_", "\n", " ", "\r", " ")
abbrev replaced : ℕ → ℕ
replaced c = if c == b'/' || c == b'\\' then b'_' else if c == 10 || c == 13 then b' ' else c

-- sanitizeFilename
unfoldable pub sanitize_filename : Text → Text
unfolding base
sanitize_filename name =
    let short = base (trim_space name) in
    if one_of short (codes "" ∷ codes "." ∷ codes ".." ∷ [])
    then codes "file"
    else map replaced short

abbrev pub attach : Machine → Text → Text → Option Text → Bridge → Bridge
attach m rel caption (some e) b = reply (failed e) b
attach m rel caption none b =
    let attached = set_user (λ st. record st { pending_files = st.pending_files ++ rel ∷ [] }) b in
    if text_eq (trim_space caption) (codes "")
    then reply file_saved attached
    else dispatch_agent_turn m caption (reply file_working attached)

-- handleIncomingFile. The uploads directory, joined with a name that has no '/'.
unfoldable pub handle_incoming_file : Machine → Text → Text → Text → Bridge → Bridge
unfolding reply set_user dispatch_agent_turn base sanitize_filename
handle_incoming_file m local_path file_name caption b =
    if text_eq b.user.location (codes "")
    then reply (phrase (codes "location_gate_file")) b
    else if text_eq (trim_space local_path) (codes "")
    then reply file_missing b
    else (let name : Text = if text_eq file_name (codes "") then base local_path else file_name in
        let rel : Text = codes "zcoms-uploads/" ++ sanitize_filename name in
        attach m rel caption (m.copy_error local_path rel) b)
