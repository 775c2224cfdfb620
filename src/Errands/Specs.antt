-- ===== src/Errands/Specs.antt =====
-- internal/errands/comp.go and scheduled.go: what the owner asks for when an errand is started or
-- scheduled, and the contact that a target means.
use zcoms_agent.Prelude.{
  Bool, true, false, List, [], ◌∷◌, ◌++◌, Option, none, some, ◌||◌, ◌&&◌, ◌⊎◌, inl, inr, ltb, ◌-◌,
  if◌then◌else◌, length, drop, not,
}
use zcoms_agent.Prelude.Text.{Text, codes, text_eq, trim_space, to_lower, has_prefix, one_of}
use zcoms_agent.Prelude.Text.Split.{cut, contains, trim_prefix, fields, join}
use zcoms_agent.Prelude.Int.{ℤ, eq_ℤ, atoi}
use zcoms_agent.Errands.Errand.{Errand}
use zcoms_agent.Errands.Task.{is_wa}

pub record ErrandSpec : Type 0 where
  pub target : Text
  pub brief : Text
  pub deliver_to_target : Bool
  pub auto_start : Bool

-- The errors, by the message that they print.
pub data SpecError : Type 0 where
  usage no_target no_time no_owner no_brief not_saved : SpecError
  bad_index : Text → SpecError
  no_batch : SpecError
  not_in_batch : ℤ → SpecError
  unresolved : Text → SpecError

abbrev no_spec : Text → ErrandSpec
no_spec brief = record {
  target = codes "";
  brief = brief;
  deliver_to_target = false;
  auto_start = false;
}

-- One word of what stands before the bar of `errand start`.
unfoldable pub take_token : Text → ErrandSpec → ErrandSpec
take_token tok spec =
    if text_eq (to_lower tok) (codes "deliver")
    then record spec { deliver_to_target = true }
    else if one_of (to_lower tok) (codes "go" ∷ codes "now" ∷ codes "auto" ∷ [])
    then record spec { auto_start = true }
    else record spec {
      target = if text_eq spec.target (codes "") then tok else spec.target ++ codes " " ++ tok;
    }

unfoldable pub take_tokens : List Text → ErrandSpec → ErrandSpec
unfolding take_token
take_tokens [] spec = spec
take_tokens (tok ∷ toks) spec = take_tokens toks (take_token tok spec)

abbrev with_target : ErrandSpec → SpecError ⊎ ErrandSpec
with_target spec = if text_eq spec.target (codes "") then inl no_target else inr spec

-- parseErrandStart
unfoldable pub parse_errand_start : Text → SpecError ⊎ ErrandSpec
unfolding take_tokens
parse_errand_start s = elim (cut s (codes "|")) [
  | none ↦ inl usage
  | some p ↦ with_target (take_tokens (fields (trim_space p.0)) (no_spec (trim_space p.1)))
]

-- The leading flags of `errand schedule`, and the words after them.
unfoldable pub take_flags : List Text → ErrandSpec → ErrandSpec × List Text
take_flags [] spec = (spec, [])
take_flags (tok ∷ toks) spec =
    let delivering : ErrandSpec × List Text =
      take_flags toks (record spec { deliver_to_target = true }) in
    let at_once : ErrandSpec × List Text = take_flags toks (record spec { auto_start = true }) in
    if text_eq (to_lower tok) (codes "deliver")
    then delivering
    else if one_of (to_lower tok) (codes "go" ∷ codes "auto" ∷ [])
    then at_once
    else (spec, tok ∷ toks)

abbrev is_time_word : Text → Bool
is_time_word tok = one_of (to_lower tok) (codes "at" ∷ codes "in" ∷ codes "on" ∷ [])

abbrev when_words : List Text → List Text
when_words [] = []
when_words (tok ∷ toks) = if is_time_word tok then toks else tok ∷ toks

abbrev with_time : ErrandSpec → Text → SpecError ⊎ (ErrandSpec × Text)
with_time spec when = if text_eq when (codes "") then inl no_time else inr (spec, when)

abbrev targeted : ErrandSpec × List Text → SpecError ⊎ (ErrandSpec × Text)
targeted (spec, []) = inl no_target
targeted (spec, tok ∷ toks) =
    if is_time_word tok
    then inl no_target
    else with_time (record spec { target = tok }) (trim_space (join (codes " ") (when_words toks)))

-- parseErrandSchedule up to parseWhen: the errand, and the text of its time.
unfoldable pub parse_errand_schedule : Text → SpecError ⊎ (ErrandSpec × Text)
unfolding take_flags
parse_errand_schedule s = elim (cut s (codes "|")) [
  | none ↦ inl usage
  | some p ↦ targeted (take_flags (fields (trim_space p.0)) (no_spec (trim_space p.1)))
]

-- The part of a recipient of the last triage batch that a target reads.
pub record Recipient : Type 0 where
  pub index : ℤ
  pub source : Text
  pub name : Text
  pub tg_chat : ℤ
  pub wa_chat : Text

-- What starting an errand reads of the process and of other processes: the last batch of triage,
-- the chat of a name, the files that WhatsApp has buffered of a chat, the id that the clock gives,
-- whether the errand's file can be written, and which attempts of its first turn fail.
pub record Office : Type 0 where
  pub triage_batch : Option (List Recipient)
  pub resolve : Text → Option ℤ
  pub buffered_files : Text → List Text
  pub new_id : Text
  pub can_save : Bool
  pub faults : List Bool

unfoldable pub recipient_at : ℤ → List Recipient → Option Recipient
recipient_at i [] = none
recipient_at i (r ∷ batch) =
    let rest : Option Recipient = recipient_at i batch in if eq_ℤ r.index i then some r else rest

-- The name of a WhatsApp contact in the batch, or the jid.
unfoldable pub wa_name : Text → List Recipient → Text
wa_name jid [] = jid
wa_name jid (r ∷ batch) =
    let rest : Text = wa_name jid batch in
    if text_eq r.source (codes "wa") && text_eq r.wa_chat jid then r.name else rest

-- normalizeWAJID
unfoldable pub normalize_wa_jid : Text → Text
normalize_wa_jid target =
    let t : Text = trim_space target in
    if text_eq t (codes "") || contains t (codes "@") then t else t ++ codes "@s.whatsapp.net"

abbrev pub to_recipient : ℤ → Errand → Option Recipient → SpecError ⊎ Errand
to_recipient i e none = inl (not_in_batch i)
to_recipient i e (some r) =
    inr (record e {
      source = r.source;
      target_name = r.name;
      tg_chat = r.tg_chat;
      wa_chat = r.wa_chat;
    })

abbrev pub by_index : Office → Errand → Text → Option ℤ → SpecError ⊎ Errand
by_index o e target none = inl (bad_index target)
by_index o e target (some i) = elim o.triage_batch [
  | none ↦ inl no_batch
  | some batch ↦ to_recipient i e (recipient_at i batch)
]

abbrev batch_of : Option (List Recipient) → List Recipient
batch_of none = []
batch_of (some batch) = batch

abbrev pub to_jid : Office → Errand → Text → Errand
to_jid o e jid = record e {
  source = codes "wa";
  wa_chat = jid;
  target_name = wa_name jid (batch_of o.triage_batch);
}

abbrev pub to_chat : Errand → Text → Option ℤ → SpecError ⊎ Errand
to_chat e target none = inl (unresolved target)
to_chat e target (some chat) =
    inr (record e { source = codes "tg"; tg_chat = chat; target_name = target })

-- resolveErrandTarget
unfoldable pub resolve_errand_target : Office → Errand → Text → SpecError ⊎ Errand
unfolding recipient_at wa_name normalize_wa_jid
resolve_errand_target o e target =
    let t : Text = trim_space target in
    if text_eq t (codes "")
    then inl no_target
    else if has_prefix t (codes "#")
    then by_index o e t (atoi (trim_prefix t (codes "#")))
    else if has_prefix t (codes "wa:")
        || contains t (codes "@s.whatsapp.net")
        || contains t (codes "@lid")
    then inr (to_jid o e (normalize_wa_jid (trim_prefix t (codes "wa:"))))
    else to_chat e t (o.resolve t)

abbrev last_five : List Text → List Text
last_five files = if ltb 5 (length files) then drop (length files - 5) files else files

-- errandContextFiles
unfoldable pub errand_context_files : Office → Errand → List Text
errand_context_files o e =
    if not (is_wa e) || text_eq (trim_space e.wa_chat) (codes "")
    then []
    else last_five (o.buffered_files e.wa_chat)
