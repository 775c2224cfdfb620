-- ===== src/Reminders/Words.antt =====
-- internal/reminders/parse.go: who asks for a reminder, and the words of a request.
use zcoms_agent.Prelude.{
  ℕ, Bool, true, false, not, List, [], ◌∷◌, ◌++◌, ◌||◌, ◌&&◌, ◌==◌, leb, Option, none, some,
  if◌then◌else◌, drop, length,
}
use zcoms_agent.Prelude.Text.{Text, codes, text_eq, trim_space, to_lower, has_prefix, one_of}
use zcoms_agent.Prelude.Text.Split.{fields, trim_prefix}
use zcoms_agent.Errands.Directives.{is_blank_char, skip_blanks}

pub record Requester : Type 0 where
  pub transport : Text
  pub handle : Text
  pub address : Text
  pub name : Text
  pub owner : Bool

-- Requester.key
unfoldable pub key_of : Requester → Text
key_of q = q.transport ++ codes "|" ++ trim_space q.handle

abbrev is_word_char : ℕ → Bool
is_word_char c =
    leb b'a' c && leb c b'z' || leb b'A' c && leb c b'Z' || leb b'0' c && leb c b'9' || c == b'_'

abbrev ends_word : Text → Bool
ends_word [] = true
ends_word (c ∷ s) = not (is_word_char c)

-- A word at the front, in any letter case, with a boundary behind it: what follows.
unfoldable pub after_word : List Text → Text → Option Text
after_word [] s = none
after_word (word ∷ words) s =
    let later : Option Text = after_word words s in
    if has_prefix (to_lower s) word && ends_word (drop (length word) s)
    then some (skip_blanks (drop (length word) s))
    else later

abbrev or_whole : Text → Option Text → Text
or_whole s none = s
or_whole s (some rest) = rest

-- remindRe, replaced by nothing
unfoldable pub strip_verb : Text → Text
unfolding after_word skip_blanks
strip_verb s = or_whole s (
    after_word (codes "reminders" ∷ codes "reminder" ∷ codes "reminds" ∷ codes "remind" ∷ [])
      (skip_blanks s))

abbrev blank_next : Text → Bool
blank_next [] = false
blank_next (c ∷ s) = is_blank_char c

abbrev separated : Text → Text → Option Text
separated word s =
    if has_prefix (to_lower s) word && blank_next (drop (length word) s)
    then some (skip_blanks (drop (length word) s))
    else none

abbrev first_of : Option Text → Option Text → Option Text
first_of none b = b
first_of (some a) b = some a

-- sepRe: what stands before and after the first ` to ` or ` about `.
unfoldable pub split_task : Text → Option (Text × Text)
unfolding is_blank_char skip_blanks
split_task [] = none
split_task (c ∷ s) =
    let later : Option (Text × Text) = split_task s in
    let here : Option Text =
      first_of (separated (codes "to") (skip_blanks s))
        (separated (codes "about") (skip_blanks s)) in
    let further : Option (Text × Text) = elim later [
      | none ↦ none
      | some p ↦ some (c ∷ p.0, p.1)
    ] in
    if is_blank_char c then elim here [ none ↦ further | some task ↦ some ([], task) ] else further

abbrev pub both : Text → Text → Option (Text × Text)
both who task = if text_eq who (codes "") || text_eq task (codes "") then none else some (who, task)

abbrev by_words : Text → List Text → Option (Text × Text)
by_words body [] = none
by_words body (word ∷ words) = both word (trim_space (trim_prefix body word))

-- ParseRemind: whom, and of what.
unfoldable pub parse_remind : Text → Option (Text × Text)
unfolding strip_verb split_task
parse_remind text =
    let body : Text = trim_space (strip_verb text) in
    if text_eq body (codes "") then none else elim (split_task body) [
      | none ↦ by_words body (fields body)
      | some p ↦ both (trim_space p.0) (trim_space p.1)
    ]

-- isSelf
unfoldable pub is_self : Text → Bool
is_self who =
    one_of (to_lower (trim_space who)) (codes "me" ∷ codes "myself" ∷ codes "i" ∷ codes "self" ∷ [])
