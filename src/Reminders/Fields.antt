-- ===== src/Reminders/Fields.antt =====
-- internal/reminders/run.go: the lines "KEY: value" of an agent's answer, as the regular expression
-- fieldRe finds them. White space of the pattern runs over the ends of lines: a key, its colon and its
-- value may stand on lines of their own.
use zcoms_agent.Prelude.{
  ℕ, Bool, false, not, List, [], ◌∷◌, ◌++◌, ◌||◌, ◌&&◌, ◌==◌, leb, if◌then◌else◌, ◌≡◌, refl,
}
use mathlib.Core.List.{reverse}
use zcoms_agent.Prelude.Text.{Text, codes, text_eq, trim_space, to_lower}
use zcoms_agent.Errands.Directives.{is_blank_char}

abbrev is_letter : ℕ → Bool
is_letter c = leb b'A' c && leb c b'Z' || leb b'a' c && leb c b'z'

-- Where the pattern stands: at the start of a line, in a key, behind a key (and behind the end of its
-- line), behind a colon (with a blank that is no end of line), in a value with the blanks after it,
-- or in a line that it does not match. What is collected is reversed.
pub data Place : Type 0 where
  line_start : Place
  in_key : Text → Place
  after_key : Text → Bool → Place
  after_colon : Text → Bool → Place
  in_value : Text → Text → Text → Place
  no_match : Place

abbrev from_start : ℕ → Place
from_start c =
    if is_blank_char c then line_start else if is_letter c then in_key (c ∷ []) else no_match

unfoldable pub next_place : ℕ → Place → Place
unfolding is_blank_char
next_place c line_start = from_start c
next_place c (in_key k) =
    if is_letter c
    then in_key (c ∷ k)
    else if is_blank_char c
    then after_key k (c == 10)
    else if c == b':'
    then after_colon k false
    else no_match
next_place c (after_key k ended) =
    if is_blank_char c
    then after_key k (ended || c == 10)
    else if c == b':'
    then after_colon k false
    else if ended
    then from_start c
    else no_match
next_place c (after_colon k blank) =
    if is_blank_char c then after_colon k (blank || not (c == 10)) else in_value k (c ∷ []) []
next_place c (in_value k v blanks) =
    if c == 10
    then line_start
    else if is_blank_char c
    then in_value k v (c ∷ blanks)
    else in_value k (c ∷ blanks ++ v) []
next_place c no_match = if c == 10 then line_start else no_match

abbrev entry : Text → Text → List (Text × Text)
entry k v = (to_lower (reverse k), trim_space (reverse v)) ∷ []

-- The match that a character completes.
unfoldable pub completed : ℕ → Place → List (Text × Text)
completed c (in_value k v blanks) = if c == 10 then entry k v else []
completed c line_start = []
completed c (in_key k) = []
completed c (after_key k ended) = []
completed c (after_colon k blank) = []
completed c no_match = []

-- The match at the end of the text.
abbrev at_end : Place → List (Text × Text)
at_end (in_value k v blanks) = entry k v
at_end (after_colon k blank) = if blank then entry k [] else []
at_end line_start = []
at_end (in_key k) = []
at_end (after_key k ended) = []
at_end no_match = []

unfoldable pub fields_from : Place → Text → List (Text × Text)
unfolding next_place completed
fields_from place [] = at_end place
fields_from place (c ∷ s) = completed c place ++ fields_from (next_place c place) s

-- parseFields: of two lines with one key the first counts.
unfoldable pub parse_fields : Text → List (Text × Text)
unfolding fields_from
parse_fields text = fields_from line_start text

-- A lookup in the map of the fields, where a missing one reads as the empty text.
unfoldable pub field_of : Text → List (Text × Text) → Text
field_of key [] = codes ""
field_of key ((k, v) ∷ fields) =
    let rest : Text = field_of key fields in if text_eq k key then v else rest

-- A key whose line is left empty takes the next line for its value.
empty_send : field_of (codes "send") (parse_fields (codes "SEND:\nNEXT: +1h")) ≡ codes "NEXT: +1h"
unfolding parse_fields field_of text_eq trim_space to_lower
empty_send = refl

three_fields :
    field_of (codes "next") (parse_fields (codes "SEND: hello  you \n Next : DONE\nNOTE: x"))
    ≡ codes "DONE"
unfolding parse_fields field_of text_eq trim_space to_lower
three_fields = refl
