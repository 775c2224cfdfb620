-- ===== src/Errands/Directives.antt =====
-- internal/errands/errand_run.go: the lines by which the two agents of an errand act.
use zcoms_agent.Prelude.{
  ℕ, Bool, true, false, List, [], ◌∷◌, ◌||◌, ◌==◌, Option, none, some, if◌then◌else◌, drop, length,
  is_empty,
}
use zcoms_agent.Prelude.Text.{Text, codes, trim_space, has_prefix}
use zcoms_agent.Prelude.Text.Split.{split_on, join, cut}

pub data Keyword : Type 0 where
  msg record_block send_file deliver flag finished : Keyword

-- The class `\s` of a regular expression.
unfoldable pub is_blank_char : ℕ → Bool
is_blank_char c = c == 9 || c == 10 || c == 12 || c == 13 || c == 32

unfoldable pub skip_blanks : Text → Text
unfolding is_blank_char
skip_blanks [] = []
skip_blanks (c ∷ s) = let rest = skip_blanks s in if is_blank_char c then rest else c ∷ s

abbrev keywords : List (Text × Keyword)
keywords =
    (codes "MSG", msg)
    ∷ (codes "RECORD", record_block)
    ∷ (codes "SENDFILE", send_file)
    ∷ (codes "DELIVER", deliver)
    ∷ (codes "FLAG", flag)
    ∷ (codes "DONE", finished)
    ∷ []

-- What follows a keyword: blanks, a bar, blanks, and at least one character.
unfoldable pub after_bar : Text → Option Text
after_bar [] = none
after_bar (c ∷ s) =
    let rest : Text = skip_blanks s in
    if c == b'|' then (if is_empty rest then none else some rest) else none

unfoldable pub find_keyword : List (Text × Keyword) → Text → Option (Keyword × Text)
find_keyword [] line = none
find_keyword ((name, keyword) ∷ others) line =
    let later : Option (Keyword × Text) = find_keyword others line in
    if has_prefix line name
    then elim (after_bar (skip_blanks (drop (length name) line))) [
      | none ↦ none
      | some rest ↦ some (keyword, rest)
    ]
    else later

-- The regular expression errandDirective, on a line without white space at its ends.
unfoldable pub errand_directive : Text → Option (Keyword × Text)
unfolding find_keyword after_bar skip_blanks
errand_directive line = find_keyword keywords line

abbrev no_text_or_bar : Text → Bool
no_text_or_bar [] = true
no_text_or_bar (c ∷ s) = c == b'|'

-- The regular expression errandHandoff, on such a line: HANDOFF, and a summary behind a bar.
unfoldable pub is_handoff : Text → Bool
unfolding skip_blanks
is_handoff line =
    if has_prefix line (codes "HANDOFF") then no_text_or_bar (skip_blanks (drop 7 line)) else false

unfoldable pub is_directive : Text → Bool
unfolding errand_directive
is_directive line = elim (errand_directive line) [ none ↦ false | some d ↦ true ]

-- The lines before the first one that ends a RECORD.
unfoldable pub keep_lines : List Text → List Text
keep_lines [] = []
keep_lines (l ∷ lines) =
    let rest = keep_lines lines in
    if is_handoff (trim_space l) || is_directive (trim_space l) then [] else l ∷ rest

-- extractRecordBlock
unfoldable pub extract_record_block : Text → Text
unfolding keep_lines is_handoff is_directive
extract_record_block text = elim (cut text (codes "RECORD |")) [
  | none ↦ codes ""
  | some p ↦ trim_space (join (codes "\n") (keep_lines (split_on 10 p.1)))
]

-- splitFileArg
unfoldable pub split_file_arg : Text → Text × Text
split_file_arg rest = elim (cut rest (codes "|")) [
  | none ↦ (trim_space rest, codes "")
  | some p ↦ (trim_space p.0, trim_space p.1)
]
