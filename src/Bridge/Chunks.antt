-- ===== src/Bridge/Chunks.antt =====
-- internal/bridge/bridge.go, chunk: a reply is split over the length limit of a message. Here a text is
-- the list of its bytes.
pub mod Whole
use zcoms_agent.Prelude.{
  ℕ, zero, suc, ◌==◌, ltb, leb, Bool, true, false, ◌&&◌, ◌||◌, ◌≡◌, refl, List, [], ◌∷◌, Option,
  none, some, if◌then◌else◌, length, take, drop,
}
use zcoms_agent.Prelude.Text.{Text}

-- The index of the last newline.
abbrev pub later : Option ℕ → Option ℕ → Option ℕ
later here none = here
later here (some i) = some (suc i)

unfoldable pub last_newline : Text → Option ℕ
last_newline [] = none
last_newline (c ∷ s) = later (if c == 10 then some 0 else none) (last_newline s)

-- `if cut <= 0 { cut = max }`
abbrev pub or_max : ℕ → Option ℕ → ℕ
or_max max none = max
or_max max (some zero) = max
or_max max (some (suc i)) = suc i

unfoldable pub cut_of : ℕ → Text → ℕ
unfolding last_newline
cut_of max s = or_max max (last_newline (take max s))

-- Where a decoding of UTF-8 stands that has met only white space: between two code points, or in the
-- bytes of one that may still be white space.
pub data Place : Type 0 where
  between after_c2 after_e1 after_e19a after_e2 after_e280 after_e281 after_e3 after_e380 : Place

abbrev at_if : Bool → Place → Option Place
at_if true place = some place
at_if false place = none

abbrev pub from_between : ℕ → Option Place
from_between b =
    if b == 32 || leb 9 b && leb b 13
    then some between
    else if b == 194
    then some after_c2
    else if b == 225
    then some after_e1
    else if b == 226
    then some after_e2
    else at_if (b == 227) after_e3

-- The place behind one more byte, none where the text is not all white space.
unfoldable pub next_place : ℕ → Place → Option Place
next_place b between = from_between b
next_place b after_c2 = at_if (b == 133 || b == 160) between
next_place b after_e1 = at_if (b == 154) after_e19a
next_place b after_e19a = at_if (b == 128) between
next_place b after_e2 = if b == 128 then some after_e280 else at_if (b == 129) after_e281
next_place b after_e280 = at_if (leb 128 b && leb b 138 || b == 168 || b == 169 || b == 175) between
next_place b after_e281 = at_if (b == 159) between
next_place b after_e3 = at_if (b == 128) after_e380
next_place b after_e380 = at_if (b == 128) between

abbrev is_between : Place → Bool
is_between between = true
is_between _ = false

unfoldable pub blank_from : Option Place → Text → Bool
unfolding next_place
blank_from none s = false
blank_from (some place) [] = is_between place
blank_from (some place) (b ∷ s) = blank_from (next_place b place) s

-- strings.TrimSpace(s) == "", on the bytes of a text.
unfoldable pub is_blank : Text → Bool
unfolding blank_from
is_blank s = blank_from (some between) s

-- A no-break space and an ideographic space are blank; the last byte of a no-break space alone is no
-- code point.
blank_spaces : is_blank (194 ∷ 160 ∷ 10 ∷ 227 ∷ 128 ∷ 128 ∷ []) ≡ true
unfolding is_blank
blank_spaces = refl

lone_byte : is_blank (160 ∷ []) ≡ false
unfolding is_blank
lone_byte = refl

-- What is left at the end is sent unless it is blank.
abbrev pub last_part : Text → List Text
last_part s = if is_blank s then [] else s ∷ []

-- The loop, on fuel.
unfoldable pub chunks : ℕ → ℕ → Text → List Text
unfolding cut_of is_blank
chunks zero max s = []
chunks (suc fuel) max s =
    let rest : List Text = chunks fuel max (drop (cut_of max s) s) in
    if ltb max (length s) then take (cut_of max s) s ∷ rest else last_part s

-- A cut takes at least one byte away, so that the length of the text is fuel enough.
unfoldable pub chunk : Text → ℕ → List Text
unfolding chunks
chunk s max = if leb (length s) max then s ∷ [] else chunks (length s) max s
