-- ===== src/Prelude/Text/Split.antt =====
-- What the program uses of Go's package `strings` to take texts apart and to join them.
use Prim.Native.Nat.{ℕ}
use mathlib.Core.Bool.{Bool, true, false}
use mathlib.Core.Option.{Option, none, some}
use mathlib.Core.List.{List, [], ◌∷◌, ◌++◌}
use zcoms_agent.Prelude.Tests.{◌==◌, if◌then◌else◌}
use zcoms_agent.Prelude.Lists.{is_empty, drop, length}
use zcoms_agent.Prelude.Text.{Text, is_space, has_prefix}

-- The character joins the first of the parts.
abbrev into_first : ℕ → List Text → List Text
into_first c [] = (c ∷ []) ∷ []
into_first c (part ∷ parts) = (c ∷ part) ∷ parts

-- strings.Split at one character
unfoldable pub split_on : ℕ → Text → List Text
split_on sep [] = [] ∷ []
split_on sep (c ∷ s) =
    let rest = split_on sep s in if c == sep then [] ∷ rest else into_first c rest

-- strings.Join
unfoldable pub join : Text → List Text → Text
join sep [] = []
join sep (s ∷ []) = s
join sep (s ∷ t ∷ parts) = s ++ sep ++ join sep (t ∷ parts)

-- What stands before and after the first occurrence: strings.Cut, strings.Index with its slices.
unfoldable pub cut : Text → Text → Option (Text × Text)
cut [] mark = if is_empty mark then some ([], []) else none
cut (c ∷ s) mark =
    let later : Option (Text × Text) = cut s mark in
    if has_prefix (c ∷ s) mark
    then some ([], drop (length mark) (c ∷ s))
    else elim later [ none ↦ none | some p ↦ some (c ∷ p.0, p.1) ]

-- strings.Contains
unfoldable pub contains : Text → Text → Bool
unfolding cut
contains s mark = elim (cut s mark) [ none ↦ false | some p ↦ true ]

-- strings.TrimPrefix
unfoldable pub trim_prefix : Text → Text → Text
trim_prefix s p = if has_prefix s p then drop (length p) s else s

-- The words of a text, with an empty one wherever two spaces meet or one stands at an end.
unfoldable pub words : Text → List Text
words [] = [] ∷ []
words (c ∷ s) = let rest = words s in if is_space c then [] ∷ rest else into_first c rest

unfoldable pub non_empty : List Text → List Text
non_empty [] = []
non_empty (s ∷ parts) = let rest = non_empty parts in if is_empty s then rest else s ∷ rest

-- strings.Fields
unfoldable pub fields : Text → List Text
unfolding words non_empty
fields s = non_empty (words s)
