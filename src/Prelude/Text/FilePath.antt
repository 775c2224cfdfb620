-- ===== src/Prelude/Text/FilePath.antt =====
-- What the program uses of Go's package `path/filepath`, on Unix.
use mathlib.Core.Bool.{Bool, ◌||◌}
use mathlib.Core.List.{List, [], ◌∷◌, ◌++◌, reverse}
use zcoms_agent.Prelude.Tests.{if◌then◌else◌}
use zcoms_agent.Prelude.Lists.{is_empty}
use zcoms_agent.Prelude.Text.{Text, codes, text_eq, has_prefix}
use zcoms_agent.Prelude.Text.Split.{split_on, join}

-- filepath.IsAbs
unfoldable pub is_abs : Text → Bool
is_abs path = has_prefix path (codes "/")

-- What a `..` does to the parts that are kept, the last one first.
abbrev pub parent : Bool → List Text → List Text
parent rooted [] = if rooted then [] else codes ".." ∷ []
parent rooted (part ∷ kept) = if text_eq part (codes "..") then codes ".." ∷ part ∷ kept else kept

unfoldable pub clean_parts : Bool → List Text → List Text → List Text
clean_parts rooted kept [] = reverse kept
clean_parts rooted kept (part ∷ parts) =
    clean_parts rooted
      (if is_empty part || text_eq part (codes ".")
        then kept
        else if text_eq part (codes "..")
        then parent rooted kept
        else part ∷ kept)
      parts

-- filepath.Clean
unfoldable pub clean : Text → Text
unfolding clean_parts is_abs
clean path =
    let kept = clean_parts (is_abs path) [] (split_on b'/' path) in
    if is_abs path
    then b'/' ∷ join (codes "/") kept
    else if is_empty kept
    then codes "."
    else join (codes "/") kept

-- filepath.Join of two elements
unfoldable pub join_path : Text → Text → Text
unfolding clean
join_path [] [] = []
join_path [] (c ∷ name) = clean (c ∷ name)
join_path (c ∷ dir) [] = clean (c ∷ dir)
join_path (c ∷ dir) (d ∷ name) = clean ((c ∷ dir) ++ codes "/" ++ d ∷ name)
