-- ===== src/Bridge/Chunks/Whole.antt =====
-- The parts into which `chunk` of internal/bridge/bridge.go splits a reply.
use zcoms_agent.Prelude.{
  append_empty, append_assoc, concat, ℕ, zero, suc, ◌-◌, ◌≤◌, ◌<◌, ◌==◌, ltb, leb, leb→le, List, [],
  ◌∷◌, ◌++◌, Option, none, some, if◌then◌else◌, if-either, length, take, drop, All, true, ◌≡◌, refl,
  ap, ◌∙◌, arith,
}
use zcoms_agent.Prelude.Text.{Text}
use zcoms_agent.Bridge.Chunks.{
  later, last_newline, or_max, cut_of, last_part, chunks, chunk, is_blank,
}

last_newline_lt : (s : Text) (i : ℕ) → last_newline s ≡ some i → i < length s
unfolding last_newline
last_newline_lt [] i h = ground arith
last_newline_lt (c ∷ s) i h = by_rest (last_newline s) (λ j e. last_newline_lt s j e) h
  where
    by_rest :
        (rest : Option ℕ)
        → ((j : ℕ) → rest ≡ some j → j < length s)
        → later (if c == 10 then some 0 else none) rest ≡ some i
        → i < suc (length s)
    by_rest none bound e = ground arith
    by_rest (some j) bound e = ground (arith, bound j refl)

length-take_le : (n : ℕ) (s : Text) → length (take n s) ≤ n
length-take_le zero s = omega arith
length-take_le (suc n) [] = omega arith
length-take_le (suc n) (c ∷ s) = omega (arith, length-take_le n s)

length-drop : (n : ℕ) (s : Text) → length (drop n s) ≡ length s - n
length-drop zero s = omega arith
length-drop (suc n) [] = omega arith
length-drop (suc n) (c ∷ s) = omega (arith, length-drop n s)

take-drop : (n : ℕ) (s : Text) → take n s ++ drop n s ≡ s
take-drop zero s = refl
take-drop (suc n) [] = refl
take-drop (suc n) (c ∷ s) = ap (λ t. c ∷ t) (take-drop n s)

cut_of_bounds : (max : ℕ) (s : Text) → 1 ≤ max → (1 ≤ cut_of max s) × (cut_of max s ≤ max)
unfolding cut_of
cut_of_bounds max s h =
    by_index (last_newline (take max s)) (λ i e. last_newline_lt (take max s) i e)
  where
    by_index :
        (index : Option ℕ)
        → ((i : ℕ) → index ≡ some i → i < length (take max s))
        → (1 ≤ or_max max index) × (or_max max index ≤ max)
    by_index none bound = (h, omega arith)
    by_index (some zero) bound = (h, omega arith)
    by_index (some (suc i)) bound =
        (omega arith, omega (arith, bound (suc i) refl, length-take_le max s))

-- What `chunk` promises of the parts of a text.
abbrev pub IsSplit : ℕ → Text → List Text → Type 0
IsSplit max s parts =
    All (λ part. length part ≤ max) parts
    × ((rest : Text) × (concat parts ++ rest ≡ s) × (is_blank rest ≡ true))

one_part : (max : ℕ) (s : Text) → length s ≤ max → IsSplit max s (s ∷ [])
unfolding is_blank
one_part max s h = ((h, tt), ([], append_empty (s ++ []) ∙ append_empty s, refl))

last_part-IsSplit : (max : ℕ) (s : Text) → length s ≤ max → IsSplit max s (last_part s)
last_part-IsSplit max s h =
    if-either (IsSplit max s) (is_blank s) _ _ (λ blank. (tt, (s, refl, blank)))
      (λ _. one_part max s h)

-- One cut before a split of the rest.
cut-IsSplit :
    (max cut : ℕ) (s : Text) (parts : List Text)
    → cut ≤ max
    → IsSplit max (drop cut s) parts
    → IsSplit max s (take cut s ∷ parts)
cut-IsSplit max cut s parts bound (within, (rest, whole, blank)) = (
  (omega (arith, length-take_le cut s, bound), within),
  (
    rest,
    append_assoc (take cut s) (concat parts) rest
        ∙ ap (λ t. take cut s ++ t) whole
        ∙ take-drop cut s,
    blank,
  ),
)

chunks-IsSplit :
    (fuel max : ℕ) (s : Text) → 1 ≤ max → length s ≤ fuel → IsSplit max s (chunks fuel max s)
unfolding chunks is_blank
chunks-IsSplit zero max [] h enough = (tt, ([], refl, refl))
chunks-IsSplit zero max (c ∷ s) h enough = absurd (omega (arith, enough))
chunks-IsSplit (suc fuel) max s h enough =
    if-either (IsSplit max s) (ltb max (length s)) _ _
      (λ longer.
        cut-IsSplit max (cut_of max s) s (chunks fuel max (drop (cut_of max s) s))
          (cut_of_bounds max s h).1
          (chunks-IsSplit fuel max (drop (cut_of max s) s) h
            (omega (arith, length-drop (cut_of max s) s, cut_of_bounds max s h, enough))))
      (λ within. last_part-IsSplit max s (ground (arith, within)))

-- For any limit of at least one byte a reply of any length is split into parts that are within
-- the limit and that joined are the reply, but for a rest at its end whose bytes are the UTF-8 of
-- white space.
pub chunk-IsSplit : (s : Text) (max : ℕ) → 1 ≤ max → IsSplit max s (chunk s max)
unfolding chunk
chunk-IsSplit s max h =
    if-either (IsSplit max s) (leb (length s) max) _ _
      (λ short. one_part max s (leb→le (length s) max short))
      (λ _. chunks-IsSplit (length s) max s h (omega arith))
