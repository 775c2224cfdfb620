-- ===== src/Prelude/Text/Trim.antt =====
-- Laws of trimming and of letter case.
use Prim.Native.Nat.{ℕ}
use mathlib.Core.Path.{◌≡◌, refl, ap, ◌∙◌}
use mathlib.Core.Logic.{inl, inr}
use mathlib.Core.Bool.{Bool, true, false, ◌&&◌}
use mathlib.Core.List.{[], ◌∷◌}
use native.Mathlib.Omega.{arith}
use zcoms_agent.Prelude.Tests.{if◌then◌else◌, Bool-cases}
use zcoms_agent.Prelude.Lists.{is_empty}
use zcoms_agent.Prelude.Text.{Text, is_space, trim_left, trim_right, trim_space, lower, to_lower}

pub is_space-lower : (c : ℕ) → is_space (lower c) ≡ is_space c
unfolding is_space lower
is_space-lower c = ground arith

pub trim_left-trim_left : (s : Text) → trim_left (trim_left s) ≡ trim_left s
unfolding trim_left
trim_left-trim_left [] = refl
trim_left-trim_left (c ∷ s) = elim (Bool-cases (is_space c)) [
  | inl e ↦ rw e (trim_left-trim_left s)
  | inr e ↦ rw e (rw e refl)
]

pub trim_right-trim_right : (s : Text) → trim_right (trim_right s) ≡ trim_right s
unfolding trim_right
trim_right-trim_right [] = refl
trim_right-trim_right (c ∷ s) = elim (Bool-cases (is_empty (trim_right s) && is_space c)) [
  | inl e ↦ rw e refl
  | inr e ↦ rw e (rw (trim_right-trim_right s) (rw e refl))
]

-- The text does not begin with white space.
abbrev pub is_tight : Text → Bool
is_tight [] = true
is_tight (c ∷ s) = if is_space c then false else true

pub is_tight-trim_left : (s : Text) → is_tight (trim_left s) ≡ true
unfolding trim_left
is_tight-trim_left [] = refl
is_tight-trim_left (c ∷ s) = ground (arith, is_tight-trim_left s)

pub trim_left_of_tight : (s : Text) → is_tight s ≡ true → trim_left s ≡ s
unfolding trim_left
trim_left_of_tight [] h = refl
trim_left_of_tight (c ∷ s) h = ground arith

pub is_tight-trim_right : (s : Text) → is_tight s ≡ true → is_tight (trim_right s) ≡ true
unfolding trim_right
is_tight-trim_right [] h = refl
is_tight-trim_right (c ∷ s) h = ground arith

pub is_tight-trim_space : (s : Text) → is_tight (trim_space s) ≡ true
unfolding trim_space
is_tight-trim_space s = is_tight-trim_right (trim_left s) (is_tight-trim_left s)

pub trim_space-trim_space : (s : Text) → trim_space (trim_space s) ≡ trim_space s
unfolding trim_space
trim_space-trim_space s =
    ap trim_right (
      trim_left_of_tight (trim_right (trim_left s))
        (is_tight-trim_right (trim_left s) (is_tight-trim_left s)))
    ∙ trim_right-trim_right (trim_left s)

-- A first character that is no white space stays in front of a trimmed text.
pub trim_space-cons :
    (c : ℕ) (s : Text) → is_space c ≡ false → trim_space (c ∷ trim_space s) ≡ c ∷ trim_space s
unfolding trim_space trim_left trim_right
trim_space-cons c s h = rw h (rw (trim_right-trim_right (trim_left s)) (ground arith))

trim_left-to_lower : (s : Text) → trim_left (to_lower s) ≡ to_lower (trim_left s)
unfolding trim_left to_lower
trim_left-to_lower [] = refl
trim_left-to_lower (c ∷ s) = ground (arith, is_space-lower c, trim_left-to_lower s)

is_empty-to_lower : (s : Text) → is_empty (to_lower s) ≡ is_empty s
unfolding to_lower
is_empty-to_lower [] = refl
is_empty-to_lower (c ∷ s) = refl

trim_right-to_lower : (s : Text) → trim_right (to_lower s) ≡ to_lower (trim_right s)
unfolding trim_right to_lower
trim_right-to_lower [] = refl
trim_right-to_lower (c ∷ s) =
    ground (arith, is_space-lower c, trim_right-to_lower s, is_empty-to_lower (trim_right s))

pub trim_space-to_lower : (s : Text) → trim_space (to_lower s) ≡ to_lower (trim_space s)
unfolding trim_space
trim_space-to_lower s = ap trim_right (trim_left-to_lower s) ∙ trim_right-to_lower (trim_left s)
