-- ===== src/Errands/Errand/Seen.antt =====
-- The message ids that an errand of internal/errands has seen.
use zcoms_agent.Prelude.{
  ℕ, zero, suc, ◌-◌, ◌≤◌, ltb, true, false, List, [], ◌∷◌, ◌++◌, ◌≡◌, arith, length, drop,
  length-append, if-either,
}
use zcoms_agent.Prelude.Text.{Text, text_eq_refl}
use zcoms_agent.Errands.Errand.{Errand, is_seen, bounded, mark_seen}

is_seen-last : (id : Text) (seen : List Text) → is_seen id (seen ++ id ∷ []) ≡ true
unfolding is_seen
is_seen-last id [] = ground (arith, text_eq_refl id)
is_seen-last id (s ∷ seen) = ground (arith, is_seen-last id seen)

-- What is dropped from the front is not the last.
is_seen-drop :
    (id : Text) (n : ℕ) (seen : List Text)
    → n ≤ length seen
    → is_seen id (drop n (seen ++ id ∷ [])) ≡ true
is_seen-drop id zero seen h = is_seen-last id seen
is_seen-drop id (suc n) [] h = absurd (omega (arith, h))
is_seen-drop id (suc n) (s ∷ seen) h = is_seen-drop id n seen (omega (arith, h))

length-drop : (n : ℕ) (seen : List Text) → length (drop n seen) ≡ length seen - n
length-drop zero seen = omega arith
length-drop (suc n) [] = omega arith
length-drop (suc n) (s ∷ seen) = omega (arith, length-drop n seen)

is_seen-bounded : (id : Text) (seen : List Text) → is_seen id (bounded (seen ++ id ∷ [])) ≡ true
is_seen-bounded id seen =
    if-either (λ ids. is_seen id ids ≡ true) (ltb 500 (length (seen ++ id ∷ []))) _ _
      (λ _.
        is_seen-drop id (length (seen ++ id ∷ []) - 500) seen
          (omega (arith, length-append seen (id ∷ []))))
      (λ _. is_seen-last id seen)

length-bounded : (seen : List Text) → length (bounded seen) ≤ 500
length-bounded seen = ground (arith, length-drop (length seen - 500) seen)

-- For an errand of at most 500 seen ids, a message that is marked twice in a row is not new the
-- second time, and the errand keeps to that bound.
pub mark_seen-once :
    (id : Text) (e : Errand)
    → length e.seen_msg_ids ≤ 500
    → (mark_seen id (mark_seen id e).0).1 ≡ false × length (mark_seen id e).0.seen_msg_ids ≤ 500
unfolding mark_seen
mark_seen-once id e h =
    ground (arith, is_seen-bounded id e.seen_msg_ids, length-bounded (e.seen_msg_ids ++ id ∷ []))
