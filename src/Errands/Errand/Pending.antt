-- ===== src/Errands/Errand/Pending.antt =====
-- The errand that an approval in internal/errands means.
use zcoms_agent.Prelude.{
  ℕ, suc, ◌+◌, true, List, [], ◌∷◌, ◌≡◌, ◌≢◌, Option, none, some, arith, if◌then◌else◌,
}
use zcoms_agent.Prelude.Text.{Text, codes, text_eq_iff}
use zcoms_agent.Errands.Errand.{Errand, is_pending, pending_from, pending_errand}

unfoldable pub count_pending : List Errand → ℕ
count_pending [] = 0
count_pending (e ∷ errands) =
    let rest = count_pending errands in if is_pending e then suc rest else rest

-- What is found, with `count` errands that wait before the list.
abbrev Found : Text → List Errand → ℕ → Errand → Type 0
Found id errands count e =
    is_pending e ≡ true
    × (id ≡ codes "" → count + count_pending errands ≡ 1)
    × (id ≢ codes "" → e.id ≡ id)

pending_from-Found :
    (id : Text) (errands : List Errand) (match : Option Errand) (count : ℕ) (e : Errand)
    → ((m : Errand) → match ≡ some m → is_pending m ≡ true)
    → pending_from id errands match count ≡ some e
    → Found id errands count e
unfolding pending_from count_pending
pending_from-Found id [] match count e waits h = ground (arith, waits e, text_eq_iff id (codes ""))
pending_from-Found id (x ∷ errands) match count e waits h = ground (
  arith,
  text_eq_iff id (codes ""),
  text_eq_iff x.id id,
  pending_from-Found id errands (if is_pending x then some x else match)
      (if is_pending x then suc count else count) e (λ m chosen. ground (arith, waits m)),
)

-- An approval finds an errand only if it waits for one; with an id it has this id, and without
-- one it is the only errand that waits.
pub pending_errand-one :
    (id : Text) (errands : List Errand) (e : Errand)
    → pending_errand id errands ≡ some e
    → is_pending e ≡ true
      × (id ≡ codes "" → count_pending errands ≡ 1)
      × (id ≢ codes "" → e.id ≡ id)
unfolding pending_errand
pending_errand-one id errands e h =
    let found = pending_from-Found id errands none 0 e (λ m n. ground arith) h in
    (found.0, λ no_id. omega (arith, found.1 no_id), found.2)
