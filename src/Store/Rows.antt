-- ===== src/Store/Rows.antt =====
-- The statements that the tables share, over any type of rows.
pub mod Keys
use zcoms_agent.Prelude.{
  ℕ, suc, ◌+◌, ◌≤◌, Bool, true, false, Option, none, some, List, [], ◌∷◌, ◌++◌, leb, if◌then◌else◌,
}

module _ {ℓ} {R : Type ℓ} where
  -- SELECT … WHERE test.
  unfoldable pub select : (R → Bool) → List R → List R
  select test [] = []
  select test (r ∷ rows) = let rest = select test rows in if test r then r ∷ rest else rest

  -- The first row of SELECT … WHERE test.
  unfoldable pub find : (R → Bool) → List R → Option R
  find test [] = none
  find test (r ∷ rows) = if test r then some r else find test rows

  unfoldable pub exists : (R → Bool) → List R → Bool
  exists test [] = false
  exists test (r ∷ rows) = if test r then true else exists test rows

  -- UPDATE … SET change WHERE test.
  unfoldable pub update : (R → Bool) → (R → R) → List R → List R
  update test change [] = []
  update test change (r ∷ rows) = (if test r then change r else r) ∷ update test change rows

  -- DELETE … WHERE test.
  unfoldable pub delete : (R → Bool) → List R → List R
  delete test [] = []
  delete test (r ∷ rows) = let rest = delete test rows in if test r then rest else r ∷ rest

  -- INSERT of one row, which stands last.
  abbrev pub insert : R → List R → List R
  insert r rows = rows ++ r ∷ []

  -- The id that an INTEGER PRIMARY KEY column gives a new row: one more than the largest.
  unfoldable pub max_id : (R → ℕ) → List R → ℕ
  max_id id [] = 0
  max_id id (r ∷ rows) = let rest = max_id id rows in if leb rest (id r) then id r else rest

  abbrev pub next_id : (R → ℕ) → List R → ℕ
  next_id id rows = suc (max_id id rows)

  -- ORDER BY, as a stable insertion sort.
  unfoldable pub insert_sorted : (R → R → Bool) → R → List R → List R
  insert_sorted le r [] = r ∷ []
  insert_sorted le r (s ∷ rows) =
      let rest = insert_sorted le r rows in if le r s then r ∷ s ∷ rows else s ∷ rest

  unfoldable pub order_by : (R → R → Bool) → List R → List R
  unfolding insert_sorted
  order_by le [] = []
  order_by le (r ∷ rows) = insert_sorted le r (order_by le rows)
