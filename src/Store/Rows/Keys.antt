-- ===== src/Store/Rows/Keys.antt =====
-- Unique keys, ids and references of rows under the statements of the parent.
use zcoms_agent.Prelude.{
  ℕ, suc, ◌≤◌, Bool, true, false, List, [], ◌∷◌, ◌≡◌, refl, arith, ◌==◌, All, inl, inr, none,
  Bool-cases, if◌then◌else◌,
}
use mathlib.Core.Path.{fun_ext}
use zcoms_agent.Store.Rows.{find, exists, update, delete, insert, max_id}

module _ {ℓ} {R : Type ℓ} where
  -- No two rows have the same key.
  abbrev pub Distinct : (R → R → Bool) → List R → Type 0
  Distinct same [] = Unit
  Distinct same (r ∷ rows) = (exists (same r) rows ≡ false) × Distinct same rows

  pub exists-insert :
      (test : R → Bool) (rows : List R) (r : R)
      → exists test (insert r rows) ≡ (if exists test rows then true else test r)
  unfolding exists
  exists-insert test [] r = ground arith
  exists-insert test (q ∷ rows) r = ground (arith, exists-insert test rows r)

  pub exists-update :
      (test at : R → Bool) (change : R → R)
      → ((r : R) → test (change r) ≡ test r)
      → (rows : List R) → exists test (update at change rows) ≡ exists test rows
  unfolding exists update
  exists-update test at change h [] = refl
  exists-update test at change h (r ∷ rows) =
      ground (arith, h r, exists-update test at change h rows)

  pub exists-delete :
      (test at : R → Bool) (rows : List R)
      → exists test rows ≡ false
      → exists test (delete at rows) ≡ false
  unfolding exists delete
  exists-delete test at [] h = refl
  exists-delete test at (r ∷ rows) h = ground (arith, exists-delete test at rows)

  -- A row that the deletion spares is still found.
  pub exists-delete_other :
      (test at : R → Bool)
      → ((r : R) → test r ≡ true → at r ≡ false)
      → (rows : List R) → exists test rows ≡ true
      → exists test (delete at rows) ≡ true
  unfolding exists delete
  exists-delete_other test at other [] h = cc
  exists-delete_other test at other (r ∷ rows) h =
      ground (arith, other r, exists-delete_other test at other rows)

  pub Distinct-insert :
      (same : R → R → Bool) (rows : List R) (r : R)
      → Distinct same rows
      → exists (λ q. same q r) rows ≡ false
      → Distinct same (insert r rows)
  unfolding exists
  Distinct-insert same [] r h fresh = (refl, tt)
  Distinct-insert same (q ∷ rows) r h fresh = (
    ground (arith, exists-insert (same q) rows r),
    Distinct-insert same rows r h.1 (ground arith),
  )

  pub Distinct-update :
      (same : R → R → Bool) (at : R → Bool) (change : R → R)
      → ((q r : R) → same q (change r) ≡ same q r)
      → ((q r : R) → same (change q) r ≡ same q r)
      → (rows : List R) → Distinct same rows
      → Distinct same (update at change rows)
  unfolding update
  Distinct-update same at change right left [] h = tt
  Distinct-update same at change right left (r ∷ rows) h =
      (head, Distinct-update same at change right left rows h.1)
    where
      kept : exists (same r) (update at change rows) ≡ false
      kept = rw (exists-update (same r) at change (right r) rows) h.0

      moved : exists (same (change r)) (update at change rows) ≡ false
      moved = rw (fun_ext (left r)) kept

      head : exists (same (if at r then change r else r)) (update at change rows) ≡ false
      head = elim (Bool-cases (at r)) [ inl e ↦ rw e moved | inr e ↦ rw e kept ]

  pub Distinct-delete :
      (same : R → R → Bool) (at : R → Bool) (rows : List R)
      → Distinct same rows
      → Distinct same (delete at rows)
  unfolding delete
  Distinct-delete same at [] h = tt
  Distinct-delete same at (r ∷ rows) h = elim (Bool-cases (at r)) [
    | inl e ↦ rw e (Distinct-delete same at rows h.1)
    | inr e ↦ rw e (exists-delete (same r) at rows h.0, Distinct-delete same at rows h.1)
  ]

  pub All-update {κ} :
      (P : R → Type κ) (at : R → Bool) (change : R → R)
      → ((r : R) → P r → P (change r))
      → (rows : List R) → All P rows
      → All P (update at change rows)
  unfolding update
  All-update P at change keep [] h = tt
  All-update P at change keep (r ∷ rows) h = elim (Bool-cases (at r)) [
    | inl e ↦ rw e (keep r h.0, All-update P at change keep rows h.1)
    | inr e ↦ rw e (h.0, All-update P at change keep rows h.1)
  ]

  pub All-delete {κ} :
      (P : R → Type κ) (at : R → Bool) (rows : List R) → All P rows → All P (delete at rows)
  unfolding delete
  All-delete P at [] h = tt
  All-delete P at (r ∷ rows) h = elim (Bool-cases (at r)) [
    | inl e ↦ rw e (All-delete P at rows h.1)
    | inr e ↦ rw e (h.0, All-delete P at rows h.1)
  ]

  pub All-insert {κ} :
      (P : R → Type κ) (rows : List R) (r : R) → All P rows → P r → All P (insert r rows)
  All-insert P [] r h p = (p, tt)
  All-insert P (q ∷ rows) r h p = (h.0, All-insert P rows r h.1 p)

  -- A fact that holds of every row may be replaced by one that follows from it.
  pub All-map {κ μ} :
      {P : R → Type κ} {Q : R → Type μ}
      → ((r : R) → P r → Q r)
      → (rows : List R) → All P rows
      → All Q rows
  All-map f [] h = tt
  All-map f (r ∷ rows) h = (f r h.0, All-map f rows h.1)

  -- The id of a new row is no row's.
  pub next_id-is_fresh :
      (id : R → ℕ) (rows : List R) (n : ℕ)
      → max_id id rows ≤ n
      → exists (λ q. id q == suc n) rows ≡ false
  unfolding exists max_id
  next_id-is_fresh id [] n h = refl
  next_id-is_fresh id (r ∷ rows) n h = ground (arith, next_id-is_fresh id rows n)

  pub find-none_exists :
      (test : R → Bool) (rows : List R) → find test rows ≡ none → exists test rows ≡ false
  unfolding find exists
  find-none_exists test [] h = refl
  find-none_exists test (r ∷ rows) h = ground (arith, find-none_exists test rows)

  pub exists-insert-true :
      (test : R → Bool) (rows : List R) (r : R)
      → exists test rows ≡ true
      → exists test (insert r rows) ≡ true
  exists-insert-true test rows r h = rw exists-insert (rw h refl)
