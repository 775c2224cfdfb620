-- ===== src/Reminders/Handle/Spared.antt =====
-- The tables before and after a command about reminders: what it spares.
use mathlib.Core.Path.{subst}
use zcoms_agent.Prelude.{
  ℕ, Bool, true, false, not, List, [], ◌∷◌, ◌==◌, Option, none, some, inl, inr, ◌≡◌, refl, ◌∙◌, ap,
  arith, if◌then◌else◌, All, Bool-cases,
}
use zcoms_agent.Store.Types.{Reminder, Database}
use zcoms_agent.Store.Rows.{select, find, exists, update, insert}
use zcoms_agent.Store.Rows.Keys.{Distinct}
use zcoms_agent.Store.Preserves.{IsPreorder}
use zcoms_agent.Store.Reminders.{has_id}
use zcoms_agent.Reminders.Words.{Requester}
use zcoms_agent.Reminders.Requests.{may_cancel}

-- The reminders that the one who asks may not cancel.
abbrev pub foreign : Requester → List Reminder → List Reminder
foreign q = select (λ r. not (may_cancel q r))

-- What stays as it is.
abbrev pub Spares : Requester → Database → Database → Type 0
Spares q a b =
    (foreign q b.reminders ≡ foreign q a.reminders)
    × (b.settings ≡ a.settings)
    × (b.allowlist ≡ a.allowlist)

pub select-update :
    (test at : Reminder → Bool) (change : Reminder → Reminder)
    → ((r : Reminder) → test (change r) ≡ test r)
    → (rows : List Reminder) → All (λ r. at r ≡ true → test r ≡ false) rows
    → select test (update at change rows) ≡ select test rows
unfolding select update
select-update test at change keep [] h = refl
select-update test at change keep (r ∷ rows) (h, hs) = elim (Bool-cases (at r)) [
  | inl e ↦ rw e (rw (keep r) (rw (h e) (select-update test at change keep rows hs)))
  | inr e ↦ rw e (ap (λ l. if test r then r ∷ l else l) (select-update test at change keep rows hs))
]

pub select-insert :
    (test : Reminder → Bool) (r : Reminder) (rows : List Reminder)
    → test r ≡ false
    → select test (insert r rows) ≡ select test rows
unfolding select
select-insert test r [] h = rw h refl
select-insert test r (s ∷ rows) h =
    ap (λ l. if test s then s ∷ l else l) (select-insert test r rows h)

abbrev pub Holds : (Reminder → Type 0) → Option Reminder → Type 0
Holds P none = Unit
Holds P (some r) = P r

-- With unique ids, what holds of the row that is found holds of each row of that id.
pub found-All :
    (P : Reminder → Type 0) (i : ℕ) (rows : List Reminder)
    → Distinct (λ a b. a.id == b.id) rows
    → Holds P (find (has_id i) rows)
    → All (λ r. has_id i r ≡ true → P r) rows
unfolding find exists
found-All P i [] ids h = tt
found-All P i (r ∷ rows) (alone, ids) h = elim (Bool-cases (r.id == i)) [
  | inl same ↦ (
    λ _. subst (λ b. Holds P (if b then some r else find (has_id i) rows)) same h,
    none_more rows alone same,
  )
  | inr other ↦ (
    λ e. absurd (ground (arith, e, other)),
    found-All P i rows ids
        (subst (λ b. Holds P (if b then some r else find (has_id i) rows)) other h),
  )
]
  where
    none_more :
        (l : List Reminder)
        → exists (λ s. r.id == s.id) l ≡ false
        → (r.id == i) ≡ true
        → All (λ s. has_id i s ≡ true → P s) l
    none_more [] e same = tt
    none_more (s ∷ l) e same =
        (λ here. absurd (ground (arith, e, same, here)), none_more l (ground (arith, e)) same)

pub Spares-IsPreorder : (q : Requester) → IsPreorder (Spares q)
Spares-IsPreorder q = record {
  same = λ db. (refl, refl, refl);
  then_ = λ f g. (g.0 ∙ f.0, g.1 ∙ f.1, g.2 ∙ f.2);
}
