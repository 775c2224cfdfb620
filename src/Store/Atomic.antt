-- ===== src/Store/Atomic.antt =====
-- What an operation that returns an error has written. (internal/store.)
pub mod Writes
use zcoms_agent.Prelude.{
  ℕ, Bool, true, false, Option, none, some, List, [], ◌∷◌, ◌≡◌, refl, ap, ◌∙◌, arith, inl, inr,
  Bool-cases, if◌then◌else◌,
}
use zcoms_agent.Prelude.Text.{Text, to_lower}
use zcoms_agent.Store.Types.{
  Database, Error, unique, Result, ok, err, Caller, owner, agent, valid_backends, Persona,
  Workspace,
}
use zcoms_agent.Store.Db.{
  Db, World, pure, fail, now, query, statement, relabel, transaction, continue, on_tables,
  on_unique, close, head_fault, tail_faults, ◌>>=◌, ◌>>◌,
}
use zcoms_agent.Store.Checks.{
  require_owner, validate_role, validate_backend, refuse_if, require_row, when, role_ok,
}
use zcoms_agent.Store.Rows.{exists, update, delete}
use zcoms_agent.Store.Preserves.{
  Preserves, IsPreorder, preserves_rules, Preserves-then, Preserves-bind, Preserves-query,
}

-- An error leaves every table as it was.
pub record IsAtomic {A : Type 0} (m : Db A) : Type 0 where
  pub at : (w : World) (e : Error) → (m w).0 ≡ err e → (m w).1.db ≡ w.db

abbrev pub Same : Database → Database → Type 0
Same a b = b ≡ a

pub Same-IsPreorder : IsPreorder Same
Same-IsPreorder = record { same = λ db. refl; then_ = λ p q. q ∙ p }

pub IsAtomic-pure : {A : Type 0} (a : A) → IsAtomic (pure a)
unfolding pure
IsAtomic-pure a = record { at = λ w e h. refl }

-- A part that writes nothing may stand in front.
IsAtomic-continue :
    {A B : Type 0} (db : Database) (r : Result A) (f : A → Db B) (w : World)
    → w.db ≡ db
    → ((a : A) → IsAtomic (f a))
    → (e : Error) → (continue r f w).0 ≡ err e
    → (continue r f w).1.db ≡ db
IsAtomic-continue db (ok a) f w same hf e h = (hf a).at w e h ∙ same
IsAtomic-continue db (err x) f w same hf e h = same

pub IsAtomic-after :
    {A B : Type 0} (m : Db A) (f : A → Db B)
    → Preserves Same m
    → ((a : A) → IsAtomic (f a))
    → IsAtomic (m >>= f)
unfolding ◌>>=◌
IsAtomic-after m f hm hf = record {
  at = λ w. IsAtomic-continue w.db (m w).0 f (m w).1 (hm.at w) hf;
}

-- A part that cannot fail may stand behind.
IsAtomic-continue-pure :
    {A B : Type 0} (db : Database) (r : Result A) (g : A → B) (w : World)
    → ((x : Error) → r ≡ err x → w.db ≡ db)
    → (e : Error) → (continue r (λ a. pure (g a)) w).0 ≡ err e
    → (continue r (λ a. pure (g a)) w).1.db ≡ db
unfolding pure
IsAtomic-continue-pure db (ok a) g w hr e h = cc
IsAtomic-continue-pure db (err x) g w hr e h = hr x refl

pub IsAtomic-map :
    {A B : Type 0} (m : Db A) (g : A → B) → IsAtomic m → IsAtomic (m >>= λ a. pure (g a))
unfolding ◌>>=◌
IsAtomic-map m g hm = record { at = λ w. IsAtomic-continue-pure w.db (m w).0 g (m w).1 (hm.at w) }

IsAtomic-on_tables :
    {A : Type 0} (p : Result A × Database) (w : World) (e : Error)
    → (on_tables p w).0 ≡ err e
    → (on_tables p w).1.db ≡ w.db
IsAtomic-on_tables (ok a, db) w e h = cc
IsAtomic-on_tables (err x, db) w e h = refl

pub IsAtomic-statement : {A : Type 0} (f : Database → Result A × Database) → IsAtomic (statement f)
unfolding statement
IsAtomic-statement f = record {
  at = λ w e. elim (Bool-cases (head_fault w.faults)) [
    | inl failed ↦ rw failed (λ h. refl)
    | inr fine ↦
        rw fine (IsAtomic-on_tables (f w.db) (record w { faults = tail_faults w.faults }) e)
  ];
}

IsAtomic-on_unique :
    {A : Type 0} (db : Database) (x : Error) (p : Result A × World)
    → ((e : Error) → p.0 ≡ err e → p.1.db ≡ db)
    → (e : Error) → (on_unique x p).0 ≡ err e
    → (on_unique x p).1.db ≡ db
IsAtomic-on_unique db x (ok a, w) hp e h = cc
IsAtomic-on_unique db x (err unique, w) hp e h = hp unique refl
IsAtomic-on_unique db x (err y, w) hp e h = hp y refl

pub IsAtomic-relabel : {A : Type 0} (x : Error) (m : Db A) → IsAtomic m → IsAtomic (relabel x m)
unfolding relabel
IsAtomic-relabel x m hm = record { at = λ w. IsAtomic-on_unique w.db x (m w) (hm.at w) }

ok-ne-err : {A : Type 0} (a : A) (e : Error) → ok a ≡ err e → ⊥
ok-ne-err a e h = cc

IsAtomic-close :
    {A : Type 0} (before : Database) (p : Result A × World) (e : Error)
    → (close before p).0 ≡ err e
    → (close before p).1.db ≡ before
IsAtomic-close before (ok a, w) e h = elim (Bool-cases (head_fault w.faults)) [
  | inl failed ↦ rw failed refl
  | inr fine ↦ absurd (ok-ne-err a e (rw fine at h))
]
IsAtomic-close before (err x, w) e h = refl

-- The rollback: nothing is asked of the body.
pub IsAtomic-transaction : {A : Type 0} (m : Db A) → IsAtomic (transaction m)
unfolding transaction
IsAtomic-transaction m = record {
  at = λ w e. elim (Bool-cases (head_fault w.faults)) [
    | inl failed ↦ rw failed (λ h. refl)
    | inr fine ↦ rw fine (IsAtomic-close w.db (m (record w { faults = tail_faults w.faults })) e)
  ];
}

pub IsAtomic-when : (b : Bool) (m : Db (Unit {0})) → IsAtomic m → IsAtomic (when b m)
unfolding when
IsAtomic-when true m h = h
IsAtomic-when false m h = IsAtomic-pure tt

-- A statement that reports whether it met a row, and the error for no row.
IsAtomic-on_row :
    (db : Database) (met : Bool) (after : Database) (w : World) (x : Error)
    → (met ≡ false → after ≡ db)
    → (e : Error) → (require_row met x (record w { db = after })).0 ≡ err e
    → (require_row met x (record w { db = after })).1.db ≡ db
unfolding require_row pure fail
IsAtomic-on_row db true after w x none_met e h = cc
IsAtomic-on_row db false after w x none_met e h = none_met refl

pub IsAtomic-row :
    (met : Database → Bool) (change : Database → Database) (x : Error)
    → ((db : Database) → met db ≡ false → change db ≡ db)
    → IsAtomic (statement (λ db. (ok (met db), change db)) >>= λ m. require_row m x)
unfolding ◌>>=◌
IsAtomic-row met change x none_met = record {
  at = λ w e. elim (Bool-cases (head_fault w.faults)) [
    | inl failed ↦ rw failed (λ h. refl)
    | inr fine ↦ rw fine (
        IsAtomic-on_row w.db (met w.db) (change w.db) (record w { faults = tail_faults w.faults }) x
          (none_met w.db) e)
  ];
}

module _ {ℓ} {R : Type ℓ} where
  pub update_no_row :
      (test : R → Bool) (change : R → R) (rows : List R)
      → exists test rows ≡ false
      → update test change rows ≡ rows
  unfolding exists update
  update_no_row test change [] h = refl
  update_no_row test change (r ∷ rows) h = ground (arith, update_no_row test change rows)

  pub delete_no_row :
      (test : R → Bool) (rows : List R) → exists test rows ≡ false → delete test rows ≡ rows
  unfolding exists delete
  delete_no_row test [] h = refl
  delete_no_row test (r ∷ rows) h = ground (arith, delete_no_row test rows)
