-- ===== src/Store/Preserves.antt =====
-- How an operation relates the tables before and after it, one rule for each way to build it. For a
-- predicate `P` of the tables, the relation `Keeps P` makes these the rules of an invariant.
use zcoms_agent.Prelude.{Bool, true, false, inl, inr, ◌≡◌, refl, Bool-cases, if◌then◌else◌}
use zcoms_agent.Prelude.Text.{Text, to_lower}
use zcoms_agent.Store.Types.{
  Database, Error, unique, Result, ok, err, Caller, owner, agent, valid_backends,
}
use zcoms_agent.Store.Db.{
  Db, World, pure, fail, now, query, statement, relabel, transaction, continue, on_tables,
  on_unique, close, head_fault, tail_faults, ◌>>=◌, ◌>>◌,
}
use zcoms_agent.Store.Checks.{
  require_owner, validate_role, validate_backend, refuse_if, require_row, when, role_ok,
}

pub record Preserves {A : Type 0} (R : Database → Database → Type 0) (m : Db A) : Type 0 where
  pub at : (w : World) → R w.db (m w).1.db

pub record IsPreorder (R : Database → Database → Type 0) : Type 0 where
  pub same : (db : Database) → R db db
  pub then_ : {a b c : Database} → R a b → R b c → R a c

abbrev pub Keeps : (Database → Type 0) → Database → Database → Type 0
Keeps P a b = P a → P b

pub Keeps-IsPreorder : (P : Database → Type 0) → IsPreorder (Keeps P)
Keeps-IsPreorder P = record { same = λ db h. h; then_ = λ f g h. g (f h) }

module _ {R : Database → Database → Type 0} (pre : IsPreorder R) where
  pub Preserves-pure : {A : Type 0} (a : A) → Preserves R (pure a)
  unfolding pure
  Preserves-pure a = record { at = λ w. pre.same w.db }

  pub Preserves-fail : {A : Type 0} (e : Error) → Preserves R (fail {A = A} e)
  unfolding fail
  Preserves-fail e = record { at = λ w. pre.same w.db }

  pub Preserves-now : Preserves R now
  unfolding now
  Preserves-now = record { at = λ w. pre.same w.db }

  pub Preserves-require_owner : (c : Caller) (what : Text) → Preserves R (require_owner c what)
  unfolding require_owner
  Preserves-require_owner owner what = Preserves-pure tt
  Preserves-require_owner agent what = Preserves-fail _

  pub Preserves-refuse_if : (b : Bool) (e : Error) → Preserves R (refuse_if b e)
  unfolding refuse_if
  Preserves-refuse_if true e = Preserves-fail e
  Preserves-refuse_if false e = Preserves-pure tt

  pub Preserves-require_row : (b : Bool) (e : Error) → Preserves R (require_row b e)
  unfolding require_row
  Preserves-require_row true e = Preserves-pure tt
  Preserves-require_row false e = Preserves-fail e

  pub Preserves-when : (b : Bool) (m : Db (Unit {0})) → Preserves R m → Preserves R (when b m)
  unfolding when
  Preserves-when true m h = h
  Preserves-when false m h = Preserves-pure tt

  pub Preserves-continue :
      {A B : Type 0} (a : Database) (r : Result A) (f : A → Db B) (w : World)
      → R a w.db
      → ((x : A) → Preserves R (f x))
      → R a (continue r f w).1.db
  Preserves-continue a (ok x) f w h hf = pre.then_ h ((hf x).at w)
  Preserves-continue a (err e) f w h hf = h

  pub Preserves-bind :
      {A B : Type 0} (m : Db A) (f : A → Db B)
      → Preserves R m
      → ((a : A) → Preserves R (f a))
      → Preserves R (m >>= f)
  unfolding ◌>>=◌
  Preserves-bind m f hm hf = record {
    at = λ w. Preserves-continue w.db (m w).0 f (m w).1 (hm.at w) hf;
  }

  pub Preserves-then :
      {A B : Type 0} (m : Db A) (k : Db B) → Preserves R m → Preserves R k → Preserves R (m >> k)
  Preserves-then m k hm hk = Preserves-bind m (λ _. k) hm (λ _. hk)

  Preserves-on_tables :
      {A : Type 0} (p : Result A × Database) (w : World) → R w.db p.1 → R w.db (on_tables p w).1.db
  Preserves-on_tables (ok a, db) w h = h
  Preserves-on_tables (err e, db) w h = pre.same w.db

  -- A statement is related to the tables that it finds and leaves.
  pub Preserves-statement_at :
      {A : Type 0} (f : Database → Result A × Database) (w : World)
      → R w.db (f w.db).1
      → R w.db (statement f w).1.db
  unfolding statement
  Preserves-statement_at f w h = elim (Bool-cases (head_fault w.faults)) [
    | inl failed ↦ rw failed (pre.same w.db)
    | inr fine ↦
        rw fine (Preserves-on_tables (f w.db) (record w { faults = tail_faults w.faults }) h)
  ]

  pub Preserves-statement :
      {A : Type 0} (f : Database → Result A × Database)
      → ((db : Database) → R db (f db).1)
      → Preserves R (statement f)
  Preserves-statement f h = record { at = λ w. Preserves-statement_at f w (h w.db) }

  pub Preserves-query : {A : Type 0} (f : Database → A) → Preserves R (query f)
  Preserves-query f = Preserves-statement _ pre.same

  pub Preserves-validate_role : (r : Text) → Preserves R (validate_role r)
  unfolding validate_role
  Preserves-validate_role r = elim (Bool-cases (role_ok r)) [
    | inl good ↦ rw good (Preserves-pure tt)
    | inr bad ↦ rw bad (Preserves-fail _)
  ]

  pub Preserves-validate_backend : (b : Text) → Preserves R (validate_backend b)
  unfolding validate_backend
  Preserves-validate_backend b = elim (Bool-cases (valid_backends (to_lower b))) [
    | inl good ↦ rw good (Preserves-pure tt)
    | inr bad ↦ rw bad (Preserves-fail _)
  ]

  Preserves-on_unique :
      {A : Type 0} (a : Database) (e : Error) (p : Result A × World)
      → R a p.1.db
      → R a (on_unique e p).1.db
  Preserves-on_unique a e (ok x, w) h = h
  Preserves-on_unique a e (err unique, w) h = h
  Preserves-on_unique a e (err _, w) h = h

  pub Preserves-relabel :
      {A : Type 0} (e : Error) (m : Db A) → Preserves R m → Preserves R (relabel e m)
  unfolding relabel
  Preserves-relabel e m h = record { at = λ w. Preserves-on_unique w.db e (m w) (h.at w) }

  Preserves-close :
      {A : Type 0} (before : Database) (p : Result A × World)
      → R before p.1.db
      → R before (close before p).1.db
  Preserves-close before (ok a, w) h = elim (Bool-cases (head_fault w.faults)) [
    | inl failed ↦ rw failed (pre.same before)
    | inr fine ↦ rw fine h
  ]
  Preserves-close before (err e, w) h = pre.same before

  pub Preserves-transaction : {A : Type 0} (m : Db A) → Preserves R m → Preserves R (transaction m)
  unfolding transaction
  Preserves-transaction m h = record {
    at = λ w. elim (Bool-cases (head_fault w.faults)) [
      | inl failed ↦ rw failed (pre.same w.db)
      | inr fine ↦
          rw fine (Preserves-close w.db _ (h.at (record w { faults = tail_faults w.faults })))
    ];
  }

continue-bind :
    {A B C : Type 0} (r : Result A) (f : A → Db B) (g : B → Db C) (w : World)
    → continue (continue r f w).0 g (continue r f w).1 ≡ continue r (λ a. f a >>= g) w
unfolding ◌>>=◌
continue-bind (ok a) f g w = refl
continue-bind (err e) f g w = refl

module _ {R : Database → Database → Type 0} where
  -- Binds may be read from the right.
  pub Preserves-assoc :
      {A B C : Type 0} (m : Db A) (f : A → Db B) (g : B → Db C)
      → Preserves R (m >>= λ a. f a >>= g)
      → Preserves R (m >>= f >>= g)
  unfolding ◌>>=◌
  Preserves-assoc m f g h = record { at = λ w. rw (continue-bind (m w).0 f g (m w).1) (h.at w) }

pub ruleset preserves_rules = (
  Preserves-pure, Preserves-fail, Preserves-now, Preserves-require_owner, Preserves-refuse_if,
  Preserves-require_row, Preserves-validate_role, Preserves-validate_backend, Preserves-when,
  Preserves-then, Preserves-bind, Preserves-query, Preserves-relabel, Preserves-transaction,
)

-- The guard: what an agent's request does after it is nothing at all.
pub Preserves-agent :
    {B : Type 0} {R : Database → Database → Type 0} (pre : IsPreorder R) (what : Text)
    (f : Unit {0} → Db B)
    → Preserves R (require_owner agent what >>= f)
unfolding require_owner ◌>>=◌
Preserves-agent pre what f = record { at = λ w. pre.same w.db }

pub Preserves-agent_twice :
    {A B : Type 0} {R : Database → Database → Type 0} (pre : IsPreorder R) (what : Text)
    (f : Unit {0} → Db A) (g : A → Db B)
    → Preserves R (require_owner agent what >>= f >>= g)
unfolding require_owner ◌>>=◌
Preserves-agent_twice pre what f g = record { at = λ w. pre.same w.db }

-- A check in front gives its outcome to what follows.
module _ {R : Database → Database → Type 0} (pre : IsPreorder R) {B : Type 0} where
  pub Preserves-refused :
      (b : Bool) (e : Error) (k : Db B)
      → (b ≡ false → Preserves R k)
      → Preserves R (refuse_if b e >> k)
  unfolding refuse_if ◌>>=◌
  Preserves-refused true e k h = record { at = λ w. pre.same w.db }
  Preserves-refused false e k h = record { at = (h refl).at }

  Preserves-checked :
      (b : Bool) (e : Error) (k : Db B)
      → (b ≡ true → Preserves R k)
      → Preserves R ((if b then pure tt else fail e) >> k)
  unfolding ◌>>=◌
  Preserves-checked true e k h = record { at = (h refl).at }
  Preserves-checked false e k h = record { at = λ w. pre.same w.db }

  pub Preserves-role_checked :
      (r : Text) (k : Db B)
      → (role_ok r ≡ true → Preserves R k)
      → Preserves R (validate_role r >> k)
  unfolding validate_role
  Preserves-role_checked r k h = Preserves-checked (role_ok r) _ k h

  pub Preserves-backend_checked :
      (b : Text) (k : Db B)
      → (valid_backends (to_lower b) ≡ true → Preserves R k)
      → Preserves R (validate_backend b >> k)
  unfolding validate_backend
  Preserves-backend_checked b k h = Preserves-checked (valid_backends (to_lower b)) _ k h

  -- What follows a query knows what the tables answered.
  pub Preserves-query_bind :
      {A : Type 0} (f : Database → A) (k : A → Db B)
      → ((db : Database) (w : World) → w.db ≡ db → R db (k (f db) w).1.db)
      → Preserves R (query f >>= k)
  unfolding ◌>>=◌
  Preserves-query_bind f k h = record {
    at = λ w. elim (Bool-cases (head_fault w.faults)) [
      | inl failed ↦ rw failed (pre.same w.db)
      | inr fine ↦ rw fine (h w.db (record w { faults = tail_faults w.faults }) refl)
    ];
  }
