-- ===== src/Store/Db.antt =====
-- The database handle of internal/store. An operation runs its statements one after another; each
-- may fail in the driver, and the list of faults says which do. A statement that fails changes no
-- row, and a transaction that fails is rolled back.
use zcoms_agent.Prelude.{Bool, false, List, [], ◌∷◌, if◌then◌else◌}
use zcoms_agent.Prelude.Text.{Text}
use zcoms_agent.Store.Types.{Database, Error, unique, driver, Result, ok, err}

pub record World : Type 0 where
  pub db : Database
  pub faults : List Bool
  pub time : Text

abbrev pub Db : Type 0 → Type 0
Db A = World → Result A × World

abbrev pub head_fault : List Bool → Bool
head_fault [] = false
head_fault (b ∷ faults) = b

abbrev pub tail_faults : List Bool → List Bool
tail_faults [] = []
tail_faults (b ∷ faults) = faults

abbrev pub continue : {A B : Type 0} → Result A → (A → Db B) → Db B
continue (ok a) f w = f a w
continue (err e) f w = (err e, w)

unfoldable pub pure : {A : Type 0} → A → Db A
pure a w = (ok a, w)

unfoldable pub fail : {A : Type 0} → Error → Db A
fail e w = (err e, w)

-- now(): the clock is read once for an operation.
unfoldable pub now : Db Text
now w = (ok w.time, w)

abbrev pub on_tables : {A : Type 0} → Result A × Database → World → Result A × World
on_tables (ok a, db) w = (ok a, record w { db = db })
on_tables (err e, db) w = (err e, w)

-- One statement: the driver fails, or the tables answer.
unfoldable pub statement : {A : Type 0} → (Database → Result A × Database) → Db A
statement f w =
    let w' : World = record w { faults = tail_faults w.faults } in
    if head_fault w.faults then (err driver, w') else on_tables (f w.db) w'

abbrev pub query : {A : Type 0} → (Database → A) → Db A
query f = statement (λ db. (ok (f db), db))

infixl 5 ◌>>=◌ ◌>>◌
-- To open this is to open the actions that it joins.
unfoldable pub ◌>>=◌ : {A B : Type 0} → Db A → (A → Db B) → Db B
unfolding pure fail now statement
◌>>=◌ m f w = let (r, w') = m w in continue r f w'

abbrev pub ◌>>◌ : {A B : Type 0} → Db A → Db B → Db B
m >> k = m >>= λ _. k

abbrev pub close : {A : Type 0} → Database → Result A × World → Result A × World
close before (ok a, w) =
    let w' : World = record w { faults = tail_faults w.faults } in
    if head_fault w.faults then (err driver, record w' { db = before }) else (ok a, w')
close before (err e, w) = (err e, record w { db = before })

-- Begin, the body, Commit, with the deferred Rollback.
unfoldable pub transaction : {A : Type 0} → Db A → Db A
transaction m w =
    let w' : World = record w { faults = tail_faults w.faults } in
    if head_fault w.faults then (err driver, w') else close w.db (m w')

-- The replacement of a UNIQUE violation by the operation's own message.
abbrev pub on_unique : {A : Type 0} → Error → Result A × World → Result A × World
on_unique e (err unique, w) = (err e, w)
on_unique e (r, w) = (r, w)

unfoldable pub relabel : {A : Type 0} → Error → Db A → Db A
relabel e m w = on_unique e (m w)
