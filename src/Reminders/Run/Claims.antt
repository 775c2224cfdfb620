-- ===== src/Reminders/Run/Claims.antt =====
-- No reminder of internal/reminders has two runs at once.
use zcoms_agent.Prelude.{ℕ, ◌+◌, ◌≤◌, List, [], ◌∷◌, ◌++◌, ◌==◌, ◌≡◌, if◌then◌else◌}
use zcoms_agent.Store.Types.{Reminder}
use zcoms_agent.Reminders.Run.{fire_due, release_run}

-- How often an id stands in a list.
unfoldable pub count : ℕ → List ℕ → ℕ
count id [] = 0
count id (i ∷ l) = (if i == id then 1 else 0) + count id l

-- The runs that are in flight: ticks start some, and each ends by itself.
pub data Ticks : List ℕ → List ℕ → Type 0 where
  fresh : Ticks [] []
  tick :
      (due : List Reminder) (running flying : List ℕ)
      → Ticks running flying
      → Ticks (fire_due due running).0 ((fire_due due running).1 ++ flying)
  finish :
      (id : ℕ) (running flying : List ℕ)
      → Ticks running flying
      → Ticks (release_run id running) (release_run id flying)

-- What is claimed is what is in flight, at most once.
abbrev pub OneRun : ℕ → List ℕ → List ℕ → Type 0
OneRun i running flying = count i running ≡ count i flying × count i flying ≤ 1
