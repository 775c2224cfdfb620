-- ===== src/Scheduler.antt =====
-- scheduler/scheduler.go: the jobs that the agent runs by the clock, and the guards that are kept of
-- those that run once a day or only once. An instant is a number, a day's key a text.
pub mod Exact
pub mod Spaced
use zcoms_agent.Prelude.{
  ℕ, ◌+◌, Bool, true, false, not, List, [], ◌∷◌, ◌++◌, ltb, leb, Option, none, some, if◌then◌else◌,
}
use zcoms_agent.Prelude.Text.{Text, codes, text_eq}

-- A time zone: dateKey, and the instant of an hour and a minute of the day that an instant is in.
pub record Zone : Type 0 where
  pub date_key : ℕ → Text
  pub target : ℕ → ℕ → ℕ → ℕ

pub data Timing : Type 0 where
  interval : ℕ → Timing
  daily_at : Zone → ℕ → ℕ → Timing
  once : ℕ → Timing

-- `next` is the deadline that the closure of an interval keeps, none while it is the zero time.
pub record Job : Type 0 where
  pub name : Text
  pub timing : Timing
  pub next : Option ℕ

-- The table of a Store.
abbrev pub Guards : Type 0
Guards = List (Text × Text)

-- Whether Get and Set fail at a tick.
pub record Faults : Type 0 where
  pub gets : Bool
  pub sets : Bool

-- A lookup in the map, where a key that is missing reads as the empty text.
unfoldable pub lookup : Text → Guards → Text
lookup key [] = codes ""
lookup key ((k, v) ∷ guards) =
    let rest : Text = lookup key guards in if text_eq k key then v else rest

-- Get, of which the callers ignore the error
unfoldable pub get : Faults → Text → Guards → Text
unfolding lookup
get f key guards = if f.gets then codes "" else lookup key guards

-- Set
unfoldable pub set : Faults → Text → Text → Guards → Guards
set f key value guards = if f.sets then guards else (key, value) ∷ guards

-- dueDaily
unfoldable pub due_daily : Zone → Text → ℕ → ℕ → ℕ → Bool
due_daily z last_fired now hour min =
    if text_eq last_fired (z.date_key now) then false else leb (z.target now hour min) now

-- dueOnce
unfoldable pub due_once : Text → ℕ → ℕ → Bool
due_once fired now at = if not (text_eq fired (codes "")) then false else leb at now

-- The closure `due` of Interval: is it due, and its next deadline.
unfoldable pub due_interval : ℕ → ℕ → Option ℕ → Bool × Option ℕ
due_interval d now none = (false, some (now + d))
due_interval d now (some next) = if ltb now next then (false, some next) else (true, some (now + d))

-- The closures `due` and `markFired` of each registration.
unfoldable pub due : Faults → ℕ → Guards → Text → Timing → Option ℕ → Bool × Option ℕ
unfolding get due_daily due_once due_interval
due f now guards name (interval d) next = due_interval d now next
due f now guards name (daily_at z hour min) next =
    (due_daily z (get f name guards) now hour min, next)
due f now guards name (once at) next = (due_once (get f name guards) now at, next)

unfoldable pub mark_fired : Faults → ℕ → Text → Timing → Guards → Guards
unfolding set
mark_fired f now name (interval d) guards = guards
mark_fired f now name (daily_at z hour min) guards = set f name (z.date_key now) guards
mark_fired f now name (once at) guards = set f name (codes "done") guards

-- evaluate: the names of the jobs that are run, in order, the jobs and the guards.
unfoldable pub evaluate : Faults → ℕ → List Job → Guards → List Text × (List Job × Guards)
unfolding due mark_fired
evaluate f now [] guards = ([], ([], guards))
evaluate f now (j ∷ jobs) guards =
    let d : Bool × Option ℕ = due f now guards j.name j.timing j.next in
    let marked : Guards = if d.0 then mark_fired f now j.name j.timing guards else guards in
    let rest : List Text × (List Job × Guards) = evaluate f now jobs marked in
    ((if d.0 then j.name ∷ [] else []) ++ rest.0, (record j { next = d.1 } ∷ rest.1.0, rest.1.1))

-- Interval, DailyAt and Once
abbrev pub add : Text → Timing → List Job → List Job
add name timing jobs = jobs ++ record { name = name; timing = timing; next = none } ∷ []

-- A tick of the loop of Run, or the start of a new process that registers jobs over the same store.
pub data Event : Type 0 where
  tick : Faults → ℕ → Event
  restart : List Job → Event

-- Run: the names of the jobs that are run.
unfoldable pub run : List Event → List Job → Guards → List Text
unfolding evaluate
run [] jobs guards = []
run (tick f now ∷ events) jobs guards =
    (evaluate f now jobs guards).0
    ++ run events (evaluate f now jobs guards).1.0 (evaluate f now jobs guards).1.1
run (restart registered ∷ events) jobs guards = run events registered guards
