-- ===== src/Witnesses/Ticking.antt =====
-- The theorems about scheduler/scheduler.go at concrete inputs.
use zcoms_agent.Prelude.{◌*◌, ◌+◌, ◌≤◌, false, not, List, [], ◌∷◌, ◌≡◌, refl, inl, ◌&&◌, arith}
use zcoms_agent.Prelude.Text.{codes}
use zcoms_agent.Scheduler.{
  Zone, daily_at, interval, Job, Faults, lookup, Event, tick, restart, run, add,
}
use zcoms_agent.Scheduler.Exact.{times, spent, tally, ever_reached, run-exactly_once}
use zcoms_agent.Scheduler.Spaced.{run-spaced}

-- Minutes, all of one day that begins at 0.
abbrev one_day : Zone
one_day = record { date_key = λ now. codes "2026-07-01"; target = λ now hour min. hour * 60 + min }

abbrev works : Faults
works = record { gets = false; sets = false }

abbrev registered : List Job
registered = add (codes "morning-briefing") (daily_at one_day 6 0) []

-- Before the time, at the time, after a restart, and later.
abbrev morning : List Event
morning =
    tick works 359 ∷ tick works 360 ∷ tick works 361 ∷ restart registered ∷ tick works 400 ∷ []

run-exactly_once_example :
    times (codes "morning-briefing") (run morning registered [])
    ≡ tally (
        not
          (spent (daily_at one_day 6 0) (codes "2026-07-01") (lookup (codes "morning-briefing") []))
        && ever_reached (daily_at one_day 6 0) morning)
run-exactly_once_example =
    run-exactly_once (codes "morning-briefing") (daily_at one_day 6 0) (codes "2026-07-01") morning
      registered []
      (
        (refl, refl, refl),
        (
          (refl, refl, refl),
          ((refl, refl, refl), (inl (refl, refl, tt), ((refl, refl, refl), tt))),
        ),
      )
      (inl (refl, refl, tt))

abbrev polling : List Job
polling = add (codes "reminders-tick") (interval 30) []

-- It is run at 30 and at 60.
abbrev minute : List Event
minute = tick works 0 ∷ tick works 30 ∷ tick works 45 ∷ tick works 60 ∷ []

run-spaced_example : 0 + times (codes "reminders-tick") (run minute polling []) * 30 ≤ 60
run-spaced_example =
    run-spaced (codes "reminders-tick") 30 0 60 minute polling [] (inl (refl, tt))
      (
        (omega arith, omega arith),
        (
          (omega arith, omega arith),
          ((omega arith, omega arith), ((omega arith, omega arith), tt)),
        ),
      )
      (omega arith)
