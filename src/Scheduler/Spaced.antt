-- ===== src/Scheduler/Spaced.antt =====
-- How often a job of scheduler/scheduler.go that runs at an interval is run.
use mathlib.Core.Path.{subst}
use zcoms_agent.Prelude.{
  ℕ, ◌+◌, ◌*◌, ◌≤◌, Bool, true, false, List, [], ◌∷◌, ◌++◌, ltb, Option, none, some, if◌then◌else◌,
  ◌≡◌, ◌≢◌, refl, sym, ap, ◌∙◌, arith, All, ◌⊎◌, inl, inr, Bool-cases,
}
use zcoms_agent.Prelude.Text.{Text}
use zcoms_agent.Scheduler.{
  interval, Job, Guards, Faults, due, due_interval, mark_fired, evaluate, Event, tick, restart, run,
}
use zcoms_agent.Scheduler.Exact.{
  times, tally, times-append, fired_other, fired_same, evaluate-other,
}

-- Exactly one of the jobs has the name; it has the interval and the deadline.
abbrev pub WaitsFor : Text → ℕ → Option ℕ → List Job → Type 0
WaitsFor n d next [] = ⊥
WaitsFor n d next (j ∷ jobs) =
    ((j ≡ record { name = n; timing = interval d; next = next }) × All (λ k. k.name ≢ n) jobs)
    ⊎ ((j.name ≢ n) × WaitsFor n d next jobs)

-- A tick of one process, within two instants.
abbrev pub IsWithin : ℕ → ℕ → Event → Type 0
IsWithin lo hi (tick f now) = (lo ≤ now) × (now ≤ hi)
IsWithin lo hi (restart jobs) = ⊥

abbrev Waited : Text → ℕ → Option ℕ → ℕ → List Text × (List Job × Guards) → Type 0
Waited n d next now e =
    (times n e.0 ≡ tally (due_interval d now next).0)
    × WaitsFor n d (due_interval d now next).1 e.1.0

evaluate-Waited :
    (n : Text) (d : ℕ) (next : Option ℕ) (f : Faults) (now : ℕ) (jobs : List Job) (guards : Guards)
    → WaitsFor n d next jobs
    → Waited n d next now (evaluate f now jobs guards)
unfolding evaluate due mark_fired
evaluate-Waited n d next f now [] guards h = elim h [ ]
evaluate-Waited n d next f now (j ∷ jobs) guards (inl (is_job, others)) =
    subst (λ k. Waited n d next now (evaluate f now (k ∷ jobs) guards)) (sym is_job) at_front
  where
    at_front :
        Waited n d next now
          (evaluate f now (record { name = n; timing = interval d; next = next } ∷ jobs) guards)
    at_front =
        let b : Bool = (due_interval d now next).0 in
        let (none_later, kept, still) =
          evaluate-other n f now jobs (if b then guards else guards) others in
        let fired = fired_same b n (evaluate f now jobs (if b then guards else guards)).0 in
        (omega (arith, fired, none_later), inl (refl, still))
evaluate-Waited n d next f now (j ∷ jobs) guards (inr (other, later)) =
    let b : Bool = (due f now guards j.name j.timing j.next).0 in
    let marked : Guards = if b then mark_fired f now j.name j.timing guards else guards in
    let (fired, still) = evaluate-Waited n d next f now jobs marked later in
    (fired_other b j.name n (evaluate f now jobs marked).0 other ∙ fired, inr (other, still))

mul_next : (t d : ℕ) → (1 + t) * d ≡ d + t * d
mul_next t d = omega arith

abbrev told : ℕ → ℕ → Bool → Bool × Option ℕ
told next later early = if early then (false, some next) else (true, some later)

-- From a deadline on, each run moves the deadline by the interval at least.
run-deadline :
    (n : Text) (d lo hi next : ℕ) (events : List Event) (jobs : List Job) (guards : Guards)
    → WaitsFor n d (some next) jobs
    → All (IsWithin lo hi) events
    → next ≤ hi + d
    → times n (run events jobs guards) * d + next ≤ hi + d
unfolding run times due_interval
run-deadline n d lo hi next [] jobs guards waits within bound = omega (arith, bound)
run-deadline n d lo hi next (restart registered ∷ events) jobs guards waits (none_such, within)
      bound =
    elim none_such [ ]
run-deadline n d lo hi next (tick f now ∷ events) jobs guards waits ((from, to), within) bound =
    let e : List Text × (List Job × Guards) = evaluate f now jobs guards in
    let (fired, still) = evaluate-Waited n d (some next) f now jobs guards waits in
    let both = times-append n e.0 (run events e.1.0 e.1.1) in
    by_deadline (times n e.0) (times n (run events e.1.0 e.1.1)) _ both
      (elim (Bool-cases (ltb now next)) [
        | inl early ↦
            let fired_none : times n e.0 ≡ 0 =
              fired ∙ ap (λ (b : Bool). tally (told next (now + d) b).0) early in
            let waiting =
              subst (λ (b : Bool). WaitsFor n d (told next (now + d) b).1 e.1.0) early still in
            inl (fired_none, run-deadline n d lo hi next events e.1.0 e.1.1 waiting within bound)
        | inr reached ↦
            let fired_once : times n e.0 ≡ 1 =
              fired ∙ ap (λ (b : Bool). tally (told next (now + d) b).0) reached in
            let waiting =
              subst (λ (b : Bool). WaitsFor n d (told next (now + d) b).1 e.1.0) reached still in
            inr (
              fired_once,
              ground arith,
              run-deadline n d lo hi (now + d) events e.1.0 e.1.1 waiting within
                  (omega (arith, to)),
            )
      ])
  where
    by_deadline :
        (one later all : ℕ)
        → all ≡ one + later
        → (((one ≡ 0) × (later * d + next ≤ hi + d))
            ⊎ ((one ≡ 1) × (next ≤ now) × (later * d + (now + d) ≤ hi + d)))
        → all * d + next ≤ hi + d
    by_deadline one later all sum (inl (zero, h)) =
        let same : all ≡ later = omega (arith, sum, zero) in
        subst (λ k. k * d + next ≤ hi + d) (sym same) h
    by_deadline one later all sum (inr (first, reached, h)) =
        let more : all ≡ 1 + later = omega (arith, sum, first) in
        subst (λ k. k * d + next ≤ hi + d) (sym more) (omega (arith, mul_next later d, reached, h))

-- If all ticks of a process, from its first, come between two instants, then a job of Interval that is
-- registered under a name of its own is run by them no more often than its interval fits between the
-- two, whatever the order of the ticks.
pub run-spaced :
    (n : Text) (d lo hi : ℕ) (events : List Event) (jobs : List Job) (guards : Guards)
    → WaitsFor n d none jobs
    → All (IsWithin lo hi) events
    → lo ≤ hi
    → lo + times n (run events jobs guards) * d ≤ hi
unfolding run times due_interval
run-spaced n d lo hi [] jobs guards waits within ordered = omega (arith, ordered)
run-spaced n d lo hi (restart registered ∷ events) jobs guards waits (none_such, within) ordered =
    elim none_such [ ]
run-spaced n d lo hi (tick f now ∷ events) jobs guards waits ((from, to), within) ordered =
    let e : List Text × (List Job × Guards) = evaluate f now jobs guards in
    let (fired, still) = evaluate-Waited n d none f now jobs guards waits in
    let later =
      run-deadline n d lo hi (now + d) events e.1.0 e.1.1 still within (omega (arith, to)) in
    let all : times n (e.0 ++ run events e.1.0 e.1.1) ≡ times n (run events e.1.0 e.1.1) =
      omega (arith, times-append n e.0 (run events e.1.0 e.1.1), fired) in
    subst (λ k. lo + k * d ≤ hi) (sym all) (omega (arith, later, from))
