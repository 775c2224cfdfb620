-- ===== src/Scheduler/Exact.antt =====
-- A job of scheduler/scheduler.go that runs once, or once a day, is run exactly once.
use mathlib.Core.Path.{subst}
use zcoms_agent.Prelude.{
  ℕ, ◌+◌, Bool, true, false, not, List, [], ◌∷◌, ◌++◌, leb, Option, if◌then◌else◌, ◌≡◌, ◌≢◌, refl,
  ap, ◌∙◌, arith, All, ◌⊎◌, inl, inr, ◌&&◌, ◌||◌, if-either,
}
use zcoms_agent.Prelude.Text.{Text, codes, text_eq, text_eq_refl, text_eq_iff}
use zcoms_agent.Scheduler.{
  Timing, interval, daily_at, once, Job, Guards, Faults, lookup, get, set, due, mark_fired,
  evaluate, Event, tick, restart, run, due_daily, due_once,
}

-- How often a name stands in a list.
unfoldable pub times : Text → List Text → ℕ
times n [] = 0
times n (m ∷ l) = (if text_eq m n then 1 else 0) + times n l

-- The job has run: ever, or on the day.
abbrev pub spent : Timing → Text → Text → Bool
spent (interval d) day guard = false
spent (daily_at z hour min) day guard = text_eq guard day
spent (once at) day guard = not (text_eq guard (codes ""))

-- The time of the job is reached.
abbrev pub reached : Timing → ℕ → Bool
reached (interval d) now = false
reached (daily_at z hour min) now = leb (z.target now hour min) now
reached (once at) now = leb at now

-- The guard works: not of an interval, and of a daily job on one day only.
abbrev pub OnDay : Timing → Text → ℕ → Type 0
OnDay (interval d) day now = ⊥
OnDay (daily_at z hour min) day now = z.date_key now ≡ day
OnDay (once at) day now = Unit

-- Exactly one of the jobs has the name, and it has the timing.
abbrev pub Registered : Text → Timing → List Job → Type 0
Registered n t [] = ⊥
Registered n t (j ∷ jobs) =
    ((j.name ≡ n) × (j.timing ≡ t) × All (λ k. k.name ≢ n) jobs)
    ⊎ ((j.name ≢ n) × Registered n t jobs)

-- The store works, the ticks are on the day, and every process registers the job.
abbrev pub IsRegular : Text → Timing → Text → Event → Type 0
IsRegular n t day (tick f now) = (f.gets ≡ false) × (f.sets ≡ false) × OnDay t day now
IsRegular n t day (restart jobs) = Registered n t jobs

unfoldable pub ever_reached : Timing → List Event → Bool
ever_reached t [] = false
ever_reached t (tick f now ∷ events) = reached t now || ever_reached t events
ever_reached t (restart jobs ∷ events) = ever_reached t events

pub times-append : (n : Text) (xs ys : List Text) → times n (xs ++ ys) ≡ times n xs + times n ys
unfolding times
times-append n [] ys = omega arith
times-append n (x ∷ xs) ys = omega (arith, times-append n xs ys)

-- A job that is due, as its guard and its time say.
due-spent :
    (f : Faults) (now : ℕ) (guards : Guards) (n : Text) (t : Timing) (day : Text) (next : Option ℕ)
    → f.gets ≡ false
    → OnDay t day now
    → (due f now guards n t next).0 ≡ not (spent t day (lookup n guards)) && reached t now
unfolding due get due_daily due_once
due-spent f now guards n (interval d) day next works on = elim on [ ]
due-spent f now guards n (daily_at z hour min) day next works on =
    rw works (rw on (either (text_eq (lookup n guards) day)))
  where
    either :
        (b : Bool)
        → (if b then false else leb (z.target now hour min) now)
          ≡ not b && leb (z.target now hour min) now
    either true = refl
    either false = refl
due-spent f now guards n (once at) day next works on =
    rw works (either (text_eq (lookup n guards) (codes "")))
  where
    either : (b : Bool) → (if not b then false else leb at now) ≡ not (not b) && leb at now
    either true = refl
    either false = refl

lookup_same : (n v : Text) (guards : Guards) → lookup n ((n, v) ∷ guards) ≡ v
unfolding lookup
lookup_same n v guards = rw (text_eq_refl n) refl

mark_fired-spent :
    (f : Faults) (now : ℕ) (guards : Guards) (n : Text) (t : Timing) (day : Text)
    → f.sets ≡ false
    → OnDay t day now
    → spent t day (lookup n (mark_fired f now n t guards)) ≡ true
unfolding mark_fired set text_eq
mark_fired-spent f now guards n (interval d) day works on = elim on [ ]
mark_fired-spent f now guards n (daily_at z hour min) day works on =
    rw works (rw (lookup_same n (z.date_key now) guards) (rw on (text_eq_refl day)))
mark_fired-spent f now guards n (once at) day works on =
    rw works (rw (lookup_same n (codes "done") guards) refl)

text_neq : (s t : Text) → s ≢ t → text_eq s t ≡ false
text_neq s t h = ground (arith, text_eq_iff s t)

mark_fired-other :
    (f : Faults) (now : ℕ) (guards : Guards) (m n : Text) (t : Timing)
    → m ≢ n
    → lookup n (mark_fired f now m t guards) ≡ lookup n guards
unfolding mark_fired set lookup
mark_fired-other f now guards m n (interval d) h = refl
mark_fired-other f now guards m n (daily_at z hour min) h =
    if-either (λ g. lookup n g ≡ lookup n guards) f.sets guards ((m, z.date_key now) ∷ guards)
      (λ _. refl) (λ _. rw (text_neq m n h) refl)
mark_fired-other f now guards m n (once at) h =
    if-either (λ g. lookup n g ≡ lookup n guards) f.sets guards ((m, codes "done") ∷ guards)
      (λ _. refl) (λ _. rw (text_neq m n h) refl)

abbrev one_if : Bool → ℕ
one_if b = if b then 1 else 0

abbrev pub tally : Bool → ℕ
tally true = 1
tally false = 0

pub fired_other :
    (d : Bool) (m n : Text) (l : List Text)
    → m ≢ n
    → times n ((if d then m ∷ [] else []) ++ l) ≡ times n l
unfolding times
fired_other true m n l h = omega (arith, ap one_if (text_neq m n h))
fired_other false m n l h = refl

pub fired_same :
    (d : Bool) (n : Text) (l : List Text)
    → times n ((if d then n ∷ [] else []) ++ l) ≡ tally d + times n l
unfolding times
fired_same true n l = omega (arith, ap one_if (text_eq_refl n))
fired_same false n l = omega arith

marked_other :
    (d : Bool) (f : Faults) (now : ℕ) (guards : Guards) (m n : Text) (t : Timing)
    → m ≢ n
    → lookup n (if d then mark_fired f now m t guards else guards) ≡ lookup n guards
marked_other true f now guards m n t h = mark_fired-other f now guards m n t h
marked_other false f now guards m n t h = refl

pub evaluate-other :
    (n : Text) (f : Faults) (now : ℕ) (jobs : List Job) (guards : Guards)
    → All (λ j. j.name ≢ n) jobs
    → (times n (evaluate f now jobs guards).0 ≡ 0)
      × (lookup n (evaluate f now jobs guards).1.1 ≡ lookup n guards)
      × All (λ j. j.name ≢ n) (evaluate f now jobs guards).1.0
unfolding evaluate times
evaluate-other n f now [] guards h = (refl, refl, tt)
evaluate-other n f now (j ∷ jobs) guards (h, hs) =
    let d : Bool = (due f now guards j.name j.timing j.next).0 in
    let marked : Guards = if d then mark_fired f now j.name j.timing guards else guards in
    let (none_later, kept, others) = evaluate-other n f now jobs marked hs in
    (
      fired_other d j.name n (evaluate f now jobs marked).0 h ∙ none_later,
      kept ∙ marked_other d f now guards j.name n j.timing h,
      (h, others),
    )

-- What one tick does for the job.
abbrev Ticked : Text → Timing → Text → ℕ → Guards → List Text × (List Job × Guards) → Type 0
Ticked n t day now guards e =
    (times n e.0 ≡ tally (not (spent t day (lookup n guards)) && reached t now))
    × (spent t day (lookup n e.1.1) ≡ (spent t day (lookup n guards) || reached t now))
    × Registered n t e.1.0

marked_same :
    (d : Bool) (f : Faults) (now : ℕ) (guards : Guards) (n : Text) (t : Timing) (day : Text)
    → f.sets ≡ false
    → OnDay t day now
    → d ≡ not (spent t day (lookup n guards)) && reached t now
    → spent t day (lookup n (if d then mark_fired f now n t guards else guards))
      ≡ (spent t day (lookup n guards) || reached t now)
marked_same true f now guards n t day works on h =
    let done = mark_fired-spent f now guards n t day works on in ground (arith, done, h)
marked_same false f now guards n t day works on h = ground (arith, h)

head-Ticked :
    (day : Text) (f : Faults) (now : ℕ) (j : Job) (jobs : List Job) (guards : Guards)
    → f.gets ≡ false
    → f.sets ≡ false
    → OnDay j.timing day now
    → All (λ k. k.name ≢ j.name) jobs
    → Ticked j.name j.timing day now guards (evaluate f now (j ∷ jobs) guards)
unfolding evaluate
head-Ticked day f now j jobs guards gets sets on others =
    let d : Bool = (due f now guards j.name j.timing j.next).0 in
    let marked : Guards = if d then mark_fired f now j.name j.timing guards else guards in
    let (none_later, kept, still) = evaluate-other j.name f now jobs marked others in
    let is_due = due-spent f now guards j.name j.timing day j.next gets on in
    let fired = fired_same d j.name (evaluate f now jobs marked).0 in
    (
      omega (arith, fired, none_later, ap tally is_due),
      ap (spent j.timing day) kept ∙ marked_same d f now guards j.name j.timing day sets on is_due,
      inl (refl, refl, still),
    )

evaluate-Ticked :
    (n : Text) (t : Timing) (day : Text) (f : Faults) (now : ℕ) (jobs : List Job) (guards : Guards)
    → f.gets ≡ false
    → f.sets ≡ false
    → OnDay t day now
    → Registered n t jobs
    → Ticked n t day now guards (evaluate f now jobs guards)
unfolding evaluate
evaluate-Ticked n t day f now [] guards gets sets on registered = elim registered [ ]
evaluate-Ticked n t day f now (j ∷ jobs) guards gets sets on (inl (named, timed, others)) =
    let e = evaluate f now (j ∷ jobs) guards in
    let at_name =
      subst
        (λ m.
          All (λ k. k.name ≢ m) jobs → OnDay j.timing day now → Ticked m j.timing day now guards e)
        named (λ away on_day. head-Ticked day f now j jobs guards gets sets on_day away) in
    subst (λ u. OnDay u day now → Ticked n u day now guards e) timed (at_name others) on
evaluate-Ticked n t day f now (j ∷ jobs) guards gets sets on (inr (other, later)) =
    let d : Bool = (due f now guards j.name j.timing j.next).0 in
    let marked : Guards = if d then mark_fired f now j.name j.timing guards else guards in
    let (fired, guarded, still) = evaluate-Ticked n t day f now jobs marked gets sets on later in
    let same = marked_other d f now guards j.name n j.timing other in
    let fired_here = fired_other d j.name n (evaluate f now jobs marked).0 other in
    (
      fired_here ∙ fired ∙ ap (λ g. tally (not (spent t day g) && reached t now)) same,
      guarded ∙ ap (λ g. spent t day g || reached t now) same,
      inr (other, still),
    )

-- In any sequence of ticks and of restarts of the process in which the store works and the job is
-- registered under a name of its own, a job of DailyAt on one day, or one of Once, is run exactly once
-- if some tick comes at or after its time and it has not run before, and not at all otherwise.
pub run-exactly_once :
    (n : Text) (t : Timing) (day : Text) (events : List Event) (jobs : List Job) (guards : Guards)
    → All (IsRegular n t day) events
    → Registered n t jobs
    → times n (run events jobs guards)
      ≡ tally (not (spent t day (lookup n guards)) && ever_reached t events)
unfolding run times ever_reached
run-exactly_once n t day [] jobs guards regular registered =
    ap tally (never (not (spent t day (lookup n guards))))
  where
    never : (b : Bool) → false ≡ b && false
    never true = refl
    never false = refl
run-exactly_once n t day (tick f now ∷ events) jobs guards ((gets, sets, on), regular) registered =
    let (fired, guarded, still) =
      evaluate-Ticked n t day f now jobs guards gets sets on registered in
    let e : List Text × (List Job × Guards) = evaluate f now jobs guards in
    let later = run-exactly_once n t day events e.1.0 e.1.1 regular still in
    times-append n e.0 (run events e.1.0 e.1.1)
    ∙ two_parts (spent t day (lookup n guards)) (reached t now) (ever_reached t events) fired
        (later ∙ ap (λ b. tally (not b && ever_reached t events)) guarded)
  where
    two_parts :
        (b r s : Bool) {x y : ℕ}
        → x ≡ tally (not b && r)
        → y ≡ tally (not (b || r) && s)
        → x + y ≡ tally (not b && (r || s))
    two_parts true r s h k = omega (arith, h, k)
    two_parts false true s h k = omega (arith, h, k)
    two_parts false false s h k = omega (arith, h, k)
run-exactly_once n t day (restart registering ∷ events) jobs guards (again, regular) registered =
    run-exactly_once n t day events registering guards regular again
