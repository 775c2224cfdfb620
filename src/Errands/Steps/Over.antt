-- ===== src/Errands/Steps/Over.antt =====
-- An errand of internal/errands that is over.
use zcoms_agent.Prelude.{
  Bool, false, List, Option, some, none, ◌≡◌, refl, sym, ◌∙◌, arith, if-either, if◌then◌else◌,
}
use mathlib.Core.Path.{subst}
use zcoms_agent.Errands.Errand.{Errand, cancelled, is_pending, is_active}
use zcoms_agent.Errands.Task.{Flight, at_rest, asking, making, Machine, Task, set_errand_status}
use zcoms_agent.Errands.Drive.{
  approve_errand, revise_errand_plan, cancel_errand, feed, answer, answer_in, fed, mark,
}
use zcoms_agent.Errands.Drive.Frame.{producer_runs, messages, files}
use zcoms_agent.Errands.Drive.Turns.{Moves}
use zcoms_agent.Errands.Drive.Sound.{Sound, SoundAt}
use zcoms_agent.Errands.Steps.{
  Event, approve, reject, edit, cancel, message, answered, step, or_same, Reaches,
}
use zcoms_agent.Errands.Steps.Invariant.{Reaches-Sound, cancel_errand-Moves}

-- What later events make of a task.
pub data Follows (t : Task) : Task → Type 0 where
  here : Follows t t
  next :
      (m : Machine) (event : Event) (u : Task) (faults : List Bool)
      → Follows t u
      → Follows t (step m event (record u { faults = faults }))

-- The errand is over as it was: at rest, and with nothing more for its contact or of its producer.
pub record StaysOver (t u : Task) : Type 0 where
  pub over : is_active u.errand ≡ false
  pub rests : u.flight ≡ at_rest
  pub messages : messages u.effects ≡ messages t.effects
  pub files : files u.effects ≡ files t.effects
  pub runs : producer_runs u.effects ≡ producer_runs t.effects

not_pending : (e : Errand) → is_active e ≡ false → is_pending e ≡ false
unfolding is_active
not_pending e over = ground arith

same_if :
    (t u v : Task)
    → is_active u.errand ≡ false
    → StaysOver t u
    → StaysOver t (if is_pending u.errand then v else u)
same_if t u v over h = rw (not_pending u.errand over) h

step-StaysOver :
    (m : Machine) (event : Event) (t u : Task) → StaysOver t u → StaysOver t (step m event u)
unfolding step feed answer is_active
step-StaysOver m (approve tweak) t u h = same_if t u (approve_errand m tweak u) h.over h
step-StaysOver m reject t u h = same_if t u (set_errand_status cancelled u) h.over h
step-StaysOver m (edit changes) t u h = same_if t u (revise_errand_plan m changes u) h.over h
step-StaysOver m cancel t u h =
    let k : Moves cancelled u (cancel_errand u) = cancel_errand-Moves u in
    record {
      over = ground (arith, k.status);
      rests = k.flight ∙ h.rests;
      messages = k.messages ∙ h.messages;
      files = k.files ∙ h.files;
      runs = k.runs ∙ h.runs;
    }
step-StaysOver m (message id text media) t u h =
    if-either (λ (o : Option Task). StaysOver t (or_same u o)) (is_active u.errand)
      (some (fed m text media (mark id u).0 (mark id u).1)) none
      (λ on. absurd (ground (arith, h.over, on))) (λ _. h)
step-StaysOver m (answered a) t u h =
    subst (λ (f : Flight). StaysOver t (answer_in m a f u)) (sym h.rests) h

at_rest_of : (t : Task) → Sound t → t.errand.busy ≡ false → t.flight ≡ at_rest
at_rest_of t s idle = cases t.flight s
  where
    cases : (f : Flight) → SoundAt f t → f ≡ at_rest
    cases at_rest k = refl
    cases (asking n) k = absurd (ground (arith, k.0))
    cases (making n) k = absurd (ground (arith, k.0))

-- Once a started errand is done, cancelled or failed and no turn of it is in flight, it stays over
-- whatever the owner and the contact do: the contact gets nothing more and no turn is started.
pub Follows-StaysOver :
    (t u : Task)
    → Reaches t
    → is_active t.errand ≡ false
    → t.errand.busy ≡ false
    → Follows t u
    → StaysOver t u
Follows-StaysOver t _ reached over idle here = record {
  over = over;
  rests = at_rest_of t (Reaches-Sound t reached) idle;
  messages = refl;
  files = refl;
  runs = refl;
}
Follows-StaysOver t _ reached over idle (next m event u faults h) =
    let k : StaysOver t u = Follows-StaysOver t u reached over idle h in
    step-StaysOver m event t (record u { faults = faults })
      (record {
        over = k.over;
        rests = k.rests;
        messages = k.messages;
        files = k.files;
        runs = k.runs;
      })
