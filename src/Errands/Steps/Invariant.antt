-- ===== src/Errands/Steps/Invariant.antt =====
-- One errand of internal/errands in any order of events: its loop, its producer and its contact.
use zcoms_agent.Prelude.{
  ◌≤◌, Bool, true, false, not, List, [], ◌∷◌, ◌++◌, Option, none, some, ◌≡◌, refl, ◌∙◌, sym, arith,
  if-either, ◌&&◌, Bool-cases, inl, inr,
}
use mathlib.Core.Path.{subst}
use zcoms_agent.Prelude.Text.{Text, codes, text_eq, trim_space}
use zcoms_agent.Errands.Errand.{
  Errand, Status, pending_approval, active, cancelled, begin, approval, reply, revise,
  is_interviewing, is_active, is_pending, mark_seen,
}
use zcoms_agent.Errands.Task.{
  Flight, at_rest, asking, making, Machine, Task, emit, save_errand, set_errand, set_errand_status,
  ensure_interview_file, sync_claims, mark_read, is_wa,
}
use zcoms_agent.Errands.Drive.{
  drive_errand_async, kick_errand, approve_errand, feed_errand, cancel_errand, revise_errand_plan,
  feed, fed, mark, max_worker_turns,
}
use zcoms_agent.Errands.Drive.Frame.{
  producer_runs, Silent, save_errand-Silent, set_errand-Silent, Silent-trans, Silent-refl,
  emit-Silent,
}
use zcoms_agent.Errands.Drive.Parts.{ensure_interview_file-Silent}
use zcoms_agent.Errands.Drive.Turns.{Moves, Moves-before, set_errand_status-Moves}
use zcoms_agent.Errands.Drive.Sound.{SoundAt, Sound}
use zcoms_agent.Errands.Drive.Answers.{
  Steady-Sound, Moves-Sound, answer-Sound, drive_errand_async-Sound,
}
use zcoms_agent.Errands.Steps.{
  Event, approve, reject, edit, cancel, message, answered, step, or_same, opening, new_task, opened,
  Reaches, started, later,
}

Silent-Sound : (t u : Task) → Silent t u → Sound t → Sound u
Silent-Sound t u h s = Steady-Sound t u h.steady s

pending-interviewing : (e : Errand) → is_pending e ≡ true → is_interviewing e ≡ true
unfolding is_interviewing
pending-interviewing e h = by_status e.status h
  where
    by_status :
        (s : Status)
        → is_pending (record e { status = s }) ≡ true
        → is_interviewing (record e { status = s }) ≡ true
    by_status pending_approval k = refl
    by_status active k = refl
    by_status Status.producing k = k
    by_status Status.done k = k
    by_status cancelled k = k
    by_status Status.failed k = k

-- A new status of an errand that talks to its contact, and so has no turn of the producer.
talking-Sound :
    (s : Status) (t u : Task) → Moves s t u → is_interviewing t.errand ≡ true → Sound t → Sound u
talking-Sound s t u h talks k = subst (λ f. SoundAt f u) (sym h.flight) (by_flight t.flight k)
  where
    by_flight : (f : Flight) → SoundAt f t → SoundAt f u
    by_flight at_rest k =
        let idle = k.2 talks in
        (h.busy ∙ k.0, omega (arith, h.runs, k.1), λ _. (h.pending ∙ idle.0, h.runs ∙ idle.1))
    by_flight (asking n) k = (h.busy ∙ k.0, k.1, h.runs ∙ k.2)
    by_flight (making n) k = absurd (ground (arith, k.3, talks))

approve-Sound :
    (m : Machine) (tweak : Text) (t : Task)
    → is_pending t.errand ≡ true
    → Sound t
    → Sound (approve_errand m tweak t)
unfolding approve_errand is_interviewing
approve-Sound m tweak t waits s =
    let set : Moves active t (ensure_interview_file m (set_errand_status active t)) =
      Moves-before (set_errand_status-Moves active t) (ensure_interview_file-Silent m _) in
    drive_errand_async-Sound m _ (ensure_interview_file m (set_errand_status active t))
      (talking-Sound active t _ set (pending-interviewing t.errand waits) s)
      (ground (arith, set.status))

pub cancel_errand-Moves : (t : Task) → Moves cancelled t (cancel_errand t)
unfolding cancel_errand set_errand_status
cancel_errand-Moves t = set_errand_status-Moves cancelled t

pub mark-Silent : (id : Text) (t : Task) → Silent t (mark id t).0
unfolding mark_seen
mark-Silent id t =
    let u : Task = set_errand (λ e. (mark_seen id e).0) t in
    Silent-trans
      (set_errand-Silent (λ e. (mark_seen id e).0) t (ground arith) (ground arith) (ground arith)
        (ground arith))
      (if-either (Silent u) (is_wa u.errand && not (text_eq id (codes ""))) (emit (mark_read id) u)
        u (λ _. emit-Silent (mark_read id) u refl refl refl) (λ _. Silent-refl u))

pub heard-Silent :
    (text : Text) (t : Task)
    → Silent t (
        set_errand
          (λ e. record e { transcript = e.transcript ++ (codes "A: " ++ text) ∷ [] })
          (save_errand t))
heard-Silent text t = Silent-trans (save_errand-Silent t) (
    set_errand-Silent (λ e. record e { transcript = e.transcript ++ (codes "A: " ++ text) ∷ [] })
      (save_errand t) refl refl refl refl)

fed-Sound :
    (m : Machine) (text media : Text) (t : Task) (fresh : Bool)
    → Sound t
    → Sound (fed m text media t fresh)
unfolding feed_errand is_interviewing
fed-Sound m text media t fresh s =
    if-either Sound (fresh && is_interviewing t.errand) (feed_errand m text media (save_errand t)) t
      (λ talks.
        drive_errand_async-Sound m (reply text media) _ (Silent-Sound t _ (heard-Silent text t) s)
          (ground (arith, talks, (heard-Silent text t).steady.status)))
      (λ _. s)

feed-Sound :
    (m : Machine) (id text media : Text) (t : Task)
    → Sound t
    → Sound (or_same t (feed m id text media t))
unfolding feed
feed-Sound m id text media t s =
    if-either (λ (o : Option Task). Sound (or_same t o)) (is_active t.errand)
      (some (fed m text media (mark id t).0 (mark id t).1)) none
      (λ _.
        fed-Sound m text media (mark id t).0 (mark id t).1
          (Silent-Sound t (mark id t).0 (mark-Silent id t) s))
      (λ _. s)

step-Sound : (m : Machine) (event : Event) (t : Task) → Sound t → Sound (step m event t)
unfolding step revise_errand_plan is_interviewing
step-Sound m (approve tweak) t s =
    if-either Sound (is_pending t.errand) (approve_errand m tweak t) t
      (λ waits. approve-Sound m tweak t waits s) (λ _. s)
step-Sound m reject t s =
    let k = set_errand_status-Moves cancelled t in
    if-either Sound (is_pending t.errand) (set_errand_status cancelled t) t
      (λ _. Moves-Sound cancelled t _ k (ground (arith, k.status)) s) (λ _. s)
step-Sound m (edit changes) t s =
    if-either Sound (is_pending t.errand) (revise_errand_plan m changes t) t
      (λ waits.
        drive_errand_async-Sound m (revise (trim_space changes)) t s
          (pending-interviewing t.errand waits))
      (λ _. s)
step-Sound m cancel t s =
    let k = cancel_errand-Moves t in
    Moves-Sound cancelled t (cancel_errand t) k (ground (arith, k.status)) s
step-Sound m (message id text media) t s = feed-Sound m id text media t s
step-Sound m (answered a) t s = answer-Sound m a t s

opening-talks : (e : Errand) → e.status ≡ opening e.auto_start → is_interviewing e ≡ true
unfolding is_interviewing
opening-talks e h = elim (Bool-cases e.auto_start) [
  | inl on ↦ ground (arith, on)
  | inr off ↦ ground (arith, off)
]

pub opened-Silent : (e : Errand) (faults : List Bool) → Silent (new_task e faults) (opened e faults)
opened-Silent e faults = Silent-trans (save_errand-Silent (new_task e faults)) (
    Silent-trans (save_errand-Silent (save_errand (new_task e faults)))
      (emit-Silent sync_claims _ refl refl refl))

opened-talks :
    (e : Errand) (faults : List Bool)
    → e.status ≡ opening e.auto_start
    → is_interviewing (opened e faults).errand ≡ true
unfolding emit save_errand
opened-talks e faults opens = opening-talks e opens

kick-Sound :
    (m : Machine) (t : Task) → Sound t → is_interviewing t.errand ≡ true → Sound (kick_errand m t)
unfolding kick_errand is_interviewing
kick-Sound m t s talks =
    let file = ensure_interview_file-Silent m t in
    if-either Sound t.errand.auto_start (drive_errand_async m begin (ensure_interview_file m t)) _
      (λ _.
        drive_errand_async-Sound m begin (ensure_interview_file m t) (Silent-Sound t _ file s)
          (ground (arith, file.steady.status, talks)))
      (λ _. drive_errand_async-Sound m approval t s talks)

new_task-Sound :
    (e : Errand) (faults : List Bool) → e.busy ≡ false → e.pending ≡ [] → Sound (new_task e faults)
unfolding producer_runs is_interviewing
new_task-Sound e faults idle empty = (idle, omega arith, λ _. (empty, refl))

with_faults : (t : Task) (l : List Bool) → Sound t → Sound (record t { faults = l })
unfolding is_interviewing
with_faults t l s = by_flight t.flight s
  where
    by_flight : (f : Flight) → SoundAt f t → SoundAt f (record t { faults = l })
    by_flight at_rest k = k
    by_flight (asking n) k = k
    by_flight (making n) k = k

pub Reaches-Sound : (t : Task) → Reaches t → Sound t
Reaches-Sound _ (started m e faults opens idle empty) =
    let h = opened-Silent e faults in
    kick-Sound m (opened e faults)
      (Silent-Sound (new_task e faults) (opened e faults) h (new_task-Sound e faults idle empty))
      (opened-talks e faults opens)
Reaches-Sound _ (later m event t faults h) =
    step-Sound m event (record t { faults = faults }) (with_faults t faults (Reaches-Sound t h))

abbrev pub in_flight : Flight → Bool
in_flight at_rest = false
in_flight (asking n) = true
in_flight (making n) = true

-- In whatever order the owner, the contact and the ends of the turns act on a started errand, it is
-- busy exactly when one of its turns is in flight, and while it is at rest and its interviewer is
-- the one to answer, no reply of the contact is left in its buffer.
pub Reaches-unstranded :
    (t : Task)
    → Reaches t
    → t.errand.busy ≡ in_flight t.flight
      × (t.errand.busy ≡ false → is_interviewing t.errand ≡ true → t.errand.pending ≡ [])
Reaches-unstranded t h = by_flight t.flight (Reaches-Sound t h)
  where
    by_flight :
        (f : Flight)
        → SoundAt f t
        → t.errand.busy ≡ in_flight f
          × (t.errand.busy ≡ false → is_interviewing t.errand ≡ true → t.errand.pending ≡ [])
    by_flight at_rest k = (k.0, λ _ talks. (k.2 talks).0)
    by_flight (asking n) k = (k.0, λ e. absurd (ground (arith, k.0)))
    by_flight (making n) k = (k.0, λ e. absurd (ground (arith, k.0)))

-- However often a started errand is driven, its producer is called four times at most, and never
-- while the interviewer is the one to answer.
pub Reaches-producer_runs :
    (t : Task)
    → Reaches t
    → producer_runs t.effects ≤ max_worker_turns
      × (is_interviewing t.errand ≡ true → producer_runs t.effects ≡ 0)
Reaches-producer_runs t h = by_flight t.flight (Reaches-Sound t h)
  where
    by_flight :
        (f : Flight)
        → SoundAt f t
        → producer_runs t.effects ≤ max_worker_turns
          × (is_interviewing t.errand ≡ true → producer_runs t.effects ≡ 0)
    by_flight at_rest k = (k.1, λ talks. (k.2 talks).1)
    by_flight (asking n) k = (omega (arith, k.2), λ _. k.2)
    by_flight (making n) k = (omega (arith, k.1, k.2), λ talks. absurd (ground (arith, k.3, talks)))
