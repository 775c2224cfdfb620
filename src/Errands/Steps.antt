-- ===== src/Errands/Steps.antt =====
-- internal/errands as the steps of one errand: what the owner says of it, what the contact writes, and
-- the ends of the agents' turns, in any order.
pub mod Invariant
pub mod Contact
pub mod Messages
pub mod Over
use zcoms_agent.Prelude.{Bool, true, false, List, [], ◌∷◌, Option, none, some, ◌≡◌, if◌then◌else◌}
use zcoms_agent.Prelude.Text.{Text, codes}
use zcoms_agent.Errands.Errand.{Errand, Status, pending_approval, active, cancelled, is_pending}
use zcoms_agent.Errands.Task.{
  at_rest, sync_claims, Machine, Task, emit, save_errand, set_errand_status,
}
use zcoms_agent.Errands.Interview.{AgentResult}
use zcoms_agent.Errands.Drive.{
  answer, kick_errand, approve_errand, cancel_errand, revise_errand_plan, feed,
}

pub data Event : Type 0 where
  -- errand yes, errand no, errand edit, errand cancel
  approve : Text → Event
  reject : Event
  edit : Text → Event
  cancel : Event
  -- a message of the contact: its id, its text and its file
  message : Text → Text → Text → Event
  -- RunAgent returns
  answered : AgentResult → Event

abbrev pub or_same : Task → Option Task → Task
or_same t none = t
or_same t (some u) = u

-- The handlers find an errand by pendingErrand, which gives one that waits for approval.
unfoldable pub step : Machine → Event → Task → Task
unfolding approve_errand set_errand_status revise_errand_plan cancel_errand feed answer
step m (approve tweak) t = if is_pending t.errand then approve_errand m tweak t else t
step m reject t = if is_pending t.errand then set_errand_status cancelled t else t
step m (edit changes) t = if is_pending t.errand then revise_errand_plan m changes t else t
step m cancel t = cancel_errand t
step m (message id text media) t = or_same t (feed m id text media t)
step m (answered a) t = answer m a t

-- startErrand's errand: it waits for approval, or starts at once.
abbrev pub opening : Bool → Status
opening auto_start = if auto_start then active else pending_approval

abbrev pub new_task : Errand → List Bool → Task
new_task e faults = record {
  errand = e;
  flight = at_rest;
  file = codes "";
  faults = faults;
  effects = [];
}

-- The task of an errand that startErrand has saved and claimed.
abbrev pub opened : Errand → List Bool → Task
opened e faults = emit sync_claims (save_errand (save_errand (new_task e faults)))

-- The tasks that a started errand reaches. Before each step the outcomes of the attempts to come
-- are anew.
pub data Reaches : Task → Type 0 where
  started :
      (m : Machine) (e : Errand) (faults : List Bool)
      → e.status ≡ opening e.auto_start
      → e.busy ≡ false
      → e.pending ≡ []
      → Reaches (kick_errand m (opened e faults))
  later :
      (m : Machine) (event : Event) (t : Task) (faults : List Bool)
      → Reaches t
      → Reaches (step m event (record t { faults = faults }))
