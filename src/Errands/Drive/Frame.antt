-- ===== src/Errands/Drive/Frame.antt =====
-- What the parts of a turn of internal/errands leave as it is: the status of the errand, the buffer of
-- prompts, the calls of the producer, and what the contact has got.
use zcoms_agent.Prelude.{
  ℕ, ◌+◌, List, [], ◌∷◌, ◌++◌, ◌≡◌, refl, ◌∙◌, sym, arith, append_empty, append_assoc,
}
use zcoms_agent.Prelude.Text.{Text}
use zcoms_agent.Errands.Errand.{Errand}
use zcoms_agent.Errands.Task.{
  OwnerMessage, interviewer, producer, Effect, to_owner, to_contact, file_to_owner, file_to_contact,
  write_file, save, sync_claims, mark_read, run, Task, emit, tell, save_errand, set_errand, Agent,
}

abbrev pub producer_call : Agent → ℕ
producer_call interviewer = 0
producer_call producer = 1

abbrev pub producer_runs_of : Effect → ℕ
producer_runs_of (run c) = producer_call c.agent
producer_runs_of (to_owner m) = 0
producer_runs_of (to_contact s) = 0
producer_runs_of (file_to_owner p c) = 0
producer_runs_of (file_to_contact p c) = 0
producer_runs_of (write_file p c) = 0
producer_runs_of (save e) = 0
producer_runs_of sync_claims = 0
producer_runs_of (mark_read id) = 0

-- How often the producer has been called.
unfoldable pub producer_runs : List Effect → ℕ
producer_runs [] = 0
producer_runs (e ∷ effects) = producer_runs_of e + producer_runs effects

abbrev pub message_of : Effect → List Text
message_of (to_contact s) = s ∷ []
message_of (to_owner m) = []
message_of (run c) = []
message_of (file_to_owner p c) = []
message_of (file_to_contact p c) = []
message_of (write_file p c) = []
message_of (save e) = []
message_of sync_claims = []
message_of (mark_read id) = []

-- The messages that the contact has got, in their order.
unfoldable pub messages : List Effect → List Text
messages [] = []
messages (e ∷ effects) = message_of e ++ messages effects

abbrev pub file_of : Effect → List Text
file_of (file_to_contact p c) = p ∷ []
file_of (to_owner m) = []
file_of (to_contact s) = []
file_of (run c) = []
file_of (file_to_owner p c) = []
file_of (write_file p c) = []
file_of (save e) = []
file_of sync_claims = []
file_of (mark_read id) = []

-- The files that the contact has got.
unfoldable pub files : List Effect → List Text
files [] = []
files (e ∷ effects) = file_of e ++ files effects

pub producer_runs-emit :
    (xs : List Effect) (e : Effect)
    → producer_runs (xs ++ e ∷ []) ≡ producer_runs xs + producer_runs_of e
unfolding producer_runs
producer_runs-emit [] e = omega arith
producer_runs-emit (x ∷ xs) e = omega (arith, producer_runs-emit xs e)

pub messages-emit :
    (xs : List Effect) (e : Effect) → messages (xs ++ e ∷ []) ≡ messages xs ++ message_of e
unfolding messages
messages-emit [] e = append_empty (message_of e)
messages-emit (x ∷ xs) e =
    rw (messages-emit xs e) (sym (append_assoc (message_of x) (messages xs) (message_of e)))

pub files-emit : (xs : List Effect) (e : Effect) → files (xs ++ e ∷ []) ≡ files xs ++ file_of e
unfolding files
files-emit [] e = append_empty (file_of e)
files-emit (x ∷ xs) e = rw (files-emit xs e) (sym (append_assoc (file_of x) (files xs) (file_of e)))

-- The control of the loop stays as it is.
pub record Steady (t u : Task) : Type 0 where
  pub status : u.errand.status ≡ t.errand.status
  pub busy : u.errand.busy ≡ t.errand.busy
  pub pending : u.errand.pending ≡ t.errand.pending
  pub deliver : u.errand.deliver_to_target ≡ t.errand.deliver_to_target
  pub flight : u.flight ≡ t.flight
  pub runs : producer_runs u.effects ≡ producer_runs t.effects

-- Nor does the contact get anything.
pub record Silent (t u : Task) : Type 0 where
  pub steady : Steady t u
  pub messages : messages u.effects ≡ messages t.effects
  pub files : files u.effects ≡ files t.effects

pub Steady-refl : (t : Task) → Steady t t
Steady-refl t = record {
  status = refl;
  busy = refl;
  pending = refl;
  deliver = refl;
  flight = refl;
  runs = refl;
}

pub Steady-trans : {t u v : Task} → Steady t u → Steady u v → Steady t v
Steady-trans p q = record {
  status = q.status ∙ p.status;
  busy = q.busy ∙ p.busy;
  pending = q.pending ∙ p.pending;
  deliver = q.deliver ∙ p.deliver;
  flight = q.flight ∙ p.flight;
  runs = q.runs ∙ p.runs;
}

pub Silent-refl : (t : Task) → Silent t t
Silent-refl t = record { steady = Steady-refl t; messages = refl; files = refl }

pub Silent-trans : {t u v : Task} → Silent t u → Silent u v → Silent t v
Silent-trans p q = record {
  steady = Steady-trans p.steady q.steady;
  messages = q.messages ∙ p.messages;
  files = q.files ∙ p.files;
}

-- An effect that is neither a call of the producer nor addressed to the contact.
pub emit-Silent :
    (e : Effect) (t : Task)
    → producer_runs_of e ≡ 0
    → message_of e ≡ []
    → file_of e ≡ []
    → Silent t (emit e t)
unfolding emit
emit-Silent e t no_run no_message no_file = record {
  steady = record {
    status = refl;
    busy = refl;
    pending = refl;
    deliver = refl;
    flight = refl;
    runs = omega (arith, producer_runs-emit t.effects e);
  };
  messages = rw (messages-emit t.effects e, no_message) (append_empty (messages t.effects));
  files = rw (files-emit t.effects e, no_file) (append_empty (files t.effects));
}

pub tell-Silent : (m : OwnerMessage) (t : Task) → Silent t (tell m t)
unfolding tell
tell-Silent m t = emit-Silent (to_owner m) t refl refl refl

pub save_errand-Silent : (t : Task) → Silent t (save_errand t)
unfolding save_errand
save_errand-Silent t = emit-Silent (save t.errand) t refl refl refl

-- A change of the errand in the fields that the loop does not look at.
pub set_errand-Silent :
    (f : Errand → Errand) (t : Task)
    → (f t.errand).status ≡ t.errand.status
    → (f t.errand).busy ≡ t.errand.busy
    → (f t.errand).pending ≡ t.errand.pending
    → (f t.errand).deliver_to_target ≡ t.errand.deliver_to_target
    → Silent t (set_errand f t)
unfolding set_errand
set_errand-Silent f t p q r s = record {
  steady = record { status = p; busy = q; pending = r; deliver = s; flight = refl; runs = refl };
  messages = refl;
  files = refl;
}
