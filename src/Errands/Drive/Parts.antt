-- ===== src/Errands/Drive/Parts.antt =====
-- The parts of a turn of internal/errands that leave the control of its loop as it is.
use zcoms_agent.Prelude.{
  ℕ, suc, Bool, true, false, not, List, [], ◌∷◌, ◌++◌, Option, none, some, refl, arith, if-either,
  ◌&&◌, leb, length,
}
use zcoms_agent.Prelude.Text.{Text, codes, text_eq}
use zcoms_agent.Prelude.Text.FilePath.{join_path}
use zcoms_agent.Store.Db.{head_fault, tail_faults}
use zcoms_agent.Errands.Task.{
  OwnerMessage, held_back, not_messaged, record_failed, plan, no_plan, to_contact, file_to_owner,
  write_file, Machine, Task, emit, attempt, is_wa, deliver_to_owner, send_to_errand_target,
  ensure_interview_file, write_interview_file, errand_transcript_doc, named_file, overwritten,
  told_if_failed, written, file_header,
}
use zcoms_agent.Errands.Interview.{
  Turn, propose, plan_text, with_transcript, fall_back, deliver_info, delivered_if, send_messages,
  asked, recorded, max_errand_msgs_per_turn,
}
use zcoms_agent.Errands.Drive.Frame.{
  producer_runs-emit, Steady, Silent, Steady-refl, Steady-trans, Silent-refl, Silent-trans,
  emit-Silent, tell-Silent, save_errand-Silent, set_errand-Silent,
}

-- What the result of an attempt is silent about.
abbrev pub SilentPair : Task → Bool × Task → Type 0
SilentPair t r = Silent t r.1

spend : (t : Task) (l : List Bool) → Silent t (record t { faults = l })
spend t l = record {
  steady = record {
    status = refl;
    busy = refl;
    pending = refl;
    deliver = refl;
    flight = refl;
    runs = refl;
  };
  messages = refl;
  files = refl;
}

pub attempt-Silent :
    (f : Task → Task) (t : Task) → ((u : Task) → Silent u (f u)) → Silent t (attempt f t).1
unfolding attempt
attempt-Silent f t h =
    if-either (SilentPair t) (head_fault t.faults)
      (false, record t { faults = tail_faults t.faults })
      (true, f (record t { faults = tail_faults t.faults })) (λ _. spend t (tail_faults t.faults))
      (λ _. Silent-trans (spend t (tail_faults t.faults)) (h _))

pub attempt-Steady :
    (f : Task → Task) (t : Task) → ((u : Task) → Steady u (f u)) → Steady t (attempt f t).1
unfolding attempt
attempt-Steady f t h =
    if-either (λ (r : Bool × Task). Steady t r.1) (head_fault t.faults)
      (false, record t { faults = tail_faults t.faults })
      (true, f (record t { faults = tail_faults t.faults }))
      (λ _. (spend t (tail_faults t.faults)).steady)
      (λ _. Steady-trans (spend t (tail_faults t.faults)).steady (h _))

written-Silent : (path content : Text) (t : Task) → Silent t (written path content t)
written-Silent path content t =
    Silent-trans (emit-Silent (write_file path content) t refl refl refl) (record {
      steady = record {
        status = refl;
        busy = refl;
        pending = refl;
        deliver = refl;
        flight = refl;
        runs = refl;
      };
      messages = refl;
      files = refl;
    })

pub deliver_to_owner-Silent :
    (path caption : Text) (t : Task) → Silent t (deliver_to_owner path caption t).1
unfolding deliver_to_owner
deliver_to_owner-Silent path caption t =
    attempt-Silent (emit (file_to_owner path caption)) t
      (λ u. emit-Silent (file_to_owner path caption) u refl refl refl)

pub ensure_interview_file-Silent : (m : Machine) (t : Task) → Silent t (ensure_interview_file m t)
unfolding ensure_interview_file
ensure_interview_file-Silent m t =
    if-either (Silent t) _ _ _ (λ _. Silent-refl t) (λ _. by_dir (m.staging t.errand.id))
  where
    made : (path : Text) → Silent t (named_file t.errand path t)
    made path =
        let first =
          attempt-Silent (written path (file_header t.errand)) t
            (written-Silent path (file_header t.errand)) in
        Silent-trans first (
          Silent-trans
            (set_errand-Silent (λ e. record e { interview_file = path }) _ refl refl refl refl)
            (save_errand-Silent _))

    by_dir :
        (dir : Option Text)
        → Silent t (elim dir [
          | none ↦ t
          | some d ↦ named_file t.errand (join_path d (codes "collected-info.md")) t
        ])
    by_dir none = Silent-refl t
    by_dir (some d) = made (join_path d (codes "collected-info.md"))

told_if_failed-Silent :
    (m : OwnerMessage) (t : Task) (r : Bool × Task) → Silent t r.1 → Silent t (told_if_failed m r)
told_if_failed-Silent m t (true, u) h = h
told_if_failed-Silent m t (false, u) h = Silent-trans h (tell-Silent m u)

pub write_interview_file-Silent :
    (m : Machine) (content : Text) (t : Task) → Silent t (write_interview_file m content t)
unfolding write_interview_file
write_interview_file-Silent m content t =
    Silent-trans (ensure_interview_file-Silent m t) (over (ensure_interview_file m t))
  where
    over : (u : Task) → Silent u (overwritten content u)
    over u =
        if-either (Silent u) _ _ _ (λ _. Silent-refl u)
          (λ _.
            told_if_failed-Silent record_failed u
              (attempt (written u.errand.interview_file content) u)
              (attempt-Silent (written u.errand.interview_file content) u
                (written-Silent u.errand.interview_file content)))

pub propose-Silent : (r : Turn) (t : Task) → Silent t (propose r t)
unfolding propose
propose-Silent r t =
    if-either (Silent t) _ _ _ (λ _. tell-Silent no_plan t)
      (λ _. tell-Silent (plan (plan_text r)) t)

pub with_transcript-Silent : (m : Machine) (t : Task) → Silent t (with_transcript m t)
unfolding with_transcript
with_transcript-Silent m t =
    if-either (Silent t) _ _ _ (λ _. Silent-refl t)
      (λ _. fallen (attempt (λ u. u) t) (attempt-Silent (λ u. u) t Silent-refl))
  where
    fallen : (r : Bool × Task) → Silent t r.1 → Silent t (fall_back m r)
    fallen (false, u) h = h
    fallen (true, u) h =
        if-either (Silent t) _ _ _
          (λ _. Silent-trans h (write_interview_file-Silent m (errand_transcript_doc u.errand) u))
          (λ _. h)

pub delivered_if-Silent : (t : Task) (r : Bool × Task) → Silent t r.1 → Silent t (delivered_if r)
delivered_if-Silent t (false, u) h = h
delivered_if-Silent t (true, u) h =
    Silent-trans h (set_errand-Silent (λ e. record e { delivered = true }) u refl refl refl refl)

pub deliver_info-Silent : (caption : Text) (t : Task) → Silent t (deliver_info caption t)
unfolding deliver_info
deliver_info-Silent caption t =
    if-either (Silent t) (text_eq t.errand.interview_file (codes "")) t _ (λ _. Silent-refl t)
      (λ _.
        delivered_if-Silent t (deliver_to_owner t.errand.interview_file caption t)
          (deliver_to_owner-Silent t.errand.interview_file caption t))

pub recorded-Silent : (m : Machine) (content : Text) (t : Task) → Silent t (recorded m content t)
recorded-Silent m content t =
    if-either (Silent t) _ _ _ (λ _. Silent-refl t) (λ _. write_interview_file-Silent m content t)

contact-Steady : (body : Text) (t : Task) → Steady t (emit (to_contact body) t)
unfolding emit
contact-Steady body t = record {
  status = refl;
  busy = refl;
  pending = refl;
  deliver = refl;
  flight = refl;
  runs = omega (arith, producer_runs-emit t.effects (to_contact body));
}

send_to_errand_target-Steady :
    (m : Machine) (body : Text) (t : Task) → Steady t (send_to_errand_target m body t).1
unfolding send_to_errand_target
send_to_errand_target-Steady m body t =
    if-either (λ (r : Bool × Task). Steady t r.1) (is_wa t.errand && not m.wa_enabled) (false, t)
      (attempt (emit (to_contact body)) t) (λ _. Steady-refl t)
      (λ _. attempt-Steady (emit (to_contact body)) t (contact-Steady body))

pub send_messages-Steady :
    (m : Machine) (sent : ℕ) (msgs : List Text) (t : Task)
    → Steady t (send_messages m sent msgs t).1
unfolding send_messages
send_messages-Steady m sent [] t = Steady-refl t
send_messages-Steady m sent (body ∷ msgs) t =
    let r : Bool × Task = send_to_errand_target m body t in
    let first : Steady t r.1 = send_to_errand_target-Steady m body t in
    let later = send_messages-Steady m (suc sent) msgs (asked body r.1) in
    if-either (λ (p : ℕ × Task). Steady t p.1) (leb max_errand_msgs_per_turn sent) _ _
      (λ _. (tell-Silent (held_back (length (body ∷ msgs))) t).steady)
      (λ _.
        if-either (λ (p : ℕ × Task). Steady t p.1) r.0 _ _
          (λ _. Steady-trans first (
            Steady-trans
              (set_errand-Silent
                (λ e. record e { transcript = e.transcript ++ (codes "Q: " ++ body) ∷ [] }) r.1 refl
                refl refl refl).steady
              later))
          (λ _. Steady-trans first (tell-Silent not_messaged r.1).steady))
