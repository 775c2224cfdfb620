-- ===== src/Errands/Commands/Fired.antt =====
-- What fireDueScheduled of internal/errands/scheduled.go promises.
use zcoms_agent.Prelude.{
  ℕ, ◌≤◌, not, List, [], ◌∷◌, ◌++◌, ◌⊎◌, inl, inr, ◌≡◌, refl, sym, ap, ◌∙◌, arith, if-either, map,
  append_empty, append_assoc,
}
use mathlib.Core.Path.{subst}
use zcoms_agent.Prelude.Text.{Text, codes, text_eq, trim_space}
use zcoms_agent.Prelude.Int.{ℤ, pos, eq_ℤ}
use zcoms_agent.Errands.Errand.{Errand}
use zcoms_agent.Errands.Task.{Machine}
use zcoms_agent.Errands.Scheduled.{ScheduledErrand, is_due, claim_due_scheduled}
use zcoms_agent.Errands.Scheduled.Claims.{IsSplit, claim_due_scheduled-IsSplit}
use zcoms_agent.Errands.Specs.{ErrandSpec, SpecError, Office, resolve_errand_target}
use zcoms_agent.Errands.Commands.{
  Reply, listing, schedule_listing, commands, problem, started, scheduled_at, unscheduled,
  no_such_schedule, approved, dropped, revising, cancelled_by_owner, nothing_waits, unknown_id,
  usage_of, unknown_command, fired, Comp, drafted, resolved, start_errand, started_reply, reported,
  fire_scheduled, fire_all, fire_due_scheduled,
}

-- The schedule, the reports and the owner's chat are as they were.
record Apart (c d : Comp) : Type 0 where
  scheduled : d.scheduled ≡ c.scheduled
  reports : d.reports ≡ c.reports
  chat : d.owner_chat ≡ c.owner_chat

Apart-refl : (c : Comp) → Apart c c
Apart-refl c = record { scheduled = refl; reports = refl; chat = refl }

abbrev ApartIn : Comp → (SpecError ⊎ Errand) × Comp → Type 0
ApartIn c r = Apart c r.1

resolved-Apart :
    (m : Machine) (o : Office) (r : SpecError ⊎ Errand) (c : Comp) → ApartIn c (resolved m o r c)
resolved-Apart m o (inl e) c = Apart-refl c
resolved-Apart m o (inr e) c =
    if-either (ApartIn c) (not o.can_save) _ _
      (λ _. record { scheduled = refl; reports = refl; chat = refl })
      (λ _. record { scheduled = refl; reports = refl; chat = refl })

start_errand-Apart :
    (m : Machine) (o : Office) (spec : ErrandSpec) (c : Comp) → ApartIn c (start_errand m o spec c)
unfolding start_errand
start_errand-Apart m o spec c =
    if-either (ApartIn c) (eq_ℤ c.owner_chat (pos 0)) _ _ (λ _. Apart-refl c)
      (λ _.
        if-either (ApartIn c) (text_eq (trim_space spec.brief) (codes "")) _ _ (λ _. Apart-refl c)
          (λ _.
            resolved-Apart m o (resolve_errand_target o (drafted o c.owner_chat spec) spec.target)
              c))

abbrev pub fired_id : Reply → List Text
fired_id (fired id r) = id ∷ []
fired_id (listing l) = []
fired_id (schedule_listing l) = []
fired_id commands = []
fired_id (problem e) = []
fired_id (started id name) = []
fired_id (scheduled_at id at) = []
fired_id (unscheduled id) = []
fired_id (no_such_schedule id) = []
fired_id (approved id) = []
fired_id (dropped id) = []
fired_id (revising id) = []
fired_id (cancelled_by_owner id) = []
fired_id nothing_waits = []
fired_id (unknown_id id) = []
fired_id (usage_of verb) = []
fired_id unknown_command = []

abbrev sent_of : ℤ × Reply → List (ℤ × Text)
sent_of (chat, r) = map (λ id. (chat, id)) (fired_id r)

-- The schedules whose firing was told, each with the chat that it was sent to.
unfoldable pub told : List (ℤ × Reply) → List (ℤ × Text)
told [] = []
told (r ∷ reports) = sent_of r ++ told reports

told-append :
    (l : List (ℤ × Reply)) (chat : ℤ) (id : Text) (r : Reply)
    → told (l ++ (chat, fired id r) ∷ []) ≡ told l ++ (chat, id) ∷ []
unfolding told
told-append [] chat id r = refl
told-append (x ∷ l) chat id r =
    rw (told-append l chat id r) (sym (append_assoc (sent_of x) (told l) ((chat, id) ∷ [])))

-- What one firing leaves.
record Reported (id : Text) (c d : Comp) : Type 0 where
  scheduled : d.scheduled ≡ c.scheduled
  chat : d.owner_chat ≡ c.owner_chat
  sent : told d.reports ≡ told c.reports ++ (c.owner_chat, id) ∷ []

reported-by : (id : Text) (c d : Comp) (r : Reply) → Apart c d → Reported id c (reported id (r, d))
reported-by id c d r h = record {
  scheduled = h.scheduled;
  chat = h.chat;
  sent =
      told-append d.reports d.owner_chat id r
      ∙ ap (λ (l : List (ℤ × Reply)). told l ++ (d.owner_chat, id) ∷ []) h.reports
      ∙ ap (λ (chat : ℤ). told c.reports ++ (chat, id) ∷ []) h.chat;
}

fired-Reported :
    (id : Text) (c : Comp) (r : (SpecError ⊎ Errand) × Comp)
    → ApartIn c r
    → Reported id c (reported id (started_reply r))
fired-Reported id c (inl e, d) h = reported-by id c d (problem e) h
fired-Reported id c (inr e, d) h = reported-by id c d (started e.id e.target_name) h

abbrev pub sent_to : ℤ → List ScheduledErrand → List (ℤ × Text)
sent_to chat l = map (λ s. (chat, s.id)) l

fire_all-told :
    (m : Machine) (office : ScheduledErrand → Office) (l : List ScheduledErrand) (c : Comp)
    → (fire_all m office l c).scheduled ≡ c.scheduled
      × told (fire_all m office l c).reports ≡ told c.reports ++ sent_to c.owner_chat l
unfolding fire_all fire_scheduled
fire_all-told m office [] c = (refl, sym (append_empty (told c.reports)))
fire_all-told m office (s ∷ l) c =
    let one = fired-Reported s.id c _ (
      start_errand-Apart m (office s)
        (record {
          target = s.target;
          brief = s.brief;
          deliver_to_target = s.deliver_to_target;
          auto_start = s.auto_start;
        })
        c) in
    let more = fire_all-told m office l (fire_scheduled m (office s) s c) in
    (
      more.0 ∙ one.scheduled,
      more.1
          ∙ ap (λ (chat : ℤ). told (fire_scheduled m (office s) s c).reports ++ sent_to chat l)
              one.chat
          ∙ ap (λ (k : List (ℤ × Text)). k ++ sent_to c.owner_chat l) one.sent
          ∙ append_assoc (told c.reports) ((c.owner_chat, s.id) ∷ []) (sent_to c.owner_chat l),
    )

claim_again :
    (now before : ℕ) (l : List ScheduledErrand)
    → before ≤ now
    → claim_due_scheduled before (claim_due_scheduled now l).0 ≡ ((claim_due_scheduled now l).0, [])
unfolding claim_due_scheduled is_due
claim_again now before [] h = refl
claim_again now before (s ∷ l) h = ground (arith, claim_again now before l h)

-- The schedules that a firing tells of: those that are due, each as often as it was there, while the
-- others stay.
abbrev pub Fired : ℕ → Comp → Comp → Type 0
Fired now c d =
    (due : List ScheduledErrand) × (told d.reports ≡ told c.reports ++ sent_to c.owner_chat due)
    × IsSplit now c.scheduled (d.scheduled, due)

-- When the schedule fires, the chat that is set for the owner is told of each schedule whose time has
-- come, exactly as often as it was there, and of no other; these leave the schedule and the others
-- stay. Firing it again at that or an earlier time does nothing.
pub fire_due_scheduled-once :
    (m : Machine) (office again : ScheduledErrand → Office) (now before : ℕ) (c : Comp)
    → before ≤ now
    → Fired now c (fire_due_scheduled m office now c)
      × fire_due_scheduled m again before (fire_due_scheduled m office now c)
        ≡ fire_due_scheduled m office now c
unfolding fire_due_scheduled
fire_due_scheduled-once m office again now before c h =
    let claim = claim_due_scheduled now c.scheduled in
    let d : Comp = fire_all m office claim.1 (record c { scheduled = claim.0 }) in
    let all = fire_all-told m office claim.1 (record c { scheduled = claim.0 }) in
    let nothing_due : claim_due_scheduled before d.scheduled ≡ (d.scheduled, []) =
      subst (λ (l : List ScheduledErrand). claim_due_scheduled before l ≡ (l, [])) (sym all.0)
        (claim_again now before c.scheduled h) in
    let split : IsSplit now c.scheduled (d.scheduled, claim.1) =
      subst (λ (l : List ScheduledErrand). IsSplit now c.scheduled (l, claim.1)) (sym all.0)
        (claim_due_scheduled-IsSplit now c.scheduled) in
    (
      (claim.1, all.1, split),
      ap
          (λ (r : List ScheduledErrand × List ScheduledErrand).
            fire_all m again r.1 (record d { scheduled = r.0 }))
          nothing_due,
    )
