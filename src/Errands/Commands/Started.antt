-- ===== src/Errands/Commands/Started.antt =====
-- What startErrand of internal/errands/comp.go promises.
use zcoms_agent.Prelude.{false, if◌then◌else◌, [], ◌∷◌, ◌⊎◌, inl, inr, ◌≡◌}
use zcoms_agent.Prelude.Text.{Text, trim_space}
use zcoms_agent.Prelude.Int.{ℤ}
use zcoms_agent.Errands.Errand.{Errand, active, pending_approval}
use zcoms_agent.Errands.Task.{Machine, Task}
use zcoms_agent.Errands.Drive.{kick_errand}
use zcoms_agent.Errands.Specs.{ErrandSpec, SpecError, not_saved, Office}
use zcoms_agent.Errands.Commands.{Comp, without_task}
use zcoms_agent.Errands.Steps.{new_task, opened, Reaches}

-- The resolving of a target sets where the contact is met, and nothing else of an errand.
abbrev SameStart : Errand → Errand → Type 0
SameStart d e = e ≡ record d {
  source = e.source;
  target_name = e.target_name;
  tg_chat = e.tg_chat;
  wa_chat = e.wa_chat;
}

abbrev SameStartIf : Errand → SpecError ⊎ Errand → Type 0
SameStartIf d (inl e) = Unit
SameStartIf d (inr e) = SameStart d e

-- The errand that is asked for, at the start of its life.
pub record AsAsked (o : Office) (owner : ℤ) (spec : ErrandSpec) (e : Errand) : Type 0 where
  pub id : e.id ≡ o.new_id
  pub status : e.status ≡ (if spec.auto_start then active else pending_approval)
  pub brief : e.brief ≡ trim_space spec.brief
  pub chat : e.owner_chat ≡ owner
  pub auto_start : e.auto_start ≡ spec.auto_start
  pub deliver : e.deliver_to_target ≡ spec.deliver_to_target
  pub idle : e.busy ≡ false
  pub empty : e.pending ≡ []
  pub unheard : e.transcript ≡ []
  pub undelivered : e.delivered ≡ false

-- The answer of startErrand and the component after it.
abbrev pub Launched : Machine → Office → ErrandSpec → Comp → (SpecError ⊎ Errand) × Comp → Type 0
Launched m o spec c (inr e, d) =
    AsAsked o c.owner_chat spec e
    × (d.tasks ≡ kick_errand m (opened e o.faults) ∷ without_task o.new_id c.tasks)
    × Reaches (kick_errand m (opened e o.faults))
Launched m o spec c (inl e, d) =
    d ≡ c
    ⊎ (e ≡ not_saved
        × ((left : Errand) × AsAsked o c.owner_chat spec left
            × (d.tasks ≡ new_task left o.faults ∷ without_task o.new_id c.tasks)))
