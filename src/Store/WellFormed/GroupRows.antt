-- ===== src/Store/WellFormed/GroupRows.antt =====
-- Lemmas on the triage groups and their sources for the invariant of the tables.
-- (internal/store/triagegroups.go.)
use zcoms_agent.Prelude.{
  ℕ, Bool, true, false, not, List, [], ◌∷◌, ◌≡◌, refl, arith, ◌==◌, inl, inr, Bool-cases, All,
}
use native.Mathlib.Nat.{le_refl}
use zcoms_agent.Prelude.Text.{Text, codes}
use zcoms_agent.Store.Types.{Caller, Database, TriageGroup, TriageSource}
use zcoms_agent.Store.Rows.{exists, update, delete, insert, next_id}
use zcoms_agent.Store.Rows.Keys.{
  Distinct-insert, Distinct-update, Distinct-delete, All-insert, All-update, All-delete, All-map,
  next_id-is_fresh, exists-update, exists-insert-true, exists-delete_other,
}
use zcoms_agent.Store.Triage.{
  GroupWithSources, has_id, in_group, tidied, save_triage_group, set_triage_group_enabled,
  delete_triage_group, mark_triage_group_ran, insert_source, insert_sources, without_group,
  replaced, save_group, replace_group,
}
use zcoms_agent.Store.Preserves.{
  Preserves, Keeps, Preserves-then, Preserves-bind, Preserves-pure, Preserves-statement,
  Preserves-refused, Preserves-require_owner, Preserves-require_row, Preserves-refuse_if,
  Preserves-when, Preserves-transaction,
}
use zcoms_agent.Store.WellFormed.{IsWellFormed, AreGroups, AreSources, IsScheduled, InGroup}
use zcoms_agent.Store.WellFormed.AllowRows.{keeps}

set_groups :
    (db : Database) (gs : List TriageGroup) (ss : List TriageSource)
    → IsWellFormed db
    → AreGroups gs
    → AreSources gs ss
    → IsWellFormed (record db { groups = gs; sources = ss })
set_groups db gs ss h new sources = record {
  settings = h.settings;
  allowlist = h.allowlist;
  personas = h.personas;
  workspaces = h.workspaces;
  sessions = h.sessions;
  groups = new;
  sources = sources;
  reminders = h.reminders;
  events = h.events;
}

-- An update that leaves the ids, and whose schedule is valid.
update_groups :
    (db : Database) (at : TriageGroup → Bool) (change : TriageGroup → TriageGroup)
    → ((g : TriageGroup) → (change g).id ≡ g.id)
    → ((g : TriageGroup) → IsScheduled g → IsScheduled (change g))
    → IsWellFormed db
    → IsWellFormed (record db { groups = update at change db.groups })
update_groups db at change ids schedules h =
    set_groups db _ db.sources h
      (record {
        ids =
            Distinct-update _ at change (λ q r. rw (ids r)) (λ q r. rw (ids q)) db.groups
              h.groups.ids;
        schedules = All-update IsScheduled at change schedules db.groups h.groups.schedules;
      })
      (record {
        ids = h.sources.ids;
        groups =
            All-map
              (λ s e.
                rw (exists-update (has_id s.group_id) at change (λ r. rw (ids r)) db.groups) e)
              db.sources h.sources.groups;
      })

inserted :
    (g : TriageGroup) (db : Database)
    → IsScheduled g
    → IsWellFormed db
    → IsWellFormed (record db {
      groups =
          insert
            (record g { id = next_id (λ r. r.id) db.groups; last_run_at = codes "" })
            db.groups;
    })
inserted g db scheduled h =
    set_groups db _ db.sources h
      (record {
        ids =
            Distinct-insert _ db.groups _ h.groups.ids
              (next_id-is_fresh (λ r. r.id) db.groups _ (le_refl _));
        schedules = All-insert IsScheduled db.groups _ h.groups.schedules scheduled;
      })
      (record {
        ids = h.sources.ids;
        groups =
            All-map (λ s. exists-insert-true (has_id s.group_id) db.groups _) db.sources
              h.sources.groups;
      })

insert_source-IsWellFormed :
    (i : ℕ) (s : TriageSource) (db : Database)
    → IsWellFormed db
    → IsWellFormed (insert_source i s db).1
unfolding insert_source
insert_source-IsWellFormed i s db h = elim (Bool-cases (exists (has_id i) db.groups)) [
  | inl known ↦ rw known (
      set_groups db db.groups _ h h.groups (record {
        ids =
            Distinct-insert _ db.sources _ h.sources.ids
              (next_id-is_fresh (λ r. r.id) db.sources _ (le_refl _));
        groups = All-insert (InGroup db.groups) db.sources _ h.sources.groups known;
      }))
  | inr unknown ↦ rw unknown h
]

insert_sources-IsWellFormed :
    (i : ℕ) (ss : List TriageSource) → Preserves (Keeps IsWellFormed) (insert_sources i ss)
unfolding insert_sources
insert_sources-IsWellFormed i [] = Preserves-pure keeps tt
insert_sources-IsWellFormed i (s ∷ ss) =
    Preserves-then keeps _ _
      (Preserves-when keeps _ _ (Preserves-statement keeps _ (insert_source-IsWellFormed i s)))
      (insert_sources-IsWellFormed i ss)

save_group-IsWellFormed :
    (g : TriageGroup) → IsScheduled g → Preserves (Keeps IsWellFormed) (save_group g)
save_group-IsWellFormed g scheduled = elim (Bool-cases (g.id == 0)) [
  | inl new ↦ rw new (Preserves-statement keeps _ (λ db. inserted g db scheduled))
  | inr old ↦ rw old replacing
]
  where
    replacing : Preserves (Keeps IsWellFormed) (replace_group g)
    replacing =
        Preserves-bind keeps _ _
          (Preserves-statement keeps _
            (λ db. update_groups db _ (replaced g) (λ r. refl) (λ r k. scheduled)))
          (λ met. Preserves-then keeps _ _ (Preserves-require_row keeps met _) (
            Preserves-then keeps _ _
              (Preserves-statement keeps _ (λ db h. set_groups db db.groups _ h h.groups (record {
                ids = Distinct-delete _ _ db.sources h.sources.ids;
                groups = All-delete (InGroup db.groups) _ db.sources h.sources.groups;
              })))
              (Preserves-pure keeps g.id)))

of_not-false : (b : Bool) → not b ≡ false → b ≡ true
of_not-false b h = ground arith

pub save_triage_group-IsWellFormed :
    (c : Caller) (g : GroupWithSources) → Preserves (Keeps IsWellFormed) (save_triage_group c g)
unfolding save_triage_group
save_triage_group-IsWellFormed c g = Preserves-then keeps _ _ (Preserves-require_owner keeps c _) (
    Preserves-then keeps _ _ (Preserves-refuse_if keeps _ _) (
      Preserves-refused keeps _ _ _ (λ valid.
        Preserves-then keeps _ _ (Preserves-refuse_if keeps _ _) (
          Preserves-bind keeps _ _
            (Preserves-transaction keeps _ (
              Preserves-bind keeps _ _
                (save_group-IsWellFormed (tidied g.group) (of_not-false _ valid))
                (λ i.
                  Preserves-then keeps _ _ (insert_sources-IsWellFormed i g.sources)
                    (Preserves-pure keeps i))))
            (λ i. Preserves-pure keeps _)))))

pub set_triage_group_enabled-IsWellFormed :
    (c : Caller) (i : ℕ) (on : Bool)
    → Preserves (Keeps IsWellFormed) (set_triage_group_enabled c i on)
unfolding set_triage_group_enabled
set_triage_group_enabled-IsWellFormed c i on =
    Preserves-then keeps _ _ (Preserves-require_owner keeps c _) (
      Preserves-bind keeps _ _
        (Preserves-statement keeps _ (λ db. update_groups db _ _ (λ r. refl) (λ r k. k)))
        (λ met. Preserves-require_row keeps met _))

-- What the cascade leaves refers to a group that is still there.
spared :
    (i : ℕ) (gs : List TriageGroup) (rows : List TriageSource)
    → All (InGroup gs) rows
    → All (InGroup (delete (has_id i) gs)) (delete (in_group i) rows)
unfolding delete
spared i gs [] h = tt
spared i gs (s ∷ rows) h = elim (Bool-cases (s.group_id == i)) [
  | inl gone ↦ rw gone (spared i gs rows h.1)
  | inr here ↦ rw here (
    exists-delete_other (has_id s.group_id) (has_id i) (λ r e. ground arith) gs h.0,
    spared i gs rows h.1,
  )
]

without_group-IsWellFormed :
    (i : ℕ) (db : Database) → IsWellFormed db → IsWellFormed (without_group i db)
without_group-IsWellFormed i db h = elim (Bool-cases (exists (has_id i) db.groups)) [
  | inl there ↦ rw there (
      set_groups db _ _ h
        (record {
          ids = Distinct-delete _ _ db.groups h.groups.ids;
          schedules = All-delete IsScheduled _ db.groups h.groups.schedules;
        })
        (record {
          ids = Distinct-delete _ _ db.sources h.sources.ids;
          groups = spared i db.groups db.sources h.sources.groups;
        }))
  | inr absent ↦ rw absent h
]

pub delete_triage_group-IsWellFormed :
    (c : Caller) (i : ℕ) → Preserves (Keeps IsWellFormed) (delete_triage_group c i)
unfolding delete_triage_group
delete_triage_group-IsWellFormed c i =
    Preserves-then keeps _ _ (Preserves-require_owner keeps c _) (
      Preserves-bind keeps _ _ (Preserves-statement keeps _ (without_group-IsWellFormed i))
        (λ met. Preserves-require_row keeps met _))

pub mark_triage_group_ran-IsWellFormed :
    (i : ℕ) (at : Text) → Preserves (Keeps IsWellFormed) (mark_triage_group_ran i at)
unfolding mark_triage_group_ran
mark_triage_group_ran-IsWellFormed i at =
    Preserves-statement keeps _ (λ db. update_groups db _ _ (λ r. refl) (λ r k. k))
