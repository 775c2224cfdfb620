-- ===== src/Bridge/Turns/Menus.antt =====
-- The turns that the menus and the moves of internal/bridge start.
use zcoms_agent.Prelude.{
  arith, Bool, false, List, [], ◌∷◌, Option, none, some, ◌⊎◌, inl, inr, ◌≡◌, refl, if-either,
}
use zcoms_agent.Prelude.Text.{Text, codes, text_eq}
use zcoms_agent.Prelude.Int.{ℤ}
use zcoms_agent.Runner.Roles.{role_read}
use zcoms_agent.Runner.Roles.Caps.{power-read_le}
use zcoms_agent.Runner.Locations.{Locations, sorted_names}
use zcoms_agent.Bridge.State.{
  UserState, Bridge, emit, reply, set_user, Session, nothing_to_select, resuming, Recipient, Menu,
  no_menu, location_menu, session_menu,
}
use zcoms_agent.Bridge.Runs.{Machine}
use zcoms_agent.Bridge.Menus.{
  list_locations, list_sessions, start_triage_reply, reset_triage_brain, select_number,
  pick_location, pick_session, picked, offer_locations, offer_sessions, enter_triage, cleared,
  reload, allowed_names, summary_prompt,
}
use zcoms_agent.Bridge.Turns.{started-send, Quiet, Turns, run_agent-RunsAs, runs_bounded}

pub list_locations-Quiet : (m : Machine) (b : Bridge) → Quiet b (list_locations m b)
unfolding list_locations reply set_user emit
list_locations-Quiet m b = by_reload m.reload
  where
    offered : (allowed : List Text) (c : Bridge) → Quiet c (offer_locations allowed c)
    offered [] c = (refl, started-send c.effects _ _)
    offered (n ∷ names) c = (refl, started-send c.effects _ _)

    by_reload :
        (locations : Option Locations)
        → Quiet b (
            offer_locations
              (allowed_names
                (reload locations b).user
                (sorted_names (reload locations b).locations))
              (reload locations b))
    by_reload none = offered _ b
    by_reload (some locations) = offered _ (record b { locations = locations })

pub list_sessions-Quiet : (m : Machine) (b : Bridge) → Quiet b (list_sessions m b)
unfolding list_sessions reply set_user emit
list_sessions-Quiet m b =
    if-either (Quiet b) (text_eq b.user.location (codes "")) _ _
      (λ _. (refl, started-send b.effects _ _))
      (λ _. offered (m.list_sessions b.user.entry.agent b.user.location_path))
  where
    offered : (listing : Text ⊎ List Session) → Quiet b (offer_sessions listing b)
    offered (inl e) = (refl, started-send b.effects _ _)
    offered (inr []) = (refl, started-send b.effects _ _)
    offered (inr (s ∷ sessions)) = (refl, started-send b.effects _ _)

pick_location-Quiet :
    (m : Machine) (name : Option Text) (b : Bridge) → Quiet b (pick_location m name b)
unfolding pick_location reply set_user emit
pick_location-Quiet m none b = (refl, started-send b.effects _ _)
pick_location-Quiet m (some name) b = (refl, started-send b.effects _ _)

pick_session-Turns :
    {said : Bool} (m : Machine) (s : Option Session) (b : Bridge)
    → Turns said b (pick_session m s b)
unfolding pick_session reply set_user emit
pick_session-Turns m none b = inl (refl, started-send b.effects _ _)
pick_session-Turns m (some s) b =
    runs_bounded role_read false b _ _ quiet refl refl
      (run_agent-RunsAs m summary_prompt role_read false _)
      (inl (power-read_le b.user.effective_role)) (λ e. ground arith)
  where
    quiet : Quiet b (
        reply (resuming s.title) (
          set_user
            (λ st. record st { session_id = s.id; pending_kind = no_menu; triage_seed = codes "" })
            b))
    quiet = (refl, started-send b.effects _ _)

pub select_number-Turns :
    {said : Bool} (m : Machine) (n : ℤ) (b : Bridge) → Turns said b (select_number m n b)
unfolding select_number reply set_user emit
select_number-Turns {said = said} m n b = by_menu b.user.pending_kind
  where
    by_menu :
        (menu : Menu)
        → Turns said b (elim menu [
          | location_menu ↦ pick_location m (picked n b.user.pending_loc) b
          | session_menu ↦ pick_session m (picked n b.user.pending_sess) b
          | no_menu ↦ reply nothing_to_select b
        ])
    by_menu location_menu = inl (pick_location-Quiet m _ b)
    by_menu session_menu = pick_session-Turns m _ b
    by_menu no_menu = inl (refl, started-send b.effects _ _)

pub start_triage_reply-Quiet : (m : Machine) (b : Bridge) → Quiet b (start_triage_reply m b)
unfolding start_triage_reply reply set_user emit
start_triage_reply-Quiet m b = by_batch m.triage_batch
  where
    by_batch : (batch : Text ⊎ List Recipient) → Quiet b (enter_triage m batch b)
    by_batch (inl e) = (refl, started-send b.effects _ _)
    by_batch (inr []) = (refl, started-send b.effects _ _)
    by_batch (inr (r ∷ rs)) = (refl, started-send b.effects _ _)

pub reset_triage_brain-Quiet : (m : Machine) (b : Bridge) → Quiet b (reset_triage_brain m b)
unfolding reset_triage_brain reply set_user emit
reset_triage_brain-Quiet m b = by_error m.reset_error
  where
    by_error : (e : Option Text) → Quiet b (cleared e b)
    by_error none = (
      if-either (λ (st : UserState). st.busy ≡ b.user.busy) b.user.triage_session _ _ (λ _. refl)
          (λ _. refl),
      started-send b.effects _ _,
    )
    by_error (some e) = (refl, started-send b.effects _ _)
