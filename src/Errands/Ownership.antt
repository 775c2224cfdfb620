-- ===== src/Errands/Ownership.antt =====
-- internal/errands/comp.go and runtime.go: which chats belong to errands, as claims.json tells the other
-- components and as the router asks. A walk of the map of errands is a list.
use zcoms_agent.Prelude.{
  Bool, true, false, List, [], ◌∷◌, Option, none, some, ◌≡◌, refl, ◌&&◌, not, arith, if◌then◌else◌,
}
use zcoms_agent.Prelude.Text.{Text, codes, text_eq}
use zcoms_agent.Prelude.Int.{ℤ, eq_ℤ}
use zcoms_agent.Runner.Claims.{Claims, has_tg, has_wa, mem_chat, mem_jid}
use zcoms_agent.Errands.Errand.{Errand, is_active}

abbrev is_wa : Errand → Bool
is_wa e = text_eq e.source (codes "wa")

abbrev claim_of : Errand → Claims → Claims
claim_of e c =
    if is_active e
    then (if is_wa e
        then record c { wa = e.wa_chat ∷ c.wa }
        else record c { tg = e.tg_chat ∷ c.tg })
    else c

-- syncClaims: the claims that are written, with the chats of the interviews in flight
unfoldable pub sync_claims : List Errand → List ℤ → Claims
unfolding is_active
sync_claims [] interviews = record { tg = interviews; wa = [] }
sync_claims (e ∷ errands) interviews = claim_of e (sync_claims errands interviews)

-- activeErrandForTG
unfoldable pub active_errand_for_tg : ℤ → List Errand → Option Errand
unfolding is_active
active_errand_for_tg chat [] = none
active_errand_for_tg chat (e ∷ errands) =
    let rest : Option Errand = active_errand_for_tg chat errands in
    if not (is_wa e) && eq_ℤ e.tg_chat chat && is_active e then some e else rest

-- activeErrandForWA
unfoldable pub active_errand_for_wa : Text → List Errand → Option Errand
unfolding is_active
active_errand_for_wa jid [] = none
active_errand_for_wa jid (e ∷ errands) =
    let rest : Option Errand = active_errand_for_wa jid errands in
    if is_wa e && text_eq e.wa_chat jid && is_active e then some e else rest

abbrev pub is_some : Option Errand → Bool
is_some none = false
is_some (some e) = true

-- Owns
unfoldable pub owns : ℤ → List ℤ → List Errand → Bool
unfolding active_errand_for_tg
owns chat interviews errands =
    if mem_chat chat interviews then true else is_some (active_errand_for_tg chat errands)

-- OwnsWA
unfoldable pub owns_wa : Text → List Errand → Bool
unfolding active_errand_for_wa
owns_wa jid errands = is_some (active_errand_for_wa jid errands)

-- The claims that are written name a chat of Telegram or of WhatsApp exactly if the router is told
-- that the chat is one of the errands or of the interviews in flight.
pub sync_claims-owns :
    (errands : List Errand) (interviews : List ℤ) (chat : ℤ) (jid : Text)
    → has_tg (sync_claims errands interviews) chat ≡ owns chat interviews errands
      × has_wa (sync_claims errands interviews) jid ≡ owns_wa jid errands
unfolding sync_claims has_tg has_wa owns owns_wa mem_chat mem_jid is_active
sync_claims-owns [] interviews chat jid = (ground arith, refl)
sync_claims-owns (e ∷ errands) interviews chat jid =
    let h = sync_claims-owns errands interviews chat jid in
    (ground (arith, h.0), ground (arith, h.1))
