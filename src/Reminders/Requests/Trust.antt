-- ===== src/Reminders/Requests/Trust.antt =====
-- Whom the requests of internal/reminders may reach.
use zcoms_agent.Prelude.{
  Bool, true, false, not, List, [], ◌∷◌, ◌++◌, ◌&&◌, Option, none, some, ◌⊎◌, inl, inr, ◌≡◌, refl,
  arith, if-either, if◌then◌else◌, ℕ,
}
use zcoms_agent.Prelude.Text.{Text, codes, text_eq, trim_space}
use zcoms_agent.Runner.AllowKeys.{wa_digits}
use zcoms_agent.Store.Types.{Reminder, AllowEntry}
use zcoms_agent.Reminders.Words.{Requester, is_self}
use zcoms_agent.Reminders.Requests.{
  Contact, Directory, Target, Refusal, usage, switched_off, not_allowed, no_directory,
  contact_allow_listed, reachable, reached, self_or_owner, to_contact, resolve_target, for_target,
  requested, interpret_remind,
}

-- The address of the one who asks; where there is none, the chat of the owner.
abbrev pub OwnAddress : Directory → Requester → Text → Text → Type 0
OwnAddress d q transport addr =
    ((text_eq (trim_space q.address) (codes "") ≡ false)
      × (transport ≡ q.transport)
      × (addr ≡ trim_space q.address))
    ⊎ ((text_eq (trim_space q.address) (codes "") ≡ true)
        × (transport ≡ codes "telegram")
        × (d.owner_chat ≡ some addr))

-- The chat of the contact's handle on Telegram, or the address of its number on WhatsApp.
abbrev pub AddressOf : Directory → Contact → Text → Text → Type 0
AddressOf d c transport addr =
    ((transport ≡ codes "telegram")
      × (d.resolve (trim_space (c.address (codes "telegram"))) ≡ some addr))
    ⊎ ((transport ≡ codes "whatsapp")
        × (addr ≡ wa_digits (trim_space (c.address (codes "whatsapp"))) ++ codes "@s.whatsapp.net"))

-- A contact that the directory gives first for some name, and of whom the allowlist has a handle.
abbrev pub ListedContact : Directory → List AllowEntry → Text → Text → ℕ → Type 0
ListedContact d entries transport addr id =
    (who : Text) × (c : Contact) × (more : List Contact) × (d.contacts who ≡ some (c ∷ more))
    × (c.id ≡ id)
    × (contact_allow_listed entries c ≡ true)
    × AddressOf d c transport addr

abbrev pub IsTrusted : Directory → List AllowEntry → Requester → Text → Text → ℕ → Type 0
IsTrusted d entries q transport addr id =
    ((id ≡ 0) × OwnAddress d q transport addr) ⊎ ListedContact d entries transport addr id

abbrev TrustedTarget : Directory → List AllowEntry → Requester → Refusal ⊎ Target → Type 0
TrustedTarget d entries q (inl e) = Unit
TrustedTarget d entries q (inr t) = IsTrusted d entries q t.transport t.addr t.contact_id

reachable-Trusted :
    (d : Directory) (entries : List AllowEntry) (q : Requester) (who : Text) (c : Contact)
    (more : List Contact)
    → d.contacts who ≡ some (c ∷ more)
    → contact_allow_listed entries c ≡ true
    → TrustedTarget d entries q (reachable d c)
unfolding reachable
reachable-Trusted d entries q who c more found listed =
    if-either (TrustedTarget d entries q)
      (not (text_eq (trim_space (c.address (codes "telegram"))) (codes ""))) _ _
      (λ _.
        resolved (d.resolve (trim_space (c.address (codes "telegram"))))
          (λ chat e. inr (who, c, more, found, refl, listed, inl (refl, e))))
      (λ _.
        if-either (TrustedTarget d entries q)
          (not (text_eq (trim_space (c.address (codes "whatsapp"))) (codes ""))) _ _
          (λ _. inr (who, c, more, found, refl, listed, inr (refl, refl))) (λ _. tt))
  where
    resolved :
        (chat : Option Text)
        → ((a : Text) → chat ≡ some a → IsTrusted d entries q (codes "telegram") a c.id)
        → TrustedTarget d entries q (reached c chat)
    resolved none h = tt
    resolved (some chat) h = h chat refl

to_contact-Trusted :
    (d : Directory) (entries : List AllowEntry) (q : Requester) (who : Text) (l : List Contact)
    → q.owner ≡ false
    → d.contacts who ≡ some l
    → TrustedTarget d entries q (to_contact d entries q who l)
to_contact-Trusted d entries q who [] guest found = tt
to_contact-Trusted d entries q who (c ∷ more) guest found =
    if-either (TrustedTarget d entries q) (not q.owner && not (contact_allow_listed entries c))
      (inl (not_allowed c.name)) (reachable d c) (λ _. tt)
      (λ listed. reachable-Trusted d entries q who c more found (ground (arith, guest, listed)))

resolve_target-Trusted :
    (d : Directory) (entries : List AllowEntry) (q : Requester) (who : Text)
    → q.owner ≡ false
    → TrustedTarget d entries q (resolve_target d entries q who)
unfolding resolve_target
resolve_target-Trusted d entries q who guest =
    if-either (TrustedTarget d entries q) (is_self who) _ _
      (λ _.
        if-either (TrustedTarget d entries q) (text_eq (trim_space q.address) (codes "")) _ _
          (λ nowhere. by_owner d.owner_chat (λ chat e. inl (refl, inr (nowhere, refl, e))))
          (λ known. inl (refl, inl (known, refl, refl))))
      (λ _. by_matches (d.contacts who) (λ l guest e. to_contact-Trusted d entries q who l guest e))
  where
    by_owner :
        (o : Option Text)
        → ((a : Text) → o ≡ some a → IsTrusted d entries q (codes "telegram") a 0)
        → TrustedTarget d entries q (self_or_owner q o)
    by_owner none h = tt
    by_owner (some chat) h = h chat refl

    by_matches :
        (o : Option (List Contact))
        → ((l : List Contact)
            → q.owner ≡ false
            → o ≡ some l
            → TrustedTarget d entries q (to_contact d entries q who l))
        → TrustedTarget d entries q
            (elim o [ none ↦ inl no_directory | some matches ↦ to_contact d entries q who matches ])
    by_matches none h = tt
    by_matches (some l) h = h l guest refl

abbrev pub TrustedRow : Directory → List AllowEntry → Requester → Refusal ⊎ Reminder → Type 0
TrustedRow d entries q (inl e) = Unit
TrustedRow d entries q (inr r) =
    IsTrusted d entries q r.recipient_transport r.recipient_addr r.recipient_contact_id

for_target-Trusted :
    (d : Directory) (entries : List AllowEntry) (q : Requester) (task : Text) (t : Refusal ⊎ Target)
    → TrustedTarget d entries q t
    → TrustedRow d entries q (for_target d q task t)
for_target-Trusted d entries q task (inl e) h = tt
for_target-Trusted d entries q task (inr t) h = h

-- Whatever the agent makes of the words of a request, a reminder that a person other than the owner
-- asks for is sent to the address of that person, or where that has none to the chat of the owner; or
-- to an address of a contact that the directory gives for a name and of whom the allowlist has a handle.
pub requested-Trusted :
    (d : Directory) (entries : List AllowEntry) (enabled : Bool) (q : Requester) (text : Text)
    → q.owner ≡ false
    → TrustedRow d entries q (requested d entries enabled q text)
unfolding requested
requested-Trusted d entries enabled q text guest = read (interpret_remind d text)
  where
    read :
        (o : Option (Text × Text))
        → TrustedRow d entries q (elim o [
          | none ↦ inl usage
          | some p ↦
              if not enabled
              then inl switched_off
              else for_target d q p.1 (resolve_target d entries q p.0)
        ])
    read none = tt
    read (some (who, task)) =
        if-either (TrustedRow d entries q) (not enabled) (inl switched_off) _ (λ _. tt)
          (λ _.
            for_target-Trusted d entries q task _ (resolve_target-Trusted d entries q who guest))
