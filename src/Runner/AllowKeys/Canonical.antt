-- ===== src/Runner/AllowKeys/Canonical.antt =====
-- The keys of internal/runner/config.go and the ways in which one handle is written.
use zcoms_agent.Prelude.{
  true, false, [], ◌∷◌, ◌++◌, ◌≡◌, ◌≢◌, refl, ap, ◌∙◌, arith, inl, inr, Bool-cases,
}
use zcoms_agent.Prelude.Text.{
  Text, codes, text_eq, trim_space, to_lower, lower, has_prefix, is_space,
}
use zcoms_agent.Prelude.Text.Trim.{trim_space-trim_space, trim_space-cons, trim_space-to_lower}
use zcoms_agent.Runner.AllowKeys.{
  before_at, only_digits, wa_digits, all_digits, is_phone, looks_like_phone, needs_at, with_at,
  Spelling, digits, at_name, bare, spelling, key_by, allow_key, handle_by, normalize_allow_handle,
}

only_digits-only_digits : (s : Text) → only_digits (only_digits s) ≡ only_digits s
unfolding only_digits
only_digits-only_digits [] = refl
only_digits-only_digits (c ∷ s) = ground (arith, only_digits-only_digits s)

before_at-digits : (s r : Text) → before_at (only_digits s ++ b'@' ∷ r) ≡ only_digits s
unfolding before_at only_digits
before_at-digits [] r = refl
before_at-digits (c ∷ s) r = ground (arith, before_at-digits s r)

before_at-only_digits : (s : Text) → before_at (only_digits s) ≡ only_digits s
unfolding before_at only_digits
before_at-only_digits [] = refl
before_at-only_digits (c ∷ s) = ground (arith, before_at-only_digits s)

wa_digits-wa_digits : (s : Text) → wa_digits (wa_digits s) ≡ wa_digits s
unfolding wa_digits
wa_digits-wa_digits s =
    ap only_digits (before_at-only_digits (before_at s)) ∙ only_digits-only_digits (before_at s)

-- A WhatsApp number and the jid of its digits, with any suffix, have one allowlist key.
pub allow_key-jid :
    (handle suffix : Text)
    → allow_key (codes "whatsapp") (wa_digits handle ++ b'@' ∷ suffix)
      ≡ allow_key (codes "whatsapp") handle
unfolding allow_key wa_digits text_eq to_lower trim_space
allow_key-jid handle suffix =
    ap (λ t. codes "whatsapp|" ++ t)
      (ap only_digits (before_at-digits (before_at handle) suffix)
        ∙ only_digits-only_digits (before_at handle))

has_at-to_lower : (s : Text) → has_prefix (to_lower s) (codes "@") ≡ has_prefix s (codes "@")
unfolding has_prefix to_lower lower
has_at-to_lower [] = refl
has_at-to_lower (c ∷ s) = ground arith

all_digits-to_lower : (s : Text) → all_digits (to_lower s) ≡ all_digits s
unfolding all_digits to_lower lower
all_digits-to_lower [] = refl
all_digits-to_lower (c ∷ s) = ground (arith, all_digits-to_lower s)

is_phone-to_lower : (s : Text) → is_phone (to_lower s) ≡ is_phone s
unfolding is_phone to_lower lower
is_phone-to_lower [] = refl
is_phone-to_lower (c ∷ s) = ground (arith, all_digits-to_lower (c ∷ s))

phone-to_lower : (s : Text) → looks_like_phone (to_lower s) ≡ looks_like_phone s
unfolding looks_like_phone
phone-to_lower s = ap is_phone (trim_space-to_lower s) ∙ is_phone-to_lower (trim_space s)

empty-to_lower : (s : Text) → text_eq (to_lower s) (codes "") ≡ text_eq s (codes "")
unfolding text_eq to_lower
empty-to_lower [] = refl
empty-to_lower (c ∷ s) = refl

needs_at-to_lower : (s : Text) → needs_at (to_lower s) ≡ needs_at s
unfolding needs_at
needs_at-to_lower s = rw (empty-to_lower s, has_at-to_lower s, phone-to_lower s)

-- What has its '@' gets no other.
with_at-at : (s : Text) → with_at (b'@' ∷ s) ≡ b'@' ∷ s
unfolding with_at text_eq
with_at-at s = refl

lower_at : (s : Text) → to_lower (b'@' ∷ s) ≡ b'@' ∷ to_lower s
unfolding to_lower lower
lower_at s = refl

not_space-at : is_space b'@' ≡ false
unfolding is_space
not_space-at = refl

with_at-normalized :
    (x : Text)
    → with_at (to_lower (trim_space (with_at (trim_space x)))) ≡ with_at (to_lower (trim_space x))
with_at-normalized x = elim (Bool-cases (needs_at (trim_space x))) [
  | inl e ↦ cc (
    added e,
    trim_space-cons b'@' x not_space-at,
    lower_at (trim_space x),
    with_at-at (to_lower (trim_space x)),
    added_lower e,
  )
  | inr e ↦ cc (left_alone e, trim_space-trim_space x)
]
  where
    added : needs_at (trim_space x) ≡ true → with_at (trim_space x) ≡ b'@' ∷ trim_space x
    added e = unfold with_at in rw e refl

    left_alone : needs_at (trim_space x) ≡ false → with_at (trim_space x) ≡ trim_space x
    left_alone e = unfold with_at in rw e refl

    added_lower :
        needs_at (trim_space x) ≡ true
        → with_at (to_lower (trim_space x)) ≡ b'@' ∷ to_lower (trim_space x)
    added_lower e = unfold with_at in rw (needs_at-to_lower (trim_space x)) (rw e refl)

abbrev pub platform_of : Text → Text
platform_of p = to_lower (trim_space p)

-- On Telegram and WhatsApp a handle that is tidied for storage has the allowlist key that it had
-- before.
pub allow_key-normalize_allow_handle :
    (platform handle : Text)
    → spelling (platform_of platform) ≢ bare
    → allow_key platform (normalize_allow_handle platform handle) ≡ allow_key platform handle
unfolding allow_key normalize_allow_handle
allow_key-normalize_allow_handle platform handle routed =
    by_spelling (spelling (platform_of platform)) routed
  where
    by_spelling :
        (s : Spelling)
        → s ≢ bare
        → key_by s (platform_of platform) (handle_by s handle)
          ≡ key_by s (platform_of platform) handle
    by_spelling digits h = ap (λ t. codes "whatsapp|" ++ t) (wa_digits-wa_digits handle)
    by_spelling at_name h = ap (λ t. codes "telegram|" ++ t) (with_at-normalized handle)
    by_spelling bare h = absurd (h refl)
