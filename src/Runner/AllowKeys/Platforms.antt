-- ===== src/Runner/AllowKeys/Platforms.antt =====
-- The keys of internal/runner/config.go and the platforms they are on.
use zcoms_agent.Prelude.{
  ℕ, true, [], ◌∷◌, ◌≡◌, ◌⊎◌, refl, sym, ap, ◌∙◌, arith, ◌==◌, inl, inr, if◌then◌else◌,
}
use zcoms_agent.Prelude.Text.{Text, codes, text_eq, text_eq_iff}
use zcoms_agent.Runner.AllowKeys.{spelling, key_by, allow_key, is_allow_platform}
use zcoms_agent.Runner.AllowKeys.Canonical.{platform_of}

-- The platform of a key is told by its first letter.
abbrev by_letter : ℕ → Text
by_letter c =
    if c == b'w'
    then codes "whatsapp"
    else if c == b't'
    then codes "telegram"
    else if c == b'i'
    then codes "instagram"
    else if c == b'd'
    then codes "discord"
    else codes "viber"

abbrev of_key : Text → Text
of_key [] = []
of_key (c ∷ key) = by_letter c

abbrev Named : Text → Type 0
Named p =
    p ≡ codes "telegram"
    ⊎ p ≡ codes "whatsapp"
    ⊎ p ≡ codes "instagram"
    ⊎ p ≡ codes "discord"
    ⊎ p ≡ codes "viber"

named : (s : Text) → is_allow_platform s ≡ true → Named (platform_of s)
unfolding is_allow_platform
named s h = ground (
  arith,
  text_eq_iff (platform_of s) (codes "telegram"),
  text_eq_iff (platform_of s) (codes "whatsapp"),
  text_eq_iff (platform_of s) (codes "instagram"),
  text_eq_iff (platform_of s) (codes "discord"),
  text_eq_iff (platform_of s) (codes "viber"),
)

of_key-key_by : (p handle : Text) → Named p → of_key (key_by (spelling p) p handle) ≡ p
unfolding spelling text_eq
of_key-key_by p handle (inl e) = rw e refl
of_key-key_by p handle (inr (inl e)) = rw e refl
of_key-key_by p handle (inr (inr (inl e))) = rw e refl
of_key-key_by p handle (inr (inr (inr (inl e)))) = rw e refl
of_key-key_by p handle (inr (inr (inr (inr e)))) = rw e refl

-- Two handles on supported platforms that have one allowlist key are on the same platform.
pub allow_key-platform :
    (p q h k : Text)
    → is_allow_platform p ≡ true
    → is_allow_platform q ≡ true
    → allow_key p h ≡ allow_key q k
    → platform_of p ≡ platform_of q
unfolding allow_key
allow_key-platform p q h k is_p is_q same =
    sym (of_key-key_by (platform_of p) h (named p is_p))
    ∙ ap of_key same
    ∙ of_key-key_by (platform_of q) k (named q is_q)
