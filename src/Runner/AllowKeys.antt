-- ===== src/Runner/AllowKeys.antt =====
-- internal/runner/config.go: the canonical keys of allow-list entries and inbound senders.
pub mod Canonical
pub mod Platforms
use zcoms_agent.Prelude.{
  ℕ, Bool, true, false, not, List, [], ◌∷◌, ◌++◌, ◌&&◌, ◌||◌, ◌==◌, leb, if◌then◌else◌,
}
use zcoms_agent.Prelude.Text.{Text, codes, text_eq, trim_space, to_lower, has_prefix}

-- What stands before the first '@'.
unfoldable pub before_at : Text → Text
before_at [] = []
before_at (c ∷ s) = let rest = before_at s in if c == b'@' then [] else c ∷ rest

unfoldable pub is_digit : ℕ → Bool
is_digit c = leb b'0' c && leb c b'9'

unfoldable pub only_digits : Text → Text
unfolding is_digit
only_digits [] = []
only_digits (c ∷ s) = let rest = only_digits s in if is_digit c then c ∷ rest else rest

-- WADigits
unfoldable pub wa_digits : Text → Text
unfolding before_at only_digits
wa_digits s = only_digits (before_at s)

unfoldable pub all_digits : Text → Bool
unfolding is_digit
all_digits [] = true
all_digits (c ∷ s) = is_digit c && all_digits s

-- The test of looksLikePhone on the trimmed text.
unfoldable pub is_phone : Text → Bool
unfolding all_digits
is_phone [] = false
is_phone (c ∷ s) = if c == b'+' then true else all_digits (c ∷ s)

unfoldable pub looks_like_phone : Text → Bool
unfolding is_phone
looks_like_phone s = is_phone (trim_space s)

-- `h != "" && !strings.HasPrefix(h, "@") && !looksLikePhone(h)`
unfoldable pub needs_at : Text → Bool
unfolding looks_like_phone has_prefix
needs_at h =
    not (text_eq h (codes "")) && not (has_prefix h (codes "@")) && not (looks_like_phone h)

unfoldable pub with_at : Text → Text
unfolding needs_at
with_at h = if needs_at h then b'@' ∷ h else h

-- strings.TrimPrefix(h, "@")
unfoldable pub trim_at : Text → Text
trim_at [] = []
trim_at (c ∷ s) = if c == b'@' then s else c ∷ s

-- The three ways in which the platforms spell a handle, by the switch of both functions.
pub data Spelling : Type 0 where
  digits at_name bare : Spelling

unfoldable pub spelling : Text → Spelling
spelling p =
    if text_eq p (codes "whatsapp")
    then digits
    else if text_eq p (codes "") || text_eq p (codes "telegram")
    then at_name
    else bare

abbrev pub key_by : Spelling → Text → Text → Text
key_by digits p handle = codes "whatsapp|" ++ wa_digits handle
key_by at_name p handle = codes "telegram|" ++ with_at (to_lower (trim_space handle))
key_by bare p handle = p ++ codes "|" ++ to_lower (trim_at (trim_space handle))

-- AllowKey
unfoldable pub allow_key : Text → Text → Text
unfolding spelling wa_digits with_at trim_at
allow_key platform handle = let p = to_lower (trim_space platform) in key_by (spelling p) p handle

abbrev pub handle_by : Spelling → Text → Text
handle_by digits handle = wa_digits handle
handle_by at_name handle = with_at (trim_space handle)
handle_by bare handle = trim_at (trim_space handle)

-- NormalizeAllowHandle
unfoldable pub normalize_allow_handle : Text → Text → Text
unfolding spelling wa_digits with_at trim_at
normalize_allow_handle platform handle =
    handle_by (spelling (to_lower (trim_space platform))) handle

-- IsAllowPlatform
unfoldable pub is_allow_platform : Text → Bool
is_allow_platform s =
    let p = to_lower (trim_space s) in
    text_eq p (codes "telegram")
    || text_eq p (codes "whatsapp")
    || text_eq p (codes "instagram")
    || text_eq p (codes "discord")
    || text_eq p (codes "viber")
