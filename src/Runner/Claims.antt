-- ===== src/Runner/Claims.antt =====
-- internal/runner/claims.go: the chats that a component owns, as the tests of membership read them.
use zcoms_agent.Prelude.{Bool, true, false, List, [], ◌∷◌, if◌then◌else◌}
use zcoms_agent.Prelude.Text.{Text, text_eq}
use zcoms_agent.Prelude.Int.{ℤ, eq_ℤ}

pub record Claims : Type 0 where
  pub tg : List ℤ
  pub wa : List Text

unfoldable pub mem_chat : ℤ → List ℤ → Bool
mem_chat id [] = false
mem_chat id (x ∷ xs) = if eq_ℤ x id then true else mem_chat id xs

unfoldable pub mem_jid : Text → List Text → Bool
mem_jid id [] = false
mem_jid id (x ∷ xs) = if text_eq x id then true else mem_jid id xs

unfoldable pub has_tg : Claims → ℤ → Bool
unfolding mem_chat
has_tg c id = mem_chat id c.tg

unfoldable pub has_wa : Claims → Text → Bool
unfolding mem_jid
has_wa c id = mem_jid id c.wa
