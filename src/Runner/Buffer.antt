-- ===== src/Runner/Buffer.antt =====
-- internal/runner/runner.go, boundedBuffer: a writer that keeps the first bytes and drops the rest.
pub mod Bounds
use zcoms_agent.Prelude.{
  ℕ, zero, suc, ◌+◌, ◌-◌, ◌≤◌, List, [], ◌∷◌, ◌++◌, ◌≡◌, refl, arith, ltb, length, take,
  length-append, if◌then◌else◌, Bool-cases, inl, inr,
}
use zcoms_agent.Prelude.Text.{Text}

pub record BoundedBuffer : Type 0 where
  pub b : Text
  pub max : ℕ

-- Write: the buffer, and the count that is reported. `max - len` is negative in Go where it is 0
-- here, and the guard `room > 0` treats both alike.
unfoldable pub write : BoundedBuffer → Text → BoundedBuffer × ℕ
write w p =
    let room : ℕ = w.max - length w.b in
    (
      if ltb 0 room
          then (if ltb room (length p)
              then record w { b = w.b ++ take room p }
              else record w { b = w.b ++ p })
          else w,
      length p,
    )

unfoldable pub write_all : BoundedBuffer → List Text → BoundedBuffer
unfolding write
write_all w [] = w
write_all w (p ∷ ps) = write_all (write w p).0 ps
