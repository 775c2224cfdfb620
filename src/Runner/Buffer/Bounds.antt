-- ===== src/Runner/Buffer/Bounds.antt =====
-- The bounded buffer of internal/runner/runner.go over a sequence of writes.
use zcoms_agent.Prelude.{
  append_empty, append_assoc, concat, ℕ, zero, suc, ◌-◌, ◌≤◌, List, [], ◌∷◌, ◌++◌, ◌≡◌, refl, sym,
  ap, ◌∙◌, arith, length, take,
}
use zcoms_agent.Prelude.Text.{Text}
use zcoms_agent.Runner.Buffer.{BoundedBuffer, write, write_all}

module _ {ℓ} {A : Type ℓ} where
  take-all : (n : ℕ) (xs : List A) → length xs ≤ n → take n xs ≡ xs
  take-all zero [] h = refl
  take-all (suc n) [] h = refl
  take-all zero (x ∷ xs) h = absurd (omega (arith, h))
  take-all (suc n) (x ∷ xs) h = ap (λ ys. x ∷ ys) (take-all n xs (omega (arith, h)))

  take-zero : (n : ℕ) (xs : List A) → n ≤ 0 → take n xs ≡ []
  take-zero zero xs h = refl
  take-zero (suc n) xs h = absurd (omega (arith, h))

  take-append :
      (n : ℕ) (xs ys : List A) → length xs ≤ n → take n (xs ++ ys) ≡ xs ++ take (n - length xs) ys
  take-append n [] ys h = ap (λ m. take m ys) (omega arith)
  take-append zero (x ∷ xs) ys h = absurd (omega (arith, h))
  take-append (suc n) (x ∷ xs) ys h =
      ap (λ zs. x ∷ zs)
        (take-append n xs ys (omega (arith, h)) ∙ ap (λ m. xs ++ take m ys) (omega arith))

  take-take_append : (n : ℕ) (xs ys : List A) → take n (take n xs ++ ys) ≡ take n (xs ++ ys)
  take-take_append zero xs ys = refl
  take-take_append (suc n) [] ys = refl
  take-take_append (suc n) (x ∷ xs) ys = ap (λ zs. x ∷ zs) (take-take_append n xs ys)

  length-take : (n : ℕ) (xs : List A) → length (take n xs) ≤ n
  length-take zero xs = omega arith
  length-take (suc n) [] = omega arith
  length-take (suc n) (x ∷ xs) = omega (arith, length-take n xs)

write-max : (w : BoundedBuffer) (p : Text) → (write w p).0.max ≡ w.max
unfolding write
write-max w p = ground arith

-- The three branches of Write amount to one cut.
write_lem :
    (w : BoundedBuffer) (p : Text) → length w.b ≤ w.max → (write w p).0.b ≡ take w.max (w.b ++ p)
unfolding write
write_lem w p h = ground (
  arith,
  take-append w.max w.b p h,
  take-all (w.max - length w.b) p,
  take-zero (w.max - length w.b) p,
  append_empty w.b,
)

write_all-max : (w : BoundedBuffer) (ps : List Text) → (write_all w ps).max ≡ w.max
unfolding write_all
write_all-max w [] = refl
write_all-max w (p ∷ ps) = write_all-max (write w p).0 ps ∙ write-max w p

-- A bounded buffer that is within its limit holds, after any sequence of writes, exactly the
-- first bytes of all that was written, up to the limit.
pub write_all-take :
    (w : BoundedBuffer) (ps : List Text)
    → length w.b ≤ w.max
    → (write_all w ps).b ≡ take w.max (w.b ++ concat ps)
unfolding write_all
write_all-take w [] h = sym (ap (take w.max) (append_empty w.b) ∙ take-all w.max w.b h)
write_all-take w (p ∷ ps) h =
    write_all-take (write w p).0 ps bounded
    ∙ (rw (write_lem w p h, write-max w p)
        (take-take_append w.max (w.b ++ p) (concat ps)
          ∙ ap (take w.max) (append_assoc w.b p (concat ps))))
  where
    bounded : length (write w p).0.b ≤ (write w p).0.max
    bounded = rw (write_lem w p h, write-max w p) (length-take w.max (w.b ++ p))
