-- ===== src/Prelude/Bits.antt =====
-- The masks 0x7f and 0x80 of a byte as remainder and quotient. Both sides are computed for each of the
-- 256 bytes.
use Prim.Native.Nat.{ℕ, zero, suc, ◌*◌, ◌/◌, ◌%◌, ◌<◌, bit_and}
use mathlib.Core.Path.{◌≡◌, refl}
use mathlib.Core.Bool.{Bool, true, false}
use mathlib.Core.Logic.{inl, inr}
use native.Mathlib.Omega.{arith}
use bitok_classic.Prelude.Tests.{◌==◌, if◌then◌else◌, Bool-cases}

-- Whether two functions have the same values at the numbers under a bound.
agree : (ℕ → ℕ) → (ℕ → ℕ) → ℕ → Bool
agree f g zero = true
agree f g (suc bound) = let lower = agree f g bound in if f bound == g bound then lower else false

agree-value : (f g : ℕ → ℕ) (bound : ℕ) → agree f g bound ≡ true → (b : ℕ) → b < bound → f b ≡ g b
unfolding agree
agree-value f g zero same b below = absurd (omega (arith, below))
agree-value f g (suc bound) same b below =
    let (here, lower) = both (f bound) (g bound) (agree f g bound) same in
    elim (Bool-cases (b == bound)) [
      | inl last ↦ rw (equal b bound last) here
      | inr other ↦ agree-value f g bound lower b (ground (arith, other))
    ]
  where
    both : (m n : ℕ) (l : Bool) → (if m == n then l else false) ≡ true → (m ≡ n) × (l ≡ true)
    both m n l h = ground arith

    equal : (m n : ℕ) → (m == n) ≡ true → m ≡ n
    equal m n h = ground arith

agree-low : agree (λ b. bit_and b 0x7f) (λ b. b % 128) 256 ≡ true
unfolding agree
agree-low = refl

agree-top : agree (λ b. bit_and b 0x80) (λ b. b / 128 * 128) 256 ≡ true
unfolding agree
agree-top = refl

pub low_bits : (b : ℕ) → b < 256 → bit_and b 0x7f ≡ b % 128
low_bits = agree-value (λ b. bit_and b 0x7f) (λ b. b % 128) 256 agree-low

pub top_bit : (b : ℕ) → b < 256 → bit_and b 0x80 ≡ b / 128 * 128
top_bit = agree-value (λ b. bit_and b 0x80) (λ b. b / 128 * 128) 256 agree-top
