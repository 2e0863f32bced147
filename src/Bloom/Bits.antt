-- ===== src/Bloom/Bits.antt =====
-- Bits that are set and tested in a byte, computed for each of the 256 bytes.
use bitok_classic.Prelude.{
  ℕ, zero, suc, ◌^◌, ◌<◌, ◌≡◌, refl, bit_and, bit_or, Bool, true, false, not, ◌&&◌, ◌||◌, inl, inr,
  Bool-cases, arith,
}
use bitok_classic.Prelude.{ltb, ◌==◌, ==→eq}

all_below : (ℕ → Bool) → ℕ → Bool
all_below p zero = true
all_below p (suc bound) = p bound && all_below p bound

all_below-value :
    (p : ℕ → Bool) (bound : ℕ) → all_below p bound ≡ true → (b : ℕ) → b < bound → p b ≡ true
unfolding all_below
all_below-value p zero all b lt = absurd (omega (arith, lt))
all_below-value p (suc bound) all b lt =
    let (here, lower) = both (p bound) (all_below p bound) all in
    elim (Bool-cases (b == bound)) [
      | inl last ↦ rw (==→eq b bound last) here
      | inr other ↦ all_below-value p bound lower b (ground (arith, other))
    ]
  where
    both : (c d : Bool) → (c && d) ≡ true → (c ≡ true) × (d ≡ true)
    both true d e = (refl, e)
    both false d e = absurd (cc e)

abbrev pub bit_at : ℕ → ℕ → Bool
bit_at b i = not (bit_and b (2 ^ i) == 0)

keeps : ℕ → ℕ → ℕ → Bool
keeps b i j =
    ltb (bit_or b (2 ^ i)) 256
    && (bit_at (bit_or b (2 ^ i)) i && (not (bit_at b j) || bit_at (bit_or b (2 ^ i)) j))

all_keep : all_below (λ b. all_below (λ i. all_below (λ j. keeps b i j) 8) 8) 256 ≡ true
unfolding all_below keeps
all_keep = refl

keeps-true : (b i j : ℕ) → b < 256 → i < 8 → j < 8 → keeps b i j ≡ true
keeps-true b i j low li lj =
    all_below-value (λ j. keeps b i j) 8
      (all_below-value (λ i. all_below (λ j. keeps b i j) 8) 8
        (all_below-value (λ b. all_below (λ i. all_below (λ j. keeps b i j) 8) 8) 256 all_keep b
          low)
        i li)
      j lj

-- Setting a bit makes no more than a byte, sets the bit, and keeps every other one.
pub bit_or-keeps :
    (b i j : ℕ)
    → b < 256
    → i < 8
    → j < 8
    → (bit_or b (2 ^ i) < 256)
      × (bit_at (bit_or b (2 ^ i)) i ≡ true)
      × (bit_at b j ≡ true → bit_at (bit_or b (2 ^ i)) j ≡ true)
unfolding keeps
bit_or-keeps b i j low li lj =
    split (bit_or b (2 ^ i)) (bit_at (bit_or b (2 ^ i)) i) (bit_at b j)
      (bit_at (bit_or b (2 ^ i)) j) (keeps-true b i j low li lj)
  where
    split :
        (n : ℕ) (c d e : Bool)
        → (ltb n 256 && (c && (not d || e))) ≡ true
        → (n < 256) × (c ≡ true) × (d ≡ true → e ≡ true)
    split n c d e h = ground (arith, h)
