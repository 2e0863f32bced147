-- ===== src/Script/Number/RoundTrip.antt =====
-- A vector that `CastToBigNum` accepts under SCRIPT_VERIFY_EXEC is the one that `getvch` writes.
use bitok_classic.Prelude.{
  ℕ, suc, zero, ◌+◌, ◌-◌, ◌*◌, ◌/◌, ◌%◌, ◌≡◌, ◌≢◌, ◌<◌, ◌≤◌, ◌⊎◌, inl, inr, Bool, true, false, refl,
}
use bitok_classic.Prelude.{[], ◌∷◌, arith, some, ◌∙◌, sym}
use bitok_classic.Prelude.{Bytes, IsByte, All, length, get_or, leb, ◌==◌, Bool-cases}
use bitok_classic.Prelude.Int.{ℤ}
use bitok_classic.Prelude.Bits.{low_bits, top_bit}
use bitok_classic.Script.Opcode.{max_bignum_size}
use bitok_classic.Script.Number.{Bignum, get_vch, set_vch, has_padding, cast_to_big_num}
use bitok_classic.Script.Number.Format.{
  digits_loop, digits, add_sign, encode, sign_of, magnitude_of, signed, decode,
}
use bitok_classic.Script.Number.Format.{IsMpi, get_vch-encode, set_vch-decode}

digits_loop_fuel : (f g n : ℕ) → n ≤ f → n ≤ g → digits_loop f n ≡ digits_loop g n
unfolding digits_loop
digits_loop_fuel zero zero n p q = refl
digits_loop_fuel zero (suc g) n p q = ground arith
digits_loop_fuel (suc f) zero n p q = ground arith
digits_loop_fuel (suc f) (suc g) n p q = ground (arith, digits_loop_fuel f g (n / 256))

digits-suc : (n : ℕ) → digits (suc n) ≡ (suc n % 256) ∷ digits (suc n / 256)
unfolding digits digits_loop
digits-suc n = ground (arith, digits_loop_fuel n (suc n / 256) (suc n / 256))

-- The digits of a number, one byte and the rest.
pub digits_step : (n : ℕ) → 0 < n → digits n ≡ (n % 256) ∷ digits (n / 256)
digits_step zero h = absurd (omega arith)
digits_step (suc n) h = digits-suc n

pub digits-zero : digits 0 ≡ []
unfolding digits
digits-zero = refl

pub digits_small : (n : ℕ) → 0 < n → n < 256 → digits n ≡ n ∷ []
digits_small n h k = rw (digits_step n h) (ground (arith, digits-zero))

pub digits_cons : (b n : ℕ) → b < 256 → 0 < n → digits (b + 256 * n) ≡ b ∷ digits n
digits_cons b n h k = rw (digits_step (b + 256 * n) (omega arith)) (ground arith)

-- No byte of the encoding could be left out.
abbrev pub IsMinimal : Bytes → Type 0
IsMinimal [] = Unit
IsMinimal (b ∷ []) = 0 < b % 128
IsMinimal (b ∷ c ∷ []) = (0 < c % 128) ⊎ (128 ≤ b)
IsMinimal (b ∷ c ∷ d ∷ bs) = IsMinimal (c ∷ d ∷ bs)

magnitude_pos : (b c : ℕ) (bs : Bytes) → IsMinimal (b ∷ c ∷ bs) → 0 < magnitude_of (b ∷ c ∷ bs)
unfolding magnitude_of
magnitude_pos b c [] (inl h) = omega arith
magnitude_pos b c [] (inr h) = omega arith
magnitude_pos b c (d ∷ bs) h = omega (arith, magnitude_pos c d bs h)

add_sign_cons :
    (neg : Bool) (b : ℕ) (xs ys : Bytes) (y : ℕ)
    → add_sign neg xs ≡ y ∷ ys
    → add_sign neg (b ∷ xs) ≡ b ∷ y ∷ ys
unfolding add_sign
add_sign_cons neg b [] ys y e = absurd (cc)
add_sign_cons neg b (x ∷ xs) ys y e = cc

add_sign-digits_two :
    (b c : ℕ)
    → b < 256
    → c < 256
    → 0 < c % 128
    → add_sign (leb 128 c) (digits (b + 256 * (c % 128))) ≡ b ∷ c ∷ []
add_sign-digits_two b c p q m = rw (digits_cons b (c % 128) p m) (
    add_sign_cons (leb 128 c) b (digits (c % 128)) [] c
      (rw (digits_small (c % 128) m (omega arith)) (unfold add_sign in ground arith)))

add_sign-digits :
    (v : Bytes) → All IsByte v → IsMinimal v → add_sign (sign_of v) (digits (magnitude_of v)) ≡ v
unfolding sign_of magnitude_of
add_sign-digits [] h m = rw digits-zero (unfold add_sign in refl)
add_sign-digits (b ∷ []) h m =
    rw (digits_small (b % 128) m (omega arith)) (unfold add_sign in ground arith)
add_sign-digits (b ∷ c ∷ []) h (inl m) = add_sign-digits_two b c h.0 h.1.0 m
add_sign-digits (b ∷ c ∷ []) h (inr m) = elim (Bool-cases (c % 128 == 0)) [
  | inl z ↦
      let e : b + 256 * (c % 128) ≡ b = ground arith in
      rw (e, digits_small b (omega arith) h.0) (unfold add_sign in ground arith)
  | inr z ↦ add_sign-digits_two b c h.0 h.1.0 (ground arith)
]
add_sign-digits (b ∷ c ∷ d ∷ bs) h m =
    rw (digits_cons b (magnitude_of (c ∷ d ∷ bs)) h.0 (magnitude_pos c d bs m)) (
      add_sign_cons (sign_of (c ∷ d ∷ bs)) b (digits (magnitude_of (c ∷ d ∷ bs))) (d ∷ bs) c
        (add_sign-digits (c ∷ d ∷ bs) h.1 m))

pub encode-signed : (s : Bool) (n : ℕ) → encode (signed s n) ≡ add_sign s (digits n)
unfolding encode
encode-signed false n = refl
encode-signed true zero = rw digits-zero (unfold add_sign in refl)
encode-signed true (suc n) = refl

-- Written out again, a vector without redundant bytes is itself.
pub encode-decode : (v : Bytes) → All IsByte v → IsMinimal v → encode (decode v) ≡ v
unfolding decode
encode-decode v h m = encode-signed (sign_of v) (magnitude_of v) ∙ add_sign-digits v h m

-- The tests of `CastToBigNum` for redundant bytes find the last byte and the one before it.
last_cons :
    (b c : ℕ) (bs : Bytes)
    → get_or (b ∷ c ∷ bs) (length (b ∷ c ∷ bs) - 1) 0 ≡ get_or (c ∷ bs) (length (c ∷ bs) - 1) 0
last_cons b c bs =
    let e : suc (suc (length bs)) - 1 ≡ suc (suc (length bs) - 1) = omega arith in rw e

before_last_cons :
    (b c d : ℕ) (bs : Bytes)
    → get_or (b ∷ c ∷ d ∷ bs) (length (b ∷ c ∷ d ∷ bs) - 2) 0
      ≡ get_or (c ∷ d ∷ bs) (length (c ∷ d ∷ bs) - 2) 0
before_last_cons b c d bs =
    let e : suc (suc (suc (length bs))) - 2 ≡ suc (suc (suc (length bs)) - 2) = omega arith in rw e

has_padding_cons :
    (b c d : ℕ) (bs : Bytes) → has_padding (b ∷ c ∷ d ∷ bs) ≡ has_padding (c ∷ d ∷ bs)
unfolding has_padding
has_padding_cons b c d bs = rw (last_cons b c (d ∷ bs), before_last_cons b c d bs) (ground arith)

pub has_padding-IsMinimal :
    (v : Bytes) → All IsByte v → v ≢ [] → has_padding v ≡ false → IsMinimal v
has_padding-IsMinimal [] h k e = tt
has_padding-IsMinimal (b ∷ []) h k e = unfold has_padding in ground (arith, low_bits b)
has_padding-IsMinimal (b ∷ c ∷ []) h k e =
    unfold has_padding in ground (arith, low_bits c, top_bit b)
has_padding-IsMinimal (b ∷ c ∷ d ∷ bs) h k e =
    has_padding-IsMinimal (c ∷ d ∷ bs) h.1 (λ p. cc) (sym (has_padding_cons b c d bs) ∙ e)

IsMinimal-has_padding : (v : Bytes) → All IsByte v → v ≢ [] → IsMinimal v → has_padding v ≡ false
IsMinimal-has_padding [] h k m = absurd (k refl)
IsMinimal-has_padding (b ∷ []) h k m = unfold has_padding in ground (arith, low_bits b)
IsMinimal-has_padding (b ∷ c ∷ []) h k (inl m) =
    unfold has_padding in ground (arith, low_bits c, top_bit b)
IsMinimal-has_padding (b ∷ c ∷ []) h k (inr m) =
    unfold has_padding in ground (arith, low_bits c, top_bit b)
IsMinimal-has_padding (b ∷ c ∷ d ∷ bs) h k m =
    has_padding_cons b c d bs ∙ IsMinimal-has_padding (c ∷ d ∷ bs) h.1 (λ p. cc) m

-- What `CastToBigNum` has checked where it succeeds under SCRIPT_VERIFY_EXEC.
pub cast_to_big_num-facts :
    (bn : Bignum) (v : Bytes) (z : ℤ)
    → All IsByte v
    → cast_to_big_num bn true max_bignum_size v ≡ some z
    → (length v ≤ max_bignum_size) × IsMinimal v × (set_vch bn v ≡ z)
unfolding cast_to_big_num
cast_to_big_num-facts bn [] z h e = (omega arith, tt, ground arith)
cast_to_big_num-facts bn (b ∷ bs) z h e =
    (ground arith, has_padding-IsMinimal (b ∷ bs) h (λ p. cc) (ground arith), ground arith)

pub cast_to_big_num-minimal :
    (bn : Bignum) (v : Bytes)
    → All IsByte v
    → length v ≤ max_bignum_size
    → IsMinimal v
    → cast_to_big_num bn true max_bignum_size v ≡ some (set_vch bn v)
unfolding cast_to_big_num
cast_to_big_num-minimal bn [] h k m = refl
cast_to_big_num-minimal bn (b ∷ bs) h k m =
    ground (arith, IsMinimal-has_padding (b ∷ bs) h (λ p. cc) m)

module _ (bn : Bignum) (law : IsMpi bn) where
  -- With the documented format of BIGNUMs, a vector of bytes that `CastToBigNum` takes under
  -- SCRIPT_VERIFY_EXEC is what `getvch` writes for the number.
  pub get_vch-cast_to_big_num :
      (v : Bytes) (z : ℤ)
      → All IsByte v
      → cast_to_big_num bn true max_bignum_size v ≡ some z
      → get_vch bn z ≡ v
  get_vch-cast_to_big_num v z h e =
      let (small, minimal, value) = cast_to_big_num-facts bn v z h e in
      rw (get_vch-encode bn law, ← value, set_vch-decode bn law v h (omega arith))
        (encode-decode v h minimal)
