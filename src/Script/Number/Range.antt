-- ===== src/Script/Number/Range.antt =====
-- Which numbers fit in four bytes, and that `CastToBigNum` takes back what `getvch` writes of them.
use bitok_classic.Prelude.{
  ℕ, suc, zero, ◌+◌, ◌*◌, ◌/◌, ◌%◌, ◌^◌, ◌≡◌, ◌≢◌, ◌<◌, ◌≤◌, inl, inr, Bool, true, false, refl,
}
use bitok_classic.Prelude.{[], ◌∷◌, arith, some, ◌∙◌, ap}
use bitok_classic.Prelude.{Bytes, IsByte, All, length, ltb, if◌then◌else◌, Bool-cases}
use bitok_classic.Prelude.Int.{ℤ, pos, negsuc}
use native.Mathlib.Nat.{pow-suc}
use bitok_classic.Script.Opcode.{max_bignum_size}
use bitok_classic.Script.Number.{Bignum, get_vch, cast_to_big_num}
use bitok_classic.Script.Number.Format.{
  digits, add_sign, encode, sign_of, magnitude_of, signed, decode,
}
use bitok_classic.Script.Number.Format.{IsMpi, get_vch-encode, set_vch-decode}
use bitok_classic.Script.Number.RoundTrip.{digits_step, digits-zero, digits_small, IsMinimal}
use bitok_classic.Script.Number.RoundTrip.{cast_to_big_num-minimal}

-- What the proofs below need of an encoding `v` of the sign `s` and the number `n`.
record Encodes (s : Bool) (n : ℕ) (v : Bytes) : Type 0 where
  some_byte : v ≢ []
  bytes : All IsByte v
  minimal : IsMinimal v
  sign : sign_of v ≡ s
  value : magnitude_of v ≡ n

abbrev sign_byte : Bool → ℕ
sign_byte s = if s then 128 else 0

Encodes-one : (s : Bool) (n : ℕ) → 0 < n → n < 128 → Encodes s n ((sign_byte s + n) ∷ [])
unfolding sign_of magnitude_of
Encodes-one true n h k = record {
  some_byte = λ p. cc;
  bytes = omega arith;
  minimal = omega arith;
  sign = ground arith;
  value = omega arith;
}
Encodes-one false n h k = record {
  some_byte = λ p. cc;
  bytes = omega arith;
  minimal = omega arith;
  sign = ground arith;
  value = omega arith;
}

Encodes-two : (s : Bool) (n : ℕ) → 128 ≤ n → n < 256 → Encodes s n (n ∷ sign_byte s ∷ [])
unfolding sign_of magnitude_of
Encodes-two true n h k = record {
  some_byte = λ p. cc;
  bytes = omega arith;
  minimal = inr h;
  sign = ground arith;
  value = omega arith;
}
Encodes-two false n h k = record {
  some_byte = λ p. cc;
  bytes = omega arith;
  minimal = inr h;
  sign = ground arith;
  value = omega arith;
}

Encodes-cons :
    (s : Bool) (b n : ℕ) (v : Bytes)
    → b < 256
    → 0 < n
    → Encodes s n v
    → Encodes s (b + 256 * n) (b ∷ v)
unfolding sign_of magnitude_of
Encodes-cons s b n [] h k e = absurd (e.some_byte refl)
Encodes-cons s b n (c ∷ []) h k e = record {
  some_byte = λ p. cc;
  bytes = (h, e.bytes);
  minimal = inl e.minimal;
  sign = e.sign;
  value = omega (arith, e.value);
}
Encodes-cons s b n (c ∷ d ∷ v) h k e = record {
  some_byte = λ p. cc;
  bytes = (h, e.bytes);
  minimal = e.minimal;
  sign = e.sign;
  value = omega (arith, e.value);
}

add_sign-cons :
    (s : Bool) (b c : ℕ) (bs : Bytes) → add_sign s (b ∷ c ∷ bs) ≡ b ∷ add_sign s (c ∷ bs)
unfolding add_sign
add_sign-cons s b c bs = refl

add_sign-digits_cons :
    (s : Bool) (b n : ℕ) → 0 < n → add_sign s (b ∷ digits n) ≡ b ∷ add_sign s (digits n)
add_sign-digits_cons s b n h = rw (digits_step n h) (add_sign-cons s b (n % 256) (digits (n / 256)))

add_sign_one : (s : Bool) (n : ℕ) → n < 128 → add_sign s (n ∷ []) ≡ (sign_byte s + n) ∷ []
unfolding add_sign
add_sign_one true n h = ground arith
add_sign_one false n h = ground arith

add_sign_two : (s : Bool) (n : ℕ) → 128 ≤ n → add_sign s (n ∷ []) ≡ n ∷ sign_byte s ∷ []
unfolding add_sign
add_sign_two s n h = ground arith

add_sign_large :
    (s : Bool) (n : ℕ) → 256 ≤ n → add_sign s (digits n) ≡ (n % 256) ∷ add_sign s (digits (n / 256))
add_sign_large s n h =
    rw (digits_step n (omega arith)) (add_sign-digits_cons s (n % 256) (n / 256) (omega arith))

Encodes-add_sign : (f : ℕ) (s : Bool) (n : ℕ) → n ≤ f → 0 < n → Encodes s n (add_sign s (digits n))
Encodes-add_sign zero s n h k = absurd (omega arith)
Encodes-add_sign (suc f) s n h k = elim (Bool-cases (ltb n 128)) [
  | inl a ↦
      rw (digits_small n k (ground arith), add_sign_one s n (ground arith))
        (Encodes-one s n k (ground arith))
  | inr a ↦ elim (Bool-cases (ltb n 256)) [
    | inl b ↦
        rw (digits_small n k (ground arith), add_sign_two s n (ground arith))
          (Encodes-two s n (ground arith) (ground arith))
    | inr b ↦
        let large : 256 ≤ n = ground arith in
        let whole : n % 256 + 256 * (n / 256) ≡ n = omega arith in
        rw (add_sign_large s n large) (
          rw whole at (
            Encodes-cons s (n % 256) (n / 256) (add_sign s (digits (n / 256))) (omega arith)
              (omega arith) (Encodes-add_sign f s (n / 256) (omega arith) (omega arith))))
  ]
]

encode_length :
    (k : ℕ) (s : Bool) (n : ℕ) → n < 128 * 256 ^ k → length (add_sign s (digits n)) ≤ suc k
encode_length k s zero h = rw digits-zero (unfold add_sign in omega arith)
encode_length zero s (suc n) h =
    rw (digits_small (suc n) (omega arith) (omega arith), add_sign_one s (suc n) h) (omega arith)
encode_length (suc k) s (suc n) h = elim (Bool-cases (ltb (suc n) 256)) [
  | inl a ↦ rw (digits_small (suc n) (omega arith) (ground arith)) (one_or_two s (suc n))
  | inr a ↦
      rw (add_sign_large s (suc n) (ground arith))
        (omega (arith, encode_length k s (suc n / 256) (omega (arith, pow-suc 256 k))))
]
  where
    one_or_two : (s : Bool) (n : ℕ) → length (add_sign s (n ∷ [])) ≤ suc (suc k)
    one_or_two s n = unfold add_sign in ground arith

-- The sign and the absolute value of an integer.
abbrev negative : ℤ → Bool
negative (pos n) = false
negative (negsuc n) = true

abbrev pub absolute : ℤ → ℕ
absolute (pos n) = n
absolute (negsuc n) = suc n

encode-add_sign : (z : ℤ) → encode z ≡ add_sign (negative z) (digits (absolute z))
unfolding encode
encode-add_sign (pos n) = refl
encode-add_sign (negsuc n) = refl

-- An integer below 128 * 256 ^ k is written in k + 1 bytes at most.
pub length-encode : (k : ℕ) (z : ℤ) → absolute z < 128 * 256 ^ k → length (encode z) ≤ suc k
length-encode k z h = rw (encode-add_sign z) (encode_length k (negative z) (absolute z) h)

record Decodes (z : ℤ) (v : Bytes) : Type 0 where
  is_byte : All IsByte v
  is_minimal : IsMinimal v
  decoded : decode v ≡ z

Decodes-Encodes : (s : Bool) (n : ℕ) (v : Bytes) → Encodes s n v → Decodes (signed s n) v
unfolding decode
Decodes-Encodes s n v e = record {
  is_byte = e.bytes;
  is_minimal = e.minimal;
  decoded = rw (e.sign, e.value);
}

Decodes-encode : (z : ℤ) → Decodes z (encode z)
unfolding encode
Decodes-encode (pos zero) = record {
  is_byte = tt;
  is_minimal = tt;
  decoded = unfold decode in refl;
}
Decodes-encode (pos (suc n)) =
    Decodes-Encodes false (suc n) _
      (Encodes-add_sign (suc n) false (suc n) (omega arith) (omega arith))
Decodes-encode (negsuc n) =
    Decodes-Encodes true (suc n) _
      (Encodes-add_sign (suc n) true (suc n) (omega arith) (omega arith))

module _ (bn : Bignum) (law : IsMpi bn) where
  pub get_vch-IsByte : (z : ℤ) → All IsByte (get_vch bn z)
  get_vch-IsByte z = rw (get_vch-encode bn law) ((Decodes-encode z).is_byte)

  pub length-get_vch : (k : ℕ) (z : ℤ) → absolute z < 128 * 256 ^ k → length (get_vch bn z) ≤ suc k
  length-get_vch k z h = rw (get_vch-encode bn law) (length-encode k z h)

  -- With the documented format of BIGNUMs, `CastToBigNum` under SCRIPT_VERIFY_EXEC takes what
  -- `getvch` writes of a number with an absolute value below 2 ^ 31, and reads the number back.
  pub cast_to_big_num-get_vch :
      (z : ℤ)
      → absolute z < 2 ^ 31
      → cast_to_big_num bn true max_bignum_size (get_vch bn z) ≡ some z
  cast_to_big_num-get_vch z h =
      let d = Decodes-encode z in
      let len = length-encode 3 z h in
      rw (get_vch-encode bn law) (
        cast_to_big_num-minimal bn (encode z) d.is_byte len d.is_minimal
        ∙ ap some (set_vch-decode bn law (encode z) d.is_byte (omega arith) ∙ d.decoded))
