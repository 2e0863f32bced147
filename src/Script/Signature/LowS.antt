-- ===== src/Script/Signature/LowS.antt =====
-- The loop of `IsLowDERSignature` compares two numbers, the highest byte first.
use bitok_classic.Prelude.{
  ℕ, suc, zero, ◌+◌, ◌*◌, ◌-◌, ◌^◌, ◌≤◌, ◌<◌, ◌≡◌, refl, ap, true, [], ◌∷◌, ◌++◌, arith,
}
use bitok_classic.Prelude.{Bytes, IsByte, All, length, replicate, leb}
use native.Mathlib.Nat.{pow-suc}
use bitok_classic.Prelude.{
  take, drop, get_or, some, length-append, length-take, length-drop, length-replicate, All-append,
  All-take, All-drop,
}
use bitok_classic.Script.Signature.{
  low_loop, half_order, padded_s, is_valid_signature_encoding, is_low_der_signature,
}
use bitok_classic.Script.Signature.Bounds.{get_elem?_lt, valid_layout}

-- The number of a list of bytes, the highest first.
pub be_value : Bytes → ℕ
be_value [] = 0
be_value (b ∷ bs) = b * 256 ^ length bs + be_value bs

-- A smaller leading digit makes a smaller number, whatever follows.
leading_lt : (a b m r : ℕ) → a < b → r < m → a * m + r < b * m
leading_lt a b m r h k = grind arith

be_value-lt : (v : Bytes) → All IsByte v → be_value v < 256 ^ length v
unfolding be_value
be_value-lt [] h = omega arith
be_value-lt (b ∷ v) h = omega (
  arith,
  leading_lt b 256 (256 ^ length v) (be_value v) h.0 (be_value-lt v h.1),
  pow-suc 256 (length v),
)

pub low_loop-be_value :
    (ps hs : Bytes)
    → All IsByte ps
    → All IsByte hs
    → length ps ≡ length hs
    → low_loop ps hs ≡ leb (be_value ps) (be_value hs)
unfolding low_loop be_value
low_loop-be_value [] [] h k e = refl
low_loop-be_value [] (x ∷ hs) h k e = absurd (omega arith)
low_loop-be_value (p ∷ ps) [] h k e = absurd (omega arith)
low_loop-be_value (p ∷ ps) (q ∷ hs) h k e =
    let same : length hs ≡ length ps = omega arith in
    ground (
      arith,
      ap (λ (n : ℕ). q * 256 ^ n) same,
      leading_lt p q (256 ^ length ps) (be_value ps) _ (be_value-lt ps h.1),
      leading_lt q p (256 ^ length hs) (be_value hs) _ (be_value-lt hs k.1),
      low_loop-be_value ps hs h.1 k.1 (omega arith),
    )

be_value-padding : (k : ℕ) (v : Bytes) → be_value (replicate k 0 ++ v) ≡ be_value v
unfolding be_value
be_value-padding zero v = refl
be_value-padding (suc k) v = omega (arith, be_value-padding k v)

padding-IsByte : (k : ℕ) → All IsByte (replicate k 0)
padding-IsByte zero = tt
padding-IsByte (suc k) = (omega arith, padding-IsByte k)

-- The bytes of S in a signature: behind R and two bytes more, as many as the byte before says.
abbrev pub s_bytes : Bytes → Bytes
s_bytes sig = take (get_or sig (5 + get_or sig 3 0) 0) (drop (6 + get_or sig 3 0) sig)

low_loop-s_bytes :
    (n : ℕ) (v : Bytes)
    → All IsByte v
    → length v ≡ n
    → n ≤ 32
    → low_loop (replicate (32 - n) 0 ++ v) half_order ≡ leb (be_value v) (be_value half_order)
low_loop-s_bytes n v h e k =
    rw
      (low_loop-be_value (replicate (32 - n) 0 ++ v) half_order
        (All-append IsByte (replicate (32 - n) 0) v (padding-IsByte (32 - n)) h) (omega arith)
        (omega (
          arith,
          length-append {0} (replicate (32 - n) 0) v,
          length-replicate {0} (32 - n) (zero),
        )))
      (rw (be_value-padding (32 - n) v))

-- Of a validly encoded signature of bytes whose S has up to 32 of them, `IsLowDERSignature` says
-- whether S, as a number, is at most half the order of the curve.
pub is_low_der_signature-be_value :
    (sig : Bytes)
    → All IsByte sig
    → is_valid_signature_encoding sig ≡ some true
    → get_or sig (5 + get_or sig 3 0) 0 ≤ 32
    → is_low_der_signature sig ≡ some (leb (be_value (s_bytes sig)) (be_value half_order))
unfolding is_low_der_signature padded_s
is_low_der_signature-be_value sig h v k =
    let len_r = get_or sig 3 0 in
    let len_s = get_or sig (5 + len_r) 0 in
    let layout = valid_layout sig v in
    let size : length (s_bytes sig) ≡ len_s =
      omega
        (arith, layout, length-take len_s (drop (6 + len_r) sig), length-drop (6 + len_r) sig) in
    let low =
      low_loop-s_bytes len_s (s_bytes sig)
        (All-take IsByte len_s _ (All-drop IsByte (6 + len_r) sig h)) size k in
    ground (arith, v, layout, low, get_elem?_lt sig 3, get_elem?_lt sig (5 + len_r))
