-- ===== src/Script/Number/Format.antt =====
-- The format of numbers that OpenSSL documents for `BN_bn2mpi` and `BN_mpi2bn`: the size in four
-- bytes, then the bytes of the absolute value, the highest first, with the sign in the top bit. Seen
-- from `getvch` and `setvch`, which reverse the bytes, the lowest byte stands first.
use bitok_classic.Prelude.{ℕ, suc, zero, ◌+◌, ◌*◌, ◌/◌, ◌%◌, ◌^◌, ◌≡◌, ◌<◌, Bool, true, false}
use bitok_classic.Prelude.{[], ◌∷◌, ◌++◌, reverse, arith}
use bitok_classic.Prelude.{Bytes, IsByte, All, length, leb, ◌==◌, if◌then◌else◌}
use bitok_classic.Prelude.Int.{ℤ, pos, negsuc}
use bitok_classic.Script.Number.{Bignum, size_bytes, negated, get_vch, set_vch}
use mathlib.Core.List.{reverse-reverse}

-- The bytes of a number, the lowest first, none for 0.
unfoldable pub digits_loop : ℕ → ℕ → Bytes
digits_loop zero n = []
digits_loop (suc f) n =
    let rest = digits_loop f (n / 256) in if n == 0 then [] else (n % 256) ∷ rest

unfoldable pub digits : ℕ → Bytes
unfolding digits_loop
digits n = digits_loop n n

-- The sign goes into the top bit of the last byte, or into a byte of its own where that bit is taken.
unfoldable pub add_sign : Bool → Bytes → Bytes
add_sign neg [] = []
add_sign neg (b ∷ []) =
    if leb 128 b then b ∷ (if neg then 128 else 0) ∷ [] else (if neg then b + 128 else b) ∷ []
add_sign neg (b ∷ c ∷ bs) = b ∷ add_sign neg (c ∷ bs)

unfoldable pub encode : ℤ → Bytes
unfolding digits add_sign
encode (pos n) = add_sign false (digits n)
encode (negsuc n) = add_sign true (digits (suc n))

unfoldable pub sign_of : Bytes → Bool
sign_of [] = false
sign_of (b ∷ []) = leb 128 b
sign_of (b ∷ c ∷ bs) = sign_of (c ∷ bs)

unfoldable pub magnitude_of : Bytes → ℕ
magnitude_of [] = 0
magnitude_of (b ∷ []) = b % 128
magnitude_of (b ∷ c ∷ bs) = b + 256 * magnitude_of (c ∷ bs)

abbrev pub signed : Bool → ℕ → ℤ
signed false n = pos n
signed true n = negated n

unfoldable pub decode : Bytes → ℤ
unfolding sign_of magnitude_of
decode v = signed (sign_of v) (magnitude_of v)

-- What the library documents of the conversions that `getvch` and `setvch` call.
pub record IsMpi (bn : Bignum) : Type 0 where
  pub bn2mpi_format : (z : ℤ) → bn.bn2mpi z ≡ size_bytes (length (encode z)) ++ reverse (encode z)
  pub mpi2bn_format :
      (v : Bytes)
      → All IsByte v
      → length v < 2 ^ 31
      → bn.mpi2bn (size_bytes (length v) ++ reverse v) ≡ decode v

pub get_vch-encode : (bn : Bignum) → IsMpi bn → (z : ℤ) → get_vch bn z ≡ encode z
unfolding get_vch
get_vch-encode bn law z = rw (law.bn2mpi_format z) (ground (arith, reverse-reverse (encode z)))

pub set_vch-decode :
    (bn : Bignum)
    → IsMpi bn
    → (v : Bytes) → All IsByte v
    → length v < 2 ^ 31
    → set_vch bn v ≡ decode v
unfolding set_vch
set_vch-decode bn law v h k = law.mpi2bn_format v h k
