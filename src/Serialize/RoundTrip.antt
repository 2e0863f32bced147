-- ===== src/Serialize/RoundTrip.antt =====
-- What was written is read back, whatever follows it.
use bitok_classic.Prelude.{ℕ, zero, suc, ◌/◌, ◌^◌, ◌<◌, ◌≤◌, ◌≡◌, refl, ap, Option, some}
use bitok_classic.Prelude.{List, [], ◌∷◌, ◌++◌, append_assoc, arith, Bytes, All, length}
use bitok_classic.Prelude.{take-append, drop-append, length-append}
use bitok_classic.Prelude.Int.{ℤ, pos, negsuc}
use native.Mathlib.Nat.{pow-suc}
use bitok_classic.Serialize.{
  write_uint, uint_value, read_uint, int64_bits, bits_int64, write_compact_size,
}
use bitok_classic.Serialize.{
  read_size_behind, read_compact_size, read_bytes, write_vector, read_vector,
}
use bitok_classic.Serialize.{write_elements, write_list, read_elements, read_list}

pub length-write_uint : (w n : ℕ) → length (write_uint w n) ≡ w
unfolding write_uint
length-write_uint zero n = refl
length-write_uint (suc w) n = ap suc (length-write_uint w (n / 256))

uint_value-write_uint : (w n : ℕ) → n < 256 ^ w → uint_value (write_uint w n) ≡ n
unfolding write_uint
uint_value-write_uint zero n h = omega arith
uint_value-write_uint (suc w) n h =
    omega (arith, uint_value-write_uint w (n / 256) (omega (arith, pow-suc 256 w)))

pub read_bytes-append : (v rest : Bytes) → read_bytes (length v) (v ++ rest) ≡ some (v, rest)
unfolding read_bytes
read_bytes-append v rest =
    ground (arith, take-append v rest, drop-append v rest, length-append v rest)

read_uint-append : (v rest : Bytes) → read_uint (length v) (v ++ rest) ≡ some (uint_value v, rest)
unfolding read_uint
read_uint-append v rest =
    ground (arith, take-append v rest, drop-append v rest, length-append v rest)

pub read_uint-write_uint :
    (w n : ℕ) (rest : Bytes) → n < 256 ^ w → read_uint w (write_uint w n ++ rest) ≡ some (n, rest)
read_uint-write_uint w n rest h =
    let e = read_uint-append (write_uint w n) rest in
    rw (length-write_uint w n, uint_value-write_uint w n h) at e

abbrev pub IsInt64 : ℤ → Type 0
IsInt64 (pos n) = n < 2 ^ 63
IsInt64 (negsuc n) = n < 2 ^ 63

pub bits_int64-int64_bits : (z : ℤ) → IsInt64 z → bits_int64 (int64_bits z) ≡ z
unfolding bits_int64 int64_bits
bits_int64-int64_bits (pos n) h = ground arith
bits_int64-int64_bits (negsuc n) h = ground arith

pub int64_bits-lt : (z : ℤ) → int64_bits z < 2 ^ 64
unfolding int64_bits
int64_bits-lt (pos n) = omega arith
int64_bits-lt (negsuc n) = omega arith

read_size_behind-write :
    (n : ℕ) (ch : ℕ) (v rest : Bytes)
    → write_compact_size n ≡ ch ∷ v
    → n < 2 ^ 64
    → read_size_behind ch (v ++ rest) ≡ some (n, rest)
unfolding write_compact_size read_size_behind
read_size_behind-write n ch v rest e h = ground (
  arith,
  read_uint-write_uint 2 n rest,
  read_uint-write_uint 4 n rest,
  read_uint-write_uint 8 n rest,
)

-- `ReadCompactSize` reads back a size up to INT_MAX that `WriteCompactSize` wrote.
pub read_compact_size-write_compact_size :
    (n : ℕ) (rest : Bytes)
    → n ≤ 2147483647
    → read_compact_size (write_compact_size n ++ rest) ≡ some (n, rest)
unfolding read_compact_size
read_compact_size-write_compact_size n rest h = go (write_compact_size n) refl
  where
    go : (v : Bytes) → write_compact_size n ≡ v → read_compact_size (v ++ rest) ≡ some (n, rest)
    go [] e = absurd (unfold write_compact_size in ground arith)
    go (ch ∷ v) e = ground (arith, read_size_behind-write n ch v rest e (omega arith))

abbrev pub IsSizeOk : ℕ → Type 0
IsSizeOk n = n ≤ 2147483647

pub read_vector-write_vector :
    (v rest : Bytes) → IsSizeOk (length v) → read_vector (write_vector v ++ rest) ≡ some (v, rest)
unfolding read_vector write_vector
read_vector-write_vector v rest h =
    rw (append_assoc (write_compact_size (length v)) v rest) (
      rw (read_compact_size-write_compact_size (length v) (v ++ rest) h) (read_bytes-append v rest))

-- A vector is read back if each of its elements is.
module _ {A : Type 0} (P : A → Type 0) (write : A → Bytes) (read : Bytes → Option (A × Bytes)) where
  read_elements-write_elements :
      ((x : A) (rest : Bytes) → P x → read (write x ++ rest) ≡ some (x, rest))
      → (xs : List A) (rest : Bytes) → All P xs
      → read_elements read (length xs) (write_elements write xs ++ rest) ≡ some (xs, rest)
  unfolding read_elements write_elements
  read_elements-write_elements back [] rest h = refl
  read_elements-write_elements back (x ∷ xs) rest h = rw (
    append_assoc (write x) (write_elements write xs) rest,
    back x (write_elements write xs ++ rest) h.0,
    read_elements-write_elements back xs rest h.1,
  )

  pub read_list-write_list :
      ((x : A) (rest : Bytes) → P x → read (write x ++ rest) ≡ some (x, rest))
      → (xs : List A) (rest : Bytes) → All P xs
      → IsSizeOk (length xs)
      → read_list read (write_list write xs ++ rest) ≡ some (xs, rest)
  unfolding read_list write_list
  read_list-write_list back xs rest h k =
      rw
        (
          append_assoc (write_compact_size (length xs)) (write_elements write xs) rest,
          read_compact_size-write_compact_size (length xs) (write_elements write xs ++ rest) k,
        )
        (read_elements-write_elements back xs rest h)
