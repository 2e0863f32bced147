-- ===== src/Serialize.antt =====
-- serialize.h: fixed-width integers, the compact size, vectors. A stream is the list of its bytes; a
-- reader returns the value and the bytes behind it, or `none` where the stream throws.
pub mod RoundTrip
use bitok_classic.Prelude.{
  ℕ, zero, suc, ◌+◌, ◌-◌, ◌*◌, ◌/◌, ◌%◌, ◌^◌, Bool, true, false, Option, none, some,
}
use bitok_classic.Prelude.{
  List, [], ◌∷◌, ◌++◌, ◌>>=◌, ◌>>◌, refuse, Bytes, length, take, drop, leb, ltb, ◌==◌,
  if◌then◌else◌,
}
use bitok_classic.Prelude.Int.{ℤ, pos, negsuc}

-- `WRITEDATA` of an unsigned integer of `w` bytes on a little-endian host.
unfoldable pub write_uint : ℕ → ℕ → Bytes
write_uint zero n = []
write_uint (suc w) n = (n % 256) ∷ write_uint w (n / 256)

abbrev pub uint_value : Bytes → ℕ
uint_value [] = 0
uint_value (b ∷ bs) = b + 256 * uint_value bs

-- `READDATA` of an unsigned integer of `w` bytes.
unfoldable pub read_uint : ℕ → Bytes → Option (ℕ × Bytes)
read_uint w s = if ltb (length s) w then none else some (uint_value (take w s), drop w s)

-- An int64 as the unsigned integer with the same bits, and back.
unfoldable pub int64_bits : ℤ → ℕ
int64_bits (pos n) = n % 2 ^ 64
int64_bits (negsuc n) = 2 ^ 64 - 1 - n % 2 ^ 64

unfoldable pub bits_int64 : ℕ → ℤ
bits_int64 n = if ltb n (2 ^ 63) then pos n else negsuc (2 ^ 64 - 1 - n)

-- `WriteCompactSize`
unfoldable pub write_compact_size : ℕ → Bytes
write_compact_size n =
    if ltb n 253
    then n ∷ []
    else if leb n 65535
    then 253 ∷ write_uint 2 n
    else if leb n 4294967295
    then 254 ∷ write_uint 4 n
    else 255 ∷ write_uint 8 n

-- The number behind the first byte of a compact size.
unfoldable pub read_size_behind : ℕ → Bytes → Option (ℕ × Bytes)
read_size_behind ch s =
    if ltb ch 253
    then some (ch, s)
    else if ch == 253
    then read_uint 2 s
    else if ch == 254
    then read_uint 4 s
    else read_uint 8 s

-- `ReadCompactSize`; it throws on a size above INT_MAX.
unfoldable pub read_compact_size : Bytes → Option (ℕ × Bytes)
read_compact_size [] = none
read_compact_size (ch ∷ s) = do
  (n, s') ← read_size_behind ch s
  refuse (ltb 2147483647 n)
  some (n, s')

-- `s.read` of a number of bytes.
unfoldable pub read_bytes : ℕ → Bytes → Option (Bytes × Bytes)
read_bytes n s = if ltb (length s) n then none else some (take n s, drop n s)

-- A vector of bytes.
unfoldable pub write_vector : Bytes → Bytes
write_vector v = write_compact_size (length v) ++ v

unfoldable pub read_vector : Bytes → Option (Bytes × Bytes)
read_vector s = do (n, s') ← read_compact_size s; read_bytes n s'

-- A vector of other elements: its size, then each element in turn.
module _ {A : Type 0} where
  unfoldable pub write_elements : (A → Bytes) → List A → Bytes
  write_elements write [] = []
  write_elements write (x ∷ xs) = write x ++ write_elements write xs

  unfoldable pub write_list : (A → Bytes) → List A → Bytes
  write_list write xs = write_compact_size (length xs) ++ write_elements write xs

  unfoldable pub read_elements : (Bytes → Option (A × Bytes)) → ℕ → Bytes → Option (List A × Bytes)
  read_elements read zero s = some ([], s)
  read_elements read (suc n) s = do
    (x, s') ← read s
    (xs, s'') ← read_elements read n s'
    some (x ∷ xs, s'')

  unfoldable pub read_list : (Bytes → Option (A × Bytes)) → Bytes → Option (List A × Bytes)
  read_list read s = do (n, s') ← read_compact_size s; read_elements read n s'
