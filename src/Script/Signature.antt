-- ===== src/Script/Signature.antt =====
-- script.cpp: the encodings of signatures and pushes that SCRIPT_VERIFY_EXEC demands. A read of a
-- vector is `none` out of range, so that a result says that the code stayed inside.
pub mod Bounds
pub mod LowS
pub mod Minimal
use bitok_classic.Prelude.{
  ℕ, ◌+◌, ◌-◌, ◌^◌, ◌≤◌, Bool, true, false, ◌&&◌, ◌||◌, not, Option, none, some,
}
use bitok_classic.Prelude.{List, [], ◌∷◌, ◌++◌, ◌>>=◌, ◌>>◌, require, bit_and}
use bitok_classic.Prelude.{
  Bytes, length, get_elem?, take, drop, replicate, leb, ltb, ◌==◌, if◌then◌else◌,
}
use bitok_classic.Script.Opcode.{op_0, op_1, op_1negate, op_pushdata1, op_pushdata2}

-- `len > 1 && (sig[i] == 0x00) && !(sig[i + 1] & 0x80)`
pub padded : Bytes → ℕ → ℕ → Option Bool
padded sig len i = if leb len 1 then some false else do
  a ← get_elem? sig i
  if a == 0 then (do b ← get_elem? sig (i + 1); some (bit_and b 0x80 == 0)) else some false

-- The tests of one integer, R or S: its tag stands at `i - 2`, its first byte at `i`, and `len` is its
-- length.
pub bad_integer : Bytes → ℕ → ℕ → Option Bool
unfolding padded
bad_integer sig len i = do
  tag ← get_elem? sig (i - 2)
  if not (tag == 0x02) then some true else if len == 0 then some true else do
    first ← get_elem? sig i
    if not (bit_and first 0x80 == 0) then some true else padded sig len i

-- `IsValidSignatureEncoding`
unfoldable pub is_valid_signature_encoding : Bytes → Option Bool
unfolding bad_integer
is_valid_signature_encoding sig =
    if ltb (length sig) 9 then some false else if ltb 73 (length sig) then some false else do
      tag ← get_elem? sig 0
      size ← get_elem? sig 1
      len_r ← get_elem? sig 3
      if not (tag == 0x30)
          then some false
          else if not (size == length sig - 3)
          then some false
          else if leb (length sig) (5 + len_r)
          then some false
          else do
            len_s ← get_elem? sig (5 + len_r)
            if not (len_r + len_s + 7 == length sig) then some false else do
              bad_r ← bad_integer sig len_r 4
              if bad_r
                  then some false
                  else do bad_s ← bad_integer sig len_s (len_r + 6); some (not bad_s)

abbrev pub half_order : Bytes
half_order =
    0x7f ∷ 0xff ∷ 0xff ∷ 0xff ∷ 0xff ∷ 0xff ∷ 0xff ∷ 0xff ∷ 0xff ∷ 0xff ∷ 0xff ∷ 0xff ∷ 0xff ∷ 0xff
    ∷ 0xff ∷ 0xff ∷ 0x5d ∷ 0x57 ∷ 0x6e ∷ 0x73 ∷ 0x57 ∷ 0xa4 ∷ 0x50 ∷ 0x1d ∷ 0xdf ∷ 0xe9 ∷ 0x2f
    ∷ 0x46 ∷ 0x68 ∷ 0x1b ∷ 0x20 ∷ 0xa0 ∷ []

-- The loop of `IsLowDERSignature` over the two numbers of 32 bytes.
unfoldable pub low_loop : Bytes → Bytes → Bool
low_loop [] hs = true
low_loop (p ∷ ps) [] = true
low_loop (p ∷ ps) (h ∷ hs) = if ltb p h then true else if ltb h p then false else low_loop ps hs

-- `memcpy(paddedS + 32 - lenS, S, lenS)`, with S at `i`: `none` where the copy would begin before the
-- 32 bytes of `paddedS`, or read past the end of the signature.
unfoldable pub padded_s : Bytes → ℕ → ℕ → Option Bytes
padded_s sig len_s i =
    if leb len_s 32 && leb (i + len_s) (length sig)
    then some (replicate (32 - len_s) 0 ++ take len_s (drop i sig))
    else none

-- `IsLowDERSignature`
unfoldable pub is_low_der_signature : Bytes → Option Bool
unfolding low_loop padded_s
is_low_der_signature sig = do
  valid ← is_valid_signature_encoding sig
  if not valid then some false else do
    len_r ← get_elem? sig 3
    len_s ← get_elem? sig (5 + len_r)
    if ltb 32 len_s
        then some false
        else do s ← padded_s sig len_s (6 + len_r); some (low_loop s half_order)

-- `IsDefinedHashtypeSignature`: SIGHASH_ALL is 1 and SIGHASH_SINGLE is 3, behind the bit 0x80.
unfoldable pub is_defined_hashtype_signature : Bytes → Option Bool
is_defined_hashtype_signature sig = if length sig == 0 then some false else do
  b ← get_elem? sig (length sig - 1)
  let hash_type = bit_and b 0x7f
  some (not (ltb hash_type 1 || ltb 3 hash_type))

-- `CheckSignatureEncoding`; `exec` is the flag SCRIPT_VERIFY_EXEC.
unfoldable pub check_signature_encoding : Bool → Bytes → Option Bool
check_signature_encoding exec sig =
    if length sig == 0 then some true else if not exec then some true else do
      valid ← is_valid_signature_encoding sig
      if not valid then some false else do
        low ← is_low_der_signature sig
        if not low then some false else is_defined_hashtype_signature sig

-- `CheckMinimalPush`
unfoldable pub check_minimal_push : Bytes → ℕ → Bool
check_minimal_push [] opcode = opcode == op_0
check_minimal_push (b ∷ []) opcode =
    if leb 1 b && leb b 16
    then opcode == op_1 + (b - 1)
    else if b == 0x81
    then opcode == op_1negate
    else opcode == 1
check_minimal_push (a ∷ b ∷ v) opcode =
    let size = length (a ∷ b ∷ v) in
    if leb size 75
    then opcode == size
    else if leb size 255
    then opcode == op_pushdata1
    else if leb size 65535
    then opcode == op_pushdata2
    else true
