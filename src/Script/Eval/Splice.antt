-- ===== src/Script/Eval/Splice.antt =====
-- script.cpp: the blocks "Splice ops" and "Bitwise logic" of the switch.
use bitok_classic.Prelude.{
  ℕ, ◌+◌, ◌-◌, ◌^◌, min, Bool, ◌&&◌, Option, none, some, List, [], ◌∷◌, ◌++◌, ◌>>=◌, ◌>>◌, refuse,
}
use bitok_classic.Prelude.{
  Bytes, length, take, drop, replicate, bytes_eq, map, ltb, if◌then◌else◌, bit_and, bit_or, bit_xor,
}
use bitok_classic.Prelude.Int.{ℤ, pos, negsuc, ◌+ℤ◌, ltb_ℤ}
use bitok_classic.Script.Opcode.{BitOp, and, or, xor, max_script_element_size}
use bitok_classic.Script.Number.{get_int}
use bitok_classic.Script.Eval.State.{Context, number, vch_of, bool_vch}
use bitok_classic.Script.Eval.Stack.{non_negative}

-- OP_CAT
unfoldable pub exec_cat : Context → List Bytes → Option (List Bytes)
exec_cat c (x1 ∷ x2 ∷ s) = do
  refuse (c.exec && ltb max_script_element_size (length x2 + length x1))
  some ((x2 ++ x1) ∷ s)
exec_cat c _ = none

-- The sum of two ints. An overflow is undefined in C++; the model wraps around, as the usual
-- compilers' code does.
unfoldable pub add_int : ℤ → ℤ → ℤ
add_int a b = elim (a +ℤ b) [
  | pos n ↦ if ltb n (2 ^ 31) then pos n else negsuc (2 ^ 32 - 1 - n)
  | negsuc n ↦ if ltb n (2 ^ 31) then negsuc n else pos (2 ^ 32 - 1 - n)
]

-- OP_SUBSTR
unfoldable pub exec_substr : Context → List Bytes → Option (List Bytes)
unfolding add_int
exec_substr c (x1 ∷ x2 ∷ x3 ∷ s) = do
  b ← number c x2
  z ← number c x1
  let nb = get_int c.bn b
  let ne = add_int nb (get_int c.bn z)
  begin ← non_negative nb
  refuse (ltb_ℤ ne nb)
  end ← non_negative ne
  let vch = drop (min begin (length x3)) (take (min end (length x3)) x3)
  refuse (c.exec && ltb max_script_element_size (length vch))
  some (vch ∷ s)
exec_substr c _ = none

-- OP_LEFT, and with `right` OP_RIGHT.
unfoldable pub exec_left_right : Context → Bool → List Bytes → Option (List Bytes)
exec_left_right c right (x1 ∷ x2 ∷ s) = do
  z ← number c x1
  n ← non_negative (get_int c.bn z)
  let size = min n (length x2)
  some ((if right then drop (length x2 - size) x2 else take size x2) ∷ s)
exec_left_right c right _ = none

-- OP_SIZE
unfoldable pub exec_size : Context → List Bytes → Option (List Bytes)
exec_size c (x1 ∷ s) = some (vch_of c (pos (length x1)) ∷ x1 ∷ s)
exec_size c _ = none

-- OP_INVERT
unfoldable pub exec_invert : List Bytes → Option (List Bytes)
exec_invert (x1 ∷ s) = some (map (λ b. 255 - b) x1 ∷ s)
exec_invert _ = none

-- `MakeSameSize`: either vector is filled with zeros up to the size of the other.
abbrev pub filled : Bytes → Bytes → Bytes
filled v w = v ++ replicate (length w - length v) 0

abbrev pub bit_op : BitOp → ℕ → ℕ → ℕ
bit_op and = bit_and
bit_op or = bit_or
bit_op xor = bit_xor

-- The loops over the bytes of both vectors.
unfoldable pub zip_bytes : (ℕ → ℕ → ℕ) → Bytes → Bytes → Bytes
zip_bytes f [] w = []
zip_bytes f (a ∷ v) [] = []
zip_bytes f (a ∷ v) (b ∷ w) = f a b ∷ zip_bytes f v w

-- OP_AND, OP_OR and OP_XOR
unfoldable pub exec_bitwise : BitOp → List Bytes → Option (List Bytes)
unfolding zip_bytes
exec_bitwise op (x1 ∷ x2 ∷ s) = some (zip_bytes (bit_op op) (filled x2 x1) (filled x1 x2) ∷ s)
exec_bitwise op _ = none

-- A result in Boolean form: the VERIFY labels want it true and leave it out.
abbrev pub push_bool : Bool → Bool → List Bytes → Option (List Bytes)
push_bool verify b s = if verify then (if b then some s else none) else some (bool_vch b ∷ s)

-- OP_EQUAL, and with `verify` OP_EQUALVERIFY.
unfoldable pub exec_equal : Bool → List Bytes → Option (List Bytes)
exec_equal verify (x1 ∷ x2 ∷ s) = push_bool verify (bytes_eq x2 x1) s
exec_equal verify _ = none
