-- ===== src/Script/Eval/Numeric.antt =====
-- script.cpp: the block "Numeric" of the switch, and the pushes of small numbers. A failed call of the
-- number library throws, and the code answers false.
use bitok_classic.Prelude.{
  ℕ, ◌-◌, ◌%◌, ◌^◌, Bool, true, false, not, ◌&&◌, ◌||◌, Option, none, some, List, ◌∷◌, ◌>>=◌, ◌>>◌,
  refuse,
}
use bitok_classic.Prelude.{Bytes, length, ltb, ◌==◌, if◌then◌else◌}
use bitok_classic.Prelude.Int.{ℤ, pos, negsuc}
use bitok_classic.Script.Opcode.{UnaryOp, BinaryOp, max_bignum_size, op_1, op_1negate}
use bitok_classic.Script.Number.{num_eq, num_lt, num_le, num_gt, num_ge, num_neg, cast_to_bool}
use bitok_classic.Script.Eval.State.{Context, number, vch_of, bool_vch}

-- OP_1NEGATE and OP_1 to OP_16: the opcode less OP_1 - 1.
abbrev pub small_number : ℕ → ℤ
small_number opcode = if opcode == op_1negate then negsuc 0 else pos (opcode - (op_1 - 1))

-- A Boolean as a number.
abbrev bool_num : Bool → ℤ
bool_num true = pos 1
bool_num false = pos 0

unfoldable pub apply_unary : Context → UnaryOp → ℤ → Option ℤ
apply_unary c UnaryOp.add1 a = c.bn.add a (pos 1)
apply_unary c UnaryOp.sub1 a = c.bn.sub a (pos 1)
apply_unary c UnaryOp.mul2 a = c.bn.lshift a 1
apply_unary c UnaryOp.div2 a = c.bn.rshift a 1
apply_unary c UnaryOp.negate a = some (num_neg c.bn a)
apply_unary c UnaryOp.abs a = some (if num_lt c.bn a (pos 0) then num_neg c.bn a else a)
apply_unary c UnaryOp.not a = some (bool_num (num_eq c.bn a (pos 0)))
apply_unary c UnaryOp.notequal0 a = some (bool_num (not (num_eq c.bn a (pos 0))))

-- The tests of a shift's second operand; the shift is an unsigned int.
abbrev shift_count : Context → ℤ → Option ℕ
shift_count c b = do
  refuse (num_lt c.bn b (pos 0))
  refuse (c.exec && num_gt c.bn b (pos 31))
  some (c.bn.get_word b % 2 ^ 32)

unfoldable pub apply_binary : Context → BinaryOp → ℤ → ℤ → Option ℤ
apply_binary c BinaryOp.add a b = c.bn.add a b
apply_binary c BinaryOp.sub a b = c.bn.sub a b
apply_binary c BinaryOp.mul a b = c.bn.mul a b
apply_binary c BinaryOp.div a b = do refuse (num_eq c.bn b (pos 0)); c.bn.div a b
apply_binary c BinaryOp.modulo a b = do refuse (num_eq c.bn b (pos 0)); c.bn.modulo a b
apply_binary c BinaryOp.lshift a b = do n ← shift_count c b; c.bn.lshift a n
apply_binary c BinaryOp.rshift a b = do n ← shift_count c b; c.bn.rshift a n
apply_binary c BinaryOp.booland a b =
    some (bool_num (not (num_eq c.bn a (pos 0)) && not (num_eq c.bn b (pos 0))))
apply_binary c BinaryOp.boolor a b =
    some (bool_num (not (num_eq c.bn a (pos 0)) || not (num_eq c.bn b (pos 0))))
apply_binary c BinaryOp.numequal a b = some (bool_num (num_eq c.bn a b))
apply_binary c BinaryOp.numequalverify a b = some (bool_num (num_eq c.bn a b))
apply_binary c BinaryOp.numnotequal a b = some (bool_num (not (num_eq c.bn a b)))
apply_binary c BinaryOp.lessthan a b = some (bool_num (num_lt c.bn a b))
apply_binary c BinaryOp.greaterthan a b = some (bool_num (num_gt c.bn a b))
apply_binary c BinaryOp.lessthanorequal a b = some (bool_num (num_le c.bn a b))
apply_binary c BinaryOp.greaterthanorequal a b = some (bool_num (num_ge c.bn a b))
apply_binary c BinaryOp.min a b = some (if num_lt c.bn a b then a else b)
apply_binary c BinaryOp.max a b = some (if num_gt c.bn a b then a else b)

-- `getvch` of a result, with the test of its size.
unfoldable pub sized_result : Context → ℤ → Option Bytes
sized_result c z = do
  let vch = vch_of c z
  refuse (c.exec && ltb max_bignum_size (length vch))
  some vch

unfoldable pub exec_unary : Context → UnaryOp → List Bytes → Option (List Bytes)
exec_unary c op (x1 ∷ s) = do
  a ← number c x1
  r ← apply_unary c op a
  vch ← sized_result c r
  some (vch ∷ s)
exec_unary c op _ = none

-- What OP_NUMEQUALVERIFY does with the result at last.
unfoldable pub verify_result : BinaryOp → Bytes → List Bytes → Option (List Bytes)
verify_result BinaryOp.numequalverify vch s = if cast_to_bool vch then some s else none
verify_result _ vch s = some (vch ∷ s)

unfoldable pub exec_binary : Context → BinaryOp → List Bytes → Option (List Bytes)
exec_binary c op (x1 ∷ x2 ∷ s) = do
  a ← number c x2
  b ← number c x1
  r ← apply_binary c op a b
  vch ← sized_result c r
  verify_result op vch s
exec_binary c op _ = none

-- OP_WITHIN
unfoldable pub exec_within : Context → List Bytes → Option (List Bytes)
exec_within c (x1 ∷ x2 ∷ x3 ∷ s) = do
  a ← number c x3
  b ← number c x2
  d ← number c x1
  some (bool_vch (num_le c.bn b a && num_lt c.bn a d) ∷ s)
exec_within c _ = none
