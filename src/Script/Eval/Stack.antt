-- ===== src/Script/Eval/Stack.antt =====
-- script.cpp: the block "Stack ops" of the switch. The top of a stack is the head of its list.
use bitok_classic.Prelude.{ℕ, Bool, Option, none, some, List, [], ◌∷◌, ◌>>=◌, ◌>>◌, refuse}
use bitok_classic.Prelude.{Bytes, length, get_elem?, erase_at, leb, if◌then◌else◌}
use bitok_classic.Prelude.Int.{ℤ, pos, negsuc}
use bitok_classic.Script.Opcode.{
  ShuffleOp, drop2, dup2, dup3, over2, rot2, swap2, ifdup, drop, dup, nip, over, rot, swap, tuck,
}
use bitok_classic.Script.Number.{get_int, cast_to_bool}
use bitok_classic.Script.Eval.State.{Context, number, vch_of}

unfoldable pub exec_shuffle : ShuffleOp → List Bytes → Option (List Bytes)
exec_shuffle drop2 (x1 ∷ x2 ∷ s) = some s
exec_shuffle drop2 _ = none
exec_shuffle dup2 (x1 ∷ x2 ∷ s) = some (x1 ∷ x2 ∷ x1 ∷ x2 ∷ s)
exec_shuffle dup2 _ = none
exec_shuffle dup3 (x1 ∷ x2 ∷ x3 ∷ s) = some (x1 ∷ x2 ∷ x3 ∷ x1 ∷ x2 ∷ x3 ∷ s)
exec_shuffle dup3 _ = none
exec_shuffle over2 (x1 ∷ x2 ∷ x3 ∷ x4 ∷ s) = some (x3 ∷ x4 ∷ x1 ∷ x2 ∷ x3 ∷ x4 ∷ s)
exec_shuffle over2 _ = none
exec_shuffle rot2 (x1 ∷ x2 ∷ x3 ∷ x4 ∷ x5 ∷ x6 ∷ s) = some (x5 ∷ x6 ∷ x1 ∷ x2 ∷ x3 ∷ x4 ∷ s)
exec_shuffle rot2 _ = none
exec_shuffle swap2 (x1 ∷ x2 ∷ x3 ∷ x4 ∷ s) = some (x3 ∷ x4 ∷ x1 ∷ x2 ∷ s)
exec_shuffle swap2 _ = none
exec_shuffle ifdup (x1 ∷ s) = some (if cast_to_bool x1 then x1 ∷ x1 ∷ s else x1 ∷ s)
exec_shuffle ifdup _ = none
exec_shuffle drop (x1 ∷ s) = some s
exec_shuffle drop _ = none
exec_shuffle dup (x1 ∷ s) = some (x1 ∷ x1 ∷ s)
exec_shuffle dup _ = none
exec_shuffle nip (x1 ∷ x2 ∷ s) = some (x1 ∷ s)
exec_shuffle nip _ = none
exec_shuffle over (x1 ∷ x2 ∷ s) = some (x2 ∷ x1 ∷ x2 ∷ s)
exec_shuffle over _ = none
exec_shuffle rot (x1 ∷ x2 ∷ x3 ∷ s) = some (x3 ∷ x1 ∷ x2 ∷ s)
exec_shuffle rot _ = none
exec_shuffle swap (x1 ∷ x2 ∷ s) = some (x2 ∷ x1 ∷ s)
exec_shuffle swap _ = none
exec_shuffle tuck (x1 ∷ x2 ∷ s) = some (x1 ∷ x2 ∷ x1 ∷ s)
exec_shuffle tuck _ = none

-- The tests `n < 0` of an int.
abbrev pub non_negative : ℤ → Option ℕ
non_negative (pos n) = some n
non_negative (negsuc n) = none

-- OP_PICK, and with `roll` OP_ROLL.
unfoldable pub exec_pick_roll : Context → Bool → List Bytes → Option (List Bytes)
exec_pick_roll c roll (x1 ∷ x2 ∷ s) = do
  z ← number c x1
  n ← non_negative (get_int c.bn z)
  refuse (leb (length (x2 ∷ s)) n)
  vch ← get_elem? (x2 ∷ s) n
  some (vch ∷ (if roll then erase_at n (x2 ∷ s) else (x2 ∷ s)))
exec_pick_roll c roll _ = none

-- OP_DEPTH
unfoldable pub exec_depth : Context → List Bytes → List Bytes
exec_depth c s = vch_of c (pos (length s)) ∷ s

-- OP_TOALTSTACK and OP_FROMALTSTACK, on the stack and the other stack.
unfoldable pub exec_to_altstack : List Bytes → List Bytes → Option (List Bytes × List Bytes)
exec_to_altstack [] alt = none
exec_to_altstack (x1 ∷ s) alt = some (s, x1 ∷ alt)

unfoldable pub exec_from_altstack : List Bytes → List Bytes → Option (List Bytes × List Bytes)
exec_from_altstack s [] = none
exec_from_altstack s (x1 ∷ alt) = some (x1 ∷ s, alt)
