-- ===== src/Script/Parse.antt =====
-- script.h: `CScript`, a vector of bytes. An iterator is the list of the bytes from it to the end.
pub mod Laws
pub mod PushOnly
pub mod Delete
use bitok_classic.Prelude.{
  ℕ, zero, suc, ◌+◌, ◌-◌, ◌*◌, ◌/◌, ◌%◌, ◌^◌, ◌≤◌, Bool, true, false, ◌&&◌, ◌||◌, not,
}
use bitok_classic.Prelude.{
  Option, none, some, List, [], ◌∷◌, ◌++◌, ◌>>=◌, Outcome, done, fail, stuck,
}
use bitok_classic.Prelude.{Bytes, bytes_eq, length, take, drop, leb, ltb, ◌==◌, if◌then◌else◌}
use bitok_classic.Script.Opcode.{
  op_0, op_pushdata1, op_pushdata2, op_pushdata4, op_1, op_16, op_1negate, op_singlebyte_end,
}

-- The number in the first bytes of an unsigned integer, as `memcpy` reads it on a little-endian host.
abbrev pub le_value : Bytes → ℕ
le_value [] = 0
le_value (b ∷ bs) = b + 256 * le_value bs

-- `memcpy(&nSize, &pc[0], n)` with its test for the end of the script.
pub read_le : ℕ → Bytes → Option (ℕ × Bytes)
read_le n pc = if ltb (length pc) n then none else some (le_value (take n pc), drop n pc)

-- The opcode: one byte, or two from OP_SINGLEBYTE_END on (`opcode <<= 8; opcode |= *pc++`).
pub read_opcode : Bytes → Option (ℕ × Bytes)
read_opcode [] = none
read_opcode (b ∷ pc) =
    if leb op_singlebyte_end b
    then elim pc [ [] ↦ none | c ∷ pc' ↦ some (256 * b + c, pc') ]
    else some (b, pc)

-- The size of the immediate operand of an opcode up to OP_PUSHDATA4.
pub read_size : ℕ → Bytes → Option (ℕ × Bytes)
read_size opcode pc =
    if opcode == op_pushdata1
    then read_le 1 pc
    else if opcode == op_pushdata2
    then read_le 2 pc
    else if opcode == op_pushdata4
    then read_le 4 pc
    else some (opcode, pc)

pub take_operand : ℕ → ℕ → Bytes → Option (ℕ × Bytes × Bytes)
take_operand opcode n pc = if ltb (length pc) n then none else some (opcode, take n pc, drop n pc)

pub read_operand : ℕ → Bytes → Option (ℕ × Bytes × Bytes)
read_operand opcode pc = do (n, pc') ← read_size opcode pc; take_operand opcode n pc'

-- `GetOp`: the opcode, the bytes that it pushes, and the iterator behind; `none` where it returns
-- false.
unfoldable pub get_op : Bytes → Option (ℕ × Bytes × Bytes)
unfolding read_opcode read_size read_le take_operand read_operand
get_op pc = do
  (opcode, pc') ← read_opcode pc
  if leb opcode op_pushdata4 then read_operand opcode pc' else some (opcode, [], pc')

-- `operator<<(const vector<unsigned char>&)`: the bytes that it inserts at the end. `nSize` is an
-- unsigned short.
unfoldable pub push_data : Bytes → Bytes
push_data b =
    if ltb (length b) op_pushdata1
    then length b ∷ b
    else if leb (length b) 0xff
    then op_pushdata1 ∷ length b ∷ b
    else op_pushdata2 ∷ (length b % 2 ^ 16 % 256) ∷ (length b % 2 ^ 16 / 256) ∷ b

-- `operator<<(opcodetype)`.
unfoldable pub push_opcode : ℕ → Bytes
push_opcode opcode =
    if leb opcode op_singlebyte_end
    then (opcode % 256) ∷ []
    else (opcode / 256 % 256) ∷ (opcode % 256) ∷ []

-- `IsPushOnly`, with a unit of fuel for each instruction.
unfoldable pub push_only_loop : ℕ → Bytes → Outcome (Unit {0})
push_only_loop fuel [] = done tt
push_only_loop zero (b ∷ pc) = stuck
push_only_loop (suc fuel) (b ∷ pc) = elim (get_op (b ∷ pc)) [
  | none ↦ fail
  | some (opcode, _, pc') ↦ elim (ltb op_16 opcode) [
    | true ↦ fail
    | false ↦ push_only_loop fuel pc'
  ]
]

abbrev pub is_done {ℓ} : {A : Type ℓ} → Outcome A → Bool
is_done (done a) = true
is_done fail = false
is_done stuck = false

unfoldable pub is_push_only : Bytes → Bool
unfolding push_only_loop
is_push_only script = is_done (push_only_loop (length script) script)

-- `end() - pc >= b.size() && memcmp(&pc[0], &b[0], b.size()) == 0`
abbrev pub begins_with : Bytes → Bytes → Bool
begins_with b pc = leb (length b) (length pc) && bytes_eq (take (length b) pc) b

-- The inner loop of `FindAndDelete`: it erases `b` while the rest begins with it.
unfoldable pub erase_front : ℕ → Bytes → Bytes → Bytes
erase_front zero b pc = pc
erase_front (suc fuel) b pc =
    let rest = erase_front fuel b (drop (length b) pc) in if begins_with b pc then rest else pc

-- The outer loop. What stands before the iterator is kept.
unfoldable pub delete_loop : ℕ → Bytes → Bytes → Bytes
delete_loop zero b pc = pc
delete_loop (suc fuel) b pc =
    let here = erase_front (length pc) b pc in
    elim (get_op here) [
      | none ↦ here
      | some (_, _, pc') ↦ take (length here - length pc') here ++ delete_loop fuel b pc'
    ]

unfoldable pub find_and_delete : Bytes → Bytes → Bytes
unfolding erase_front delete_loop
find_and_delete b script = delete_loop (suc (length script)) b script
