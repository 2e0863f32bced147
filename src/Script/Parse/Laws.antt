-- ===== src/Script/Parse/Laws.antt =====
-- `get_op` moves forward, keeps to the script, and reads back what `push_data` wrote.
use bitok_classic.Prelude.{ℕ, ◌+◌, ◌*◌, ◌≤◌, ◌<◌, ◌≡◌, ◌⊎◌, Option}
use bitok_classic.Prelude.{some, [], ◌∷◌, ◌++◌, arith, inl, inr}
use bitok_classic.Prelude.{Bytes, length, leb, ltb, if◌then◌else◌}
use bitok_classic.Prelude.{length-append, length-take, length-drop, take-append, drop-append}
use bitok_classic.Prelude.{Bool-cases, Option-cases, leb→le, ltb→lt}
use bitok_classic.Script.Opcode.{op_pushdata1, op_pushdata2, op_pushdata4}
use bitok_classic.Script.Parse.{
  read_le, read_opcode, read_size, take_operand, read_operand, get_op, push_data,
}

read_le_shorter :
    (n : ℕ) (pc : Bytes) (k : ℕ) (pc' : Bytes)
    → read_le n pc ≡ some (k, pc')
    → length pc' ≤ length pc
unfolding read_le
read_le_shorter n pc k pc' e = ground (arith, length-drop n pc)

read_size_shorter :
    (o : ℕ) (pc : Bytes) (k : ℕ) (pc' : Bytes)
    → read_size o pc ≡ some (k, pc')
    → length pc' ≤ length pc
unfolding read_size
read_size_shorter o pc k pc' e =
    ground
      (arith, read_le_shorter 1 pc k pc', read_le_shorter 2 pc k pc', read_le_shorter 4 pc k pc')

read_opcode_shorter :
    (pc : Bytes) (o : ℕ) (pc' : Bytes) → read_opcode pc ≡ some (o, pc') → length pc' < length pc
unfolding read_opcode
read_opcode_shorter [] o pc' e = cc
read_opcode_shorter (b ∷ []) o pc' e = ground arith
read_opcode_shorter (b ∷ c ∷ pc) o pc' e = ground arith

take_operand_shorter :
    (o k : ℕ) (pc : Bytes) (o' : ℕ) (v pc' : Bytes)
    → take_operand o k pc ≡ some (o', v, pc')
    → length v + length pc' ≤ length pc
unfolding take_operand
take_operand_shorter o k pc o' v pc' e = ground (arith, length-drop k pc, length-take k pc)

read_operand_shorter :
    (o : ℕ) (pc : Bytes) (o' : ℕ) (v pc' : Bytes)
    → read_operand o pc ≡ some (o', v, pc')
    → length v + length pc' ≤ length pc
unfolding read_operand
read_operand_shorter o pc o' v pc' e = elim (Option-cases (read_size o pc)) [
  | inl n ↦ absurd (cc)
  | inr ((k, rest), s) ↦
      ground (arith, s, read_size_shorter o pc k rest, take_operand_shorter o k rest o' v pc')
]

-- An instruction takes a byte at least, and what it pushes lies in what it takes.
pub get_op_shorter :
    (pc : Bytes) (o : ℕ) (v pc' : Bytes)
    → get_op pc ≡ some (o, v, pc')
    → length v + length pc' < length pc
unfolding get_op
get_op_shorter pc o v pc' e = elim (Option-cases (read_opcode pc)) [
  | inl n ↦ absurd (cc)
  | inr ((k, rest), s) ↦
      ground (arith, s, read_opcode_shorter pc k rest, read_operand_shorter k rest o v pc')
]

-- An operand stands behind its opcode.
take_operand-opcode :
    (o k : ℕ) (pc : Bytes) (o' : ℕ) (v pc' : Bytes)
    → take_operand o k pc ≡ some (o', v, pc')
    → o' ≡ o
unfolding take_operand
take_operand-opcode o k pc o' v pc' e = ground (arith, e)

read_operand-opcode :
    (o : ℕ) (pc : Bytes) (o' : ℕ) (v pc' : Bytes) → read_operand o pc ≡ some (o', v, pc') → o' ≡ o
unfolding read_operand
read_operand-opcode o pc o' v pc' e = elim (Option-cases (read_size o pc)) [
  | inl n ↦ absurd (cc)
  | inr ((k, rest), s) ↦ take_operand-opcode o k rest o' v pc' (rw s at e)
]

no_operand :
    (k o : ℕ) (v d rest pc' : Bytes)
    → ◌≡◌ {A = Option (ℕ × Bytes × Bytes)} (some (k, v, rest)) (some (o, d, pc'))
    → d ≡ v
no_operand k o v d rest pc' e = cc

-- An instruction that pushes data is a push.
pub get_op-pushed :
    (pc : Bytes) (o : ℕ) (v pc' : Bytes)
    → get_op pc ≡ some (o, v, pc')
    → (v ≡ []) ⊎ (o ≤ op_pushdata4)
unfolding get_op
get_op-pushed pc o v pc' e = elim (Option-cases (read_opcode pc)) [
  | inl n ↦ absurd (cc)
  | inr ((k, rest), s) ↦ elim (Bool-cases (leb k op_pushdata4)) [
    | inl push ↦ inr (ground (arith, push, read_operand-opcode k rest o v pc' (rw (s, push) at e)))
    | inr other ↦ inl (no_operand k o [] v rest pc' (rw (s, other) at e))
  ]
]

-- The opcode byte of `push_data`.
unfoldable pub push_opcode_of : Bytes → ℕ
push_opcode_of b =
    if ltb (length b) op_pushdata1
    then length b
    else if leb (length b) 0xff
    then op_pushdata1
    else op_pushdata2

take_operand-append :
    (o : ℕ) (v rest : Bytes) → take_operand o (length v) (v ++ rest) ≡ some (o, v, rest)
unfolding take_operand
take_operand-append o v rest =
    ground (arith, take-append v rest, drop-append v rest, length-append v rest)

read_operand_short :
    (v rest : Bytes)
    → length v < op_pushdata1
    → get_op ((length v ∷ v) ++ rest) ≡ some (length v, v, rest)
unfolding get_op
read_operand_short v rest h = ground (arith, take_operand-append (length v) v rest)

read_operand_one :
    (v rest : Bytes)
    → op_pushdata1 ≤ length v
    → length v ≤ 0xff
    → get_op ((op_pushdata1 ∷ length v ∷ v) ++ rest) ≡ some (op_pushdata1, v, rest)
unfolding get_op
read_operand_one v rest h k = ground (arith, take_operand-append op_pushdata1 v rest)

read_operand_two :
    (v rest : Bytes) (a b : ℕ)
    → a + 256 * b ≡ length v
    → get_op ((op_pushdata2 ∷ a ∷ b ∷ v) ++ rest) ≡ some (op_pushdata2, v, rest)
unfolding get_op
read_operand_two v rest a b e = ground (arith, take_operand-append op_pushdata2 v rest)

-- `GetOp` reads back a vector of up to 65535 bytes that `operator<<` wrote, whatever follows it.
pub get_op-push_data :
    (v rest : Bytes)
    → length v ≤ 65535
    → get_op (push_data v ++ rest) ≡ some (push_opcode_of v, v, rest)
unfolding push_data push_opcode_of
get_op-push_data v rest h = elim (Bool-cases (ltb (length v) op_pushdata1)) [
  | inl a ↦ rw a (read_operand_short v rest (ltb→lt _ _ a))
  | inr a ↦ rw a (elim (Bool-cases (leb (length v) 0xff)) [
    | inl b ↦ rw b (read_operand_one v rest (ground arith) (leb→le _ _ b))
    | inr b ↦ rw b (read_operand_two v rest _ _ (omega arith))
  ])
]

pub push_opcode_of-le : (v : Bytes) → push_opcode_of v ≤ op_pushdata2
unfolding push_opcode_of
push_opcode_of-le v = ground arith
