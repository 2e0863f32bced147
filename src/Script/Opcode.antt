-- ===== src/Script/Opcode.antt =====
-- script.h: `enum opcodetype`, the limits, and the case labels of the switch in `EvalScript`.
-- An opcode is a number, as `GetOp` casts whatever it reads. `Case` has a constructor for each block
-- of the switch, over a type of its labels where the block tests the opcode again.
use bitok_classic.Prelude.{ℕ, ◌-◌, Bool, true, false, none, some, List, [], ◌∷◌, ◌++◌}
use bitok_classic.Prelude.{get_elem?, replicate, ltb, if◌then◌else◌}

abbrev pub op_0 : ℕ
op_0 = 0

abbrev pub op_pushdata1 : ℕ
op_pushdata1 = 76

abbrev pub op_pushdata2 : ℕ
op_pushdata2 = 77

abbrev pub op_pushdata4 : ℕ
op_pushdata4 = 78

abbrev pub op_1negate : ℕ
op_1negate = 79

abbrev pub op_1 : ℕ
op_1 = 81

abbrev pub op_16 : ℕ
op_16 = 96

abbrev pub op_if : ℕ
op_if = 99

abbrev pub op_verif : ℕ
op_verif = 101

abbrev pub op_vernotif : ℕ
op_vernotif = 102

abbrev pub op_endif : ℕ
op_endif = 104

abbrev pub op_codeseparator : ℕ
op_codeseparator = 171

abbrev pub op_checksig : ℕ
op_checksig = 172

abbrev pub op_checksigverify : ℕ
op_checksigverify = 173

abbrev pub op_checkmultisig : ℕ
op_checkmultisig = 174

abbrev pub op_checkmultisigverify : ℕ
op_checkmultisigverify = 175

abbrev pub op_singlebyte_end : ℕ
op_singlebyte_end = 0xf0

abbrev pub op_invalidopcode : ℕ
op_invalidopcode = 0xffff

abbrev pub max_script_size : ℕ
max_script_size = 10000

abbrev pub max_stack_size : ℕ
max_stack_size = 1000

abbrev pub max_script_element_size : ℕ
max_script_element_size = 520

abbrev pub max_ops_per_script : ℕ
max_ops_per_script = 201

abbrev pub max_pubkeys_per_multisig : ℕ
max_pubkeys_per_multisig = 20

abbrev pub max_bignum_size : ℕ
max_bignum_size = 4

pub data CondOp : Type 0 where
  on_if on_notif on_verif on_vernotif : CondOp

-- The stack operations that look at no number.
pub data ShuffleOp : Type 0 where
  drop2 dup2 dup3 over2 rot2 swap2 ifdup drop dup nip over rot swap tuck : ShuffleOp

pub data BitOp : Type 0 where
  and or xor : BitOp

pub data UnaryOp : Type 0 where
  add1 sub1 mul2 div2 negate abs not notequal0 : UnaryOp

pub data BinaryOp : Type 0 where
  add sub mul div modulo lshift rshift booland boolor numequal numequalverify : BinaryOp
  numnotequal lessthan greaterthan lessthanorequal greaterthanorequal min max : BinaryOp

pub data HashOp : Type 0 where
  ripemd160 sha1 sha256 hash160 hash256 : HashOp

-- The Boolean tells the two labels of a block apart: `roll` from `pick`, `right` from `left`, and the
-- `VERIFY` form.
pub data Case : Type 0 where
  small_int nop ver : Case
  cond : CondOp → Case
  cond_else cond_endif verify op_return toaltstack fromaltstack depth : Case
  shuffle : ShuffleOp → Case
  pick_roll : Bool → Case
  cat substr : Case
  left_right : Bool → Case
  size invert : Case
  bitwise : BitOp → Case
  equal : Bool → Case
  unary : UnaryOp → Case
  binary : BinaryOp → Case
  within : Case
  hash : HashOp → Case
  codeseparator : Case
  checksig checkmultisig : Bool → Case
  default : Case

-- The labels from OP_1NEGATE on, in the order of the enumeration.
abbrev pub case_table : List Case
case_table =
    small_int
    ∷ default
    ∷ (replicate 16 small_int
        ++ (nop
            ∷ ver
            ∷ cond on_if
            ∷ cond on_notif
            ∷ cond on_verif
            ∷ cond on_vernotif
            ∷ cond_else
            ∷ cond_endif
            ∷ verify
            ∷ op_return
            ∷ toaltstack
            ∷ fromaltstack
            ∷ shuffle drop2
            ∷ shuffle dup2
            ∷ shuffle dup3
            ∷ shuffle over2
            ∷ shuffle rot2
            ∷ shuffle swap2
            ∷ shuffle ifdup
            ∷ depth
            ∷ shuffle drop
            ∷ shuffle dup
            ∷ shuffle nip
            ∷ shuffle over
            ∷ pick_roll false
            ∷ pick_roll true
            ∷ shuffle rot
            ∷ shuffle swap
            ∷ shuffle tuck
            ∷ cat
            ∷ substr
            ∷ left_right false
            ∷ left_right true
            ∷ size
            ∷ invert
            ∷ bitwise and
            ∷ bitwise or
            ∷ bitwise xor
            ∷ equal false
            ∷ equal true
            ∷ default
            ∷ default
            ∷ unary add1
            ∷ unary sub1
            ∷ unary mul2
            ∷ unary div2
            ∷ unary negate
            ∷ unary abs
            ∷ unary not
            ∷ unary notequal0
            ∷ binary add
            ∷ binary sub
            ∷ binary mul
            ∷ binary div
            ∷ binary modulo
            ∷ binary lshift
            ∷ binary rshift
            ∷ binary booland
            ∷ binary boolor
            ∷ binary numequal
            ∷ binary numequalverify
            ∷ binary numnotequal
            ∷ binary lessthan
            ∷ binary greaterthan
            ∷ binary lessthanorequal
            ∷ binary greaterthanorequal
            ∷ binary min
            ∷ binary max
            ∷ within
            ∷ hash ripemd160
            ∷ hash sha1
            ∷ hash HashOp.sha256
            ∷ hash HashOp.hash160
            ∷ hash hash256
            ∷ codeseparator
            ∷ checksig false
            ∷ checksig true
            ∷ checkmultisig false
            ∷ checkmultisig true
            ∷ []))

unfoldable pub case_of : ℕ → Case
case_of opcode =
    if ltb opcode op_1negate
    then default
    else elim (get_elem? case_table (opcode - op_1negate)) [ none ↦ default | some c ↦ c ]
