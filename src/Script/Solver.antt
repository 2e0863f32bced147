-- ===== src/Script/Solver.antt =====
-- script.cpp: `Solver`, the first form, and `ExtractHash160`. The loops take a unit of fuel for each byte
-- of the script, and are `none` without.
pub mod Multisig
use bitok_classic.Prelude.{
  ℕ, zero, suc, ◌+◌, ◌-◌, Bool, true, false, not, ◌&&◌, ◌||◌, Option, none, some, List, [], ◌∷◌,
  ◌++◌, map, reverse, ◌>>=◌, ◌>>◌, require,
}
use bitok_classic.Prelude.{Bytes, length, leb, ◌==◌, if◌then◌else◌}
use bitok_classic.Prelude.Int.{pos}
use bitok_classic.Script.Opcode.{op_1, op_16, op_checksig, op_checkmultisig}
use bitok_classic.Script.Parse.{get_op, push_opcode}
use bitok_classic.Script.Number.{Bignum, get_vch}
use bitok_classic.Script.Address.{op_dup, op_hash160, op_equalverify}

abbrev pub op_sha256 : ℕ
op_sha256 = 168

abbrev pub op_pubkey : ℕ
op_pubkey = 0xf001

abbrev pub op_pubkeyhash : ℕ
op_pubkeyhash = 0xf002

abbrev pub op_hashdata : ℕ
op_hashdata = 0xf003

-- `CScript() << a << b << ...`
abbrev pub push_opcodes : List ℕ → Bytes
push_opcodes [] = []
push_opcodes (o ∷ os) = push_opcode o ++ push_opcodes os

abbrev pub pay_to_hash : List ℕ
pay_to_hash = op_dup ∷ op_hash160 ∷ op_pubkeyhash ∷ op_equalverify ∷ op_checksig ∷ []

-- `vTemplates`
abbrev pub templates : List Bytes
templates =
    push_opcodes (op_pubkey ∷ op_checksig ∷ [])
    ∷ push_opcodes pay_to_hash
    ∷ push_opcodes (op_hash160 ∷ op_hashdata ∷ op_equalverify ∷ pay_to_hash)
    ∷ push_opcodes (op_sha256 ∷ op_hashdata ∷ op_equalverify ∷ pay_to_hash)
    ∷ []

-- The tests of one pair of instructions: what it adds to `vSolutionRet`, or `none` at a `break`.
unfoldable pub match_opcode : ℕ → Bytes → ℕ → Option (List (ℕ × Bytes))
match_opcode opcode1 vch1 opcode2 =
    if opcode2 == op_pubkey
    then (if leb (length vch1) 32 then none else some ((opcode2, vch1) ∷ []))
    else if opcode2 == op_pubkeyhash
    then (if length vch1 == 20 then some ((opcode2, vch1) ∷ []) else none)
    else if opcode2 == op_hashdata
    then (if (length vch1 == 20) || (length vch1 == 32) then some ((opcode2, vch1) ∷ []) else none)
    else if opcode1 == opcode2
    then some []
    else none

-- The loop over both scripts.
unfoldable pub match_template : ℕ → Bytes → Bytes → Option (List (ℕ × Bytes))
unfolding match_opcode
match_template zero pc1 pc2 = none
match_template (suc fuel) pc1 pc2 = elim (get_op pc1) [
  | none ↦ elim (get_op pc2) [ none ↦ some [] | some r ↦ none ]
  | some (opcode1, vch1, pc1') ↦ elim (get_op pc2) [
    | none ↦ none
    | some (opcode2, _, pc2') ↦ do
      here ← match_opcode opcode1 vch1 opcode2
      later ← match_template fuel pc1' pc2'
      some (here ++ later)
  ]
]

-- The loop over the templates.
unfoldable pub match_templates : Bytes → List Bytes → Option (List (ℕ × Bytes))
unfolding match_template
match_templates script [] = none
match_templates script (t ∷ ts) = elim (match_template (suc (length script)) script t) [
  | none ↦ match_templates script ts
  | some solution ↦ some (reverse solution)
]

abbrev pub is_small_int : ℕ → Bool
is_small_int opcode = leb op_1 opcode && leb opcode op_16

-- What follows the number of keys: OP_CHECKMULTISIG, and the end.
unfoldable pub multisig_end : ℕ → ℕ → Bytes → List Bytes → Option (List Bytes)
multisig_end n_required n_keys pc keys = do
  (opcode, _, pc') ← get_op pc
  require (opcode == op_checkmultisig)
  require (length pc' == 0)
  require (length keys == n_keys)
  require (leb 1 n_required && leb n_required n_keys)
  some keys

-- The loop over the keys, from those that it has read.
unfoldable pub keys_loop : ℕ → ℕ → Bytes → List Bytes → Option (List Bytes)
unfolding multisig_end
keys_loop zero n_required pc keys = none
keys_loop (suc fuel) n_required pc keys = elim (get_op pc) [
  | none ↦ none
  | some (opcode, vch, pc') ↦
      if is_small_int opcode
      then multisig_end n_required (opcode - (op_1 - 1)) pc' keys
      else if (length vch == 33) || (length vch == 65)
      then keys_loop fuel n_required pc' (keys ++ vch ∷ [])
      else none
]

-- The block behind the templates.
unfoldable pub solve_multisig : Bignum → Bytes → Option (List (ℕ × Bytes))
unfolding keys_loop
solve_multisig bn script = do
  (opcode, _, pc) ← get_op script
  require (is_small_int opcode)
  let n_required = opcode - (op_1 - 1)
  keys ← keys_loop (suc (length pc)) n_required pc []
  some ((op_checkmultisig, get_vch bn (pos n_required)) ∷ map (λ key. (op_pubkey, key)) keys)

unfoldable pub solver : Bignum → Bytes → Option (List (ℕ × Bytes))
unfolding match_templates solve_multisig
solver bn script = elim (match_templates script templates) [
  | none ↦ solve_multisig bn script
  | some solution ↦ some solution
]

-- The loop of `ExtractHash160`.
abbrev pub first_hash : List (ℕ × Bytes) → Option Bytes
first_hash [] = none
first_hash ((opcode, vch) ∷ rest) = if opcode == op_pubkeyhash then some vch else first_hash rest

unfoldable pub extract_hash160 : Bignum → Bytes → Option Bytes
unfolding solver
extract_hash160 bn script = do solution ← solver bn script; first_hash solution
