-- ===== src/Script/Sighash.antt =====
-- script.cpp: `SignatureHash` and `CheckSig`.
pub mod Coverage
pub mod Commits
use bitok_classic.Prelude.{
  ℕ, zero, suc, ◌+◌, ◌-◌, ◌≤◌, Bool, true, false, ◌&&◌, ◌||◌, not, Option, none, some, bit_and,
}
use bitok_classic.Prelude.{
  List, [], ◌∷◌, ◌++◌, Bytes, length, get_elem?, get_or, take, replicate, map, leb, ltb, ◌==◌,
  if◌then◌else◌,
}
use bitok_classic.Prelude.Int.{ℤ}
use bitok_classic.Serialize.{write_uint}
use bitok_classic.Transaction.{TxIn, TxOut, Transaction, null_output, uint256_1, write_transaction}
use bitok_classic.Script.Opcode.{op_codeseparator}
use bitok_classic.Script.Parse.{push_opcode, find_and_delete}
use bitok_classic.Script.Crypto.{Crypto, hash256, set_pub_key, key_verify}

abbrev pub sighash_none : ℕ
sighash_none = 2

abbrev pub sighash_single : ℕ
sighash_single = 3

abbrev pub clear_script : TxIn → TxIn
clear_script i = record i { script_sig = [] }

abbrev pub clear_sequence : TxIn → TxIn
clear_sequence i = record i { sequence = 0 }

-- The loop that clears each `scriptSig`, and the assignment of `scriptCode` to that of `n_in`.
unfoldable pub blank_scripts : ℕ → Bytes → List TxIn → List TxIn
blank_scripts n_in code [] = []
blank_scripts zero code (i ∷ is) = record i { script_sig = code } ∷ map clear_script is
blank_scripts (suc n) code (i ∷ is) = clear_script i ∷ blank_scripts n code is

-- The loop that sets `nSequence` of all inputs but `n_in` to 0.
unfoldable pub zero_sequences : ℕ → List TxIn → List TxIn
zero_sequences n_in [] = []
zero_sequences zero (i ∷ is) = i ∷ map clear_sequence is
zero_sequences (suc n) (i ∷ is) = clear_sequence i ∷ zero_sequences n is

-- `txTmp.vout.resize(nOut+1)` with the outputs before `n_out` set null.
unfoldable pub single_output : ℕ → List TxOut → List TxOut
single_output n [] = []
single_output zero (o ∷ os) = o ∷ []
single_output (suc n) (o ∷ os) = null_output ∷ single_output n os

-- `txTmp.vin[0] = txTmp.vin[nIn]; txTmp.vin.resize(1)`.
unfoldable pub only_input : ℕ → List TxIn → List TxIn
only_input n is = elim (get_elem? is n) [ none ↦ is | some i ↦ i ∷ [] ]

abbrev pub is_none : ℕ → Bool
is_none hash_type = bit_and hash_type 0x1f == sighash_none

abbrev pub is_single : ℕ → Bool
is_single hash_type = bit_and hash_type 0x1f == sighash_single

abbrev pub is_anyonecanpay : ℕ → Bool
is_anyonecanpay hash_type = not (bit_and hash_type 0x80 == 0)

-- The copy of the transaction that is hashed; `none` where the source returns 1.
unfoldable pub signed_copy : Bytes → Transaction → ℕ → ℕ → Option Transaction
signed_copy script_code tx n_in hash_type =
    let code = find_and_delete (push_opcode op_codeseparator) script_code in
    let ins = blank_scripts n_in code tx.vin in
    let ins' =
      (if is_none hash_type || is_single hash_type then zero_sequences n_in ins else ins) in
    let outs =
      (if is_none hash_type
        then []
        else if is_single hash_type
        then single_output n_in tx.vout
        else tx.vout) in
    let ins'' = (if is_anyonecanpay hash_type then only_input n_in ins' else ins') in
    if leb (length tx.vin) n_in
    then none
    else if not (is_none hash_type) && (is_single hash_type && leb (length tx.vout) n_in)
    then none
    else some (record tx { vin = ins''; vout = outs })

-- `SignatureHash`: the hash of the copy and of `nHashType`, an int.
unfoldable pub signature_hash : Crypto → Bytes → Transaction → ℕ → ℕ → Bytes
signature_hash lib script_code tx n_in hash_type =
    elim (signed_copy script_code tx n_in hash_type) [
      | none ↦ uint256_1
      | some copy ↦ hash256 lib (write_transaction copy ++ write_uint 4 hash_type)
    ]

-- `vchSig.pop_back()`
abbrev pub pop_back : Bytes → Bytes
pop_back sig = take (length sig - 1) sig

-- `CheckSig`; `exec` is the flag SCRIPT_VERIFY_EXEC.
unfoldable pub check_sig : Crypto → Bytes → Bytes → Bytes → Transaction → ℕ → ℕ → Bool → Bool
check_sig lib sig pub_key script_code tx n_in hash_type exec =
    let last = get_or sig (length sig - 1) 0 in
    if length pub_key == 0
    then false
    else if not (set_pub_key lib pub_key)
    then false
    else if length sig == 0
    then false
    else if not (hash_type == 0) && not (hash_type == last)
    then false
    else if exec && (is_single last && leb (length tx.vout) n_in)
    then false
    else key_verify lib pub_key (signature_hash lib script_code tx n_in last) (pop_back sig)
