-- ===== src/Script/Eval/Signatures.antt =====
-- script.cpp: the block "Crypto" of the switch.
pub mod Matching
use bitok_classic.Prelude.{
  ℕ, zero, suc, ◌+◌, Bool, true, false, not, ◌&&◌, Option, none, some, List, [], ◌∷◌, ◌>>=◌, ◌>>◌,
  refuse, require,
}
use bitok_classic.Prelude.{Bytes, length, take, drop, leb, ltb, ◌==◌, if◌then◌else◌}
use bitok_classic.Prelude.Int.{ℤ}
use bitok_classic.Script.Opcode.{
  HashOp, ripemd160, sha1, sha256, hash160, hash256, max_pubkeys_per_multisig, max_ops_per_script,
}
use bitok_classic.Script.Parse.{push_data, find_and_delete}
use bitok_classic.Script.Number.{get_int}
use bitok_classic.Script.Crypto
use bitok_classic.Script.Signature.{check_signature_encoding}
use bitok_classic.Script.Sighash.{check_sig}
use bitok_classic.Script.Eval.State.{Context, State, number, bool_vch}
use bitok_classic.Script.Eval.Stack.{non_negative}
use bitok_classic.Script.Eval.Splice.{push_bool}

-- The digest of each label.
unfoldable pub digest : Context → HashOp → Bytes → Bytes
digest c ripemd160 v = c.lib.ripemd160 v
digest c sha1 v = c.lib.sha1 v
digest c sha256 v = c.lib.sha256 v
digest c hash160 v = Crypto.hash160 c.lib v
digest c hash256 v = Crypto.hash256 c.lib v

unfoldable pub exec_hash : Context → HashOp → List Bytes → Option (List Bytes)
exec_hash c op (x1 ∷ s) = some (digest c op x1 ∷ s)
exec_hash c op _ = none

-- `CheckSig` in the context.
abbrev pub checks : Context → Bytes → Bytes → Bytes → Bool
checks c code sig key = check_sig c.lib sig key code c.tx c.n_in c.hash_type c.exec

-- OP_CHECKSIG, and with `verify` OP_CHECKSIGVERIFY; `code` is the script from `pbegincodehash` on.
unfoldable pub exec_checksig : Context → Bool → Bytes → List Bytes → Option (List Bytes)
exec_checksig c verify code (key ∷ sig ∷ s) = do
  valid ← check_signature_encoding c.exec sig
  require valid
  push_bool verify (checks c (find_and_delete (push_data sig) code) sig key) s
exec_checksig c verify code _ = none

-- The loop that takes each signature out of the script.
unfoldable pub delete_all : List Bytes → Bytes → Bytes
delete_all [] code = code
delete_all (sig ∷ sigs) code = delete_all sigs (find_and_delete (push_data sig) code)

-- The loop that matches signatures with keys, over the signatures and the keys that are left:
-- `encoded` is `CheckSignatureEncoding` and `check` is `CheckSig`. There are never more signatures
-- than keys, so the second clause is not reached.
unfoldable pub match_loop :
    (Bytes → Option Bool) → (Bytes → Bytes → Bool) → List Bytes → List Bytes → Option Bool
match_loop encoded check keys [] = some true
match_loop encoded check [] (sig ∷ sigs) = some false
match_loop encoded check (key ∷ keys) (sig ∷ sigs) =
    let left = (if check sig key then sigs else sig ∷ sigs) in
    let rest = match_loop encoded check keys left in
    do
      valid ← encoded sig
      require valid
      if ltb (length keys) (length left) then some false else rest

-- The counts that OP_CHECKMULTISIG takes from the stack: an int from 0 to `most`.
unfoldable pub count_of : Context → ℕ → Bytes → Option ℕ
count_of c most v = do
  z ← number c v
  n ← non_negative (get_int c.bn z)
  refuse (ltb most n)
  some n

-- A number of elements from the top, and what is under them, of which one more is wanted.
unfoldable pub take_elements : ℕ → List Bytes → Option (List Bytes × Bytes × List Bytes)
take_elements n s = elim (drop n s) [ [] ↦ none | x ∷ rest ↦ some (take n s, x, rest) ]

-- OP_CHECKMULTISIG, and with `verify` OP_CHECKMULTISIGVERIFY: from `nOpCount` and the stack, to both.
unfoldable pub exec_checkmultisig :
    Context → Bool → Bytes → ℕ → List Bytes → Option (ℕ × List Bytes)
unfolding count_of take_elements
exec_checkmultisig c verify code op_count [] = none
exec_checkmultisig c verify code op_count (x1 ∷ s) = do
  n_keys ← count_of c max_pubkeys_per_multisig x1
  refuse (c.exec && ltb max_ops_per_script (op_count + n_keys))
  (keys, x2, s₂) ← take_elements n_keys s
  n_sigs ← count_of c n_keys x2
  (sigs, dummy, s₃) ← take_elements n_sigs s₂
  success ← match_loop (check_signature_encoding c.exec) (checks c (delete_all sigs code)) keys sigs
  refuse (c.exec && not (length dummy == 0))
  s' ← push_bool verify success s₃
  some (op_count + n_keys, s')
