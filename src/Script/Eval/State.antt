-- ===== src/Script/Eval/State.antt =====
-- script.cpp: the parameters and the local variables of `EvalScript`.
use bitok_classic.Prelude.{ℕ, Bool, true, false, Option, List, [], ◌∷◌, Bytes, ◌&&◌}
use bitok_classic.Prelude.Int.{ℤ}
use bitok_classic.Transaction.{Transaction}
use bitok_classic.Script.Opcode.{max_bignum_size}
use bitok_classic.Script.Number.{Bignum, cast_to_big_num, get_vch}
use bitok_classic.Script.Crypto.{Crypto}

-- The parameters: the libraries, the transaction, `nIn`, `nHashType`, and whether `flags` has
-- SCRIPT_VERIFY_EXEC.
pub record Context : Type 0 where
  pub bn : Bignum
  pub lib : Crypto
  pub tx : Transaction
  pub n_in : ℕ
  pub hash_type : ℕ
  pub exec : Bool

-- The variables: each stack with its top first; `code` is the script from `pbegincodehash` on.
pub record State : Type 0 where
  pub stack : List Bytes
  pub altstack : List Bytes
  pub vf_exec : List Bool
  pub op_count : ℕ
  pub code : Bytes

-- `vchTrue` and `vchFalse`.
abbrev pub bool_vch : Bool → Bytes
bool_vch true = 1 ∷ []
bool_vch false = []

-- `CastToBigNum` with its default size, and `getvch`, in the context.
abbrev pub number : Context → Bytes → Option ℤ
number c = cast_to_big_num c.bn c.exec max_bignum_size

abbrev pub vch_of : Context → ℤ → Bytes
vch_of c = get_vch c.bn

-- `!count(vfExec.begin(), vfExec.end(), false)`
unfoldable pub all_true : List Bool → Bool
all_true [] = true
all_true (b ∷ bs) = b && all_true bs
